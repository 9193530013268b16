-- ===== src/Tx/Beacon/Tests.antt =====
-- A beacon with an element of two octets and a TIM element of four.
use carl9170fw.Base.{ℕ, ◌≡◌, refl, [], ◌∷◌, some, arith, false}
use carl9170fw.Tx.Beacon.{Cab, empty, armed, beacon_find_ie, modify_beacon, update_tim, write}
use carl9170fw.Tx.Beacon.Elements.{beacon_find_ie-place}

abbrev octets : ℕ → ℕ
octets = write 37 2 (write 40 5 (write 41 4 (write 42 0 (λ i. 1))))

beacon_find_ie-place_example : beacon_find_ie 51 5 octets 50 ≡ some (some 40)
beacon_find_ie-place_example =
    beacon_find_ie-place 51 5 octets 50 ((1, 2) ∷ (5, 4) ∷ []) (omega arith) (omega arith)
      (refl, refl, (refl, refl, refl)) (omega arith)

-- Frames wait in the queue.
abbrev cab : Cab
cab = record { octets = octets; queue_empty = false; queue_len = 2; flush_trigger = empty }

-- The bit for them is set, and they are to be sent.
signalled :
    modify_beacon 51 50 cab
    ≡ some (record cab { octets = write 44 1 octets; flush_trigger = armed })
unfolding modify_beacon beacon_find_ie update_tim
signalled = refl
