-- ===== src/Dma/Tests.antt =====
-- The queue operations on a small memory: a terminator at 100 and a packet of two descriptors at 10
-- and 11.
use carl9170fw.Base.{ℕ, ◌≡◌, refl, [], ◌∷◌, Option, some, none, arith}
use carl9170fw.Dma.{
  Desc, Heap, Queue, update, clear_descriptor, put, put_loop, put_round, put_tail, reclaim,
  unlink_head, exchange, set_next, set_last, disown,
}
use carl9170fw.Dma.Shape.{IsQueue}
use carl9170fw.Dma.Append.{Appended, put-Appended}
use carl9170fw.Dma.Reclaim.{Reclaimed, reclaim-Reclaimed}
use carl9170fw.Dma.Unlink.{Unlinked, unlink_head-Unlinked}

abbrev blank : Desc
blank = record {
  status = 0;
  ctrl = 0;
  data_size = 0;
  total_len = 0;
  last_addr = 0;
  data_addr = 0;
  next_addr = 0;
}

abbrev memory : Heap
memory =
    update
      (update (clear_descriptor 100 (λ a. blank)) 10 (record blank {
        data_size = 320;
        total_len = 400;
        last_addr = 11;
        data_addr = 5000;
        next_addr = 11;
      }))
      11 (record blank { data_size = 80; last_addr = 11; data_addr = 6000; next_addr = 11 })

abbrev idle : Queue
idle = record { head = 100; terminator = 100 }

-- The same packet in a queue that ends at 12.
abbrev loaded_memory : Heap
loaded_memory = update memory 11 (record (memory 11) { next_addr = 12 })

abbrev loaded : Queue
loaded = record { head = 10; terminator = 12 }

idle-IsQueue : IsQueue memory idle []
idle-IsQueue = record { linked = refl; distinct = (tt, tt) }

loaded-IsQueue : IsQueue loaded_memory loaded ((10, 11 ∷ []) ∷ [])
loaded-IsQueue = record { linked = (refl, (refl, (refl, tt)), refl); distinct = omega arith }

put-Appended_example :
    (r : Heap × Queue) × (put 2 idle 10 memory ≡ some r) × Appended memory idle [] 10 (11 ∷ []) r
put-Appended_example =
    put-Appended 2 idle 10 (11 ∷ []) memory [] (omega arith) idle-IsQueue (refl, (refl, tt))
      (omega arith) (omega arith)

reclaim-Reclaimed_example :
    (r : Heap × Queue) × (reclaim 2 idle 10 memory ≡ some r)
    × Reclaimed memory idle [] 10 (11 ∷ []) r
reclaim-Reclaimed_example =
    reclaim-Reclaimed 2 idle 10 (11 ∷ []) memory [] (omega arith) idle-IsQueue (refl, (refl, tt))
      (omega arith) (omega arith)

unlink_head-Unlinked_example :
    Unlinked loaded_memory loaded (10, 11 ∷ []) [] (unlink_head loaded loaded_memory)
unlink_head-Unlinked_example =
    unlink_head-Unlinked loaded_memory loaded (10, 11 ∷ []) [] loaded-IsQueue

-- A put and a take give the packet back, now at the old terminator.
abbrev taken : Option (Heap × Queue) → Option ℕ
taken none = none
taken (some r) = (unlink_head r.1 r.0).0

put_then_take : taken (put 2 idle 10 memory) ≡ some 100
unfolding put put_loop put_round put_tail exchange set_next set_last disown unlink_head
put_then_take = refl
