-- ===== src/Host/Exception/Tests.antt =====
-- The exception on a small down queue.
use carl9170fw.Base.{ℕ, ◌≡◌, refl, [], ◌∷◌, some, arith}
use carl9170fw.Dma.{Desc, Heap, Queue, update}
use carl9170fw.Dma.Shape.{IsQueue}
use carl9170fw.Host.Exception.{put_back_loop}
use carl9170fw.Host.Exception.Rotated.{Rotated, put_back_loop-Rotated}

abbrev cell : ℕ → ℕ → ℕ → Desc
cell last buf next = record {
  status = 1;
  ctrl = 0;
  data_size = 320;
  total_len = 0;
  last_addr = last;
  data_addr = buf;
  next_addr = next;
}

-- Packets at 10 and 11, at 20, and at 30, and the terminator at 100. The hardware stands at 30.
abbrev memory : Heap
memory =
    update
      (update (update (update (λ a. cell a 0 a) 10 (cell 11 5000 11)) 11 (cell 11 5100 20)) 20
        (cell 20 5200 30))
      30 (cell 30 5300 100)

abbrev down : Queue
down = record { head = 10; terminator = 100 }

down-IsQueue : IsQueue memory down ((10, 11 ∷ []) ∷ (20, []) ∷ (30, []) ∷ [])
down-IsQueue = record {
  linked = (refl, (refl, (refl, tt)), (refl, (refl, tt), (refl, (refl, tt), refl)));
  distinct = omega arith;
}

put_back_loop-Rotated_example :
    (r : Heap × Queue) × (put_back_loop 3 4 30 down memory ≡ some r)
    × Rotated memory 30 ((10, 11 ∷ []) ∷ (20, []) ∷ []) ((30, []) ∷ []) r
put_back_loop-Rotated_example =
    put_back_loop-Rotated 3 4 30 ((10, 11 ∷ []) ∷ (20, []) ∷ []) [] [] down memory down-IsQueue
      ((refl, omega arith), ((refl, omega arith), tt)) (omega arith)
