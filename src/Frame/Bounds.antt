-- ===== src/Frame/Bounds.antt =====
-- The data stay in the allocated payload.
use carl9170fw.Base.{
  ℕ, ◌+◌, ◌^◌, ◌≤◌, ◌<◌, ◌≡◌, refl, Option, none, some, ◌>>=◌, arith, List, [], ◌∷◌, All,
}
use carl9170fw.Frame.{
  Frame, Call, put, push, pull, call, calls, size, frame_put, frame_push, frame_pull,
}

-- The addresses of a frame in memory, which lies above the lowest 4 GB and below the highest.
pub record IsValid (f : Frame) : Type 0 where
  pub base : 2 ^ 32 ≤ f.payload
  pub top : f.payload + f.alloced + 2 ^ 32 < 2 ^ 64
  pub words : f.alloced < 2 ^ 32
  pub heads : f.head ≡ f.payload
  pub front : f.payload ≤ f.start
  pub filled : f.start + f.len ≡ f.tail
  pub back : f.tail ≤ f.payload + f.alloced

put-IsValid :
    (n : ℕ) (f f' : Frame) → n < 2 ^ 32 → IsValid f → call (put n) f ≡ some f' → IsValid f'
unfolding frame_put
put-IsValid n f f' p v e = ground arith

push-IsValid :
    (n : ℕ) (f f' : Frame) → n < 2 ^ 32 → IsValid f → call (push n) f ≡ some f' → IsValid f'
unfolding frame_push
push-IsValid n f f' p v e = ground arith

pull-IsValid :
    (n : ℕ) (f f' : Frame) → n < 2 ^ 32 → IsValid f → call (pull n) f ≡ some f' → IsValid f'
unfolding frame_pull
pull-IsValid n f f' p v e = ground arith

call-IsValid :
    (c : Call) (f f' : Frame) → size c < 2 ^ 32 → IsValid f → call c f ≡ some f' → IsValid f'
call-IsValid (put n) = put-IsValid n
call-IsValid (push n) = push-IsValid n
call-IsValid (pull n) = pull-IsValid n

-- On a frame whose fields fit together and that is 4 GB away from both ends of the address space:
-- whatever sizes below 4 GB `frame_put`, `frame_push` and `frame_pull` are called with, and in any
-- order, also after `total_len` has gone wrong: they stop at a `BUG_ON`, or they leave the data
-- between the head and the end of the allocation, as long as `len` says.
pub calls-IsValid :
    (cs : List Call) (f f' : Frame)
    → All (λ c. size c < 2 ^ 32) cs
    → IsValid f
    → calls cs f ≡ some f'
    → IsValid f'
calls-IsValid [] f f' ss v e = ground arith
calls-IsValid (c ∷ cs) f f' ss v e = go (call c f) refl e (λ g. calls-IsValid cs g f' ss.1)
  where
    go :
        (o : Option Frame)
        → call c f ≡ o
        → (o >>= λ g. calls cs g) ≡ some f'
        → ((g : Frame) → IsValid g → calls cs g ≡ some f' → IsValid f')
        → IsValid f'
    go none p q r = ground arith
    go (some g) p q r = r g (call-IsValid c f g ss.0 v p) q
