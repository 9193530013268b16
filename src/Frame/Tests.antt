-- ===== src/Frame/Tests.antt =====
-- A buffer of 40 bytes at 8 GB with 8 bytes of head room and 12 of data.
use carl9170fw.Base.{◌+◌, ◌^◌, ◌≡◌, refl, [], ◌∷◌, some, arith, ◌>>=◌}
use carl9170fw.Frame.{
  Frame, frame_put, frame_push, frame_pull, frame_reserve, frame_trim, frame_alloc, put, push, pull,
  calls,
}
use carl9170fw.Frame.Bounds.{IsValid, calls-IsValid}
use carl9170fw.Frame.Account.{Behaves, ops-Behaves}

abbrev buffer : Frame
buffer = record {
  len = 12;
  total_len = 20;
  alloced = 40;
  payload = 2 ^ 33;
  head = 2 ^ 33;
  start = 2 ^ 33 + 8;
  tail = 2 ^ 33 + 20;
}

made : (frame_reserve 8 (frame_alloc 40 (2 ^ 33)) >>= frame_put 12) ≡ some (2 ^ 33 + 8, buffer)
unfolding frame_reserve frame_alloc frame_put
made = refl

buffer-IsValid : IsValid buffer
buffer-IsValid = record {
  base = omega arith;
  top = omega arith;
  words = omega arith;
  heads = refl;
  front = omega arith;
  filled = refl;
  back = omega arith;
}

calls-IsValid_example :
    IsValid (record buffer { len = 14; total_len = 18; start = 2 ^ 33 + 10; tail = 2 ^ 33 + 24 })
unfolding frame_put frame_push frame_pull
calls-IsValid_example =
    calls-IsValid (pull 6 ∷ push 4 ∷ put 4 ∷ []) buffer _
      (omega arith, (omega arith, (omega arith, tt))) buffer-IsValid refl

ops-Behaves_example : Behaves 8 buffer
ops-Behaves_example =
    ops-Behaves 8 buffer (omega arith) (record { valid = buffer-IsValid; total = refl })

-- Then `frame_trim` takes a length that the buffer does not have.
trim_over :
    (calls (push 8 ∷ pull 8 ∷ pull 12 ∷ push 1 ∷ pull 1 ∷ []) buffer >>= frame_trim 1000000)
    ≡ some (record buffer {
      len = 1000000;
      total_len = 1000000;
      start = 2 ^ 33;
      tail = 2 ^ 33 + 1000000;
    })
unfolding frame_put frame_push frame_pull frame_trim
trim_over = refl
