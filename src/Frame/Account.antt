-- ===== src/Frame/Account.antt =====
-- What each function of frame.h does, in numbers that do not wrap round, as long as `total_len` is
-- what lies between the start of the payload and the tail.
use carl9170fw.Base.{
  ℕ, ◌+◌, ◌-◌, ◌==◌, ◌^◌, ◌≤◌, ◌<◌, ◌≡◌, if◌then◌else◌, none, some, ◌>>=◌, sub32, arith, leb,
}
use carl9170fw.Frame.{Frame, frame_put, frame_push, frame_pull, frame_reserve, frame_trim}
use carl9170fw.Frame.Bounds.{IsValid}

pub record IsAccounted (f : Frame) : Type 0 where
  pub valid : IsValid f
  pub total : f.payload + f.total_len ≡ f.tail

-- The room behind the data, and before them.
abbrev pub tailroom : Frame → ℕ
tailroom f = f.payload + f.alloced - f.tail

abbrev pub headroom : Frame → ℕ
headroom f = f.start - f.payload

pub record Behaves (n : ℕ) (f : Frame) : Type 0 where
  pub puts : frame_put n f ≡ (
      if leb n (tailroom f)
      then some
          (f.tail, record f { len = f.len + n; total_len = f.total_len + n; tail = f.tail + n })
      else none)
  pub pushes : frame_push n f ≡ (
      if leb n (headroom f)
      then some (f.start - n, record f { len = f.len + n; start = f.start - n })
      else none)
  pub pulls : frame_pull n f ≡ (
      if leb n f.len
      then some (
        f.start + n,
        record f { len = f.len - n; total_len = f.total_len - n; start = f.start + n },
      )
      else none)
  pub reserves : frame_reserve n f ≡ (
      if leb n (tailroom f)
      then (if f.len == 0
          then some
              (record f { total_len = f.total_len + n; start = f.start + n; tail = f.tail + n })
          else none)
      else none)
  pub trims : frame_trim n f ≡ (
      if leb n f.total_len
      then some (record f { len = n; total_len = n; start = f.payload; tail = f.payload + n })
      else none)

-- On an accounted frame, and for a size that does not take its length over 4 GB, the five functions
-- do the following in C's arithmetic, without a wrap. `frame_put` returns exactly if the size fits
-- the room behind the data, and moves the tail up by it. `frame_push` returns exactly if the size
-- fits the room before the data, and moves the start down by it. `frame_pull` returns exactly if
-- the data are that long, and moves the start up by it. `frame_reserve` returns exactly if the size
-- fits the room behind the data and the frame has no data, and moves start and tail up by it.
-- `frame_trim` returns exactly if the size is at most `total_len`, and makes the data that many
-- octets from the start of the payload on. The lengths follow, and all else stops at a `BUG_ON`.
pub ops-Behaves : (n : ℕ) (f : Frame) → f.total_len + n < 2 ^ 32 → IsAccounted f → Behaves n f
unfolding frame_put frame_push frame_pull frame_reserve frame_trim
ops-Behaves n f p v = record {
  puts = ground arith;
  pushes = ground arith;
  pulls = ground arith;
  reserves = ground arith;
  trims = ground arith;
}

-- Pushing and then pulling the same size gives back the frame but for its `total_len`, which is
-- lower by that size.
pub pull-push :
    (n : ℕ) (f : Frame)
    → n < 2 ^ 32
    → IsValid f
    → n ≤ headroom f
    → (frame_push n f >>= λ r. frame_pull n r.1)
      ≡ some (f.start, record f { total_len = sub32 f.total_len n })
unfolding frame_push frame_pull
pull-push n f p v q = ground arith
