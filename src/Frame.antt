-- ===== src/Frame.antt =====
-- tools/include/frame.h: the buffers of the host tools, with their head and tail room. An address
-- is a number of 64 bits, `BUG_ON` ends in `none`.
pub mod Bounds
pub mod Account
mod Tests
use carl9170fw.Base.{
  ℕ, ◌+◌, ◌-◌, ◌==◌, ◌^◌, ◌%◌, ltb, if◌then◌else◌, Option, none, some, ◌>>=◌, u32, sub32, List, [],
  ◌∷◌,
}

-- `struct frame` without its lists, control block and reference counter; its `data`
-- is `start` here.
pub record Frame : Type 0 where
  pub len : ℕ
  pub total_len : ℕ
  pub alloced : ℕ
  pub payload : ℕ
  pub head : ℕ
  pub start : ℕ
  pub tail : ℕ

-- Pointer arithmetic.
abbrev pub u64 : ℕ → ℕ
u64 n = n % 2 ^ 64

abbrev pub sub64 : ℕ → ℕ → ℕ
sub64 a b = (a + 2 ^ 64 - b) % 2 ^ 64

-- `frame_put`: the requested location, and the frame.
pub frame_put : ℕ → Frame → Option (ℕ × Frame)
frame_put size f =
    if ltb f.alloced (u32 (f.total_len + size))
    then none
    else (if ltb (u64 (f.payload + f.alloced)) (u64 (f.tail + size))
        then none
        else some (
          f.tail,
          record f {
            len = u32 (f.len + size);
            total_len = u32 (f.total_len + size);
            tail = u64 (f.tail + size);
          },
        ))

-- `frame_push`
pub frame_push : ℕ → Frame → Option (ℕ × Frame)
frame_push size f =
    if ltb (sub64 f.start size) f.payload
    then none
    else some
        (sub64 f.start size, record f { len = u32 (f.len + size); start = sub64 f.start size })

-- `frame_pull`
pub frame_pull : ℕ → Frame → Option (ℕ × Frame)
frame_pull size f =
    if ltb f.len size
    then none
    else some (
      u64 (f.start + size),
      record f {
        len = sub32 f.len size;
        total_len = sub32 f.total_len size;
        start = u64 (f.start + size);
      },
    )

-- `frame_reserve`
pub frame_reserve : ℕ → Frame → Option Frame
frame_reserve size f =
    if ltb f.alloced (u32 (f.total_len + size))
    then none
    else (if f.len == 0
        then some (record f {
          total_len = u32 (f.total_len + size);
          start = u64 (f.start + size);
          tail = u64 (f.tail + size);
        })
        else none)

-- `frame_trim`
pub frame_trim : ℕ → Frame → Option Frame
frame_trim size f =
    if ltb f.total_len size
    then none
    else some
        (record f { len = size; total_len = size; start = f.head; tail = u64 (f.head + size) })

-- `frame_alloc`, where `malloc` gave memory with the payload at this address.
pub frame_alloc : ℕ → ℕ → Frame
frame_alloc size payload = record {
  len = 0;
  total_len = 0;
  alloced = size;
  payload = payload;
  head = payload;
  start = payload;
  tail = payload;
}

-- A call that moves one end of the data.
pub data Call : Type 0 where
  put : ℕ → Call
  push : ℕ → Call
  pull : ℕ → Call

-- The frame after a call.
abbrev pub call : Call → Frame → Option Frame
call (put n) f = frame_put n f >>= λ r. some r.1
call (push n) f = frame_push n f >>= λ r. some r.1
call (pull n) f = frame_pull n f >>= λ r. some r.1

abbrev pub size : Call → ℕ
size (put n) = n
size (push n) = n
size (pull n) = n

-- The frame after several.
abbrev pub calls : List Call → Frame → Option Frame
calls [] f = some f
calls (c ∷ cs) f = call c f >>= λ f'. calls cs f'
