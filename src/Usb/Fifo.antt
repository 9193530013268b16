-- ===== src/Usb/Fifo.antt =====
-- The message ring is a queue as long as it does not overflow.
use carl9170fw.Base.{
  ℕ, suc, ◌+◌, ◌-◌, ◌%◌, ◌≤◌, ◌<◌, ◌≡◌, refl, ◌∙◌, ap, List, [], ◌∷◌, ◌++◌, Option, some, none,
  arith, length, get_or, set, length-set, get_or-set_self, u8, ltb, ◌==◌, if◌then◌else◌, ==-ne,
  set-set, false, Bool-cases, ltb→lt, inl, inr, zero, All, take, drop, take-append, append-nil,
  length-append, length-take, length-drop,
}
use native.Mathlib.Numerals.{add-one}
use carl9170fw.Ring.{window, window-set}
use carl9170fw.Usb.{
  Rsp, Usb, blank, int_rq_caches, max_payload, memcpy, get_int_buf, dequeue_int_buf,
  send_cmd_to_host,
}

-- The messages that wait, oldest first.
abbrev pub messages : Usb → List Rsp
messages u = window blank int_rq_caches u.int_buf u.int_head_index u.int_pending

pub record IsValid (u : Usb) : Type 0 where
  pub slots : length u.int_buf ≡ int_rq_caches
  pub head_in : u.int_head_index < int_rq_caches
  pub pending_in : u.int_pending ≤ int_rq_caches
  pub tail_is : u.int_tail_index ≡ (u.int_head_index + u.int_pending) % int_rq_caches

-- The message that `send_cmd_to_host` composes in the slot at the tail.
abbrev pub composed : ℕ → ℕ → ℕ → List ℕ → Usb → Rsp
composed len type ext body u = record {
  len = len;
  cmd = type;
  seq = u8 u.int_tail_index;
  ext = ext;
  body = memcpy (get_or u.int_buf u.int_tail_index blank).body body len;
}

module _ (len type ext : ℕ) (body : List ℕ) (u : Usb) where
  abbrev pub sent : Usb
  sent = record u {
    int_buf = set u.int_buf u.int_tail_index (composed len type ext body u);
    int_tail_index = (u.int_tail_index + 1) % int_rq_caches;
    int_pending = if u.int_pending == int_rq_caches then u.int_pending else u.int_pending + 1;
    in_triggers = suc u.in_triggers;
  }

  -- The slot that `get_int_buf` prepares is the one that is filled.
  pub send_cmd_to_host-sent :
      u.int_tail_index < length u.int_buf → send_cmd_to_host len type ext body u ≡ sent
  unfolding send_cmd_to_host get_int_buf
  send_cmd_to_host-sent h =
      let prepared : Rsp = record (get_or u.int_buf u.int_tail_index blank) {
        seq = u8 u.int_tail_index;
      } in
      simp (
        get_or-set_self u.int_buf u.int_tail_index prepared blank h,
        set-set u.int_buf u.int_tail_index prepared (composed len type ext body u),
      )

  module _ (v : IsValid u) where
    -- The tail stays inside the array.
    pub tail_in : u.int_tail_index < length u.int_buf
    tail_in = omega (arith, v.slots, v.tail_is)

    module _ (room : u.int_pending < int_rq_caches) where
      not_full : (u.int_pending == int_rq_caches) ≡ false
      not_full = ==-ne u.int_pending int_rq_caches (omega arith)

      -- `send_cmd_to_host` keeps the ring well formed while there is room.
      pub send_cmd_to_host-IsValid : IsValid (send_cmd_to_host len type ext body u)
      send_cmd_to_host-IsValid =
          rw (send_cmd_to_host-sent tail_in, not_full)
            (record {
              slots = length-set u.int_buf u.int_tail_index _ ∙ v.slots;
              head_in = v.head_in;
              pending_in = omega arith;
              tail_is = omega (arith, v.tail_is);
            })

      appended :
          messages (send_cmd_to_host len type ext body u)
          ≡ messages u ++ composed len type ext body u ∷ []
      appended =
          rw (send_cmd_to_host-sent tail_in, not_full)
            (ap (window blank int_rq_caches _ u.int_head_index) (add-one u.int_pending)
              ∙ window-set blank int_rq_caches u.int_buf (composed len type ext body u)
                  u.int_pending u.int_head_index u.int_tail_index (omega (arith, v.slots)) v.head_in
                  room v.tail_is)

-- What a message says: its header, as much payload as it claims, and a slot that is as large as it was.
pub record IsFilled (len type ext seq : ℕ) (body : List ℕ) (m : Rsp) : Type 0 where
  pub len_is : m.len ≡ len
  pub type_is : m.cmd ≡ type
  pub ext_is : m.ext ≡ ext
  pub seq_is : m.seq ≡ seq
  pub payload : take len m.body ≡ take len body
  pub slot : length m.body ≡ max_payload

-- The slots are as large as the structure.
abbrev pub IsSized : Usb → Type 0
IsSized u = All (λ m. length m.body ≡ max_payload) u.int_buf

get_or-All :
    (P : Rsp → Type 0) (ms : List Rsp) (i : ℕ) → i < length ms → All P ms → P (get_or ms i blank)
get_or-All P [] i p a = absurd (omega arith)
get_or-All P (m ∷ ms) zero p a = a.0
get_or-All P (m ∷ ms) (suc i) p a = get_or-All P ms i (omega arith) a.1

take-memcpy : (n : ℕ) (dst src : List ℕ) → n ≤ length src → take n (memcpy dst src n) ≡ take n src
take-memcpy n dst src p =
    let k : n ≡ length (take n src) + 0 = omega (arith, length-take {0} n src) in
    ap (λ (k : ℕ). take k (take n src ++ drop n dst)) k
    ∙ take-append (take n src) (drop n dst) 0
    ∙ append-nil (take n src)

module _ (len type ext : ℕ) (body : List ℕ) (u : Usb) (v : IsValid u) (sized : IsSized u)
    (fits : len ≤ max_payload) (given : len ≤ length body) where
  pub composed-IsFilled :
      IsFilled len type ext (u8 u.int_tail_index) body (composed len type ext body u)
  composed-IsFilled =
      let old : List ℕ = (get_or u.int_buf u.int_tail_index blank).body in
      let n : length old ≡ max_payload =
        get_or-All (λ m. length m.body ≡ max_payload) u.int_buf u.int_tail_index
          (tail_in len type ext body u v) sized in
      record {
        len_is = refl;
        type_is = refl;
        ext_is = refl;
        seq_is = refl;
        payload = take-memcpy len old body given;
        slot = omega (
          arith,
          n,
          length-append {0} (take len body) (drop len old),
          length-take {0} len body,
          length-drop {0} len old,
        );
      }

  -- On a well-formed ring with a free slot, `send_cmd_to_host` appends a message to those that wait,
  -- where the message fits a slot, 60 octets, and the caller gives as many octets as it says. It has
  -- the header that was given, the tail index as its sequence number, and the caller's octets,
  -- and its slot keeps its size.
  pub send_cmd_to_host-messages :
      u.int_pending < int_rq_caches
      → (m : Rsp) × (messages (send_cmd_to_host len type ext body u) ≡ messages u ++ m ∷ [])
        × IsFilled len type ext (u8 u.int_tail_index) body m
  send_cmd_to_host-messages room =
      (composed len type ext body u, appended len type ext body u v room, composed-IsFilled)

-- What `dequeue_int_buf` does on the messages that wait.
abbrev pub dequeue : ℕ → List Rsp → Option Rsp × List Rsp
dequeue space [] = (none, [])
dequeue space (m ∷ ms) = if ltb space (m.len + 8) then (none, m ∷ ms) else (some m, ms)

window_pos :
    (u : Usb)
    → 0 < u.int_pending
    → messages u
      ≡ get_or u.int_buf u.int_head_index blank
        ∷ window blank int_rq_caches u.int_buf
            ((u.int_head_index + 1) % int_rq_caches)
            (u.int_pending - 1)
window_pos u h =
    let e : u.int_pending ≡ suc (u.int_pending - 1) = omega arith in
    ap (window blank int_rq_caches u.int_buf u.int_head_index) e

-- `dequeue_int_buf` takes the oldest message that waits, if there is one and it fits with its
-- header and four bytes to spare; otherwise nothing changes.
pub dequeue_int_buf_refines :
    (space : ℕ) (u : Usb)
    → let r = dequeue_int_buf space u in (r.0, messages r.1) ≡ dequeue space (messages u)
unfolding dequeue_int_buf
dequeue_int_buf_refines space u = elim (Bool-cases (ltb 0 u.int_pending)) [
  | inl some_wait ↦
      let front = window_pos u (ltb→lt 0 u.int_pending some_wait) in
      elim (Bool-cases (ltb space ((get_or u.int_buf u.int_head_index blank).len + 8))) [
        | inl big ↦ rw (some_wait, big, front, big)
        | inr fits ↦ rw (some_wait, fits, front, fits)
      ]
  | inr no_wait ↦ let none_wait : u.int_pending ≡ 0 = ground arith in simp none_wait
]

-- It keeps the ring well formed.
pub dequeue_int_buf-IsValid :
    (space : ℕ) (u : Usb) → IsValid u → IsValid (dequeue_int_buf space u).1
unfolding dequeue_int_buf
dequeue_int_buf-IsValid space u v = ground (arith, v.tail_is)
