-- ===== src/Usb/Overflow.antt =====
-- The message ring when all its slots are taken.
use carl9170fw.Base.{
  ℕ, ◌+◌, ◌≡◌, ◌≤◌, u8, length, ◌∙◌, ap, List, ◌∷◌, arith, drop, ◌==◌, if◌then◌else◌,
}
use carl9170fw.Ring.{window, window-set_front}
use carl9170fw.Usb.{Rsp, Usb, blank, int_rq_caches, max_payload, send_cmd_to_host}
use carl9170fw.Usb.Fifo.{
  IsValid, IsSized, IsFilled, messages, composed, composed-IsFilled, tail_in, send_cmd_to_host-sent,
}

module _ (len type ext : ℕ) (body : List ℕ) (u : Usb) (v : IsValid u)
    (full : u.int_pending ≡ int_rq_caches) where
  tail-head : u.int_tail_index ≡ u.int_head_index
  tail-head = omega (arith, v.tail_is, v.head_in)

  overtaken :
      messages (send_cmd_to_host len type ext body u)
      ≡ composed len type ext body u ∷ drop 1 (messages u)
  overtaken =
      ap messages (send_cmd_to_host-sent len type ext body u (tail_in len type ext body u v))
      ∙ ap (window blank int_rq_caches _ u.int_head_index) (if_pending u.int_pending full)
      ∙ window-set_front blank int_rq_caches u.int_buf (composed len type ext body u) 15
          u.int_pending u.int_head_index u.int_tail_index tail-head v.head_in
          (omega (arith, v.slots)) full (omega arith)
    where
      if_pending : (n : ℕ) → n ≡ int_rq_caches → (if n == int_rq_caches then n else n + 1) ≡ n
      if_pending n e = ground arith

  -- On a full ring `send_cmd_to_host` overwrites the oldest message, and the new one takes its
  -- place at the front: it will be delivered before the older ones that still wait. The message
  -- fits a slot, 60 octets, and the caller gives as many octets as it says; it has the header and
  -- the octets that were given.
  pub send_cmd_to_host-overtakes :
      IsSized u
      → len ≤ max_payload
      → len ≤ length body
      → (m : Rsp) × (messages (send_cmd_to_host len type ext body u) ≡ m ∷ drop 1 (messages u))
        × IsFilled len type ext (u8 u.int_tail_index) body m
  send_cmd_to_host-overtakes sized fits given = (
    composed len type ext body u,
    overtaken,
    composed-IsFilled len type ext body u v sized fits given,
  )
