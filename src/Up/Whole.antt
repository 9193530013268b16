-- ===== src/Up/Whole.antt =====
-- No block is lost or doubled on the way of a frame, and the interrupt descriptor has one place.
use carl9170fw.Base.{
  ℕ, zero, suc, ◌+◌, ◌≡◌, ◌<◌, refl, sym, ◌∙◌, ap, ◌==◌, if◌then◌else◌, List, [], ◌∷◌, ◌++◌, Bool,
  true, false, bit_and, Option, some, get_or, arith, Bool-cases, inl, inr, ◌⊎◌, All, subst,
  All-append,
}
use mathlib.Core.Option.{some-injective, some-ne-none}
use carl9170fw.Tx.Path.Held.{weight}
use carl9170fw.Rx.{Received, Receiver, rx_filter}
use carl9170fw.Dma.{own_bits_hw}
use carl9170fw.Up.{
  UpPacket, Uplink, to_hw, own_blocks, reclaimed, payload_of, uploaded, pass_on, take_back,
  rx_packet, rx_loop, handle_wlan_rx, upload_loop, handle_upload, put_status, rxq,
}

abbrev pub blocks_weight : (ℕ → ℕ) → List UpPacket → ℕ
blocks_weight w [] = 0
blocks_weight w (p ∷ ps) = weight w p.blocks + blocks_weight w ps

-- The blocks in both queues and of the interrupt descriptor while it waits, each with a weight.
abbrev pub held : (ℕ → ℕ) → Uplink → ℕ
held w u =
    blocks_weight w u.rx_queue
    + blocks_weight w u.up_queue
    + (if u.int_desc_available then weight w u.int_desc.blocks else 0)

pub blocks_weight-append :
    (w : ℕ → ℕ) (ps qs : List UpPacket)
    → blocks_weight w (ps ++ qs) ≡ blocks_weight w ps + blocks_weight w qs
blocks_weight-append w [] qs = omega arith
blocks_weight-append w (p ∷ ps) qs = omega (arith, blocks_weight-append w ps qs)

pub blocks_weight-own_blocks :
    (w : ℕ → ℕ) (f : Received) (bs : List ℕ) → blocks_weight w (own_blocks f bs) ≡ weight w bs
blocks_weight-own_blocks w f [] = refl
blocks_weight-own_blocks w f (b ∷ bs) = omega (arith, blocks_weight-own_blocks w f bs)

-- How often a block is the response buffer.
abbrev pub is_rsp : ℕ → ℕ → ℕ
is_rsp rsp b = if b == rsp then 1 else 0

abbrev pub IsOther : ℕ → UpPacket → Type 0
IsOther rsp p = weight (is_rsp rsp) p.blocks ≡ 0

-- A packet in the up queue is the response buffer alone, or has no part of it.
abbrev pub IsUp : ℕ → UpPacket → Type 0
IsUp rsp p = (p.blocks ≡ rsp ∷ []) ⊎ IsOther rsp p

-- The blocks with weights `total`, where the response buffer is counted once and is no part of what
-- the receive queue holds.
pub record IsWhole (rsp : ℕ) (total : (ℕ → ℕ) → ℕ) (u : Uplink) : Type 0 where
  pub counted : (w : ℕ → ℕ) → held w u ≡ total w
  pub once : total (is_rsp rsp) ≡ 1
  pub others : All (IsOther rsp) u.rx_queue
  pub ups : All (IsUp rsp) u.up_queue
  pub response : u.int_desc.blocks ≡ rsp ∷ []

pub own_blocks-IsOther :
    (rsp : ℕ) (f : Received) (bs : List ℕ)
    → weight (is_rsp rsp) bs ≡ 0
    → All (IsOther rsp) (own_blocks f bs)
own_blocks-IsOther rsp f [] e = tt
own_blocks-IsOther rsp f (b ∷ bs) e = (omega arith, own_blocks-IsOther rsp f bs (omega arith))

-- A packet that starts with the response buffer is it.
payload_other : (rsp : ℕ) (p : UpPacket) → 0 < rsp → IsOther rsp p → (payload_of p == rsp) ≡ false
payload_other rsp p pos e = go p.blocks e
  where
    go : (bs : List ℕ) → weight (is_rsp rsp) bs ≡ 0 → (get_or bs 0 0 == rsp) ≡ false
    go [] e = ground arith
    go (b ∷ bs) e = ground arith

module _ (rsp : ℕ) (total : (ℕ → ℕ) → ℕ) (pos : 0 < rsp) where
  -- The response buffer comes back.
  response-IsWhole :
      (p : UpPacket) (ps : List UpPacket) (u : Uplink)
      → p.blocks ≡ rsp ∷ []
      → IsWhole rsp total (record u { up_queue = p ∷ ps })
      → IsWhole rsp total (record u { up_queue = ps; int_desc = p; int_desc_available = true })
  response-IsWhole p ps u b h = record {
    counted = λ w. omega (arith, h.counted w, alone w, away w (Bool-cases u.int_desc_available));
    once = h.once;
    others = h.others;
    ups = h.ups.1;
    response = b;
  }
    where
      alone : (w : ℕ → ℕ) → weight w p.blocks ≡ w rsp + 0
      alone w = ap (weight w) b

      waiting : (w : ℕ → ℕ) → weight w u.int_desc.blocks ≡ w rsp + 0
      waiting w = ap (weight w) h.response

      self : is_rsp rsp rsp ≡ 1
      self = ground arith

      away :
          (w : ℕ → ℕ)
          → (u.int_desc_available ≡ true) ⊎ (u.int_desc_available ≡ false)
          → (if u.int_desc_available then weight w u.int_desc.blocks else 0) ≡ 0
      away w (inr t) = rw t refl
      away w (inl t) =
          let twice : (if u.int_desc_available then weight (is_rsp rsp) u.int_desc.blocks else 0)
              ≡ weight (is_rsp rsp) u.int_desc.blocks =
            rw t refl in
          absurd (
            omega (
              arith,
              h.counted (is_rsp rsp),
              h.once,
              alone (is_rsp rsp),
              waiting (is_rsp rsp),
              self,
              twice,
            ))

  -- Another packet comes back, and its blocks are used again.
  other-IsWhole :
      (p : UpPacket) (ps : List UpPacket) (u : Uplink)
      → IsOther rsp p
      → IsWhole rsp total (record u { up_queue = p ∷ ps })
      → IsWhole rsp total (record u {
        up_queue = ps;
        rx_queue = u.rx_queue ++ reclaimed p;
        triggers = rxq ∷ u.triggers;
      })
  other-IsWhole p ps u b h = record {
    counted = λ w. omega (
      arith,
      h.counted w,
      blocks_weight-append w u.rx_queue (reclaimed p),
      blocks_weight-own_blocks w p.frame p.blocks,
    );
    once = h.once;
    others =
        All-append (IsOther rsp) u.rx_queue (reclaimed p) h.others
          (own_blocks-IsOther rsp p.frame p.blocks b);
    ups = h.ups.1;
    response = h.response;
  }

  uploaded-IsWhole :
      (p : UpPacket) (ps : List UpPacket) (u : Uplink)
      → IsWhole rsp total (record u { up_queue = p ∷ ps })
      → IsWhole rsp total (uploaded rsp p (record u { up_queue = ps }))
  unfolding uploaded
  uploaded-IsWhole p ps u h = go h.ups.0
    where
      go : IsUp rsp p → IsWhole rsp total (uploaded rsp p (record u { up_queue = ps }))
      go (inl b) =
          let first : payload_of p ≡ rsp = ap (λ bs. get_or bs 0 0) b in
          let is : (payload_of p == rsp) ≡ true = ground arith in
          rw is (response-IsWhole p ps u b h)
      go (inr o) = rw (payload_other rsp p pos o) (other-IsWhole p ps u o h)

  upload_loop-IsWhole :
      (fuel : ℕ) (ps : List UpPacket) (u v : Uplink)
      → IsWhole rsp total (record u { up_queue = ps })
      → upload_loop fuel rsp ps (record u { up_queue = ps }) ≡ some v
      → IsWhole rsp total v
  unfolding upload_loop
  upload_loop-IsWhole zero ps u v h e = absurd (some-ne-none v (sym e))
  upload_loop-IsWhole (suc fuel) [] u v h e = subst (IsWhole rsp total) (some-injective _ _ e) h
  upload_loop-IsWhole (suc fuel) (p ∷ ps) u v h e =
      let here : Uplink = record u { up_queue = p ∷ ps } in
      let w : Uplink = uploaded rsp p (record u { up_queue = ps }) in
      let k : IsWhole rsp total w = uploaded-IsWhole p ps u h in
      elim (Bool-cases (p.owner == own_bits_hw)) [
        | inl t ↦
            let stops : upload_loop (suc fuel) rsp (p ∷ ps) here ≡ some here = rw t refl in
            subst (IsWhole rsp total) (some-injective here v (sym stops ∙ e)) h
        | inr t ↦
            let goes : upload_loop (suc fuel) rsp (p ∷ ps) here
                ≡ upload_loop fuel rsp w.up_queue w =
              rw t refl in
            upload_loop-IsWhole fuel w.up_queue w v k (sym goes ∙ e)
      ]

  -- A frame goes to the host.
  pass_on-IsWhole :
      (p : UpPacket) (ps : List UpPacket) (r : Receiver) (u : Uplink)
      → IsWhole rsp total (record u { rx_queue = p ∷ ps })
      → IsWhole rsp total (pass_on p r (record u { rx_queue = ps }))
  pass_on-IsWhole p ps r u h = record {
    counted = λ w. omega (arith, h.counted w, blocks_weight-append w u.up_queue (to_hw p ∷ []));
    once = h.once;
    others = h.others.1;
    ups = All-append (IsUp rsp) u.up_queue (to_hw p ∷ []) h.ups (inr h.others.0, tt);
    response = h.response;
  }

  take_back-IsWhole :
      (p : UpPacket) (ps : List UpPacket) (r : Receiver) (u : Uplink)
      → IsWhole rsp total (record u { rx_queue = p ∷ ps })
      → IsWhole rsp total (take_back p r (record u { rx_queue = ps }))
  take_back-IsWhole p ps r u h = record {
    counted = λ w. omega (
      arith,
      h.counted w,
      blocks_weight-append w ps (reclaimed p),
      blocks_weight-own_blocks w p.frame p.blocks,
    );
    once = h.once;
    others =
        All-append (IsOther rsp) ps (reclaimed p) h.others.1
          (own_blocks-IsOther rsp p.frame p.blocks h.others.0);
    ups = h.ups;
    response = h.response;
  }

  -- The interrupt descriptor goes to the host.
  pub put_status-IsWhole :
      (u : Uplink)
      → u.int_desc_available ≡ true
      → IsWhole rsp total u
      → IsWhole rsp total (put_status u)
  unfolding put_status
  put_status-IsWhole u t h = record {
    counted = λ w.
        let waits : (if u.int_desc_available then weight w u.int_desc.blocks else 0)
            ≡ weight w u.int_desc.blocks =
          rw t refl in
        omega
          (arith, h.counted w, waits, blocks_weight-append w u.up_queue (to_hw u.int_desc ∷ []));
    once = h.once;
    others = h.others;
    ups = All-append (IsUp rsp) u.up_queue (to_hw u.int_desc ∷ []) h.ups (inl h.response, tt);
    response = h.response;
  }

  pub handle_upload-IsWhole :
      (fuel : ℕ) (u v : Uplink)
      → IsWhole rsp total u
      → handle_upload fuel rsp u ≡ some v
      → IsWhole rsp total v
  unfolding handle_upload
  handle_upload-IsWhole fuel u v h e = upload_loop-IsWhole fuel u.up_queue u v h e

  module _ (same_address : List ℕ → List ℕ → Bool) (ssid : List ℕ)
      (ssid_len now rx_frame_len : ℕ) where
    rx_loop-IsWhole :
        (fuel : ℕ) (ps : List UpPacket) (u v : Uplink)
        → IsWhole rsp total (record u { rx_queue = ps })
        → rx_loop same_address ssid ssid_len now rx_frame_len fuel ps (record u { rx_queue = ps })
          ≡ some v
        → IsWhole rsp total v
    unfolding rx_loop rx_packet
    rx_loop-IsWhole zero ps u v h e = absurd (some-ne-none v (sym e))
    rx_loop-IsWhole (suc fuel) [] u v h e = subst (IsWhole rsp total) (some-injective _ _ e) h
    rx_loop-IsWhole (suc fuel) (p ∷ ps) u v h e =
        let loop : ℕ → List UpPacket → Uplink → Option Uplink =
          rx_loop same_address ssid ssid_len now rx_frame_len in
        let c : ℕ × Receiver =
          rx_filter same_address ssid ssid_len now rx_frame_len p.frame u.receiver in
        let here : Uplink = record u { rx_queue = p ∷ ps } in
        let kept : Uplink = pass_on p c.1 (record u { rx_queue = ps }) in
        let given : Uplink = take_back p c.1 (record u { rx_queue = ps }) in
        elim (Bool-cases (p.owner == own_bits_hw)) [
          | inl t ↦
              let stops : loop (suc fuel) (p ∷ ps) here ≡ some here = rw t refl in
              subst (IsWhole rsp total) (some-injective here v (sym stops ∙ e)) h
          | inr t ↦ elim (Bool-cases (bit_and c.0 u.rx_filter == 0)) [
            | inl s ↦
                let goes : loop (suc fuel) (p ∷ ps) here ≡ loop fuel kept.rx_queue kept =
                  rw (t, s) refl in
                rx_loop-IsWhole fuel kept.rx_queue kept v (pass_on-IsWhole p ps c.1 u h)
                  (sym goes ∙ e)
            | inr s ↦
                let goes : loop (suc fuel) (p ∷ ps) here ≡ loop fuel given.rx_queue given =
                  rw (t, s) refl in
                rx_loop-IsWhole fuel given.rx_queue given v (take_back-IsWhole p ps c.1 u h)
                  (sym goes ∙ e)
          ]
        ]

    pub handle_wlan_rx-IsWhole :
        (fuel : ℕ) (u v : Uplink)
        → IsWhole rsp total u
        → handle_wlan_rx same_address ssid ssid_len now rx_frame_len fuel u ≡ some v
        → IsWhole rsp total v
    unfolding handle_wlan_rx
    handle_wlan_rx-IsWhole fuel u v h e = rx_loop-IsWhole fuel u.rx_queue u v h e
