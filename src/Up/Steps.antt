-- ===== src/Up/Steps.antt =====
-- What can happen to the queues between the radio and the host, in any order: the handlers of the
-- firmware, frames that the hardware receives, and packets that the host gets.
use carl9170fw.Base.{
  ℕ, ◌+◌, ◌≡◌, ◌<◌, ◌↔◌, refl, sym, ◌∙◌, ap, if◌then◌else◌, List, [], ◌∷◌, ◌++◌, Bool, true, false,
  some, arith, Bool-cases, inl, inr, ◌⊎◌, All, subst, All-append, All-left, All-right,
}
use carl9170fw.Tx.Path.Held.{weight, weight-append}
use carl9170fw.Rx.{Received, Receiver}
use carl9170fw.Up.{UpPacket, Uplink, own_blocks, handle_wlan_rx, handle_upload, put_status}
use carl9170fw.Up.Sorting.{AllHw}
use carl9170fw.Up.Whole.{
  blocks_weight, held, blocks_weight-append, blocks_weight-own_blocks, is_rsp, IsOther, IsUp,
  IsWhole, own_blocks-IsOther, put_status-IsWhole, handle_upload-IsWhole, handle_wlan_rx-IsWhole,
}

abbrev pub all_blocks : List UpPacket → List ℕ
all_blocks [] = []
all_blocks (p ∷ ps) = p.blocks ++ all_blocks ps

-- Packets that the hardware fills with one frame.
abbrev pub merged : ℕ → Received → List UpPacket → UpPacket
merged owner f group = record { blocks = all_blocks group; owner = owner; frame = f }

pub data Step (rsp : ℕ) (u v : Uplink) : Type 0 where
  wlan_rx :
      (same_address : List ℕ → List ℕ → Bool) (ssid : List ℕ) (ssid_len now rx_frame_len fuel : ℕ)
      → handle_wlan_rx same_address ssid ssid_len now rx_frame_len fuel u ≡ some v
      → Step rsp u v
  upload : (fuel : ℕ) → handle_upload fuel rsp u ≡ some v → Step rsp u v
  status : u.int_desc_available ≡ true → v ≡ put_status u → Step rsp u v
  filter_set : (setting : ℕ) → v ≡ record u { rx_filter = setting } → Step rsp u v
  arrives :
      (front group rest : List UpPacket) (owner : ℕ) (f : Received)
      → u.rx_queue ≡ front ++ (group ++ rest)
      → AllHw group
      → v ≡ record u { rx_queue = front ++ merged owner f group ∷ rest }
      → Step rsp u v
  sent :
      (front rest : List UpPacket) (p : UpPacket) (owner : ℕ)
      → u.up_queue ≡ front ++ p ∷ rest
      → v ≡ record u { up_queue = front ++ record p { owner = owner } ∷ rest }
      → Step rsp u v

pub data Reach (rsp : ℕ) (u : Uplink) : Uplink → Type 0 where
  here : Reach rsp u u
  next : {v w : Uplink} → Reach rsp u v → Step rsp v w → Reach rsp u w

weight-all_blocks : (w : ℕ → ℕ) (ps : List UpPacket) → weight w (all_blocks ps) ≡ blocks_weight w ps
weight-all_blocks w [] = refl
weight-all_blocks w (p ∷ ps) =
    omega (arith, weight-append w p.blocks (all_blocks ps), weight-all_blocks w ps)

all_blocks-other :
    (rsp : ℕ) (ps : List UpPacket) → All (IsOther rsp) ps → weight (is_rsp rsp) (all_blocks ps) ≡ 0
all_blocks-other rsp [] a = refl
all_blocks-other rsp (p ∷ ps) a =
    omega
      (arith, weight-append (is_rsp rsp) p.blocks (all_blocks ps), all_blocks-other rsp ps a.1, a.0)

module _ (rsp : ℕ) (total : (ℕ → ℕ) → ℕ) (pos : 0 < rsp) where
  arrives-IsWhole :
      (front group rest : List UpPacket) (owner : ℕ) (f : Received) (u : Uplink)
      → IsWhole rsp total (record u { rx_queue = front ++ (group ++ rest) })
      → IsWhole rsp total (record u { rx_queue = front ++ merged owner f group ∷ rest })
  arrives-IsWhole front group rest owner f u h =
      let a1 = All-left (IsOther rsp) front (group ++ rest) h.others in
      let a2 = All-right (IsOther rsp) front (group ++ rest) h.others in
      let b1 = All-left (IsOther rsp) group rest a2 in
      let b2 = All-right (IsOther rsp) group rest a2 in
      record {
        counted = λ w. omega (
          arith,
          h.counted w,
          blocks_weight-append w front (group ++ rest),
          blocks_weight-append w group rest,
          blocks_weight-append w front (merged owner f group ∷ rest),
          weight-all_blocks w group,
        );
        once = h.once;
        others =
            All-append (IsOther rsp) front (merged owner f group ∷ rest) a1
              (all_blocks-other rsp group b1, b2);
        ups = h.ups;
        response = h.response;
      }

  sent-IsWhole :
      (front rest : List UpPacket) (p : UpPacket) (owner : ℕ) (u : Uplink)
      → IsWhole rsp total (record u { up_queue = front ++ p ∷ rest })
      → IsWhole rsp total (record u { up_queue = front ++ record p { owner = owner } ∷ rest })
  sent-IsWhole front rest p owner u h =
      let a1 = All-left (IsUp rsp) front (p ∷ rest) h.ups in
      let a2 = All-right (IsUp rsp) front (p ∷ rest) h.ups in
      let after : UpPacket = record p { owner = owner } in
      record {
        counted = λ w. omega (
          arith,
          h.counted w,
          blocks_weight-append w front (p ∷ rest),
          blocks_weight-append w front (after ∷ rest),
        );
        once = h.once;
        others = h.others;
        ups = All-append (IsUp rsp) front (after ∷ rest) a1 a2;
        response = h.response;
      }

  Step-IsWhole : (u v : Uplink) → Step rsp u v → IsWhole rsp total u → IsWhole rsp total v
  Step-IsWhole u v (wlan_rx same ssid len now max fuel e) h =
      handle_wlan_rx-IsWhole rsp total pos same ssid len now max fuel u v h e
  Step-IsWhole u v (upload fuel e) h = handle_upload-IsWhole rsp total pos fuel u v h e
  Step-IsWhole u v (status t e) h =
      subst (IsWhole rsp total) (sym e) (put_status-IsWhole rsp total pos u t h)
  Step-IsWhole u v (filter_set n e) h = subst (IsWhole rsp total) (sym e) (record {
    counted = h.counted;
    once = h.once;
    others = h.others;
    ups = h.ups;
    response = h.response;
  })
  Step-IsWhole u v (arrives front group rest owner f q hw e) h = subst (IsWhole rsp total) (sym e) (
      arrives-IsWhole front group rest owner f u
        (subst (λ ps. IsWhole rsp total (record u { rx_queue = ps })) q h))
  Step-IsWhole u v (sent front rest p owner q e) h = subst (IsWhole rsp total) (sym e) (
      sent-IsWhole front rest p owner u
        (subst (λ ps. IsWhole rsp total (record u { up_queue = ps })) q h))

  Reach-IsWhole : {u v : Uplink} → IsWhole rsp total u → Reach rsp u v → IsWhole rsp total v
  Reach-IsWhole h here = h
  Reach-IsWhole h (next {v} {w} r s) = Step-IsWhole v w s (Reach-IsWhole h r)

-- The state after the start: the blocks for frames wait in the receive queue, and the interrupt
-- descriptor is available.
abbrev pub started : ℕ → List ℕ → Received → Receiver → ℕ → Uplink
started rsp blocks f r setting = record {
  rx_queue = own_blocks f blocks;
  up_queue = [];
  int_desc = record { blocks = rsp ∷ []; owner = 0; frame = f };
  int_desc_available = true;
  receiver = r;
  rx_filter = setting;
  triggers = [];
}

started-IsWhole :
    (rsp : ℕ) (blocks : List ℕ) (f : Received) (r : Receiver) (setting : ℕ)
    → weight (is_rsp rsp) blocks ≡ 0
    → IsWhole rsp (λ w. weight w blocks + w rsp) (started rsp blocks f r setting)
started-IsWhole rsp blocks f r setting e = record {
  counted = λ w. omega (arith, blocks_weight-own_blocks w f blocks);
  once = ground (arith, e);
  others = own_blocks-IsOther rsp f blocks e;
  ups = tt;
  response = refl;
}

-- Where each block is, in a state that was reached.
pub record Kept (rsp : ℕ) (blocks : List ℕ) (u : Uplink) : Type 0 where
  pub counted : (w : ℕ → ℕ) → held w u ≡ weight w blocks + w rsp
  pub apart : blocks_weight (is_rsp rsp) u.rx_queue ≡ 0
  pub available : (u.int_desc_available ≡ true) ↔ (blocks_weight (is_rsp rsp) u.up_queue ≡ 0)

blocks_weight-others :
    (rsp : ℕ) (ps : List UpPacket) → All (IsOther rsp) ps → blocks_weight (is_rsp rsp) ps ≡ 0
blocks_weight-others rsp ps a = sym (weight-all_blocks (is_rsp rsp) ps) ∙ all_blocks-other rsp ps a

IsWhole-Kept :
    (rsp : ℕ) (blocks : List ℕ) (u : Uplink)
    → IsWhole rsp (λ w. weight w blocks + w rsp) u
    → Kept rsp blocks u
IsWhole-Kept rsp blocks u h = record {
  counted = h.counted;
  apart = blocks_weight-others rsp u.rx_queue h.others;
  available = (to, from (Bool-cases u.int_desc_available));
}
  where
    all : held (is_rsp rsp) u ≡ 1
    all = h.counted (is_rsp rsp) ∙ h.once

    none_rx : blocks_weight (is_rsp rsp) u.rx_queue ≡ 0
    none_rx = blocks_weight-others rsp u.rx_queue h.others

    one : weight (is_rsp rsp) u.int_desc.blocks ≡ 1
    one =
        let at : weight (is_rsp rsp) u.int_desc.blocks ≡ is_rsp rsp rsp + 0 =
          ap (weight (is_rsp rsp)) h.response in
        ground (arith, at)

    to : u.int_desc_available ≡ true → blocks_weight (is_rsp rsp) u.up_queue ≡ 0
    to t =
        let waits : (if u.int_desc_available then weight (is_rsp rsp) u.int_desc.blocks else 0)
            ≡ weight (is_rsp rsp) u.int_desc.blocks =
          rw t refl in
        omega (arith, all, none_rx, one, waits)

    from :
        (u.int_desc_available ≡ true) ⊎ (u.int_desc_available ≡ false)
        → blocks_weight (is_rsp rsp) u.up_queue ≡ 0
        → u.int_desc_available ≡ true
    from (inl t) e = t
    from (inr t) e =
        let away : (if u.int_desc_available then weight (is_rsp rsp) u.int_desc.blocks else 0) ≡ 0 =
          rw t refl in
        absurd (omega (arith, all, none_rx, e, away))

-- Whatever the handlers, the hardware and the host do in whatever order after the start, where none
-- of the blocks for frames is the response buffer: the two queues and the interrupt descriptor
-- together hold the same blocks, each as often as at the start; the response buffer never gets
-- into the receive queue; and the interrupt descriptor counts as available exactly while the
-- response buffer is not in the up queue.
pub Reach-Kept :
    (rsp : ℕ) (blocks : List ℕ) (f : Received) (r : Receiver) (setting : ℕ) (u : Uplink)
    → 0 < rsp
    → weight (is_rsp rsp) blocks ≡ 0
    → Reach rsp (started rsp blocks f r setting) u
    → Kept rsp blocks u
Reach-Kept rsp blocks f r setting u pos e reach = IsWhole-Kept rsp blocks u (
    Reach-IsWhole rsp (λ w. weight w blocks + w rsp) pos (started-IsWhole rsp blocks f r setting e)
      reach)
