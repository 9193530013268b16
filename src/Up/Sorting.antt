-- ===== src/Up/Sorting.antt =====
-- `handle_wlan_rx` sorts what has arrived.
use carl9170fw.Base.{
  ℕ, zero, suc, ◌≡◌, ◌<◌, refl, sym, ◌∙◌, ap, ◌==◌, if◌then◌else◌, List, [], ◌∷◌, ◌++◌, map, Bool,
  true, false, bit_and, Option, some, length, arith, Bool-cases, inl, inr, All, append_assoc,
  append-nil, All-append,
}
use carl9170fw.Rx.{Received, Receiver, rx_filter}
use carl9170fw.Dma.{own_bits_hw}
use carl9170fw.Up.{
  UpPacket, Uplink, to_hw, own_blocks, reclaimed, pass_on, take_back, rx_packet, rx_loop,
  handle_wlan_rx,
}

-- The packets in front that do not belong to the hardware, and the rest.
abbrev pub arrived : List UpPacket → List UpPacket
arrived [] = []
arrived (p ∷ ps) = let more = p ∷ arrived ps in if p.owner == own_bits_hw then [] else more

abbrev pub pending : List UpPacket → List UpPacket
pending [] = []
pending (p ∷ ps) = let more = pending ps in if p.owner == own_bits_hw then p ∷ ps else more

abbrev pub concat_reclaimed : List UpPacket → List UpPacket
concat_reclaimed [] = []
concat_reclaimed (p ∷ ps) = reclaimed p ++ concat_reclaimed ps

abbrev pub AllHw : List UpPacket → Type 0
AllHw = All (λ (p : UpPacket). (p.owner == own_bits_hw) ≡ true)

own_blocks-AllHw : (f : Received) (bs : List ℕ) → AllHw (own_blocks f bs)
own_blocks-AllHw f [] = tt
own_blocks-AllHw f (b ∷ bs) = (refl, own_blocks-AllHw f bs)

module _ (same_address : List ℕ → List ℕ → Bool) (ssid : List ℕ)
    (ssid_len now rx_frame_len : ℕ) where
  -- What the filter says of a frame, and the state after it.
  abbrev pub classify : UpPacket → Receiver → ℕ × Receiver
  classify p r = rx_filter same_address ssid ssid_len now rx_frame_len p.frame r

  -- Frames that pass the setting, frames that do not, and the state after all.
  abbrev pub accepted : ℕ → List UpPacket → Receiver → List UpPacket
  accepted setting [] r = []
  accepted setting (p ∷ ps) r =
      let c = classify p r in
      let more = accepted setting ps c.1 in if bit_and c.0 setting == 0 then p ∷ more else more

  abbrev pub rejected : ℕ → List UpPacket → Receiver → List UpPacket
  rejected setting [] r = []
  rejected setting (p ∷ ps) r =
      let c = classify p r in
      let more = rejected setting ps c.1 in if bit_and c.0 setting == 0 then more else p ∷ more

  abbrev pub classify_all : List UpPacket → Receiver → Receiver
  classify_all [] r = r
  classify_all (p ∷ ps) r = classify_all ps (classify p r).1

  -- What the loop promises of its result.
  pub record Sorted (u : Uplink) (ps : List UpPacket) (back : List UpPacket) (v : Uplink)
      : Type 0 where
    pub uploads :
        v.up_queue ≡ u.up_queue ++ map to_hw (accepted u.rx_filter (arrived ps) u.receiver)
    pub keeps :
        v.rx_queue
        ≡ pending ps ++ (back ++ concat_reclaimed (rejected u.rx_filter (arrived ps) u.receiver))
    pub classifies : v.receiver ≡ classify_all (arrived ps) u.receiver
    pub same_int : v.int_desc ≡ u.int_desc
    pub same_available : v.int_desc_available ≡ u.int_desc_available
    pub same_filter : v.rx_filter ≡ u.rx_filter

  -- One packet that has arrived and passes, and what the loop makes of the others.
  Sorted-pass :
      (u v : Uplink) (p : UpPacket) (ps back : List UpPacket)
      → (p.owner == own_bits_hw) ≡ false
      → (bit_and (classify p u.receiver).0 u.rx_filter == 0) ≡ true
      → Sorted (pass_on p (classify p u.receiver).1 (record u { rx_queue = ps ++ back })) ps back v
      → Sorted u (p ∷ ps) back v
  Sorted-pass u v p ps back e t s =
      let c = classify p u.receiver in
      let more : List UpPacket = accepted u.rx_filter (arrived ps) c.1 in
      record {
        uploads =
            s.uploads ∙ append_assoc u.up_queue (to_hw p ∷ []) (map to_hw more) ∙ rw (e, t) refl;
        keeps = s.keeps ∙ rw (e, t) refl;
        classifies = s.classifies ∙ rw e refl;
        same_int = s.same_int;
        same_available = s.same_available;
        same_filter = s.same_filter;
      }

  -- The same for one that does not pass.
  Sorted-drop :
      (u v : Uplink) (p : UpPacket) (ps back : List UpPacket)
      → (p.owner == own_bits_hw) ≡ false
      → (bit_and (classify p u.receiver).0 u.rx_filter == 0) ≡ false
      → Sorted
          (take_back p (classify p u.receiver).1 (record u { rx_queue = ps ++ back }))
          ps
          (back ++ reclaimed p)
          v
      → Sorted u (p ∷ ps) back v
  Sorted-drop u v p ps back e t s =
      let c = classify p u.receiver in
      let more : List UpPacket = concat_reclaimed (rejected u.rx_filter (arrived ps) c.1) in
      record {
        uploads = s.uploads ∙ rw (e, t) refl;
        keeps =
            s.keeps
            ∙ ap (λ qs. pending ps ++ qs) (append_assoc back (reclaimed p) more)
            ∙ rw (e, t) refl;
        classifies = s.classifies ∙ rw e refl;
        same_int = s.same_int;
        same_available = s.same_available;
        same_filter = s.same_filter;
      }

  Sorted-stop :
      (u : Uplink) (ps back : List UpPacket)
      → u.rx_queue ≡ ps ++ back
      → arrived ps ≡ []
      → pending ps ≡ ps
      → Sorted u ps back u
  Sorted-stop u ps back e none all = record {
    uploads = rw none (sym (append-nil u.up_queue));
    keeps = e ∙ rw (none, all) (ap (λ qs. ps ++ qs) (sym (append-nil back)));
    classifies = rw none refl;
    same_int = refl;
    same_available = refl;
    same_filter = refl;
  }

  -- The loop on packets `ps` with others of the hardware behind them.
  rx_loop-Sorted :
      (fuel : ℕ) (ps back : List UpPacket) (u : Uplink)
      → length ps < fuel
      → AllHw back
      → u.rx_queue ≡ ps ++ back
      → (v : Uplink) × (rx_loop same_address ssid ssid_len now rx_frame_len fuel (ps ++ back) u
          ≡ some v)
        × Sorted u ps back v
  unfolding rx_loop rx_packet
  rx_loop-Sorted zero ps back u f hw e = absurd (omega arith)
  rx_loop-Sorted (suc fuel) [] [] u f hw e = (u, refl, Sorted-stop u [] [] e refl refl)
  rx_loop-Sorted (suc fuel) [] (b ∷ back) u f hw e =
      (u, rw hw.0 refl, Sorted-stop u [] (b ∷ back) e refl refl)
  rx_loop-Sorted (suc fuel) (p ∷ ps) back u f hw e =
      let c = classify p u.receiver in
      let w : Uplink = record u { rx_queue = ps ++ back } in
      let passed = rx_loop-Sorted fuel ps back (pass_on p c.1 w) (omega arith) hw refl in
      let given =
        rx_loop-Sorted fuel ps (back ++ reclaimed p) (take_back p c.1 w) (omega arith)
          (All-append _ back (reclaimed p) hw (own_blocks-AllHw p.frame p.blocks))
          (append_assoc ps back (reclaimed p)) in
      let loop : List UpPacket → Uplink → Option Uplink =
        rx_loop same_address ssid ssid_len now rx_frame_len fuel in
      elim (Bool-cases (p.owner == own_bits_hw)) [
        | inl t ↦ (u, rw t refl, Sorted-stop u (p ∷ ps) back e (rw t refl) (rw t refl))
        | inr t ↦ elim (Bool-cases (bit_and c.0 u.rx_filter == 0)) [
          | inl s ↦ (passed.0, rw (t, s) passed.1, Sorted-pass u passed.0 p ps back t s passed.2)
          | inr s ↦ (
            given.0,
            rw (t, s)
                (ap (λ qs. loop qs (take_back p c.1 w)) (append_assoc ps back (reclaimed p))
                  ∙ given.1),
            Sorted-drop u given.0 p ps back t s given.2,
          )
        ]
      ]

  -- With more fuel than there are packets, `handle_wlan_rx` ends. Of the packets that had arrived in
  -- front of the receive queue, those whose frame passes the filter's setting stand in the up queue
  -- behind what it held, in the order of arrival and for the hardware; the blocks of the others
  -- stand behind the packets that have not arrived, each on its own with the total length 0. The
  -- filter has seen each of them once, in this order.
  pub handle_wlan_rx-Sorted :
      (fuel : ℕ) (u : Uplink)
      → length u.rx_queue < fuel
      → (v : Uplink) × (handle_wlan_rx same_address ssid ssid_len now rx_frame_len fuel u ≡ some v)
        × Sorted u u.rx_queue [] v
  unfolding handle_wlan_rx
  handle_wlan_rx-Sorted fuel u f =
      let none_left = append-nil u.rx_queue in
      let loop : List UpPacket → Option Uplink =
        λ ps. rx_loop same_address ssid ssid_len now rx_frame_len fuel ps u in
      let (v, runs, sorted) = rx_loop-Sorted fuel u.rx_queue [] u f tt (sym none_left) in
      (v, ap loop (sym none_left) ∙ runs, sorted)
