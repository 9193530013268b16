-- ===== src/Up/Upload.antt =====
-- `handle_upload` ends, and what it leaves.
use carl9170fw.Base.{
  ℕ, zero, suc, ◌≡◌, ◌<◌, refl, sym, ◌∙◌, ◌==◌, if◌then◌else◌, List, [], ◌∷◌, ◌++◌, Bool, true,
  false, ◌||◌, some, length, arith, Bool-cases, inl, inr, append-nil, append_assoc,
}
use carl9170fw.Dma.{own_bits_hw}
use carl9170fw.Up.{
  UpPacket, Uplink, reclaimed, payload_of, uploaded, upload_loop, handle_upload, rxq,
}
use carl9170fw.Up.Sorting.{arrived, pending, concat_reclaimed}

-- Of the packets that came back, those with frames.
abbrev pub frames_of : ℕ → List UpPacket → List UpPacket
frames_of rsp [] = []
frames_of rsp (p ∷ ps) =
    let more = frames_of rsp ps in if payload_of p == rsp then more else p ∷ more

-- Whether the response buffer is among them.
abbrev pub has_rsp : ℕ → List UpPacket → Bool
has_rsp rsp [] = false
has_rsp rsp (p ∷ ps) = (payload_of p == rsp) || has_rsp rsp ps

pub record Uploaded (rsp : ℕ) (u : Uplink) (ps : List UpPacket) (v : Uplink) : Type 0 where
  pub waits : v.up_queue ≡ pending ps
  pub reused : v.rx_queue ≡ u.rx_queue ++ concat_reclaimed (frames_of rsp (arrived ps))
  pub available : v.int_desc_available ≡ (u.int_desc_available || has_rsp rsp (arrived ps))

Uploaded-stop :
    (rsp : ℕ) (u : Uplink) (ps : List UpPacket)
    → arrived ps ≡ []
    → pending ps ≡ ps
    → Uploaded rsp u ps (record u { up_queue = ps })
Uploaded-stop rsp u ps none all = record {
  waits = sym all;
  reused = rw none (sym (append-nil u.rx_queue));
  available = rw none (or_false u.int_desc_available);
}
  where
    or_false : (b : Bool) → b ≡ (b || false)
    or_false true = refl
    or_false false = refl

upload_loop-Uploaded :
    (fuel rsp : ℕ) (ps : List UpPacket) (u : Uplink)
    → length ps < fuel
    → (v : Uplink) × (upload_loop fuel rsp ps (record u { up_queue = ps }) ≡ some v)
      × Uploaded rsp u ps v
unfolding upload_loop uploaded
upload_loop-Uploaded zero rsp ps u f = absurd (omega arith)
upload_loop-Uploaded (suc fuel) rsp [] u f =
    (record u { up_queue = [] }, refl, Uploaded-stop rsp u [] refl refl)
upload_loop-Uploaded (suc fuel) rsp (p ∷ ps) u f =
    let back : Uplink = record u { int_desc = p; int_desc_available = true } in
    let reused : Uplink = record u {
      rx_queue = u.rx_queue ++ reclaimed p;
      triggers = rxq ∷ u.triggers;
    } in
    let response = upload_loop-Uploaded fuel rsp ps back (omega arith) in
    let other = upload_loop-Uploaded fuel rsp ps reused (omega arith) in
    elim (Bool-cases (p.owner == own_bits_hw)) [
      | inl t ↦ (
        record u { up_queue = p ∷ ps },
        rw t refl,
        Uploaded-stop rsp u (p ∷ ps) (rw t refl) (rw t refl),
      )
      | inr t ↦ elim (Bool-cases (payload_of p == rsp)) [
        | inl s ↦ (
          response.0,
          rw (t, s) response.1,
          record {
            waits = response.2.waits ∙ rw t refl;
            reused = response.2.reused ∙ rw (t, s) refl;
            available = response.2.available ∙ rw (t, s) (sym (or_true u.int_desc_available));
          },
        )
        | inr s ↦ (
          other.0,
          rw (t, s) other.1,
          record {
            waits = other.2.waits ∙ rw t refl;
            reused =
                other.2.reused
                ∙ append_assoc u.rx_queue (reclaimed p)
                    (concat_reclaimed (frames_of rsp (arrived ps)))
                ∙ rw (t, s) refl;
            available = other.2.available ∙ rw (t, s) refl;
          },
        )
      ]
    ]
  where
    or_true : (b : Bool) → (b || true) ≡ true
    or_true true = refl
    or_true false = refl

-- With more fuel than there are packets, `handle_upload` ends. The packets that the host has not got
-- stay in the up queue; the blocks of those it has got are in the receive queue again, behind
-- what it held, in order and each on its own, but for the response buffer, which makes the
-- interrupt descriptor available.
pub handle_upload-Uploaded :
    (fuel rsp : ℕ) (u : Uplink)
    → length u.up_queue < fuel
    → (v : Uplink) × (handle_upload fuel rsp u ≡ some v) × Uploaded rsp u u.up_queue v
unfolding handle_upload
handle_upload-Uploaded fuel rsp u f = upload_loop-Uploaded fuel rsp u.up_queue u f
