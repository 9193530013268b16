-- ===== src/Wol/Wake/Lost.antt =====
-- When `wol_janitor` wakes the host.
use carl9170fw.Base.{
  ℕ, zero, suc, ◌+◌, ◌<◌, ◌≡◌, refl, leb, if◌then◌else◌, u32, sub32, ltb, ◌*◌, ◌/◌, ap₂, subst,
  Bool, true, false, ◌&&◌, ◌||◌, arith, List, [], ◌∷◌, ◌++◌, ap, ◌∙◌, ◌^◌, replicate,
}
use carl9170fw.Wol.Wake.{
  Wol, host_suspended, awake_host, is_suspended, has, wol_disconnect, is_after_msecs,
  watch_connection, wol_janitor, connect_callback,
}

-- What `wol_janitor` wakes for.
abbrev pub has_reason : Bool → Wol → Bool
has_reason silent w = w.wake_up || (has w.flags wol_disconnect && (silent || leb 5 w.lost_null))

-- What a round of the janitor does to the host.
pub record Decides (now ticks : ℕ) (silent : Bool) (w : Wol) : Type 0 where
  pub mode :
      (wol_janitor now ticks w).suspend_mode
      ≡ (if is_suspended w.suspend_mode && has_reason silent w then awake_host else w.suspend_mode)
  pub signals : (wol_janitor now ticks w).wake_signals ≡ (
      if is_suspended w.suspend_mode && has_reason silent w
      then suc w.wake_signals
      else w.wake_signals)

janitor-Decides :
    (now ticks : ℕ) (w : Wol) → Decides now ticks (is_after_msecs now ticks w.last_beacon 10000) w
unfolding wol_janitor watch_connection
janitor-Decides now ticks w = record { mode = ground arith; signals = ground arith }

-- Ten seconds and a thousand ticks.
abbrev pub ten_seconds : ℕ → ℕ
ten_seconds ticks = 10000000 * ticks + 1000

is_after-elapsed :
    (t0 elapsed ticks : ℕ)
    → t0 < 2 ^ 32
    → elapsed < 2 ^ 32
    → 10000 * ticks < 2 ^ 32
    → is_after_msecs (u32 (t0 + elapsed)) ticks t0 10000 ≡ leb (ten_seconds ticks) elapsed
is_after-elapsed t0 elapsed ticks p q r =
    let since : sub32 (u32 (t0 + elapsed)) t0 ≡ elapsed = omega arith in
    let limit : u32 (10000 * ticks) ≡ 10000 * ticks = omega arith in
    ap₂ (λ (a b : ℕ). ltb a (b / 1000)) limit since ∙ ground arith

-- Where the clock has made `elapsed` ticks since the last beacon, less than its range, one round of
-- `wol_janitor` tells the USB part to wake the host, and leaves the state "suspended", exactly if
-- the host is suspended and has a reason: a frame that woke it, or, if it asked for the connection
-- to be watched, ten seconds and a thousand ticks without a beacon or five lost nullfunc frames. The
-- clock makes `ticks` ticks in a microsecond, so few that ten seconds in milliseconds times `ticks`
-- are within 32 bits.
pub wol_janitor-Decides :
    (elapsed ticks : ℕ) (w : Wol)
    → w.last_beacon < 2 ^ 32
    → elapsed < 2 ^ 32
    → 10000 * ticks < 2 ^ 32
    → Decides (u32 (w.last_beacon + elapsed)) ticks (leb (ten_seconds ticks) elapsed) w
wol_janitor-Decides elapsed ticks w p q r =
    subst (λ b. Decides (u32 (w.last_beacon + elapsed)) ticks b w)
      (is_after-elapsed w.last_beacon elapsed ticks p q r)
      (janitor-Decides (u32 (w.last_beacon + elapsed)) ticks w)

-- The outcomes of nullfunc frames, oldest first.
abbrev pub callbacks : List Bool → Wol → Wol
callbacks [] w = w
callbacks (b ∷ bs) w = callbacks bs (connect_callback b w)

callbacks-append :
    (bs cs : List Bool) (w : Wol) → callbacks (bs ++ cs) w ≡ callbacks cs (callbacks bs w)
callbacks-append [] cs w = refl
callbacks-append (b ∷ bs) cs w = callbacks-append bs cs (connect_callback b w)

abbrev with_lost : Wol → ℕ → Wol
with_lost w n = record w { lost_null = n }

callbacks-failures :
    (n : ℕ) (w : Wol)
    → w.lost_null + n < 2 ^ 32
    → callbacks (replicate n false) w ≡ with_lost w (w.lost_null + n)
callbacks-failures zero w p = ap (with_lost w) {x = w.lost_null} {y = w.lost_null + 0} (omega arith)
callbacks-failures (suc n) w p =
    let one : u32 (w.lost_null + 1) ≡ suc w.lost_null = omega arith in
    ap (λ (k : ℕ). callbacks (replicate n false) (with_lost w k)) one
    ∙ callbacks-failures n (with_lost w (suc w.lost_null)) (omega arith)
    ∙ ap (with_lost w) {x = suc w.lost_null + n} {y = w.lost_null + suc n} (omega arith)

-- Only the counter changes.
callbacks-with_lost :
    (bs : List Bool) (w : Wol) → callbacks bs w ≡ with_lost w (callbacks bs w).lost_null
callbacks-with_lost [] w = refl
callbacks-with_lost (b ∷ bs) w = callbacks-with_lost bs (connect_callback b w)

-- The nullfunc frames tell a lost connection: a suspended host that has asked for it, and that has
-- no other reason to wake, is woken exactly if at least five in a row have failed since the last
-- success.
pub wol_janitor-lost :
    (now ticks n : ℕ) (front : List Bool) (w : Wol)
    → n < 2 ^ 32
    → w.suspend_mode ≡ host_suspended
    → has w.flags wol_disconnect ≡ true
    → w.wake_up ≡ false
    → is_after_msecs now ticks w.last_beacon 10000 ≡ false
    → (wol_janitor now ticks (callbacks (front ++ true ∷ replicate n false) w)).suspend_mode
      ≡ (if leb 5 n then awake_host else host_suspended)
wol_janitor-lost now ticks n front w p sus fl wk bc =
    let end : callbacks (front ++ true ∷ replicate n false) w ≡ with_lost w (0 + n) =
      callbacks-append front (true ∷ replicate n false) w
      ∙ ap (λ v. callbacks (true ∷ replicate n false) v) (callbacks-with_lost front w)
      ∙ callbacks-failures n (with_lost w 0) (omega arith) in
    ap (λ v. (wol_janitor now ticks v).suspend_mode) end
    ∙ (janitor-Decides now ticks (with_lost w (0 + n))).mode
    ∙ ground arith
