-- ===== src/Ring.antt =====
-- The shape that the firmware's three rings share (the status cache, the block ack cache and the
-- message buffers): `count` slots from `head` on, in an array of `size` slots that goes round.
use carl9170fw.Base.{
  ℕ, zero, suc, ◌+◌, ◌-◌, ◌%◌, ◌≤◌, ◌<◌, ◌≡◌, ◌≢◌, refl, sym, ◌∙◌, ap, ap₂, List, [], ◌∷◌, ◌++◌,
  arith, length, get_or, set, take, drop, get_or-set_self, get_or-set_ne,
}
use native.Mathlib.Nat.{mod-add-mod, mod-eq_of_lt, mod-eq-sub-mod}
use native.Mathlib.Decide.{dec_lt}

-- Fewer than `size` steps round the ring end elsewhere, and where they do.
pub wrap_low : (size h k : ℕ) → h + k < size → (h + k) % size ≡ h + k
wrap_low size h k p = mod-eq_of_lt p

pub wrap_high :
    (size h k : ℕ)
    → h < size
    → k ≤ size
    → size ≤ h + k
    → h + k < size + size
    → (h + k) % size ≡ h + k - size
wrap_high size h k hh hk p p' =
    mod-eq-sub-mod {n = h + k} {m = size} p
    ∙ mod-eq_of_lt {n = h + k - size} {m = size} (omega arith)

wrap-ne : (size h k : ℕ) → h < size → 0 < k → k < size → (h + k) % size ≢ h
wrap-ne size h k hh hk hk' = elim (dec_lt (h + k) size) [
  | yes p ↦ omega (arith, wrap_low size h k p)
  | no p ↦ omega (arith, wrap_high size h k hh (omega arith) (omega arith) (omega arith))
]

wrap-step : (size h k : ℕ) → (h + suc k) % size ≡ ((h + 1) % size + k) % size
wrap-step size h k = rw mod-add-mod (ap (λ (n : ℕ). n % size) (omega arith))

take-drop-suc {ℓ} :
    {A : Type ℓ} (d : A) (xs : List A) (h n : ℕ)
    → h < length xs
    → take (suc n) (drop h xs) ≡ get_or xs h d ∷ take n (drop (h + 1) xs)
take-drop-suc d [] h n p = absurd (omega arith)
take-drop-suc d (x ∷ xs) zero n p = refl
take-drop-suc d (x ∷ xs) (suc h) n p =
    take-drop-suc d xs h n (omega arith)
    ∙ ap (λ (k : ℕ). get_or xs h d ∷ take n (drop k (x ∷ xs))) (step h)
  where
    step : (k : ℕ) → suc (k + 1) ≡ suc k + 1
    step k = omega arith

module _ {ℓ} {A : Type ℓ} (d : A) (size : ℕ) where
  -- The slots from `h` on, in order.
  abbrev pub window : List A → ℕ → ℕ → List A
  window buf h zero = []
  window buf h (suc n) = get_or buf h d ∷ window buf ((h + 1) % size) n

  pub length-window : (buf : List A) (h n : ℕ) → length (window buf h n) ≡ n
  length-window buf h zero = refl
  length-window buf h (suc n) = ap suc (length-window buf ((h + 1) % size) n)

  -- Writing a slot behind the window leaves it.
  pub window-set_out :
      (buf : List A) (x : A) (n g h i : ℕ)
      → h < size
      → n + g < size
      → i ≡ (h + (n + g)) % size
      → window (set buf i x) h n ≡ window buf h n
  window-set_out buf x zero g h i hh hn e = refl
  window-set_out buf x (suc n) g h i hh hn e =
      ap₂ ◌∷◌
        (get_or-set_ne buf i h x d
          (λ p. wrap-ne size h (suc n + g) hh (omega arith) hn (sym e ∙ p)))
        (window-set_out buf x n g ((h + 1) % size) i (omega arith) (omega arith)
          (e ∙ ap (λ (k : ℕ). (h + k) % size) (omega arith) ∙ wrap-step size h (n + g)))

  -- Writing the slot just behind the window extends it.
  pub window-set :
      (buf : List A) (x : A) (n h i : ℕ)
      → size ≤ length buf
      → h < size
      → n < size
      → i ≡ (h + n) % size
      → window (set buf i x) h (suc n) ≡ window buf h n ++ x ∷ []
  window-set buf x zero h i hs hh hn e =
      let at : i ≡ h = e ∙ wrap_low size h 0 (omega arith) ∙ omega arith in
      rw at (ap (λ y. y ∷ []) (get_or-set_self buf h x d (omega arith)))
  window-set buf x (suc n) h i hs hh hn e =
      ap₂ ◌∷◌
        (get_or-set_ne buf i h x d (λ p. wrap-ne size h (suc n) hh (omega arith) hn (sym e ∙ p)))
        (window-set buf x n ((h + 1) % size) i hs (omega arith) (omega arith)
          (e ∙ wrap-step size h n))

  -- Writing the first slot of a window that takes up the ring replaces its first element.
  pub window-set_front :
      (buf : List A) (x : A) (n m h i : ℕ)
      → i ≡ h
      → h < size
      → size ≤ length buf
      → m ≡ suc n
      → m ≤ size
      → window (set buf i x) h m ≡ x ∷ drop 1 (window buf h m)
  window-set_front buf x n m h i e hh hs em hm = rw em (
      ap₂ ◌∷◌ (rw e (get_or-set_self buf h x d (omega arith))) (
        window-set_out buf x n (size - suc n) ((h + 1) % size) i (omega arith) (omega arith)
          (e ∙ sym (go_round (n + (size - suc n)) (omega arith)))))
    where
      go_round : (k : ℕ) → suc k ≡ size → ((h + 1) % size + k) % size ≡ h
      go_round k ek =
          sym (wrap-step size h k)
          ∙ wrap_high size h (suc k) hh (omega arith) (omega arith) (omega arith)
          ∙ omega arith

  -- A window that does not go round is a part of the array.
  pub window-take :
      (buf : List A) (h n : ℕ)
      → h + n ≤ size
      → size ≤ length buf
      → window buf h n ≡ take n (drop h buf)
  window-take buf h zero p q = refl
  window-take buf h (suc zero) p q = sym (take-drop-suc d buf h 0 (omega arith))
  window-take buf h (suc (suc n)) p q =
      ap (λ xs. get_or buf h d ∷ xs)
        (ap (λ (k : ℕ). window buf k (suc n)) (mod-eq_of_lt {n = h + 1} {m = size} (omega arith))
          ∙ window-take buf (h + 1) (suc n) (omega arith) q)
      ∙ sym (take-drop-suc d buf h (suc n) (omega arith))

  -- Taking `k` slots off the front.
  pub window-drop :
      (buf : List A) (h k n : ℕ)
      → h < size
      → window buf h (k + n) ≡ window buf h k ++ window buf ((h + k) % size) n
  window-drop buf h zero n hh =
      ap₂ (λ (a b : ℕ). window buf a b)
        (sym (ap (λ (a : ℕ). a % size) (omega arith) ∙ mod-eq_of_lt hh)) (omega arith)
  window-drop buf h (suc k) n hh =
      let split : suc k + n ≡ suc (k + n) = omega arith in
      ap (window buf h) split
      ∙ ap (λ xs. get_or buf h d ∷ xs)
          (window-drop buf ((h + 1) % size) k n (omega arith)
            ∙ ap (λ (a : ℕ). window buf ((h + 1) % size) k ++ window buf a n)
                (sym (wrap-step size h k)))
