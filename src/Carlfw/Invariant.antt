-- ===== src/Carlfw/Invariant.antt =====
-- Every operation on the list of descriptors, and what it keeps.
use carl9170fw.Base.{
  ℕ, ◌+◌, ◌-◌, ◌≡◌, ◌≤◌, ◌<◌, sym, subst, ltb, List, [], ◌∷◌, get_or, length, u32, sub32, arith,
  All, Bool-cases, inl, inr, zero, suc,
}
use carl9170fw.Carlfw.Desc.{
  Result, ok, err, fault, Bytes, desc_length, desc_head_size, desc_max_length,
}
use carl9170fw.Carlfw.Descs.{
  Carlfw, desc_at, desc_add_tail, desc_add_before, desc_del, replace_at, resized, desc_grow,
  desc_shrink,
}
use carl9170fw.Carlfw.Counts.{
  IsWhole, IsValid, total, Added, add-tail-Added, add-before-Added, del-IsValid, total-remove_at,
}
use carl9170fw.Carlfw.Resize.{replaced-IsValid}

-- The calls that change the list.
pub data Op : Type 0 where
  add_tail : Bytes → Op
  add_before : Bytes → ℕ → Op
  del : ℕ → Op
  grow : ℕ → ℕ → Bytes → Op
  shrink : ℕ → ℕ → Op

abbrev pub step : Carlfw → Op → Result Carlfw
step fw (add_tail d) = desc_add_tail fw d
step fw (add_before d i) = desc_add_before fw d i
step fw (del i) = ok (desc_del fw i)
step fw (grow i len added) = desc_grow fw i len added
step fw (shrink i len) = desc_shrink fw i len

-- The descriptor that the caller names is there.
abbrev pub IsProper : Carlfw → Op → Type 0
IsProper fw (add_tail d) = desc_length d ≤ length d
IsProper fw (add_before d i) = desc_length d ≤ length d
IsProper fw (del i) = i < length fw.descs
IsProper fw (grow i len added) = (i < length fw.descs) × (length added ≡ len)
IsProper fw (shrink i len) = i < length fw.descs

abbrev pub Holds {ℓ} : {A : Type 0} → (A → Type ℓ) → Result A → Type ℓ
Holds P (ok a) = P a
Holds P (err e) = Unit
Holds P fault = Unit

Holds-Added :
    {fw : Carlfw} {d : Bytes} {ds : List Bytes} {r : Result Carlfw}
    → Added fw d ds r
    → Holds IsValid r
Holds-Added {fw} {d} {ds} {r} a = elim (Bool-cases (ltb (desc_length d) desc_head_size)) [
  | inl t ↦ subst (Holds IsValid) (sym (a.short (ground arith))) tt
  | inr t ↦ let w = a.added (ground arith) in subst (Holds IsValid) (sym w.1) w.4
]

length-of_total :
    (i : ℕ) (ds : List Bytes) → i < length ds → desc_length (get_or ds i []) ≤ total ds
length-of_total i ds p = omega (arith, total-remove_at i ds p)

sized :
    (fw : Carlfw) (i : ℕ)
    → IsValid fw
    → i < length fw.descs
    → length (desc_at fw i) ≡ desc_length (desc_at fw i)
sized fw i v p = at i fw.descs p v.whole
  where
    at :
        (i : ℕ) (ds : List Bytes)
        → i < length ds
        → All IsWhole ds
        → length (get_or ds i []) ≡ desc_length (get_or ds i [])
    at i [] p w = absurd (omega arith)
    at zero (d ∷ ds) p w = w.0.sized
    at (suc i) (d ∷ ds) p w = at i ds (omega arith) w.1

grow-IsValid :
    (fw : Carlfw) (i len : ℕ) (added : Bytes)
    → IsValid fw
    → i < length fw.descs
    → length added ≡ len
    → Holds IsValid (desc_grow fw i len added)
unfolding desc_grow
grow-IsValid fw i len added v p e =
    let n : ℕ = desc_length (desc_at fw i) + len in
    elim (Bool-cases (ltb n desc_head_size)) [
      | inl t ↦ rw t tt
      | inr t ↦ elim (Bool-cases (ltb desc_max_length n)) [
        | inl s ↦ rw t rw s tt
        | inr s ↦
            let after : IsValid (record fw {
              descs = replace_at i (resized added (desc_at fw i) n) fw.descs;
              desc_list_len = u32 (fw.desc_list_len + len);
            }) =
              replaced-IsValid fw i n added (u32 (fw.desc_list_len + len)) v p (ground arith)
                (ground arith) (omega (arith, sized fw i v p, e))
                (omega (arith, v.len_is, length-of_total i fw.descs p)) in
            rw t rw s after
      ]
    ]

shrink-IsValid :
    (fw : Carlfw) (i len : ℕ)
    → IsValid fw
    → i < length fw.descs
    → Holds IsValid (desc_shrink fw i len)
unfolding desc_shrink
shrink-IsValid fw i len v p =
    let n : ℕ = desc_length (desc_at fw i) in
    elim (Bool-cases (ltb n (desc_head_size + len))) [
      | inl t ↦ rw t tt
      | inr t ↦ elim (Bool-cases (ltb (desc_max_length + len) n)) [
        | inl s ↦ rw t rw s tt
        | inr s ↦
            let long : desc_head_size + len ≤ n = ground arith in
            let after : IsValid (record fw {
              descs = replace_at i (resized [] (desc_at fw i) (n - len)) fw.descs;
              desc_list_len = sub32 fw.desc_list_len len;
            }) =
              replaced-IsValid fw i (n - len) [] (sub32 fw.desc_list_len len) v p (omega arith)
                (ground arith) (omega (arith, sized fw i v p))
                (omega (arith, v.len_is, length-of_total i fw.descs p)) in
            rw t rw s after
      ]
    ]

-- An operation that succeeds on a valid list, called with a descriptor that is in memory and a
-- place that is in the list, leaves a valid list: every entry has as many octets as its length
-- says, the number of entries and the sum of their lengths are right.
pub step-IsValid :
    (fw : Carlfw) (op : Op) → IsValid fw → IsProper fw op → Holds IsValid (step fw op)
step-IsValid fw (add_tail d) v p = Holds-Added (add-tail-Added fw d v p)
step-IsValid fw (add_before d i) v p = Holds-Added (add-before-Added fw d i v p)
step-IsValid fw (del i) v p = del-IsValid fw i v p
step-IsValid fw (grow i len added) v p = grow-IsValid fw i len added v p.0 p.1
step-IsValid fw (shrink i len) v p = shrink-IsValid fw i len v p
