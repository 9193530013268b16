-- ===== src/Carlfw/Descs.antt =====
-- The list of descriptors of `struct carlfw`, and the operations on it. An entry of the list is the
-- descriptor in it, a pointer to an entry is its place.
use carl9170fw.Base.{
  ℕ, zero, suc, ◌+◌, ◌-◌, ◌==◌, ltb, if◌then◌else◌, List, [], ◌∷◌, ◌++◌, get_or, length, take, drop,
  u32, sub32, Option, none, some,
}
use carl9170fw.Carlfw.Desc.{
  einval, e2big, Result, ok, err, ◌>>=◌, Bytes, desc_length, desc_cmp, desc_head_size,
  desc_max_length, le16,
}

-- `struct carlfw`, with the image in `fw.data`.
pub record Carlfw : Type 0 where
  pub image : Bytes
  pub descs : List Bytes
  pub desc_list_entries : ℕ
  pub desc_list_len : ℕ

-- `carlfw_find_entry`: the place of the first descriptor that compares, counted from `i` on.
abbrev pub find_from : ℕ → Bytes → ℕ → ℕ → List Bytes → Option ℕ
find_from i descid len rev [] = none
find_from i descid len rev (d ∷ ds) =
    let rest = find_from (suc i) descid len rev ds in
    if desc_cmp d descid len rev then some i else rest

unfoldable pub find_entry : Carlfw → Bytes → ℕ → ℕ → Option ℕ
find_entry fw descid len rev = find_from 0 descid len rev fw.descs

-- The descriptor at a place.
abbrev pub desc_at : Carlfw → ℕ → Bytes
desc_at fw i = get_or fw.descs i []

-- `__carlfw_entry_add_prepare`: the new entry, a copy of as many octets as its length says, and the
-- counters.
unfoldable pub entry_add_prepare : Carlfw → Bytes → Result (Bytes × Carlfw)
entry_add_prepare fw desc =
    let len = desc_length desc in
    if ltb len desc_head_size
    then err einval
    else ok (
      take len desc,
      record fw {
        desc_list_entries = u32 (fw.desc_list_entries + 1);
        desc_list_len = u32 (fw.desc_list_len + len);
      },
    )

-- `carlfw_desc_add_tail`
unfoldable pub desc_add_tail : Carlfw → Bytes → Result Carlfw
unfolding entry_add_prepare
desc_add_tail fw desc =
    entry_add_prepare fw desc >>= λ r. ok (record r.1 { descs = r.1.descs ++ r.0 ∷ [] })

abbrev pub insert_at : ℕ → Bytes → List Bytes → List Bytes
insert_at i d ds = take i ds ++ d ∷ drop i ds

-- `carlfw_desc_add_before`, which is `carlfw_desc_add` with the entry before.
unfoldable pub desc_add_before : Carlfw → Bytes → ℕ → Result Carlfw
unfolding entry_add_prepare
desc_add_before fw desc pos =
    entry_add_prepare fw desc >>= λ r. ok (record r.1 { descs = insert_at pos r.0 r.1.descs })

abbrev pub remove_at : ℕ → List Bytes → List Bytes
remove_at i [] = []
remove_at zero (d ∷ ds) = ds
remove_at (suc i) (d ∷ ds) = d ∷ remove_at i ds

-- `carlfw_desc_unlink`, and `carlfw_desc_del`, which frees the entry too.
unfoldable pub desc_unlink : Carlfw → ℕ → Carlfw
desc_unlink fw i = record fw {
  desc_list_entries = sub32 fw.desc_list_entries 1;
  desc_list_len = sub32 fw.desc_list_len (desc_length (desc_at fw i));
  descs = remove_at i fw.descs;
}

unfoldable pub desc_del : Carlfw → ℕ → Carlfw
unfolding desc_unlink
desc_del fw i = desc_unlink fw i

abbrev pub replace_at : ℕ → Bytes → List Bytes → List Bytes
replace_at i e [] = []
replace_at zero e (d ∷ ds) = e ∷ ds
replace_at (suc i) e (d ∷ ds) = d ∷ replace_at i e ds

-- What `realloc` leaves of a descriptor of another length, with its length field written. The
-- octets that it adds are an argument.
abbrev pub resized : Bytes → Bytes → ℕ → Bytes
resized added d new_len = take 4 d ++ (le16 new_len ++ drop 6 (take new_len (d ++ added)))

-- `carlfw_desc_mod_len`, for a length that grows by `len`, and for one that shrinks.
unfoldable pub desc_grow : Carlfw → ℕ → ℕ → Bytes → Result Carlfw
desc_grow fw i len added =
    let new_len = desc_length (desc_at fw i) + len in
    if ltb new_len desc_head_size
    then err einval
    else (if ltb desc_max_length new_len
        then err e2big
        else ok (record fw {
          descs = replace_at i (resized added (desc_at fw i) new_len) fw.descs;
          desc_list_len = u32 (fw.desc_list_len + len);
        }))

unfoldable pub desc_shrink : Carlfw → ℕ → ℕ → Result Carlfw
desc_shrink fw i len =
    let old_len = desc_length (desc_at fw i) in
    if ltb old_len (desc_head_size + len)
    then err einval
    else (if ltb (desc_max_length + len) old_len
        then err e2big
        else ok (record fw {
          descs = replace_at i (resized [] (desc_at fw i) (old_len - len)) fw.descs;
          desc_list_len = sub32 fw.desc_list_len len;
        }))

-- `carlfw_desc_next`
unfoldable pub desc_next : Carlfw → Option ℕ → Option ℕ
desc_next fw none = if length fw.descs == 0 then none else some 0
desc_next fw (some i) = if i + 1 == length fw.descs then none else some (i + 1)
