-- ===== src/Cam/Keys.antt =====
-- Which rows a key command writes.
use carl9170fw.Base.{
  ℕ, zero, suc, ◌+◌, ◌*◌, ◌%◌, ◌≡◌, ◌≢◌, ◌≤◌, ◌<◌, refl, sym, ◌∙◌, ap, subst, leb, ltb,
  if◌then◌else◌, List, take, Bool, true, false, ◌&&◌, not, arith, ==-self, ==-ne, ◌>>>◌, ◌⊎◌, inl,
  inr, get_or, Bool-cases,
}
use carl9170fw.Cam.{
  Cam, SetKey, set_key, disable_cam_user, enable_cam_user, write128, replace, write_mac, type_row,
  type_word, type_nibble, key_start, cam_max_user,
}

disable-rows : (user : ℕ) (c : Cam) → (disable_cam_user user c).rows ≡ c.rows
unfolding disable_cam_user
disable-rows user c = ground arith

enable-rows : (user : ℕ) (c : Cam) → (enable_cam_user user c).rows ≡ c.rows
unfolding enable_cam_user
enable-rows user c = ground arith

write128-other :
    (row r : ℕ) (words : List ℕ) (c : Cam) → r ≢ row → (write128 row words c).rows r ≡ c.rows r
write128-other row r words c ne = ap (λ b. if b then take 4 words else c.rows r) (==-ne r row ne)

write128_self :
    (row : ℕ) (words : List ℕ) (c : Cam) → (write128 row words c).rows row ≡ take 4 words
write128_self row words c = ap (λ b. if b then take 4 words else c.rows row) (==-self row)

-- The loop writes the rows of its six octets at most.
write_mac-other :
    (n i r : ℕ) (key : SetKey) (c : Cam)
    → (r < (key.user >>> 4) * 6 + i) ⊎ ((key.user >>> 4) * 6 + i + n ≤ r)
    → (write_mac n i key c).rows r ≡ c.rows r
write_mac-other zero i r key c out = refl
write_mac-other (suc n) i r key c out =
    write_mac-other n (i + 1) r key
      (replace ((key.user >>> 4) * 6 + i) ((key.user >>> 2) % 4) 0xff (key.user % 4 * 8)
        (get_or key.mac_addr i 0) c)
      (ground arith)
    ∙ write128-other ((key.user >>> 4) * 6 + i) r _ c (ground arith)

-- The row of a key.
abbrev pub key_row : ℕ → ℕ → ℕ
key_row user key_id = key_start + user * 2 + key_id

-- Does the command name a key that the memory has?
abbrev pub is_taken : SetKey → Bool
is_taken key = not (ltb (cam_max_user + 3) key.user) && not (ltb 1 key.key_id)

-- The rows for the user's address.
abbrev pub in_mac_rows : ℕ → ℕ → Bool
in_mac_rows user r =
    ltb user cam_max_user && (leb ((user >>> 4) * 6) r && ltb r ((user >>> 4) * 6 + 6))

-- The command's steps, when it is taken.
abbrev typed : SetKey → Cam → Cam
typed key c =
    replace (type_row key.user) (type_word key.user) 0xf (type_nibble key.user * 4) key.type
      (disable_cam_user key.user c)

abbrev addressed : SetKey → Cam → Cam
addressed key c = if ltb key.user cam_max_user then write_mac 6 0 key c else c

set_key-steps :
    (key : SetKey) (c : Cam)
    → set_key key c ≡ (
        if is_taken key
        then enable_cam_user key.user
            (write128 (key_row key.user key.key_id) key.key (addressed key (typed key c)))
        else c)
unfolding set_key
set_key-steps key c = ground arith

typed-other :
    (r : ℕ) (key : SetKey) (c : Cam) → r ≢ type_row key.user → (typed key c).rows r ≡ c.rows r
typed-other r key c ne =
    write128-other (type_row key.user) r _ (disable_cam_user key.user c) ne
    ∙ ap (λ (rows : ℕ → List ℕ). rows r) (disable-rows key.user c)

addressed-other :
    (r : ℕ) (key : SetKey) (c : Cam)
    → in_mac_rows key.user r ≡ false
    → (addressed key c).rows r ≡ c.rows r
addressed-other r key c out = elim (Bool-cases (ltb key.user cam_max_user)) [
  | inl t ↦ rw t (write_mac-other 6 0 r key c (ground arith))
  | inr t ↦ rw t refl
]

-- What a command does to the rows.
pub record Stores (key : SetKey) (c c' : Cam) : Type 0 where
  pub refused : is_taken key ≡ false → c' ≡ c
  pub stored : is_taken key ≡ true → c'.rows (key_row key.user key.key_id) ≡ take 4 key.key
  pub kept :
      (r : ℕ)
      → r ≢ key_row key.user key.key_id
      → r ≢ type_row key.user
      → in_mac_rows key.user r ≡ false
      → c'.rows r ≡ c.rows r

taken-Stores :
    (key : SetKey) (c : Cam)
    → is_taken key ≡ true
    → Stores key c (
        enable_cam_user key.user
          (write128 (key_row key.user key.key_id) key.key (addressed key (typed key c))))
taken-Stores key c t =
    let w : Cam = write128 (key_row key.user key.key_id) key.key (addressed key (typed key c)) in
    record {
      refused = λ f. ground arith;
      stored = λ f.
          ap (λ (rows : ℕ → List ℕ). rows (key_row key.user key.key_id)) (enable-rows key.user w)
          ∙ write128_self (key_row key.user key.key_id) key.key (addressed key (typed key c));
      kept = λ r nk nt nm.
          ap (λ (rows : ℕ → List ℕ). rows r) (enable-rows key.user w)
          ∙ write128-other (key_row key.user key.key_id) r key.key (addressed key (typed key c)) nk
          ∙ addressed-other r key (typed key c) nm
          ∙ typed-other r key c nt;
    }

-- A command for the users 0 to 67 and the keys 0 and 1 stores the key in the row of that user's
-- key; it changes no row but this one, the one with the user's encryption type and, for users below
-- 64, the six with the user's address. Any other command changes nothing.
pub set_key-Stores : (key : SetKey) (c : Cam) → Stores key c (set_key key c)
set_key-Stores key c =
    subst (Stores key c) (sym (set_key-steps key c)) (elim (Bool-cases (is_taken key)) [
      | inl t ↦ rw t (taken-Stores key c t)
      | inr t ↦
          rw t (record { refused = λ f. refl; stored = λ f. ground arith; kept = λ r a b d. refl })
    ])

-- A key command leaves the keys of all others: each other pair of a user up to 67 and a key 0 or 1
-- has its row, and that row stays.
pub set_key-other_keys :
    (key : SetKey) (c : Cam) (user key_id : ℕ)
    → user ≤ 67
    → key_id ≤ 1
    → (user ≢ key.user) ⊎ (key_id ≢ key.key_id)
    → key.key_id ≤ 1
    → (set_key key c).rows (key_row user key_id) ≡ c.rows (key_row user key_id)
set_key-other_keys key c user key_id u k ne k' =
    (set_key-Stores key c).kept (key_row user key_id) (ground arith) (ground arith) (ground arith)
