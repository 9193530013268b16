-- ===== src/Cam.antt =====
-- carlfw/src/cam.c: the key memory of the security engine, rows of four words. The waits for the
-- hardware are left out.
pub mod Keys
mod Tests
use carl9170fw.Base.{
  ℕ, zero, suc, ◌+◌, ◌-◌, ◌*◌, ◌/◌, ◌%◌, ◌^◌, ◌==◌, leb, ltb, if◌then◌else◌, List, set, get_or,
  take, u16, u32, bit_and, bit_or, ◌<<<◌, ◌>>>◌,
}

-- AR9170_CAM_MAX_USER, ENCRY_TYPE_START_ADDR, DEFAULT_ENCRY_TYPE and KEY_START_ADDR
abbrev pub cam_max_user : ℕ
cam_max_user = 64

abbrev pub encry_type_start : ℕ
encry_type_start = 24

abbrev pub default_encry_type : ℕ
default_encry_type = 26

abbrev pub key_start : ℕ
key_start = 27

-- The registers AR9170_MAC_REG_CAM_ROLL_CALL_TBL_L and _H, and the rows.
pub record Cam : Type 0 where
  pub roll_call_l : ℕ
  pub roll_call_h : ℕ
  pub rows : ℕ → List ℕ

-- `struct carl9170_set_key_cmd`
pub record SetKey : Type 0 where
  pub user : ℕ
  pub key_id : ℕ
  pub type : ℕ
  pub mac_addr : List ℕ
  pub key : List ℕ

-- `~bits` on words.
abbrev pub complement : ℕ → ℕ
complement bits = 2 ^ 32 - 1 - bits

-- `disable_cam_user`
unfoldable pub disable_cam_user : ℕ → Cam → Cam
disable_cam_user user c =
    if leb user 31
    then record c { roll_call_l = bit_and c.roll_call_l (complement (1 <<< user)) }
    else (if leb user 63
        then record c { roll_call_h = bit_and c.roll_call_h (complement (1 <<< (user - 32))) }
        else c)

-- `enable_cam_user`
unfoldable pub enable_cam_user : ℕ → Cam → Cam
enable_cam_user user c =
    if leb user 31
    then record c { roll_call_l = bit_or c.roll_call_l (1 <<< user) }
    else (if leb user 63
        then record c { roll_call_h = bit_or c.roll_call_h (1 <<< (user - 32)) }
        else c)

-- `HW_CAM_Write128`
abbrev pub write128 : ℕ → List ℕ → Cam → Cam
write128 row words c = record c { rows = λ r. if r == row then take 4 words else c.rows r }

-- A field of a word of a row, read, replaced and written back: `mask` at the bit `shift`.
abbrev pub replace : ℕ → ℕ → ℕ → ℕ → ℕ → Cam → Cam
replace row word mask shift value c =
    let old = get_or (c.rows row) word 0 in
    write128 row
      (set (c.rows row) word
        (bit_or (bit_and old (complement (u32 (mask <<< shift)))) (u32 (value <<< shift))))
      c

-- The encryption type's row, word and nibble.
abbrev pub type_row : ℕ → ℕ
type_row user =
    if leb cam_max_user user then default_encry_type else encry_type_start + (user >>> 5)

abbrev pub type_word : ℕ → ℕ
type_word user = if leb cam_max_user user then 0 else (user >>> 3) % 4

abbrev pub type_nibble : ℕ → ℕ
type_nibble user = if leb cam_max_user user then (user - cam_max_user) % 8 else user % 8

-- The loop that writes the octets `i` to 5 of the address, `n` to go.
abbrev pub write_mac : ℕ → ℕ → SetKey → Cam → Cam
write_mac zero i key c = c
write_mac (suc n) i key c =
    let c1 : Cam =
      replace ((key.user >>> 4) * 6 + i) ((key.user >>> 2) % 4) 0xff (key.user % 4 * 8)
        (get_or key.mac_addr i 0) c in
    write_mac n (i + 1) key c1

-- `set_key`
unfoldable pub set_key : SetKey → Cam → Cam
set_key key c =
    if ltb (cam_max_user + 3) key.user
    then c
    else (if ltb 1 key.key_id
        then c
        else (let c1 : Cam =
              replace (type_row key.user) (type_word key.user) 0xf (type_nibble key.user * 4)
                key.type (disable_cam_user key.user c) in
            let c2 : Cam = if ltb key.user cam_max_user then write_mac 6 0 key c1 else c1 in
            enable_cam_user key.user (write128 (key_start + key.user * 2 + key.key_id) key.key c2)))

-- `disable_key`
unfoldable pub disable_key : ℕ → Cam → Cam
disable_key user c = disable_cam_user user c
