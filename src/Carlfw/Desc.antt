-- ===== src/Carlfw/Desc.antt =====
-- A descriptor as its octets: the head of eight, with the magic, the length of all, and two
-- versions, and what follows (include/shared/fwdesc.h).
use carl9170fw.Base.{
  ℕ, ◌+◌, ◌*◌, ◌/◌, ◌%◌, ◌==◌, leb, ltb, List, [], ◌∷◌, ◌++◌, get_or, Bool, not, ◌&&◌, ◌||◌, u16,
}

-- Why an operation fails, and a memory fault. `stale_errno` is what `errno` holds after a call that
-- does not set it.
pub data Errno : Type 0 where
  einval enodata emsgsize e2big stale_errno : Errno

pub data Result (A : Type 0) : Type 0 where
  ok : A → Result A
  err : Errno → Result A
  fault : Result A

infixl 5 ◌>>=◌
abbrev pub ◌>>=◌ : {A B : Type 0} → Result A → (A → Result B) → Result B
ok a >>= f = f a
err e >>= f = err e
fault >>= f = fault

abbrev pub Bytes : Type 0
Bytes = List ℕ

-- An octet, and words of two and four, lowest first.
abbrev pub byte : Bytes → ℕ → ℕ
byte bs i = get_or bs i 0

abbrev pub word16 : Bytes → ℕ → ℕ
word16 bs i = byte bs i + byte bs (i + 1) * 256

abbrev pub word32 : Bytes → ℕ → ℕ
word32 bs i = word16 bs i + word16 bs (i + 2) * 65536

abbrev pub le16 : ℕ → Bytes
le16 n = n % 256 ∷ n / 256 % 256 ∷ []

abbrev pub le32 : ℕ → Bytes
le32 n = n % 256 ∷ n / 256 % 256 ∷ n / 65536 % 256 ∷ n / 16777216 % 256 ∷ []

-- `struct carl9170fw_desc_head` at a place, and its size.
abbrev pub desc_head_size : ℕ
desc_head_size = 8

abbrev pub desc_length : Bytes → ℕ
desc_length d = u16 (word16 d 4)

abbrev pub min_ver : Bytes → ℕ
min_ver d = byte d 6

abbrev pub cur_ver : Bytes → ℕ
cur_ver d = byte d 7

-- CARL9170FW_DESC_MAX_LENGTH
abbrev pub desc_max_length : ℕ
desc_max_length = 8192

-- OTUS_MAGIC, CHK_MAGIC and LAST_MAGIC
abbrev pub otus_magic : Bytes
otus_magic = 0x4f ∷ 0x54 ∷ 0x41 ∷ 0x52 ∷ []

abbrev pub chk_magic : Bytes
chk_magic = 0x43 ∷ 0x48 ∷ 0x4b ∷ 0 ∷ []

abbrev pub last_magic : Bytes
last_magic = 0x4c ∷ 0x41 ∷ 0x53 ∷ 0x54 ∷ []

-- CHECK_HDR_VERSION: is the descriptor of another version?
unfoldable pub check_hdr_version : Bytes → ℕ → Bool
check_hdr_version d rev = ltb (cur_ver d) rev || ltb rev (min_ver d)

-- The comparison of the magic, octet by octet.
abbrev pub same_magic : Bytes → Bytes → Bool
same_magic id d =
    (byte id 0 == byte d 0)
    && ((byte id 1 == byte d 1) && ((byte id 2 == byte d 2) && (byte id 3 == byte d 3)))

-- `carl9170fw_desc_cmp`
unfoldable pub desc_cmp : Bytes → Bytes → ℕ → ℕ → Bool
unfolding check_hdr_version
desc_cmp d descid min_len rev =
    same_magic descid d && (not (check_hdr_version d rev) && leb min_len (desc_length d))

-- `carl9170fw_size_check`, with CARL9170FW_MIN_SIZE and _MAX_SIZE
unfoldable pub size_check : ℕ → Bool
size_check len = leb len 16384 && leb 32 len

-- CARL9170FW_FILL_DESC
abbrev pub fill_head : Bytes → ℕ → ℕ → ℕ → Bytes
fill_head magic len min_version cur_version = magic ++ (le16 len ++ min_version ∷ cur_version ∷ [])
