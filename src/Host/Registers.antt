-- ===== src/Host/Registers.antt =====
-- Registers that are written are read back.
use carl9170fw.Base.{
  ℕ, zero, suc, ◌+◌, ◌*◌, ◌/◌, ◌%◌, ◌^◌, ◌==◌, ◌≡◌, ◌≢◌, ◌<◌, refl, sym, ◌∙◌, ap, ap₂, Bool, true,
  false, u32, arith, subst,
}
use native.Mathlib.Decide.{dec_le}
use carl9170fw.Host.Command.{
  Mem, Msg, word_at, octet_of, write_word, Parts, Host, rreg_loop, wreg_loop, handle_cmd,
  with_parts,
}

write-octet : (i k v : ℕ) (m : Mem) → k < 4 → write_word i v m (4 * i + k) ≡ octet_of v k
write-octet i k v m p =
    let q : (4 * i + k) / 4 ≡ i = omega arith in
    let r : (4 * i + k) % 4 ≡ k = omega arith in
    let t : ((4 * i + k) / 4 == i) ≡ true = ground (arith, q) in
    let at : octet_of v ((4 * i + k) % 4) ≡ octet_of v k = ap (octet_of v) r in rw t at

keep-octet : (i j k v : ℕ) (m : Mem) → k < 4 → i ≢ j → write_word j v m (4 * i + k) ≡ m (4 * i + k)
keep-octet i j k v m p n =
    let q : (4 * i + k) / 4 ≡ i = omega arith in
    let t : ((4 * i + k) / 4 == j) ≡ false = ground (arith, q) in rw t refl

first_octet : (f : Mem) (i : ℕ) → f (4 * i) ≡ f (4 * i + 0)
first_octet f i = ap f (omega arith)

from_octets :
    (a b c d v : ℕ)
    → v < 2 ^ 32
    → a ≡ v % 256
    → b ≡ v / 256 % 256
    → c ≡ v / 65536 % 256
    → d ≡ v / 16777216 % 256
    → u32 (a + b * 256 + c * 65536 + d * 16777216) ≡ v
from_octets a b c d v p e f g h = omega arith

-- A word that is written into a payload.
pub word_at-write_self : (i v : ℕ) (m : Mem) → v < 2 ^ 32 → word_at (write_word i v m) i ≡ v
word_at-write_self i v m p =
    from_octets _ _ _ _ v p (first_octet (write_word i v m) i ∙ write-octet i 0 v m (omega arith))
      (write-octet i 1 v m (omega arith)) (write-octet i 2 v m (omega arith))
      (write-octet i 3 v m (omega arith))

pub word_at-write_other : (i j v : ℕ) (m : Mem) → i ≢ j → word_at (write_word j v m) i ≡ word_at m i
word_at-write_other i j v m n =
    let a : write_word j v m (4 * i) ≡ m (4 * i) =
      first_octet (write_word j v m) i
      ∙ keep-octet i j 0 v m (omega arith) n
      ∙ sym (first_octet m i) in
    let b = keep-octet i j 1 v m (omega arith) n in
    let c = keep-octet i j 2 v m (omega arith) n in
    let d = keep-octet i j 3 v m (omega arith) n in
    ap₂ (λ (x y : ℕ). u32 (x + y))
      (ap₂ (λ (x y : ℕ). x + y * 65536) (ap₂ (λ (x y : ℕ). x + y * 256) a b) c)
      (ap (λ (x : ℕ). x * 16777216) d)

-- Registers of 32 bits, of which the plain ones hold what was written last, and reading them has no
-- other effect.
pub record IsRegisterFile {S : Type 0} (p : Parts S) (plain : ℕ → Bool) : Type 0 where
  pub reads :
      (a v : ℕ) (s : S) → plain a ≡ true → v < 2 ^ 32 → (p.get_reg a (p.set_reg a v s)).0 ≡ v
  pub other :
      (a b v : ℕ) (s : S)
      → plain a ≡ true
      → a ≢ b
      → (p.get_reg a (p.set_reg b v s)).0 ≡ (p.get_reg a s).0
  pub quiet : (a : ℕ) (s : S) → plain a ≡ true → (p.get_reg a s).1 ≡ s
  pub words : (a : ℕ) (s : S) → (p.get_reg a s).0 < 2 ^ 32

module _ {S : Type 0} (p : Parts S) (plain : ℕ → Bool) (law : IsRegisterFile p plain) where
  -- The addresses of a write command are plain, and no two are the same.
  pub record IsApart (n : ℕ) (cmd : Mem) : Type 0 where
    pub all_plain : (i : ℕ) → i < n → plain (word_at cmd (2 * i)) ≡ true
    pub distinct : (i j : ℕ) → i < n → j < n → i ≢ j → word_at cmd (2 * i) ≢ word_at cmd (2 * j)

  wreg_loop-reads :
      (n : ℕ) (cmd : Mem) (s : S) (k : ℕ)
      → IsApart n cmd
      → k < n
      → (p.get_reg (word_at cmd (2 * k)) (wreg_loop p n cmd s)).0 ≡ word_at cmd (2 * k + 1)
  wreg_loop-reads zero cmd s k a h = absurd (omega arith)
  wreg_loop-reads (suc n) cmd s k a h = elim (dec_le n k) [
    | yes q ↦
        let e : k ≡ n = omega arith in
        let at : (p.get_reg (word_at cmd (2 * n)) (wreg_loop p (suc n) cmd s)).0
            ≡ word_at cmd (2 * n + 1) =
          law.reads (word_at cmd (2 * n)) (word_at cmd (2 * n + 1)) (wreg_loop p n cmd s)
            (a.all_plain n (omega arith)) (omega arith) in
        subst
          (λ (j : ℕ).
            (p.get_reg (word_at cmd (2 * j)) (wreg_loop p (suc n) cmd s)).0
            ≡ word_at cmd (2 * j + 1))
          (sym e) at
    | no q ↦
        let apart : IsApart n cmd = record {
          all_plain = λ i b. a.all_plain i (omega arith);
          distinct = λ i j b c d. a.distinct i j (omega arith) (omega arith) d;
        } in
        law.other (word_at cmd (2 * k)) (word_at cmd (2 * n)) (word_at cmd (2 * n + 1))
          (wreg_loop p n cmd s) (a.all_plain k h) (a.distinct k n h (omega arith) (omega arith))
        ∙ wreg_loop-reads n cmd s k apart (omega arith)
  ]

  rreg_loop-reads :
      (n : ℕ) (cmd body : Mem) (s : S)
      → ((i : ℕ) → i < n → plain (word_at cmd i) ≡ true)
      → ((rreg_loop p n cmd (body, s)).1 ≡ s)
        × ((k : ℕ)
            → k < n
            → word_at (rreg_loop p n cmd (body, s)).0 k ≡ (p.get_reg (word_at cmd k) s).0)
  rreg_loop-reads zero cmd body s h = (refl, λ k q. absurd (omega arith))
  rreg_loop-reads (suc n) cmd body s h =
      let ih = rreg_loop-reads n cmd body s (λ i q. h i (omega arith)) in
      let before : Mem × S = rreg_loop p n cmd (body, s) in
      let got : ℕ × S = p.get_reg (word_at cmd n) before.1 in
      (
        law.quiet (word_at cmd n) before.1 (h n (omega arith)) ∙ ih.0,
        λ k q. elim (dec_le n k) [
          | yes r ↦
              let e : n ≡ k = omega arith in
              let at : word_at (write_word n got.0 before.0) n ≡ (p.get_reg (word_at cmd n) s).0 =
                word_at-write_self n got.0 before.0 (law.words (word_at cmd n) before.1)
                ∙ ap (λ (t : S). (p.get_reg (word_at cmd n) t).0) ih.0 in
              subst
                (λ (j : ℕ).
                  word_at (write_word n got.0 before.0) j ≡ (p.get_reg (word_at cmd j) s).0)
                e at
          | no r ↦ word_at-write_other k n got.0 before.0 (omega arith) ∙ ih.1 k (omega arith)
        ],
      )

  wreg-does :
      (n : ℕ) (c r : Msg) (h : Host S)
      → c.cmd ≡ 1
      → c.len ≡ 8 * n
      → (handle_cmd p c r h).1 ≡ with_parts p h (wreg_loop p n c.body h.parts)
  wreg-does n c r h e f =
      let count : 8 * n / 8 ≡ n = omega arith in
      ap₂ (λ (id l : ℕ). (handle_cmd p (record c { cmd = id; len = l }) r h).1) e f
      ∙ ap (λ (m : ℕ). with_parts p h (wreg_loop p m c.body h.parts)) count

  rreg-does :
      (n : ℕ) (c r : Msg) (h : Host S)
      → c.cmd ≡ 0
      → c.len ≡ 4 * n
      → ((handle_cmd p c r h).0.len ≡ 4 * n)
        × ((handle_cmd p c r h).0.body ≡ (rreg_loop p n c.body (r.body, h.parts)).0)
  rreg-does n c r h e f =
      let count : 4 * n / 4 ≡ n = omega arith in
      (
        ap₂ (λ (id l : ℕ). (handle_cmd p (record c { cmd = id; len = l }) r h).0.len) e f,
        ap₂ (λ (id l : ℕ). (handle_cmd p (record c { cmd = id; len = l }) r h).0.body) e f
            ∙ ap (λ (m : ℕ). (rreg_loop p m c.body (r.body, h.parts)).0) count,
      )

  -- Where plain registers hold what was written last: when the host has written up to any number of
  -- them with CARL9170_CMD_WREG, none twice, and then reads the same addresses with
  -- CARL9170_CMD_RREG, the answer has the values that were written, in their places, and the
  -- length of the request.
  pub handle_cmd-reads_back :
      (n : ℕ) (wreg rreg resp resp' : Msg) (h : Host S)
      → IsApart n wreg.body
      → ((i : ℕ) → i < n → word_at rreg.body i ≡ word_at wreg.body (2 * i))
      → wreg.cmd ≡ 1
      → wreg.len ≡ 8 * n
      → rreg.cmd ≡ 0
      → rreg.len ≡ 4 * n
      → let answer = (handle_cmd p rreg resp' (handle_cmd p wreg resp h).1).0 in
        (answer.len ≡ 4 * n)
        × ((k : ℕ) → k < n → word_at answer.body k ≡ word_at wreg.body (2 * k + 1))
  handle_cmd-reads_back n wreg rreg resp resp' h a same wc wl rc rl =
      let h' : Host S = (handle_cmd p wreg resp h).1 in
      let s : S = wreg_loop p n wreg.body h.parts in
      let state : h'.parts ≡ s = ap (λ (t : Host S). t.parts) (wreg-does n wreg resp h wc wl) in
      let answered = rreg-does n rreg resp' h' rc rl in
      let plains : (i : ℕ) → i < n → plain (word_at rreg.body i) ≡ true =
        λ i q. ap plain (same i q) ∙ a.all_plain i q in
      let got = rreg_loop-reads n rreg.body resp'.body h'.parts plains in
      (
        answered.0,
        λ k q.
            ap (λ (m : Mem). word_at m k) answered.1
            ∙ got.1 k q
            ∙ ap₂ (λ (b : ℕ) (t : S). (p.get_reg b t).0) (same k q) state
            ∙ wreg_loop-reads n wreg.body h.parts k a q,
      )
