-- ===== src/Host/Tests.antt =====
-- Downloads and commands on small inputs.
use carl9170fw.Base.{
  ℕ, zero, suc, ◌+◌, ◌*◌, ◌==◌, ◌≡◌, ◌≢◌, ◌<◌, refl, if◌then◌else◌, [], ◌∷◌, Bool, true, false, u32,
  arith, ==-self, ==-ne,
}
use carl9170fw.Tx.Path.Samples.{busy, back_req, no_reports-IsValid}
use carl9170fw.Host.Download.{handle_download, Downloaded, handle_download-Downloaded}
use carl9170fw.Host.Command.{Msg, word_at, write_word, Parts, Host, handle_cmd}
use carl9170fw.Host.Registers.{IsRegisterFile, IsApart, handle_cmd-reads_back}

handle_download-Downloaded_example :
    Downloaded 1 (10 ∷ 7 ∷ []) busy (handle_download back_req (10 ∷ 7 ∷ []) busy)
handle_download-Downloaded_example =
    handle_download-Downloaded 1 back_req (10 ∷ 7 ∷ []) busy
      (record { queues = λ x. omega arith; vifs = λ x. omega arith }) no_reports-IsValid

-- Parts that have registers and do nothing else.
abbrev registers : Parts (ℕ → ℕ)
registers = record {
  get_reg = λ a s. (u32 (s a), s);
  set_reg = λ a v s b. if b == a then v else s b;
  setb_reg = λ a v s b. if b == a then v else s b;
  read_tsf = λ s. ((0, 0), s);
  wol_cmd = λ m s. s;
  modify_beacon = λ v a l s. s;
  cab_flush_queue = λ v s. s;
  cab_trigger_empty = λ v s. s;
  set_key = λ m s. s;
  disable_key = λ m s. s;
  rf_cmd = λ c r s. (r, s);
  rf_notify_set_channel = λ s. s;
  rf_psm = λ n s. s;
}

abbrev any : ℕ → Bool
any a = true

registers-IsRegisterFile : IsRegisterFile registers any
registers-IsRegisterFile = record {
  reads = λ a v s p q. let t : (a == a) ≡ true = ==-self a in rw t (omega arith);
  other = λ a b v s p n. let t : (a == b) ≡ false = ==-ne a b n in rw t refl;
  quiet = λ a s p. refl;
  words = λ a s. omega arith;
}

-- Two writes, and the two addresses alone.
abbrev write_two : Msg
write_two = record {
  len = 8 * 2;
  cmd = 1;
  seq = 0;
  ext = 0;
  body = write_word 0 100 (write_word 1 7 (write_word 2 200 (write_word 3 8 (λ j. 0))));
}

abbrev read_two : Msg
read_two = record {
  len = 4 * 2;
  cmd = 0;
  seq = 0;
  ext = 0;
  body = write_word 0 100 (write_word 1 200 (λ j. 0));
}

abbrev host : Host (ℕ → ℕ)
host = record {
  parts = λ a. 0;
  mac_reset = 0;
  reboot = false;
  rx_filter = 0;
  tally = λ j. 0;
  ticks_per_usec = 40;
}

apart : IsApart registers any registers-IsRegisterFile 2 write_two.body
apart = record { all_plain = λ i p. refl; distinct = two }
  where
    two :
        (i j : ℕ)
        → i < 2
        → j < 2
        → i ≢ j
        → word_at write_two.body (2 * i) ≢ word_at write_two.body (2 * j)
    two zero zero p q n = absurd (n refl)
    two zero (suc zero) p q n = λ e. omega (arith, e)
    two (suc zero) zero p q n = λ e. omega (arith, e)
    two (suc zero) (suc zero) p q n = absurd (n refl)
    two (suc (suc i)) j p q n = absurd (omega arith)
    two zero (suc (suc j)) p q n = absurd (omega arith)
    two (suc zero) (suc (suc j)) p q n = absurd (omega arith)

same_addresses : (i : ℕ) → i < 2 → word_at read_two.body i ≡ word_at write_two.body (2 * i)
same_addresses zero p = refl
same_addresses (suc zero) p = refl
same_addresses (suc (suc i)) p = absurd (omega arith)

handle_cmd-reads_back_example :
    ((handle_cmd registers read_two read_two
        (handle_cmd registers write_two write_two host).1).0.len
      ≡ 4 * 2)
    × ((k : ℕ)
        → k < 2
        → word_at
            (handle_cmd registers read_two read_two
              (handle_cmd registers write_two write_two host).1).0.body
            k
          ≡ word_at write_two.body (2 * k + 1))
handle_cmd-reads_back_example =
    handle_cmd-reads_back registers any registers-IsRegisterFile 2 write_two read_two write_two
      read_two host apart same_addresses refl refl refl refl
