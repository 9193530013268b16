-- ===== src/Host/Command.antt =====
-- `handle_cmd`: the commands of the host. What the other parts of the firmware do for a command is
-- the interface `Parts`, on a state of theirs. Memory from a payload's start on is a function
-- from places to octets, since the loops are bounded by the length that the host sends.
use carl9170fw.Base.{
  ℕ, zero, suc, ◌+◌, ◌*◌, ◌/◌, ◌%◌, ◌==◌, ltb, leb, if◌then◌else◌, min, bit_and, bit_or, ◌||◌, Bool,
  true, u32, sub32,
}

abbrev pub Mem : Type 0
Mem = ℕ → ℕ

-- The header and the payload of `struct carl9170_cmd` and `struct carl9170_rsp`.
pub record Msg : Type 0 where
  pub len : ℕ
  pub cmd : ℕ
  pub seq : ℕ
  pub ext : ℕ
  pub body : Mem

-- A word of 32 bits in the payload.
abbrev pub word_at : Mem → ℕ → ℕ
word_at m i =
    u32 (m (4 * i) + m (4 * i + 1) * 256 + m (4 * i + 2) * 65536 + m (4 * i + 3) * 16777216)

abbrev pub octet_of : ℕ → ℕ → ℕ
octet_of v k =
    if k == 0
    then v % 256
    else (if k == 1
        then v / 256 % 256
        else (if k == 2 then v / 65536 % 256 else v / 16777216 % 256))

abbrev pub write_word : ℕ → ℕ → Mem → Mem
write_word i v m j = if j / 4 == i then octet_of v (j % 4) else m j

abbrev pub copy_octets : ℕ → Mem → Mem → Mem
copy_octets n from to j = if ltb j n then from j else to j

-- What the other parts do.
pub record Parts (S : Type 0) : Type 0 where
  pub get_reg : ℕ → S → ℕ × S
  pub set_reg : ℕ → ℕ → S → S
  pub setb_reg : ℕ → ℕ → S → S
  pub read_tsf : S → (ℕ × ℕ) × S
  pub wol_cmd : Mem → S → S
  pub modify_beacon : ℕ → ℕ → ℕ → S → S
  pub cab_flush_queue : ℕ → S → S
  pub cab_trigger_empty : ℕ → S → S
  pub set_key : Mem → S → S
  pub disable_key : Mem → S → S
  pub rf_cmd : Msg → Msg → S → Msg × S
  pub rf_notify_set_channel : S → S
  pub rf_psm : ℕ → S → S

-- The state of all parts, and what `handle_cmd` keeps in `fw` itself. `tally` is the octets of
-- `fw.tally`.
pub record Host (S : Type 0) : Type 0 where
  pub parts : S
  pub mac_reset : ℕ
  pub reboot : Bool
  pub rx_filter : ℕ
  pub tally : Mem
  pub ticks_per_usec : ℕ

module _ {S : Type 0} (p : Parts S) where
  -- The loop of CARL9170_CMD_RREG over the first `n` registers.
  abbrev pub rreg_loop : ℕ → Mem → Mem × S → Mem × S
  rreg_loop zero cmd r = r
  rreg_loop (suc n) cmd r =
      let before = rreg_loop n cmd r in
      let got = p.get_reg (word_at cmd n) before.1 in (write_word n got.0 before.0, got.1)

  -- The loop of CARL9170_CMD_WREG.
  abbrev pub wreg_loop : ℕ → Mem → S → S
  wreg_loop zero cmd s = s
  wreg_loop (suc n) cmd s =
      p.set_reg (word_at cmd (2 * n)) (word_at cmd (2 * n + 1)) (wreg_loop n cmd s)

  -- The loop of CARL9170_CMD_WREGB, from the octet at 8 on.
  abbrev pub wregb_loop : ℕ → Mem → S → S
  wregb_loop zero cmd s = s
  wregb_loop (suc n) cmd s = p.setb_reg (u32 (word_at cmd 0 + n)) (cmd (8 + n)) (wregb_loop n cmd s)

  -- CARL9170_CMD_BCN_CTRL
  abbrev pub bcn_ctrl : Mem → S → S
  bcn_ctrl cmd s =
      let vif = word_at cmd 0 in
      let addr = word_at cmd 2 in
      let len = word_at cmd 3 in
      let ready = p.set_reg bcn_ctrl_reg 1 (
        p.set_reg bcn_length_reg len
          (p.set_reg bcn_addr_reg addr (p.modify_beacon vif addr len s))) in
      if bit_and (word_at cmd 1) 1 == 0
      then p.cab_trigger_empty vif (p.cab_flush_queue vif s)
      else ready
    where
      bcn_addr_reg : ℕ
      bcn_addr_reg = 0x1c3000 + 0xd84

      bcn_length_reg : ℕ
      bcn_length_reg = 0x1c3000 + 0xd88

      bcn_ctrl_reg : ℕ
      bcn_ctrl_reg = 0x1c3000 + 0xd94

  -- The answer to CARL9170_CMD_TALLY: the counters, with the tick.
  abbrev pub tally_body : Host S → Mem → Mem
  tally_body h to = write_word 5 h.ticks_per_usec (copy_octets 24 h.tally to)

  abbrev pub with_parts : Host S → S → Host S
  with_parts h s = record h { parts = s }

  -- The commands that read and write registers, and the echo. `resp` has its header already.
  abbrev pub register_cmd : Msg → Msg → Host S → Msg × Host S
  register_cmd cmd resp h =
      let c = bit_and cmd.cmd 0xbf in
      let read = rreg_loop (cmd.len / 4) cmd.body (resp.body, h.parts) in
      let count = min (word_at cmd.body 1) (sub32 cmd.len 8) in
      if c == 0x00
      then (record resp { body = read.0 }, with_parts h read.1)
      else (if c == 0x01
          then (record resp { len = 0 }, with_parts h (wreg_loop (cmd.len / 8) cmd.body h.parts))
          else (if c == 0x0a
              then (record resp { len = 0 }, with_parts h (wregb_loop count cmd.body h.parts))
              else (record resp { body = copy_octets cmd.len cmd.body resp.body }, h)))

  -- The commands for keys and for the radio, in a build with both.
  abbrev pub parts_cmd : Msg → Msg → Host S → Msg × Host S
  parts_cmd cmd resp h =
      let c = bit_and cmd.cmd 0xbf in
      let silent = record resp { len = 0 } in
      let rf = p.rf_cmd cmd resp h.parts in
      if c == 0x10
      then (silent, with_parts h (p.set_key cmd.body h.parts))
      else (if c == 0x11
          then (silent, with_parts h (p.disable_key cmd.body h.parts))
          else (if c == 0x20
              then (rf.0, with_parts h rf.1)
              else (if c == 0x21
                  then (rf.0, with_parts h rf.1)
                  else (if c == 0x23
                      then (resp, with_parts h (p.rf_notify_set_channel h.parts))
                      else (if c == 0x24
                          then (silent, with_parts h (p.rf_psm (word_at cmd.body 0) h.parts))
                          else (resp, h))))))

  -- The other commands.
  abbrev pub state_cmd : Msg → Msg → Host S → Msg × Host S
  state_cmd cmd resp h =
      let c = bit_and cmd.cmd 0xbf in
      let tsf = p.read_tsf h.parts in
      if c == 0x03
      then (resp, record h { mac_reset = 3 })
      else (if c == 0x04
          then (resp, record h { reboot = true })
          else (if c == 0x05
              then (record resp { len = 0 }, with_parts h (bcn_ctrl cmd.body h.parts))
              else (if c == 0x06
                  then (
                    record resp {
                      len = 8;
                      body = write_word 1 tsf.0.1 (write_word 0 tsf.0.0 resp.body);
                    },
                    with_parts h tsf.1,
                  )
                  else (if c == 0x07
                      then (record resp { len = 0 }, record h { rx_filter = word_at cmd.body 0 })
                      else (if c == 0x08
                          then (resp, with_parts h (p.wol_cmd cmd.body h.parts))
                          else (if c == 0x09
                              then (
                                record resp { len = 24; body = tally_body h resp.body },
                                record h { tally = λ j. 0 },
                              )
                              else parts_cmd cmd resp h))))))

  -- `handle_cmd`. An unknown command is answered as it came.
  abbrev pub handle_cmd : Msg → Msg → Host S → Msg × Host S
  handle_cmd cmd resp h =
      let c = bit_and cmd.cmd 0xbf in
      let head = record resp {
        len = cmd.len;
        cmd = cmd.cmd;
        ext = cmd.ext;
        seq = bit_or resp.seq cmd.seq;
      } in
      if leb c 0x02 || (c == 0x0a) then register_cmd cmd head h else state_cmd cmd head h
