-- ===== src/Usb.antt =====
-- carlfw/usb/main.c: the ring of messages for the host (`fw.usb.int_buf`) and what fills and
-- empties it. A message waits in the ring until `usb_status_in` packs it into the one interrupt
-- descriptor.
pub mod Fifo
pub mod Overflow
pub mod Status
pub mod Longest
pub mod Sent
pub mod Control
mod Tests
use carl9170fw.Base.{
  ℕ, zero, suc, ◌+◌, ◌-◌, ◌%◌, ◌==◌, ltb, if◌then◌else◌, List, [], ◌∷◌, ◌++◌, Option, none, some,
  take, drop, set, get_or, u8, sub32, replicate, Bool, true, false, ◌>>=◌,
}
use carl9170fw.Dma
use carl9170fw.Dma.{Heap, Desc, Queue, update, block_size}

-- `struct carl9170_rsp` and, alike in memory, `struct carl9170_cmd`: the header and the payload.
pub record Rsp : Type 0 where
  pub len : ℕ
  pub cmd : ℕ
  pub seq : ℕ
  pub ext : ℕ
  pub body : List ℕ

-- CARL9170_MAX_CMD_PAYLOAD_LEN
abbrev pub max_payload : ℕ
max_payload = 60

-- CARL9170_INT_RQ_CACHES
abbrev pub int_rq_caches : ℕ
int_rq_caches = 16

-- AR9170_INT_MAGIC_HEADER_SIZE
abbrev pub int_magic_header_size : ℕ
int_magic_header_size = 12

-- A zeroed message.
abbrev pub blank : Rsp
blank = record { len = 0; cmd = 0; seq = 0; ext = 0; body = replicate max_payload 0 }

-- The part of `fw.usb` that handles messages.
pub record Usb : Type 0 where
  pub int_pending : ℕ
  pub int_head_index : ℕ
  pub int_tail_index : ℕ
  pub int_buf : List Rsp
  pub int_desc_available : Bool
  -- how often `usb_trigger_in` has been called
  pub in_triggers : ℕ

-- `memcpy(dst, src, n)` into an array.
abbrev pub memcpy : List ℕ → List ℕ → ℕ → List ℕ
memcpy dst src n = take n src ++ drop n dst

-- `usb_trigger_in`
abbrev pub usb_trigger_in : Usb → Usb
usb_trigger_in u = record u { in_triggers = suc u.in_triggers }

-- `get_int_buf`: the index of the message that the caller fills, and the state.
pub get_int_buf : Usb → ℕ × Usb
get_int_buf u =
    let i = u.int_tail_index in
    let buf = set u.int_buf i (record (get_or u.int_buf i blank) { seq = u8 i }) in
    (
      i,
      record u {
        int_buf = buf;
        int_tail_index = (i + 1) % int_rq_caches;
        int_pending = if u.int_pending == int_rq_caches then u.int_pending else u.int_pending + 1;
      },
    )

-- `dequeue_int_buf`: the oldest message, if it fits the space.
pub dequeue_int_buf : ℕ → Usb → Option Rsp × Usb
dequeue_int_buf space u =
    if ltb 0 u.int_pending
    then (let tmp = get_or u.int_buf u.int_head_index blank in
        if ltb space (tmp.len + 8) then (none, u) else (
          some tmp,
          record u {
            int_head_index = (u.int_head_index + 1) % int_rq_caches;
            int_pending = u.int_pending - 1;
          },
        ))
    else (none, u)

-- `send_cmd_to_host`, built without CONFIG_CARL9170FW_DEBUG, for a length that fits the slot: more
-- than `max_payload` octets would run over into the next one. `get_int_buf` returns no null pointer.
pub send_cmd_to_host : ℕ → ℕ → ℕ → List ℕ → Usb → Usb
send_cmd_to_host len type ext body u =
    let (i, u') = get_int_buf u in
    let resp = get_or u'.int_buf i blank in
    usb_trigger_in (record u' {
      int_buf =
          set u'.int_buf i
            (record resp { len = len; cmd = type; ext = ext; body = memcpy resp.body body len });
    })

-- The bytes of a message in memory.
abbrev pub bytes : Rsp → List ℕ
bytes r = r.len ∷ r.cmd ∷ r.seq ∷ r.ext ∷ r.body

-- `memcpy(buf + off, src, n)`
abbrev pub blit : List ℕ → ℕ → List ℕ → ℕ → List ℕ
blit buf off src n = take off buf ++ (take n src ++ drop (off + n) buf)

-- The loop of `usb_status_in` copies messages behind one another into the payload of the interrupt
-- descriptor, as long as they fit. `none` means that the fuel ran out, or that a message claims
-- more bytes than its structure has, which the copy would read from its neighbour.
pub status_loop : ℕ → ℕ → ℕ → List ℕ → Usb → Option (ℕ × List ℕ × Usb)
status_loop zero rem tlen payload u = none
status_loop (suc fuel) rem tlen payload u =
    let r = dequeue_int_buf rem u in
    let next : Option (ℕ × List ℕ × Usb) = elim r.0 [
      | none ↦ some (tlen, payload, r.1)
      | some rsp ↦
          let elen = rsp.len + 4 in
          let go =
            status_loop fuel (sub32 rem elen) (tlen + elen) (blit payload tlen (bytes rsp) elen)
              r.1 in
          if ltb max_payload rsp.len then none else go
    ] in
    if u.int_pending == 0 then some (tlen, payload, u) else next

-- `usb_status_in` sets up the descriptor: AR9170_CTRL_FS_BIT and _LS_BIT, and both lengths.
pub fill_status : ℕ → ℕ → Heap → Heap
fill_status d tlen h =
    update h d (record (h d) { ctrl = 0x300; total_len = tlen; data_size = tlen })

-- What the code tells the USB and DMA hardware.
pub data Event : Type 0 where
  reset_in : Event
  up_dma_trigger : Event
  trigger_out : Event

-- The state that `usb_status_in` works on.
pub record Host : Type 0 where
  pub usb : Usb
  pub heap : Heap
  pub up_queue : Queue
  pub int_desc : ℕ
  pub payload : List ℕ
  pub events : List Event

-- `usb_status_in`
pub usb_status_in : ℕ → Host → Option Host
usb_status_in fuel s =
    if s.usb.int_desc_available
    then (do
      r ←
          status_loop fuel (block_size - int_magic_header_size) int_magic_header_size s.payload
            (record s.usb { int_desc_available = false })
      if r.0 == int_magic_header_size
          then some (record s {
            usb = record r.2 { int_desc_available = true };
            payload = r.1;
            events = s.events ++ reset_in ∷ [];
          })
          else (do
            q ← Dma.put 1 s.up_queue s.int_desc (fill_status s.int_desc r.0 s.heap)
            some (record s {
              usb = r.2;
              heap = q.0;
              up_queue = q.1;
              payload = r.1;
              events = s.events ++ reset_in ∷ up_dma_trigger ∷ trigger_out ∷ [];
            })))
    else some s
