-- ===== src/Up.antt =====
-- The way of a received frame to the host: `handle_wlan_rx` of carlfw/src/wlanrx.c takes it from the
-- receive queue, `handle_upload` of carlfw/src/hostif.c gets it back when the host has it. The
-- interrupt descriptor of carlfw/usb/main.c goes through the same queue. A packet is known by the
-- blocks of data behind its descriptors, since `dma_put` and `dma_reclaim` exchange the
-- descriptors themselves.

pub mod Sorting
pub mod Whole
pub mod Upload
pub mod Steps
mod Tests
use carl9170fw.Base.{
  ℕ, zero, suc, ◌==◌, if◌then◌else◌, List, [], ◌∷◌, ◌++◌, Option, none, some, Bool, true, false,
  bit_and, get_or,
}
use carl9170fw.Dma.{own_bits_hw}
use carl9170fw.Rx.{Received, Receiver, rx_filter}

-- A packet in a queue: its blocks, whom it belongs to, and the frame in it.
pub record UpPacket : Type 0 where
  pub blocks : List ℕ
  pub owner : ℕ
  pub frame : Received

pub data Trigger : Type 0 where
  rxq : Trigger
  up : Trigger

-- The queues, the interrupt descriptor, and what `wlan_rx_filter` works on; what was triggered, the
-- last first.
pub record Uplink : Type 0 where
  pub rx_queue : List UpPacket
  pub up_queue : List UpPacket
  pub int_desc : UpPacket
  pub int_desc_available : Bool
  pub receiver : Receiver
  pub rx_filter : ℕ
  pub triggers : List Trigger

abbrev pub to_hw : UpPacket → UpPacket
to_hw p = record p { owner = own_bits_hw }

-- The octets that still lie in the buffers, with the total length that `dma_reclaim` clears.
abbrev pub emptied : Received → Received
emptied f = record f { total_len = 0 }

-- What `dma_reclaim` makes of a packet: each block on its own, empty and for the hardware.
abbrev pub own_blocks : Received → List ℕ → List UpPacket
own_blocks f [] = []
own_blocks f (b ∷ bs) =
    record { blocks = b ∷ []; owner = own_bits_hw; frame = emptied f } ∷ own_blocks f bs

abbrev pub reclaimed : UpPacket → List UpPacket
reclaimed p = own_blocks p.frame p.blocks

-- The start of the payload, `DESC_PAYLOAD(desc)`.
abbrev pub payload_of : UpPacket → ℕ
payload_of p = get_or p.blocks 0 0

-- The body of `handle_upload` for a packet that was taken from the up queue, where `rsp` is the
-- address of `dma_mem.reserved.rsp`.
unfoldable pub uploaded : ℕ → UpPacket → Uplink → Uplink
uploaded rsp p u =
    if payload_of p == rsp
    then record u { int_desc = p; int_desc_available = true }
    else record u { rx_queue = u.rx_queue ++ reclaimed p; triggers = rxq ∷ u.triggers }

-- The loop of `handle_upload`, on fuel. The list is the up queue.
unfoldable pub upload_loop : ℕ → ℕ → List UpPacket → Uplink → Option Uplink
unfolding uploaded
upload_loop zero rsp ps u = none
upload_loop (suc fuel) rsp [] u = some u
upload_loop (suc fuel) rsp (p ∷ ps) u =
    let v = uploaded rsp p (record u { up_queue = ps }) in
    let rest = upload_loop fuel rsp v.up_queue v in if p.owner == own_bits_hw then some u else rest

-- `handle_upload`
unfoldable pub handle_upload : ℕ → ℕ → Uplink → Option Uplink
unfolding upload_loop
handle_upload fuel rsp u = upload_loop fuel rsp u.up_queue u

-- A frame for the host, with the state that the filter leaves.
abbrev pub pass_on : UpPacket → Receiver → Uplink → Uplink
pass_on p r u = record u {
  receiver = r;
  up_queue = u.up_queue ++ to_hw p ∷ [];
  triggers = up ∷ u.triggers;
}

-- A frame that the host does not want.
abbrev pub take_back : UpPacket → Receiver → Uplink → Uplink
take_back p r u = record u {
  receiver = r;
  rx_queue = u.rx_queue ++ reclaimed p;
  triggers = rxq ∷ u.triggers;
}

-- What `wlan_rx_filter` needs of the build and of the clock.
module _ (same_address : List ℕ → List ℕ → Bool) (ssid : List ℕ)
    (ssid_len now rx_frame_len : ℕ) where
  -- The body of `handle_wlan_rx` for a packet that was taken from the receive queue.
  unfoldable pub rx_packet : UpPacket → Uplink → Uplink
  rx_packet p u =
      let r = rx_filter same_address ssid ssid_len now rx_frame_len p.frame u.receiver in
      if bit_and r.0 u.rx_filter == 0 then pass_on p r.1 u else take_back p r.1 u

  -- The loop of `handle_wlan_rx`, on fuel. The list is the receive queue.
  unfoldable pub rx_loop : ℕ → List UpPacket → Uplink → Option Uplink
  unfolding rx_packet
  rx_loop zero ps u = none
  rx_loop (suc fuel) [] u = some u
  rx_loop (suc fuel) (p ∷ ps) u =
      let v = rx_packet p (record u { rx_queue = ps }) in
      let rest = rx_loop fuel v.rx_queue v in if p.owner == own_bits_hw then some u else rest

  -- `handle_wlan_rx`
  unfoldable pub handle_wlan_rx : ℕ → Uplink → Option Uplink
  unfolding rx_loop
  handle_wlan_rx fuel u = rx_loop fuel u.rx_queue u

-- The end of `usb_status_in`, when it has packed a message: the interrupt descriptor goes into the up
-- queue.
unfoldable pub put_status : Uplink → Uplink
put_status u = record u {
  up_queue = u.up_queue ++ to_hw u.int_desc ∷ [];
  int_desc_available = false;
  triggers = up ∷ u.triggers;
}
