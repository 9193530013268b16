-- ===== src/Lib.antt =====
-- A model of the carl9170 firmware, which runs in the USB wireless devices with the AR9170 chip,
-- and of the host tools that come with it.
--
-- The firmware is one loop (carlfw/src/main.c) round a state that all its parts share
-- (`struct firmware_context_struct`, carlfw/include/carl9170.h). Frames travel as descriptors in
-- queues: from the host's down queue to a transmit queue and back, from the receive queue to the
-- up queue. What the firmware has to say, it puts as messages into a ring, from which the USB part
-- packs them into an interrupt packet. Each part here has a record with the fields of that state
-- that it reads and writes, and a function for each function of the source.
--
-- Dma: carlfw/include/dma.h, carlfw/src/dma.c. Memory is a function from addresses to descriptors
--   (`Heap`), a queue the pair of its head and terminator. `put`, `reclaim`, `unlink_head`,
--   `dequeue_bits`, `dequeue_not_bits`, `rearm` and `fix_downqueue` are the functions with the
--   prefix dma_. Dma/Shape says what a queue looks like in memory and Dma/Cells that writes
--   elsewhere leave it; Dma/Mark, Dma/Put and Dma/Append are on dma_put, Dma/Singles and
--   Dma/Reclaim on dma_reclaim, Dma/Unlink on dma_unlink_head.
-- Usb: carlfw/usb/main.c. The ring of messages (`get_int_buf`, `dequeue_int_buf`,
--   `send_cmd_to_host`) and `usb_status_in`, whose loop is `status_loop`. Usb/Fifo is on the ring,
--   Usb/Overflow on a full one, Usb/Status and Usb/Longest on the packets and Usb/Sent on all of
--   `usb_status_in`. Usb/Control is carlfw/usb/usb.c, the requests on the control endpoint.
-- Tx: carlfw/src/wlantx.c. Tx/Status is the cache of transmit reports (`wlan_tx_complete` and what
--   it calls), which empties itself into the ring of Usb; Tx/Retry is `wlan_tx_consume_retry`;
--   Tx/Path is the way of a frame through the queues: `wlan_tx` and what it calls, with
--   Tx/Path/Done on `wlan_tx_status` and `handle_wlan_tx_completion` and Tx/Path/Buffered on the
--   frames that wait for a beacon. There a queue is the list of packets that Dma refines it to.
--   Tx/Path/Held and Kept count the packets, Released and Completion are on those that are done,
--   Arrival on new ones;
--   Tx/Beacon is `beacon_find_ie` and the part of `wlan_modify_beacon` on the TIM element.
-- Host: carlfw/src/hostif.c. Host/Download is `handle_download`, on the state of Tx/Path;
--   Host/Command is `handle_cmd`, for which the other parts are an interface (`Parts`), and
--   Host/Registers is on the registers that the host writes and reads. Host/Exception is
--   `handle_download_exception`, on descriptors in memory.
-- Up: the way of a received frame to the host. `handle_wlan_rx` of carlfw/src/wlanrx.c calls the filter
--   of Rx, `handle_upload` is of carlfw/src/hostif.c. Up/Sorting and Up/Upload are on the two
--   loops, Up/Whole and Up/Steps on what any order of their steps, of the hardware's and of the
--   host's keeps.
-- Rx: carlfw/src/wlanrx.c and `wlan_send_buffered_ba`. Rx/Requests and Rx/Overflow are on the ring
--   of block ack requests, Rx/Filter is on `wlan_rx_filter`, which calls `wol_rx` of Wol.
-- Wol: carlfw/src/wol.c. Wol/Magic and Wol/Found are on the search for magic packets, Wol/Sent on the
--   one that tools/src/wol.c sends, Wol/Wake on `wol_rx` and `wol_janitor`.
-- Main: `tally_update` of carlfw/src/main.c, the counters of time, and `clock_set` of
--   carlfw/src/timer.c.
-- Radio: `rf_psm` of carlfw/src/rf.c, the power save steps, one in each beacon interval.
-- Hang: `wlan_check_hang` of carlfw/src/wlan.c, round by round, and in Hang/Timer `wlan_timer`, which
--   decides on a reset. Hang/Watched is on a queue that is stuck for some rounds, with Hang/Counted
--   on one of them and Hang/Reported on what `wlan_tx_status` does between them. Hang/Reset is
--   `wlan_mac_reset`, on the state of Tx/Path; Hang/Given, Released and Recovery follow the stuck
--   frame. What the hardware does to its registers on a reset is an argument.
-- Cam: carlfw/src/cam.c, the key memory of the security engine: the roll call registers and the
--   rows are state, the waits for the hardware are left out. Cam/Keys is on what a command writes.
-- Print: carlfw/src/printf.c, the digits of a number, which Print/Digits reads back.
-- Carlfw: tools/lib/carlfw.c and include/shared/fwdesc.h, the files of firmware. A descriptor is its
--   octets, `struct carlfw` has the list of them. Carlfw/Counts, Carlfw/Resize and
--   Carlfw/Invariant are on the list and its counters, Carlfw/Checked on the checksums,
--   Carlfw/Parse and Carlfw/Roundtrip on files. Carlfw/Replaced and Carlfw/Matches are on a
--   search after the list has changed. They serve Carlfw/Miniboot, which is tools/src/miniboot.c: a
--   boot image is added or removed. The directory's file system is left out: a file is its octets,
--   and neither opening it nor `malloc` fails.
-- Frame: tools/include/frame.h, the buffers of the host tools.
-- Ring: the part of an array that goes round, which Usb, Tx and Rx share.
-- Base: numbers, tests, lists and words for all of them. A word of w bits is a number, with
--   `% 2 ^ w` wherever C wraps round.
--
-- Loops. A loop through memory or through a ring takes fuel, and `none` means that the fuel ran out
-- or, where this is said, that the source would leave an object. One unit for each round is
-- enough: for `put` and `reclaim` that is the number of the packet's descriptors, for the messages
-- of `status_loop` the number that wait, three for `send_buffered_tx_status`, for the
-- retries of a frame the number of its tries, for `beacon_find_ie` one more than the octets of the
-- beacon. A division by subtraction in Print takes one more than the base. Reading the descriptors
-- of a file takes one unit more than their number, `handle_tx_completion` one more than the packets
-- that are held, `handle_wlan_rx` and `handle_upload` one more than the packets in the queue,
-- `put_back_loop` one more than those in front of its target, and `ep0tx_loop` one for each octet.
--
-- Not modelled: registers that are only written, delays, the radio's set-up, the boot code in
-- assembler, and the parts that later work extends this to: the order of the main loop and the
-- dispatch of interrupts (main.c, wlan.c, timer.c), and the format strings of printf.c. The Linux
-- headers, the configuration tool and the build files are other projects' code. What the firmware
-- calls of linux/ieee80211.h is an argument or a field.
pub mod Base
pub mod Ring
pub mod Dma
pub mod Usb
pub mod Tx
pub mod Frame
pub mod Wol
pub mod Rx
pub mod Hang
pub mod Cam
pub mod Print
pub mod Carlfw
pub mod Host
pub mod Radio
pub mod Up
pub mod Main
