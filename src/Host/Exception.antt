-- ===== src/Host/Exception.antt =====
-- `handle_download_exception`, on descriptors in memory: packets that the hardware has passed over go
-- back to the end of the down queue, until its head is where the hardware stands. Round is on one
-- round of the first loop, Rotated on all.
pub mod Round
pub mod Rotated
mod Tests
use carl9170fw.Base.{ℕ, zero, suc, ◌==◌, if◌then◌else◌, Option, none, some, ◌>>=◌, bit_and}
use carl9170fw.Dma.{
  Heap, Queue, queue_empty, unlink_head, reclaim, fix_downqueue, own_bits, own_bits_hw, own_bits_sw,
}

-- The first loop, on fuel, with fuel for `dma_reclaim`. The head is unlinked before it is put back.
unfoldable pub put_back_loop : ℕ → ℕ → ℕ → Queue → Heap → Option (Heap × Queue)
put_back_loop zero rounds target q h = none
put_back_loop (suc fuel) rounds target q h =
    let u = unlink_head q h in
    let next = reclaim rounds u.2 q.head u.1 >>= λ r. put_back_loop fuel rounds target r.1 r.0 in
    if queue_empty q
    then some (h, q)
    else (if bit_and (h q.head).status own_bits == own_bits_hw
        then (if q.head == target then some (h, q) else next)
        else some (h, q))

-- The second loop, from a descriptor up to the terminator.
unfoldable pub fix_loop : ℕ → ℕ → ℕ → Heap → Option Heap
fix_loop zero terminator desc h = none
fix_loop (suc fuel) terminator desc h =
    let h1 = if bit_and (h desc).status own_bits == own_bits_sw then fix_downqueue desc h else h in
    let next = fix_loop fuel terminator (h1 (h1 desc).last_addr).next_addr h1 in
    if desc == terminator then some h else next

-- `handle_download_exception`, between the stop and the start of the queue, where `target` is what
-- AR9170_PTA_REG_DN_CURR_ADDRH and _ADDRL read.
unfoldable pub download_exception : ℕ → ℕ → Queue → Heap → Option (Heap × Queue)
unfolding put_back_loop fix_loop
download_exception fuel target q h = put_back_loop fuel fuel target q h >>= λ r.
    (fix_loop fuel r.1.terminator r.1.head r.0 >>= λ h1. some (h1, r.1))
