-- ===== src/Dma.antt =====
-- carlfw/include/dma.h and carlfw/src/dma.c: the linked DMA descriptors and their queues.
-- A descriptor's address is a number, and the heap says what stands at each address. The loops
-- walk pointers, so they take fuel; `none` means that it ran out.
pub mod Shape
pub mod Cells
pub mod Mark
pub mod Put
pub mod Append
pub mod Unlink
pub mod Singles
pub mod Reclaim
mod Tests
use carl9170fw.Base.{
  ℕ, zero, suc, ◌+◌, ◌-◌, ◌^◌, ◌==◌, if◌then◌else◌, bit_and, bit_or, Option, none, some, ◌>>=◌,
  Bool, not,
}

-- `struct dma_desc`
pub record Desc : Type 0 where
  pub status : ℕ
  pub ctrl : ℕ
  pub data_size : ℕ
  pub total_len : ℕ
  pub last_addr : ℕ
  pub data_addr : ℕ
  pub next_addr : ℕ

-- The descriptors in memory, by address.
abbrev pub Heap : Type 0
Heap = ℕ → Desc

abbrev pub update : Heap → ℕ → Desc → Heap
update h a d b = if a == b then d else h b

-- `struct dma_queue`
pub record Queue : Type 0 where
  pub head : ℕ
  pub terminator : ℕ

-- the null pointer
abbrev pub null : ℕ
null = 0

-- AR9170_BLOCK_SIZE
abbrev pub block_size : ℕ
block_size = 256 + 64

-- AR9170_OWN_BITS and its values _SW, _HW, _SE
abbrev pub own_bits : ℕ
own_bits = 3

abbrev pub own_bits_sw : ℕ
own_bits_sw = 0

abbrev pub own_bits_hw : ℕ
own_bits_hw = 1

abbrev pub own_bits_se : ℕ
own_bits_se = 2

-- `~AR9170_OWN_BITS` on the 16 bits of a status
abbrev pub not_own_bits : ℕ
not_own_bits = 2 ^ 16 - 1 - own_bits

-- `clear_descriptor`
abbrev pub clear_descriptor : ℕ → Heap → Heap
clear_descriptor d h = update h d (record {
  status = own_bits_sw;
  ctrl = 0;
  data_size = 0;
  total_len = 0;
  last_addr = d;
  data_addr = null;
  next_addr = d;
})

-- `fill_descriptor`
abbrev pub fill_descriptor : ℕ → ℕ → ℕ → Heap → Heap
fill_descriptor d size buf h = update h d (record {
  status = own_bits_sw;
  ctrl = 0;
  data_size = size;
  total_len = 0;
  last_addr = d;
  data_addr = buf;
  next_addr = null;
})

-- `d->nextAddr = v`
pub set_next : ℕ → ℕ → Heap → Heap
set_next d v h = update h d (record (h d) { next_addr = v })

-- `d->lastAddr = v`
pub set_last : ℕ → ℕ → Heap → Heap
set_last d v h = update h d (record (h d) { last_addr = v })

-- `tdesc.status &= (~AR9170_OWN_BITS)`
pub disown : Desc → Desc
disown c = record c { status = bit_and c.status not_own_bits }

-- Steps 4 and 5 of `dma_put` and `dma_reclaim`: the copy of the first descriptor goes to the
-- terminator, which belongs to the hardware from then on, and the first descriptor is cleared, to
-- be the new terminator.
pub exchange : ℕ → ℕ → Desc → Heap → Heap
exchange term desc copy h =
    let h4 = clear_descriptor desc h in
    let h5 = update h4 term copy in
    update h5 term (record (h5 term) { status = bit_or (h5 term).status own_bits_hw })

-- One round of the loop of `dma_put` at `tmp`: the descriptor gets the length and the last address
-- that stand in the packet's first descriptor, and is handed to the hardware.
pub put_round : ℕ → ℕ → Heap → Heap
put_round desc tmp h =
    let h1 = update h tmp (record (h tmp) { total_len = (h desc).total_len }) in
    let h2 = update h1 tmp (record (h1 tmp) { status = own_bits_hw }) in
    update h2 tmp (record (h2 tmp) { last_addr = (h2 desc).last_addr })

-- The loop of `dma_put`, up to the packet's last descriptor.
pub put_loop : ℕ → ℕ → ℕ → Heap → Option Heap
put_loop zero desc tmp h = none
put_loop (suc fuel) desc tmp h =
    let h1 = put_round desc tmp h in
    let rest = put_loop fuel desc (h1 tmp).next_addr h1 in
    if (h1 desc).last_addr == tmp then some h1 else rest

-- `dma_put`, after its loop
pub put_tail : Queue → ℕ → Heap → Heap × Queue
put_tail q desc h =
    let h1 = set_next (h desc).last_addr desc h in
    let h2 = if (h1 desc).last_addr == desc then set_last desc q.terminator h1 else h1 in
    (exchange q.terminator desc (disown (h2 desc)) h2, record q { terminator = desc })

-- `dma_put`
pub put : ℕ → Queue → ℕ → Heap → Option (Heap × Queue)
put fuel q desc h = put_loop fuel desc desc h >>= λ h1. some (put_tail q desc h1)

-- One round of the loop of `dma_reclaim`: an empty descriptor of its own, for the hardware.
pub reclaim_round : ℕ → Heap → Heap
reclaim_round tmp h = update h tmp (record (h tmp) {
  status = own_bits_hw;
  ctrl = 0;
  total_len = 0;
  data_size = block_size;
  last_addr = tmp;
})

-- The loop of `dma_reclaim`. It returns the last descriptor too.
pub reclaim_loop : ℕ → ℕ → ℕ → Heap → Option (Heap × ℕ)
reclaim_loop zero last tmp h = none
reclaim_loop (suc fuel) last tmp h =
    let h1 = reclaim_round tmp h in
    let rest = reclaim_loop fuel last (h1 tmp).next_addr h1 in
    if tmp == last then some (h1, tmp) else rest

-- `dma_reclaim`, after its loop
pub reclaim_tail : Queue → ℕ → Heap → ℕ → Heap × Queue
reclaim_tail q desc h tmp =
    let h1 = set_next tmp desc h in
    let h2 = set_last desc q.terminator h1 in
    let copy : Desc = record (h2 desc) { status = 0 } in
    (exchange q.terminator desc copy h2, record q { terminator = desc })

-- `dma_reclaim`
pub reclaim : ℕ → Queue → ℕ → Heap → Option (Heap × Queue)
reclaim fuel q desc h =
    reclaim_loop fuel (h desc).last_addr desc h >>= λ r. some (reclaim_tail q desc r.0 r.1)

-- `queue_empty`
abbrev pub queue_empty : Queue → Bool
queue_empty q = q.head == q.terminator

-- `dma_unlink_head`: the packet's first descriptor, if there is one.
pub unlink_head : Queue → Heap → Option ℕ × Heap × Queue
unlink_head q h =
    if queue_empty q
    then (none, h, q)
    else (let desc = q.head in
        let q' : Queue = record q { head = (h (h desc).last_addr).next_addr } in
        let h1 = set_next (h desc).last_addr (h desc).last_addr h in
        let h2 = set_last (h1 desc).last_addr (h1 desc).last_addr h1 in (some desc, h2, q'))

-- `dma_dequeue_bits`
pub dequeue_bits : Queue → ℕ → Heap → Option ℕ × Heap × Queue
dequeue_bits q bits h =
    if bit_and (h q.head).status own_bits == bits then unlink_head q h else (none, h, q)

-- `dma_dequeue_not_bits`
pub dequeue_not_bits : Queue → ℕ → Heap → Option ℕ × Heap × Queue
dequeue_not_bits q bits h =
    if bit_and (h q.head).status own_bits == bits then (none, h, q) else unlink_head q h

-- `dma_rearm`
pub rearm : ℕ → Heap → Heap
rearm d h =
    update h d (record (h d) { status = bit_or (bit_and (h d).status not_own_bits) own_bits_hw })

-- `dma_fix_downqueue`
pub fix_downqueue : ℕ → Heap → Heap
fix_downqueue d h = update h d (record (h d) {
  status = own_bits_hw;
  ctrl = 0;
  data_size = 0;
  total_len = block_size;
  last_addr = d;
})
