-- ===== src/Heap/Release.antt =====
-- The operations of src/mm/heap.c that give chunks back, and the aligned allocation, which uses both.
use just_kernel.Base.{
  ℕ, ◌+◌, ◌/◌, ◌%◌, Bool, true, false, not, ◌&&◌, ◌||◌, Option, none, some, ltb, leb, ◌==◌,
  if◌then◌else◌, u32, sub32, bit_and, page_size,
}
use just_kernel.Pmm.{pmm_unalloc}
use just_kernel.Vmm.{Layout, vmm_unmap_pages, is_mapped, virt_to_phys, no_page}
use just_kernel.Heap.{
  Heap, heap_min_size, min_chunk_size, chunk_size, pinuse, cinuse, ok_inuse, ok_address,
  request2size, set_head, set_size_and_pinuse, set_inuse, set_foot, insert_chunk, remove_chunk,
  assert, round_pages, alloc,
}
use just_kernel.Heap.Results.{Outcome, ok, panics, halts, ◌>>=◌}

unfoldable pub clear_pinuse : ℕ → Heap → Heap
clear_pinuse p h = set_head p (bit_and (h.head p) 0xFFFFFFFE) h

-- A free chunk before the block is joined with it: the start and the size of the whole.
unfoldable pub merge_prev : (block : ℕ) → Heap → Outcome (ℕ × ℕ × Heap)
merge_prev block h =
    let size = chunk_size h block in
    let prevsize = h.prev_foot block in
    let prev = sub32 block prevsize in
    if pinuse h block
    then ok (block, size, h)
    else if ok_address h prev
    then (remove_chunk prev h >>= λ h1. ok (prev, u32 (size + prevsize), h1))
    else panics

-- The chunk behind the block. The test on its address is the one of the code, with its `!`.
unfoldable pub merge_next : (block size : ℕ) → Heap → Outcome (ℕ × Heap)
merge_next block size h =
    let next = u32 (block + size) in
    let nextsize = chunk_size h next in
    if not (ok_address h next)
    then (if not (pinuse h next)
        then panics
        else if cinuse h next
        then ok (size, clear_pinuse next h)
        else if ltb h.end_addr (u32 (next + nextsize))
        then panics
        else (remove_chunk next h >>= λ h1. ok (u32 (size + nextsize), h1)))
    else ok (size, h)

-- `if (block && size)`
unfoldable pub put_back : (block size : ℕ) → Heap → Heap
put_back block size h =
    if (block == 0) || (size == 0) then h else insert_chunk block (set_size_and_pinuse block size h)

-- The start of the aligned chunk, if the memory is not aligned by itself: the page behind, or the
-- next one if too little is left for a chunk in front.
unfoldable pub align_chunk : (mem : ℕ) → Heap → Outcome (ℕ × Heap)
align_chunk mem h =
    let chunk = sub32 mem 8 in
    let br = sub32 (u32 (bit_and mem 0xFFFFF000 + page_size)) 8 in
    let pos = if leb min_chunk_size (sub32 br chunk) then br else u32 (br + page_size) in
    let leadsize = sub32 pos chunk in
    if mem % page_size == 0
    then ok (chunk, h)
    else (set_inuse pos (sub32 (chunk_size h chunk) leadsize) h >>= λ h1.
        let h2 = set_size_and_pinuse chunk leadsize h1 in
        let h3 = record h2 { prev_foot = λ q. if q == pos then leadsize else h2.prev_foot q } in
        ok (pos, insert_chunk chunk h3))

module _ (l : Layout) where
  -- The pages from the new end on: unmapped first, and looked up after that.
  unfoldable pub unmap_end : (end size : ℕ) → Heap → Outcome Heap
  unmap_end end size h =
      let looked = (is_mapped l end h.cr3 h.vmm).1 in
      elim (vmm_unmap_pages l end h.cr3 (size / page_size) looked) [
        | none ↦ halts
        | some (ret, vmm1) ↦
            let (phys, vmm2) = virt_to_phys l end h.cr3 vmm1 in
            if phys == no_page
            then ok (record h { vmm = vmm2 })
            else elim (pmm_unalloc phys size vmm2.pmm) [
              | none ↦ halts
              | some pmm' ↦ ok (record h { vmm = record vmm2 { pmm = pmm' } })
            ]
      ]

  unfoldable pub contract : (new_size : ℕ) → Heap → Outcome (ℕ × Heap)
  contract new_size h =
      let rounded = round_pages new_size in
      let kept = if ltb rounded heap_min_size then heap_min_size else rounded in
      let end = u32 (h.start_addr + kept) in
      assert (ltb new_size (sub32 h.end_addr h.start_addr)) h >>= λ h1.
      unmap_end end (sub32 h1.end_addr end) (record h1 { end_addr = end }) >>= λ h2. ok (kept, h2)

  unfoldable pub finish_free : (block size : ℕ) → Heap → Outcome Heap
  finish_free block size h =
      if u32 (block + size) == h.end_addr
      then (let old_size = sub32 h.end_addr h.start_addr in
          let whole = sub32 block h.start_addr in
          contract (if whole % page_size == 0 then whole else u32 (whole + min_chunk_size)) h
          >>= λ (new_size, h1). ok (
              if ltb (sub32 old_size new_size) size
              then put_back block (sub32 size (sub32 old_size new_size)) h1
              else h1))
      else ok (put_back block size (set_foot block size h))

  unfoldable pub free : (ptr : ℕ) → Heap → Outcome Heap
  free ptr h =
      if ptr == 0
      then ok h
      else if ok_address h ptr && ok_inuse h (sub32 ptr 8)
      then (merge_prev (sub32 ptr 8) h >>= λ (block, size, h1).
          merge_next block size h1 >>= λ (size', h2). finish_free block size' h2)
      else panics

  unfoldable pub trim_chunk : (chunk nb : ℕ) → Heap → Outcome Heap
  trim_chunk chunk nb h =
      let csize = chunk_size h chunk in
      if ltb (u32 (nb + min_chunk_size)) csize
      then (let remainder = u32 (chunk + nb) in
          set_inuse chunk nb h >>= λ h1.
          set_inuse remainder (sub32 csize nb) h1 >>= λ h2. free (u32 (remainder + 8)) h2)
      else ok h

  unfoldable pub aligned_alloc : (size : ℕ) → Heap → Outcome (ℕ × Heap)
  aligned_alloc size h =
      let nb = request2size size in
      alloc l (sub32 (u32 (nb + page_size + min_chunk_size)) 4) h >>= λ (mem, h1).
      if mem == 0
      then ok (mem, h1)
      else (align_chunk mem h1 >>= λ (chunk, h2). trim_chunk chunk nb h2 >>= λ h3.
          assert (leb nb (chunk_size h3 chunk)) h3 >>= λ h4.
          assert (u32 (chunk + 8) % page_size == 0) h4 >>= λ h5.
          assert (cinuse h5 chunk) h5 >>= λ h6. ok (u32 (chunk + 8), h6))

  -- A heap that is not there yet gives nothing and takes anything.
  unfoldable pub heap_malloc : Option Heap → (size : ℕ) (align : Bool) → Outcome (ℕ × Option Heap)
  heap_malloc none size align = ok (0, none)
  heap_malloc (some h) size true = aligned_alloc size h >>= λ (mem, h1). ok (mem, some h1)
  heap_malloc (some h) size false = alloc l size h >>= λ (mem, h1). ok (mem, some h1)

  unfoldable pub heap_free : Option Heap → (ptr : ℕ) → Outcome (Option Heap)
  heap_free none ptr = ok none
  heap_free (some h) ptr = free ptr h >>= λ h1. ok (some h1)
