-- ===== src/Heap/GiveBack.antt =====
-- free on a heap in order, src/mm/heap.c: the call and the heap that it leaves.
use just_kernel.Base.{
  ℕ, ◌+◌, ◌≤◌, ◌<◌, ◌≡◌, ◌≢◌, refl, sym, subst, ap, ◌∙◌, true, false, ◌||◌, some, List, ◌==◌,
  if◌then◌else◌, u32, sub32, bit_or, arith,
}
use just_kernel.Vmm.{Layout}
use just_kernel.Heap.{
  Heap, size_of, chunk_size, set_size_and_pinuse, set_foot, insert_chunk, ok_address, ok_inuse,
  pinuse,
}
use just_kernel.Heap.Release.{merge_prev, merge_next, put_back, finish_free, free}
use just_kernel.Heap.Results.{ok}
use just_kernel.Heap.Sizes.{size_of-tagged, free_word, low_bit, both_bits}
use just_kernel.Heap.Chain.{Block, block_at}
use just_kernel.Heap.Order.{count, insert-IsSorted, insert-count}
use just_kernel.Heap.Take.{IsSorted-same}
use just_kernel.Heap.Free.{
  release_block, IsBlock, block_at-IsBlock, release_block-free_at, used-free_at,
  release_block-Chain,
}
use just_kernel.Heap.Inv.{IsHeap}

-- The row after the block at `p` is given back.
-- No chunk before it is free, so that nothing is joined.
merge_prev-used :
    (h : Heap) (p a e : ℕ) (b : Block)
    → IsBlock h.head p a e b
    → b.used ≡ true
    → p + b.size < 4294967296
    → merge_prev p h ≡ ok (p, b.size, h)
unfolding merge_prev
merge_prev-used h p a e b place used small =
    let word : h.head p ≡ b.size + 3 = ground (arith, place.word) in
    let known : chunk_size h p ≡ b.size =
      subst (λ w. size_of w ≡ b.size) (sym word)
        (size_of-tagged b.size 3 place.aligned (omega arith) (omega arith)) in
    let tagged : pinuse h p ≡ true = ground (arith, low_bit (h.head p), place.aligned) in
    rw (tagged, known) refl

-- The chunk behind lies in the heap, which is when the code leaves it alone.
merge_next-inside :
    (h : Heap) (p size : ℕ)
    → h.start_addr ≤ p
    → p + size < h.end_addr
    → h.end_addr ≤ 4294963200
    → merge_next p size h ≡ ok (size, h)
unfolding merge_next
merge_next-inside h p size from to top =
    let inside : ok_address h (u32 (p + size)) ≡ true = ground arith in rw inside refl

finish_free-inside :
    (l : Layout) (h : Heap) (p size : ℕ)
    → p + size < h.end_addr
    → h.end_addr ≤ 4294963200
    → 0 < p
    → 0 < size
    → finish_free l p size h ≡ ok (insert_chunk p (set_size_and_pinuse p size (set_foot p size h)))
unfolding finish_free put_back
finish_free-inside l h p size to top start positive =
    let before : (u32 (p + size) == h.end_addr) ≡ false = ground arith in
    let there : ((p == 0) || (size == 0)) ≡ false = ground arith in rw (before, there) refl

-- The heap with the block on the list.
freed-IsHeap :
    (h : Heap) (bs : List Block) (p : ℕ) (b : Block)
    → IsHeap h bs
    → block_at p h.start_addr bs ≡ some b
    → b.used ≡ true
    → IsHeap
        (insert_chunk p (set_size_and_pinuse p b.size (set_foot p b.size h)))
        (release_block p h.start_addr bs)
unfolding insert_chunk set_size_and_pinuse set_foot
freed-IsHeap h bs p b heap at used =
    let place = block_at-IsBlock h.head p h.start_addr b bs h.end_addr heap.chain at in
    let word = free_word b.size place.aligned in
    let head' : ℕ → ℕ = λ q. if q == p then bit_or b.size 1 else h.head q in
    let written : head' p ≡ b.size + 1 = ground (arith, word) in
    let others : (x : ℕ) → x ≢ p → head' x ≡ h.head x = λ x other. ground arith in
    let unlisted : count p h.free_list ≡ 0 = ground (
      arith,
      heap.listed p,
      used-free_at h.head p h.start_addr b bs h.end_addr heap.chain at used,
    ) in
    let kept : (c : ℕ) → 1 ≤ count c h.free_list → size_of (head' c) ≡ size_of (h.head c) =
      λ c listed. ap size_of (
        others c
          (λ same. omega (arith, subst (λ q. count q h.free_list ≡ 0) (sym same) unlisted))) in
    record {
      chain =
          release_block-Chain h.head head' p h.start_addr b bs h.end_addr heap.chain at written
            others;
      listed = λ q.
          let free = release_block-free_at h.head p q h.start_addr b bs h.end_addr heap.chain at in
          let listed = heap.listed q in
          let unlisted' : (p == q) ≡ true → count q h.free_list ≡ 0 =
            λ same. subst (λ x. count x h.free_list ≡ 0) {x = p} {y = q} (ground arith) unlisted in
          insert-count head' q p h.free_list ∙ rw free (ground arith);
      sorted =
          insert-IsSorted head' p h.free_list
            (IsSorted-same h.head head' h.free_list kept heap.sorted);
      bounded = heap.bounded;
    }

-- On a heap in order, free of the memory of a block that is in use and is not the last one succeeds and
-- leaves a heap in order, in which that block is free with the size it had, and all else is the same:
-- free neighbours are not joined with it.
pub free-IsHeap :
    (l : Layout) (h : Heap) (bs : List Block) (p : ℕ) (b : Block)
    → IsHeap h bs
    → 0 < p
    → block_at p h.start_addr bs ≡ some b
    → b.used ≡ true
    → p + b.size < h.end_addr
    → (h' : Heap) × (free l (p + 8) h ≡ ok h') × IsHeap h' (release_block p h.start_addr bs)
unfolding free
free-IsHeap l h bs p b heap start at used before =
    let place = block_at-IsBlock h.head p h.start_addr b bs h.end_addr heap.chain at in
    let from = place.from in
    let large = place.large in
    let top = heap.bounded in
    let word : h.head p ≡ b.size + 3 = ground (arith, place.word) in
    let block : sub32 (p + 8) 8 ≡ p = omega arith in
    let inside : ok_address h (p + 8) ≡ true = ground arith in
    let tagged : ok_inuse h p ≡ true = ground (arith, both_bits (h.head p), place.aligned) in
    let prev = merge_prev-used h p h.start_addr h.end_addr b place used (omega arith) in
    let next = merge_next-inside h p b.size from before top in
    let done = finish_free-inside l h p b.size before top start (omega arith) in
    let given : ((p + 8) == 0) ≡ false = ground arith in
    (
      insert_chunk p (set_size_and_pinuse p b.size (set_foot p b.size h)),
      rw (given, block, inside, tagged, prev, next) done,
      freed-IsHeap h bs p b heap at used,
    )
