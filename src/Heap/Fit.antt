-- ===== src/Heap/Fit.antt =====
-- alloc on a heap in order, src/mm/heap.c, while some free block is large enough.
use just_kernel.Base.{
  ℕ, suc, ◌+◌, ◌-◌, ◌≤◌, ◌<◌, ◌≡◌, refl, sym, subst, ap, ◌∙◌, ◌⊎◌, inl, inr, true, false, some,
  List, [], ◌∷◌, ◌==◌, leb, Bool-cases, Option-cases, arith,
}
use just_kernel.Vmm.{Layout}
use just_kernel.Heap.{Heap, chunk_size, find_smallest, request2size, take_hole, alloc_rounds, alloc}
use just_kernel.Heap.Results.{ok, faults}
use just_kernel.Heap.Sizes.{request2size_bounds}
use just_kernel.Heap.Chain.{Block, Chain, free_at, free_at-below, block_at, block_at-above}
use just_kernel.Heap.Order.{IsBestFit, Fits, find_smallest-Fits}
use just_kernel.Heap.Alloc.{use_block, free_at-IsHole, Chain-cons}
use just_kernel.Heap.Split.{chunk_size-free, is_whole_last}
use just_kernel.Heap.Serve.{take_hole-IsHeap}
use just_kernel.Heap.Inv.{IsHeap}

-- A block that fits is found.
find_smallest-some :
    (h : Heap) (bs : List Block) (c nb : ℕ)
    → IsHeap h bs
    → free_at c h.start_addr bs ≡ true
    → nb ≤ chunk_size h c
    → (hole : ℕ) × (find_smallest h.head nb h.free_list ≡ some hole)
      × IsBestFit h.head nb h.free_list hole
unfolding Fits
find_smallest-some h bs c nb heap free enough =
    let result = find_smallest-Fits h.head nb h.free_list heap.sorted in
    elim (Option-cases (find_smallest h.head nb h.free_list)) [
      | inl missing ↦
          let all = subst (Fits h.head nb h.free_list) missing result in
          absurd (omega (arith, all c (ground (arith, heap.listed c)), enough))
      | inr (hole, found) ↦ (hole, found, subst (Fits h.head nb h.free_list) found result)
    ]

alloc_rounds-hit :
    (l : Layout) (fuel : ℕ) (h : Heap) (req hole : ℕ)
    → find_smallest h.head (request2size req) h.free_list ≡ some hole
    → alloc_rounds l (suc fuel) req h ≡ take_hole (request2size req) hole h
unfolding alloc_rounds
alloc_rounds-hit l fuel h req hole found = rw (found, alloc_rounds) refl

-- The block at `hole` is used, and every block that was in use still is, with its size.
pub use_block-used :
    (head : ℕ → ℕ) (hole nb size p a : ℕ) (b : Block) (bs : List Block) (e : ℕ)
    → Chain head a bs e
    → free_at hole a bs ≡ true
    → head hole ≡ size + 1
    → 16 ≤ nb
    → nb ≤ size
    → block_at p a bs ≡ some b
    → b.used ≡ true
    → block_at p a (use_block hole nb a bs) ≡ some b
unfolding use_block
use_block-used head hole nb size p a b [] e chain free word large le at used = absurd (ground arith)
use_block-used head hole nb size p a b (c ∷ bs) e chain free word large le at used =
    let (tag, c_aligned, c_large, rest) = Chain-cons head a c bs e chain in
    elim (Bool-cases (a == hole)) [
      | inl same_start ↦
          let here : a ≡ hole = ground arith in
          let below = free_at-below head hole (a + c.size) bs e rest (omega arith) in
          let unused : c.used ≡ false = ground arith in
          let word' : head a ≡ size + 1 = subst (λ q. head q ≡ size + 1) (sym here) word in
          let same : c.size ≡ size = ground arith in
          let end : a + nb + (c.size - nb) ≡ a + c.size = ground arith in
          let apart : a == p ≡ false = elim (Bool-cases (a == p)) [
            | inl first ↦
                let whole : some c ≡ some b = ground arith in
                let same_block : c ≡ b = cc in
                absurd (ground (arith, ap (λ (x : Block). x.used) same_block))
            | inr other ↦ other
          ] in
          let later : block_at p (a + c.size) bs ≡ some b = ground arith in
          let above = block_at-above head p (a + c.size) b bs e rest later in
          elim (Bool-cases (leb (nb + 16) c.size)) [
            | inl split ↦ rw (same_start, split, end) (ground arith)
            | inr whole ↦ rw (same_start, whole) (ground arith)
          ]
      | inr there ↦ elim (Bool-cases (a == p)) [
        | inl first ↦ rw (there, first) (ground arith)
        | inr other ↦
            rw (there, other)
              (use_block-used head hole nb size p (a + c.size) b bs e rest (ground arith) word large
                le (ground arith) used)
      ]
    ]

-- What alloc does with the block that it has chosen: memory of the request begins 8 bytes into it, and
-- ends at the latest with the first word of the block behind, which it may use as long as it is in use.
-- The heap is in order with that block in use, and every block that was in use still is, where it was.
pub record Served (l : Layout) (h : Heap) (bs : List Block) (req hole : ℕ) : Type 0 where
  pub after : Heap
  pub returns : alloc l req h ≡ ok (hole + 8, after)
  pub within : hole + 8 + req ≤ hole + request2size req + 4
  pub inside : hole + request2size req < h.end_addr
  pub others :
      (p : ℕ) (b : Block)
      → block_at p h.start_addr bs ≡ some b
      → b.used ≡ true
      → block_at p h.start_addr (use_block hole (request2size req) h.start_addr bs) ≡ some b
  pub keeps : IsHeap after (use_block hole (request2size req) h.start_addr bs)

-- The best fit for a request, and what becomes of it.
pub record Chosen (l : Layout) (h : Heap) (bs : List Block) (req : ℕ) : Type 0 where
  pub hole : ℕ
  pub free : free_at hole h.start_addr bs ≡ true
  pub fits : request2size req ≤ chunk_size h hole
  pub least :
      (d : ℕ)
      → free_at d h.start_addr bs ≡ true
      → request2size req ≤ chunk_size h d
      → chunk_size h hole ≤ chunk_size h d
  pub result :
      ((is_whole_last h (request2size req) hole ≡ true) × (alloc l req h ≡ faults))
      ⊎ ((is_whole_last h (request2size req) hole ≡ false) × Served l h bs req hole)

-- On a heap in order where some free block is large enough for a request below 4294967284 bytes, alloc
-- chooses the best fit, a free block that is large enough and no larger than any other that is. If that
-- is the last block of the heap with less than 16 bytes to spare, alloc faults on the word behind the
-- heap. Otherwise it returns memory in the block, which may reach into the first word of the block
-- behind, but not behind the heap, and leaves a heap in order in which the block, or the first part of
-- it, is in use, and every block that was in use still is, where it was.
pub alloc-Chosen :
    (l : Layout) (h : Heap) (bs : List Block) (c req : ℕ)
    → IsHeap h bs
    → req < 4294967284
    → free_at c h.start_addr bs ≡ true
    → request2size req ≤ chunk_size h c
    → Chosen l h bs req
unfolding alloc
alloc-Chosen l h bs c req heap small free enough =
    let (aligned, large, holds, near) = request2size_bounds req small in
    let (hole, found, best) = find_smallest-some h bs c (request2size req) heap free enough in
    let fits = best.fits in
    let (free', outcome) =
      take_hole-IsHeap h bs hole (request2size req) heap best.listed aligned large fits in
    let (size, place) = free_at-IsHole h.head hole h.start_addr bs h.end_addr heap.chain free' in
    let to = place.to in
    let top = heap.bounded in
    let known = chunk_size-free h hole size place.word place.aligned (omega arith) in
    let hit = alloc_rounds-hit l 1 h req hole found in
    record {
      hole = hole;
      free = free';
      fits = fits;
      least = λ d free_d. best.least d (ground (arith, heap.listed d));
      result = elim outcome [
        | inl (last, stuck) ↦ inl (last, hit ∙ stuck)
        | inr (inner, after, taken, keeps) ↦ inr (
          inner,
          record {
            after = after;
            returns = hit ∙ taken;
            within = omega arith;
            inside = ground arith;
            others = λ p b at used.
                use_block-used h.head hole (request2size req) size p h.start_addr b bs h.end_addr
                  heap.chain free' place.word large (omega arith) at used;
            keeps = keeps;
          },
        )
      ];
    }
