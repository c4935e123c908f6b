-- ===== src/Heap/Serve.antt =====
-- alloc on a heap in order, src/mm/heap.c: what is left when a free chunk is taken.
use just_kernel.Base.{
  ℕ, ◌+◌, ◌-◌, ◌%◌, ◌≤◌, ◌<◌, ◌≡◌, ◌≢◌, refl, sym, subst, ap, ◌∙◌, ◌⊎◌, inl, inr, true, false, some,
  List, ◌==◌, leb, if◌then◌else◌, Bool-cases, u32, arith,
}
use just_kernel.Heap.{
  Heap, size_of, chunk_size, insert_before, remove_from, remove_chunk, split_hole, take_hole,
}
use just_kernel.Heap.Results.{ok, faults}
use just_kernel.Heap.Sizes.{size_of-tagged}
use just_kernel.Heap.Chain.{Block, free_at}
use just_kernel.Heap.Order.{
  count, IsSorted, insert-IsSorted, insert-count, remove-count, remove-some,
}
use just_kernel.Heap.Alloc.{use_block, free_at-IsHole, Writes, use_block-Chain}
use just_kernel.Heap.Split.{
  chunk_size-free, split_tagged-free_list, split_tagged-start_addr, split_tagged-end_addr,
  split_tagged-Writes, split_tagged, is_whole_last, split_hole-split_tagged, split_hole-faults,
  free_at-inside, free-kept,
}
use just_kernel.Heap.Take.{free_at-use_block, IsSorted-same, remove-IsSorted}
use just_kernel.Heap.Inv.{IsHeap}

-- The size in the word of a free chunk.
-- The other chunks of the list.
rest-free :
    (h : Heap) (bs : List Block) (hole c : ℕ) (cs : List ℕ)
    → IsHeap h bs
    → remove_from hole h.free_list ≡ some cs
    → 1 ≤ count c cs
    → (free_at c h.start_addr bs ≡ true) × (c ≢ hole)
rest-free h bs hole c cs heap removed listed =
    let counted = remove-count c hole h.free_list cs removed in
    let free = heap.listed c in (ground arith, ground arith)

-- The words of the other chunks of the list stay.
rest-kept :
    (h : Heap) (bs : List Block) (hole nb size : ℕ) (cs : List ℕ) (head' : ℕ → ℕ) (c : ℕ)
    → IsHeap h bs
    → remove_from hole h.free_list ≡ some cs
    → free_at hole h.start_addr bs ≡ true
    → h.head hole ≡ size + 1
    → Writes h.head head' hole nb size
    → 16 ≤ nb
    → 1 ≤ count c cs
    → size_of (head' c) ≡ size_of (h.head c)
rest-kept h bs hole nb size cs head' c heap removed free word w large listed =
    let (free_c, other) = rest-free h bs hole c cs heap removed listed in
    ap size_of (
      free-kept h.head head' hole nb size h.start_addr bs h.end_addr c heap.chain free word w large
        free_c other)

rest-apart :
    (h : Heap) (bs : List Block) (hole nb size : ℕ) (cs : List ℕ) (c : ℕ)
    → IsHeap h bs
    → remove_from hole h.free_list ≡ some cs
    → free_at hole h.start_addr bs ≡ true
    → h.head hole ≡ size + 1
    → 16 ≤ nb
    → nb + 16 ≤ size
    → 1 ≤ count c cs
    → c ≢ hole + nb
rest-apart h bs hole nb size cs c heap removed free word large split listed =
    let free_c = (rest-free h bs hole c cs heap removed listed).0 in
    let inside =
      free_at-inside h.head hole size nb h.start_addr bs h.end_addr heap.chain free word
        (omega arith) (omega arith) in
    λ same. ground (arith, subst (λ q. free_at q h.start_addr bs ≡ true) same free_c)

-- The list with the rest of the chunk, under the final words.
split-IsSorted :
    (h : Heap) (bs : List Block) (hole nb size : ℕ) (cs : List ℕ) (head' : ℕ → ℕ)
    → IsHeap h bs
    → remove_from hole h.free_list ≡ some cs
    → free_at hole h.start_addr bs ≡ true
    → h.head hole ≡ size + 1
    → Writes h.head head' hole nb size
    → nb % 8 ≡ 0
    → size % 8 ≡ 0
    → 16 ≤ nb
    → nb + 16 ≤ size
    → size < 4294967296
    → IsSorted head'
        (insert_before (λ q. if q == hole + nb then size - nb else h.head q) (hole + nb) cs)
split-IsSorted h bs hole nb size cs head' heap removed free word w aligned size_aligned large split
      small =
    let between : ℕ → ℕ = λ q. if q == hole + nb then size - nb else h.head q in
    let new : size_of (head' (hole + nb)) ≡ size - nb =
      let behind : head' (hole + nb) ≡ size - nb + 1 = ground (arith, w.behind) in
      ap size_of behind ∙ size_of-tagged (size - nb) 1 (omega arith) (omega arith) (omega arith) in
    let before : size_of (between (hole + nb)) ≡ size - nb =
      let at : between (hole + nb) ≡ size - nb + 0 = ground arith in
      ap size_of at ∙ size_of-tagged (size - nb) 0 (omega arith) (omega arith) (omega arith) in
    let apart : (c : ℕ) → 1 ≤ count c cs → size_of (between c) ≡ size_of (h.head c) = λ c listed.
      let other = rest-apart h bs hole nb size cs c heap removed free word large split listed in
      ap size_of (ground arith) in
    let rest = remove-IsSorted h.head hole h.free_list cs removed heap.sorted in
    let rest' = IsSorted-same h.head between cs apart rest in
    let kept : (c : ℕ)
        → 1 ≤ count c (insert_before between (hole + nb) cs)
        → size_of (head' c) ≡ size_of (between c) =
      λ c listed. elim (Bool-cases (hole + nb == c)) [
        | inl here ↦
            subst (λ q. size_of (head' q) ≡ size_of (between q)) (ground arith) (new ∙ sym before)
        | inr there ↦
            let old : 1 ≤ count c cs = ground (arith, insert-count between c (hole + nb) cs) in
            rest-kept h bs hole nb size cs head' c heap removed free word w large old
            ∙ sym (apart c old)
      ] in
    IsSorted-same between head' _ kept (insert-IsSorted between (hole + nb) cs rest')

-- The list holds the free blocks of the new row.
split-listed :
    (h : Heap) (bs : List Block) (hole nb size : ℕ) (cs : List ℕ) (head : ℕ → ℕ) (p : ℕ)
    → IsHeap h bs
    → remove_from hole h.free_list ≡ some cs
    → free_at hole h.start_addr bs ≡ true
    → h.head hole ≡ size + 1
    → 16 ≤ nb
    → nb ≤ size
    → count p (if leb (nb + 16) size then insert_before head (hole + nb) cs else cs)
      ≡ (if free_at p h.start_addr (use_block hole nb h.start_addr bs) then 1 else 0)
split-listed h bs hole nb size cs head p heap removed free word large le =
    let place =
      free_at-use_block h.head hole nb size h.start_addr bs h.end_addr p heap.chain free word large
        le in
    let counted = remove-count p hole h.free_list cs removed in
    let listed = heap.listed p in
    elim (Bool-cases (leb (nb + 16) size)) [
      | inl split ↦
          let added = insert-count head p (hole + nb) cs in
          let inside =
            free_at-inside h.head hole size nb h.start_addr bs h.end_addr heap.chain free word
              (omega arith) (ground arith) in
          elim (Bool-cases (hole + nb == p)) [
            | inl here ↦
                let inside' =
                  subst (λ q. free_at q h.start_addr bs ≡ false) {x = hole + nb} {y = p}
                    (ground arith) inside in
                rw (split, place, added) (ground arith)
            | inr there ↦ rw (split, place, added) (ground arith)
          ]
      | inr whole ↦ rw (whole, place) (ground arith)
    ]

-- The chunk split, off a list without it.
split_tagged-IsHeap :
    (h : Heap) (bs : List Block) (hole nb size : ℕ) (cs : List ℕ)
    → IsHeap h bs
    → remove_from hole h.free_list ≡ some cs
    → free_at hole h.start_addr bs ≡ true
    → h.head hole ≡ size + 1
    → size % 8 ≡ 0
    → hole + size ≤ 4294963200
    → nb % 8 ≡ 0
    → 16 ≤ nb
    → nb ≤ size
    → IsHeap
        (split_tagged nb hole (record h { free_list = cs }))
        (use_block hole nb h.start_addr bs)
split_tagged-IsHeap h bs hole nb size cs heap removed free word size_aligned to aligned large le =
    let h1 = record h { free_list = cs } in
    let w = split_tagged-Writes h1 hole nb size word size_aligned aligned large le to in
    let known = chunk_size-free h hole size word size_aligned (omega arith) in
    let chain =
      use_block-Chain h.head (split_tagged nb hole h1).head hole nb size h.start_addr bs h.end_addr
        heap.chain free word w aligned large le in
    let listed = split_tagged-free_list h1 hole nb size word size_aligned le large to in
    let start = split_tagged-start_addr h1 hole nb in
    let end = split_tagged-end_addr h1 hole nb in
    record {
      chain = rw (start, end) chain;
      listed = λ p.
          rw (listed, start)
            (split-listed h bs hole nb size cs _ p heap removed free word large le);
      sorted = rw listed (elim (Bool-cases (leb (nb + 16) size)) [
        | inl split ↦ rw split (
            split-IsSorted h bs hole nb size cs _ heap removed free word w aligned size_aligned
              large (ground arith) (omega arith))
        | inr whole ↦ rw whole (
            IsSorted-same h.head _ cs
              (λ c l. rest-kept h bs hole nb size cs _ c heap removed free word w large l)
              (remove-IsSorted h.head hole h.free_list cs removed heap.sorted))
      ]);
      bounded = rw end heap.bounded;
    }

-- A chunk of the list that is large enough is taken off it, and its memory is given; but a chunk that is
-- the last one and would be taken whole is not.
pub take_hole-IsHeap :
    (h : Heap) (bs : List Block) (hole nb : ℕ)
    → IsHeap h bs
    → 1 ≤ count hole h.free_list
    → nb % 8 ≡ 0
    → 16 ≤ nb
    → nb ≤ chunk_size h hole
    → (free_at hole h.start_addr bs ≡ true)
      × (((is_whole_last h nb hole ≡ true) × (take_hole nb hole h ≡ faults))
          ⊎ ((is_whole_last h nb hole ≡ false)
              × (h' : Heap) × (take_hole nb hole h ≡ ok (hole + 8, h'))
              × IsHeap h' (use_block hole nb h.start_addr bs)))
unfolding take_hole remove_chunk
take_hole-IsHeap h bs hole nb heap listed aligned large le =
    let free : free_at hole h.start_addr bs ≡ true = ground (arith, heap.listed hole) in
    let (size, found) = free_at-IsHole h.head hole h.start_addr bs h.end_addr heap.chain free in
    let to = found.to in
    let top = heap.bounded in
    let known = chunk_size-free h hole size found.word found.aligned (omega arith) in
    let (cs, removed) = remove-some hole h.free_list listed in
    let enough : leb nb (chunk_size h hole) ≡ true = ground arith in
    let h1 = record h { free_list = cs } in
    let gone : remove_chunk hole h ≡ ok h1 = rw (removed, remove_chunk) refl in
    let mem : u32 (hole + 8) ≡ hole + 8 = omega (arith, found.large) in
    (
      free,
      elim (Bool-cases (is_whole_last h nb hole)) [
        | inl last ↦
            let stuck : split_hole nb hole h1 ≡ faults = split_hole-faults h1 hole nb le top last in
            inl (last, rw (enough, gone, stuck) refl)
        | inr inside ↦
            let split : split_hole nb hole h1 ≡ ok (split_tagged nb hole h1) =
              split_hole-split_tagged h1 hole nb le (omega arith) top inside in
            inr (
              inside,
              split_tagged nb hole h1,
              rw (enough, gone, split, mem) refl,
              split_tagged-IsHeap h bs hole nb size cs heap removed free found.word found.aligned
                  (omega arith) aligned large (omega arith),
            )
      ],
    )
