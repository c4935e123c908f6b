-- ===== src/Heap/Split.antt =====
-- alloc on a heap in order, src/mm/heap.c: the chunk that is found, split, and what remains.
use just_kernel.Base.{
  ℕ, ◌+◌, ◌-◌, ◌%◌, ◌≤◌, ◌<◌, ◌≡◌, ◌≢◌, refl, sym, subst, ◌∙◌, inl, inr, Bool, true, false, not,
  ◌&&◌, List, [], ◌∷◌, ◌==◌, leb, if◌then◌else◌, Bool-cases, u32, sub32, bit_or, arith,
}
use just_kernel.Heap.{
  Heap, size_of, chunk_size, set_head, tag_inuse, set_inuse, insert_chunk, insert_before,
  split_hole,
}
use just_kernel.Heap.Results.{ok, faults}
use just_kernel.Heap.Sizes.{size_of-tagged, free_word, used_word, or_one_of_odd}
use just_kernel.Heap.Chain.{Block, Chain, free_at, free_at-below}
use just_kernel.Heap.Alloc.{free_at-IsHole, Writes, Chain-cons}

-- The size in the word of a free chunk.
pub chunk_size-free :
    (h : Heap) (hole size : ℕ)
    → h.head hole ≡ size + 1
    → size % 8 ≡ 0
    → size < 4294967296
    → chunk_size h hole ≡ size
chunk_size-free h hole size word aligned small =
    subst (λ w. size_of w ≡ size) (sym word) (size_of-tagged size 1 aligned small (omega arith))

-- What `split_hole` makes of a chunk when the word behind it lies within the heap.
unfoldable pub split_tagged : (nb hole : ℕ) → Heap → Heap
split_tagged nb hole h =
    if leb (u32 (nb + 16)) (chunk_size h hole)
    then (let new = u32 (hole + nb) in
        tag_inuse hole nb (insert_chunk new (set_head new (sub32 (chunk_size h hole) nb) h)))
    else tag_inuse hole (chunk_size h hole) h

-- A chunk that would be taken whole and is the last one.
abbrev pub is_whole_last : (h : Heap) (nb hole : ℕ) → Bool
is_whole_last h nb hole =
    not (leb (nb + 16) (chunk_size h hole)) && (hole + chunk_size h hole == h.end_addr)

pub split_hole-split_tagged :
    (h : Heap) (hole nb : ℕ)
    → nb ≤ chunk_size h hole
    → hole + chunk_size h hole ≤ h.end_addr
    → h.end_addr ≤ 4294963200
    → is_whole_last h nb hole ≡ false
    → split_hole nb hole h ≡ ok (split_tagged nb hole h)
unfolding split_hole split_tagged set_inuse insert_chunk
split_hole-split_tagged h hole nb le to bounded inside =
    let fits : u32 (nb + 16) ≡ nb + 16 = omega arith in
    elim (Bool-cases (leb (nb + 16) (chunk_size h hole))) [
      | inl split ↦
          let within : leb h.end_addr (u32 (hole + nb)) ≡ false = ground arith in
          rw (fits, split, within) refl
      | inr whole ↦
          let within : leb h.end_addr (u32 (hole + chunk_size h hole)) ≡ false = ground arith in
          rw (fits, whole, within) refl
    ]

pub split_hole-faults :
    (h : Heap) (hole nb : ℕ)
    → nb ≤ chunk_size h hole
    → h.end_addr ≤ 4294963200
    → is_whole_last h nb hole ≡ true
    → split_hole nb hole h ≡ faults
unfolding split_hole set_inuse
split_hole-faults h hole nb le bounded last =
    let fits : u32 (nb + 16) ≡ nb + 16 = ground arith in
    let whole : leb (nb + 16) (chunk_size h hole) ≡ false = ground arith in
    let behind : leb h.end_addr (u32 (hole + chunk_size h hole)) ≡ true = ground arith in
    rw (fits, whole, behind) refl

pub split_tagged-Writes :
    (h : Heap) (hole nb size : ℕ)
    → h.head hole ≡ size + 1
    → size % 8 ≡ 0
    → nb % 8 ≡ 0
    → 16 ≤ nb
    → nb ≤ size
    → hole + size ≤ 4294963200
    → Writes h.head (split_tagged nb hole h).head hole nb size
unfolding split_tagged tag_inuse insert_chunk
split_tagged-Writes h hole nb size word size_aligned aligned large le bounded =
    let known = chunk_size-free h hole size word size_aligned (omega arith) in
    let odd : h.head hole % 2 ≡ 1 = omega arith in
    let word_nb = used_word (h.head hole) nb odd aligned in
    let word_size = used_word (h.head hole) size odd size_aligned in
    let word_rest = free_word (size - nb) (omega arith) in
    elim (Bool-cases (leb (nb + 16) size)) [
      | inl split ↦ record { taken = ground arith; behind = ground arith; others = ground arith }
      | inr whole ↦ record { taken = ground arith; behind = ground arith; others = ground arith }
    ]

-- The rest of a chunk that is split goes on the list.
pub split_tagged-free_list :
    (h : Heap) (hole nb size : ℕ)
    → h.head hole ≡ size + 1
    → size % 8 ≡ 0
    → nb ≤ size
    → 16 ≤ nb
    → hole + size ≤ 4294963200
    → (split_tagged nb hole h).free_list ≡ (
        if leb (nb + 16) size
        then insert_before
            (λ q. if q == hole + nb then size - nb else h.head q)
            (hole + nb)
            h.free_list
        else h.free_list)
unfolding split_tagged tag_inuse insert_chunk
split_tagged-free_list h hole nb size word aligned le large bounded =
    let known = chunk_size-free h hole size word aligned (omega arith) in
    let fits : u32 (nb + 16) ≡ nb + 16 = omega arith in
    let new : u32 (hole + nb) ≡ hole + nb = omega arith in
    let rest : sub32 size nb ≡ size - nb = omega arith in
    elim (Bool-cases (leb (nb + 16) size)) [
      | inl split ↦ rw (known, fits, split, new, rest) refl
      | inr whole ↦ rw (known, fits, whole) refl
    ]

pub split_tagged-start_addr :
    (h : Heap) (hole nb : ℕ) → (split_tagged nb hole h).start_addr ≡ h.start_addr
unfolding split_tagged tag_inuse insert_chunk
split_tagged-start_addr h hole nb = ground arith

pub split_tagged-end_addr :
    (h : Heap) (hole nb : ℕ) → (split_tagged nb hole h).end_addr ≡ h.end_addr
unfolding split_tagged tag_inuse insert_chunk
split_tagged-end_addr h hole nb = ground arith

-- No free block begins inside a free block.
pub free_at-inside :
    (head : ℕ → ℕ) (hole size d a : ℕ) (bs : List Block) (e : ℕ)
    → Chain head a bs e
    → free_at hole a bs ≡ true
    → head hole ≡ size + 1
    → 0 < d
    → d < size
    → free_at (hole + d) a bs ≡ false
free_at-inside head hole size d a [] e chain free word positive inside = refl
free_at-inside head hole size d a (b ∷ bs) e chain free word positive inside =
    let (at, b_aligned, b_large, rest) = Chain-cons head a b bs e chain in
    elim (Bool-cases (a == hole)) [
      | inl same_start ↦
          let here : a ≡ hole = ground arith in
          let below = free_at-below head hole (a + b.size) bs e rest (omega arith) in
          let unused : b.used ≡ false = ground arith in
          let word' : head a ≡ size + 1 = subst (λ q. head q ≡ size + 1) (sym here) word in
          let same : b.size ≡ size = ground arith in
          let behind = free_at-below head (hole + d) (a + b.size) bs e rest (omega arith) in
          ground (arith, behind)
      | inr there ↦
          let free' : free_at hole (a + b.size) bs ≡ true = ground arith in
          let from = (free_at-IsHole head hole (a + b.size) bs e rest free').1.from in
          let later =
            free_at-inside head hole size d (a + b.size) bs e rest free' word positive inside in
          ground (arith, later)
    ]

-- The words of the other free blocks stay.
pub free-kept :
    (head head' : ℕ → ℕ) (hole nb size a : ℕ) (bs : List Block) (e c : ℕ)
    → Chain head a bs e
    → free_at hole a bs ≡ true
    → head hole ≡ size + 1
    → Writes head head' hole nb size
    → 16 ≤ nb
    → free_at c a bs ≡ true
    → c ≢ hole
    → head' c ≡ head c
free-kept head head' hole nb size a bs e c chain free word w large free_c other =
    elim (Bool-cases (c == hole + (if leb (nb + 16) size then nb else size))) [
      | inr apart ↦ w.others c other (ground arith)
      | inl same ↦ elim (Bool-cases (leb (nb + 16) size)) [
        | inl split ↦
            let inside =
              free_at-inside head hole size nb a bs e chain free word (omega arith)
                (ground arith) in
            let at : c ≡ hole + nb = ground arith in
            let free' : free_at (hole + nb) a bs ≡ true =
              subst (λ q. free_at q a bs ≡ true) at free_c in
            absurd (ground arith)
        | inr whole ↦
            let at : hole + size ≡ c = ground arith in
            let behind : head' (hole + size) ≡ bit_or (head (hole + size)) 1 =
              ground (arith, w.behind) in
            let behind' : head' c ≡ bit_or (head c) 1 =
              subst (λ q. head' q ≡ bit_or (head q) 1) at behind in
            let (c_size, found) = free_at-IsHole head c a bs e chain free_c in
            behind' ∙ or_one_of_odd (head c) (omega (arith, found.word, found.aligned))
      ]
    ]
