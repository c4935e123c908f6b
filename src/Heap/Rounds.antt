-- ===== src/Heap/Rounds.antt =====
-- The second round of alloc, src/mm/heap.c, on the heap that the first one let grow.
use just_kernel.Base.{
  ℕ, suc, ◌+◌, ◌%◌, ◌≤◌, ◌<◌, ◌≡◌, ◌≢◌, refl, subst, ap, ◌⊎◌, inl, inr, true, not, ◌&&◌, Option,
  none, some, List, [], ◌∷◌, ◌==◌, leb, ltb, if◌then◌else◌, Bool-cases, Option-cases, u32, sub32,
  bit_or, arith,
}
use just_kernel.Vmm.{Layout}
use just_kernel.Heap.{
  Heap, size_of, chunk_size, pinuse, cinuse, set_size_and_pinuse, insert_chunk, find_smallest,
  remove_from, remove_chunk, set_inuse, split_hole, take_hole, request2size, highest, expand,
  add_top, grow_top, grow, alloc_rounds, alloc,
}
use just_kernel.Heap.Results.{no_fuel}
use just_kernel.Heap.Sizes.{request2size_bounds, size_of-eq, or_one}
use just_kernel.Heap.Chain.{Block, free_at, Chain-le}
use just_kernel.Heap.Order.{count, insert-count}
use just_kernel.Heap.Alloc.{free_at-IsHole}
use just_kernel.Heap.Split.{chunk_size-free}
use just_kernel.Heap.Inv.{IsHeap}
use just_kernel.Heap.Grow.{Ends, bind-Ends, assert-Ends, Grown, expand-Ends}

-- A chunk of the list that fits.
record Has (nb : ℕ) (h : Heap) : Type 0 where
  chunk : ℕ
  listed : 1 ≤ count chunk h.free_list
  fits : nb ≤ size_of (h.head chunk)

add_top-Has :
    (old_end top size nb : ℕ) (h : Heap)
    → nb % 8 ≡ 0
    → nb ≤ size
    → size < 4294967296
    → Has nb (add_top old_end top size h)
unfolding add_top insert_chunk set_size_and_pinuse
add_top-Has old_end top size nb h aligned le small =
    let tagged = or_one size in
    let kept = size_of-eq (bit_or size 1) (omega arith) in
    let head' : ℕ → ℕ = λ q. if q == top then bit_or size 1 else h.head q in
    let same : head' top ≡ bit_or size 1 = ground arith in
    record {
      chunk = top;
      listed = ground (arith, insert-count head' top top h.free_list);
      fits = rw same (omega arith);
    }

highest-listed :
    (cs : List ℕ) (tmp : Option ℕ) (t : ℕ)
    → highest cs tmp ≡ some t
    → (tmp ≡ some t) ⊎ (1 ≤ count t cs)
unfolding highest
highest-listed [] tmp t found = inl found
highest-listed (c ∷ cs) none t found = elim (highest-listed cs (some c) t found) [
  | inl first ↦ inr (ground arith)
  | inr later ↦ inr (ground arith)
]
highest-listed (c ∷ cs) (some s) t found =
    elim (highest-listed cs (if ltb s c then some c else some s) t found) [
      | inl first ↦ elim (Bool-cases (ltb s c)) [
        | inl above ↦ inr (ground arith)
        | inr below ↦ inl (ground arith)
      ]
      | inr later ↦ inr (ground arith)
    ]

remove_chunk-Ends : (c : ℕ) (h : Heap) → Ends (λ g. g.end_addr ≡ h.end_addr) (remove_chunk c h)
unfolding Ends remove_chunk
remove_chunk-Ends c h = elim (Option-cases (remove_from c h.free_list)) [
  | inl missing ↦ rw (missing, remove_chunk, Ends) tt
  | inr (cs, found) ↦ rw (found, remove_chunk, Ends) refl
]

-- Growth either fails or leaves a chunk that fits.
grow_top-Ends :
    (h h1 : Heap) (nb : ℕ) (top : Option ℕ)
    → Grown h nb h1
    → nb % 8 ≡ 0
    → ((t : ℕ) → top ≡ some t → t + chunk_size h1 t ≤ h.end_addr)
    → Ends (Has nb) (grow_top h.end_addr top h1)
unfolding grow_top Ends
grow_top-Ends h h1 nb none grown aligned inside =
    let room = grown.room in
    let small = grown.small in
    add_top-Has h.end_addr h.end_addr (sub32 h1.end_addr h.end_addr) nb h1 aligned (omega arith)
      (omega arith)
grow_top-Ends h h1 nb (some top) grown aligned inside =
    let room = grown.room in
    let small = grown.small in
    let below = inside top refl in
    elim (Bool-cases (not (pinuse h1 top) && cinuse h1 top)) [
      | inl broken ↦ rw (broken, grow_top, Ends) tt
      | inr sound ↦ elim (Bool-cases (u32 (top + chunk_size h1 top) == h.end_addr)) [
        | inl last ↦
            rw (sound, last, grow_top)
              (bind-Ends (λ g. g.end_addr ≡ h1.end_addr) (Has nb) (remove_chunk top h1) _
                (remove_chunk-Ends top h1)
                (λ g same.
                  add_top-Has h.end_addr top (sub32 g.end_addr top) nb g aligned (omega arith)
                    (omega arith)))
        | inr apart ↦
            rw (sound, apart, grow_top)
              (add_top-Has h.end_addr h.end_addr (sub32 h1.end_addr h.end_addr) nb h1 aligned
                (omega arith) (omega arith))
      ]
    ]

find_smallest-none :
    (head : ℕ → ℕ) (nb c : ℕ) (cs : List ℕ)
    → find_smallest head nb cs ≡ none
    → 1 ≤ count c cs
    → size_of (head c) < nb
unfolding find_smallest
find_smallest-none head nb c [] none_found listed = absurd (omega arith)
find_smallest-none head nb c (d ∷ cs) none_found listed =
    elim (Bool-cases (leb nb (size_of (head d)))) [
      | inl fits ↦ absurd (ground arith)
      | inr small ↦ elim (Bool-cases (d == c)) [
        | inl here ↦
            subst (λ q. size_of (head q) < nb) {x = d} {y = c} (ground arith) (ground arith)
        | inr there ↦ find_smallest-none head nb c cs (ground arith) (ground arith)
      ]
    ]

set_inuse-Ends : (p size : ℕ) (h : Heap) → Ends (λ r. Unit) (set_inuse p size h)
unfolding set_inuse Ends
set_inuse-Ends p size h = elim (Bool-cases (leb h.end_addr (u32 (p + size)))) [
  | inl behind ↦ rw behind tt
  | inr within ↦ rw within tt
]

split_hole-Ends : (nb hole : ℕ) (h : Heap) → Ends (λ r. Unit) (split_hole nb hole h)
unfolding split_hole
split_hole-Ends nb hole h = elim (Bool-cases (leb (u32 (nb + 16)) (chunk_size h hole))) [
  | inl split ↦ rw split (set_inuse-Ends hole nb _)
  | inr whole ↦ rw whole (set_inuse-Ends hole (chunk_size h hole) h)
]

take_hole-Ends : (nb hole : ℕ) (h : Heap) → Ends (λ r. Unit) (take_hole nb hole h)
unfolding take_hole Ends
take_hole-Ends nb hole h =
    assert-Ends (λ r. Unit) (leb nb (chunk_size h hole)) h _
      (λ enough.
        bind-Ends (λ g. g.end_addr ≡ h.end_addr) (λ r. Unit) (remove_chunk hole h) _
          (remove_chunk-Ends hole h)
          (λ g same.
            bind-Ends (λ r. Unit) (λ r. Unit) (split_hole nb hole g) _ (split_hole-Ends nb hole g)
              (λ r done. tt)))

grow-Ends :
    (l : Layout) (h : Heap) (bs : List Block) (nb : ℕ)
    → IsHeap h bs
    → nb % 8 ≡ 0
    → h.end_addr + nb + 4096 < 4294967296
    → Ends (Has nb) (grow l nb h)
unfolding grow
grow-Ends l h bs nb heap aligned small =
    let ordered = Chain-le h.head h.start_addr bs h.end_addr heap.chain in
    let top = heap.bounded in
    bind-Ends (Grown h nb) (Has nb) (expand l (u32 (sub32 h.end_addr h.start_addr + nb)) h) _
      (expand-Ends l h nb ordered small)
      (λ h1 grown. grow_top-Ends h h1 nb (highest h1.free_list none) grown aligned (λ t found.
        elim (highest-listed h1.free_list none t found) [
          | inl first ↦ absurd (ground arith)
          | inr listed ↦
              let listed' : 1 ≤ count t h.free_list =
                subst (λ cs. 1 ≤ count t cs) grown.list listed in
              let free : free_at t h.start_addr bs ≡ true = ground (arith, heap.listed t) in
              let (size, place) =
                free_at-IsHole h.head t h.start_addr bs h.end_addr heap.chain free in
              let to = place.to in
              let known = chunk_size-free h t size place.word place.aligned (omega arith) in
              let same : chunk_size h1 t ≡ chunk_size h t =
                ap (λ head. size_of (head t)) grown.head in
              omega arith
        ]))

rounds-Ends :
    (l : Layout) (fuel req : ℕ) (h : Heap)
    → Has (request2size req) h
    → Ends (λ r. Unit) (alloc_rounds l (suc fuel) req h)
unfolding Ends alloc_rounds
rounds-Ends l fuel req h has =
    elim (Option-cases (find_smallest h.head (request2size req) h.free_list)) [
      | inl missing ↦
          let low =
            find_smallest-none h.head (request2size req) has.chunk h.free_list missing has.listed in
          absurd (omega (arith, has.fits))
      | inr (hole, found) ↦ rw (found, alloc_rounds) (take_hole-Ends (request2size req) hole h)
    ]

alloc-Ends :
    (l : Layout) (h : Heap) (bs : List Block) (req : ℕ)
    → IsHeap h bs
    → h.end_addr + req + 4112 < 4294967296
    → Ends (λ r. Unit) (alloc l req h)
unfolding alloc alloc_rounds Ends
alloc-Ends l h bs req heap small =
    let ordered = Chain-le h.head h.start_addr bs h.end_addr heap.chain in
    let (aligned, large, holds, near) = request2size_bounds req (omega arith) in
    elim (Option-cases (find_smallest h.head (request2size req) h.free_list)) [
      | inl missing ↦
          rw (alloc, missing, alloc_rounds)
            (bind-Ends (Has (request2size req)) (λ r. Unit) (grow l (request2size req) h) _
              (grow-Ends l h bs (request2size req) heap aligned (omega arith))
              (λ h1 has. rounds-Ends l 0 req h1 has))
      | inr (hole, found) ↦
          rw (alloc, found, alloc_rounds) (take_hole-Ends (request2size req) hole h)
    ]

-- On a heap in order, alloc calls itself at most once, for a request whose end, with up to a page of
-- rounding, stays within the address space: the chunk that is added when the heap grows is found.
pub alloc-no_fuel :
    (l : Layout) (h : Heap) (bs : List Block) (req : ℕ)
    → IsHeap h bs
    → h.end_addr + req + 4112 < 4294967296
    → alloc l req h ≢ no_fuel
unfolding Ends
alloc-no_fuel l h bs req heap small =
    λ out. subst (λ o. Ends (λ r. Unit) o) out (alloc-Ends l h bs req heap small)
