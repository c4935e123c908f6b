-- ===== src/Heap/Take.antt =====
-- Taking a chunk off the list and splitting it, src/mm/heap.c: the heap stays in order.
use just_kernel.Base.{
  ℕ, ◌+◌, ◌-◌, ◌≤◌, ◌≡◌, sym, subst, inl, inr, true, false, ◌&&◌, ◌||◌, some, List, [], ◌∷◌, ◌==◌,
  leb, if◌then◌else◌, Bool-cases, Option-cases, arith,
}
use just_kernel.Heap.{size_of, remove_from}
use just_kernel.Heap.Chain.{Block, Chain, free_at, free_at-below}
use just_kernel.Heap.Order.{count, AllFrom, IsSorted}
use just_kernel.Heap.Alloc.{use_block, free_at-IsHole, Chain-cons}

-- The free blocks among the parts of a block, and behind.
free_at-parts :
    (hole nb size : ℕ) (bs : List Block) (p : ℕ)
    → 16 ≤ nb
    → nb ≤ size
    → free_at hole (hole + size) bs ≡ false
    → free_at p hole (
        if leb (nb + 16) size
        then record { size = nb; used = true } ∷ record { size = size - nb; used = false } ∷ bs
        else record { size = size; used = true } ∷ bs)
      ≡ (if p == hole
          then false
          else if leb (nb + 16) size && (p == hole + nb)
          then true
          else ((hole == p) && true || free_at p (hole + size) bs))
free_at-parts hole nb size bs p large le below =
    let end : hole + nb + (size - nb) ≡ hole + size = ground arith in
    elim (Bool-cases (leb (nb + 16) size)) [
      | inl split ↦ rw (split, end) (ground arith)
      | inr whole ↦ rw whole (ground arith)
    ]

-- The free blocks of the row after a block is taken.
pub free_at-use_block :
    (head : ℕ → ℕ) (hole nb size a : ℕ) (bs : List Block) (e p : ℕ)
    → Chain head a bs e
    → free_at hole a bs ≡ true
    → head hole ≡ size + 1
    → 16 ≤ nb
    → nb ≤ size
    → free_at p a (use_block hole nb a bs) ≡ (
        if p == hole
        then false
        else if leb (nb + 16) size && (p == hole + nb)
        then true
        else free_at p a bs)
unfolding use_block
free_at-use_block head hole nb size a [] e p chain free word large le = absurd (ground arith)
free_at-use_block head hole nb size a (b ∷ bs) e p chain free word large le =
    let (at, b_aligned, b_large, rest) = Chain-cons head a b bs e chain in
    elim (Bool-cases (a == hole)) [
      | inl same_start ↦
          let here : a ≡ hole = ground arith in
          let below = free_at-below head hole (a + b.size) bs e rest (omega arith) in
          let unused : b.used ≡ false = ground arith in
          let word' : head a ≡ size + 1 = subst (λ q. head q ≡ size + 1) (sym here) word in
          let same : b.size ≡ size = ground arith in
          let end : hole + nb + (size - nb) ≡ hole + size = ground arith in
          rw (same_start, same, here, unused)
            (free_at-parts hole nb size bs p large le (ground arith))
      | inr there ↦
          let free' : free_at hole (a + b.size) bs ≡ true = ground arith in
          let from = (free_at-IsHole head hole (a + b.size) bs e rest free').1.from in
          let later =
            free_at-use_block head hole nb size (a + b.size) bs e p rest free' word large le in
          rw there (ground (arith, later))
    ]

-- The list after a change of words that keeps the sizes of its chunks.
pub AllFrom-same :
    (head head' : ℕ → ℕ) (size : ℕ) (cs : List ℕ)
    → ((c : ℕ) → 1 ≤ count c cs → size_of (head' c) ≡ size_of (head c))
    → AllFrom head size cs
    → AllFrom head' size cs
AllFrom-same head head' size [] same all = tt
AllFrom-same head head' size (c ∷ cs) same (h, all) = (
  omega (arith, same c (ground arith)),
  AllFrom-same head head' size cs (λ d listed. same d (ground arith)) all,
)

pub IsSorted-same :
    (head head' : ℕ → ℕ) (cs : List ℕ)
    → ((c : ℕ) → 1 ≤ count c cs → size_of (head' c) ≡ size_of (head c))
    → IsSorted head cs
    → IsSorted head' cs
IsSorted-same head head' [] same sorted = tt
IsSorted-same head head' (c ∷ cs) same (all, sorted) = (
  rw (same c (ground arith))
      (AllFrom-same head head' (size_of (head c)) cs (λ d l. same d (ground arith)) all),
  IsSorted-same head head' cs (λ d l. same d (ground arith)) sorted,
)

remove-AllFrom :
    (head : ℕ → ℕ) (size chunk : ℕ) (cs cs' : List ℕ)
    → remove_from chunk cs ≡ some cs'
    → AllFrom head size cs
    → AllFrom head size cs'
unfolding remove_from
remove-AllFrom head size chunk [] cs' removed all = absurd (ground arith)
remove-AllFrom head size chunk (c ∷ cs) cs' removed (h, all) = elim (Bool-cases (c == chunk)) [
  | inl here ↦ subst (AllFrom head size) {x = cs} {y = cs'} (ground arith) all
  | inr there ↦ elim (Option-cases (remove_from chunk cs)) [
    | inl missing ↦ absurd (ground arith)
    | inr (rest, found) ↦
        subst (AllFrom head size) {x = c ∷ rest} {y = cs'} (ground arith)
          (h, remove-AllFrom head size chunk cs rest found all)
  ]
]

pub remove-IsSorted :
    (head : ℕ → ℕ) (chunk : ℕ) (cs cs' : List ℕ)
    → remove_from chunk cs ≡ some cs'
    → IsSorted head cs
    → IsSorted head cs'
unfolding remove_from
remove-IsSorted head chunk [] cs' removed sorted = absurd (ground arith)
remove-IsSorted head chunk (c ∷ cs) cs' removed (all, sorted) = elim (Bool-cases (c == chunk)) [
  | inl here ↦ subst (IsSorted head) {x = cs} {y = cs'} (ground arith) sorted
  | inr there ↦ elim (Option-cases (remove_from chunk cs)) [
    | inl missing ↦ absurd (ground arith)
    | inr (rest, found) ↦ subst (IsSorted head) {x = c ∷ rest} {y = cs'} (ground arith) (
      remove-AllFrom head (size_of (head c)) chunk cs rest found all,
      remove-IsSorted head chunk cs rest found sorted,
    )
  ]
]
