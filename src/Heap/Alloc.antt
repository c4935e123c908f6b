-- ===== src/Heap/Alloc.antt =====
-- Taking a free block, src/mm/heap.c: the words that the code writes, against the row of blocks.
use just_kernel.Base.{
  ℕ, ◌+◌, ◌-◌, ◌%◌, ◌≤◌, ◌≡◌, ◌≢◌, sym, subst, ◌∙◌, inl, inr, true, false, not, ◌&&◌, List, [], ◌∷◌,
  ◌==◌, leb, if◌then◌else◌, Bool-cases, bit_or, arith,
}
use just_kernel.Heap.Chain.{
  Block, word_of, Chain, Chain-le, Chain-above, Chain-tagged, free_at, free_at-below,
}

-- The row after `nb` bytes of the free block at `hole` are taken: the rest stays free if a chunk fits
-- into it, otherwise the whole block is taken.
unfoldable pub use_block : (hole nb a : ℕ) → List Block → List Block
use_block hole nb a [] = []
use_block hole nb a (b ∷ bs) =
    if a == hole
    then (if leb (nb + 16) b.size
        then record { size = nb; used = true } ∷ record { size = b.size - nb; used = false } ∷ bs
        else record { size = b.size; used = true } ∷ bs)
    else b ∷ use_block hole nb (a + b.size) bs

-- A free block of the row.
pub record IsHole (head : ℕ → ℕ) (hole size a e : ℕ) : Type 0 where
  pub word : head hole ≡ size + 1
  pub aligned : size % 8 ≡ 0
  pub large : 16 ≤ size
  pub from : a ≤ hole
  pub to : hole + size ≤ e

pub free_at-IsHole :
    (head : ℕ → ℕ) (hole a : ℕ) (bs : List Block) (e : ℕ)
    → Chain head a bs e
    → free_at hole a bs ≡ true
    → (size : ℕ) × IsHole head hole size a e
unfolding Chain
free_at-IsHole head hole a [] e chain free = absurd (ground arith)
free_at-IsHole head hole a (b ∷ bs) e (word, aligned, large, rest) free =
    elim (Bool-cases ((a == hole) && not b.used)) [
      | inl here ↦ (
        b.size,
        record {
          word = ground arith;
          aligned = aligned;
          large = large;
          from = ground arith;
          to = let le = Chain-le head (a + b.size) bs e rest in ground arith;
        },
      )
      | inr there ↦
          let (size, found) = free_at-IsHole head hole (a + b.size) bs e rest (ground arith) in
          (
            size,
            record {
              word = found.word;
              aligned = found.aligned;
              large = found.large;
              from = let f = found.from in omega arith;
              to = found.to;
            },
          )
    ]

-- What the code writes: the words of the two parts, or the word of the whole and the tag behind it.
pub record Writes (head head' : ℕ → ℕ) (hole nb size : ℕ) : Type 0 where
  pub taken : head' hole ≡ (if leb (nb + 16) size then nb else size) + 3
  pub behind :
      head' (hole + (if leb (nb + 16) size then nb else size))
      ≡ (if leb (nb + 16) size then size - nb + 1 else bit_or (head (hole + size)) 1)
  pub others :
      (x : ℕ) → x ≢ hole → x ≢ hole + (if leb (nb + 16) size then nb else size) → head' x ≡ head x

-- The rest of the row, behind the block.
rest-Chain :
    (head head' : ℕ → ℕ) (hole nb size : ℕ) (bs : List Block) (e : ℕ)
    → Writes head head' hole nb size
    → 16 ≤ nb
    → nb ≤ size
    → Chain head (hole + size) bs e
    → Chain head' (hole + size) bs e
rest-Chain head head' hole nb size bs e w large le chain = elim (Bool-cases (leb (nb + 16) size)) [
  | inl split ↦
      Chain-above head head' (hole + size) bs e (λ x h. w.others x (omega arith) (ground arith))
        chain
  | inr whole ↦
      Chain-tagged head head' (hole + size) bs e (λ x h. w.others x (omega arith) (ground arith))
        (ground (arith, w.behind)) chain
]

pub Chain-cons :
    (head : ℕ → ℕ) (a : ℕ) (b : Block) (bs : List Block) (e : ℕ)
    → Chain head a (b ∷ bs) e
    → (head a ≡ word_of b) × (b.size % 8 ≡ 0) × (16 ≤ b.size) × Chain head (a + b.size) bs e
unfolding Chain
Chain-cons head a b bs e chain = chain

pub cons-Chain :
    (head : ℕ → ℕ) (a : ℕ) (b : Block) (bs : List Block) (e : ℕ)
    → head a ≡ word_of b
    → b.size % 8 ≡ 0
    → 16 ≤ b.size
    → Chain head (a + b.size) bs e
    → Chain head a (b ∷ bs) e
unfolding Chain
cons-Chain head a b bs e word aligned large rest = (word, aligned, large, rest)

-- The parts of the block, and what follows.
parts-Chain :
    (head head' : ℕ → ℕ) (hole nb size : ℕ) (bs : List Block) (e : ℕ)
    → Writes head head' hole nb size
    → size % 8 ≡ 0
    → nb % 8 ≡ 0
    → 16 ≤ nb
    → nb ≤ size
    → Chain head' (hole + size) bs e
    → Chain head' hole
        (if leb (nb + 16) size
          then record { size = nb; used = true } ∷ record { size = size - nb; used = false } ∷ bs
          else record { size = size; used = true } ∷ bs)
        e
unfolding Chain
parts-Chain head head' hole nb size bs e w size_aligned aligned large le rest =
    elim (Bool-cases (leb (nb + 16) size)) [
      | inl split ↦
          let taken : head' hole ≡ nb + 3 = ground (arith, w.taken) in
          let behind : head' (hole + nb) ≡ size - nb + 1 = ground (arith, w.behind) in
          let end : hole + nb + (size - nb) ≡ hole + size = ground arith in
          rw split (taken, aligned, large, (behind, omega arith, ground arith, rw end rest))
      | inr whole ↦
          let taken : head' hole ≡ size + 3 = ground (arith, w.taken) in
          rw whole (taken, size_aligned, omega arith, rest)
    ]

use_first :
    (head head' : ℕ → ℕ) (hole nb size a : ℕ) (b : Block) (bs : List Block) (e : ℕ)
    → Chain head a (b ∷ bs) e
    → free_at hole a (b ∷ bs) ≡ true
    → head hole ≡ size + 1
    → Writes head head' hole nb size
    → nb % 8 ≡ 0
    → 16 ≤ nb
    → nb ≤ size
    → a ≡ hole
    → Chain head' a
        (if leb (nb + 16) b.size
          then record { size = nb; used = true } ∷ record { size = b.size - nb; used = false } ∷ bs
          else record { size = b.size; used = true } ∷ bs)
        e
use_first head head' hole nb size a b bs e chain free word w aligned large le here =
    let (at, b_aligned, b_large, rest) = Chain-cons head a b bs e chain in
    let below = free_at-below head hole (a + b.size) bs e rest (omega arith) in
    let unused : b.used ≡ false = ground arith in
    let word' : head a ≡ size + 1 = subst (λ p. head p ≡ size + 1) (sym here) word in
    let same : b.size ≡ size = ground arith in
    let rest' = subst (λ p. Chain head p bs e) (omega arith) rest in
    let rest'' = rest-Chain head head' hole nb size bs e w large le rest' in
    rw (same, here)
      (parts-Chain head head' hole nb size bs e w (omega arith) aligned large le rest'')

-- In the row the words describe the blocks with the taken one.
pub use_block-Chain :
    (head head' : ℕ → ℕ) (hole nb size a : ℕ) (bs : List Block) (e : ℕ)
    → Chain head a bs e
    → free_at hole a bs ≡ true
    → head hole ≡ size + 1
    → Writes head head' hole nb size
    → nb % 8 ≡ 0
    → 16 ≤ nb
    → nb ≤ size
    → Chain head' a (use_block hole nb a bs) e
unfolding use_block
use_block-Chain head head' hole nb size a [] e chain free word w aligned large le =
    absurd (ground arith)
use_block-Chain head head' hole nb size a (b ∷ bs) e chain free word w aligned large le =
    elim (Bool-cases (a == hole)) [
      | inl here ↦ rw here (
          use_first head head' hole nb size a b bs e chain free word w aligned large le
            (ground arith))
      | inr there ↦
          let (at, b_aligned, b_large, rest) = Chain-cons head a b bs e chain in
          let (found_size, found) =
            free_at-IsHole head hole (a + b.size) bs e rest (ground arith) in
          let from = found.from in
          rw there (
            cons-Chain head' a b _ e (w.others a (omega arith) (ground arith) ∙ at) b_aligned
              b_large
              (use_block-Chain head head' hole nb size (a + b.size) bs e rest (ground arith) word w
                aligned large le))
    ]
