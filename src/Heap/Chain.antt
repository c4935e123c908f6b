-- ===== src/Heap/Chain.antt =====
-- The heap as a row of blocks: what the words of the chunks of src/mm/heap.c stand for.
use just_kernel.Base.{
  ℕ, ◌+◌, ◌%◌, ◌≤◌, ◌<◌, ◌≡◌, refl, ◌∙◌, Bool, false, not, ◌&&◌, ◌||◌, Option, none, some, List, [],
  ◌∷◌, ◌==◌, if◌then◌else◌, Bool-cases, inl, inr, arith,
}
use just_kernel.Heap.Sizes.{or_one_of_odd}
use Prim.Native.Nat.{bit_or}

-- A block, by its size with the tag word and whether it is in use.
pub record Block : Type 0 where
  pub size : ℕ
  pub used : Bool

-- The word of a block: both tags, or that of the block before alone.
abbrev pub word_of : Block → ℕ
word_of b = if b.used then b.size + 3 else b.size + 1

-- From address `a` to `e` the words of the chunks describe the blocks, without a gap.
unfoldable pub Chain : (head : ℕ → ℕ) (a : ℕ) → List Block → (e : ℕ) → Type 0
Chain head a [] e = a ≡ e
Chain head a (b ∷ bs) e =
    (head a ≡ word_of b) × (b.size % 8 ≡ 0) × (16 ≤ b.size) × Chain head (a + b.size) bs e

pub Chain-le : (head : ℕ → ℕ) (a : ℕ) (bs : List Block) (e : ℕ) → Chain head a bs e → a ≤ e
unfolding Chain
Chain-le head a [] e same = omega arith
Chain-le head a (b ∷ bs) e (word, aligned, large, rest) =
    omega (arith, Chain-le head (a + b.size) bs e rest)

-- Words below the row do not matter.
pub Chain-above :
    (head head' : ℕ → ℕ) (a : ℕ) (bs : List Block) (e : ℕ)
    → ((x : ℕ) → a ≤ x → head' x ≡ head x)
    → Chain head a bs e
    → Chain head' a bs e
unfolding Chain
Chain-above head head' a [] e same chain = chain
Chain-above head head' a (b ∷ bs) e same (word, aligned, large, rest) = (
  same a (omega arith) ∙ word,
  aligned,
  large,
  Chain-above head head' (a + b.size) bs e (λ x h. same x (omega arith)) rest,
)

-- Nor does it matter when the first word gets the tag that it has.
pub Chain-tagged :
    (head head' : ℕ → ℕ) (a : ℕ) (bs : List Block) (e : ℕ)
    → ((x : ℕ) → a < x → head' x ≡ head x)
    → head' a ≡ bit_or (head a) 1
    → Chain head a bs e
    → Chain head' a bs e
unfolding Chain
Chain-tagged head head' a [] e same tagged chain = chain
Chain-tagged head head' a (b ∷ bs) e same tagged (word, aligned, large, rest) =
    let odd : head a % 2 ≡ 1 = ground arith in
    (
      tagged ∙ or_one_of_odd (head a) odd ∙ word,
      aligned,
      large,
      Chain-above head head' (a + b.size) bs e (λ x h. same x (omega arith)) rest,
    )

-- Whether a free block begins at `p`, in a row that begins at `a`.
abbrev pub free_at : (p a : ℕ) → List Block → Bool
free_at p a [] = false
free_at p a (b ∷ bs) = ((a == p) && not b.used) || free_at p (a + b.size) bs

-- The block that begins at `p`.
abbrev pub block_at : (p a : ℕ) → List Block → Option Block
block_at p a [] = none
block_at p a (b ∷ bs) = if a == p then some b else block_at p (a + b.size) bs

pub free_at-below :
    (head : ℕ → ℕ) (p a : ℕ) (bs : List Block) (e : ℕ)
    → Chain head a bs e
    → p < a
    → free_at p a bs ≡ false
unfolding Chain
free_at-below head p a [] e chain below = refl
free_at-below head p a (b ∷ bs) e (word, aligned, large, rest) below =
    ground (arith, free_at-below head p (a + b.size) bs e rest)

pub block_at-above :
    (head : ℕ → ℕ) (p a : ℕ) (b : Block) (bs : List Block) (e : ℕ)
    → Chain head a bs e
    → block_at p a bs ≡ some b
    → a ≤ p
unfolding Chain
block_at-above head p a b [] e chain at = absurd (ground arith)
block_at-above head p a b (c ∷ bs) e (word, aligned, large, rest) at = elim (Bool-cases (a == p)) [
  | inl here ↦ ground arith
  | inr there ↦ omega (arith, block_at-above head p (a + c.size) b bs e rest (ground arith))
]
