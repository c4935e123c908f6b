-- ===== src/Heap/Free.antt =====
-- free on a heap in order, src/mm/heap.c, of a block with another one behind it.
use just_kernel.Base.{
  ℕ, ◌+◌, ◌%◌, ◌≤◌, ◌≡◌, ◌≢◌, sym, subst, ap, ◌∙◌, inl, inr, true, false, some, List, [], ◌∷◌, ◌==◌,
  if◌then◌else◌, Bool-cases, arith,
}
use just_kernel.Heap.Chain.{
  Block, word_of, Chain, Chain-le, Chain-above, free_at, free_at-below, block_at, block_at-above,
}
use just_kernel.Heap.Alloc.{Chain-cons, cons-Chain}

-- The row after the block at `p` is given back.
unfoldable pub release_block : (p a : ℕ) → List Block → List Block
release_block p a [] = []
release_block p a (b ∷ bs) =
    if a == p
    then record { size = b.size; used = false } ∷ bs
    else b ∷ release_block p (a + b.size) bs

-- What the words say of a block of the row.
pub record IsBlock (head : ℕ → ℕ) (p a e : ℕ) (b : Block) : Type 0 where
  pub word : head p ≡ word_of b
  pub aligned : b.size % 8 ≡ 0
  pub large : 16 ≤ b.size
  pub from : a ≤ p
  pub to : p + b.size ≤ e

pub block_at-IsBlock :
    (head : ℕ → ℕ) (p a : ℕ) (b : Block) (bs : List Block) (e : ℕ)
    → Chain head a bs e
    → block_at p a bs ≡ some b
    → IsBlock head p a e b
block_at-IsBlock head p a b [] e chain at = absurd (ground arith)
block_at-IsBlock head p a b (c ∷ bs) e chain at =
    let (word, aligned, large, rest) = Chain-cons head a c bs e chain in
    elim (Bool-cases (a == p)) [
      | inl here ↦
          let whole : some c ≡ some b = ground arith in
          let same : c ≡ b = cc in
          let le = Chain-le head (a + c.size) bs e rest in
          let start : a ≡ p = ground arith in
          subst (IsBlock head p a e) same (
            subst (λ q. IsBlock head q a e c) start
              (record {
                word = word;
                aligned = aligned;
                large = large;
                from = omega arith;
                to = le;
              }))
      | inr there ↦
          let found = block_at-IsBlock head p (a + c.size) b bs e rest (ground arith) in
          let from = found.from in
          record {
            word = found.word;
            aligned = found.aligned;
            large = found.large;
            from = omega arith;
            to = found.to;
          }
    ]

-- The free blocks of the new row.
pub release_block-free_at :
    (head : ℕ → ℕ) (p q a : ℕ) (b : Block) (bs : List Block) (e : ℕ)
    → Chain head a bs e
    → block_at p a bs ≡ some b
    → free_at q a (release_block p a bs) ≡ (if q == p then true else free_at q a bs)
unfolding release_block
release_block-free_at head p q a b [] e chain at = absurd (ground arith)
release_block-free_at head p q a b (c ∷ bs) e chain at =
    let (word, aligned, large, rest) = Chain-cons head a c bs e chain in
    elim (Bool-cases (a == p)) [
      | inl here ↦ rw here (ground arith)
      | inr there ↦
          let at' : block_at p (a + c.size) bs ≡ some b = ground arith in
          let above = block_at-above head p (a + c.size) b bs e rest at' in
          let later = release_block-free_at head p q (a + c.size) b bs e rest at' in
          rw (there, later) (ground arith)
    ]

pub used-free_at :
    (head : ℕ → ℕ) (p a : ℕ) (b : Block) (bs : List Block) (e : ℕ)
    → Chain head a bs e
    → block_at p a bs ≡ some b
    → b.used ≡ true
    → free_at p a bs ≡ false
used-free_at head p a b [] e chain at used = absurd (ground arith)
used-free_at head p a b (c ∷ bs) e chain at used =
    let (word, aligned, large, rest) = Chain-cons head a c bs e chain in
    elim (Bool-cases (a == p)) [
      | inl here ↦
          let whole : some c ≡ some b = ground arith in
          let same : c ≡ b = cc in
          let used' : c.used ≡ true = subst (λ (x : Block). x.used ≡ true) (sym same) used in
          let below = free_at-below head p (a + c.size) bs e rest (ground arith) in ground arith
      | inr there ↦
          let later = used-free_at head p (a + c.size) b bs e rest (ground arith) used in
          ground (arith, later)
    ]

-- One word is written.
pub release_block-Chain :
    (head head' : ℕ → ℕ) (p a : ℕ) (b : Block) (bs : List Block) (e : ℕ)
    → Chain head a bs e
    → block_at p a bs ≡ some b
    → head' p ≡ b.size + 1
    → ((x : ℕ) → x ≢ p → head' x ≡ head x)
    → Chain head' a (release_block p a bs) e
unfolding release_block
release_block-Chain head head' p a b [] e chain at word others = absurd (ground arith)
release_block-Chain head head' p a b (c ∷ bs) e chain at word' others =
    let (word, aligned, large, rest) = Chain-cons head a c bs e chain in
    elim (Bool-cases (a == p)) [
      | inl here ↦
          let whole : some c ≡ some b = ground arith in
          let same : c ≡ b = cc in
          let start : a ≡ p = ground arith in
          let size : head' a ≡ c.size + 1 =
            ap head' start ∙ word' ∙ ap (λ (x : Block). x.size + 1) (sym same) in
          rw here (
            cons-Chain head' a (record { size = c.size; used = false }) bs e size aligned large
              (Chain-above head head' (a + c.size) bs e (λ x h. others x (omega arith)) rest))
      | inr there ↦
          let at' : block_at p (a + c.size) bs ≡ some b = ground arith in
          let above = block_at-above head p (a + c.size) b bs e rest at' in
          rw there (
            cons-Chain head' a c _ e (others a (omega arith) ∙ word) aligned large
              (release_block-Chain head head' p (a + c.size) b bs e rest at' word' others))
    ]
