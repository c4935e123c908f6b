-- ===== src/Heap/Sizes.antt =====
-- The words of a chunk of src/mm/heap.c: a size that is a multiple of 8, and tags in the low bits.
use just_kernel.Base.{ℕ, ◌+◌, ◌*◌, ◌/◌, ◌%◌, ◌≤◌, ◌<◌, ◌≡◌, subst, ◌∙◌, u32, bit_and, bit_or, arith}
use just_kernel.Base.Bits.{
  shl, ones, bit_and-ones, bit_and-shl, bit_or-shl, bit_or-swap, and_lowest, or_lowest,
  bit_and-zero, bit_or-zero,
}
use just_kernel.Heap.{size_of, request2size}

-- The mask of `chunksize` drops the tags.
pub size_of-eq : (w : ℕ) → w < 4294967296 → size_of w ≡ w / 8 * 8
size_of-eq w small =
    let parts : shl 3 (w / 8) + w % 8 ≡ w = omega arith in
    let whole : shl 29 0 + w / 8 ≡ w / 8 = omega arith in
    let high =
      subst (λ q. bit_and q (ones 29) ≡ w / 8) whole (bit_and-ones 29 0 (w / 8) (omega arith)) in
    let masked =
      subst (λ x. size_of x ≡ shl 3 (bit_and (w / 8) (ones 29))) parts
        (bit_and-shl 3 (w / 8) (w % 8) (ones 29) (omega arith)) in
    omega (arith, masked, high)

pub size_of-tagged :
    (size tag : ℕ) → size % 8 ≡ 0 → size < 4294967296 → tag < 8 → size_of (size + tag) ≡ size
size_of-tagged size tag aligned small low = omega (arith, size_of-eq (size + tag) (omega arith))

-- Single tags.
pub low_bit : (w : ℕ) → bit_and w 1 ≡ w % 2
low_bit w = omega (arith, and_lowest w 1, bit_and-zero (w / 2))

pub second_bit : (w : ℕ) → bit_and w 2 ≡ 2 * (w / 2 % 2)
second_bit w = omega (arith, and_lowest w 2, low_bit (w / 2))

pub both_bits : (w : ℕ) → bit_and w 3 ≡ w % 4
both_bits w = omega (arith, and_lowest w 3, low_bit (w / 2))

-- The words that the code writes.
bit_or-tag : (size tag : ℕ) → size % 8 ≡ 0 → tag < 8 → bit_or size tag ≡ size + tag
bit_or-tag size tag aligned low =
    let shifted : shl 3 (size / 8) ≡ size = omega arith in
    subst (λ x. bit_or x tag ≡ x + tag) shifted (bit_or-shl 3 (size / 8) tag (omega arith))

pub free_word : (size : ℕ) → size % 8 ≡ 0 → bit_or size 1 ≡ size + 1
free_word size aligned = bit_or-tag size 1 aligned (omega arith)

small_or_two : (b : ℕ) → b < 2 → bit_or b 2 ≡ b + 2
small_or_two b low = omega (arith, bit_or-swap b 2, bit_or-shl 1 1 b)

pub used_word :
    (w size : ℕ) → w % 2 ≡ 1 → size % 8 ≡ 0 → bit_or (bit_or (bit_and w 1) 2) size ≡ size + 3
used_word w size odd aligned =
    let low : bit_and w 1 ≡ 1 = omega (arith, low_bit w) in
    rw low (bit_or-swap 3 size ∙ bit_or-tag size 3 aligned (omega arith))

pub or_one_of_odd : (w : ℕ) → w % 2 ≡ 1 → bit_or w 1 ≡ w
or_one_of_odd w odd = omega (arith, or_lowest w 1, bit_or-zero (w / 2))

-- A request becomes a multiple of 8, large enough for a chunk and for the request with its tag word.
pub request2size_bounds :
    (req : ℕ)
    → req < 4294967284
    → (request2size req % 8 ≡ 0)
      × (16 ≤ request2size req)
      × (req + 4 ≤ request2size req)
      × (request2size req ≤ req + 16)
unfolding request2size
request2size_bounds req small = ground (arith, size_of-eq (u32 (req + 11)))

-- The mask of whole pages.
pub page_part : (w : ℕ) → w < 4294967296 → bit_and w 0xFFFFF000 ≡ w / 4096 * 4096
page_part w small =
    let parts : shl 12 (w / 4096) + w % 4096 ≡ w = omega arith in
    let whole : shl 20 0 + w / 4096 ≡ w / 4096 = omega arith in
    let high =
      subst (λ q. bit_and q (ones 20) ≡ w / 4096) whole
        (bit_and-ones 20 0 (w / 4096) (omega arith)) in
    let masked =
      subst (λ x. bit_and x 0xFFFFF000 ≡ shl 12 (bit_and (w / 4096) (ones 20))) parts
        (bit_and-shl 12 (w / 4096) (w % 4096) (ones 20) (omega arith)) in
    omega (arith, masked, high)

-- The first tag set.
pub or_one : (w : ℕ) → bit_or w 1 ≡ w / 2 * 2 + 1
or_one w = omega (arith, or_lowest w 1, bit_or-zero (w / 2))
