-- ===== src/Pmm/Ranges.antt =====
-- The loops over a range of pages: `set_bits`, `clear_bits` and `range_free` against the pages of
-- the range, and the number of free pages.
use just_kernel.Base.{
  ℕ, zero, suc, ◌+◌, ◌-◌, ◌≤◌, ◌<◌, ◌≡◌, refl, Bool, true, false, ◌&&◌, ltb, leb, if◌then◌else◌,
  arith, u32,
}
use just_kernel.Pmm.{pmm_set_bit, pmm_clear_bit, set_bits, clear_bits, range_free}
use just_kernel.Pmm.Bits.{
  is_free, IsBytes, is_free-set_bit, is_free-clear_bit, set_bit-IsBytes, clear_bit-IsBytes,
}

-- `q` is one of the `n` pages from `page` on.
abbrev pub in_range : (page n q : ℕ) → Bool
in_range page n q = leb page q && ltb q (page + n)

pub set_bits-IsBytes :
    (n page : ℕ) (bitmap : ℕ → ℕ) → IsBytes bitmap → IsBytes (set_bits n page bitmap)
unfolding set_bits
set_bits-IsBytes zero page bitmap bytes = bytes
set_bits-IsBytes (suc n) page bitmap bytes =
    set_bits-IsBytes n (page + 1) (pmm_set_bit (u32 page) bitmap)
      (set_bit-IsBytes bitmap (u32 page) bytes)

pub clear_bits-IsBytes :
    (n page : ℕ) (bitmap : ℕ → ℕ) → IsBytes bitmap → IsBytes (clear_bits n page bitmap)
unfolding clear_bits
clear_bits-IsBytes zero page bitmap bytes = bytes
clear_bits-IsBytes (suc n) page bitmap bytes =
    clear_bits-IsBytes n (page + 1) (pmm_clear_bit (u32 page) bitmap)
      (clear_bit-IsBytes bitmap (u32 page) bytes)

-- A loop that does not wrap takes, or frees, exactly the pages of its range.
pub is_free-set_bits :
    (n page : ℕ) (bitmap : ℕ → ℕ) (q : ℕ)
    → IsBytes bitmap
    → page + n ≤ 4294967296
    → is_free (set_bits n page bitmap) q ≡ (if in_range page n q then false else is_free bitmap q)
unfolding set_bits
is_free-set_bits zero page bitmap q bytes h = ground arith
is_free-set_bits (suc n) page bitmap q bytes h = ground (
  arith,
  is_free-set_bits n (page + 1) (pmm_set_bit (u32 page) bitmap) q
      (set_bit-IsBytes bitmap (u32 page) bytes) (omega arith),
  is_free-set_bit bitmap bytes (u32 page) q,
)

pub is_free-clear_bits :
    (n page : ℕ) (bitmap : ℕ → ℕ) (q : ℕ)
    → IsBytes bitmap
    → page + n ≤ 4294967296
    → is_free (clear_bits n page bitmap) q ≡ (if in_range page n q then true else is_free bitmap q)
unfolding clear_bits
is_free-clear_bits zero page bitmap q bytes h = ground arith
is_free-clear_bits (suc n) page bitmap q bytes h = ground (
  arith,
  is_free-clear_bits n (page + 1) (pmm_clear_bit (u32 page) bitmap) q
      (clear_bit-IsBytes bitmap (u32 page) bytes) (omega arith),
  is_free-clear_bit bitmap bytes (u32 page) q,
)

-- Every page of the range is free.
abbrev pub AllFree : (ℕ → ℕ) → (page n : ℕ) → Type 0
AllFree bitmap page n = (q : ℕ) → page ≤ q → q < page + n → is_free bitmap q ≡ true

pub range_free-AllFree :
    (n page : ℕ) (bitmap : ℕ → ℕ)
    → page + n ≤ 4294967296
    → range_free n page bitmap ≡ true
    → AllFree bitmap page n
unfolding range_free
range_free-AllFree zero page bitmap h e q lo hi = absurd (omega arith)
range_free-AllFree (suc n) page bitmap h e q lo hi =
    ground (arith, range_free-AllFree n (page + 1) bitmap (omega arith) (ground arith) q)

pub AllFree-range_free :
    (n page : ℕ) (bitmap : ℕ → ℕ)
    → page + n ≤ 4294967296
    → AllFree bitmap page n
    → range_free n page bitmap ≡ true
unfolding range_free
AllFree-range_free zero page bitmap h all = refl
AllFree-range_free (suc n) page bitmap h all = ground (
  arith,
  all page,
  AllFree-range_free n (page + 1) bitmap (omega arith)
      (λ q lo hi. all q (omega arith) (omega arith)),
)

-- The number of free pages among the first `n`.
unfoldable pub count_free : ℕ → (ℕ → ℕ) → ℕ
count_free zero bitmap = 0
count_free (suc n) bitmap = count_free n bitmap + (if is_free bitmap n then 1 else 0)

-- The pages of a range that lie below `m`.
abbrev pub below : (m page n : ℕ) → ℕ
below m page n = (m - page) - (m - (page + n))

pub count_free-range :
    (m : ℕ) (before after : ℕ → ℕ) (page n : ℕ)
    → ((q : ℕ) → is_free after q ≡ (if in_range page n q then false else is_free before q))
    → AllFree before page n
    → count_free m after + below m page n ≡ count_free m before
unfolding count_free
count_free-range zero before after page n h all = omega arith
count_free-range (suc m) before after page n h all =
    ground (arith, h m, all m, count_free-range m before after page n h all)

pub count_free-le : (m : ℕ) (bitmap : ℕ → ℕ) → count_free m bitmap ≤ m
unfolding count_free
count_free-le zero bitmap = omega arith
count_free-le (suc m) bitmap = ground (arith, count_free-le m bitmap)
