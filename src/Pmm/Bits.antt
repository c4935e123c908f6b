-- ===== src/Pmm/Bits.antt =====
-- Single bits of the bitmap: `pmm_set_bit`, `pmm_clear_bit` and `pmm_get_bit` as a map from pages
-- to Booleans.
use just_kernel.Base.{
  ℕ, ◌/◌, ◌%◌, ◌<◌, ◌≡◌, refl, Bool, true, false, not, ◌&&◌, ltb, ◌==◌, if◌then◌else◌, arith,
  bit_and, bit_or, bit_xor, passes_below, passes_below_lem,
}
use just_kernel.Pmm.{mask, pmm_set_bit, pmm_clear_bit, pmm_get_bit}

-- The page is free: its bit is clear.
abbrev pub is_free : (ℕ → ℕ) → ℕ → Bool
is_free bitmap page = pmm_get_bit page bitmap == 0

-- Every cell of the array is a `uint8_t`.
abbrev pub IsBytes : (ℕ → ℕ) → Type 0
IsBytes bitmap = (i : ℕ) → bitmap i < 256

same : Bool → Bool → Bool
same a b = if a then b else not b

same_sound : (a b : Bool) → same a b ≡ true → a ≡ b
unfolding same
same_sound a b h = ground arith

set_test : ℕ → ℕ → ℕ → Bool
unfolding same
set_test x j k =
    ltb (bit_or x (mask j)) 256
    && same (bit_and (bit_or x (mask j)) (mask k) == 0)
        (if j == k then false else bit_and x (mask k) == 0)

clear_test : ℕ → ℕ → ℕ → Bool
unfolding same
clear_test x j k =
    ltb (bit_and x (bit_xor 255 (mask j))) 256
    && same (bit_and (bit_and x (bit_xor 255 (mask j))) (mask k) == 0)
        (if j == k then true else bit_and x (mask k) == 0)

table : (ℕ → ℕ → ℕ → Bool) → Bool
table test = passes_below (λ x. passes_below (λ j. passes_below (λ k. test x j k) 8) 8) 256

table_sound :
    (test : ℕ → ℕ → ℕ → Bool)
    → table test ≡ true
    → (x j k : ℕ) → x < 256
    → j < 8
    → k < 8
    → test x j k ≡ true
unfolding table
table_sound test h x j k hx hj hk =
    let at_byte =
      passes_below_lem (λ x. passes_below (λ j. passes_below (λ k. test x j k) 8) 8) 256 x h hx in
    let at_mask = passes_below_lem (λ j. passes_below (λ k. test x j k) 8) 8 j at_byte hj in
    passes_below_lem (λ k. test x j k) 8 k at_mask hk

set_table : table set_test ≡ true
unfolding table set_test passes_below
set_table = refl

clear_table : table clear_test ≡ true
unfolding table clear_test passes_below
clear_table = refl

module _ (bitmap : ℕ → ℕ) (bytes : IsBytes bitmap) (p q : ℕ) where
  set_bit_test : set_test (bitmap (p / 8)) (p % 8) (q % 8) ≡ true
  set_bit_test =
      table_sound set_test set_table (bitmap (p / 8)) (p % 8) (q % 8) (bytes (p / 8)) (omega arith)
        (omega arith)

  clear_bit_test : clear_test (bitmap (p / 8)) (p % 8) (q % 8) ≡ true
  clear_bit_test =
      table_sound clear_test clear_table (bitmap (p / 8)) (p % 8) (q % 8) (bytes (p / 8))
        (omega arith) (omega arith)

  -- Setting a bit takes that page and no other.
  pub is_free-set_bit :
      is_free (pmm_set_bit p bitmap) q ≡ (if p == q then false else is_free bitmap q)
  unfolding pmm_set_bit pmm_get_bit set_test same
  is_free-set_bit = ground (arith, set_bit_test)

  -- Clearing a bit frees that page and no other.
  pub is_free-clear_bit :
      is_free (pmm_clear_bit p bitmap) q ≡ (if p == q then true else is_free bitmap q)
  unfolding pmm_clear_bit pmm_get_bit clear_test same
  is_free-clear_bit = ground (arith, clear_bit_test)

pub set_bit-IsBytes : (bitmap : ℕ → ℕ) (p : ℕ) → IsBytes bitmap → IsBytes (pmm_set_bit p bitmap)
unfolding pmm_set_bit set_test
set_bit-IsBytes bitmap p bytes i = ground (arith, set_bit_test bitmap bytes p p, bytes i)

pub clear_bit-IsBytes : (bitmap : ℕ → ℕ) (p : ℕ) → IsBytes bitmap → IsBytes (pmm_clear_bit p bitmap)
unfolding pmm_clear_bit clear_test
clear_bit-IsBytes bitmap p bytes i = ground (arith, clear_bit_test bitmap bytes p p, bytes i)

full_table : passes_below (λ k. not (bit_and 255 (mask k) == 0)) 8 ≡ true
unfolding passes_below
full_table = refl

pub full_byte : (k : ℕ) → k < 8 → (bit_and 255 (mask k) == 0) ≡ false
full_byte k h =
    ground (arith, passes_below_lem (λ k. not (bit_and 255 (mask k) == 0)) 8 k full_table h)
