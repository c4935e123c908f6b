-- ===== src/Samples.antt =====
-- States that the tests of several components share.
use just_kernel.Base.{ℕ, zero, suc, ◌+◌, ◌%◌, ◌≤◌, ◌≡◌, refl, false, ◌==◌, if◌then◌else◌, arith}
use just_kernel.Pmm.{Pmm, pmm_get_bit}
use just_kernel.Pmm.Bits.{is_free, IsBytes, full_byte}
use just_kernel.Pmm.Ranges.{count_free}
use just_kernel.Pmm.Alloc.{WellFormed}

-- Pages 9 to 11 and 13 to 15 are free.
abbrev pub small : Pmm
small = record {
  bitmap = λ i. if i == 1 then 0x11 else 0xff;
  total_memory = 0x6000;
  used_memory = 0;
  available_memory = 0x6000;
}

pub small-IsBytes : IsBytes small.bitmap
small-IsBytes i = ground arith

pub taken_above : (q : ℕ) → 16 ≤ q → is_free small.bitmap q ≡ false
unfolding pmm_get_bit
taken_above q h = ground (arith, full_byte (q % 8) (omega arith))

pub small-WellFormed : WellFormed small
unfolding pmm_get_bit
small-WellFormed = record {
  bytes = small-IsBytes;
  zero_taken = refl;
  used = omega arith;
  available = omega arith;
}

-- The count over all pages is the count over the first 16.
pub count_small : (n : ℕ) → count_free (n + 16) small.bitmap ≡ 6
unfolding count_free pmm_get_bit
count_small zero = refl
count_small (suc n) =
    let e : suc n + 16 ≡ suc (n + 16) = omega arith in
    rw e (ground (arith, count_small n, taken_above (n + 16) (omega arith)))
