-- ===== src/Base/Words.antt =====
-- Machine words: the moduli, the kernel's page size, and facts on bytes by table.
use just_kernel.Base.Tests.{if◌then◌else◌}
use mathlib.Core.Bool.{Bool, true, false}
use mathlib.Core.Path.{◌≡◌}
use native.Mathlib.Omega.{arith}
use Prim.Native.Nat.{ℕ, zero, suc, ◌+◌, ◌-◌, ◌%◌, ◌<◌}

-- `uint32_t` arithmetic: results are taken modulo 2 ^ 32, and a difference is taken after the
-- modulus is added.
abbrev pub u32 : ℕ → ℕ
u32 n = n % 4294967296

abbrev pub sub32 : ℕ → ℕ → ℕ
sub32 a b = (a + 4294967296 - b) % 4294967296

abbrev pub u16 : ℕ → ℕ
u16 n = n % 65536

abbrev pub u8 : ℕ → ℕ
u8 n = n % 256

abbrev pub page_size : ℕ
page_size = 4096

-- A test on small numbers, run on each number below `bound` from the largest down.
unfoldable pub passes_below : (test : ℕ → Bool) (bound : ℕ) → Bool
passes_below test zero = true
passes_below test (suc top) = if test top then passes_below test top else false

pub passes_below_lem :
    (test : ℕ → Bool) (bound k : ℕ) → passes_below test bound ≡ true → k < bound → test k ≡ true
unfolding passes_below
passes_below_lem test zero k passed below = absurd (omega arith)
passes_below_lem test (suc top) k passed below = ground (arith, passes_below_lem test top k)
