-- ===== src/Base/Flags.antt =====
-- Single bits of a word, and what `|` and `&` do to each.
use just_kernel.Base.Bits.{and_lowest, or_lowest, bit_and-zero, and_step_at, shl}
use mathlib.Core.Path.{◌≡◌}
use native.Mathlib.Omega.{arith}
use Prim.Native.Nat.{ℕ, zero, suc, ◌/◌, ◌%◌, min, max, bit_and, bit_or}

-- Bit `k` of `x`.
abbrev pub bit : (k x : ℕ) → ℕ
bit zero x = x % 2
bit (suc k) x = bit k (x / 2)

pub bit-or : (k x y : ℕ) → bit k (bit_or x y) ≡ max (bit k x) (bit k y)
bit-or zero x y = omega (arith, or_lowest x y)
bit-or (suc k) x y =
    let half : bit_or x y / 2 ≡ bit_or (x / 2) (y / 2) = omega (arith, or_lowest x y) in
    rw half (bit-or k (x / 2) (y / 2))

pub bit-and : (k x y : ℕ) → bit k (bit_and x y) ≡ min (bit k x) (bit k y)
bit-and zero x y = omega (arith, and_lowest x y)
bit-and (suc k) x y =
    let half : bit_and x y / 2 ≡ bit_and (x / 2) (y / 2) = omega (arith, and_lowest x y) in
    rw half (bit-and k (x / 2) (y / 2))

-- A mask of one bit.
pub bit_and-bit : (k x : ℕ) → bit_and x (shl k 1) ≡ shl k (bit k x)
bit_and-bit zero x = omega (arith, and_lowest x 1, bit_and-zero (x / 2))
bit_and-bit (suc k) x =
    omega (arith, and_step_at x (shl (suc k) 1) (x / 2) (shl k 1), bit_and-bit k (x / 2))
