-- ===== src/Base/Bits.antt =====
-- `bit_and` and `bit_or` at variables: masks of low ones, shifted masks, and the sum of values that
-- share no bit.
use mathlib.Core.Path.{◌≡◌, refl, sym, ◌∙◌}
use native.Mathlib.Omega.{arith}
use Prim.Native.Nat.{
  ℕ, zero, suc, ◌+◌, ◌-◌, ◌*◌, ◌/◌, ◌%◌, ◌≤◌, ◌<◌, min, max, bit_and, bit_or, digits,
  bit_and-bitwise, bit_or-bitwise,
}

-- The recursion that the native operations stand for, on fuel: `rest` is the value when the first
-- number is used up, and `digit` joins two binary digits. Spare fuel changes nothing.
module _ (rest : ℕ → ℕ) (digit : ℕ → ℕ → ℕ) where
  abbrev bitwise : (fuel x y : ℕ) → ℕ
  bitwise fuel x y = digits rest digit fuel x y

  spare_fuel : (k spare x y : ℕ) → x ≤ k → bitwise (k + spare) x y ≡ bitwise k x y
  spare_fuel k spare zero y h = on_zero (k + spare) k
    where
      on_zero : (m n : ℕ) → bitwise m zero y ≡ bitwise n zero y
      on_zero zero zero = refl
      on_zero zero (suc n) = refl
      on_zero (suc m) zero = refl
      on_zero (suc m) (suc n) = refl
  spare_fuel zero spare (suc x) y h = absurd (omega arith)
  spare_fuel (suc k) spare (suc x) y h =
      let out : suc k + spare ≡ suc (k + spare) = omega arith in
      rw out (rw (spare_fuel k spare (suc x / 2) (y / 2) (omega arith)))

  -- The digits above the lowest, on as much fuel as they need.
  upper : (x y : ℕ) → bitwise x (suc x / 2) (y / 2) ≡ bitwise (suc x / 2) (suc x / 2) (y / 2)
  upper x y =
      let split : suc x / 2 + (x - suc x / 2) ≡ x = omega arith in
      rw split at (spare_fuel (suc x / 2) (x - suc x / 2) (suc x / 2) (y / 2) (omega arith))

-- `0 & b`, `0 | b`, and the lowest digit of each operation.
pub zero-bit_and : (b : ℕ) → bit_and 0 b ≡ 0
zero-bit_and = bit_and-bitwise 0

pub zero-bit_or : (b : ℕ) → bit_or 0 b ≡ b
zero-bit_or = bit_or-bitwise 0

pub and_lowest : (x y : ℕ) → bit_and x y ≡ 2 * bit_and (x / 2) (y / 2) + min (x % 2) (y % 2)
and_lowest zero y = omega (arith, zero-bit_and (y / 2), zero-bit_and y)
and_lowest (suc x) y =
    let whole = bit_and-bitwise (suc x) y in
    let half = upper (λ _. zero) min x y ∙ sym (bit_and-bitwise (suc x / 2) (y / 2)) in
    omega (arith, whole, half)

pub or_lowest : (x y : ℕ) → bit_or x y ≡ 2 * bit_or (x / 2) (y / 2) + max (x % 2) (y % 2)
or_lowest zero y = omega (arith, zero-bit_or (y / 2), zero-bit_or y)
or_lowest (suc x) y =
    let whole = bit_or-bitwise (suc x) y in
    let half = upper (λ b. b) max x y ∙ sym (bit_or-bitwise (suc x / 2) (y / 2)) in
    omega (arith, whole, half)

-- `a << k`, and the mask of `k` ones, by doubling.
abbrev pub shl : ℕ → ℕ → ℕ
shl zero a = a
shl (suc k) a = 2 * shl k a

abbrev pub ones : ℕ → ℕ
ones zero = 0
ones (suc k) = 2 * ones k + 1

-- `a & 0` and `a | 0`, for all numbers below a bound.
zero_right : (bound a : ℕ) → a < bound → (bit_and a 0 ≡ 0) × (bit_or a 0 ≡ a)
zero_right zero a h = absurd (omega arith)
zero_right (suc bound) zero h = (zero-bit_and 0, zero-bit_or 0)
zero_right (suc bound) (suc a) h =
    let half = zero_right bound (suc a / 2) (omega arith) in
    (omega (arith, and_lowest (suc a) 0, half), omega (arith, or_lowest (suc a) 0, half))

pub bit_and-zero : (a : ℕ) → bit_and a 0 ≡ 0
bit_and-zero a = (zero_right (suc a) a (omega arith)).0

pub bit_or-zero : (a : ℕ) → bit_or a 0 ≡ a
bit_or-zero a = (zero_right (suc a) a (omega arith)).1

pub and_step_at :
    (a b a' b' : ℕ)
    → a / 2 ≡ a'
    → b / 2 ≡ b'
    → bit_and a b ≡ 2 * bit_and a' b' + min (a % 2) (b % 2)
and_step_at a b a' b' p q = rw (← p, ← q) (and_lowest a b)

or_step_at :
    (a b a' b' : ℕ) → a / 2 ≡ a' → b / 2 ≡ b' → bit_or a b ≡ 2 * bit_or a' b' + max (a % 2) (b % 2)
or_step_at a b a' b' p q = rw (← p, ← q) (or_lowest a b)

-- A mask of `k` ones keeps the low `k` bits.
pub bit_and-ones : (k q r : ℕ) → r < shl k 1 → bit_and (shl k q + r) (ones k) ≡ r
bit_and-ones zero q r h = omega (arith, bit_and-zero (q + r))
bit_and-ones (suc k) q r h = omega (
  arith,
  and_step_at (2 * shl k q + r) (2 * ones k + 1) (shl k q + r / 2) (ones k) (omega arith)
      (omega arith),
  bit_and-ones k q (r / 2) (omega arith),
)

-- A mask shifted by `k` drops the low `k` bits.
pub bit_and-shl :
    (k q r m : ℕ) → r < shl k 1 → bit_and (shl k q + r) (shl k m) ≡ shl k (bit_and q m)
bit_and-shl zero q r m h = let e : q + r ≡ q = omega arith in rw e
bit_and-shl (suc k) q r m h = omega (
  arith,
  and_step_at (2 * shl k q + r) (2 * shl k m) (shl k q + r / 2) (shl k m) (omega arith)
      (omega arith),
  bit_and-shl k q (r / 2) m (omega arith),
)

-- Values that share no bit are added.
pub bit_or-shl : (k q r : ℕ) → r < shl k 1 → bit_or (shl k q) r ≡ shl k q + r
bit_or-shl zero q r h = let e : r ≡ 0 = omega arith in rw e (omega (arith, bit_or-zero q))
bit_or-shl (suc k) q r h = omega (
  arith,
  or_step_at (2 * shl k q) r (shl k q) (r / 2) (omega arith) refl,
  bit_or-shl k q (r / 2) (omega arith),
)

-- `a | b` is `b | a`.
or_swap : (n a b : ℕ) → a ≤ n → b ≤ n → bit_or a b ≡ bit_or b a
or_swap zero zero zero ha hb = refl
or_swap zero zero (suc b) ha hb = absurd (omega arith)
or_swap zero (suc a) b ha hb = absurd (omega arith)
or_swap (suc n) a b ha hb =
    omega
      (arith, or_lowest a b, or_lowest b a, or_swap n (a / 2) (b / 2) (omega arith) (omega arith))

pub bit_or-swap : (a b : ℕ) → bit_or a b ≡ bit_or b a
bit_or-swap a b = or_swap (a + b) a b (omega arith) (omega arith)
