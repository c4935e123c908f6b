-- ===== src/Klibc/Digits.antt =====
-- The digits that the conversions of src/klibc/string.c write, the low one first, and their reversal.
use just_kernel.Base.{
  ℕ, zero, suc, ◌+◌, ◌*◌, ◌-◌, ◌/◌, ◌%◌, ◌≤◌, ◌<◌, ◌≡◌, refl, subst, ap, ◌∙◌, ◌⊎◌, inl, inr, true,
  false, some, ltb, ◌==◌, Bool-cases, u32, arith,
}
use just_kernel.Klibc.{Memory, write}
use just_kernel.Klibc.Numbers.{utoa_loop, vtoa_loop}

-- Digit `k` of `m`, and what is left of `m` behind its first `k` digits.
unfoldable pub digit : (m k : ℕ) → ℕ
digit m zero = m % 10
digit m (suc k) = digit (m / 10) k

unfoldable pub left_of : (m k : ℕ) → ℕ
left_of m zero = m
left_of m (suc k) = left_of (m / 10) k

pub digit-left_of : (m k : ℕ) → left_of m k ≡ left_of m (suc k) * 10 + digit m k
unfolding digit left_of
digit-left_of m zero = omega arith
digit-left_of m (suc k) = digit-left_of (m / 10) k

pub digit-bounded : (m k : ℕ) → digit m k < 10
unfolding digit
digit-bounded m zero = omega arith
digit-bounded m (suc k) = digit-bounded (m / 10) k

pub left_of-le : (m k : ℕ) → left_of m k ≤ m
unfolding left_of
left_of-le m zero = omega arith
left_of-le m (suc k) = omega (arith, left_of-le (m / 10) k)

-- The digits of `m` stand at `a` and on, and they are all of them; other bytes are as they were.
pub record IsStored (mem mem' : Memory) (a m len : ℕ) : Type 0 where
  pub digits : (k : ℕ) → k < len → mem' (a + k) ≡ digit m k + 48
  pub whole : left_of m len ≡ 0
  pub others : (x : ℕ) → (x < a) ⊎ (a + len ≤ x) → mem' x ≡ mem x

-- One digit more in front.
stored_digit :
    (mem mem' : Memory) (a m len k : ℕ)
    → IsStored (write a (m % 10 + 48) mem) mem' (a + 1) (m / 10) len
    → k < suc len
    → mem' (a + k) ≡ digit m k + 48
unfolding digit
stored_digit mem mem' a m len zero rest below =
    let at : a + zero ≡ a = omega arith in rw at (rest.others a (inl (omega arith)) ∙ ground arith)
stored_digit mem mem' a m len (suc k) rest below =
    let at : a + suc k ≡ a + 1 + k = omega arith in rw at (rest.digits k (omega arith))

pub write-IsStored :
    (mem mem' : Memory) (a m len : ℕ)
    → IsStored (write a (m % 10 + 48) mem) mem' (a + 1) (m / 10) len
    → IsStored mem mem' a m (suc len)
unfolding left_of
write-IsStored mem mem' a m len rest = record {
  digits = λ k. stored_digit mem mem' a m len k rest;
  whole = rest.whole;
  others = λ x outside. elim outside [
    | inl before ↦ rest.others x (inl (omega arith)) ∙ ground arith
    | inr behind ↦ rest.others x (inr (omega arith)) ∙ ground arith
  ];
}

-- A number below ten to the power of the rounds left ends within them.
abbrev pub power : ℕ → ℕ
power zero = 1
power (suc k) = 10 * power k

pub none_left : (mem : Memory) (a m : ℕ) → m ≡ 0 → IsStored mem mem a m 0
unfolding left_of
none_left mem a m empty = record {
  digits = λ k below. absurd (omega arith);
  whole = empty;
  others = λ x outside. refl;
}

pub utoa_loop-done :
    (rounds m i str : ℕ) (mem : Memory) → m ≡ 0 → utoa_loop (suc rounds) m i str mem ≡ some (i, mem)
unfolding utoa_loop
utoa_loop-done rounds m i str mem empty = rw empty refl

utoa_loop-next :
    (rounds m i str : ℕ) (mem : Memory)
    → 0 < m
    → str + i + 1 < 4294967296
    → utoa_loop (suc rounds) m i str mem
      ≡ utoa_loop rounds (m / 10) (i + 1) str (write (str + i) (m % 10 + 48) mem)
unfolding utoa_loop
utoa_loop-next rounds m i str mem more fits =
    let at : u32 (str + i) ≡ str + i = omega arith in
    let next : u32 (i + 1) ≡ i + 1 = omega arith in
    let test : (m == 0) ≡ false = ground arith in rw (test, at, next, utoa_loop) refl

-- The loop of utoa ends, and has stored the digits.
pub utoa_loop-IsStored :
    (rounds m i str : ℕ) (mem : Memory)
    → m < power rounds
    → str + i + rounds < 4294967296
    → (len : ℕ) × (mem' : Memory) × (utoa_loop (suc rounds) m i str mem ≡ some (i + len, mem'))
      × (len ≤ rounds)
      × (0 < m → 0 < len)
      × IsStored mem mem' (str + i) m len
utoa_loop-IsStored zero m i str mem small fits =
    let empty : m ≡ 0 = omega arith in
    let same : (i, mem) ≡ (i + 0, mem) = ap (λ (j : ℕ). (j, mem)) (omega arith) in
    (
      0,
      mem,
      utoa_loop-done zero m i str mem empty ∙ ap some same,
      omega arith,
      λ h. omega arith,
      none_left mem (str + i) m empty,
    )
utoa_loop-IsStored (suc rounds) m i str mem small fits = elim (Bool-cases (m == 0)) [
  | inl done ↦
      let empty : m ≡ 0 = ground arith in
      let same : (i, mem) ≡ (i + 0, mem) = ap (λ (j : ℕ). (j, mem)) (omega arith) in
      (
        0,
        mem,
        utoa_loop-done (suc rounds) m i str mem empty ∙ ap some same,
        omega arith,
        λ h. omega arith,
        none_left mem (str + i) m empty,
      )
  | inr more ↦
      let place : str + (i + 1) ≡ str + i + 1 = omega arith in
      let (len, mem', ran, short, positive, stored) =
        utoa_loop-IsStored rounds (m / 10) (i + 1) str (write (str + i) (m % 10 + 48) mem)
          (omega arith) (omega arith) in
      let same : (i + 1 + len, mem') ≡ (i + suc len, mem') =
        ap (λ (j : ℕ). (j, mem')) (omega arith) in
      (
        suc len,
        mem',
        utoa_loop-next (suc rounds) m i str mem (ground arith) (omega arith) ∙ ran ∙ ap some same,
        omega arith,
        λ h. omega arith,
        write-IsStored mem mem' (str + i) m len (
            subst (λ q. IsStored (write (str + i) (m % 10 + 48) mem) mem' q (m / 10) len) place
              stored),
      )
]

vtoa_loop-done :
    (rounds m ptr : ℕ) (mem : Memory)
    → m < 10
    → ptr + 1 < 4294967296
    → vtoa_loop (suc rounds) 10 m ptr mem ≡ some (ptr + 1, m, write ptr (m % 10 + 48) mem)
unfolding vtoa_loop
vtoa_loop-done rounds m ptr mem last fits =
    let test : (m / 10 == 0) ≡ true = ground arith in
    let low : ltb (m % 10) 10 ≡ true = ground arith in
    let next : u32 (ptr + 1) ≡ ptr + 1 = omega arith in rw (test, low, next) refl

vtoa_loop-next :
    (rounds m ptr : ℕ) (mem : Memory)
    → 10 ≤ m
    → ptr + 1 < 4294967296
    → vtoa_loop (suc rounds) 10 m ptr mem
      ≡ vtoa_loop rounds 10 (m / 10) (ptr + 1) (write ptr (m % 10 + 48) mem)
unfolding vtoa_loop
vtoa_loop-next rounds m ptr mem more fits =
    let test : (m / 10 == 0) ≡ false = ground arith in
    let low : ltb (m % 10) 10 ≡ true = ground arith in
    let next : u32 (ptr + 1) ≡ ptr + 1 = omega arith in rw (test, low, next, vtoa_loop) refl

-- What the loop of itoa comes to.
pub record Stores (rounds m ptr : ℕ) (mem : Memory) : Type 0 where
  pub len : ℕ
  pub last : ℕ
  pub after : Memory
  pub ran : vtoa_loop (suc rounds) 10 m ptr mem ≡ some (ptr + len, last, after)
  pub short : len ≤ suc rounds
  pub positive : 0 < len
  pub small : last < 10
  pub lead : (len ≡ 1) ⊎ (0 < left_of m (len - 1))
  pub stored : IsStored mem after ptr m len

last-Stores :
    (rounds m ptr : ℕ) (mem : Memory) → m < 10 → ptr + 1 < 4294967296 → Stores rounds m ptr mem
last-Stores rounds m ptr mem last fits = record {
  len = 1;
  last = m;
  after = write ptr (m % 10 + 48) mem;
  ran = vtoa_loop-done rounds m ptr mem last fits;
  short = omega arith;
  positive = omega arith;
  small = last;
  lead = inl refl;
  stored = write-IsStored mem _ ptr m 0 (none_left _ (ptr + 1) (m / 10) (omega arith));
}

-- With another digit behind it, a number does not begin with a zero.
next-lead :
    (m len : ℕ)
    → 10 ≤ m
    → 0 < len
    → (len ≡ 1) ⊎ (0 < left_of (m / 10) (len - 1))
    → 0 < left_of m (suc len - 1)
unfolding left_of
next-lead m len more positive lead = elim lead [
  | inl one ↦
      let place : 1 ≡ suc len - 1 = omega arith in
      let nonzero : 0 < m / 10 = omega arith in subst (λ q. 0 < left_of m q) place nonzero
  | inr rest ↦
      let place : suc (len - 1) ≡ suc len - 1 = omega arith in
      subst (λ q. 0 < left_of m q) place rest
]

next-Stores :
    (rounds m ptr : ℕ) (mem : Memory)
    → 10 ≤ m
    → ptr + 1 < 4294967296
    → Stores rounds (m / 10) (ptr + 1) (write ptr (m % 10 + 48) mem)
    → Stores (suc rounds) m ptr mem
next-Stores rounds m ptr mem more fits rest =
    let same : ptr + 1 + rest.len ≡ ptr + suc rest.len = omega arith in
    record {
      len = suc rest.len;
      last = rest.last;
      after = rest.after;
      ran =
          vtoa_loop-next (suc rounds) m ptr mem more fits
          ∙ rest.ran
          ∙ ap (λ (q : ℕ). some (q, rest.last, rest.after)) same;
      short = omega (arith, rest.short);
      positive = omega arith;
      small = rest.small;
      lead = inr (next-lead m rest.len more rest.positive rest.lead);
      stored = write-IsStored mem rest.after ptr m rest.len rest.stored;
    }

-- So does the loop of itoa, whose last value is a digit.
pub vtoa_loop-Stores :
    (rounds m ptr : ℕ) (mem : Memory)
    → m < power (suc rounds)
    → ptr + suc rounds < 4294967296
    → Stores rounds m ptr mem
vtoa_loop-Stores zero m ptr mem small fits = last-Stores zero m ptr mem (omega arith) (omega arith)
vtoa_loop-Stores (suc rounds) m ptr mem small fits = elim (Bool-cases (ltb m 10)) [
  | inl done ↦ last-Stores (suc rounds) m ptr mem (ground arith) (omega arith)
  | inr more ↦ next-Stores rounds m ptr mem (ground arith) (omega arith) (
      vtoa_loop-Stores rounds (m / 10) (ptr + 1) (write ptr (m % 10 + 48) mem) (omega arith)
        (omega arith))
]
