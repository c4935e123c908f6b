-- ===== src/Klibc/ReadBack.antt =====
-- Reading a printed number back: atou of src/klibc/string.c.
use just_kernel.Base.{
  ℕ, zero, suc, ◌+◌, ◌*◌, ◌-◌, ◌≤◌, ◌<◌, ◌≡◌, refl, sym, subst, ◌∙◌, true, false, some, ltb, ◌==◌,
  u32, sub32, arith,
}
use just_kernel.Klibc.{Memory}
use just_kernel.Klibc.Numbers.{utoa, atou_loop, atou, itoa}
use just_kernel.Klibc.Digits.{digit, left_of, digit-left_of, digit-bounded, left_of-le}
use just_kernel.Klibc.Printed.{IsPrinted, utoa-IsPrinted, itoa-IsPrinted}

atou_loop-digit :
    (fuel str result d : ℕ) (mem : Memory)
    → mem str ≡ d + 48
    → d < 10
    → result * 10 + d < 4294967296
    → str + 1 < 4294967296
    → atou_loop (suc fuel) str result mem ≡ atou_loop fuel (str + 1) (result * 10 + d) mem
unfolding atou_loop
atou_loop-digit fuel str result d mem char low small fits =
    let test : (d + 48 == 0) ≡ false = ground arith in
    let ascii : ltb (d + 48) 128 ≡ true = ground arith in
    let value : u32 (u32 (result * 10) + sub32 (d + 48) 48) ≡ result * 10 + d = omega arith in
    let next : u32 (str + 1) ≡ str + 1 = omega arith in
    rw (char, test, ascii, value, next, atou_loop) refl

atou_loop-end :
    (fuel str result : ℕ) (mem : Memory)
    → mem str ≡ 0
    → atou_loop (suc fuel) str result mem ≡ some result
unfolding atou_loop
atou_loop-end fuel str result mem end = rw end refl

-- atou reads the digits that are left, high ones first.
pub atou_loop-IsPrinted :
    (fuel j k : ℕ) (mem : Memory) (str n len : ℕ)
    → IsPrinted mem str n len
    → k + j ≡ len
    → j < fuel
    → n < 4294967296
    → str + len < 4294967295
    → atou_loop fuel (str + k) (left_of n j) mem ≡ some n
unfolding left_of
atou_loop-IsPrinted zero j k mem str n len printed left enough small fits = absurd (omega arith)
atou_loop-IsPrinted (suc fuel) zero k mem str n len printed left enough small fits =
    let at : str + len ≡ str + k = omega arith in
    atou_loop-end fuel (str + k) n mem (subst (λ q. mem q ≡ 0) at printed.end)
atou_loop-IsPrinted (suc fuel) (suc j) k mem str n len printed left enough small fits =
    let place : len - 1 - k ≡ j = omega arith in
    let char : mem (str + k) ≡ digit n j + 48 =
      subst (λ q. mem (str + k) ≡ digit n q + 48) place (printed.digits k (omega arith)) in
    let value = digit-left_of n j in
    let low = digit-bounded n j in
    let le = left_of-le n j in
    let next : str + k + 1 ≡ str + (k + 1) = omega arith in
    let rest =
      atou_loop-IsPrinted fuel j (k + 1) mem str n len printed (omega arith) (omega arith) small
        fits in
    atou_loop-digit fuel (str + k) (left_of n (suc j)) (digit n j) mem char low (omega arith)
      (omega arith)
    ∙ rw (next, sym value) rest

pub atou-IsPrinted :
    (fuel : ℕ) (mem : Memory) (str n len : ℕ)
    → IsPrinted mem str n len
    → len < fuel
    → n < 4294967296
    → str + len < 4294967295
    → atou fuel str mem ≡ some n
unfolding atou
atou-IsPrinted fuel mem str n len printed enough small fits =
    let start : str + 0 ≡ str = omega arith in
    subst (λ q. atou_loop fuel q 0 mem ≡ some n) start
      (subst (λ r. atou_loop fuel (str + 0) r mem ≡ some n) printed.whole
        (atou_loop-IsPrinted fuel len 0 mem str n len printed (omega arith) enough small fits))

-- A 32-bit number that utoa or itoa has printed to a place that ends before the last address of the
-- address space is the number that atou reads there; the conversions return, with the fuel that reverse
-- and atou need.
pub atou-itoa :
    (fuel n str : ℕ) (mem : Memory)
    → n < 4294967296
    → str + 34 < 4294967295
    → 34 ≤ fuel
    → ((mem' : Memory) × (utoa fuel n str mem ≡ some mem') × (atou fuel str mem' ≡ some n))
      × ((mem' : Memory) × (itoa n str mem ≡ some mem') × (atou fuel str mem' ≡ some n))
atou-itoa fuel n str mem small fits enough =
    let (mem1, len1, ran1, printed1) =
      utoa-IsPrinted fuel n str mem small (omega arith) (omega arith) in
    let (mem2, len2, ran2, printed2, _, _) = itoa-IsPrinted n str mem small fits in
    let short1 : len1 ≤ 33 = printed1.short in
    let short2 : len2 ≤ 33 = printed2.short in
    (
      (mem1, ran1, atou-IsPrinted fuel mem1 str n len1 printed1 (omega arith) small (omega arith)),
      (mem2, ran2, atou-IsPrinted fuel mem2 str n len2 printed2 (omega arith) small (omega arith)),
    )
