-- ===== src/Klibc/Printed.antt =====
-- The numbers that utoa and itoa of src/klibc/string.c print.
use just_kernel.Base.{
  ℕ, ◌⊎◌, ◌+◌, ◌-◌, ◌≤◌, ◌<◌, ◌≡◌, refl, sym, subst, ap, ◌∙◌, inl, inr, true, false, Option, none,
  some, ltb, leb, ◌==◌, if◌then◌else◌, Bool-cases, u32, sub32, arith,
}
use just_kernel.Klibc.{Memory, write, strlen}
use just_kernel.Klibc.Copy.{IsString, strlen-length}
use just_kernel.Klibc.Numbers.{
  reverse_loop, reverse, utoa_loop, utoa, vtoa_loop, vtoa_reverse, vtoa, itoa,
}
use just_kernel.Klibc.Digits.{
  digit, left_of, IsStored, utoa_loop-IsStored, write-IsStored, none_left, utoa_loop-done,
  vtoa_loop-Stores,
}
use just_kernel.Klibc.Turned.{turned, vtoa_reverse-turned, reverse_loop-vtoa_reverse}

-- The decimal number `n` stands at `str`, the high digit first.
pub record IsPrinted (mem : Memory) (str n len : ℕ) : Type 0 where
  pub digits : (k : ℕ) → k < len → mem (str + k) ≡ digit n (len - 1 - k) + 48
  pub end : mem (str + len) ≡ 0
  pub whole : left_of n len ≡ 0
  pub some_digit : 0 < len
  pub short : len ≤ 33

-- Stored digits with a terminator make a string, and turned round they are the number.
stored-IsString :
    (mem mem' : Memory) (str n len : ℕ)
    → IsStored mem mem' str n len
    → str + len < 4294967295
    → IsString (write (str + len) 0 mem') str len
stored-IsString mem mem' str n len stored fits = record {
  inside = λ i below. ground (arith, stored.digits i below);
  end = ground arith;
  fits = fits;
}

turned-IsPrinted :
    (mem mem' mem2 : Memory) (str n len : ℕ)
    → IsStored mem mem' str n len
    → 0 < len
    → len ≤ 33
    → ((x : ℕ) → mem2 x ≡ write (str + len) 0 mem' (turned str (str + len - 1) x))
    → IsPrinted mem2 str n len
turned-IsPrinted mem mem' mem2 str n len stored positive short same = record {
  digits = λ k below.
      let from : turned str (str + len - 1) (str + k) ≡ str + (len - 1 - k) = ground arith in
      let inside : (str + (len - 1 - k) == str + len) ≡ false = ground arith in
      same (str + k) ∙ rw (from, inside) (stored.digits (len - 1 - k) (omega arith));
  end =
      let from : turned str (str + len - 1) (str + len) ≡ str + len = ground arith in
      same (str + len) ∙ rw from (ground arith);
  whole = stored.whole;
  some_digit = positive;
  short = short;
}

reverse-ran :
    (fuel str len : ℕ) (mem mem2 : Memory)
    → strlen fuel mem str ≡ some len
    → 0 < len
    → len < 4294967296
    → reverse_loop fuel str 0 (len - 1) mem ≡ some mem2
    → reverse fuel str mem ≡ some mem2
unfolding reverse
reverse-ran fuel str len mem mem2 length positive small ran =
    let test : ltb 0 len ≡ true = ground arith in
    let last : sub32 len 1 ≡ len - 1 = omega arith in rw (reverse, length, test, last) ran

-- reverse on stored digits.
reverse-IsPrinted :
    (fuel : ℕ) (mem mem' : Memory) (str n len : ℕ)
    → IsStored mem mem' str n len
    → 0 < len
    → len ≤ 33
    → len < fuel
    → str + len < 4294967295
    → (mem2 : Memory) × (reverse fuel str (write (str + len) 0 mem') ≡ some mem2)
      × IsPrinted mem2 str n len
reverse-IsPrinted fuel mem mem' str n len stored positive short enough fits =
    let string = stored-IsString mem mem' str n len stored fits in
    let length = strlen-length fuel len str (write (str + len) 0 mem') string enough in
    let (mem2, ran, same) =
      vtoa_reverse-turned fuel str (str + len - 1) (write (str + len) 0 mem') (omega arith)
        (omega arith) (omega arith) in
    let start : str + 0 ≡ str = omega arith in
    let end : str + (len - 1) ≡ str + len - 1 = omega arith in
    let indexed : reverse_loop fuel str 0 (len - 1) (write (str + len) 0 mem') ≡ some mem2 =
      reverse_loop-vtoa_reverse fuel str 0 (len - 1) (write (str + len) 0 mem') (omega arith)
        (omega arith)
      ∙ rw (start, end) ran in
    (
      mem2,
      reverse-ran fuel str len (write (str + len) 0 mem') mem2 length positive (omega arith)
          indexed,
      turned-IsPrinted mem mem' mem2 str n len stored positive short same,
    )

-- The loop of utoa, and the single digit of zero.
utoa-IsStored :
    (n str : ℕ) (mem : Memory)
    → n < 4294967296
    → str + 12 < 4294967295
    → (len : ℕ) × (mem' : Memory) × (utoa_loop 11 n
          (if n == 0 then 1 else 0)
          str
          (if n == 0 then write str 48 mem else mem)
        ≡ some (len, mem'))
      × (0 < len)
      × (len ≤ 10)
      × IsStored mem mem' str n len
utoa-IsStored n str mem small fits = elim (Bool-cases (n == 0)) [
  | inl zero_in ↦
      let empty : n ≡ 0 = ground arith in
      (
        1,
        write str 48 mem,
        rw zero_in (utoa_loop-done 10 n 1 str (write str 48 mem) empty),
        omega arith,
        omega arith,
        rw empty (
            write-IsStored mem (write str 48 mem) str 0 0
              (none_left (write str 48 mem) (str + 1) 0 refl)),
      )
  | inr more ↦
      let (len, mem', ran, short, positive, stored) =
        utoa_loop-IsStored 10 n 0 str mem (omega arith) (omega arith) in
      let start : str + 0 ≡ str = omega arith in
      let same : (0 + len, mem') ≡ (len, mem') = ap (λ (j : ℕ). (j, mem')) (omega arith) in
      (
        len,
        mem',
        rw more (ran ∙ ap some same),
        positive (ground arith),
        short,
        subst (λ q. IsStored mem mem' q n len) start stored,
      )
]

utoa-ran :
    (fuel n str len : ℕ) (mem mem1 mem2 : Memory)
    → utoa_loop 11 n (if n == 0 then 1 else 0) str (if n == 0 then write str 48 mem else mem)
      ≡ some (len, mem1)
    → str + len < 4294967296
    → reverse fuel str (write (str + len) 0 mem1) ≡ some mem2
    → utoa fuel n str mem ≡ some mem2
unfolding utoa
utoa-ran fuel n str len mem mem1 mem2 ran fits reversed =
    let at : u32 (str + len) ≡ str + len = omega arith in
    ap
      (λ (o : Option (ℕ × Memory)). elim o [
        | none ↦ none
        | some (i, m) ↦ reverse fuel str (write (u32 (str + i)) 0 m)
      ])
      ran
    ∙ subst (λ q. reverse fuel str (write q 0 mem1) ≡ some mem2) (sym at) reversed

-- utoa ends, and has printed its number.
pub utoa-IsPrinted :
    (fuel n str : ℕ) (mem : Memory)
    → n < 4294967296
    → str + 12 < 4294967295
    → 11 ≤ fuel
    → (mem' : Memory) × (len : ℕ) × (utoa fuel n str mem ≡ some mem') × IsPrinted mem' str n len
utoa-IsPrinted fuel n str mem small fits enough =
    let (len, mem1, ran, positive, short, stored) = utoa-IsStored n str mem small fits in
    let (mem2, reversed, printed) =
      reverse-IsPrinted fuel mem mem1 str n len stored positive (omega arith) (omega arith)
        (omega arith) in
    (mem2, len, utoa-ran fuel n str len mem mem1 mem2 ran (omega arith) reversed, printed)

itoa-ran :
    (n str ptr last : ℕ) (mem mem1 mem2 : Memory)
    → vtoa_loop 33 10 n str mem ≡ some (ptr, last, mem1)
    → last < 10
    → 0 < ptr
    → ptr < 4294967296
    → vtoa_reverse 33 str (ptr - 1) (write ptr 0 mem1) ≡ some mem2
    → itoa n str mem ≡ some mem2
unfolding itoa vtoa
itoa-ran n str ptr last mem mem1 mem2 ran small positive fits reversed =
    let plus : leb 0x80000000 last ≡ false = ground arith in
    let from : sub32 ptr 1 ≡ ptr - 1 = omega arith in rw (itoa, vtoa, ran, plus, from) reversed

turned-others :
    (mem mem' : Memory) (str n len x : ℕ)
    → IsStored mem mem' str n len
    → 0 < len
    → len ≤ 33
    → (x < str) ⊎ (str + 33 < x)
    → write (str + len) 0 mem' (turned str (str + len - 1) x) ≡ mem x
turned-others mem mem' str n len x stored positive short outside =
    let same : turned str (str + len - 1) x ≡ x = ground arith in
    let not_end : (x == str + len) ≡ false = ground arith in
    rw (same, not_end)
      (stored.others x (elim outside [ inl before ↦ inl before | inr behind ↦ inr (omega arith) ]))

-- So does itoa, which prints the number as one without sign.
pub itoa-IsPrinted :
    (n str : ℕ) (mem : Memory)
    → n < 4294967296
    → str + 34 < 4294967295
    → (mem' : Memory) × (len : ℕ) × (itoa n str mem ≡ some mem')
      × IsPrinted mem' str n len
      × ((len ≡ 1) ⊎ (0 < left_of n (len - 1)))
      × ((x : ℕ) → (x < str) ⊎ (str + 33 < x) → mem' x ≡ mem x)
itoa-IsPrinted n str mem small fits =
    let stores = vtoa_loop-Stores 32 n str mem (omega arith) (omega arith) in
    let len = stores.len in
    let positive : 0 < len = stores.positive in
    let short : len ≤ 33 = stores.short in
    let (mem2, reversed, same) =
      vtoa_reverse-turned 33 str (str + len - 1) (write (str + len) 0 stores.after) (omega arith)
        (omega arith) (omega arith) in
    (
      mem2,
      len,
      itoa-ran n str (str + len) stores.last mem stores.after mem2 stores.ran stores.small
          (omega arith) (omega arith) reversed,
      turned-IsPrinted mem stores.after mem2 str n len stores.stored positive short same,
      stores.lead,
      λ x outside.
          same x ∙ turned-others mem stores.after str n len x stores.stored positive short outside,
    )
