-- ===== src/Stdio/Unknown.antt =====
-- The conversions that _vprintf of src/klibc/stdio.c does not know.
use just_kernel.Base.{
  ℕ, zero, suc, ◌+◌, ◌<◌, ◌≡◌, ◌≢◌, refl, sym, subst, ◌∙◌, ◌⊎◌, inl, inr, Bool, true, false, not,
  ◌&&◌, ◌||◌, some, none, leb, ◌==◌, u32, sub32, arith,
}
use just_kernel.Klibc.{Memory}
use just_kernel.Stdio.{
  Printing, put, read_width, is_number, is_symbol, convert, vprintf_loop, vprintf,
}
use just_kernel.Stdio.Pieces.{vprintf_loop-plain}

-- Neither a conversion nor a part of a width.
abbrev pub is_unknown : ℕ → Bool
is_unknown c =
    not (is_number c || (c == 115) || (c == 99))
    && not (is_symbol c)
    && not (c == 45)
    && not (leb 49 c && leb c 57)

read_width-cases :
    (fuel c format num : ℕ) (mem : Memory)
    → (leb 49 c && leb c 57) ≡ false
    → (read_width fuel c format num mem ≡ none)
      ⊎ (read_width fuel c format num mem ≡ some (c, format, num))
unfolding read_width
read_width-cases zero c format num mem stop = inl refl
read_width-cases (suc fuel) c format num mem stop = inr (rw stop refl)

module _ (buf null_text : ℕ) where
  -- Such a byte right behind the percent sign leads from `back` to `back`.
  convert-again :
      (fuel c format num sym_char : ℕ) (pad : Bool) (s : Printing)
      → is_unknown c ≡ true
      → s.memory (sub32 format 2) ≡ 37
      → ((sym_char' : ℕ)
          → (pad' : Bool) → convert buf null_text fuel c format 0 sym_char' pad' s ≡ none)
      → convert buf null_text (suc fuel) c format num sym_char pad s ≡ none
  unfolding convert
  convert-again fuel c format num sym_char pad s unknown percent again =
      let known : (is_number c || (c == 115) || (c == 99)) ≡ false = ground arith in
      let no_symbol : is_symbol c ≡ false = ground arith in
      let no_pad : (c == 45) ≡ false = ground arith in
      let no_digit : (leb 49 c && leb c 57) ≡ false = ground arith in
      elim (read_width-cases fuel c format 0 s.memory no_digit) [
        | inl short ↦ rw (known, percent, no_symbol, no_pad, short) refl
        | inr stopped ↦ rw (known, percent, no_symbol, no_pad, stopped) (again _ _)
      ]

  convert-unknown :
      (fuel c format num sym_char : ℕ) (pad : Bool) (s : Printing)
      → is_unknown c ≡ true
      → s.memory (sub32 format 2) ≡ 37
      → convert buf null_text fuel c format num sym_char pad s ≡ none
  unfolding convert
  convert-unknown zero c format num sym_char pad s unknown percent = refl
  convert-unknown (suc fuel) c format num sym_char pad s unknown percent =
      convert-again fuel c format num sym_char pad s unknown percent
        (λ sym_char' pad'. convert-unknown fuel c format 0 sym_char' pad' s unknown percent)

  -- The bytes of the format before the first percent sign, `n` of them.
  vprintf_loop-unknown :
      (fuel n f : ℕ) (s : Printing)
      → ((i : ℕ) → i < n → (s.memory (f + i) ≢ 0) × (s.memory (f + i) ≢ 37))
      → s.memory (f + n) ≡ 37
      → is_unknown (s.memory (f + n + 1)) ≡ true
      → f + n + 2 < 4294967296
      → vprintf_loop buf null_text fuel f s ≡ none
  unfolding vprintf_loop
  vprintf_loop-unknown zero n f s text percent unknown fits = refl
  vprintf_loop-unknown (suc fuel) zero f s text percent unknown fits =
      let at : f + zero ≡ f = omega arith in
      let here : s.memory f ≡ 37 = subst (λ q. s.memory q ≡ 37) at percent in
      let unknown' : is_unknown (s.memory (f + 1)) ≡ true =
        subst (λ q. is_unknown (s.memory (q + 1)) ≡ true) at unknown in
      let next : u32 (f + 1) ≡ f + 1 = omega arith in
      let behind : u32 (f + 2) ≡ f + 2 = omega arith in
      let back : sub32 (f + 2) 2 ≡ f = omega arith in
      let stuck =
        convert-unknown fuel (s.memory (f + 1)) (f + 2) 0 32 false s unknown'
          (subst (λ q. s.memory q ≡ 37) (sym back) here) in
      rw (here, next, behind, stuck) refl
  vprintf_loop-unknown (suc fuel) (suc n) f s text percent unknown fits =
      let at : f + suc n ≡ f + 1 + n = omega arith in
      let start : f + 0 ≡ f = omega arith in
      let (nonzero, ordinary) : (s.memory f ≢ 0) × (s.memory f ≢ 37) =
        subst (λ q. (s.memory q ≢ 0) × (s.memory q ≢ 37)) start (text 0 (omega arith)) in
      vprintf_loop-plain buf null_text fuel f (s.memory f) s refl nonzero ordinary (omega arith)
      ∙ vprintf_loop-unknown fuel n (f + 1) (put (s.memory f) s)
          (λ i below.
            let there : f + suc i ≡ f + 1 + i = omega arith in
            subst (λ q. (s.memory q ≢ 0) × (s.memory q ≢ 37)) there (text (suc i) (omega arith)))
          (subst (λ q. s.memory q ≡ 37) at percent)
          (subst (λ q. is_unknown (s.memory (q + 1)) ≡ true) at unknown) (omega arith)

-- Where the first percent sign of a format is followed by a byte that is no conversion and begins no
-- width, a second percent sign for one, _vprintf never ends, whatever the arguments: no fuel is enough.
pub vprintf-unknown :
    (buf null_text fuel n f : ℕ) (s : Printing)
    → ((i : ℕ) → i < n → (s.memory (f + i) ≢ 0) × (s.memory (f + i) ≢ 37))
    → s.memory (f + n) ≡ 37
    → is_unknown (s.memory (f + n + 1)) ≡ true
    → f + n + 2 < 4294967296
    → vprintf buf null_text fuel true f s ≡ none
unfolding vprintf
vprintf-unknown buf null_text fuel n f s = vprintf_loop-unknown buf null_text fuel n f s
