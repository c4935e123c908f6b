-- ===== src/Stdio/Output.antt =====
-- The output of _vprintf of src/klibc/stdio.c on a format of characters and numbers.
use just_kernel.Base.{
  ℕ, zero, suc, ◌+◌, ◌-◌, ◌≤◌, ◌<◌, ◌≡◌, refl, sym, subst, ◌∙◌, ◌⊎◌, inl, inr, true, some, List, [],
  ◌∷◌, ◌++◌, append-nil, append_assoc, arith,
}
use just_kernel.Klibc.{Memory}
use just_kernel.Klibc.Digits.{left_of}
use just_kernel.Klibc.Numbers.{itoa}
use just_kernel.Klibc.Printed.{IsPrinted, itoa-IsPrinted}
use just_kernel.Stdio.{Printing, put, put_string, vprintf_loop, vprintf}
use just_kernel.Stdio.Digits.{numeral, with_more, put_string-numeral}
use just_kernel.Stdio.Pieces.{
  Piece, plain, number, Formats, format_size, args_of, Rendered, Formats-same, vprintf_loop-end,
  vprintf_loop-plain, vprintf_loop-number,
}

module _ (buf null_text : ℕ) where
  -- itoa writes the digits to `buf`, and the loop over the string prints them.
  digits-IsPrinted :
      (fuel n : ℕ) (s : Printing)
      → n < 4294967296
      → buf + 34 < 4294967295
      → 34 ≤ fuel
      → (mem : Memory) × (len : ℕ) × (itoa n buf s.memory ≡ some mem)
        × ((rest : List ℕ)
            → put_string fuel buf (record s { args = rest; memory = mem })
              ≡ some (with_more (numeral n len) (record s { args = rest; memory = mem })))
        × IsPrinted mem buf n len
        × ((len ≡ 1) ⊎ (0 < left_of n (len - 1)))
        × ((x : ℕ) → (x < buf) ⊎ (buf + 33 < x) → mem x ≡ s.memory x)
  digits-IsPrinted fuel n s small fits enough =
      let (mem, len, ran, printed, lead, others) = itoa-IsPrinted n buf s.memory small fits in
      let start : buf + 0 ≡ buf = omega arith in
      let short : len ≤ 33 = printed.short in
      (
        mem,
        len,
        ran,
        λ rest.
            subst
              (λ p.
                put_string fuel p (record s { args = rest; memory = mem })
                ≡ some (with_more (numeral n len) (record s { args = rest; memory = mem })))
              start
              (put_string-numeral fuel len 0 (record s { args = rest; memory = mem }) buf n len
                printed (omega arith) (omega arith) (omega arith)),
        printed,
        lead,
        others,
      )

  vprintf_loop-Rendered :
      (fuel f : ℕ) (ps : List Piece) (s : Printing)
      → Formats s.memory f ps
      → s.args ≡ args_of ps
      → (f + format_size ps < buf) ⊎ (buf + 33 < f)
      → f + format_size ps < 4294967295
      → buf + 34 < 4294967295
      → format_size ps + 36 ≤ fuel
      → (s' : Printing) × (out : List ℕ) × (vprintf_loop buf null_text fuel f s ≡ some s')
        × (s'.printed ≡ s.printed ++ out)
        × Rendered ps out
  unfolding Formats format_size args_of Rendered
  vprintf_loop-Rendered zero f ps s formats args apart fits room enough = absurd (omega arith)
  vprintf_loop-Rendered (suc fuel) f [] s formats args apart fits room enough =
      (s, [], vprintf_loop-end buf null_text fuel f s formats, sym (append-nil s.printed), refl)
  vprintf_loop-Rendered (suc fuel) f (plain c ∷ ps) s (char, nonzero, ordinary, formats) args apart
        fits room enough =
      let (s', out, ran, printed, rendered) =
        vprintf_loop-Rendered fuel (f + 1) ps (put c s) formats args
          (elim apart [ inl before ↦ inl (omega arith) | inr behind ↦ inr (omega arith) ])
          (omega arith) room (omega arith) in
      (
        s',
        c ∷ out,
        vprintf_loop-plain buf null_text fuel f c s char nonzero ordinary (omega arith) ∙ ran,
        printed ∙ append_assoc s.printed (c ∷ []) out,
        (out, refl, rendered),
      )
  vprintf_loop-Rendered (suc zero) f (number n ∷ ps) s formats args apart fits room enough =
      absurd (omega arith)
  vprintf_loop-Rendered (suc (suc fuel)) f (number n ∷ ps) s (percent, letter, small, formats) args
        apart fits room enough =
      let (mem, len, converted, shown, digits, lead, others) =
        digits-IsPrinted fuel n s small room (omega arith) in
      let next = with_more (numeral n len) (record s { args = args_of ps; memory = mem }) in
      let kept =
        Formats-same s.memory mem (f + 2) ps
          (λ x low high.
            others x
              (elim apart [ inl before ↦ inl (omega arith) | inr behind ↦ inr (omega arith) ]))
          formats in
      let (s', out, ran, printed, rendered) =
        vprintf_loop-Rendered (suc fuel) (f + 2) ps next kept refl
          (elim apart [ inl before ↦ inl (omega arith) | inr behind ↦ inr (omega arith) ])
          (omega arith) room (omega arith) in
      (
        s',
        numeral n len ++ out,
        vprintf_loop-number buf null_text fuel f (s.memory (f + 1)) n (args_of ps) s next mem
              percent refl letter args converted (shown (args_of ps)) (omega arith)
            ∙ ran,
        printed ∙ append_assoc s.printed (numeral n len) out,
        (len, out, refl, digits.some_digit, digits.whole, lead, rendered),
      )

-- On a format of characters and of %d and %u, one for each argument, that the local array of _vprintf
-- does not overlap, _vprintf ends with fuel for the format and one number, and prints the characters as
-- they are and each argument by its decimal digits, as a number
-- without sign that does not begin with a zero, other than 0 itself.
pub vprintf-Rendered :
    (buf null_text fuel f : ℕ) (ps : List Piece) (s : Printing)
    → Formats s.memory f ps
    → s.args ≡ args_of ps
    → (f + format_size ps < buf) ⊎ (buf + 33 < f)
    → f + format_size ps < 4294967295
    → buf + 34 < 4294967295
    → format_size ps + 36 ≤ fuel
    → (s' : Printing) × (out : List ℕ) × (vprintf buf null_text fuel true f s ≡ some s')
      × (s'.printed ≡ s.printed ++ out)
      × Rendered ps out
unfolding vprintf
vprintf-Rendered buf null_text fuel f ps s = vprintf_loop-Rendered buf null_text fuel f ps s
