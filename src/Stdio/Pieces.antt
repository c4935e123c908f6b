-- ===== src/Stdio/Pieces.antt =====
-- Formats of characters and numbers without a width, and what _vprintf of src/klibc/stdio.c prints of them.
use just_kernel.Base.{
  ℕ, suc, ◌+◌, ◌-◌, ◌≤◌, ◌<◌, ◌≡◌, ◌≢◌, refl, ◌∙◌, ◌⊎◌, inl, inr, true, false, ◌||◌, some, List, [],
  ◌∷◌, ◌++◌, ◌==◌, u32, arith,
}
use just_kernel.Klibc.{Memory}
use just_kernel.Klibc.Digits.{left_of}
use just_kernel.Klibc.Numbers.{itoa}
use just_kernel.Stdio.{
  Printing, put, put_string, put_field, put_argument, take_argument, is_number, convert,
  vprintf_loop,
}
use just_kernel.Stdio.Digits.{numeral}

-- A character of the format, or a conversion with its argument.
pub data Piece : Type 0 where
  plain number : ℕ → Piece

-- The pieces stand at `f`, with the terminator behind them.
unfoldable pub Formats : Memory → (f : ℕ) → List Piece → Type 0
Formats mem f [] = mem f ≡ 0
Formats mem f (plain c ∷ ps) = (mem f ≡ c) × (c ≢ 0) × (c ≢ 37) × Formats mem (f + 1) ps
Formats mem f (number n ∷ ps) =
    (mem f ≡ 37)
    × ((mem (f + 1) ≡ 100) ⊎ (mem (f + 1) ≡ 117))
    × (n < 4294967296)
    × Formats mem (f + 2) ps

unfoldable pub format_size : List Piece → ℕ
format_size [] = 0
format_size (plain c ∷ ps) = format_size ps + 1
format_size (number n ∷ ps) = format_size ps + 2

unfoldable pub args_of : List Piece → List ℕ
args_of [] = []
args_of (plain c ∷ ps) = args_of ps
args_of (number n ∷ ps) = n ∷ args_of ps

-- The bytes `out` are the characters as they are, and for each number all of its decimal digits, with
-- no zero in front.
unfoldable pub Rendered : List Piece → (out : List ℕ) → Type 0
Rendered [] out = out ≡ []
Rendered (plain c ∷ ps) out = (rest : List ℕ) × (out ≡ c ∷ rest) × Rendered ps rest
Rendered (number n ∷ ps) out =
    (len : ℕ) × (rest : List ℕ) × (out ≡ numeral n len ++ rest)
    × (0 < len)
    × (left_of n len ≡ 0)
    × ((len ≡ 1) ⊎ (0 < left_of n (len - 1)))
    × Rendered ps rest

pub Formats-same :
    (mem mem' : Memory) (f : ℕ) (ps : List Piece)
    → ((x : ℕ) → f ≤ x → x ≤ f + format_size ps → mem' x ≡ mem x)
    → Formats mem f ps
    → Formats mem' f ps
unfolding Formats format_size
Formats-same mem mem' f [] same formats = same f (omega arith) (omega arith) ∙ formats
Formats-same mem mem' f (plain c ∷ ps) same (char, nonzero, ordinary, rest) = (
  same f (omega arith) (omega arith) ∙ char,
  nonzero,
  ordinary,
  Formats-same mem mem' (f + 1) ps (λ x low high. same x (omega arith) (omega arith)) rest,
)
Formats-same mem mem' f (number n ∷ ps) same (percent, letter, small, rest) = (
  same f (omega arith) (omega arith) ∙ percent,
  elim letter [
    | inl d ↦ inl (same (f + 1) (omega arith) (omega arith) ∙ d)
    | inr u ↦ inr (same (f + 1) (omega arith) (omega arith) ∙ u)
  ],
  small,
  Formats-same mem mem' (f + 2) ps (λ x low high. same x (omega arith) (omega arith)) rest,
)

module _ (buf null_text : ℕ) where
  pub vprintf_loop-end :
      (fuel f : ℕ) (s : Printing)
      → s.memory f ≡ 0
      → vprintf_loop buf null_text (suc fuel) f s ≡ some s
  unfolding vprintf_loop
  vprintf_loop-end fuel f s end = rw end refl

  pub vprintf_loop-plain :
      (fuel f c : ℕ) (s : Printing)
      → s.memory f ≡ c
      → c ≢ 0
      → c ≢ 37
      → f + 1 < 4294967296
      → vprintf_loop buf null_text (suc fuel) f s
        ≡ vprintf_loop buf null_text fuel (f + 1) (put c s)
  unfolding vprintf_loop
  vprintf_loop-plain fuel f c s char nonzero ordinary fits =
      let more : (c == 0) ≡ false = ground arith in
      let as_it_is : (c == 37) ≡ false = ground arith in
      let next : u32 (f + 1) ≡ f + 1 = omega arith in
      rw (char, more, as_it_is, next, vprintf_loop) refl

  -- A conversion of a number without a width.
  convert-number :
      (fuel c n format : ℕ) (rest : List ℕ) (s s' : Printing) (mem : Memory)
      → (c ≡ 100) ⊎ (c ≡ 117)
      → s.args ≡ n ∷ rest
      → itoa n buf s.memory ≡ some mem
      → put_string fuel buf (record s { args = rest; memory = mem }) ≡ some s'
      → convert buf null_text (suc fuel) c format 0 32 false s ≡ some (format, s')
  unfolding convert take_argument put_argument put_field
  convert-number fuel c n format rest s s' mem letter args printed ran =
      let known : (is_number c || (c == 115) || (c == 99)) ≡ true = ground arith in
      let numeric : is_number c ≡ true = ground arith in
      let decimal : (c == 120) ≡ false = ground arith in
      rw (known, args, numeric, decimal, printed, put_field) (rw ran refl)

  pub vprintf_loop-number :
      (fuel f c n : ℕ) (rest : List ℕ) (s s' : Printing) (mem : Memory)
      → s.memory f ≡ 37
      → s.memory (f + 1) ≡ c
      → (c ≡ 100) ⊎ (c ≡ 117)
      → s.args ≡ n ∷ rest
      → itoa n buf s.memory ≡ some mem
      → put_string fuel buf (record s { args = rest; memory = mem }) ≡ some s'
      → f + 2 < 4294967296
      → vprintf_loop buf null_text (suc (suc fuel)) f s
        ≡ vprintf_loop buf null_text (suc fuel) (f + 2) s'
  unfolding vprintf_loop
  vprintf_loop-number fuel f c n rest s s' mem percent char letter args printed ran fits =
      let next : u32 (f + 1) ≡ f + 1 = omega arith in
      let behind : u32 (f + 2) ≡ f + 2 = omega arith in
      let converted = convert-number fuel c n (f + 2) rest s s' mem letter args printed ran in
      rw (percent, next, char, behind, converted, vprintf_loop) refl
