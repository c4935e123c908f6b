-- ===== src/Stdio/Tests.antt =====
-- Runs of _vprintf.
use just_kernel.Base.{
  ℕ, zero, suc, ◌<◌, ◌≡◌, ◌≢◌, ◌++◌, ◌+◌, refl, inl, true, none, some, List, [], ◌∷◌, ◌==◌,
  if◌then◌else◌, arith,
}
use just_kernel.Klibc.{Memory, strlen, strlen_loop}
use just_kernel.Klibc.Numbers.{itoa, vtoa, vtoa_loop, vtoa_reverse, htoa}
use just_kernel.Stdio.{
  Printing, put_times, put_string, put_field, read_width, put_argument, take_argument, convert,
  vprintf_loop, vprintf,
}
use just_kernel.Stdio.Pieces.{Piece, plain, number, Formats, format_size, args_of, Rendered}
use just_kernel.Stdio.Output.{vprintf-Rendered}
use just_kernel.Stdio.Unknown.{vprintf-unknown}

-- "a%05d" at 16.
abbrev padded : Memory
padded x =
    if x == 16
    then 97
    else if x == 17
    then 37
    else if x == 18
    then 48
    else if x == 19
    then 53
    else if x == 20
    then 100
    else 0

abbrev printed_of : ℕ → List ℕ
printed_of fuel =
    elim (vprintf 100 200 fuel true 16 (record { args = 42 ∷ []; memory = padded; printed = [] })) [
      | none ↦ []
      | some s ↦ s.printed
    ]

padded_run : printed_of 10 ≡ 97 ∷ 48 ∷ 48 ∷ 48 ∷ 52 ∷ 50 ∷ []
unfolding vprintf vprintf_loop convert take_argument put_argument put_field put_times put_string
    read_width strlen strlen_loop itoa vtoa vtoa_loop vtoa_reverse htoa
padded_run = refl

-- "a%d" at 16.
abbrev counted : Memory
counted x = if x == 16 then 97 else if x == 17 then 37 else if x == 18 then 100 else 0

abbrev pieces : List Piece
pieces = plain 97 ∷ number 42 ∷ []

pieces-Formats : Formats counted 16 pieces
unfolding Formats
pieces-Formats = (refl, omega arith, omega arith, (refl, inl refl, omega arith, refl))

pieces_args : 42 ∷ [] ≡ args_of pieces
unfolding args_of
pieces_args = refl

pieces_size : format_size pieces ≡ 3
unfolding format_size
pieces_size = refl

abbrev start : Printing
start = record { args = 42 ∷ []; memory = counted; printed = [] }

vprintf-Rendered_example :
    (s' : Printing) × (out : List ℕ) × (vprintf 100 200 39 true 16 start ≡ some s')
    × (s'.printed ≡ [] ++ out)
    × Rendered pieces out
vprintf-Rendered_example =
    vprintf-Rendered 100 200 39 16 pieces start pieces-Formats pieces_args
      (inl (omega (arith, pieces_size))) (omega (arith, pieces_size)) (omega arith)
      (omega (arith, pieces_size))

-- "a%%" at 16.
abbrev percents : Memory
percents x = if x == 16 then 97 else if x == 17 then 37 else if x == 18 then 37 else 0

text_before : (i : ℕ) → i < 1 → (percents (16 + i) ≢ 0) × (percents (16 + i) ≢ 37)
text_before zero below = (omega arith, omega arith)
text_before (suc i) below = absurd (omega arith)

vprintf-unknown_example :
    vprintf 100 200 1000 true 16 (record { args = []; memory = percents; printed = [] }) ≡ none
vprintf-unknown_example =
    vprintf-unknown 100 200 1000 1 16 (record { args = []; memory = percents; printed = [] })
      text_before refl refl (omega arith)
