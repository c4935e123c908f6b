-- ===== src/Stdio.antt =====
-- Formatted output, _vprintf of src/klibc/stdio.c: the format and the strings stand in memory by bytes,
-- the arguments are a list of words, and what goes to `putchar` is a list of bytes. The loops run on
-- fuel; `none` is a run that needs more, or that reads an argument which is not there.
pub mod Digits
pub mod Pieces
pub mod Output
pub mod Unknown
mod Tests
use just_kernel.Base.{
  ℕ, zero, suc, ◌+◌, ◌*◌, ◌-◌, ◌%◌, Bool, true, false, not, ◌&&◌, ◌||◌, Option, none, some, List,
  [], ◌∷◌, ◌++◌, ltb, leb, ◌==◌, if◌then◌else◌, u8, u32, sub32,
}
use just_kernel.Klibc.{Memory, strlen}
use just_kernel.Klibc.Numbers.{itoa, htoa}

pub record Printing : Type 0 where
  pub args : List ℕ
  pub memory : Memory
  pub printed : List ℕ

abbrev pub put : ℕ → Printing → Printing
put c s = record s { printed = s.printed ++ (c ∷ []) }

-- `while (num--) putchar(sym)`
unfoldable pub put_times : (sym num : ℕ) → Printing → Printing
put_times sym zero s = s
put_times sym (suc num) s = put_times sym num (put sym s)

-- `while (*p) putchar(*p++)`
unfoldable pub put_string : (fuel p : ℕ) → Printing → Option Printing
put_string zero p s = none
put_string (suc fuel) p s =
    let rest = put_string fuel (u32 (p + 1)) (put (s.memory p) s) in
    if s.memory p == 0 then some s else rest

-- What is left of the width `num`, in the 8 bits with sign of a `char`.
abbrev pub width_left : (num len : ℕ) → ℕ
width_left num len = if ltb (u8 (num + 128)) (u8 (len + 128)) then 0 else u8 (num + 256 - u8 len)

unfoldable pub put_field : (fuel p num sym : ℕ) → (pad_right : Bool) → Printing → Option Printing
put_field fuel p num sym pad_right s =
    if num == 0 then put_string fuel p s else elim (strlen fuel s.memory p) [
      | none ↦ none
      | some len ↦
          if pad_right
          then elim (put_string fuel p s) [
            | none ↦ none
            | some s' ↦ some (put_times sym (width_left num len) s')
          ]
          else put_string fuel p (put_times sym (width_left num len) s)
    ]

-- The digits of the width; the results are `c`, `format` and `num`.
unfoldable pub read_width : (fuel c format num : ℕ) → Memory → Option (ℕ × ℕ × ℕ)
read_width zero c format num mem = none
read_width (suc fuel) c format num mem =
    let rest = read_width fuel (mem format) (u32 (format + 1)) (u8 (num * 10 + c - 48)) mem in
    if leb 49 c && leb c 57 then rest else some (c, format, num)

abbrev pub is_number : ℕ → Bool
is_number c = (c == 100) || (c == 117) || (c == 120)

abbrev pub is_symbol : ℕ → Bool
is_symbol c = (c == 48) || (c == 32) || (c == 46)

-- `buf` and `null_text` are the addresses of the local array and of the literal "(null)".
module _ (buf null_text : ℕ) where
  -- The cases of `switch (c)` other than the default.
  unfoldable pub put_argument :
      (fuel c num sym : ℕ) → (pad_right : Bool) → (v : ℕ) → Printing → Option Printing
  put_argument fuel c num sym pad_right v s =
      if is_number c
      then elim (if c == 120 then htoa v buf s.memory else itoa v buf s.memory) [
        | none ↦ none
        | some mem ↦ put_field fuel buf num sym pad_right (record s { memory = mem })
      ]
      else if c == 115
      then put_field fuel (if v == 0 then null_text else v) num sym pad_right s
      else some (put (u8 v) s)

  -- A case that begins with `va_arg`.
  unfoldable pub take_argument :
      (fuel c num sym : ℕ) → (pad_right : Bool) → Printing → Option Printing
  take_argument fuel c num sym pad_right s = elim s.args [
    | [] ↦ none
    | v ∷ args ↦ put_argument fuel c num sym pad_right v (record s { args = args })
  ]

  -- From the label `back` on; the results are `format` and the state.
  unfoldable pub convert :
      (fuel c format num sym : ℕ) → (pad_right : Bool) → Printing → Option (ℕ × Printing)
  convert zero c format num sym pad_right s = none
  convert (suc fuel) c format num sym pad_right s =
      let format1 = if is_symbol c then u32 (format + 1) else format in
      let c1 = if is_symbol c then s.memory format else c in
      let sym1 = if is_symbol c then c else sym in
      let format2 = if c1 == 45 then u32 (format1 + 1) else format1 in
      let c2 = if c1 == 45 then s.memory format1 else c1 in
      let again : Option (ℕ × Printing) = elim (read_width fuel c2 format2 0 s.memory) [
        | none ↦ none
        | some (c3, format3, width) ↦ convert fuel c3 format3 width sym1 (pad_right || (c1 == 45)) s
      ] in
      if not (is_number c || (c == 115) || (c == 99)) && (s.memory (sub32 format 2) == 37)
      then again
      else elim (take_argument fuel c num sym pad_right s) [
        | none ↦ none
        | some s' ↦ some (format, s')
      ]

  unfoldable pub vprintf_loop : (fuel format : ℕ) → Printing → Option Printing
  vprintf_loop zero format s = none
  vprintf_loop (suc fuel) format s =
      let plain = vprintf_loop fuel (u32 (format + 1)) (put (s.memory format) s) in
      let converted : Option Printing =
        elim (convert fuel (s.memory (u32 (format + 1))) (u32 (format + 2)) 0 32 false s) [
          | none ↦ none
          | some (format', s') ↦ vprintf_loop fuel format' s'
        ] in
      if s.memory format == 0 then some s else if s.memory format == 37 then converted else plain

  -- Without a function for the characters, nothing is printed.
  unfoldable pub vprintf :
      (fuel : ℕ) → (has_putchar : Bool) → (format : ℕ) → Printing → Option Printing
  vprintf fuel has_putchar format s = if has_putchar then vprintf_loop fuel format s else some s
