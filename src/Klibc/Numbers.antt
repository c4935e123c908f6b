-- ===== src/Klibc/Numbers.antt =====
-- The conversions of numbers and the remaining functions of src/klibc/string.c. A loop over a string
-- runs on fuel; the loops over the digits of a 32-bit number have more rounds than it has digits.
use just_kernel.Base.{
  ℕ, zero, suc, ◌+◌, ◌*◌, ◌/◌, ◌%◌, ◌||◌, Option, none, some, ltb, leb, ◌==◌, if◌then◌else◌, u32,
  sub32,
}
use just_kernel.Klibc.{Memory, write, strlen, word_at}

-- Two bytes change places.
abbrev pub swap : (a b : ℕ) → Memory → Memory
swap a b mem = write b (mem a) (write a (mem b) mem)

unfoldable pub reverse_loop : (fuel str start_index end_index : ℕ) → Memory → Option Memory
reverse_loop zero str start_index end_index mem = none
reverse_loop (suc fuel) str start_index end_index mem =
    let rest =
      reverse_loop fuel str (u32 (start_index + 1)) (sub32 end_index 1)
        (swap (u32 (str + start_index)) (u32 (str + end_index)) mem) in
    if ltb start_index end_index then rest else some mem

unfoldable pub reverse : (fuel str : ℕ) → Memory → Option Memory
reverse fuel str mem = elim (strlen fuel mem str) [
  | none ↦ none
  | some len ↦ reverse_loop fuel str 0 (if ltb 0 len then sub32 len 1 else 0) mem
]

-- The digits of `n`, the low one first, to `str[i]` and on; the result is the index behind them.
unfoldable pub utoa_loop : (rounds n i str : ℕ) → Memory → Option (ℕ × Memory)
utoa_loop zero n i str mem = none
utoa_loop (suc rounds) n i str mem =
    let rest =
      utoa_loop rounds (n / 10) (u32 (i + 1)) str (write (u32 (str + i)) (n % 10 + 48) mem) in
    if n == 0 then some (i, mem) else rest

unfoldable pub utoa : (fuel n str : ℕ) → Memory → Option Memory
utoa fuel n str mem =
    elim (utoa_loop 11 n (if n == 0 then 1 else 0) str (if n == 0 then write str 48 mem else mem)) [
      | none ↦ none
      | some (i, mem') ↦ reverse fuel str (write (u32 (str + i)) 0 mem')
    ]

-- A `char` as a number of 32 bits.
abbrev pub char_value : ℕ → ℕ
char_value c = if ltb c 128 then c else sub32 c 256

unfoldable pub atou_loop : (fuel str result : ℕ) → Memory → Option ℕ
atou_loop zero str result mem = none
atou_loop (suc fuel) str result mem =
    let rest =
      atou_loop fuel (u32 (str + 1)) (u32 (u32 (result * 10) + sub32 (char_value (mem str)) 48))
        mem in
    if mem str == 0 then some result else rest

unfoldable pub atou : (fuel str : ℕ) → Memory → Option ℕ
atou fuel str mem = atou_loop fuel str 0 mem

-- The character of a digit, in the second half of the literal of `_vtoa`.
abbrev pub digit_char : ℕ → ℕ
digit_char d = if ltb d 10 then d + 48 else d + 87

-- The loop over the digits, with `value` as a number without sign: `base` has none, so that C divides
-- without one. The results are `ptr` and `tmp_value`.
unfoldable pub vtoa_loop : (rounds base value ptr : ℕ) → Memory → Option (ℕ × ℕ × Memory)
vtoa_loop zero base value ptr mem = none
vtoa_loop (suc rounds) base value ptr mem =
    let mem' = write ptr (digit_char (value % base)) mem in
    let rest = vtoa_loop rounds base (value / base) (u32 (ptr + 1)) mem' in
    if value / base == 0 then some (u32 (ptr + 1), value, mem') else rest

unfoldable pub vtoa_reverse : (rounds ptr1 ptr : ℕ) → Memory → Option Memory
vtoa_reverse zero ptr1 ptr mem = none
vtoa_reverse (suc rounds) ptr1 ptr mem =
    let rest = vtoa_reverse rounds (u32 (ptr1 + 1)) (sub32 ptr 1) (swap ptr1 ptr mem) in
    if ltb ptr1 ptr then rest else some mem

-- For a base outside of 2 to 36 the code divides by zero, does not end, or may read outside its literal.
unfoldable pub vtoa : (result base value : ℕ) → Memory → Option Memory
vtoa result base value mem =
    if ltb base 2 || ltb 36 base then none else elim (vtoa_loop 33 base value result mem) [
      | none ↦ none
      | some (ptr, tmp_value, mem1) ↦
          let is_negative = leb 0x80000000 tmp_value in
          let end = if is_negative then u32 (ptr + 1) else ptr in
          let mem2 = if is_negative then write ptr 45 mem1 else mem1 in
          vtoa_reverse 33 result (sub32 end 1) (write end 0 mem2)
    ]

unfoldable pub itoa : (n str : ℕ) → Memory → Option Memory
itoa n str mem = vtoa str 10 n mem

unfoldable pub htoa : (n str : ℕ) → Memory → Option Memory
htoa n str mem = vtoa str 16 n mem

-- `while (*src != '\0') *end++ = *src++;`, and the terminator.
unfoldable pub strcat_loop : (fuel end src : ℕ) → Memory → Option Memory
strcat_loop zero end src mem = none
strcat_loop (suc fuel) end src mem =
    let rest = strcat_loop fuel (u32 (end + 1)) (u32 (src + 1)) (write end (mem src) mem) in
    if mem src == 0 then some (write end 0 mem) else rest

unfoldable pub strcat : (fuel dst src : ℕ) → Memory → Option Memory
strcat fuel dst src mem = elim (strlen fuel mem dst) [
  | none ↦ none
  | some len ↦ strcat_loop fuel (u32 (dst + len)) src mem
]

unfoldable pub strncmp : (s1 s2 len : ℕ) → Memory → ℕ
strncmp s1 s2 zero mem = 0
strncmp s1 s2 (suc len) mem =
    let rest = strncmp (u32 (s1 + 1)) (u32 (s2 + 1)) len mem in if mem s1 == mem s2 then rest else 1

-- A number of 32 bits, the low byte first.
abbrev pub write_word : (a value : ℕ) → Memory → Memory
write_word a value mem = write (u32 (a + 3)) (value / 16777216 % 256) (
    write (u32 (a + 2)) (value / 65536 % 256)
      (write (u32 (a + 1)) (value / 256 % 256) (write (u32 a) (value % 256) mem)))

unfoldable pub memcpy32 : (src dst count : ℕ) → Memory → Memory
memcpy32 src dst zero mem = mem
memcpy32 src dst (suc count) mem =
    memcpy32 (u32 (src + 4)) (u32 (dst + 4)) count (write_word dst (word_at mem src) mem)

unfoldable pub memset32 : (dst value count : ℕ) → Memory → Memory
memset32 dst value zero mem = mem
memset32 dst value (suc count) mem = memset32 (u32 (dst + 4)) value count (write_word dst value mem)
