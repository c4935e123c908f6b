-- ===== src/Klibc.antt =====
-- Strings and blocks of memory, src/klibc/string.c: memory is a byte for each 32-bit address. A loop
-- that runs until it meets a zero byte runs on fuel, and `none` is a run that needs more.
pub mod Copy
pub mod Compare
pub mod Numbers
pub mod Digits
pub mod Turned
pub mod Printed
pub mod ReadBack
mod Tests
use just_kernel.Base.{
  ℕ, zero, suc, ◌+◌, ◌*◌, ◌-◌, Bool, true, false, not, ◌&&◌, Option, none, some, ltb, ◌==◌,
  if◌then◌else◌, u32, sub32, u8,
}

abbrev pub Memory : Type 0
Memory = ℕ → ℕ

abbrev pub write : ℕ → ℕ → Memory → Memory
write a byte mem x = if x == a then byte else mem x

-- Numbers of 16 and 32 bits in memory, the low byte first.
abbrev pub half_at : Memory → ℕ → ℕ
half_at mem a = mem (u32 a) + mem (u32 (a + 1)) * 256

abbrev pub word_at : Memory → ℕ → ℕ
word_at mem a =
    mem (u32 a) + mem (u32 (a + 1)) * 256 + mem (u32 (a + 2)) * 65536 + mem (u32 (a + 3)) * 16777216

-- `len` counts the bytes that were read, and the terminator is taken off at the end.
unfoldable pub strlen_loop : (fuel : ℕ) → Memory → (str len : ℕ) → Option ℕ
strlen_loop zero mem str len = none
strlen_loop (suc fuel) mem str len =
    let rest = strlen_loop fuel mem str (u32 (len + 1)) in
    if mem (u32 (str + len)) == 0 then some (sub32 (u32 (len + 1)) 1) else rest

unfoldable pub strlen : (fuel : ℕ) → Memory → (str : ℕ) → Option ℕ
strlen fuel mem str = strlen_loop fuel mem str 0

-- `*dst++ = *src++`, `count` times.
unfoldable pub memcpy : (src dst count : ℕ) → Memory → Memory
memcpy src dst zero mem = mem
memcpy src dst (suc count) mem =
    memcpy (u32 (src + 1)) (u32 (dst + 1)) count (write dst (mem src) mem)

unfoldable pub memset : (dst byte count : ℕ) → Memory → Memory
memset dst byte zero mem = mem
memset dst byte (suc count) mem = memset (u32 (dst + 1)) byte count (write dst byte mem)

unfoldable pub strcpy : (fuel src dst : ℕ) → Memory → Option Memory
strcpy fuel src dst mem = elim (strlen fuel mem src) [
  | none ↦ none
  | some len ↦ some (write (u32 (dst + len)) 0 (memcpy src dst len mem))
]

unfoldable pub strncpy : (fuel src dst max : ℕ) → Memory → Option Memory
strncpy fuel src dst max mem = elim (strlen fuel mem src) [
  | none ↦ none
  | some n ↦
      let len = if ltb max (u32 (n + 1)) then max else u32 (n + 1) in
      some (write (u32 (dst + len)) 0 (memcpy src dst len mem))
]

unfoldable pub strcmp_loop : (fuel s1 s2 : ℕ) → Memory → Option ℕ
strcmp_loop zero s1 s2 mem = none
strcmp_loop (suc fuel) s1 s2 mem =
    let rest = strcmp_loop fuel (u32 (s1 + 1)) (u32 (s2 + 1)) mem in
    if not (mem s1 == 0) && not (mem s2 == 0)
    then (if mem s1 == mem s2 then rest else some 1)
    else some 0

unfoldable pub strcmp_lengths : (fuel s1 s2 : ℕ) → Memory → Option ℕ → Option ℕ → Option ℕ
strcmp_lengths fuel s1 s2 mem none n2 = none
strcmp_lengths fuel s1 s2 mem (some n1) none = none
strcmp_lengths fuel s1 s2 mem (some n1) (some n2) =
    if n1 == n2 then strcmp_loop fuel s1 s2 mem else some 1

unfoldable pub strcmp : (fuel s1 s2 : ℕ) → Memory → Option ℕ
strcmp fuel s1 s2 mem = strcmp_lengths fuel s1 s2 mem (strlen fuel mem s1) (strlen fuel mem s2)
