-- ===== src/Klibc/Tests.antt =====
-- The string functions on a small memory: runs of the code, and its theorems at it.
use just_kernel.Base.{ℕ, ◌+◌, ◌-◌, ◌≡◌, refl, inr, some, ◌==◌, if◌then◌else◌, arith}
use just_kernel.Klibc.{
  Memory, memcpy, strcpy, strncpy, strcmp, strcmp_lengths, strcmp_loop, strlen, strlen_loop,
}
use just_kernel.Klibc.Copy.{IsString, IsCopy, within, memcpy-copies, strcpy-IsCopy, strncpy-beyond}
use just_kernel.Klibc.Compare.{Same, IsOrder, strcmp-IsOrder}
use just_kernel.Klibc.Numbers.{utoa, itoa, atou}
use just_kernel.Klibc.ReadBack.{atou-itoa}

-- The bytes 97 and 98 stand at 16 and at 24, there followed by 99.
abbrev words : Memory
words x =
    if x == 16
    then 97
    else if x == 17
    then 98
    else if x == 24
    then 97
    else if x == 25
    then 98
    else if x == 26
    then 99
    else 0

short-IsString : IsString words 16 2
short-IsString = record { inside = λ i h. ground arith; end = refl; fits = omega arith }

long-IsString : IsString words 24 3
long-IsString = record { inside = λ i h. ground arith; end = refl; fits = omega arith }

strcpy-IsCopy_example :
    (mem' : Memory) × (strcpy 3 16 40 words ≡ some mem') × IsCopy 16 40 2 words mem'
strcpy-IsCopy_example =
    strcpy-IsCopy 3 2 16 40 words short-IsString (omega arith) (omega arith) (inr (omega arith))

strncpy-beyond_example :
    (mem' : Memory) × (strncpy 4 24 40 2 words ≡ some mem') × (mem' (40 + 2) ≡ 0)
strncpy-beyond_example =
    strncpy-beyond 4 3 24 40 2 words long-IsString (omega arith) (omega arith) (omega arith)

strcmp-IsOrder_example : IsOrder (strcmp 4 16 24 words) ((◌≡◌ {A = ℕ} 2 3) × Same words 16 24 2)
strcmp-IsOrder_example =
    strcmp-IsOrder 4 2 3 16 24 words short-IsString long-IsString (omega arith) (omega arith)

-- The shorter string begins the longer one, and differs from it.
strcmp_run : strcmp 4 16 24 words ≡ some 1
unfolding strcmp strcmp_lengths strcmp_loop strlen strlen_loop
strcmp_run = refl

-- The number is -5 in 32 bits.
atou-itoa_example :
    ((mem' : Memory) × (utoa 40 4294967291 100 words ≡ some mem')
      × (atou 40 100 mem' ≡ some 4294967291))
    × ((mem' : Memory) × (itoa 4294967291 100 words ≡ some mem')
        × (atou 40 100 mem' ≡ some 4294967291))
atou-itoa_example = atou-itoa 40 4294967291 100 words (omega arith) (omega arith) (omega arith)

memcpy-copies_example :
    memcpy 16 40 3 words 41 ≡ (if within 40 3 41 then words (16 + (41 - 40)) else words 41)
memcpy-copies_example =
    memcpy-copies 3 16 40 words 41 (omega arith) (omega arith) (inr (omega arith))
