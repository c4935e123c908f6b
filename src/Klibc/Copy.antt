-- ===== src/Klibc/Copy.antt =====
-- Copying, src/klibc/string.c: what memcpy, strlen and strcpy do to the bytes.
use just_kernel.Base.{
  ℕ, zero, suc, ◌+◌, ◌-◌, ◌≤◌, ◌<◌, ◌≡◌, refl, ◌⊎◌, inl, inr, Bool, false, ◌&&◌, some, ltb, leb,
  ◌==◌, sub32, if◌then◌else◌, arith, u32, Bool-cases, ◌∙◌, ap,
}
use just_kernel.Klibc.{Memory, write, strlen_loop, strlen, memcpy, memset, strcpy, strncpy}

-- A string of `n` bytes stands at `a`.
pub record IsString (mem : Memory) (a n : ℕ) : Type 0 where
  pub inside : (i : ℕ) → i < n → (mem (a + i) == 0) ≡ false
  pub end : mem (a + n) ≡ 0
  pub fits : a + n < 4294967295

-- An address in a block.
abbrev pub within : (a n x : ℕ) → Bool
within a n x = leb a x && ltb x (a + n)

-- The first byte and the rest.
copy_step :
    (n src dst : ℕ) (mem : Memory) (x : ℕ)
    → (dst ≤ src) ⊎ (src + suc n ≤ dst)
    → (if within (dst + 1) n x
        then write dst (mem src) mem (src + 1 + (x - (dst + 1)))
        else write dst (mem src) mem x)
      ≡ (if within dst (suc n) x then mem (src + (x - dst)) else mem x)
copy_step n src dst mem x apart = elim (Bool-cases (ltb dst x)) [
  | inl later ↦
      let dst_lt : dst < x = ground arith in
      let e : src + 1 + (x - (dst + 1)) ≡ src + (x - dst) = omega arith in rw e (ground arith)
  | inr not_later ↦ elim (Bool-cases (x == dst)) [
    | inl here ↦ let at : src + (x - dst) ≡ src = ground arith in rw at (ground arith)
    | inr before ↦ ground arith
  ]
]

-- A forward copy whose blocks do not pass the end of the address space is right when the target does
-- not start inside the source behind its first byte: each target byte is the source byte as it was
-- before the copy, and no other byte changes.
pub memcpy-copies :
    (n src dst : ℕ) (mem : Memory) (x : ℕ)
    → src + n < 4294967296
    → dst + n < 4294967296
    → (dst ≤ src) ⊎ (src + n ≤ dst)
    → memcpy src dst n mem x ≡ (if within dst n x then mem (src + (x - dst)) else mem x)
unfolding memcpy
memcpy-copies zero src dst mem x hs hd apart = ground arith
memcpy-copies (suc n) src dst mem x hs hd apart =
    let s1 : u32 (src + 1) ≡ src + 1 = omega arith in
    let d1 : u32 (dst + 1) ≡ dst + 1 = omega arith in
    let rest =
      memcpy-copies n (src + 1) (dst + 1) (write dst (mem src) mem) x (omega arith) (omega arith)
        (omega arith) in
    rw (s1, d1) (rest ∙ copy_step n src dst mem x apart)

-- memset fills the block and changes no other byte, for a block within the address space.
memset-fills :
    (n dst byte : ℕ) (mem : Memory) (x : ℕ)
    → dst + n < 4294967296
    → memset dst byte n mem x ≡ (if within dst n x then byte else mem x)
unfolding memset
memset-fills zero dst byte mem x hd = ground arith
memset-fills (suc n) dst byte mem x hd =
    let d1 : u32 (dst + 1) ≡ dst + 1 = omega arith in
    rw d1 (ground (arith, memset-fills n (dst + 1) byte (write dst byte mem) x (omega arith)))

strlen_loop-length :
    (fuel k i n : ℕ) (mem : Memory) (a : ℕ)
    → IsString mem a n
    → i + k ≡ n
    → k < fuel
    → strlen_loop fuel mem a i ≡ some n
unfolding strlen_loop
strlen_loop-length zero k i n mem a string left enough = absurd (omega arith)
strlen_loop-length (suc fuel) zero i n mem a string left enough =
    let fits = string.fits in
    let at : u32 (a + i) ≡ a + n = omega arith in
    let len : sub32 (u32 (i + 1)) 1 ≡ n = omega arith in rw (at, string.end) (ap some len)
strlen_loop-length (suc fuel) (suc k) i n mem a string left enough =
    let fits = string.fits in
    let at : u32 (a + i) ≡ a + i = omega arith in
    let on : u32 (i + 1) ≡ i + 1 = omega arith in
    rw (at, string.inside i (omega arith), on)
      (strlen_loop-length fuel k (i + 1) n mem a string (omega arith) (omega arith))

-- With more fuel than the string has bytes, strlen answers its length.
pub strlen-length :
    (fuel n a : ℕ) (mem : Memory) → IsString mem a n → n < fuel → strlen fuel mem a ≡ some n
unfolding strlen
strlen-length fuel n a mem string enough =
    strlen_loop-length fuel n 0 n mem a string (omega arith) enough

-- What a copy of the string at `src` to `dst` leaves.
pub record IsCopy (src dst n : ℕ) (mem mem' : Memory) : Type 0 where
  pub string : IsString mem' dst n
  pub same : (i : ℕ) → i < n → mem' (dst + i) ≡ mem (src + i)
  pub others : (x : ℕ) → within dst (suc n) x ≡ false → mem' x ≡ mem x

memcpy-at :
    (n src dst i : ℕ) (mem : Memory)
    → src + n < 4294967296
    → dst + n < 4294967296
    → (dst ≤ src) ⊎ (src + n ≤ dst)
    → i < n
    → memcpy src dst n mem (dst + i) ≡ mem (src + i)
memcpy-at n src dst i mem hs hd apart h =
    let place : src + (dst + i - dst) ≡ src + i = omega arith in
    let copied = rw place at (memcpy-copies n src dst mem (dst + i) hs hd apart) in
    ground (arith, copied)

terminated-IsCopy :
    (n src dst : ℕ) (mem : Memory)
    → IsString mem src n
    → dst + n < 4294967295
    → (dst ≤ src) ⊎ (src + n ≤ dst)
    → IsCopy src dst n mem (write (dst + n) 0 (memcpy src dst n mem))
terminated-IsCopy n src dst mem string fits apart =
    let src_fits = string.fits in
    record {
      string = record {
        inside = λ i h. ground (
          arith,
          string.inside i h,
          memcpy-at n src dst i mem (omega arith) (omega arith) apart h,
        );
        end = ground arith;
        fits = fits;
      };
      same = λ i h. ground (arith, memcpy-at n src dst i mem (omega arith) (omega arith) apart h);
      others =
          λ x out. ground (arith, memcpy-copies n src dst mem x (omega arith) (omega arith) apart);
    }

-- With more fuel than the string has bytes, strcpy returns, the string stands at the target, and no
-- byte outside of it and its terminator has changed, if the target does not overlap the bytes of the
-- string from behind.
pub strcpy-IsCopy :
    (fuel n src dst : ℕ) (mem : Memory)
    → IsString mem src n
    → n < fuel
    → dst + n < 4294967295
    → (dst ≤ src) ⊎ (src + n ≤ dst)
    → (mem' : Memory) × (strcpy fuel src dst mem ≡ some mem') × IsCopy src dst n mem mem'
unfolding strcpy
strcpy-IsCopy fuel n src dst mem string enough fits apart =
    let end : u32 (dst + n) ≡ dst + n = omega arith in
    rw (strlen-length fuel n src mem string enough, strcpy)
      (rw end (_, refl, terminated-IsCopy n src dst mem string fits apart))

-- strncpy writes one byte more than it was allowed: a string of at least `max` bytes leaves a zero
-- byte right behind the `max` bytes of the target.
pub strncpy-beyond :
    (fuel n src dst max : ℕ) (mem : Memory)
    → IsString mem src n
    → n < fuel
    → max ≤ n
    → dst + max < 4294967296
    → (mem' : Memory) × (strncpy fuel src dst max mem ≡ some mem') × (mem' (dst + max) ≡ 0)
unfolding strncpy
strncpy-beyond fuel n src dst max mem string enough long fits =
    let src_fits = string.fits in
    let cut : (if ltb max (u32 (n + 1)) then max else u32 (n + 1)) ≡ max = ground arith in
    let end : u32 (dst + max) ≡ dst + max = omega arith in
    rw (strlen-length fuel n src mem string enough, strncpy) (rw (cut, end) (_, refl, ground arith))
