-- ===== src/Acpi/Search.antt =====
-- What the checksum and the search of src/sys/acpi/acpi.c compute.
use just_kernel.Base.{
  ℕ, zero, suc, ◌+◌, ◌/◌, ◌%◌, ◌≤◌, ◌<◌, ◌≡◌, ◌≢◌, refl, sym, subst, ◌⊎◌, inl, inr, Bool, true,
  false, ◌==◌, Bool-cases, u32, bit_and, arith,
}
use just_kernel.Base.Bits.{shl, bit_and-ones}
use just_kernel.Klibc.{Memory}
use just_kernel.Acpi.{
  checksum_loop, checksum_calc, get_root_sdt_header, is_match, search_loop, search_sdt_header,
  table_length, revision, rsdt_entry,
}

-- The sum of the bytes of a block.
unfoldable pub sum_bytes : (mem : Memory) (a n : ℕ) → ℕ
sum_bytes mem a zero = 0
sum_bytes mem a (suc n) = mem a + sum_bytes mem (a + 1) n

checksum_loop-sum_bytes :
    (mem : Memory) (a n total : ℕ)
    → a + n < 4294967296
    → checksum_loop mem a n total % 256 ≡ (total + sum_bytes mem a n) % 256
unfolding checksum_loop sum_bytes
checksum_loop-sum_bytes mem a zero total fits = omega arith
checksum_loop-sum_bytes mem a (suc n) total fits =
    let next : u32 (a + 1) ≡ a + 1 = omega arith in
    let rest = checksum_loop-sum_bytes mem (a + 1) n (u32 (total + mem a)) (omega arith) in
    rw next (omega (arith, rest))

low_byte : (w : ℕ) → bit_and w 0xff ≡ w % 256
low_byte w =
    let parts : shl 8 (w / 256) + w % 256 ≡ w = omega arith in
    subst (λ x. bit_and x 0xff ≡ w % 256) parts (bit_and-ones 8 (w / 256) (w % 256) (omega arith))

-- The checksum of a block within the address space is the sum of its bytes, modulo 256: a sum that
-- wraps at 32 bits does not change it.
pub checksum_calc-sum_bytes :
    (mem : Memory) (a n : ℕ) → a + n < 4294967296 → checksum_calc mem a n ≡ sum_bytes mem a n % 256
unfolding checksum_calc
checksum_calc-sum_bytes mem a n fits =
    omega (arith, low_byte (checksum_loop mem a n 0), checksum_loop-sum_bytes mem a n 0 fits)

-- What the result of a search over the words from number `i` to `e` means.
pub record IsResult (mem : Memory) (entry : ℕ → ℕ) (is_zero : ℕ → Bool) (sig i e result : ℕ)
    : Type 0 where
  -- Nothing, or an entry that matches.
  pub found :
      (result ≡ 0)
      ⊎ ((k : ℕ) × (i ≤ k)
          × (k < e)
          × (is_zero k ≡ false)
          × (entry k ≡ result)
          × (is_match mem sig result ≡ true))
  -- Nothing only if no entry matches.
  pub complete :
      result ≡ 0 → (k : ℕ) → i ≤ k → k < e → is_zero k ≡ false → is_match mem sig (entry k) ≡ false

skip-IsResult :
    (mem : Memory) (entry : ℕ → ℕ) (is_zero : ℕ → Bool) (sig i e result : ℕ)
    → (is_zero i ≡ false → is_match mem sig (entry i) ≡ false)
    → IsResult mem entry is_zero sig (i + 1) e result
    → IsResult mem entry is_zero sig i e result
skip-IsResult mem entry is_zero sig i e result passed later = record {
  found = elim later.found [
    | inl nothing ↦ inl nothing
    | inr (k, from, to, there, same, good) ↦ inr (k, omega arith, to, there, same, good)
  ];
  complete = λ nothing k from to there. elim (Bool-cases (i == k)) [
    | inl here ↦
        let same : i ≡ k = ground arith in
        subst (λ q. is_match mem sig (entry q) ≡ false) same
          (passed (subst (λ q. is_zero q ≡ false) (sym same) there))
    | inr other ↦ later.complete nothing k (ground arith) to there
  ];
}

search_loop-IsResult :
    (mem : Memory) (entry : ℕ → ℕ) (is_zero : ℕ → Bool) (sig n i : ℕ)
    → ((k : ℕ) → is_zero k ≡ false → entry k ≢ 0)
    → IsResult mem entry is_zero sig i (i + n) (search_loop mem entry is_zero sig n i)
unfolding search_loop
search_loop-IsResult mem entry is_zero sig zero i solid = record {
  found = inl refl;
  complete = λ nothing k from to there. absurd (omega arith);
}
search_loop-IsResult mem entry is_zero sig (suc n) i solid =
    let end : i + 1 + n ≡ i + suc n = omega arith in
    let later =
      subst
        (λ e.
          IsResult mem entry is_zero sig (i + 1) e (search_loop mem entry is_zero sig n (i + 1)))
        end (search_loop-IsResult mem entry is_zero sig n (i + 1) solid) in
    elim (Bool-cases (is_zero i)) [
      | inl null ↦ rw null (
          skip-IsResult mem entry is_zero sig i (i + suc n) _ (λ there. absurd (ground arith))
            later)
      | inr there ↦ elim (Bool-cases (is_match mem sig (entry i))) [
        | inl good ↦
            rw (there, good)
              (record {
                found = inr (i, omega arith, omega arith, there, refl, good);
                complete = λ nothing k from to set. absurd (solid i there nothing);
              })
        | inr bad ↦
            rw (there, bad) (skip-IsResult mem entry is_zero sig i (i + suc n) _ (λ set. bad) later)
      ]
    ]

-- With a root table that is found and checked, search_sdt_header on ACPI 1 looks at as many words
-- behind the header of the table as a quarter of its length, of which the last nine lie behind the
-- table. The result is one of these words that is not null and whose table has the signature sought
-- and checksum 0, or nothing, and nothing only if no such word is among them.
pub search_sdt_header-IsResult :
    (mem : Memory) (rsdp sig : ℕ)
    → get_root_sdt_header mem rsdp ≢ 0
    → revision mem rsdp ≡ 0
    → IsResult mem
        (rsdt_entry mem (get_root_sdt_header mem rsdp))
        (λ i. rsdt_entry mem (get_root_sdt_header mem rsdp) i == 0)
        sig
        0
        (table_length mem (get_root_sdt_header mem rsdp) / 4)
        (search_sdt_header mem rsdp sig)
unfolding search_sdt_header
search_sdt_header-IsResult mem rsdp sig present first =
    let root = get_root_sdt_header mem rsdp in
    let there : (root == 0) ≡ false = ground arith in
    let kind : (revision mem rsdp == 0) ≡ true = ground arith in
    let entries = table_length mem root / 4 in
    let zero_at : ℕ → Bool = λ i. rsdt_entry mem root i == 0 in
    let end : 0 + entries ≡ entries = omega arith in
    rw (there, kind)
      (subst
        (λ e.
          IsResult mem (rsdt_entry mem root) zero_at sig 0 e
            (search_loop mem (rsdt_entry mem root) zero_at sig entries 0))
        end
        (search_loop-IsResult mem (rsdt_entry mem root) zero_at sig entries 0
          (λ k set. ground arith)))
