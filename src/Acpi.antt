-- ===== src/Acpi.antt =====
-- The search for an ACPI table, src/sys/acpi/acpi.c, over memory by bytes. An address of 0 is a null
-- pointer.
pub mod Search
mod Tests
use just_kernel.Base.{
  ℕ, zero, suc, ◌+◌, ◌*◌, ◌/◌, Bool, true, false, not, ◌&&◌, ◌==◌, if◌then◌else◌, u32, bit_and,
}
use just_kernel.Klibc.{Memory, word_at}

module _ (mem : Memory) where
  unfoldable pub checksum_loop : (data_at n total : ℕ) → ℕ
  checksum_loop data_at zero total = total
  checksum_loop data_at (suc n) total =
      checksum_loop (u32 (data_at + 1)) n (u32 (total + mem data_at))

  unfoldable pub checksum_calc : (data_at length : ℕ) → ℕ
  checksum_calc data_at length = bit_and (checksum_loop data_at length 0) 0xff

  -- The fields of the root pointer and of a table.
  abbrev pub revision : ℕ → ℕ
  revision rsdp = mem (u32 (rsdp + 15))

  abbrev pub table_length : ℕ → ℕ
  table_length header = word_at mem (header + 4)

  unfoldable pub checked : ℕ → ℕ
  checked header = if checksum_calc header (table_length header) == 0 then header else 0

  unfoldable pub get_root_sdt_header : (rsdp : ℕ) → ℕ
  get_root_sdt_header rsdp =
      if rsdp == 0
      then 0
      else if revision rsdp == 2
      then (if checksum_calc (u32 (rsdp + 20)) 16 == 0
          then checked (word_at mem (rsdp + 24))
          else 0)
      else checked (word_at mem (rsdp + 16))

  -- The entries of the two kinds of root table. Of 64 bits the low 32 are the pointer.
  abbrev pub rsdt_entry : (root i : ℕ) → ℕ
  rsdt_entry root i = word_at mem (root + 36 + i * 4)

  abbrev pub xsdt_entry : (root i : ℕ) → ℕ
  xsdt_entry root i = word_at mem (root + 36 + i * 8)

  -- Whether a 64-bit entry is zero.
  abbrev pub xsdt_is_zero : (root i : ℕ) → Bool
  xsdt_is_zero root i =
      (word_at mem (root + 36 + i * 8) == 0) && (word_at mem (root + 40 + i * 8) == 0)

  abbrev pub is_match : (sig header : ℕ) → Bool
  is_match sig header =
      (sig == word_at mem header) && (checksum_calc header (table_length header) == 0)

  -- The loop over `n` entries from `i` on.
  unfoldable pub search_loop : (entry : ℕ → ℕ) (is_zero : ℕ → Bool) (sig n i : ℕ) → ℕ
  search_loop entry is_zero sig zero i = 0
  search_loop entry is_zero sig (suc n) i =
      let rest = search_loop entry is_zero sig n (i + 1) in
      if is_zero i then rest else if is_match sig (entry i) then entry i else rest

  -- `sig` is the number that the four characters make up.
  unfoldable pub search_sdt_header : (rsdp sig : ℕ) → ℕ
  search_sdt_header rsdp sig =
      let root = get_root_sdt_header rsdp in
      if root == 0
      then 0
      else if revision rsdp == 0
      then search_loop (rsdt_entry root) (λ i. rsdt_entry root i == 0) sig (table_length root / 4) 0
      else search_loop (xsdt_entry root) (xsdt_is_zero root) sig (table_length root / 8) 0
