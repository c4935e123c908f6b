-- ===== src/Elf.antt =====
-- The ELF images of src/fs/elf/elf.c in memory by bytes: the tables of an image, and the look-up of
-- sections and symbols. An address of 0 is a null pointer. Names are compared by strcmp, which runs on
-- fuel, and `none` is a comparison that needs more.
pub mod Nearest
mod Tests
use just_kernel.Base.{
  ℕ, zero, suc, ◌+◌, ◌*◌, ◌/◌, ◌%◌, Bool, true, false, not, ◌&&◌, ◌||◌, Option, none, some, ltb,
  ◌==◌, if◌then◌else◌, u32, sub32, bit_and,
}
use just_kernel.Klibc.{Memory, half_at, word_at, strcmp}

-- `ELF32Obj_t`
pub record Elf : Type 0 where
  pub header : ℕ
  pub sectab_head : ℕ
  pub sectab_size : ℕ
  pub progtab_head : ℕ
  pub progtab_size : ℕ
  pub symtab_head : ℕ
  pub symtab_size : ℕ
  pub strtab_head : ℕ
  pub strtab_size : ℕ
  pub hstrtab_head : ℕ
  pub start : ℕ
  pub end : ℕ

module _ (mem : Memory) where
  -- The fields of a section header, which is 40 bytes long.
  abbrev pub section_name : ℕ → ℕ
  section_name section = word_at mem section

  abbrev pub section_type : ℕ → ℕ
  section_type section = word_at mem (section + 4)

  abbrev pub section_addr : ℕ → ℕ
  section_addr section = word_at mem (section + 12)

  abbrev pub section_offset : ℕ → ℕ
  section_offset section = word_at mem (section + 16)

  abbrev pub section_size : ℕ → ℕ
  section_size section = word_at mem (section + 20)

  -- The fields of a symbol, which is 16 bytes long.
  abbrev pub symbol_name : ℕ → ℕ
  symbol_name symbol = word_at mem symbol

  abbrev pub symbol_value : ℕ → ℕ
  symbol_value symbol = word_at mem (symbol + 4)

  abbrev pub symbol_type : ℕ → ℕ
  symbol_type symbol = mem (u32 (symbol + 12)) % 16

  abbrev pub section_at : Elf → ℕ → ℕ
  section_at hdr i = u32 (hdr.sectab_head + i * 40)

  abbrev pub symbol_at : Elf → ℕ → ℕ
  symbol_at hdr i = u32 (hdr.symtab_head + i * 16)

  unfoldable pub check_magic : ℕ → Bool
  check_magic hdr = bit_and (word_at mem hdr) 0x464C457F == 0x464C457F

  -- The loops of the look-ups go over `n` entries from entry `i` on.
  unfoldable pub by_name_loop : (fuel : ℕ) → Elf → (name n i : ℕ) → Option ℕ
  by_name_loop fuel hdr name zero i = some 0
  by_name_loop fuel hdr name (suc n) i =
      let section = section_at hdr i in
      let rest = by_name_loop fuel hdr name n (i + 1) in
      elim (strcmp fuel (u32 (hdr.hstrtab_head + section_name section)) name mem) [
        | none ↦ none
        | some differ ↦ if differ == 0 then some section else rest
      ]

  unfoldable pub lookup_section_by_name : (fuel : ℕ) → Elf → (name : ℕ) → Option ℕ
  lookup_section_by_name fuel hdr name = by_name_loop fuel hdr name hdr.sectab_size 0

  unfoldable pub by_type_loop : Elf → (type n i : ℕ) → ℕ
  by_type_loop hdr type zero i = 0
  by_type_loop hdr type (suc n) i =
      let rest = by_type_loop hdr type n (i + 1) in
      if section_type (section_at hdr i) == type then section_at hdr i else rest

  unfoldable pub lookup_section_by_type : Elf → (type : ℕ) → ℕ
  lookup_section_by_type hdr type = by_type_loop hdr type hdr.sectab_size 0

  -- One step of a search for the nearest entry, whose distance from `address` is taken in 32 bits.
  abbrev pub nearer : (place : ℕ → ℕ) (address entry nearest : ℕ) → ℕ
  nearer place address entry nearest =
      let first = if nearest == 0 then entry else nearest in
      if ltb (sub32 address (place entry)) (sub32 address (place first)) then entry else first

  unfoldable pub nearest_section_loop : Elf → (address n i nearest : ℕ) → ℕ
  nearest_section_loop hdr address zero i nearest = nearest
  nearest_section_loop hdr address (suc n) i nearest =
      nearest_section_loop hdr address n (i + 1)
        (nearer section_addr address (section_at hdr i) nearest)

  abbrev pub is_outside : Elf → ℕ → Bool
  is_outside hdr address =
      (hdr.sectab_size == 0)
      || (hdr.symtab_size == 0)
      || (ltb address hdr.start || ltb hdr.end address)

  unfoldable pub find_nearest_section_by_address : Elf → (address : ℕ) → ℕ
  find_nearest_section_by_address hdr address =
      if is_outside hdr address then 0 else nearest_section_loop hdr address hdr.sectab_size 0 0

  unfoldable pub nearest_symbol_loop : Elf → (type address n i nearest : ℕ) → ℕ
  nearest_symbol_loop hdr type address zero i nearest = nearest
  nearest_symbol_loop hdr type address (suc n) i nearest =
      nearest_symbol_loop hdr type address n (i + 1) (
        if symbol_type (symbol_at hdr i) == type
        then nearer symbol_value address (symbol_at hdr i) nearest
        else nearest)

  unfoldable pub find_nearest_symbol_by_address : Elf → (type address : ℕ) → ℕ
  find_nearest_symbol_by_address hdr type address =
      if is_outside hdr address then 0 else nearest_symbol_loop hdr type address hdr.symtab_size 0 0

  -- The symbols that the look-up by name passes over.
  abbrev pub is_skipped : Elf → (type symbol : ℕ) → Bool
  is_skipped hdr type symbol =
      not (symbol_type symbol == type)
      || (symbol_name symbol == 0)
      || ltb hdr.strtab_size (symbol_name symbol)

  unfoldable pub symbol_loop : (fuel : ℕ) → Elf → (type name n i : ℕ) → Option ℕ
  symbol_loop fuel hdr type name zero i = some 0
  symbol_loop fuel hdr type name (suc n) i =
      let symbol = symbol_at hdr i in
      let rest = symbol_loop fuel hdr type name n (i + 1) in
      if is_skipped hdr type symbol
      then rest
      else elim (strcmp fuel (u32 (hdr.strtab_head + symbol_name symbol)) name mem) [
        | none ↦ none
        | some differ ↦ if differ == 0 then some symbol else rest
      ]

  unfoldable pub lookup_symbol_by_name : (fuel : ℕ) → Elf → (type name : ℕ) → Option ℕ
  lookup_symbol_by_name fuel hdr type name =
      if (hdr.sectab_size == 0) || (hdr.symtab_size == 0) || (hdr.strtab_size == 0)
      then some 0
      else symbol_loop fuel hdr type name hdr.symtab_size 0

  -- The tables that the header gives, with the size of the table of symbols read through a null pointer
  -- if there is none.
  unfoldable pub load_tables : (header : ℕ) → Elf → Elf
  load_tables header out =
      let secs = u32 (header + word_at mem (header + 32)) in
      let names = u32 (secs + half_at mem (header + 50) * 40) in
      let out1 = record out {
        header = header;
        sectab_head = secs;
        sectab_size = half_at mem (header + 48);
        progtab_head = u32 (header + word_at mem (header + 28));
        progtab_size = half_at mem (header + 44);
        hstrtab_head = u32 (header + section_offset names);
      } in
      let syms = lookup_section_by_type out1 2 in
      let strs = lookup_section_by_type out1 3 in
      record out1 {
        symtab_head = if syms == 0 then 0 else u32 (header + section_offset syms);
        symtab_size = section_size syms / 16;
        strtab_head = if strs == 0 then 0 else u32 (header + section_offset strs);
        strtab_size = if strs == 0 then 0 else section_size strs;
      }

  -- The value of a symbol, 0 if there is none.
  abbrev pub value_or_zero : ℕ → ℕ
  value_or_zero symbol = if symbol == 0 then 0 else symbol_value symbol

  -- `start_name` and `end_name` are the addresses of the two literals.
  unfoldable pub elf_load : (fuel start_name end_name address : ℕ) → Elf → Option (Bool × Elf)
  elf_load fuel start_name end_name address out =
      if check_magic address
      then (let out1 = load_tables address out in
          elim (lookup_symbol_by_name fuel out1 0 start_name) [
            | none ↦ none
            | some startsym ↦
                let out2 = record out1 { start = value_or_zero startsym } in
                elim (lookup_symbol_by_name fuel out2 0 end_name) [
                  | none ↦ none
                  | some endsym ↦ some (true, record out2 { end = value_or_zero endsym })
                ]
          ])
      else some (false, out)
