-- ===== src/Apic/Madt.antt =====
-- The table of interrupt controllers, parse_madt of src/sys/apic.c, over memory by bytes. A list of
-- pointers to entries is the list of their addresses, and the calls of vmm_map are kept in order, each
-- as its address and number of pages. The loop runs on fuel, since an entry of the size 0 stops it.
use just_kernel.Base.{
  ℕ, zero, suc, ◌+◌, Bool, true, false, Option, none, some, List, [], ◌∷◌, ◌++◌, ltb, ◌==◌,
  if◌then◌else◌, u32, sub32,
}
use just_kernel.Klibc.{Memory, word_at}

pub record Madt : Type 0 where
  pub lapic_base : ℕ
  pub madt_cpu : List ℕ
  pub madt_ioapic : List ℕ
  pub madt_iso : List ℕ
  pub madt_nmi : List ℕ
  pub mapped : List (ℕ × ℕ)

abbrev pub plist_add : Bool → (ptr : ℕ) → List ℕ → List ℕ
plist_add wanted ptr root = if wanted then root ++ (ptr ∷ []) else root

abbrev pub map_for : Bool → (address pages : ℕ) → List (ℕ × ℕ) → List (ℕ × ℕ)
map_for wanted address pages mapped = if wanted then mapped ++ ((address, pages) ∷ []) else mapped

module _ (mem : Memory) (madt : ℕ) where
  abbrev pub entry_at : ℕ → ℕ
  entry_at e = u32 (madt + 44 + e)

  -- The `switch` over the type of an entry.
  abbrev pub add_entry : (type ent : ℕ) → Madt → Madt
  add_entry type ent s = record {
    lapic_base = if type == 5 then word_at mem (ent + 2) else s.lapic_base;
    madt_cpu = plist_add (type == 0) ent s.madt_cpu;
    madt_ioapic = plist_add (type == 1) ent s.madt_ioapic;
    madt_iso = plist_add (type == 2) ent s.madt_iso;
    madt_nmi = plist_add (type == 4) ent s.madt_nmi;
    mapped = map_for (type == 1) (word_at mem (ent + 2)) 2 s.mapped;
  }

  -- `e` moves over the type and the size, by `size - 3`, and by the step of the loop.
  unfoldable pub parse_loop : (fuel bytes_for_entries e : ℕ) → Madt → Option Madt
  parse_loop zero bytes_for_entries e s = none
  parse_loop (suc fuel) bytes_for_entries e s =
      let size = mem (entry_at (u32 (e + 1))) in
      let next = u32 (u32 (u32 (e + 2) + sub32 size 3) + 1) in
      let rest =
        parse_loop fuel bytes_for_entries next
          (add_entry (mem (entry_at e)) (entry_at (u32 (e + 2))) s) in
      if ltb e bytes_for_entries then rest else some s

  unfoldable pub parse_madt : (fuel : ℕ) → Madt → Option (Bool × Madt)
  parse_madt fuel s =
      if madt == 0
      then some (false, s)
      else (let s0 : Madt = record {
        lapic_base = word_at mem (madt + 36);
        madt_cpu = [];
        madt_ioapic = [];
        madt_iso = [];
        madt_nmi = [];
        mapped = s.mapped ++ ((madt, 4) ∷ []);
      } in
          elim (parse_loop fuel (sub32 (word_at mem (madt + 4)) 44) 0 s0) [
            | none ↦ none
            | some s1 ↦ some (true, record s1 { mapped = s1.mapped ++ ((s1.lapic_base, 2) ∷ []) })
          ])
