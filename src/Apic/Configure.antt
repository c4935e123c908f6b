-- ===== src/Apic/Configure.antt =====
-- The set-up of the interrupt controllers, apic_configure of src/sys/apic.c, from the lists of
-- parse_madt on. Registers of the local controller keep what is written to them.
use just_kernel.Base.{
  ℕ, zero, suc, ◌+◌, Bool, true, false, ◌&&◌, Option, none, some, List, [], ◌∷◌, ◌++◌, map, ltb,
  leb, ◌==◌, if◌then◌else◌, bit_and, bit_or, u32,
}
use just_kernel.Klibc.{Memory, half_at, word_at}
use just_kernel.Apic.{
  IoApic, Registers, apic_get_gsi_max, apic_find_valid_ioapic, mask_gsi, redirect_gsi,
}
use just_kernel.Apic.Madt.{Madt, parse_madt}

-- The local controller, the registers of the processor by number, and the bytes sent to ports.
pub record Apic : Type 0 where
  pub msr : ℕ → ℕ
  pub lapic : ℕ → ℕ
  pub ports : List (ℕ × ℕ)
  pub regs : Registers
  pub madt : Madt

-- `port_outb`
abbrev pub port_outb : (port byte : ℕ) → Apic → Apic
port_outb port byte s = record s { ports = s.ports ++ ((port, byte) ∷ []) }

unfoldable pub pic_disable : Apic → Apic
pic_disable s = port_outb 0xA1 0xff (port_outb 0x21 0xff s)

abbrev pub read_lapic : ℕ → Apic → ℕ
read_lapic reg s = s.lapic (bit_and reg 0xFFFF)

abbrev pub write_lapic : (reg value : ℕ) → Apic → Apic
write_lapic reg value s = record s {
  lapic = λ r. if r == bit_and reg 0xFFFF then value else s.lapic r;
}

abbrev pub write_msr : (msr value : ℕ) → Apic → Apic
write_msr msr value s = record s { msr = λ r. if r == msr then value else s.msr r }

unfoldable pub apic_configure_ap : Apic → Apic
apic_configure_ap s =
    let s1 = write_msr 0x1B (bit_and (bit_or (s.msr 0x1B) 0x800) 0xFFFFFFFFFFFFFBFF) s in
    write_lapic 0xF0 (bit_or (read_lapic 0xF0 s1) 0x1FF) s1

unfoldable pub apic_eoi : Apic → Apic
apic_eoi s = write_lapic 0xB0 0 s

-- The loop that masks the entries of a controller. Its bound is below 128, so that 127 rounds are enough.
unfoldable pub mask_loop : (rounds gsi : ℕ) → IoApic → Registers → Registers
mask_loop zero gsi ioapic regs = regs
mask_loop (suc rounds) gsi ioapic regs =
    let rest = mask_loop rounds (u32 (gsi + 1)) ioapic (mask_gsi (some ioapic) gsi regs) in
    if ltb gsi (apic_get_gsi_max ioapic regs) then rest else regs

abbrev pub mark : (gsi : ℕ) → (ℕ → Bool) → ℕ → Bool
mark gsi mapped_irqs i = if (i == gsi) && ltb gsi 16 then true else mapped_irqs i

-- The loop over the first 16 numbers, `n` of them left.
unfoldable pub map_rest : (n i : ℕ) → List IoApic → (ℕ → Bool) → Registers → Registers
map_rest zero i ioapics mapped_irqs regs = regs
map_rest (suc n) i ioapics mapped_irqs regs = map_rest n (i + 1) ioapics mapped_irqs (
    if mapped_irqs i
    then regs
    else redirect_gsi (apic_find_valid_ioapic i regs ioapics) i i 0 0 regs)

module _ (mem : Memory) where
  -- `madt_ent1_t` at an address
  abbrev pub ioapic_at : ℕ → IoApic
  ioapic_at ent = record { ioapic_addr = word_at mem (ent + 2); gsi_base = word_at mem (ent + 6) }

  -- `irq_src`, `gsi` and `flags` of `madt_ent2_t` at an address
  abbrev pub iso_irq : ℕ → ℕ
  iso_irq ent = mem (u32 (ent + 1))

  abbrev pub iso_gsi : ℕ → ℕ
  iso_gsi ent = word_at mem (ent + 2)

  abbrev pub iso_flags : ℕ → ℕ
  iso_flags ent = half_at mem (ent + 6)

  -- The loop over the overrides, for a controller whose last number is `gsi_max`.
  unfoldable pub redirect_isos :
      IoApic → (gsi_max : ℕ) → List ℕ → (ℕ → Bool) → Registers → (ℕ → Bool) × Registers
  redirect_isos ioapic gsi_max [] mapped_irqs regs = (mapped_irqs, regs)
  redirect_isos ioapic gsi_max (iso ∷ rest) mapped_irqs regs =
      let inside = leb ioapic.gsi_base (iso_gsi iso) && leb (iso_gsi iso) gsi_max in
      redirect_isos ioapic gsi_max rest
        (if inside then mark (iso_gsi iso) mapped_irqs else mapped_irqs)
        (if inside
          then redirect_gsi (some ioapic) (iso_irq iso) (iso_gsi iso) (iso_flags iso) 0 regs
          else regs)

  unfoldable pub configure_ioapic :
      (isos : List ℕ) → IoApic → (ℕ → Bool) → Registers → (ℕ → Bool) × Registers
  configure_ioapic isos ioapic mapped_irqs regs =
      let masked = mask_loop 127 ioapic.gsi_base ioapic regs in
      redirect_isos ioapic (u32 (apic_get_gsi_max ioapic masked + ioapic.gsi_base)) isos mapped_irqs
        masked

  unfoldable pub configure_ioapics :
      (isos : List ℕ) → List ℕ → (ℕ → Bool) → Registers → (ℕ → Bool) × Registers
  configure_ioapics isos [] mapped_irqs regs = (mapped_irqs, regs)
  configure_ioapics isos (ent ∷ rest) mapped_irqs regs =
      let (mapped, regs') = configure_ioapic isos (ioapic_at ent) mapped_irqs regs in
      configure_ioapics isos rest mapped regs'

  -- The first result is the one of the function.
  unfoldable pub apic_configure : (fuel madt : ℕ) → Apic → Option (ℕ × Apic)
  apic_configure fuel madt s =
      let s1 = pic_disable s in
      elim (parse_madt mem madt fuel s1.madt) [
        | none ↦ none
        | some (false, lists) ↦ some (1, record s1 { madt = lists })
        | some (true, lists) ↦
            let s2 = apic_configure_ap (record s1 { madt = lists }) in
            let (mapped, regs) =
              configure_ioapics lists.madt_iso lists.madt_ioapic (λ i. false) s2.regs in
            some
              (0, record s2 { regs = map_rest 16 0 (map ioapic_at lists.madt_ioapic) mapped regs })
      ]
