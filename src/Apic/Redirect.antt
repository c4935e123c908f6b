-- ===== src/Apic/Redirect.antt =====
-- The redirection table of an I/O interrupt controller, src/sys/apic.c.
use just_kernel.Base.{
  ℕ, ◌+◌, ◌-◌, ◌*◌, ◌/◌, ◌≤◌, ◌<◌, ◌≡◌, ◌≢◌, refl, ◌∙◌, subst, some, ◌==◌, if◌then◌else◌, bit_or,
  u32, arith,
}
use just_kernel.Base.Bits.{shl, bit_or-shl, bit_or-swap}
use just_kernel.Apic.{
  IoApic, Registers, redirect_reg, ioapic_write, apic_write_redirection_table,
  apic_read_redirection_table,
}

-- Two halves of 64 bits.
halves :
    (low high : ℕ) → low < 4294967296 → bit_or low (high * 4294967296) ≡ high * 4294967296 + low
halves low high h =
    let shifted : shl 32 high ≡ high * 4294967296 = omega arith in
    bit_or-swap low (high * 4294967296)
    ∙ subst (λ x. bit_or x low ≡ x + low) shifted (bit_or-shl 32 high low h)

-- The number of the register for an interrupt number, and of the one behind it.
reg_value :
    (ioapic : IoApic) (gsi : ℕ)
    → gsi < 4294967296
    → ioapic.gsi_base ≤ gsi
    → gsi < ioapic.gsi_base + 1048576
    → (redirect_reg ioapic gsi ≡ (gsi - ioapic.gsi_base) * 2 + 16)
      × (u32 (redirect_reg ioapic gsi + 1) ≡ (gsi - ioapic.gsi_base) * 2 + 17)
reg_value ioapic gsi small from to = (omega arith, omega arith)

-- What a register of the controller holds after two writes.
two_writes :
    (addr r q low high : ℕ) (regs : Registers) (x : ℕ)
    → ioapic_write addr q high (ioapic_write addr r low regs) addr x
      ≡ (if x == q then high else if x == r then low else regs addr x)
two_writes addr r q low high regs x = ground arith

module _ (ioapic : IoApic) (gsi value : ℕ) (regs : Registers) (small : gsi < 4294967296)
    (from : ioapic.gsi_base ≤ gsi) (to : gsi < ioapic.gsi_base + 1048576) where
  abbrev addr : ℕ
  addr = ioapic.ioapic_addr

  abbrev written : Registers
  written =
      ioapic_write addr (u32 (redirect_reg ioapic gsi + 1)) (u32 (value / 4294967296))
        (ioapic_write addr (redirect_reg ioapic gsi) (u32 value) regs)

  own_low : written addr (redirect_reg ioapic gsi) ≡ u32 value
  own_low =
      let (low, high) = reg_value ioapic gsi small from to in
      two_writes addr (redirect_reg ioapic gsi) (u32 (redirect_reg ioapic gsi + 1)) (u32 value)
        (u32 (value / 4294967296)) regs (redirect_reg ioapic gsi)
      ∙ rw (high, low) (ground arith)

  own_high : written addr (u32 (redirect_reg ioapic gsi + 1)) ≡ u32 (value / 4294967296)
  own_high =
      two_writes addr (redirect_reg ioapic gsi) (u32 (redirect_reg ioapic gsi + 1)) (u32 value)
        (u32 (value / 4294967296)) regs (u32 (redirect_reg ioapic gsi + 1))
      ∙ ground arith

  -- Registers of other numbers.
  keeps :
      (x : ℕ)
      → x ≢ (gsi - ioapic.gsi_base) * 2 + 16
      → x ≢ (gsi - ioapic.gsi_base) * 2 + 17
      → written addr x ≡ regs addr x
  keeps x not_low not_high =
      let (low, high) = reg_value ioapic gsi small from to in
      two_writes addr (redirect_reg ioapic gsi) (u32 (redirect_reg ioapic gsi + 1)) (u32 value)
        (u32 (value / 4294967296)) regs x
      ∙ rw (high, low) (ground (arith, not_low, not_high))

-- A 64-bit entry that is written for an interrupt number of the controller is read back, and the
-- entries of its other numbers stay as they were. The numbers are less than 2 ^ 20 above the first
-- number of the controller.
pub apic_read-write :
    (ioapic : IoApic) (gsi value : ℕ) (regs : Registers)
    → value < 18446744073709551616
    → gsi < 4294967296
    → ioapic.gsi_base ≤ gsi
    → gsi < ioapic.gsi_base + 1048576
    → (apic_read_redirection_table
          (some ioapic)
          gsi
          (apic_write_redirection_table (some ioapic) gsi value regs).1
        ≡ value)
      × ((other : ℕ)
          → other ≢ gsi
          → ioapic.gsi_base ≤ other
          → other < ioapic.gsi_base + 1048576
          → other < 4294967296
          → apic_read_redirection_table
              (some ioapic)
              other
              (apic_write_redirection_table (some ioapic) gsi value regs).1
            ≡ apic_read_redirection_table (some ioapic) other regs)
unfolding apic_read_redirection_table apic_write_redirection_table
apic_read-write ioapic gsi value regs fits small from to = (
  rw (own_low ioapic gsi value regs small from to, own_high ioapic gsi value regs small from to)
      (halves (u32 value) (u32 (value / 4294967296)) (omega arith) ∙ omega arith),
  λ other apart from' to' small'.
      let (low, high) = reg_value ioapic other small' from' to' in
      let keep = keeps ioapic gsi value regs small from to in
      let keep_low =
        keep (redirect_reg ioapic other) (omega (arith, low, apart)) (omega (arith, low, apart)) in
      let keep_high =
        keep (u32 (redirect_reg ioapic other + 1)) (omega (arith, high, apart))
          (omega (arith, high, apart)) in
      rw (keep_low, keep_high) refl,
)
