-- ===== src/Apic.antt =====
-- The I/O interrupt controllers, src/sys/apic.c: the registers of each by its address, and what the
-- code reads from and writes to them.
pub mod Madt
pub mod Parse
pub mod Configure
pub mod Legacy
pub mod Redirect
pub mod Find
mod Tests
use just_kernel.Base.{
  ℕ, ◌+◌, ◌*◌, ◌/◌, ◌%◌, ◌≡◌, Bool, true, false, ◌&&◌, Option, none, some, List, [], ◌∷◌, leb, ltb,
  ◌==◌, if◌then◌else◌, bit_and, bit_or, u32, sub32, u8,
}

-- `madt_ent1_t`
pub record IoApic : Type 0 where
  pub ioapic_addr : ℕ
  pub gsi_base : ℕ

-- The value of a register, by the address of its controller and its number.
abbrev pub Registers : Type 0
Registers = ℕ → ℕ → ℕ

-- `ioapic_read` and `ioapic_write`: the number selects the register that the data port shows.
abbrev pub ioapic_read : (ioapic_base addr : ℕ) → Registers → ℕ
ioapic_read ioapic_base addr regs = regs ioapic_base addr

abbrev pub ioapic_write : (ioapic_base addr value : ℕ) → Registers → Registers
ioapic_write ioapic_base addr value regs a r =
    if (a == ioapic_base) && (r == addr) then value else regs a r

unfoldable pub apic_get_gsi_max : IoApic → Registers → ℕ
apic_get_gsi_max ioapic regs = bit_and (u8 (ioapic_read ioapic.ioapic_addr 1 regs / 65536)) 0x7F

-- The condition of `apic_find_valid_ioapic`.
abbrev pub serves : (gsi : ℕ) → Registers → IoApic → Bool
serves gsi regs ioapic =
    leb ioapic.gsi_base gsi && leb gsi (u32 (apic_get_gsi_max ioapic regs + ioapic.gsi_base))

unfoldable pub find_valid : (gsi : ℕ) → Registers → List IoApic → Option IoApic → Option IoApic
find_valid gsi regs [] valid_ioapic = valid_ioapic
find_valid gsi regs (ioapic ∷ rest) valid_ioapic =
    find_valid gsi regs rest (if serves gsi regs ioapic then some ioapic else valid_ioapic)

unfoldable pub apic_find_valid_ioapic : (gsi : ℕ) → Registers → List IoApic → Option IoApic
apic_find_valid_ioapic gsi regs madt_ioapic = find_valid gsi regs madt_ioapic none

abbrev pub redirect_reg : IoApic → (gsi : ℕ) → ℕ
redirect_reg ioapic gsi = u32 (u32 (sub32 gsi ioapic.gsi_base * 2) + 16)

unfoldable pub apic_write_redirection_table :
    Option IoApic → (gsi value : ℕ) → Registers → ℕ × Registers
apic_write_redirection_table none gsi value regs = (1, regs)
apic_write_redirection_table (some ioapic) gsi value regs =
    let reg = redirect_reg ioapic gsi in
    let valid_addr = ioapic.ioapic_addr in
    (
      0,
      ioapic_write valid_addr (u32 (reg + 1)) (u32 (value / 4294967296))
          (ioapic_write valid_addr reg (u32 value) regs),
    )

abbrev pub bad_read : ℕ
bad_read = 0xFFFFFFFFFFFFFFFF

unfoldable pub apic_read_redirection_table : Option IoApic → (gsi : ℕ) → Registers → ℕ
apic_read_redirection_table none gsi regs = bad_read
apic_read_redirection_table (some ioapic) gsi regs =
    let reg = redirect_reg ioapic gsi in
    let valid_addr = ioapic.ioapic_addr in
    bit_or (ioapic_read valid_addr reg regs)
      (ioapic_read valid_addr (u32 (reg + 1)) regs * 4294967296)

unfoldable pub mask_gsi : Option IoApic → (gsi : ℕ) → Registers → Registers
mask_gsi ioapic gsi regs =
    let current_data = apic_read_redirection_table ioapic gsi regs in
    if current_data == bad_read
    then regs
    else (apic_write_redirection_table ioapic gsi (bit_or current_data 0x10000) regs).1

-- The entry for an interrupt: `irq + 32` as the vector, active low and level triggered as the flags
-- say, and the local controller that receives it.
abbrev pub redirect_entry : (irq flags apic : ℕ) → ℕ
redirect_entry irq flags apic =
    let vector = irq + 32 in
    let polarity = if bit_and flags 2 == 0 then vector else bit_or vector 0x2000 in
    let trigger = if bit_and flags 8 == 0 then polarity else bit_or polarity 0x8000 in
    bit_or trigger (apic * 72057594037927936)

unfoldable pub redirect_gsi : Option IoApic → (irq gsi flags apic : ℕ) → Registers → Registers
redirect_gsi ioapic irq gsi flags apic regs =
    (apic_write_redirection_table ioapic gsi (redirect_entry irq flags apic) regs).1
