-- ===== src/Tables.antt =====
-- The descriptor tables that the processor reads: the gates of src/int/idt.c and the segments of
-- src/int/gdt.c. The addresses of the assembly entry points isr0 to isr255 are a parameter.
pub mod Fields
pub mod Gates
mod Tests
use just_kernel.Base.{
  ℕ, zero, suc, ◌+◌, ◌*◌, ◌/◌, ◌%◌, ◌==◌, if◌then◌else◌, bit_and, bit_or, bit_xor, u8, Bool,
}

-- `idt_entry_t`
pub record IdtEntry : Type 0 where
  pub base_low : ℕ
  pub sel : ℕ
  pub always0 : ℕ
  pub flags : ℕ
  pub base_high : ℕ

-- `gdt_entry_t`: `limit_high` and `flags` are bit fields of four bits.
pub record GdtEntry : Type 0 where
  pub limit_low : ℕ
  pub base_low : ℕ
  pub base_middle : ℕ
  pub access : ℕ
  pub limit_high : ℕ
  pub flags : ℕ
  pub base_high : ℕ

-- `DESC_SEG(DESC_KERNEL_CODE, PL_RING0)` and `pack_flags(0xE, PL_RING3, 1)` of idt.c
abbrev pub kernel_code : ℕ
kernel_code = 0x08

abbrev pub gate_flags : ℕ
gate_flags = 0xE + 3 * 32 + 128

unfoldable pub idt_set_gate : (num base sel flags : ℕ) → (ℕ → IdtEntry) → (ℕ → IdtEntry)
idt_set_gate num base sel flags entries i =
    if i == u8 num
    then record {
      base_low = bit_and base 0xFFFF;
      sel = sel;
      always0 = 0;
      flags = bit_or flags 0x60;
      base_high = bit_and (base / 65536) 0xFFFF;
    }
    else entries i

-- `SET_GATE_ISR` for `count` numbers from `num` on.
unfoldable pub set_gates : (isr : ℕ → ℕ) (count num : ℕ) → (ℕ → IdtEntry) → (ℕ → IdtEntry)
set_gates isr zero num entries = entries
set_gates isr (suc count) num entries =
    set_gates isr count (num + 1) (idt_set_gate num (isr num) kernel_code gate_flags entries)

unfoldable pub idt_init : (isr : ℕ → ℕ) → (ℕ → IdtEntry) → (ℕ → IdtEntry)
idt_init isr entries = set_gates isr 256 0 entries

-- A change of the entry `num`.
abbrev set_entry : ℕ → GdtEntry → (ℕ → GdtEntry) → (ℕ → GdtEntry)
set_entry num entry entries i = if i == num then entry else entries i

unfoldable pub gdt_set_gate_base : (num base : ℕ) → (ℕ → GdtEntry) → (ℕ → GdtEntry)
gdt_set_gate_base num base entries =
    set_entry num
      (record (entries num) {
        base_low = bit_and base 0xFFFF;
        base_middle = bit_and (base / 65536) 0xFF;
        base_high = bit_and (base / 16777216) 0xFF;
      })
      entries

unfoldable pub gdt_set_gate_limit : (num limit : ℕ) → (ℕ → GdtEntry) → (ℕ → GdtEntry)
gdt_set_gate_limit num limit entries =
    set_entry num
      (record (entries num) {
        limit_low = bit_and limit 0xFFFF;
        limit_high = bit_and (limit / 65536) 0x0F;
      })
      entries

unfoldable pub gdt_set_gate_flags : (num flags : ℕ) → (ℕ → GdtEntry) → (ℕ → GdtEntry)
gdt_set_gate_flags num flags entries =
    set_entry num (record (entries num) { flags = flags % 16 }) entries

unfoldable pub gdt_set_gate_access : (num access : ℕ) → (ℕ → GdtEntry) → (ℕ → GdtEntry)
gdt_set_gate_access num access entries =
    set_entry num (record (entries num) { access = access }) entries

unfoldable pub gdt_set_gate_type : (num type : ℕ) → (ℕ → GdtEntry) → (ℕ → GdtEntry)
gdt_set_gate_type num type entries =
    set_entry num
      (record (entries num) {
        access = bit_or (bit_and (entries num).access 0xF0) (bit_and type 0x0F);
      })
      entries

unfoldable pub gdt_set_gate : (num base limit access flags : ℕ) → (ℕ → GdtEntry) → (ℕ → GdtEntry)
gdt_set_gate num base limit access flags entries = gdt_set_gate_access num access (
    gdt_set_gate_flags num flags
      (gdt_set_gate_limit num limit (gdt_set_gate_base num base entries)))

-- `pack_access`, `pack_access_system` and `pack_flags` of gdt.c, for fields in range
abbrev pub pack_access : (a rw_bit dc e dpl p : ℕ) → ℕ
pack_access a rw_bit dc e dpl p = a + rw_bit * 2 + dc * 4 + e * 8 + 16 + dpl * 32 + p * 128

abbrev pub pack_access_system : (type dpl p : ℕ) → ℕ
pack_access_system type dpl p = type + dpl * 32 + p * 128

abbrev pub pack_flags : (a db g : ℕ) → ℕ
pack_flags a db g = a + db * 4 + g * 8

unfoldable pub gdt_init : (ℕ → GdtEntry) → (ℕ → GdtEntry)
gdt_init entries =
    let flags = pack_flags 0 1 1 in
    let null = gdt_set_gate 0 0 0 0 0 entries in
    let kernel_code = gdt_set_gate 1 0 0xFFFFFFFF (pack_access 0 1 0 1 0 1) flags null in
    let kernel_data = gdt_set_gate 2 0 0xFFFFFFFF (pack_access 0 1 0 0 0 1) flags kernel_code in
    let user_code = gdt_set_gate 3 0 0xFFFFFFFF (pack_access 0 1 0 1 3 1) flags kernel_data in
    let user_data = gdt_set_gate 4 0 0xFFFFFFFF (pack_access 0 1 0 0 3 1) flags user_code in
    gdt_set_gate 5 0 0x68 (pack_access_system 0x9 3 1) flags user_data
