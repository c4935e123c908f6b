-- ===== src/Tables/Tests.antt =====
-- The tables from empty ones: runs of the code, and its theorems.
use just_kernel.Base.{ℕ, ◌+◌, ◌*◌, ◌≡◌, ◌≢◌, refl, arith}
use just_kernel.Tables.{
  IdtEntry, GdtEntry, idt_init, gdt_set_gate, gdt_init, gdt_set_gate_base, gdt_set_gate_limit,
  gdt_set_gate_flags, gdt_set_gate_access,
}
use just_kernel.Tables.Fields.{IsSegment, segment_limit, gdt_set_gate-IsSegment}
use just_kernel.Tables.Gates.{IsGate, idt_init-IsGate}

abbrev no_gates : ℕ → IdtEntry
no_gates i = record { base_low = 0; sel = 0; always0 = 0; flags = 0; base_high = 0 }

abbrev no_segments : ℕ → GdtEntry
no_segments i = record {
  limit_low = 0;
  base_low = 0;
  base_middle = 0;
  access = 0;
  limit_high = 0;
  flags = 0;
  base_high = 0;
}

-- Entry points that stand 16 bytes apart from 1 MiB on.
abbrev entry_points : ℕ → ℕ
entry_points n = 0x100000 + n * 16

idt_init-IsGate_example : IsGate (entry_points 128) (idt_init entry_points no_gates 128)
idt_init-IsGate_example = idt_init-IsGate entry_points no_gates 128 (omega arith) (omega arith)

gdt_set_gate-IsSegment_example :
    IsSegment 0x12345678 0xFFFFFFFF 0x9A 0xC
      (gdt_set_gate 1 0x12345678 0xFFFFFFFF 0x9A 0xC no_segments 1)
    × ((i : ℕ)
        → i ≢ 1
        → gdt_set_gate 1 0x12345678 0xFFFFFFFF 0x9A 0xC no_segments i ≡ no_segments i)
gdt_set_gate-IsSegment_example =
    gdt_set_gate-IsSegment 1 0x12345678 0xFFFFFFFF 0x9A 0xC no_segments (omega arith)

-- The code segment of user programs covers 2 ^ 20 pages and has the rights 0xFA.
user_code_run : (gdt_init no_segments 3).access ≡ 0xFA
unfolding gdt_init gdt_set_gate gdt_set_gate_base gdt_set_gate_limit gdt_set_gate_flags
    gdt_set_gate_access
user_code_run = refl

user_limit_run : segment_limit (gdt_init no_segments 3) ≡ 0xFFFFF
unfolding gdt_init gdt_set_gate gdt_set_gate_base gdt_set_gate_limit gdt_set_gate_flags
    gdt_set_gate_access
user_limit_run = refl
