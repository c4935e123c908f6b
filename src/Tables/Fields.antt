-- ===== src/Tables/Fields.antt =====
-- The parts of a descriptor, src/int/gdt.c: what a processor puts together again.
use just_kernel.Base.{ℕ, ◌+◌, ◌*◌, ◌/◌, ◌%◌, ◌<◌, ◌≡◌, ◌≢◌, subst, bit_and, arith}
use just_kernel.Base.Bits.{shl, bit_and-ones}
use just_kernel.Tables.{
  GdtEntry, gdt_set_gate_base, gdt_set_gate_limit, gdt_set_gate_flags, gdt_set_gate_access,
  gdt_set_gate,
}

-- Masks of low bits.
pub low_16 : (b : ℕ) → bit_and b 0xFFFF ≡ b % 65536
low_16 b =
    let parts : shl 16 (b / 65536) + b % 65536 ≡ b = omega arith in
    subst (λ x. bit_and x 0xFFFF ≡ b % 65536) parts
      (bit_and-ones 16 (b / 65536) (b % 65536) (omega arith))

pub low_8 : (b : ℕ) → bit_and b 0xFF ≡ b % 256
low_8 b =
    let parts : shl 8 (b / 256) + b % 256 ≡ b = omega arith in
    subst (λ x. bit_and x 0xFF ≡ b % 256) parts (bit_and-ones 8 (b / 256) (b % 256) (omega arith))

pub low_4 : (b : ℕ) → bit_and b 0x0F ≡ b % 16
low_4 b =
    let parts : shl 4 (b / 16) + b % 16 ≡ b = omega arith in
    subst (λ x. bit_and x 0x0F ≡ b % 16) parts (bit_and-ones 4 (b / 16) (b % 16) (omega arith))

-- The base and the limit of a segment, as the processor reads them.
abbrev pub segment_base : GdtEntry → ℕ
segment_base e = e.base_low + e.base_middle * 65536 + e.base_high * 16777216

abbrev pub segment_limit : GdtEntry → ℕ
segment_limit e = e.limit_low + e.limit_high * 65536

-- The descriptor that a call of gdt_set_gate leaves.
pub record IsSegment (base limit access flags : ℕ) (e : GdtEntry) : Type 0 where
  pub at : segment_base e ≡ base
  pub size : segment_limit e ≡ limit % 1048576
  pub rights : e.access ≡ access
  pub bits : e.flags ≡ flags % 16

-- After gdt_set_gate with a 32-bit base the processor reads that base, the low 20 bits of the limit,
-- the access byte and the low four flags from the entry, and all other entries are as before.
pub gdt_set_gate-IsSegment :
    (num base limit access flags : ℕ) (entries : ℕ → GdtEntry)
    → base < 4294967296
    → IsSegment base limit access flags (gdt_set_gate num base limit access flags entries num)
      × ((i : ℕ) → i ≢ num → gdt_set_gate num base limit access flags entries i ≡ entries i)
unfolding gdt_set_gate gdt_set_gate_base gdt_set_gate_limit gdt_set_gate_flags gdt_set_gate_access
gdt_set_gate-IsSegment num base limit access flags entries small = (
  record {
    at = ground (arith, low_16 base, low_8 (base / 65536), low_8 (base / 16777216));
    size = ground (arith, low_16 limit, low_4 (limit / 65536));
    rights = ground arith;
    bits = ground arith;
  },
  λ i other. ground (arith, other),
)
