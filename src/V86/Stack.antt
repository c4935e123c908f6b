-- ===== src/V86/Stack.antt =====
-- The stack of the interrupted program and its flags, src/proc/v86.c.
use just_kernel.Base.{
  ℕ, ◌%◌, ◌<◌, ◌≡◌, ap, ◌∙◌, Bool, true, false, Bool-cases, inl, inr, ◌==◌, if◌then◌else◌, u16,
  bit_or, arith,
}
use just_kernel.Base.Flags.{bit, bit-or, bit-and, bit_and-bit}
use just_kernel.V86.{
  Cpu, fp_to_linear, read16, read32, write16, write32, v86_push, v86_pop, test_if, virtual_flags,
  stack_below, v86_pushf, v86_popf,
}

-- What is written is read back, in the low bits that were written.
pub read16-write16 :
    (a value : ℕ) (memory : ℕ → ℕ) → read16 a (write16 a value memory) ≡ value % 65536
read16-write16 a value memory = ground arith

pub read32-write32 :
    (a value : ℕ) (memory : ℕ → ℕ) → read32 a (write32 a value memory) ≡ value % 4294967296
read32-write32 a value memory = ground arith

abbrev pub width : Bool → ℕ
width true = 4294967296
width false = 65536

-- A pop after a push gives the low 16 or 32 bits of the value, and the stack pointer as it was.
pub v86_pop-push :
    (value : ℕ) (is32 : Bool) (s : Cpu)
    → s.user_esp < 65536
    → ((v86_pop is32 (v86_push value is32 s)).0 ≡ value % width is32)
      × ((v86_pop is32 (v86_push value is32 s)).1.user_esp ≡ s.user_esp)
unfolding v86_push v86_pop
v86_pop-push value true s small =
    let a = fp_to_linear s.user_ss (stack_below 4 s) in
    let same : fp_to_linear s.user_ss (u16 (stack_below 4 s)) ≡ a = omega arith in
    (
      ap (λ b. read32 b (write32 a value s.memory)) same ∙ read32-write32 a value s.memory,
      omega arith,
    )
v86_pop-push value false s small =
    let a = fp_to_linear s.user_ss (stack_below 2 s) in
    let same : fp_to_linear s.user_ss (u16 (stack_below 2 s)) ≡ a = omega arith in
    (
      ap (λ b. read16 b (write16 a value s.memory)) same ∙ read16-write16 a value s.memory,
      omega arith,
    )

-- The interrupt flag is bit 9.
test_if-bit : (value : ℕ) → test_if value ≡ (bit 9 value == 1)
test_if-bit value = ground (arith, bit_and-bit 9 value)

bit-virtual_flags : (s : Cpu) → bit 9 (virtual_flags s) ≡ (if s.v86_if then 1 else 0)
unfolding virtual_flags
bit-virtual_flags s = elim (Bool-cases s.v86_if) [
  | inl on ↦ rw on (omega (arith, bit-or 9 (bit_or s.eflags 0x20002) 512))
  | inr off ↦ rw off (omega (arith, bit-and 9 (bit_or s.eflags 0x20002) 0xFFFFFDFF))
]

bit-width : (is32 : Bool) (value : ℕ) → bit 9 (value % width is32) ≡ bit 9 value
bit-width true value = omega arith
bit-width false value = omega arith

-- Popped flags, the low 16 or 32 bits of the flags that the program sees, bring back the virtual flag.
pub test_if-virtual_flags :
    (is32 : Bool) (s : Cpu) → test_if (bit_or (virtual_flags s % width is32) 0x20002) ≡ s.v86_if
unfolding virtual_flags
test_if-virtual_flags is32 s =
    let value = virtual_flags s % width is32 in
    let flag = bit-width is32 (virtual_flags s) ∙ bit-virtual_flags s in
    let both = bit-or 9 value 0x20002 in
    let kept : bit 9 (bit_or value 0x20002) ≡ (if s.v86_if then 1 else 0) =
      omega (arith, both, flag) in
    test_if-bit (bit_or value 0x20002) ∙ rw kept (ground arith)

-- A POPF right after a PUSHF of the same operand size brings back the virtual interrupt flag and the
-- stack pointer, for a 16-bit stack pointer.
pub v86_popf-pushf :
    (is32 : Bool) (s : Cpu)
    → s.user_esp < 65536
    → ((v86_popf is32 (v86_pushf is32 s)).v86_if ≡ s.v86_if)
      × ((v86_popf is32 (v86_pushf is32 s)).user_esp ≡ s.user_esp)
unfolding v86_popf v86_pushf
v86_popf-pushf is32 s small =
    let (value, pointer) = v86_pop-push (virtual_flags s) is32 s small in
    (rw value (test_if-virtual_flags is32 s), pointer)
