-- ===== src/V86.antt =====
-- The virtual 8086 monitor, src/proc/v86.c: the registers of the interrupted program, its virtual
-- interrupt flag, and memory by bytes.
pub mod Stack
pub mod Decode
pub mod Interrupt
mod Tests
use just_kernel.Base.{
  ℕ, zero, suc, ◌+◌, ◌*◌, ◌-◌, ◌/◌, ◌%◌, Bool, true, false, not, Option, none, some, ◌==◌,
  if◌then◌else◌, u8, u16, u32, bit_and, bit_or,
}

-- The part of `core_regs_t` and `thread_t` that the monitor reads and writes.
pub record Cpu : Type 0 where
  pub eip : ℕ
  pub cs : ℕ
  pub ds : ℕ
  pub eflags : ℕ
  pub eax : ℕ
  pub ebx : ℕ
  pub esp : ℕ
  pub user_esp : ℕ
  pub user_ss : ℕ
  pub v86_if : Bool
  pub kernel_stack : ℕ
  pub memory : ℕ → ℕ

-- `FP_TO_LINEAR`
abbrev pub fp_to_linear : (seg off : ℕ) → ℕ
fp_to_linear seg off = u16 seg * 16 + u16 off

unfoldable pub v86_farptr2linear : ℕ → ℕ
v86_farptr2linear fp = fp_to_linear (fp / 65536) (fp % 65536)

-- Little-endian reads and writes.
abbrev pub read16 : ℕ → (ℕ → ℕ) → ℕ
read16 a memory = memory a + memory (a + 1) * 256

abbrev pub read32 : ℕ → (ℕ → ℕ) → ℕ
read32 a memory = read16 a memory + read16 (a + 2) memory * 65536

abbrev pub write16 : (a value : ℕ) → (ℕ → ℕ) → (ℕ → ℕ)
write16 a value memory x =
    if x == a then value % 256 else if x == a + 1 then value / 256 % 256 else memory x

abbrev pub write32 : (a value : ℕ) → (ℕ → ℕ) → (ℕ → ℕ)
write32 a value memory = write16 (a + 2) (value / 65536) (write16 a value memory)

-- `uint16_t stack = regs->user.esp; stack -= n`
abbrev pub stack_below : (n : ℕ) → Cpu → ℕ
stack_below n s = u16 (u16 s.user_esp + 65536 - n)

unfoldable pub v86_push : (value : ℕ) (is32 : Bool) → Cpu → Cpu
v86_push value true s =
    let stack = stack_below 4 s in
    record s { user_esp = stack; memory = write32 (fp_to_linear s.user_ss stack) value s.memory }
v86_push value false s =
    let stack = stack_below 2 s in
    record s { user_esp = stack; memory = write16 (fp_to_linear s.user_ss stack) value s.memory }

unfoldable pub v86_pop : (is32 : Bool) → Cpu → ℕ × Cpu
v86_pop true s =
    let stack = u16 s.user_esp in
    (read32 (fp_to_linear s.user_ss stack) s.memory, record s { user_esp = u16 (stack + 4) })
v86_pop false s =
    let stack = u16 s.user_esp in
    (read16 (fp_to_linear s.user_ss stack) s.memory, record s { user_esp = u16 (stack + 2) })

-- `(*(uint16_t*)&regs->base.eip)++` counts in the low half only.
abbrev pub next_ip : ℕ → ℕ
next_ip eip = eip / 65536 * 65536 + u16 (eip + 1)

unfoldable pub v86_get_ip_byte : Cpu → ℕ × Cpu
v86_get_ip_byte s = (s.memory (fp_to_linear s.cs s.eip), record s { eip = next_ip s.eip })

-- `TEST_BIT(value, 9)`, and the flags that the program sees.
abbrev pub test_if : ℕ → Bool
test_if value = not (bit_and value 512 == 0)

unfoldable pub virtual_flags : Cpu → ℕ
virtual_flags s =
    let eflags = bit_or s.eflags 0x20002 in
    if s.v86_if then bit_or eflags 512 else bit_and eflags 0xFFFFFDFF

unfoldable pub v86_pushf : (is_operand32 : Bool) → Cpu → Cpu
v86_pushf is_operand32 s = v86_push (virtual_flags s) is_operand32 s

abbrev pub set_flags : ℕ → Cpu → Cpu
set_flags popped s =
    let eflags = bit_or popped 0x20002 in record s { eflags = eflags; v86_if = test_if eflags }

unfoldable pub v86_popf : (is_operand32 : Bool) → Cpu → Cpu
v86_popf is_operand32 s = let (popped, s1) = v86_pop is_operand32 s in set_flags popped s1

-- The addresses of `_exit_v86` and `v86_exit`, which the linker gives, are parameters.
unfoldable pub v86_leave : (exit_stub exit_handler : ℕ) → Cpu → Cpu
v86_leave exit_stub exit_handler s = record s {
  cs = 0x08;
  ds = 0x10;
  eip = exit_stub;
  eflags = 0x202;
  esp = s.kernel_stack;
  eax = exit_handler;
  ebx = s.user_esp;
}

-- `ivt[int_num]`: the offset and the segment of the handler.
unfoldable pub v86_vector : (int_num : ℕ) → Cpu → Cpu
v86_vector int_num s = record s {
  cs = read16 (int_num * 4 + 2) s.memory;
  eip = read16 (int_num * 4) s.memory;
}

unfoldable pub v86_int : (int_num : ℕ) → Cpu → Cpu
v86_int int_num s =
    let s1 = v86_push (virtual_flags s) false s in
    let s2 = v86_push s1.cs false s1 in v86_vector int_num (v86_push s2.eip true s2)

unfoldable pub v86_iret : Cpu → Cpu
v86_iret s =
    let (eip, s1) = v86_pop true s in
    let (cs, s2) = v86_pop false (record s1 { eip = eip }) in
    let (popped, s3) = v86_pop false (record s2 { cs = cs }) in set_flags popped s3

-- How a run of the monitor ends.
pub data Run : Type 0 where
  done : Cpu → Run
  panicked no_fuel : Run

module _ (exit_stub exit_handler : ℕ) where
  unfoldable pub v86_int_n : Cpu → Run
  v86_int_n s =
      let (int_num, s1) = v86_get_ip_byte s in
      done (if int_num == 3 then v86_leave exit_stub exit_handler s1 else v86_int int_num s1)

  -- The instructions that end the loop of `v86_monitor`.
  unfoldable pub v86_execute : (instr : ℕ) (is_operand32 : Bool) → Cpu → Run
  v86_execute instr is_operand32 s =
      if instr == 0x9c
      then done (v86_pushf is_operand32 s)
      else if instr == 0x9d
      then done (v86_popf is_operand32 s)
      else if instr == 0xcd
      then v86_int_n s
      else if instr == 0xcf
      then done (v86_iret s)
      else if instr == 0xfa
      then done (record s { v86_if = false })
      else if instr == 0xfb
      then done (record s { v86_if = true })
      else panicked

  unfoldable pub v86_loop : (fuel : ℕ) (is_operand32 : Bool) → Cpu → Run
  v86_loop zero is_operand32 s = no_fuel
  v86_loop (suc fuel) is_operand32 s =
      let (instr, s1) = v86_get_ip_byte s in
      let after_o32 = v86_loop fuel true s1 in
      let after_a32 = v86_loop fuel is_operand32 s1 in
      if instr == 0x66
      then after_o32
      else if instr == 0x67
      then after_a32
      else v86_execute instr is_operand32 s1

  unfoldable pub v86_monitor : (fuel : ℕ) → Cpu → Run
  v86_monitor fuel s = v86_loop fuel false s
