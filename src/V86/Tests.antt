-- ===== src/V86/Tests.antt =====
-- The monitor on a small program: runs of the code, and its theorems at them.
use just_kernel.Base.{ℕ, ◌<◌, ◌≡◌, refl, true, ◌==◌, if◌then◌else◌, arith}
use just_kernel.V86.{Cpu, v86_monitor, v86_execute, v86_push, v86_int, v86_iret, v86_vector}
use just_kernel.V86.Decode.{code_byte, after_bytes, is_prefix, v86_monitor-execute}
use just_kernel.V86.Interrupt.{Resumes, v86_iret-int}

-- At 1000:0010 stand PUSHF with a 32-bit operand and INT 0x10, whose vector is F000:1234.
abbrev program : ℕ → ℕ
program x =
    if x == 0x10010
    then 0x67
    else if x == 0x10011
    then 0x66
    else if x == 0x10012
    then 0x9c
    else if x == 0x10013
    then 0xcd
    else if x == 0x10014
    then 0x10
    else if x == 0x40
    then 0x34
    else if x == 0x41
    then 0x12
    else if x == 0x43
    then 0xf0
    else 0

abbrev start : Cpu
start = record {
  eip = 0x10;
  cs = 0x1000;
  ds = 0;
  eflags = 0x246;
  eax = 0;
  ebx = 0;
  esp = 0;
  user_esp = 0xA000;
  user_ss = 0;
  v86_if = true;
  kernel_stack = 0;
  memory = program;
}

prefixes : (i : ℕ) → i < 2 → is_prefix (code_byte i start) ≡ true
prefixes i h = ground arith

v86_monitor-execute_example :
    v86_monitor 1 2 3 start ≡ v86_execute 1 2 0x9c true (after_bytes 3 start)
v86_monitor-execute_example = v86_monitor-execute 1 2 2 3 start prefixes refl (omega arith)

-- The interrupt at the start, and a handler that does nothing.
v86_iret-int_example : Resumes start (v86_iret (v86_int 0x10 start))
v86_iret-int_example =
    v86_iret-int 0x10 start (v86_int 0x10 start) (omega arith) (omega arith) (omega arith)
      (omega arith) (record { user_ss = refl; user_esp = refl; frame = λ x h. refl })

vector_run : (v86_int 0x10 start).eip ≡ 0x1234
unfolding v86_int v86_vector v86_push
vector_run = refl
