-- ===== src/Syscalls.antt =====
-- System calls, src/proc/syscalls.c: the table of calls and the handler of interrupt 0x80, with the
-- calls that sched_init of src/proc/sched.c sets. A null pointer is 0.
pub mod Dispatch
pub mod Yield
mod Tests
use just_kernel.Base.{ℕ, ◌+◌, Bool, Option, none, some, ltb, leb, ◌==◌, if◌then◌else◌}
use just_kernel.Sched.{Machine, sched_runner, sched_thread_exit, sched_thread_sleep}

-- The registers of the interrupted program that the handler reads.
pub record Regs : Type 0 where
  pub eax : ℕ
  pub ebx : ℕ
  pub ecx : ℕ
  pub edx : ℕ
  pub esi : ℕ
  pub edi : ℕ

-- The table is the start of memory by words: what stands behind its 256 entries is other data.
abbrev pub Table : Type 0
Table = ℕ → ℕ

unfoldable pub syscalls_set : (num call : ℕ) → Table → Table
syscalls_set num call table = if leb 256 num then table else λ q. if q == num then call else table q

-- The registers of interrupted programs by address, and the machine whose cores point to them.
pub record Kernel : Type 0 where
  pub frames : ℕ → Regs
  pub machine : Machine

-- The machine code of a call: with its location and its five arguments in their order it changes the
-- kernel and leaves a value in eax, or panics.
abbrev pub CallCode : Type 0
CallCode = (location a b c d e : ℕ) → Kernel → Option (ℕ × Kernel)

abbrev pub irq_regs : (core : ℕ) → Kernel → ℕ
irq_regs core k = (k.machine.cores core).irq_regs

abbrev pub store_eax : (address value : ℕ) → Kernel → Kernel
store_eax address value k = record k {
  frames = λ q. if q == address then record (k.frames q) { eax = value } else k.frames q;
}

-- The call may change which registers the core points to. The source does not say whether the pointer
-- through which the result is stored is read before the call or after it: `late` is true if it is
-- read after it.
unfoldable pub syscalls_handler :
    (run : CallCode) (late : Bool) (core : ℕ) → Table → Kernel → Option Kernel
syscalls_handler run late core table k =
    let regs = k.frames (irq_regs core k) in
    let location = table regs.eax in
    if location == 0
    then some k
    else elim (run location regs.ebx regs.ecx regs.edx regs.esi regs.edi k) [
      | none ↦ none
      | some (value, k') ↦
          some (store_eax (if late then irq_regs core k' else irq_regs core k) value k')
    ]

-- The calls that sched_init sets, by their locations.
unfoldable pub set_sched : (exit sleep yield : ℕ) → Table → Table
set_sched exit sleep yield table =
    syscalls_set 2 yield (syscalls_set 1 sleep (syscalls_set 0 exit table))

-- What a call leaves in eax, when its function has no result of its own.
abbrev pub leave : ℕ → (frames : ℕ → Regs) → Option Machine → Option (ℕ × Kernel)
leave value frames none = none
leave value frames (some s) = some (value, record { frames = frames; machine = s })

-- The machine code at the three locations, and `others` at all others.
unfoldable pub run_sched : (others : CallCode) (exit sleep yield value core : ℕ) → CallCode
run_sched others exit sleep yield value core location a b c d e k =
    if location == exit
    then leave value k.frames (sched_thread_exit core a k.machine)
    else if location == sleep
    then leave value k.frames (sched_thread_sleep core a k.machine)
    else if location == yield
    then leave value k.frames (sched_runner core k.machine)
    else others location a b c d e k
