-- ===== src/Syscalls/Tests.antt =====
-- The theorem on system calls when thread 7 gives up the first core to thread 8.
use just_kernel.Base.{
  ℕ, ◌≡◌, refl, inl, Bool, true, false, Option, none, some, [], ◌∷◌, ◌==◌, if◌then◌else◌, arith,
}
use just_kernel.Sched.{
  stopped, running, online, Thread, Core, sched, sched_runner, sched_switch, sched_online,
  update_sleeping_threads, age_threads, age_thread, pick_thread, pick_loop, save_thread,
  load_thread,
}
use just_kernel.Sched.Pair.{IsPair}
use just_kernel.Syscalls.{Kernel, CallCode, syscalls_set, set_sched, run_sched, syscalls_handler}
use just_kernel.Syscalls.Dispatch.{set_all}
use just_kernel.Syscalls.Yield.{Yielded, syscalls_handler-yield}

abbrev ready : (regs : ℕ) → Thread
ready regs = record {
  regs = regs;
  state = stopped;
  cpu = 0xffffffff;
  kernel_stack = 200;
  sleep_time = 0;
  exitcode = 0;
  priority = 5;
}

abbrev in_call : Core
in_call = record {
  in_irq = true;
  nested_irq = false;
  need_resched = false;
  irq_regs = 50;
  state = online;
  current_thread = some 7;
  idle_thread = 1;
  core_id = 0;
  esp0 = 0;
}

-- The registers of thread 7 are at 50, those of thread 8 at 60.
abbrev two_programs : Kernel
two_programs = record {
  frames =
      λ q. record { eax = if q == 50 then 2 else 9; ebx = 1; ecx = 2; edx = 3; esi = 4; edi = 5 };
  machine = record {
    threads = λ t. if t == 7 then record (ready 40) { state = running } else ready 60;
    thread_list = 7 ∷ 8 ∷ [];
    cores = λ c. in_call;
    sched_locked = false;
  };
}

two_programs-IsPair : IsPair 0 7 8 5 [] 7 8 two_programs.machine
two_programs-IsPair = record {
  unlocked = refl;
  at_online = refl;
  has_current = refl;
  runs = refl;
  waits = refl;
  listed = refl;
  order = inl (refl, refl);
  distinct = omega arith;
  current_here = refl;
  other_here = refl;
  current_priority = refl;
  other_priority = refl;
  bounded = omega arith;
  least = tt;
}

abbrev no_others : CallCode
no_others location a b c d e k = none

-- The eax of thread 8 after the call, with the pointer read before it or after it.
abbrev eax_after : (late : Bool) → Option ℕ
eax_after late =
    elim (syscalls_handler (run_sched no_others 0x100 0x200 0x300 77 0) late 0
      (set_sched 0x100 0x200 0x300 (λ q. 0)) two_programs) [
        | none ↦ none
        | some k ↦ some (k.frames 60).eax
      ]

stored_early : eax_after false ≡ some 9
unfolding syscalls_handler run_sched set_sched syscalls_set sched_runner sched sched_switch
    sched_online update_sleeping_threads age_threads age_thread pick_thread pick_loop save_thread
    load_thread
stored_early = refl

stored_late : eax_after true ≡ some 77
unfolding syscalls_handler run_sched set_sched syscalls_set sched_runner sched sched_switch
    sched_online update_sleeping_threads age_threads age_thread pick_thread pick_loop save_thread
    load_thread
stored_late = refl

syscalls_handler-yield_example :
    (k' : Kernel) × (syscalls_handler
        (run_sched no_others 0x100 0x200 0x300 77 0)
        true
        0
        (set_all ((8, 0x400) ∷ []) (set_sched 0x100 0x200 0x300 (λ q. 0)))
        two_programs
      ≡ some k')
    × Yielded 0 7 8 60 77 two_programs k'
syscalls_handler-yield_example =
    syscalls_handler-yield no_others true 0x100 0x200 0x300 77 0 7 8 5 7 8 [] ((8, 0x400) ∷ [])
      (λ q. 0) two_programs (omega arith) (omega arith) (omega arith) (omega arith, tt) refl
      two_programs-IsPair
