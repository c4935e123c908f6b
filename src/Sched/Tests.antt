-- ===== src/Sched/Tests.antt =====
-- The scheduler on two cores and three threads: runs of the code, and its theorems at these states.
use just_kernel.Base.{
  ℕ, ◌≡◌, refl, inl, inr, ◌≢◌, false, none, some, [], ◌∷◌, ◌==◌, if◌then◌else◌, arith,
}
use just_kernel.Sched.{
  stopped, running, sleeping, booting, online, idle, is_running, Thread, Core, Machine, set_core,
  load_thread, pick_thread, pick_loop, sched, sched_switch, sched_booting, sched_idle, sched_runner,
  enter_idle, update_sleeping_threads, vmm_page_fault, isr_handler,
}
use just_kernel.Sched.Pair.{IsPair}
use just_kernel.Sched.Alternate.{turns, turns_alternate}
use just_kernel.Sched.Pick.{IsChoice, pick_thread-IsChoice}
use just_kernel.Sched.Inv.{Ordered, Keeps}
use just_kernel.Sched.Reach.{IsBoot, Reaches, here, next, turn, run_call, Reaches-Keeps}
use just_kernel.Sched.Fault.{isr_handler-page_fault}
use just_kernel.Sched.Sleep.{update_times, after_rounds, update_times-after_rounds}

abbrev waiting_thread : ℕ → Thread
waiting_thread priority = record {
  regs = 100;
  state = stopped;
  cpu = 0xffffffff;
  kernel_stack = 200;
  sleep_time = 0;
  exitcode = 0;
  priority = priority;
}

abbrev booting_core : ℕ → Core
booting_core id = record {
  in_irq = false;
  nested_irq = false;
  need_resched = false;
  irq_regs = 0;
  state = booting;
  current_thread = none;
  idle_thread = 1;
  core_id = id;
  esp0 = 0;
}

-- Threads 7 and 8 wait, and thread 9 sleeps for 40 milliseconds.
abbrev two_cores : Machine
two_cores = record {
  threads = λ t.
      if t == 9
      then record (waiting_thread 5) { state = sleeping; sleep_time = 40000 }
      else waiting_thread (if t == 8 then 3 else 5);
  thread_list = 7 ∷ 8 ∷ 9 ∷ [];
  cores = λ c. booting_core c;
  sched_locked = false;
}

two_cores-IsBoot : IsBoot two_cores
two_cores-IsBoot = record { no_thread = λ c. refl; at_rest = λ c. inr refl }

-- The second core enters its idle thread, and takes thread 8 at its next turn.
abbrev one_idle : Machine
one_idle =
    set_core 1 (record (two_cores.cores 1) { state = idle; irq_regs = 100; esp0 = 200 }) two_cores

abbrev one_online : Machine
one_online = load_thread 1 8 one_idle

calls : Reaches two_cores one_online
unfolding run_call sched_runner sched sched_switch sched_booting sched_idle enter_idle
    update_sleeping_threads pick_thread pick_loop
calls = next (turn 1) (next (turn 1) here refl) refl

pick_thread-IsChoice_example : IsChoice 0 two_cores (pick_thread 0 two_cores)
pick_thread-IsChoice_example = pick_thread-IsChoice 0 two_cores

pick_run : pick_thread 0 two_cores ≡ some 8
unfolding pick_thread pick_loop
pick_run = refl

Reaches-Keeps_example : Ordered one_online × ((c : ℕ) → Keeps (sched c one_online))
Reaches-Keeps_example = Reaches-Keeps two_cores one_online two_cores-IsBoot calls

isr_handler-page_fault_example :
    isr_handler (λ n. some (λ d r. some (vmm_page_fault d r))) false 1 0x0E 300 one_online ≡ none
unfolding load_thread
isr_handler-page_fault_example =
    isr_handler-page_fault (λ n. some (λ d r. some (vmm_page_fault d r))) 1 8 300 one_online refl
      refl refl refl

-- 40 milliseconds outlast one round, and end with the second.
update_times-after_rounds_example :
    (update_times 2 0 two_cores).threads 9 ≡ after_rounds 2 (two_cores.threads 9)
update_times-after_rounds_example =
    update_times-after_rounds 2 0 9 two_cores refl refl refl (omega arith)

sleep_run : (after_rounds 1 (two_cores.threads 9)).sleep_time ≡ 8008
unfolding after_rounds
sleep_run = refl

-- The first core runs thread 7 while threads 8 and 9 wait with the same priority.
abbrev three_equal : Machine
three_equal = record {
  threads = λ t. if t == 7 then record (waiting_thread 5) { state = running } else waiting_thread 5;
  thread_list = 7 ∷ 8 ∷ 9 ∷ [];
  cores = λ c.
      if c == 0
      then record (booting_core 0) { state = online; current_thread = some 7 }
      else booting_core c;
  sched_locked = false;
}

three_equal-IsPair : IsPair 0 7 8 5 (9 ∷ []) 7 8 three_equal
three_equal-IsPair = record {
  unlocked = refl;
  at_online = refl;
  has_current = refl;
  runs = refl;
  waits = refl;
  listed = refl;
  order = inl (refl, refl);
  distinct = omega arith;
  current_here = refl;
  other_here = refl;
  current_priority = refl;
  other_priority = refl;
  bounded = omega arith;
  least = (omega arith, tt);
}

-- After a thousand turns thread 9 still waits.
turns_alternate_example :
    (s : Machine) × (turns 1000 0 three_equal ≡ some s)
    × ((s.cores 0).current_thread ≡ some 7)
    × ((u : ℕ)
        → u ≢ 7
        → u ≢ 8
        → is_running (s.threads u).state ≡ is_running (three_equal.threads u).state)
turns_alternate_example = turns_alternate 1000 0 7 8 5 7 8 (9 ∷ []) three_equal three_equal-IsPair
