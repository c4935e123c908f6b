-- ===== src/Sched/Reach.antt =====
-- Sequences of calls of the scheduler, src/proc/sched.c, on any cores in any order.
use just_kernel.Base.{
  ℕ, ◌≡◌, refl, sym, subst, ◌∙◌, ◌⊎◌, inl, inr, Option, none, some, List, [], ◌∷◌, Option-cases,
  Bool-cases, arith,
}
use just_kernel.Sched.{
  offline, booting, Machine, is_stopped, sched, sched_runner, go_offline, sched_run_thread,
  add_threads, sched_run_proc, sched_init_core, sched_thread_exit, sched_thread_sleep, isr_enter,
  isr_leave,
}
use just_kernel.Sched.Inv.{Ordered, Keeps, rest-Ordered, keep-Ordered}
use just_kernel.Sched.Turn.{
  sched-Keeps, sched_runner-Keeps, sched_thread_exit-Keeps, sched_thread_sleep-Keeps,
}

-- The calls, each by the core that makes it.
pub data Call : Type 0 where
  turn go_down : (core : ℕ) → Call
  exit sleep : (core arg : ℕ) → Call
  run_thread : (thread : ℕ) → Call
  run_proc : (its_threads : List ℕ) → Call
  init_core : (core its_idle : ℕ) → Call
  enter_irq leave_irq : (core regs : ℕ) → Call

unfoldable pub run_call : Call → Machine → Option Machine
run_call (turn c) s = sched_runner c s
run_call (go_down c) s = some (go_offline c s)
run_call (exit c code) s = sched_thread_exit c code s
run_call (sleep c time_ms) s = sched_thread_sleep c time_ms s
run_call (run_thread t) s = sched_run_thread t s
run_call (run_proc ts) s = sched_run_proc ts s
run_call (init_core c its_idle) s = some (sched_init_core c its_idle s)
run_call (enter_irq c regs) s = some (isr_enter c regs s)
run_call (leave_irq c regs) s = some (isr_leave c regs s).1

-- The states that a sequence of calls leads to, each of which returns.
pub data Reaches : Machine → Machine → Type 0 where
  here : {s : Machine} → Reaches s s
  next :
      {s s1 s2 : Machine} (call : Call) → Reaches s s1 → run_call call s1 ≡ some s2 → Reaches s s2

some_injective : (s s' : Machine) → some s ≡ some s' → s ≡ s'
some_injective s s' e = ground (arith, e)

-- A run that keeps the invariant, and one that may fail an assert.
Safe : Option Machine → Type 0
Safe result = (s : Machine) → result ≡ some s → Ordered s

Keeps-Safe : (result : Option Machine) → Keeps result → Safe result
unfolding Keeps Safe
Keeps-Safe none (s, e, ok) s' e' = absurd (ground (arith, e))
Keeps-Safe (some r) (s, e, ok) s' e' = subst Ordered (some_injective s s' (sym e ∙ e')) ok

some-Safe : {s : Machine} → Ordered s → Safe (some s)
unfolding Safe
some-Safe ok s' e = subst Ordered (some_injective _ s' e) ok

none-Safe : Safe none
unfolding Safe
none-Safe s e = absurd (ground (arith, e))

-- More threads on the list change neither threads nor cores.
run_thread-Safe : (t : ℕ) (s : Machine) → Ordered s → Safe (sched_run_thread t s)
unfolding sched_run_thread
run_thread-Safe t s ok = elim (Bool-cases (is_stopped (s.threads t).state)) [
  | inr e ↦ rw e none-Safe
  | inl e ↦ rw e (some-Safe (record { runs = ok.runs; alone = ok.alone; slots = ok.slots }))
]

add_threads-Safe : (ts : List ℕ) (s : Machine) → Ordered s → Safe (add_threads ts s)
unfolding add_threads Safe
add_threads-Safe [] s ok = some-Safe ok
add_threads-Safe (t ∷ ts) s ok = elim (Option-cases (sched_run_thread t s)) [
  | inl e ↦ rw (e, add_threads) none-Safe
  | inr (s', e) ↦ rw (e, add_threads) (add_threads-Safe ts s' (run_thread-Safe t s ok s' e))
]

run_proc-Safe : (ts : List ℕ) (s : Machine) → Ordered s → Safe (sched_run_proc ts s)
unfolding sched_run_proc
run_proc-Safe [] s ok = none-Safe
run_proc-Safe (t ∷ ts) s ok = add_threads-Safe (t ∷ ts) s ok

enter-Ordered : (c regs : ℕ) (s : Machine) → Ordered s → Ordered (isr_enter c regs s)
unfolding isr_enter
enter-Ordered c regs s ok = elim (Bool-cases (s.cores c).in_irq) [
  | inl e ↦ rw e (keep-Ordered c s _ ok refl (ok.slots c))
  | inr e ↦ rw e (keep-Ordered c s _ ok refl (ok.slots c))
]

leave-Ordered : (c regs : ℕ) (s : Machine) → Ordered s → Ordered (isr_leave c regs s).1
unfolding isr_leave
leave-Ordered c regs s ok = elim (Bool-cases (s.cores c).nested_irq) [
  | inl e ↦ rw e (keep-Ordered c s _ ok refl (ok.slots c))
  | inr e ↦ rw e (keep-Ordered c s _ ok refl (ok.slots c))
]

run_call-Safe : (call : Call) (s : Machine) → Ordered s → Safe (run_call call s)
unfolding run_call go_offline sched_init_core
run_call-Safe (turn c) s ok = Keeps-Safe _ (sched_runner-Keeps c s ok)
run_call-Safe (go_down c) s ok = some-Safe (keep-Ordered c s _ ok refl refl)
run_call-Safe (exit c code) s ok = Keeps-Safe _ (sched_thread_exit-Keeps c code s ok)
run_call-Safe (sleep c time_ms) s ok = Keeps-Safe _ (sched_thread_sleep-Keeps c time_ms s ok)
run_call-Safe (run_thread t) s ok = run_thread-Safe t s ok
run_call-Safe (run_proc ts) s ok = run_proc-Safe ts s ok
run_call-Safe (init_core c its_idle) s ok = some-Safe (rest-Ordered c s _ ok refl refl)
run_call-Safe (enter_irq c regs) s ok = some-Safe (enter-Ordered c regs s ok)
run_call-Safe (leave_irq c regs) s ok = some-Safe (leave-Ordered c regs s ok)

-- Before the first call, no core has a thread and none is online.
pub record IsBoot (s : Machine) : Type 0 where
  pub no_thread : (c : ℕ) → (s.cores c).current_thread ≡ none
  pub at_rest : (c : ℕ) → ((s.cores c).state ≡ offline) ⊎ ((s.cores c).state ≡ booting)

boot-Ordered : (s : Machine) → IsBoot s → Ordered s
boot-Ordered s boot = record {
  runs = λ c t e. absurd (ground (arith, boot.no_thread c));
  alone = λ c d t e e'. absurd (ground (arith, boot.no_thread c));
  slots = λ c. ground (arith, boot.no_thread c, boot.at_rest c);
}

Reaches-Ordered : {s s' : Machine} → Ordered s → Reaches s s' → Ordered s'
unfolding Safe
Reaches-Ordered ok here = ok
Reaches-Ordered ok (next {s1 = s1} {s2 = s2} call before run) =
    run_call-Safe call s1 (Reaches-Ordered ok before) s2 run

-- Whatever calls were made since boot, on whatever cores, each thread that a core has is running, no
-- thread is on two cores, online cores have a thread and idle and booting cores have none, and the
-- next _sched passes its asserts on every core and keeps all this.
pub Reaches-Keeps :
    (s s' : Machine) → IsBoot s → Reaches s s' → Ordered s' × ((c : ℕ) → Keeps (sched c s'))
Reaches-Keeps s s' boot calls =
    let ok = Reaches-Ordered (boot-Ordered s boot) calls in (ok, λ c. sched-Keeps c s' ok)
