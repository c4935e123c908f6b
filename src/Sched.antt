-- ===== src/Sched.antt =====
-- The scheduler, src/proc/sched.c, with the parts of src/mm/vmm.c and src/drivers/pit.c that call
-- it: threads by address, the global list of threads, and the locals of each core.
pub mod Pick
pub mod Inv
pub mod Turn
pub mod Sleep
pub mod Fault
pub mod Reach
pub mod Pair
pub mod Alternate
mod Tests
use just_kernel.Base.{
  ℕ, zero, suc, ◌+◌, ◌-◌, ◌*◌, ◌/◌, ◌%◌, ◌≤◌, ◌<◌, ◌≡◌, Bool, true, false, not, ◌&&◌, ◌||◌, Option,
  none, some, List, [], ◌∷◌, ◌++◌, ltb, leb, ◌==◌, if◌then◌else◌, u32,
}

-- `thread_state_t`
pub data ThreadState : Type 0 where
  stopped running sleeping terminated : ThreadState

-- `core_state_t`
pub data CoreState : Type 0 where
  offline booting online idle : CoreState

-- `thread_t`, the fields that the scheduler uses. `cpu` is a bit pattern: -1 is 0xffffffff.
pub record Thread : Type 0 where
  pub regs : ℕ
  pub state : ThreadState
  pub cpu : ℕ
  pub kernel_stack : ℕ
  pub sleep_time : ℕ
  pub exitcode : ℕ
  pub priority : ℕ

-- `core_locals_t`, with `esp0` of its task state segment, which `set_kernel_stack` writes.
pub record Core : Type 0 where
  pub in_irq : Bool
  pub nested_irq : Bool
  pub need_resched : Bool
  pub irq_regs : ℕ
  pub state : CoreState
  pub current_thread : Option ℕ
  pub idle_thread : ℕ
  pub core_id : ℕ
  pub esp0 : ℕ

-- Threads and cores by address, `thread_list` from the first to the last thread, and `_sched_lock`.
pub record Machine : Type 0 where
  pub threads : ℕ → Thread
  pub thread_list : List ℕ
  pub cores : ℕ → Core
  pub sched_locked : Bool

abbrev pub set_thread : ℕ → Thread → Machine → Machine
set_thread t r s = record s { threads = λ u. if u == t then r else s.threads u }

abbrev pub set_core : ℕ → Core → Machine → Machine
set_core c r s = record s { cores = λ d. if d == c then r else s.cores d }

abbrev pub is_stopped : ThreadState → Bool
is_stopped stopped = true
is_stopped _ = false

abbrev pub is_running : ThreadState → Bool
is_running running = true
is_running _ = false

abbrev pub is_sleeping : ThreadState → Bool
is_sleeping sleeping = true
is_sleeping _ = false

-- `PIT_SPEED_US * 8`: eight ticks of the timer, in microseconds.
abbrev pub round_us : ℕ
round_us = 3999 * 8

-- The body of the loop of `update_sleeping_threads`.
unfoldable pub age_thread : Thread → Thread
age_thread r =
    if is_sleeping r.state
    then (let left =
          r.sleep_time - (if ltb r.sleep_time round_us then r.sleep_time else round_us) in
        record r { sleep_time = left; state = if left == 0 then stopped else r.state })
    else r

unfoldable pub age_threads : List ℕ → Machine → Machine
age_threads [] s = s
age_threads (t ∷ ts) s = age_threads ts (set_thread t (age_thread (s.threads t)) s)

unfoldable pub update_sleeping_threads : ℕ → Machine → Machine
update_sleeping_threads c s = if (s.cores c).core_id == 0 then age_threads s.thread_list s else s

-- The condition of the loop of `pick_thread`: the thread may run on the core, and waits to run.
abbrev pub may_run : ℕ → Thread → Bool
may_run core_id r = ((r.cpu == 0xffffffff) || (r.cpu == core_id)) && is_stopped r.state

unfoldable pub pick_loop : (ℕ → Thread) → ℕ → List ℕ → Option ℕ → ℕ → Option ℕ
pick_loop threads core_id [] picked min_priority = picked
pick_loop threads core_id (t ∷ ts) picked min_priority =
    let better = may_run core_id (threads t) && ltb (threads t).priority min_priority in
    pick_loop threads core_id ts (if better then some t else picked)
      (if better then (threads t).priority else min_priority)

unfoldable pub pick_thread : ℕ → Machine → Option ℕ
pick_thread c s = pick_loop s.threads (s.cores c).core_id s.thread_list none 0xffffffff

unfoldable pub save_thread : ℕ → ℕ → ThreadState → Machine → Machine
save_thread c t state s =
    set_thread t (record (s.threads t) { state = state; regs = (s.cores c).irq_regs }) s

abbrev pub is_idle : CoreState → Bool
is_idle idle = true
is_idle _ = false

unfoldable pub load_thread : ℕ → ℕ → Machine → Machine
load_thread c t s =
    set_thread t (record (s.threads t) { state = running })
      (set_core c
        (record (s.cores c) {
          state = if is_idle (s.cores c).state then online else (s.cores c).state;
          current_thread = some t;
          irq_regs = (s.threads t).regs;
          esp0 = (s.threads t).kernel_stack;
        })
        s)

-- `none` is a failed `assert`, which is a panic.
unfoldable pub enter_idle : ℕ → Machine → Option Machine
enter_idle c s = elim (s.cores c).current_thread [
  | some t ↦ none
  | none ↦ some (
      set_core c
        (record (s.cores c) {
          state = idle;
          irq_regs = (s.threads (s.cores c).idle_thread).regs;
          esp0 = (s.threads (s.cores c).idle_thread).kernel_stack;
        })
        s)
]

-- The cases of the `switch` of `_sched`, after the sleepers are updated and a thread is picked.
unfoldable pub sched_online : ℕ → Option ℕ → Option ℕ → Machine → Option Machine
sched_online c none picked s = none
sched_online c (some t) picked s =
    if is_running (s.threads t).state
    then elim picked [ none ↦ some s | some u ↦ some (load_thread c u (save_thread c t stopped s)) ]
    else none

unfoldable pub sched_idle : ℕ → Option ℕ → Option ℕ → Machine → Option Machine
sched_idle c (some t) picked s = none
sched_idle c none none s = some s
sched_idle c none (some u) s = some (load_thread c u s)

unfoldable pub sched_booting : ℕ → Option ℕ → Machine → Option Machine
sched_booting c (some t) s = none
sched_booting c none s = enter_idle c s

unfoldable pub sched_switch : CoreState → ℕ → Option ℕ → Machine → Option Machine
sched_switch online c picked s = sched_online c (s.cores c).current_thread picked s
sched_switch idle c picked s = sched_idle c (s.cores c).current_thread picked s
sched_switch booting c picked s = sched_booting c (s.cores c).current_thread s
sched_switch offline c picked s = some s

unfoldable pub sched : ℕ → Machine → Option Machine
sched c s =
    let s' = update_sleeping_threads c s in sched_switch (s'.cores c).state c (pick_thread c s') s'

-- `_sched_runner`, and `sched_thread_yield`: nothing is done while the lock is taken.
unfoldable pub sched_runner : ℕ → Machine → Option Machine
sched_runner c s = if s.sched_locked then some s else sched c s

-- `_panic`: the core goes offline and never returns to the scheduler by itself.
unfoldable pub go_offline : ℕ → Machine → Machine
go_offline c s = set_core c (record (s.cores c) { state = offline }) s

-- `sched_run_thread`, and the loop of `sched_run_proc` over the threads of a process.
unfoldable pub sched_run_thread : ℕ → Machine → Option Machine
sched_run_thread t s =
    if is_stopped (s.threads t).state
    then some (record s { thread_list = s.thread_list ++ t ∷ [] })
    else none

unfoldable pub add_threads : List ℕ → Machine → Option Machine
add_threads [] s = some s
add_threads (t ∷ ts) s = elim (sched_run_thread t s) [ none ↦ none | some s' ↦ add_threads ts s' ]

unfoldable pub sched_run_proc : List ℕ → Machine → Option Machine
sched_run_proc [] s = none
sched_run_proc (t ∷ ts) s = add_threads (t ∷ ts) s

unfoldable pub sched_init_core : (c idle_thread : ℕ) → Machine → Machine
sched_init_core c idle_thread s =
    set_core c
      (record (s.cores c) { idle_thread = idle_thread; current_thread = none; state = booting }) s

-- What `sched_thread_exit` and `sched_thread_sleep` share: the current thread is saved in the state
-- `new_state`, changed further by `finish`, and given up.
unfoldable pub leave_thread : ℕ → ThreadState → (Thread → Thread) → Machine → Option Machine
leave_thread c new_state finish s = elim (s.cores c).current_thread [
  | none ↦ some s
  | some t ↦
      if (s.cores c).in_irq
      then (let s1 = save_thread c t new_state s in
          let s2 = set_thread t (finish (s1.threads t)) s1 in
          enter_idle c (set_core c (record (s2.cores c) { current_thread = none }) s2))
      else some s
]

unfoldable pub sched_thread_exit : (c code : ℕ) → Machine → Option Machine
sched_thread_exit c code = leave_thread c terminated (λ r. record r { exitcode = code })

unfoldable pub sched_thread_sleep : (c time_ms : ℕ) → Machine → Option Machine
sched_thread_sleep c time_ms =
    leave_thread c sleeping (λ r. record r { sleep_time = u32 (time_ms * 1000) })

-- `vmm_page_fault`, but for its messages.
unfoldable pub vmm_page_fault : ℕ → Machine → Machine
vmm_page_fault c s = elim (s.cores c).current_thread [
  | none ↦ set_core c (record (s.cores c) { need_resched = true }) s
  | some t ↦
      set_core c (record (s.cores c) { need_resched = true })
        (set_thread t (record (s.threads t) { state = terminated }) s)
]

-- `isr_handler`, but for its messages: `fatal` is its test for an invalid opcode or a general
-- protection fault outside of virtual 8086 mode, and the result holds the registers to return to.
unfoldable pub isr_enter : (c regs : ℕ) → Machine → Machine
isr_enter c regs s =
    if (s.cores c).in_irq
    then set_core c (record (s.cores c) { nested_irq = true }) s
    else set_core c (record (s.cores c) { in_irq = true; irq_regs = regs }) s

unfoldable pub isr_leave : (c regs : ℕ) → Machine → ℕ × Machine
isr_leave c regs s =
    if (s.cores c).nested_irq
    then (regs, set_core c (record (s.cores c) { nested_irq = false }) s)
    else ((s.cores c).irq_regs, set_core c (record (s.cores c) { in_irq = false }) s)

unfoldable pub isr_dispatch :
    (c int_num : ℕ) → Option (ℕ → Machine → Option Machine) → Machine → Option Machine
isr_dispatch c int_num (some handler) s = handler c s
isr_dispatch c int_num none s = if ltb int_num 32 then none else some s

unfoldable pub isr_reschedule : ℕ → Machine → Option Machine
isr_reschedule c s = if (s.cores c).need_resched then sched_runner c s else some s

unfoldable pub isr_return : (c regs : ℕ) → Option Machine → Option (ℕ × Machine)
isr_return c regs none = none
isr_return c regs (some s) = some (isr_leave c regs s)

unfoldable pub isr_continue : (c regs : ℕ) → Option Machine → Option (ℕ × Machine)
isr_continue c regs none = none
isr_continue c regs (some s) = isr_return c regs (isr_reschedule c s)

unfoldable pub isr_handler :
    (handlers : ℕ → Option (ℕ → Machine → Option Machine)) (fatal : Bool) (c int_num regs : ℕ)
    → Machine
    → Option (ℕ × Machine)
isr_handler handlers true c int_num regs s = none
isr_handler handlers false c int_num regs s =
    isr_continue c regs (isr_dispatch c int_num (handlers int_num) (isr_enter c regs s))
