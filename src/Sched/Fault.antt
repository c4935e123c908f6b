-- ===== src/Sched/Fault.antt =====
-- A page fault in a thread: vmm_page_fault of src/mm/vmm.c, then the scheduler as isr_handler of
-- src/int/isr.c calls it.
use just_kernel.Base.{ℕ, ◌≡◌, refl, ap, ◌∙◌, true, false, Option, none, some, arith}
use just_kernel.Sched.{
  CoreState, offline, booting, online, idle, Machine, is_running, sched, sched_switch, sched_online,
  sched_runner, update_sleeping_threads, vmm_page_fault, isr_enter, isr_dispatch, isr_continue,
  isr_return, isr_reschedule, isr_handler, pick_thread,
}
use just_kernel.Sched.Inv.{update-cores, update-running}

-- An online core whose thread is not running fails an assert of `_sched`.
online-halts :
    (c t : ℕ) (slot picked : Option ℕ) (s : Machine)
    → slot ≡ some t
    → is_running (s.threads t).state ≡ false
    → sched_online c slot picked s ≡ none
unfolding sched_online
online-halts c t none picked s current dead = refl
online-halts c t (some u) picked s current dead = ground (arith, current, dead)

switch-halts :
    (c t : ℕ) (state : CoreState) (picked : Option ℕ) (s : Machine)
    → state ≡ online
    → (s.cores c).current_thread ≡ some t
    → is_running (s.threads t).state ≡ false
    → sched_switch state c picked s ≡ none
unfolding sched_switch
switch-halts c t online picked s at current dead =
    online-halts c t (s.cores c).current_thread picked s current dead
switch-halts c t idle picked s at current dead = absurd (ground (arith, at))
switch-halts c t booting picked s at current dead = absurd (ground (arith, at))
switch-halts c t offline picked s at current dead = absurd (ground (arith, at))

sched-halts :
    (c t : ℕ) (s : Machine)
    → (s.cores c).state ≡ online
    → (s.cores c).current_thread ≡ some t
    → is_running (s.threads t).state ≡ false
    → sched c s ≡ none
unfolding sched
sched-halts c t s at current dead =
    let s' = update_sleeping_threads c s in
    let same = update-cores c s in
    switch-halts c t (s'.cores c).state (pick_thread c s') s' (rw same at) (rw same current)
      (update-running c s t ∙ dead)

-- What the handler leaves: the current thread is terminated, and a switch of threads is asked for.
record IsFault (c t : ℕ) (s : Machine) : Type 0 where
  at : (s.cores c).state ≡ online
  current : (s.cores c).current_thread ≡ some t
  dead : is_running (s.threads t).state ≡ false
  asked : (s.cores c).need_resched ≡ true
  free : s.sched_locked ≡ false

vmm_page_fault-IsFault :
    (c t : ℕ) (s : Machine)
    → (s.cores c).state ≡ online
    → (s.cores c).current_thread ≡ some t
    → s.sched_locked ≡ false
    → IsFault c t (vmm_page_fault c s)
unfolding vmm_page_fault
vmm_page_fault-IsFault c t s at current free =
    rw (current, vmm_page_fault)
      (record {
        at = ground (arith, at);
        current = ground (arith, current);
        dead = ground arith;
        asked = ground arith;
        free = free;
      })

isr_reschedule-halts : (c t : ℕ) (s : Machine) → IsFault c t s → isr_reschedule c s ≡ none
unfolding isr_reschedule sched_runner
isr_reschedule-halts c t s fault =
    ground (arith, fault.asked, fault.free, sched-halts c t s fault.at fault.current fault.dead)

isr_enter-keeps :
    (c regs : ℕ) (s : Machine)
    → (((isr_enter c regs s).cores c).state ≡ (s.cores c).state)
      × (((isr_enter c regs s).cores c).current_thread ≡ (s.cores c).current_thread)
      × ((isr_enter c regs s).sched_locked ≡ s.sched_locked)
unfolding isr_enter
isr_enter-keeps c regs s = (ground arith, ground arith, ground arith)

-- A page fault that interrupts a thread of an online core, with vmm_page_fault registered for it and
-- the lock of the scheduler free, never returns: the thread is marked as terminated while it is
-- still the current thread, and the assert of _sched on it panics.
pub isr_handler-page_fault :
    (handlers : ℕ → Option (ℕ → Machine → Option Machine)) (c t regs : ℕ) (s : Machine)
    → handlers 0x0E ≡ some (λ d r. some (vmm_page_fault d r))
    → (s.cores c).state ≡ online
    → (s.cores c).current_thread ≡ some t
    → s.sched_locked ≡ false
    → isr_handler handlers false c 0x0E regs s ≡ none
unfolding isr_handler isr_dispatch isr_continue isr_return
isr_handler-page_fault handlers c t regs s registered at current free =
    let (same_state, same_thread, same_lock) = isr_enter-keeps c regs s in
    let fault =
      vmm_page_fault-IsFault c t (isr_enter c regs s) (same_state ∙ at) (same_thread ∙ current)
        (same_lock ∙ free) in
    let halts = isr_reschedule-halts c t _ fault in rw registered (ap (isr_return c regs) halts)
