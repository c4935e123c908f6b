-- ===== src/Sched/Turn.antt =====
-- A run of `_sched`, src/proc/sched.c, and the calls by which a thread gives up its core: none of
-- their asserts fails in a state that is in order, and they leave it in order.
use just_kernel.Base.{
  ℕ, ◌≡◌, refl, inl, inr, true, false, Option, none, some, Option-cases, Bool-cases, if◌then◌else◌,
  arith,
}
use just_kernel.Sched.{
  ThreadState, sleeping, terminated, CoreState, offline, booting, online, idle, Thread, Core,
  Machine, set_thread, set_core, is_stopped, update_sleeping_threads, pick_thread, save_thread,
  enter_idle, sched_online, sched_idle, sched_booting, sched_switch, sched, sched_runner,
  leave_thread, sched_thread_exit, sched_thread_sleep,
}
use just_kernel.Sched.Pick.{pick_thread-stopped}
use just_kernel.Sched.Inv.{
  Ordered, Keeps, update-Ordered, load-Ordered, change-Ordered, leave-Ordered, enter_idle-eq,
  enter_idle-Keeps,
}

-- The picked thread waits.
Waits : Machine → Option ℕ → Type 0
Waits s none = Unit
Waits s (some u) = is_stopped (s.threads u).state ≡ true

pick-Waits : (c : ℕ) (s : Machine) → Waits s (pick_thread c s)
unfolding Waits
pick-Waits c s = elim (Option-cases (pick_thread c s)) [
  | inl e ↦ rw e tt
  | inr (u, e) ↦ rw e (ground (arith, pick_thread-stopped c u s e))
]

sched_online-Keeps :
    (c : ℕ) (slot picked : Option ℕ) (s : Machine)
    → Ordered s
    → (s.cores c).state ≡ online
    → (s.cores c).current_thread ≡ slot
    → Waits s picked
    → Keeps (sched_online c slot picked s)
unfolding sched_online Keeps Waits
sched_online-Keeps c none picked s ok at current waits = absurd (ground (arith, ok.slots c))
sched_online-Keeps c (some t) none s ok at current waits = rw (ok.runs c t current) (s, refl, ok)
sched_online-Keeps c (some t) (some u) s ok at current waits =
    rw (ok.runs c t current) (_, refl, change-Ordered c t u s ok at current waits)

sched_idle-Keeps :
    (c : ℕ) (slot picked : Option ℕ) (s : Machine)
    → Ordered s
    → (s.cores c).state ≡ idle
    → (s.cores c).current_thread ≡ slot
    → Waits s picked
    → Keeps (sched_idle c slot picked s)
unfolding sched_idle Keeps Waits
sched_idle-Keeps c (some t) picked s ok at current waits = absurd (ground (arith, ok.slots c))
sched_idle-Keeps c none none s ok at current waits = (s, refl, ok)
sched_idle-Keeps c none (some u) s ok at current waits = (_, refl, load-Ordered c u s ok at waits)

sched_booting-Keeps :
    (c : ℕ) (slot : Option ℕ) (s : Machine)
    → Ordered s
    → (s.cores c).state ≡ booting
    → (s.cores c).current_thread ≡ slot
    → Keeps (sched_booting c slot s)
unfolding sched_booting
sched_booting-Keeps c (some t) s ok at current = absurd (ground (arith, ok.slots c))
sched_booting-Keeps c none s ok at current = enter_idle-Keeps c s ok current

sched_switch-Keeps :
    (state : CoreState) (c : ℕ) (s : Machine)
    → Ordered s
    → (s.cores c).state ≡ state
    → Keeps (sched_switch state c (pick_thread c s) s)
unfolding sched_switch Keeps
sched_switch-Keeps online c s ok at =
    sched_online-Keeps c _ (pick_thread c s) s ok at refl (pick-Waits c s)
sched_switch-Keeps idle c s ok at =
    sched_idle-Keeps c _ (pick_thread c s) s ok at refl (pick-Waits c s)
sched_switch-Keeps booting c s ok at = sched_booting-Keeps c _ s ok at refl
sched_switch-Keeps offline c s ok at = (s, refl, ok)

-- In a state in which online cores run a thread of their own, idle and booting cores have none, and
-- no thread is on two cores, _sched passes all its asserts on every core and ends in such a state.
pub sched-Keeps : (c : ℕ) (s : Machine) → Ordered s → Keeps (sched c s)
unfolding sched
sched-Keeps c s ok =
    let s' = update_sleeping_threads c s in
    sched_switch-Keeps (s'.cores c).state c s' (update-Ordered c s ok) refl

pub sched_runner-Keeps : (c : ℕ) (s : Machine) → Ordered s → Keeps (sched_runner c s)
unfolding sched_runner Keeps
sched_runner-Keeps c s ok =
    elim (s.sched_locked) as (λ b. Keeps (if b then some s else sched c s)) [
      | true ↦ (s, refl, ok)
      | false ↦ sched-Keeps c s ok
    ]

-- The current thread leaves in the state `new_state`: with no thread, or outside of an interrupt,
-- nothing happens.
leave_running-Keeps :
    (c t : ℕ) (s : Machine) (r r' : Thread) (k : Core)
    → Ordered s
    → (s.cores c).current_thread ≡ some t
    → k.current_thread ≡ none
    → Keeps (enter_idle c (set_core c k (set_thread t r' (set_thread t r s))))
unfolding Keeps
leave_running-Keeps c t s r r' k ok current empty =
    let s' = set_core c k (set_thread t r' (set_thread t r s)) in
    let (k', run, at_idle, empty') = enter_idle-eq c s' (ground (arith, empty)) in
    (set_core c k' s', run, leave-Ordered c t s r r' k k' ok current empty' at_idle)

leave_thread-Keeps :
    (c : ℕ) (new_state : ThreadState) (finish : Thread → Thread) (s : Machine)
    → Ordered s
    → Keeps (leave_thread c new_state finish s)
unfolding leave_thread save_thread Keeps
leave_thread-Keeps c new_state finish s ok = elim (Option-cases (s.cores c).current_thread) [
  | inl e ↦ rw (e, leave_thread) (s, refl, ok)
  | inr (t, e) ↦ elim (Bool-cases (s.cores c).in_irq) [
    | inr out ↦ rw (e, leave_thread) (rw out (s, refl, ok))
    | inl irq ↦ rw (e, leave_thread) (rw irq (leave_running-Keeps c t s _ _ _ ok e refl))
  ]
]

pub sched_thread_exit-Keeps :
    (c code : ℕ) (s : Machine) → Ordered s → Keeps (sched_thread_exit c code s)
unfolding sched_thread_exit
sched_thread_exit-Keeps c code = leave_thread-Keeps c terminated _

pub sched_thread_sleep-Keeps :
    (c time_ms : ℕ) (s : Machine) → Ordered s → Keeps (sched_thread_sleep c time_ms s)
unfolding sched_thread_sleep
sched_thread_sleep-Keeps c time_ms = leave_thread-Keeps c sleeping _
