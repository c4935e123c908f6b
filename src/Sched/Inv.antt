-- ===== src/Sched/Inv.antt =====
-- The invariant of the scheduler, src/proc/sched.c: which thread each core runs.
use just_kernel.Base.{
  ℕ, ◌≡◌, refl, inl, inr, Bool, true, false, Option, none, some, List, [], ◌∷◌, Bool-cases, ◌==◌,
  arith,
}
use just_kernel.Sched.{
  stopped, CoreState, offline, booting, online, idle, Thread, Core, Machine, set_thread, set_core,
  is_stopped, is_running, age_thread, age_threads, update_sleeping_threads, save_thread,
  load_thread, enter_idle,
}

-- An online core has a thread, and an idle or booting core has none.
abbrev pub has_right_slot : CoreState → Option ℕ → Bool
has_right_slot online (some t) = true
has_right_slot online none = false
has_right_slot offline slot = true
has_right_slot idle (some t) = false
has_right_slot idle none = true
has_right_slot booting (some t) = false
has_right_slot booting none = true

-- The thread of each core is running, no thread is on two cores, and the slots fit the states.
pub record Ordered (s : Machine) : Type 0 where
  pub runs : (c t : ℕ) → (s.cores c).current_thread ≡ some t → is_running (s.threads t).state ≡ true
  pub alone :
      (c d t : ℕ)
      → (s.cores c).current_thread ≡ some t
      → (s.cores d).current_thread ≡ some t
      → c ≡ d
  pub slots : (c : ℕ) → has_right_slot (s.cores c).state (s.cores c).current_thread ≡ true

-- Ageing changes no core, and keeps running threads running.
age_thread-running : (r : Thread) → is_running (age_thread r).state ≡ is_running r.state
unfolding age_thread
age_thread-running r = ground arith

pub age_threads-cores : (ts : List ℕ) (s : Machine) → (age_threads ts s).cores ≡ s.cores
unfolding age_threads
age_threads-cores [] s = refl
age_threads-cores (t ∷ ts) s = age_threads-cores ts (set_thread t (age_thread (s.threads t)) s)

age_threads-running :
    (ts : List ℕ) (s : Machine) (u : ℕ)
    → is_running ((age_threads ts s).threads u).state ≡ is_running (s.threads u).state
unfolding age_threads
age_threads-running [] s u = refl
age_threads-running (t ∷ ts) s u = ground (
  arith,
  age_threads-running ts (set_thread t (age_thread (s.threads t)) s) u,
  age_thread-running (s.threads t),
)

pub update-cores : (c : ℕ) (s : Machine) → (update_sleeping_threads c s).cores ≡ s.cores
unfolding update_sleeping_threads
update-cores c s = ground (arith, age_threads-cores s.thread_list s)

pub update-running :
    (c : ℕ) (s : Machine) (u : ℕ)
    → is_running ((update_sleeping_threads c s).threads u).state ≡ is_running (s.threads u).state
unfolding update_sleeping_threads
update-running c s u = ground (arith, age_threads-running s.thread_list s u)

pub update-Ordered : (c : ℕ) (s : Machine) → Ordered s → Ordered (update_sleeping_threads c s)
unfolding update_sleeping_threads
update-Ordered c s ok = elim (Bool-cases ((s.cores c).core_id == 0)) [
  | inr other ↦ rw other ok
  | inl first ↦ rw first (record {
    runs = λ d t.
        rw (age_threads-cores s.thread_list s, age_threads-running s.thread_list s t) (ok.runs d t);
    alone = λ d e t. rw (age_threads-cores s.thread_list s) (ok.alone d e t);
    slots = λ d. rw (age_threads-cores s.thread_list s) (ok.slots d);
  })
]

-- A core without a thread takes one that waits; a core with a thread changes to one that waits.
pub load-Ordered :
    (c u : ℕ) (s : Machine)
    → Ordered s
    → (s.cores c).state ≡ idle
    → is_stopped (s.threads u).state ≡ true
    → Ordered (load_thread c u s)
unfolding load_thread
load-Ordered c u s ok at_idle waits = record {
  runs = λ d t. ground (arith, ok.runs d t, ok.slots d);
  alone = λ d e t. ground (arith, ok.alone d e t, ok.runs d u, ok.runs e u);
  slots = λ d. ground (arith, ok.slots d);
}

pub change-Ordered :
    (c t u : ℕ) (s : Machine)
    → Ordered s
    → (s.cores c).state ≡ online
    → (s.cores c).current_thread ≡ some t
    → is_stopped (s.threads u).state ≡ true
    → Ordered (load_thread c u (save_thread c t stopped s))
unfolding load_thread save_thread
change-Ordered c t u s ok at_online current waits = record {
  runs = λ d v. ground (arith, ok.runs d v, ok.alone c d v);
  alone = λ d e v. ground (arith, ok.alone d e v, ok.runs d u, ok.runs e u);
  slots = λ d. ground (arith, ok.slots d);
}

-- A core that gives up its thread, which is written twice, as is the core.
pub leave-Ordered :
    (c t : ℕ) (s : Machine) (r r' : Thread) (k k' : Core)
    → Ordered s
    → (s.cores c).current_thread ≡ some t
    → k'.current_thread ≡ none
    → k'.state ≡ idle
    → Ordered (set_core c k' (set_core c k (set_thread t r' (set_thread t r s))))
leave-Ordered c t s r r' k k' ok current empty at_idle = record {
  runs = λ d v. ground (arith, ok.runs d v, ok.alone c d v);
  alone = λ d e v. ground (arith, ok.alone d e v);
  slots = λ d. ground (arith, ok.slots d);
}

-- A core that has no thread may go to any state but online.
pub rest-Ordered :
    (c : ℕ) (s : Machine) (k : Core)
    → Ordered s
    → k.current_thread ≡ none
    → has_right_slot k.state none ≡ true
    → Ordered (set_core c k s)
rest-Ordered c s k ok empty fits = record {
  runs = λ d v. ground (arith, ok.runs d v);
  alone = λ d e v. ground (arith, ok.alone d e v);
  slots = λ d. ground (arith, ok.slots d);
}

-- A change of a core that keeps its thread, to a state that fits.
pub keep-Ordered :
    (c : ℕ) (s : Machine) (k : Core)
    → Ordered s
    → k.current_thread ≡ (s.cores c).current_thread
    → has_right_slot k.state k.current_thread ≡ true
    → Ordered (set_core c k s)
keep-Ordered c s k ok kept fits = record {
  runs = λ d v. ground (arith, ok.runs d v);
  alone = λ d e v. ground (arith, ok.alone d e v, ok.alone c d v, ok.alone d c v);
  slots = λ d. ground (arith, ok.slots d);
}

-- The run of an operation that does not fail and keeps the invariant.
unfoldable pub Keeps : Option Machine → Type 0
Keeps result = (s : Machine) × (result ≡ some s) × Ordered s

pub enter_idle-Keeps :
    (c : ℕ) (s : Machine) → Ordered s → (s.cores c).current_thread ≡ none → Keeps (enter_idle c s)
unfolding enter_idle Keeps
enter_idle-Keeps c s ok empty = rw (empty, enter_idle) (_, refl, rest-Ordered c s _ ok empty refl)

pub enter_idle-eq :
    (c : ℕ) (s : Machine)
    → (s.cores c).current_thread ≡ none
    → (k : Core) × (enter_idle c s ≡ some (set_core c k s))
      × (k.state ≡ idle)
      × (k.current_thread ≡ none)
unfolding enter_idle
enter_idle-eq c s empty = rw (empty, enter_idle) (_, refl, refl, empty)
