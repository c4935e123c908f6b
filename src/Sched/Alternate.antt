-- ===== src/Sched/Alternate.antt =====
-- Turns of one core, src/proc/sched.c, when the first two threads of the list have the least priority.
use just_kernel.Base.{
  ℕ, zero, suc, ◌%◌, ◌≡◌, ◌≢◌, refl, ap, ◌∙◌, inl, inr, Bool, true, false, Bool-cases, Option, none,
  some, List, [], ◌∷◌, ◌==◌, if◌then◌else◌, arith,
}
use just_kernel.Sched.{
  stopped, Thread, Machine, is_running, age_threads, update_sleeping_threads, save_thread,
  load_thread, sched_switch, sched_online, sched, sched_runner,
}
use just_kernel.Sched.Inv.{update-cores, update-running}
use just_kernel.Sched.Sleep.{update-list}
use just_kernel.Sched.Pair.{IsPair, NoneBefore-same, pick_thread-other, update-IsAged}

age_threads-locked : (ts : List ℕ) (s : Machine) → (age_threads ts s).sched_locked ≡ s.sched_locked
unfolding age_threads
age_threads-locked [] s = refl
age_threads-locked (t ∷ ts) s = age_threads-locked ts _

update-locked : (c : ℕ) (s : Machine) → (update_sleeping_threads c s).sched_locked ≡ s.sched_locked
unfolding update_sleeping_threads
update-locked c s = ground (arith, age_threads-locked s.thread_list s)

update-IsPair :
    (c a b p current other : ℕ) (rest : List ℕ) (s : Machine)
    → IsPair c a b p rest current other s
    → IsPair c a b p rest current other (update_sleeping_threads c s)
update-IsPair c a b p current other rest s pair =
    let s' = update_sleeping_threads c s in
    let runner : s'.threads current ≡ s.threads current =
      (update-IsAged c s current).awake (rw pair.runs refl) in
    let waiter : s'.threads other ≡ s.threads other =
      (update-IsAged c s other).awake (rw pair.waits refl) in
    let cores = update-cores c s in
    record {
      unlocked = update-locked c s ∙ pair.unlocked;
      at_online = rw cores pair.at_online;
      has_current = rw cores pair.has_current;
      runs = rw runner pair.runs;
      waits = rw waiter pair.waits;
      listed = update-list c s ∙ pair.listed;
      order = pair.order;
      distinct = pair.distinct;
      current_here = rw (cores, runner) pair.current_here;
      other_here = rw (cores, waiter) pair.other_here;
      current_priority = rw runner pair.current_priority;
      other_priority = rw waiter pair.other_priority;
      bounded = pair.bounded;
      least =
          NoneBefore-same s.threads s'.threads p rest (λ t. (update-IsAged c s t).priority)
            pair.least;
    }

swap-IsPair :
    (c a b p current other : ℕ) (rest : List ℕ) (s : Machine)
    → IsPair c a b p rest current other s
    → IsPair c a b p rest other current (load_thread c other (save_thread c current stopped s))
unfolding load_thread save_thread
swap-IsPair c a b p current other rest s pair =
    let apart : other == current ≡ false = ground (arith, pair.order, pair.distinct) in
    let apart' : current == other ≡ false = ground (arith, pair.order, pair.distinct) in
    let s' = load_thread c other (save_thread c current stopped s) in
    let priority : (t : ℕ) → (s'.threads t).priority ≡ (s.threads t).priority = λ t. ground arith in
    record {
      unlocked = pair.unlocked;
      at_online = ground (arith, pair.at_online);
      has_current = ground arith;
      runs = ground arith;
      waits = ground arith;
      listed = pair.listed;
      order = elim pair.order [
        | inl (first, second) ↦ inr (second, first)
        | inr (second, first) ↦ inl (first, second)
      ];
      distinct = pair.distinct;
      current_here = ground (arith, pair.other_here);
      other_here = ground (arith, pair.current_here);
      current_priority = priority other ∙ pair.other_priority;
      other_priority = priority current ∙ pair.current_priority;
      bounded = pair.bounded;
      least = NoneBefore-same s.threads s'.threads p rest priority pair.least;
    }

-- Another thread that does not run does not run after a turn either.
others-swap :
    (c current other u : ℕ) (s : Machine)
    → u ≢ current
    → u ≢ other
    → (load_thread c other (save_thread c current stopped s)).threads u ≡ s.threads u
unfolding load_thread save_thread
others-swap c current other u s apart apart' = ground arith

-- One turn.
pub sched_runner-swap :
    (c a b p current other : ℕ) (rest : List ℕ) (s : Machine)
    → IsPair c a b p rest current other s
    → sched_runner c s
      ≡ some (load_thread c other (save_thread c current stopped (update_sleeping_threads c s)))
unfolding sched_runner sched sched_switch sched_online
sched_runner-swap c a b p current other rest s pair =
    let pair' = update-IsPair c a b p current other rest s pair in
    let picked = pick_thread-other c a b p current other rest (update_sleeping_threads c s) pair' in
    ap (λ (l : Bool). if l then some s else sched c s) pair.unlocked
    ∙ rw (pair'.at_online, pair'.has_current, picked, pair'.runs) refl

-- `n` turns of core `c`, with no other call between them.
unfoldable pub turns : (n c : ℕ) → Machine → Option Machine
turns zero c s = some s
turns (suc n) c s = elim (sched_runner c s) [ none ↦ none | some s' ↦ turns n c s' ]

-- After `n` turns, the two threads have changed places if `n` is odd, and no other thread has begun to run.
record Turned (n c a b p : ℕ) (rest : List ℕ) (current other : ℕ) (s s' : Machine) : Type 0 where
  pair :
      IsPair c a b p rest
        (if n % 2 == 0 then current else other)
        (if n % 2 == 0 then other else current)
        s'
  still :
      (u : ℕ)
      → u ≢ current
      → u ≢ other
      → is_running (s'.threads u).state ≡ is_running (s.threads u).state

turns-Turned :
    (n c a b p current other : ℕ) (rest : List ℕ) (s : Machine)
    → IsPair c a b p rest current other s
    → (s' : Machine) × (turns n c s ≡ some s') × Turned n c a b p rest current other s s'
unfolding turns
turns-Turned zero c a b p current other rest s pair =
    (s, refl, record { pair = pair; still = λ u h h'. refl })
turns-Turned (suc n) c a b p current other rest s pair =
    let s1 = update_sleeping_threads c s in
    let s2 = load_thread c other (save_thread c current stopped s1) in
    let ran = sched_runner-swap c a b p current other rest s pair in
    let pair2 =
      swap-IsPair c a b p current other rest s1 (update-IsPair c a b p current other rest s pair) in
    let (s', later, turned) = turns-Turned n c a b p other current rest s2 pair2 in
    (
      s',
      ap (λ (o : Option Machine). elim o [ none ↦ none | some m ↦ turns n c m ]) ran ∙ later,
      record {
        pair = elim (Bool-cases (n % 2 == 0)) [
          | inl even ↦
              let odd : suc n % 2 == 0 ≡ false = ground arith in rw odd (rw even at turned.pair)
          | inr odd ↦
              let even : suc n % 2 == 0 ≡ true = ground arith in rw even (rw odd at turned.pair)
        ];
        still = λ u h h'.
            turned.still u h' h
            ∙ ap (λ (r : Thread). is_running r.state) (others-swap c current other u s1 h h')
            ∙ update-running c s u;
      },
    )

-- On an online core that runs one of the first two threads of the list while the other one is stopped,
-- with the lock of the scheduler free, both allowed on the core and of the same priority below
-- 0xffffffff, which no thread of the list goes below, n turns in a row pass all asserts: the two
-- threads run in turn, and no other thread begins or ceases to run, however many there are and however
-- long they wait.
pub turns_alternate :
    (n c a b p current other : ℕ) (rest : List ℕ) (s : Machine)
    → IsPair c a b p rest current other s
    → (s' : Machine) × (turns n c s ≡ some s')
      × ((s'.cores c).current_thread ≡ some (if n % 2 == 0 then current else other))
      × ((u : ℕ)
          → u ≢ current
          → u ≢ other
          → is_running (s'.threads u).state ≡ is_running (s.threads u).state)
turns_alternate n c a b p current other rest s pair =
    let (s', ran, turned) = turns-Turned n c a b p current other rest s pair in
    (s', ran, turned.pair.has_current, turned.still)
