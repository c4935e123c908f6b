-- ===== src/Sched/Pair.antt =====
-- The order in which one core runs its threads, src/proc/sched.c: the list of threads never turns.
use just_kernel.Base.{
  ℕ, ◌≤◌, ◌<◌, ◌≡◌, ◌≢◌, refl, sym, ap, subst, ◌∙◌, ◌⊎◌, inl, inr, Bool, true, false, Bool-cases,
  none, some, List, [], ◌∷◌, ltb, ◌||◌, ◌==◌, arith,
}
use just_kernel.Sched.{
  stopped, running, online, Thread, Machine, is_sleeping, may_run, pick_loop, pick_thread,
  set_thread, age_thread, age_threads, update_sleeping_threads,
}

-- No thread of the list has a priority below `p`.
abbrev pub NoneBefore : (ℕ → Thread) → ℕ → List ℕ → Type 0
NoneBefore threads p [] = Unit
NoneBefore threads p (t ∷ ts) = (p ≤ (threads t).priority) × NoneBefore threads p ts

pub NoneBefore-same :
    (threads threads' : ℕ → Thread) (p : ℕ) (ts : List ℕ)
    → ((t : ℕ) → (threads' t).priority ≡ (threads t).priority)
    → NoneBefore threads p ts
    → NoneBefore threads' p ts
NoneBefore-same threads threads' p [] same least = tt
NoneBefore-same threads threads' p (t ∷ ts) same (here, later) =
    (omega (arith, same t), NoneBefore-same threads threads' p ts same later)

abbrev pub runs_on : ℕ → Thread → Bool
runs_on core_id r = (r.cpu == 0xffffffff) || (r.cpu == core_id)

-- Core `c` runs `current` while `other` waits; they are the first two threads of the list, `a` and
-- `b`, and no other thread of the list has a priority below theirs.
pub record IsPair (c a b p : ℕ) (rest : List ℕ) (current other : ℕ) (s : Machine) : Type 0 where
  pub unlocked : s.sched_locked ≡ false
  pub at_online : (s.cores c).state ≡ online
  pub has_current : (s.cores c).current_thread ≡ some current
  pub runs : (s.threads current).state ≡ running
  pub waits : (s.threads other).state ≡ stopped
  pub listed : s.thread_list ≡ a ∷ b ∷ rest
  pub order : ((current ≡ a) × (other ≡ b)) ⊎ ((current ≡ b) × (other ≡ a))
  pub distinct : a ≢ b
  pub current_here : runs_on (s.cores c).core_id (s.threads current) ≡ true
  pub other_here : runs_on (s.cores c).core_id (s.threads other) ≡ true
  pub current_priority : (s.threads current).priority ≡ p
  pub other_priority : (s.threads other).priority ≡ p
  pub bounded : p < 0xffffffff
  pub least : NoneBefore s.threads p rest

-- A choice stands when no thread behind it has a lower priority.
pick_loop-kept :
    (threads : ℕ → Thread) (core_id u p : ℕ) (ts : List ℕ)
    → NoneBefore threads p ts
    → pick_loop threads core_id ts (some u) p ≡ some u
unfolding pick_loop
pick_loop-kept threads core_id u p [] least = refl
pick_loop-kept threads core_id u p (t ∷ ts) (here, later) =
    let worse : ltb (threads t).priority p ≡ false = ground arith in
    elim (Bool-cases (may_run core_id (threads t))) [
      | inl may ↦ rw (may, worse) (pick_loop-kept threads core_id u p ts later)
      | inr may ↦ rw may (pick_loop-kept threads core_id u p ts later)
    ]

-- The search at two threads of which one may not run, and the other one wins.
pick_loop-first :
    (threads : ℕ → Thread) (core_id a b p : ℕ) (rest : List ℕ)
    → may_run core_id (threads a) ≡ true
    → (threads a).priority ≡ p
    → p < 0xffffffff
    → may_run core_id (threads b) ≡ false
    → NoneBefore threads p rest
    → pick_loop threads core_id (a ∷ b ∷ rest) none 0xffffffff ≡ some a
unfolding pick_loop
pick_loop-first threads core_id a b p rest may same bounded busy least =
    let wins : ltb (threads a).priority 0xffffffff ≡ true = ground arith in
    rw (may, wins, busy, same) (pick_loop-kept threads core_id a p rest least)

pick_loop-second :
    (threads : ℕ → Thread) (core_id a b p : ℕ) (rest : List ℕ)
    → may_run core_id (threads a) ≡ false
    → may_run core_id (threads b) ≡ true
    → (threads b).priority ≡ p
    → p < 0xffffffff
    → NoneBefore threads p rest
    → pick_loop threads core_id (a ∷ b ∷ rest) none 0xffffffff ≡ some b
unfolding pick_loop
pick_loop-second threads core_id a b p rest busy may same bounded least =
    let wins : ltb (threads b).priority 0xffffffff ≡ true = ground arith in
    rw (busy, may, wins, same) (pick_loop-kept threads core_id b p rest least)

pub pick_thread-other :
    (c a b p current other : ℕ) (rest : List ℕ) (s : Machine)
    → IsPair c a b p rest current other s
    → pick_thread c s ≡ some other
unfolding pick_thread
pick_thread-other c a b p current other rest s pair =
    let id = (s.cores c).core_id in
    let busy : may_run id (s.threads current) ≡ false = ground (arith, pair.runs) in
    let may : may_run id (s.threads other) ≡ true = ground (arith, pair.waits, pair.other_here) in
    rw pair.listed (elim pair.order [
      | inl (first, second) ↦
          subst (λ t. pick_loop s.threads id (a ∷ b ∷ rest) none 0xffffffff ≡ some t) (sym second)
            (pick_loop-second s.threads id a b p rest
              (subst (λ t. may_run id (s.threads t) ≡ false) first busy)
              (subst (λ t. may_run id (s.threads t) ≡ true) second may)
              (subst (λ t. (s.threads t).priority ≡ p) second pair.other_priority) pair.bounded
              pair.least)
      | inr (second, first) ↦
          subst (λ t. pick_loop s.threads id (a ∷ b ∷ rest) none 0xffffffff ≡ some t) (sym first)
            (pick_loop-first s.threads id a b p rest
              (subst (λ t. may_run id (s.threads t) ≡ true) first may)
              (subst (λ t. (s.threads t).priority ≡ p) first pair.other_priority) pair.bounded
              (subst (λ t. may_run id (s.threads t) ≡ false) second busy) pair.least)
    ])

-- Ageing changes neither the processor nor the priority of a thread, and leaves a thread alone that
-- does not sleep.
pub record IsAged (r r' : Thread) : Type 0 where
  pub priority : r'.priority ≡ r.priority
  pub cpu : r'.cpu ≡ r.cpu
  pub awake : is_sleeping r.state ≡ false → r' ≡ r

age_thread-IsAged : (r : Thread) → IsAged r (age_thread r)
unfolding age_thread
age_thread-IsAged r = record { priority = ground arith; cpu = ground arith; awake = λ h. rw h refl }

pub age_threads-IsAged :
    (ts : List ℕ) (s : Machine) (u : ℕ) → IsAged (s.threads u) ((age_threads ts s).threads u)
unfolding age_threads
age_threads-IsAged [] s u = record { priority = refl; cpu = refl; awake = λ h. refl }
age_threads-IsAged (t ∷ ts) s u =
    let s' = set_thread t (age_thread (s.threads t)) s in
    let rest = age_threads-IsAged ts s' u in
    let aged = age_thread-IsAged (s.threads t) in
    record {
      priority = rest.priority ∙ ground (arith, aged.priority);
      cpu = rest.cpu ∙ ground (arith, aged.cpu);
      awake = λ h.
          let same : s'.threads u ≡ s.threads u = elim (Bool-cases (u == t)) [
            | inl here ↦
                let at : u ≡ t = ground arith in
                rw here (
                  aged.awake (subst (λ v. is_sleeping (s.threads v).state ≡ false) at h)
                  ∙ ap s.threads (sym at))
            | inr there ↦ rw there refl
          ] in
          rest.awake (ap (λ (r : Thread). is_sleeping r.state) same ∙ h) ∙ same;
    }

pub update-IsAged :
    (c : ℕ) (s : Machine) (u : ℕ) → IsAged (s.threads u) ((update_sleeping_threads c s).threads u)
unfolding update_sleeping_threads
update-IsAged c s u = elim (Bool-cases ((s.cores c).core_id == 0)) [
  | inl first ↦ rw first (age_threads-IsAged s.thread_list s u)
  | inr other ↦ rw other (record { priority = refl; cpu = refl; awake = λ h. refl })
]
