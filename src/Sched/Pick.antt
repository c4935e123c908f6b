-- ===== src/Sched/Pick.antt =====
-- The choice of the next thread, `pick_thread` of src/proc/sched.c: the first thread of the least
-- priority among those that may run on the core.
use just_kernel.Base.{
  ℕ, suc, ◌≤◌, ◌<◌, ◌≡◌, refl, ap, subst, ◌⊎◌, inl, inr, Bool, true, false, Bool-cases, Option,
  none, some, List, [], ◌∷◌, ◌++◌, ltb, ◌&&◌, arith,
}
use just_kernel.Sched.{Thread, Machine, may_run, pick_loop, pick_thread}

module _ (threads : ℕ → Thread) (core_id : ℕ) where
  -- Each thread of the list that may run on the core has at least this priority.
  unfoldable pub NoneBelow : ℕ → List ℕ → Type 0
  NoneBelow limit [] = Unit
  NoneBelow limit (t ∷ ts) =
      (may_run core_id (threads t) ≡ true → limit ≤ (threads t).priority) × NoneBelow limit ts

  -- `u` may run and has a priority below `limit`; the threads that may run have a higher priority
  -- before it, and none has a lower one behind it.
  pub record IsFirstLeast (limit : ℕ) (ts : List ℕ) (u : ℕ) : Type 0 where
    pub before : List ℕ
    pub after : List ℕ
    pub position : ts ≡ before ++ u ∷ after
    pub runs : may_run core_id (threads u) ≡ true
    pub below : (threads u).priority < limit
    pub none_before : NoneBelow (suc (threads u).priority) before
    pub none_after : NoneBelow (threads u).priority after

  -- What a search from `picked` and `limit` comes to.
  Outcome : ℕ → List ℕ → Option ℕ → Option ℕ → Type 0
  Outcome limit ts picked result =
      ((result ≡ picked) × NoneBelow limit ts)
      ⊎ ((u : ℕ) × (result ≡ some u) × IsFirstLeast limit ts u)

  abbrev better : ℕ → ℕ → Bool
  better limit t = may_run core_id (threads t) && ltb (threads t).priority limit

  -- A thread that is better than the limit becomes the choice.
  take-Outcome :
      (limit t : ℕ) (ts : List ℕ) (picked result : Option ℕ)
      → better limit t ≡ true
      → Outcome (threads t).priority ts (some t) result
      → Outcome limit (t ∷ ts) picked result
  unfolding Outcome NoneBelow
  take-Outcome limit t ts picked result b (inl (e, above)) = inr (
    t,
    e,
    record {
      before = [];
      after = ts;
      position = refl;
      runs = ground arith;
      below = ground arith;
      none_before = tt;
      none_after = above;
    },
  )
  take-Outcome limit t ts picked result b (inr (u, e, least)) = inr (
    u,
    e,
    record {
      before = t ∷ least.before;
      after = least.after;
      position = ap (λ us. t ∷ us) least.position;
      runs = least.runs;
      below = ground (arith, least.below);
      none_before = ((λ m. omega (arith, least.below)), least.none_before);
      none_after = least.none_after;
    },
  )

  skip-Outcome :
      (limit t : ℕ) (ts : List ℕ) (picked result : Option ℕ)
      → better limit t ≡ false
      → Outcome limit ts picked result
      → Outcome limit (t ∷ ts) picked result
  unfolding Outcome NoneBelow
  skip-Outcome limit t ts picked result b (inl (e, above)) = inl (e, ((λ m. ground arith), above))
  skip-Outcome limit t ts picked result b (inr (u, e, least)) = inr (
    u,
    e,
    record {
      before = t ∷ least.before;
      after = least.after;
      position = ap (λ us. t ∷ us) least.position;
      runs = least.runs;
      below = least.below;
      none_before = ((λ m. ground (arith, least.below)), least.none_before);
      none_after = least.none_after;
    },
  )

  pick_loop-Outcome :
      (ts : List ℕ) (picked : Option ℕ) (limit : ℕ)
      → Outcome limit ts picked (pick_loop threads core_id ts picked limit)
  unfolding Outcome pick_loop NoneBelow
  pick_loop-Outcome [] picked limit = inl (refl, tt)
  pick_loop-Outcome (t ∷ ts) picked limit = elim (Bool-cases (better limit t)) [
    | inr skipped ↦ rw skipped (
        skip-Outcome limit t ts picked (pick_loop threads core_id ts picked limit) skipped
          (pick_loop-Outcome ts picked limit))
    | inl taken ↦ rw taken (
        take-Outcome limit t ts picked (pick_loop threads core_id ts (some t) (threads t).priority)
          taken (pick_loop-Outcome ts (some t) (threads t).priority))
  ]

-- The choice of `pick_thread` on core `c`.
unfoldable pub IsChoice : ℕ → Machine → Option ℕ → Type 0
IsChoice c s none = NoneBelow s.threads (s.cores c).core_id 0xffffffff s.thread_list
IsChoice c s (some u) = IsFirstLeast s.threads (s.cores c).core_id 0xffffffff s.thread_list u

-- pick_thread answers the first thread of the least priority among the threads of the list that may
-- run on the core, and none only if each of these has the priority 0xffffffff or more.
pub pick_thread-IsChoice : (c : ℕ) (s : Machine) → IsChoice c s (pick_thread c s)
unfolding pick_thread IsChoice Outcome
pick_thread-IsChoice c s =
    elim (pick_loop-Outcome s.threads (s.cores c).core_id s.thread_list none 0xffffffff) [
      | inl (e, above) ↦ rw e above
      | inr (u, e, least) ↦ rw e least
    ]

-- A thread that was picked waits to run.
pub pick_thread-stopped :
    (c u : ℕ) (s : Machine)
    → pick_thread c s ≡ some u
    → may_run (s.cores c).core_id (s.threads u) ≡ true
unfolding IsChoice
pick_thread-stopped c u s picked =
    let choice : IsChoice c s (some u) = subst (IsChoice c s) picked (pick_thread-IsChoice c s) in
    choice.runs
