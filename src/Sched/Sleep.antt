-- ===== src/Sched/Sleep.antt =====
-- Sleeping threads, update_sleeping_threads of src/proc/sched.c: how long a thread sleeps, in rounds
-- of the scheduler on the first core.
use just_kernel.Base.{
  ℕ, zero, suc, ◌-◌, ◌*◌, ◌<◌, ◌≡◌, refl, ap, ◌∙◌, false, List, [], ◌∷◌, ltb, ◌==◌, if◌then◌else◌,
  arith,
}
use just_kernel.Sched.{
  stopped, sleeping, Thread, Machine, set_thread, is_sleeping, round_us, age_thread, age_threads,
  update_sleeping_threads,
}
use just_kernel.Sched.Inv.{update-cores}

-- `n` updates in a row for one thread, and on the state.
age_times : ℕ → Thread → Thread
age_times zero r = r
age_times (suc n) r = age_times n (age_thread r)

unfoldable pub update_times : ℕ → ℕ → Machine → Machine
update_times zero c s = s
update_times (suc n) c s = update_times n c (update_sleeping_threads c s)

abbrev pub times_listed : ℕ → List ℕ → ℕ
times_listed u [] = 0
times_listed u (t ∷ ts) = if t == u then suc (times_listed u ts) else times_listed u ts

-- An update ages a thread as often as it is listed.
age_times-age_threads :
    (ts : List ℕ) (s : Machine) (u : ℕ)
    → (age_threads ts s).threads u ≡ age_times (times_listed u ts) (s.threads u)
unfolding age_threads age_times
age_times-age_threads [] s u = refl
age_times-age_threads (t ∷ ts) s u =
    ground (arith, age_times-age_threads ts (set_thread t (age_thread (s.threads t)) s) u)

pub age_threads-list : (ts : List ℕ) (s : Machine) → (age_threads ts s).thread_list ≡ s.thread_list
unfolding age_threads
age_threads-list [] s = refl
age_threads-list (t ∷ ts) s = age_threads-list ts (set_thread t (age_thread (s.threads t)) s)

pub update-list : (c : ℕ) (s : Machine) → (update_sleeping_threads c s).thread_list ≡ s.thread_list
unfolding update_sleeping_threads
update-list c s = ground (arith, age_threads-list s.thread_list s)

update-thread :
    (c u : ℕ) (s : Machine)
    → (s.cores c).core_id ≡ 0
    → times_listed u s.thread_list ≡ 1
    → (update_sleeping_threads c s).threads u ≡ age_thread (s.threads u)
unfolding update_sleeping_threads age_times
update-thread c u s first once =
    let listed = rw once at (age_times-age_threads s.thread_list s u) in
    ground (arith, first, listed)

age_times-update_times :
    (n c u : ℕ) (s : Machine)
    → (s.cores c).core_id ≡ 0
    → times_listed u s.thread_list ≡ 1
    → (update_times n c s).threads u ≡ age_times n (s.threads u)
unfolding update_times update_sleeping_threads age_times
age_times-update_times zero c u s first once = refl
age_times-update_times (suc n) c u s first once =
    let s' = update_sleeping_threads c s in
    age_times-update_times n c u s' (rw (update-cores c s) first) (rw (update-list c s) once)
    ∙ ap (age_times n) (update-thread c u s first once)

-- A thread that does not sleep is left alone.
age_times-awake : (n : ℕ) (r : Thread) → is_sleeping r.state ≡ false → age_times n r ≡ r
unfolding age_times age_thread
age_times-awake zero r awake = refl
age_times-awake (suc n) r awake = ground (arith, age_times-awake n r awake)

-- What a sleeper comes to: the time that is left, or the end of its sleep.
unfoldable pub after_rounds : ℕ → Thread → Thread
after_rounds n r =
    if ltb (n * round_us) r.sleep_time
    then record r { sleep_time = r.sleep_time - n * round_us }
    else record r { sleep_time = 0; state = stopped }

age_times-after_rounds :
    (n : ℕ) (r : Thread) → r.state ≡ sleeping → 0 < r.sleep_time → age_times n r ≡ after_rounds n r
unfolding age_times age_thread after_rounds
age_times-after_rounds zero r asleep positive = ground arith
age_times-after_rounds (suc n) r asleep positive =
    ground (arith, age_times-after_rounds n (age_thread r), age_times-awake n (age_thread r))

-- A sleeping thread with a positive time, listed once, still sleeps after `n` updates on the first
-- core if its time is longer than `n` rounds of 31992 microseconds, with that much less to sleep, and
-- is stopped with no time left otherwise.
pub update_times-after_rounds :
    (n c u : ℕ) (s : Machine)
    → (s.cores c).core_id ≡ 0
    → times_listed u s.thread_list ≡ 1
    → (s.threads u).state ≡ sleeping
    → 0 < (s.threads u).sleep_time
    → (update_times n c s).threads u ≡ after_rounds n (s.threads u)
update_times-after_rounds n c u s first once asleep positive =
    age_times-update_times n c u s first once
    ∙ age_times-after_rounds n (s.threads u) asleep positive
