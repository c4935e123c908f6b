-- ===== src/Syscalls/Yield.antt =====
-- The system call that gives up the core, src/proc/syscalls.c and sched_thread_yield of src/proc/sched.c.
use just_kernel.Base.{
  ℕ, ◌≡◌, ◌≢◌, refl, ap, subst, ◌∙◌, Bool, true, false, some, List, ◌==◌, if◌then◌else◌, arith,
}
use just_kernel.Sched.{
  stopped, Thread, Core, Machine, sched_runner, update_sleeping_threads, save_thread, load_thread,
}
use just_kernel.Sched.Inv.{update-cores}
use just_kernel.Sched.Pair.{IsPair, update-IsAged}
use just_kernel.Sched.Alternate.{sched_runner-swap}
use just_kernel.Syscalls.{
  Table, Kernel, CallCode, irq_regs, syscalls_set, store_eax, syscalls_handler, set_sched,
  run_sched,
}
use just_kernel.Syscalls.Dispatch.{set_all, IsUnset, set_all-syscalls_set}

-- Core `core` has gone over from `current` to `other`, and all that has changed in the registers of
-- programs is that `value` is in eax at `address`.
pub record Yielded (core current other address value : ℕ) (k k' : Kernel) : Type 0 where
  pub runs : (k'.machine.cores core).current_thread ≡ some other
  pub returns : irq_regs core k' ≡ (k.machine.threads other).regs
  pub saved : (k'.machine.threads current).regs ≡ irq_regs core k
  pub frames :
      (q : ℕ)
      → k'.frames q ≡ (if q == address then record (k.frames q) { eax = value } else k.frames q)

-- The handler at a location that is not null, and whose code ends with a value.
handler_runs :
    (run : CallCode) (late : Bool) (core location value : ℕ) (table : Table) (k k' : Kernel)
    → location ≢ 0
    → table (k.frames (irq_regs core k)).eax ≡ location
    → (let regs = k.frames (irq_regs core k) in
        run location regs.ebx regs.ecx regs.edx regs.esi regs.edi k ≡ some (value, k'))
    → syscalls_handler run late core table k
      ≡ some (store_eax (if late then irq_regs core k' else irq_regs core k) value k')
unfolding syscalls_handler
handler_runs run late core location value table k k' present at ran =
    let there : (location == 0) ≡ false = ground arith in rw (at, there, ran) refl

-- The code of the third call is a turn of the scheduler.
run_sched-yield :
    (others : CallCode) (exit sleep yield value core a b c d e : ℕ) (k : Kernel) (s : Machine)
    → yield ≢ exit
    → yield ≢ sleep
    → sched_runner core k.machine ≡ some s
    → run_sched others exit sleep yield value core yield a b c d e k
      ≡ some (value, record { frames = k.frames; machine = s })
unfolding run_sched
run_sched-yield others exit sleep yield value core a b c d e k s apart apart' ran =
    let no_exit : (yield == exit) ≡ false = ground arith in
    let no_sleep : (yield == sleep) ≡ false = ground arith in
    let itself : (yield == yield) ≡ true = ground arith in rw (no_exit, no_sleep, itself, ran) refl

-- What the core points to, and what is saved, after it has gone over from one thread to another.
swapped_current :
    (core current other : ℕ) (s : Machine)
    → ((load_thread core other (save_thread core current stopped s)).cores core).current_thread
      ≡ some other
unfolding load_thread save_thread
swapped_current core current other s = ground arith

swapped_returns :
    (core current other : ℕ) (s : Machine)
    → (other == current) ≡ false
    → ((load_thread core other (save_thread core current stopped s)).cores core).irq_regs
      ≡ (s.threads other).regs
unfolding load_thread save_thread
swapped_returns core current other s apart =
    let itself : (core == core) ≡ true = ground arith in rw (itself, apart) refl

swapped_saved :
    (core current other : ℕ) (s : Machine)
    → (current == other) ≡ false
    → ((load_thread core other (save_thread core current stopped s)).threads current).regs
      ≡ (s.cores core).irq_regs
unfolding load_thread save_thread
swapped_saved core current other s apart =
    let itself : (current == current) ≡ true = ground arith in rw (apart, itself) refl

swap-Yielded :
    (core a b p current other value address : ℕ) (rest : List ℕ) (k : Kernel)
    → IsPair core a b p rest current other k.machine
    → Yielded core current other address value k (
        store_eax address value (record {
          frames = k.frames;
          machine =
              load_thread core other
                (save_thread core current stopped (update_sleeping_threads core k.machine));
        }))
swap-Yielded core a b p current other value address rest k pair =
    let s = k.machine in
    let s1 = update_sleeping_threads core s in
    let waiter = (update-IsAged core s other).awake (rw pair.waits refl) in
    let apart : (other == current) ≡ false = ground (arith, pair.order, pair.distinct) in
    let apart' : (current == other) ≡ false = ground (arith, pair.order, pair.distinct) in
    record {
      runs = swapped_current core current other s1;
      returns = swapped_returns core current other s1 apart ∙ ap (λ (r : Thread). r.regs) waiter;
      saved =
          swapped_saved core current other s1 apart'
          ∙ ap (λ (cores : ℕ → Core). (cores core).irq_regs) (update-cores core s);
      frames = λ q. refl;
    }

-- A program gives up the core by number 2, when the core runs one of the first two threads of the
-- list and the other one waits, with the lock of the scheduler free, both allowed on the core and of
-- one priority below 0xffffffff, which no thread of the list goes below. The third call of
-- sched_init is not at a null location nor at that of the first or second one, and number 2 is not
-- set again. The handler returns: the core goes over to the other thread, the caller's registers are
-- saved as its own, and the only change to registers of programs is that what the call leaves in eax
-- is stored in eax of those that the core points to when the pointer is read. Read before the call,
-- these are the caller's; read after it, they are those of the other thread, whose eax is
-- overwritten.
pub syscalls_handler-yield :
    (others : CallCode) (late : Bool) (exit sleep yield value core a b p current other : ℕ)
    (rest : List ℕ) (sets : List (ℕ × ℕ)) (table : Table) (k : Kernel)
    → yield ≢ 0
    → yield ≢ exit
    → yield ≢ sleep
    → IsUnset 2 sets
    → (k.frames (irq_regs core k)).eax ≡ 2
    → IsPair core a b p rest current other k.machine
    → (k' : Kernel) × (syscalls_handler
          (run_sched others exit sleep yield value core)
          late
          core
          (set_all sets (set_sched exit sleep yield table))
          k
        ≡ some k')
      × Yielded core current other
          (if late then (k.machine.threads other).regs else irq_regs core k)
          value
          k
          k'
unfolding set_sched
syscalls_handler-yield others late exit sleep yield value core a b p current other rest sets table k
      present apart apart' unset asked pair =
    let run = run_sched others exit sleep yield value core in
    let regs = k.frames (irq_regs core k) in
    let s' =
      load_thread core other
        (save_thread core current stopped (update_sleeping_threads core k.machine)) in
    let k1 : Kernel = record { frames = k.frames; machine = s' } in
    let sets' = set_all sets (set_sched exit sleep yield table) in
    let located : sets' regs.eax ≡ yield =
      ap sets' asked
      ∙ set_all-syscalls_set 2 yield sets (syscalls_set 1 sleep (syscalls_set 0 exit table))
          (omega arith) unset in
    let ran =
      run_sched-yield others exit sleep yield value core regs.ebx regs.ecx regs.edx regs.esi
        regs.edi k s' apart apart'
        (sched_runner-swap core a b p current other rest k.machine pair) in
    let swapped =
      λ (address : ℕ). swap-Yielded core a b p current other value address rest k pair in
    let place : (if late then irq_regs core k1 else irq_regs core k)
        ≡ (if late then (k.machine.threads other).regs else irq_regs core k) =
      ap (λ (q : ℕ). if late then q else irq_regs core k) (swapped 0).returns in
    (
      store_eax (if late then irq_regs core k1 else irq_regs core k) value k1,
      handler_runs run late core yield value sets' k k1 present located ran,
      subst
          (λ q.
            Yielded core current other q value k
              (store_eax (if late then irq_regs core k1 else irq_regs core k) value k1))
          place (swapped (if late then irq_regs core k1 else irq_regs core k)),
    )
