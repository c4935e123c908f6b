-- ===== src/Threads/Start.antt =====
-- Where a new thread of src/proc/thread.c begins.
use just_kernel.Base.{
  ℕ, ◌+◌, ◌<◌, ◌≡◌, refl, sym, ap, subst, ◌∙◌, inl, inr, Bool, true, false, none, some, [], ◌∷◌,
  ◌++◌, ◌==◌, if◌then◌else◌, Bool-cases, u32, sub32, arith,
}
use just_kernel.Threads.{
  Words, Process, Calls, World, fill_regs, user_regs, kernel_regs, thread_alloc, user_stack_of,
  finish_thread, thread_create, Resumed, pop_regs,
}

-- The registers of a thread at its first instruction: those of its ring, with interrupts on.
pub record Begins (to_user : Bool) (entry cr3 kernel_stack user_stack : ℕ) (r : Resumed)
    : Type 0 where
  pub space : r.cr3 ≡ cr3
  pub at_entry : r.eip ≡ entry
  pub code : r.cs ≡ (if to_user then 27 else 8)
  pub data_segment : r.ds ≡ (if to_user then 35 else 16)
  pub enabled : r.eflags ≡ 0x202
  pub stack : r.esp ≡ (if to_user then user_stack else kernel_stack)
  pub stack_segment : r.ss ≡ (if to_user then some 35 else none)

user-Begins :
    (regs entry cr3 kernel_stack user_stack : ℕ) (mem : Words)
    → Begins true entry cr3 kernel_stack user_stack
        (pop_regs regs true (fill_regs regs entry cr3 kernel_stack (user_regs regs user_stack mem)))
user-Begins regs entry cr3 kernel_stack user_stack mem = record {
  space = ground arith;
  at_entry = ground arith;
  code = ground arith;
  data_segment = ground arith;
  enabled = ground arith;
  stack = ground arith;
  stack_segment = ap (λ (q : ℕ). some q) (ground arith);
}

kernel-Begins :
    (regs entry cr3 kernel_stack user_stack : ℕ) (mem : Words)
    → regs + 60 ≡ kernel_stack
    → Begins false entry cr3 kernel_stack user_stack
        (pop_regs regs false (fill_regs regs entry cr3 kernel_stack (kernel_regs regs mem)))
kernel-Begins regs entry cr3 kernel_stack user_stack mem top = record {
  space = ground arith;
  at_entry = ground arith;
  code = ground arith;
  data_segment = ground arith;
  enabled = ground arith;
  stack = top;
  stack_segment = refl;
}

-- A thread that has never run, and what is known of it.
pub record IsNew {H : Type 0} (to_user : Bool) (entry cr3 kernel_stack user_stack thread tid : ℕ)
    (w : World H) : Type 0 where
  pub begins :
      Begins to_user entry cr3 kernel_stack user_stack
        (pop_regs (w.threads thread).regs to_user w.words)
  pub waits : (w.threads thread).stopped ≡ true
  pub anywhere : (w.threads thread).cpu ≡ 0xffffffff
  pub own_stack : (w.threads thread).kernel_stack ≡ kernel_stack
  pub numbered : (w.threads thread).tid ≡ tid
  pub next_number : w.next_tid ≡ u32 (tid + 1)

-- What the end of `thread_create` makes of it.
finish_thread-IsNew :
    {H : Type 0} (to_user : Bool) (thread regs user_stack at entry : ℕ) (proc : Process)
    (words : Words) (m : H) (w : World H)
    → Begins to_user entry proc.cr3 (w.threads thread).kernel_stack at (
        pop_regs regs to_user (fill_regs regs entry proc.cr3 (w.threads thread).kernel_stack words))
    → IsNew to_user entry proc.cr3
        (w.threads thread).kernel_stack
        at
        thread
        w.next_tid
        (finish_thread thread regs user_stack entry proc words m w).2
finish_thread-IsNew to_user thread regs user_stack at entry proc words m w begins =
    let same : (thread == thread) ≡ true = ground arith in
    record {
      begins = rw same begins;
      waits = rw same refl;
      anywhere = rw same refl;
      own_stack = rw same refl;
      numbered = rw same refl;
      next_number = refl;
    }

module _ {H : Type 0} (calls : Calls H) where
  -- The state after `thread_alloc`.
  abbrev allocated : (thread stack : ℕ) → H → World H → World H
  allocated thread stack m w = record w {
    threads = λ t.
        if t == thread
        then (record {
          regs = sub32 (u32 (stack + 4096)) 60;
          stopped = true;
          cpu = 0;
          tid = 0;
          user_stack = 0;
          kernel_stack = u32 (stack + 4096);
        })
        else w.threads t;
    managers = m;
  }

  thread_alloc-ran :
      (thread stack : ℕ) (m1 m2 : H) (w : World H)
      → calls.kmalloc 72 w.managers ≡ some (thread, m1)
      → 0 < thread
      → calls.kmalloc_a 4096 m1 ≡ some (stack, m2)
      → thread_alloc calls w ≡ some (thread, allocated thread stack m2 w)
  unfolding thread_alloc
  thread_alloc-ran thread stack m1 m2 w given positive stacked =
      let there : (thread == 0) ≡ false = ground arith in
      rw (thread_alloc, given, there, stacked) refl

  user_thread :
      (thread stack user_stack entry : ℕ) (proc : Process) (m2 m3 : H) (w : World H)
      → thread_alloc calls w ≡ some (thread, allocated thread stack m2 w)
      → 0 < thread
      → (proc.ring == 3) ≡ true
      → user_stack_of calls proc m2 ≡ some (user_stack, m3)
      → thread_create calls proc entry w
        ≡ some (
            finish_thread thread
              (sub32 (sub32 (u32 (stack + 4096)) 60) 8)
              user_stack
              entry
              proc
              (user_regs (sub32 (sub32 (u32 (stack + 4096)) 60) 8) user_stack w.words)
              m3
              (allocated thread stack m2 w))
  unfolding thread_create
  user_thread thread stack user_stack entry proc m2 m3 w alloced positive ring given =
      let there : (thread == 0) ≡ false = ground arith in
      let same : (thread == thread) ≡ true = ground arith in
      rw (thread_create, alloced, there, ring, given, same) refl

  kernel_thread :
      (thread stack entry : ℕ) (proc : Process) (m2 : H) (w : World H)
      → thread_alloc calls w ≡ some (thread, allocated thread stack m2 w)
      → 0 < thread
      → (proc.ring == 3) ≡ false
      → thread_create calls proc entry w
        ≡ some (
            finish_thread thread
              (sub32 (u32 (stack + 4096)) 60)
              0
              entry
              proc
              (kernel_regs (sub32 (u32 (stack + 4096)) 60) w.words)
              m2
              (allocated thread stack m2 w))
  unfolding thread_create
  kernel_thread thread stack entry proc m2 w alloced positive ring =
      let there : (thread == 0) ≡ false = ground arith in
      let same : (thread == thread) ≡ true = ground arith in
      rw (thread_create, alloced, there, ring, same) refl

  allocated-top :
      (thread stack : ℕ) (m : H) (w : World H)
      → stack + 4096 < 4294967296
      → ((allocated thread stack m w).threads thread).kernel_stack ≡ stack + 4096
  allocated-top thread stack m w fits =
      let same : (thread == thread) ≡ true = ground arith in
      let top : u32 (stack + 4096) ≡ stack + 4096 = omega arith in rw same top

  user-IsNew :
      (thread stack user_stack entry regs : ℕ) (proc : Process) (m2 m3 : H) (w : World H)
      → stack + 4096 < 4294967296
      → IsNew true entry proc.cr3
          (stack + 4096)
          user_stack
          thread
          w.next_tid
          (finish_thread thread regs user_stack entry proc
            (user_regs regs user_stack w.words)
            m3
            (allocated thread stack m2 w)).2
  user-IsNew thread stack user_stack entry regs proc m2 m3 w fits =
      let w1 = allocated thread stack m2 w in
      subst
        (λ (k : ℕ).
          IsNew {H = H} true entry proc.cr3 k user_stack thread w.next_tid
            (finish_thread thread regs user_stack entry proc (user_regs regs user_stack w.words) m3
              w1).2)
        (allocated-top thread stack m2 w fits)
        (finish_thread-IsNew true thread regs user_stack user_stack entry proc
          (user_regs regs user_stack w.words) m3 w1
          (user-Begins regs entry proc.cr3 (w1.threads thread).kernel_stack user_stack w.words))

  kernel-IsNew :
      (thread stack user_stack entry : ℕ) (proc : Process) (m2 : H) (w : World H)
      → stack + 4096 < 4294967296
      → IsNew false entry proc.cr3
          (stack + 4096)
          user_stack
          thread
          w.next_tid
          (finish_thread thread
            (sub32 (u32 (stack + 4096)) 60)
            0
            entry
            proc
            (kernel_regs (sub32 (u32 (stack + 4096)) 60) w.words)
            m2
            (allocated thread stack m2 w)).2
  kernel-IsNew thread stack user_stack entry proc m2 w fits =
      let w1 = allocated thread stack m2 w in
      let regs = sub32 (u32 (stack + 4096)) 60 in
      let top = allocated-top thread stack m2 w fits in
      let at_top : regs + 60 ≡ stack + 4096 = omega arith in
      subst
        (λ (k : ℕ).
          IsNew {H = H} false entry proc.cr3 k user_stack thread w.next_tid
            (finish_thread thread regs 0 entry proc (kernel_regs regs w.words) m2 w1).2)
        top
        (finish_thread-IsNew false thread regs 0 user_stack entry proc (kernel_regs regs w.words) m2
          w1
          (kernel-Begins regs entry proc.cr3 (w1.threads thread).kernel_stack user_stack w.words
            (at_top ∙ sym top)))

  -- When the heap gives the memory of a thread and its stack, below the end of the address space, and for
  -- ring 3 the user stack, thread_create returns the thread, which is the last of its process and has the
  -- next number; it waits for any core, and an interrupt return from its registers starts it at its entry in
  -- the ring and the address space of its process, with interrupts on and its stack empty.
  pub thread_create-IsNew :
      (thread stack user_stack entry : ℕ) (proc : Process) (m1 m2 m3 : H) (w : World H)
      → calls.kmalloc 72 w.managers ≡ some (thread, m1)
      → 0 < thread
      → calls.kmalloc_a 4096 m1 ≡ some (stack, m2)
      → stack + 4096 < 4294967296
      → ((proc.ring == 3) ≡ true → user_stack_of calls proc m2 ≡ some (user_stack, m3))
      → (proc' : Process) × (w' : World H) × (thread_create calls proc entry w
          ≡ some (thread, proc', w'))
        × (proc'.threads ≡ proc.threads ++ (thread ∷ []))
        × IsNew (proc.ring == 3) entry proc.cr3 (stack + 4096) user_stack thread w.next_tid w'
  thread_create-IsNew thread stack user_stack entry proc m1 m2 m3 w given positive stacked fits
        user =
      let alloced = thread_alloc-ran thread stack m1 m2 w given positive stacked in
      elim (Bool-cases (proc.ring == 3)) [
        | inl ring ↦ (
          _,
          _,
          user_thread thread stack user_stack entry proc m2 m3 w alloced positive ring (user ring),
          refl,
          rw ring (user-IsNew thread stack user_stack entry _ proc m2 m3 w fits),
        )
        | inr ring ↦ (
          _,
          _,
          kernel_thread thread stack entry proc m2 w alloced positive ring,
          refl,
          rw ring (kernel-IsNew thread stack user_stack entry proc m2 w fits),
        )
      ]
