-- ===== src/Threads.antt =====
-- Threads, src/proc/thread.c: a new thread and the registers on its kernel stack, which isr_common of
-- src/int/int.s pops when the scheduler has picked it. Memory is by words at their addresses, and an
-- address of 0 is a null pointer. The heap of src/mm/heap.c is an argument, as the calls that the code
-- makes of it; `none` is a call that does not return.
pub mod Managers
pub mod Start
mod Tests
use just_kernel.Base.{
  ℕ, zero, suc, ◌+◌, ◌*◌, ◌-◌, Bool, true, false, Option, none, some, List, [], ◌∷◌, ◌++◌, ◌==◌,
  if◌then◌else◌, u32, sub32,
}

abbrev pub Words : Type 0
Words = ℕ → ℕ

abbrev pub store : (a value : ℕ) → Words → Words
store a value mem x = if x == a then value else mem x

-- `process_t`, with its threads in order.
pub record Process : Type 0 where
  pub cr3 : ℕ
  pub ring : ℕ
  pub heap : ℕ
  pub threads : List ℕ

-- `thread_t`; the fields that are not here start at 0. `cpu` is -1 in 32 bits, `state` is THREAD_STOPPED.
pub record NewThread : Type 0 where
  pub regs : ℕ
  pub stopped : Bool
  pub cpu : ℕ
  pub tid : ℕ
  pub user_stack : ℕ
  pub kernel_stack : ℕ

-- The calls of the heap and of the memory managers, on a state of theirs.
pub record Calls (H : Type 0) : Type 0 where
  pub kmalloc : (size : ℕ) → H → Option (ℕ × H)
  pub kmalloc_a : (size : ℕ) → H → Option (ℕ × H)
  pub kfree : (ptr : ℕ) → H → Option H
  pub heap_malloc : (heap size : ℕ) → (align : Bool) → H → Option (ℕ × H)
  pub heap_free : (heap ptr : ℕ) → H → Option H
  pub vmm_replace_cr3 : (cr3 : ℕ) → H → ℕ × H

-- The words on the kernel stack, the threads by address, and the number of the next one.
pub record World (H : Type 0) : Type 0 where
  pub words : Words
  pub threads : ℕ → NewThread
  pub next_tid : ℕ
  pub managers : H

abbrev pub desc_seg : (n cpl : ℕ) → ℕ
desc_seg n cpl = 8 * n + cpl

-- The offsets of `core_regs_t`; the base part has 60 bytes and the user part 8.
abbrev pub base_size : ℕ
base_size = 60

abbrev pub user_size : ℕ
user_size = 8

-- The last assignments of `thread_create`, to the registers.
abbrev pub fill_regs : (regs entry cr3 kernel_stack : ℕ) → Words → Words
fill_regs regs entry cr3 kernel_stack mem =
    store (regs + 56) 0x202
      (store (regs + 20) kernel_stack (store regs cr3 (store (regs + 48) entry mem)))

-- The segments, and for ring 3 the user stack.
abbrev pub user_regs : (regs user_stack : ℕ) → Words → Words
user_regs regs user_stack mem = store (regs + 60) user_stack (
    store (regs + 64) (desc_seg 4 3)
      (store (regs + 4) (desc_seg 4 3) (store (regs + 52) (desc_seg 3 3) mem)))

abbrev pub kernel_regs : (regs : ℕ) → Words → Words
kernel_regs regs mem = store (regs + 4) (desc_seg 2 0) (store (regs + 52) (desc_seg 1 0) mem)

-- What both rings have in common.
abbrev pub finish_thread :
    {H : Type 0} (thread regs user_stack entry : ℕ)
    → Process
    → Words
    → H
    → World H
    → ℕ × Process × World H
finish_thread thread regs user_stack entry proc words m w =
    let new : NewThread = record (w.threads thread) {
      regs = regs;
      stopped = true;
      cpu = 0xffffffff;
      tid = w.next_tid;
      user_stack = user_stack;
    } in
    (
      thread,
      record proc { threads = proc.threads ++ (thread ∷ []) },
      record {
        words = fill_regs regs entry proc.cr3 (w.threads thread).kernel_stack words;
        threads = λ t. if t == thread then new else w.threads t;
        next_tid = u32 (w.next_tid + 1);
        managers = m;
      },
    )

module _ {H : Type 0} (calls : Calls H) where
  -- A stack that the heap does not give is not noticed.
  unfoldable pub thread_alloc : World H → Option (ℕ × World H)
  thread_alloc w = elim (calls.kmalloc 72 w.managers) [
    | none ↦ none
    | some (thread, m1) ↦
        if thread == 0
        then some (0, record w { managers = m1 })
        else elim (calls.kmalloc_a 4096 m1) [
          | none ↦ none
          | some (stack, m2) ↦
              let top = u32 (stack + 4096) in
              let new : NewThread = record {
                regs = sub32 top base_size;
                stopped = true;
                cpu = 0;
                tid = 0;
                user_stack = 0;
                kernel_stack = top;
              } in
              some (
                thread,
                record w { threads = λ t. if t == thread then new else w.threads t; managers = m2 },
              )
        ]
  ]

  -- The stack of a ring 3 thread, in the address space of its process.
  unfoldable pub user_stack_of : Process → H → Option (ℕ × H)
  user_stack_of proc m =
      let (old_cr3, m1) = calls.vmm_replace_cr3 proc.cr3 m in
      elim (calls.heap_malloc proc.heap 4096 true m1) [
        | none ↦ none
        | some (stack, m2) ↦ some (u32 (stack + 4096), (calls.vmm_replace_cr3 old_cr3 m2).1)
      ]

  unfoldable pub thread_create : Process → (entry : ℕ) → World H → Option (ℕ × Process × World H)
  thread_create proc entry w0 = elim (thread_alloc w0) [
    | none ↦ none
    | some (thread, w) ↦
        if thread == 0
        then some (0, proc, w)
        else if proc.ring == 3
        then elim (user_stack_of proc w.managers) [
          | none ↦ none
          | some (user_stack, m) ↦
              let regs = sub32 (w.threads thread).regs user_size in
              some (
                finish_thread thread regs user_stack entry proc (user_regs regs user_stack w.words)
                  m w)
        ]
        else (let regs = (w.threads thread).regs in
            some (finish_thread thread regs 0 entry proc (kernel_regs regs w.words) w.managers w))
  ]

  -- The process of the thread gives its heap and its address space.
  unfoldable pub thread_free : Process → (thread : ℕ) → World H → Option (World H)
  thread_free proc thread w =
      let t = w.threads thread in
      let kernel_parts : H → Option (World H) = λ m.
        elim (calls.kfree (sub32 t.kernel_stack 4096) m) [
          | none ↦ none
          | some m1 ↦ elim (calls.kfree thread m1) [
            | none ↦ none
            | some m2 ↦ some (record w { managers = m2 })
          ]
        ] in
      if thread == 0
      then some w
      else if t.user_stack == 0
      then kernel_parts w.managers
      else (let (old_cr3, m1) = calls.vmm_replace_cr3 proc.cr3 w.managers in
          elim (calls.heap_free proc.heap (sub32 t.user_stack 4096) m1) [
            | none ↦ none
            | some m2 ↦ kernel_parts (calls.vmm_replace_cr3 old_cr3 m2).1
          ])

-- The processor after `restore_regs`, `add esp, 8` and `iret` of isr_common from registers at `regs`:
-- for a return to ring 3 the stack is popped too, otherwise it is what is left of the kernel stack.
pub record Resumed : Type 0 where
  pub cr3 : ℕ
  pub ds : ℕ
  pub eip : ℕ
  pub cs : ℕ
  pub eflags : ℕ
  pub esp : ℕ
  pub ss : Option ℕ

abbrev pub pop_regs : (regs : ℕ) → (to_user : Bool) → Words → Resumed
pop_regs regs to_user mem = record {
  cr3 = mem regs;
  ds = mem (regs + 4);
  eip = mem (regs + 48);
  cs = mem (regs + 52);
  eflags = mem (regs + 56);
  esp = if to_user then mem (regs + 60) else regs + 60;
  ss = if to_user then some (mem (regs + 64)) else none;
}
