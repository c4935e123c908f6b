-- ===== src/Threads/Tests.antt =====
-- A thread of a process in ring 3, with calls that always give the same memory.
use just_kernel.Base.{ℕ, ◌+◌, ◌≡◌, refl, false, some, [], ◌∷◌, ◌++◌, ◌==◌, arith}
use just_kernel.Threads.{Process, Calls, World, user_stack_of, thread_create}
use just_kernel.Threads.Start.{IsNew, thread_create-IsNew}

-- The state of the calls is the current address space.
abbrev calls : Calls ℕ
calls = record {
  kmalloc = λ size m. some (0x1000, m);
  kmalloc_a = λ size m. some (0x2000, m);
  kfree = λ ptr m. some m;
  heap_malloc = λ heap size align m. some (0x50001000, m);
  heap_free = λ heap ptr m. some m;
  vmm_replace_cr3 = λ cr3 m. (m, cr3);
}

abbrev process : Process
process = record { cr3 = 0x9000; ring = 3; heap = 0x7000; threads = [] }

abbrev world : World ℕ
world = record {
  words = λ a. 0;
  threads =
      λ t. record { regs = 0; stopped = false; cpu = 0; tid = 0; user_stack = 0; kernel_stack = 0 };
  next_tid = 5;
  managers = 0x8000;
}

user_stack_run : user_stack_of calls process 0x8000 ≡ some (0x50002000, 0x8000)
unfolding user_stack_of
user_stack_run = refl

thread_create-IsNew_example :
    (proc' : Process) × (w' : World ℕ) × (thread_create calls process 0x400000 world
      ≡ some (0x1000, proc', w'))
    × (proc'.threads ≡ [] ++ (0x1000 ∷ []))
    × IsNew (3 == 3) 0x400000 0x9000 (0x2000 + 4096) 0x50002000 0x1000 5 w'
thread_create-IsNew_example =
    thread_create-IsNew calls 0x1000 0x2000 0x50002000 0x400000 process 0x8000 0x8000 0x8000 world
      refl (omega arith) refl (omega arith) (λ ring. user_stack_run)
