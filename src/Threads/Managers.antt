-- ===== src/Threads/Managers.antt =====
-- The calls that src/proc/thread.c makes, from the models of the heap and of the virtual memory manager:
-- the heaps by the address of their `Heap_t`, over one virtual memory manager.
use just_kernel.Base.{ℕ, Bool, true, false, Option, none, some, ◌==◌, if◌then◌else◌}
use just_kernel.Vmm.{Layout, Vmm}
use just_kernel.Vmm.Directories.{vmm_replace_cr3}
use just_kernel.Heap.{Heap}
use just_kernel.Heap.Results.{ok, panics, halts, corrupts, faults, no_fuel}
use just_kernel.Heap.Release.{heap_malloc, heap_free}
use just_kernel.Threads.{Calls}

pub record Managers : Type 0 where
  pub kernel_heap : ℕ
  pub heaps : ℕ → Option Heap
  pub vmm : Vmm

-- A heap after a call, at the address `a`; a call that does not return leaves nothing.
abbrev pub set_heap : (a : ℕ) → Option Heap → Managers → Managers
set_heap a none m = m
set_heap a (some h) m = record m { heaps = λ q. if q == a then some h else m.heaps q; vmm = h.vmm }

abbrev pub heap_of : (a : ℕ) → Managers → Option Heap
heap_of a m = elim (m.heaps a) [ none ↦ none | some h ↦ some (record h { vmm = m.vmm }) ]

module _ (l : Layout) where
  unfoldable pub malloc_from : (a size : ℕ) → (align : Bool) → Managers → Option (ℕ × Managers)
  malloc_from a size align m = elim (heap_malloc l (heap_of a m) size align) [
    | ok (ptr, h) ↦ some (ptr, set_heap a h m)
    | panics ↦ none
    | halts ↦ none
    | corrupts ↦ none
    | faults ↦ none
    | no_fuel ↦ none
  ]

  unfoldable pub free_to : (a ptr : ℕ) → Managers → Option Managers
  free_to a ptr m = elim (heap_free l (heap_of a m) ptr) [
    | ok h ↦ some (set_heap a h m)
    | panics ↦ none
    | halts ↦ none
    | corrupts ↦ none
    | faults ↦ none
    | no_fuel ↦ none
  ]

  abbrev pub kernel_calls : Calls Managers
  kernel_calls = record {
    kmalloc = λ size m. malloc_from m.kernel_heap size false m;
    kmalloc_a = λ size m. malloc_from m.kernel_heap size true m;
    kfree = λ ptr m. free_to m.kernel_heap ptr m;
    heap_malloc = λ heap size align m. malloc_from heap size align m;
    heap_free = λ heap ptr m. free_to heap ptr m;
    vmm_replace_cr3 =
        λ cr3 m. let (old, vmm) = vmm_replace_cr3 cr3 m.vmm in (old, record m { vmm = vmm });
  }
