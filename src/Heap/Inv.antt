-- ===== src/Heap/Inv.antt =====
-- A kernel heap in order, src/mm/heap.c: the words are a row of blocks, and the list holds the free ones.
use just_kernel.Base.{ℕ, ◌≤◌, ◌≡◌, List, if◌then◌else◌}
use just_kernel.Heap.{Heap}
use just_kernel.Heap.Chain.{Block, Chain, free_at}
use just_kernel.Heap.Order.{count, IsSorted}

pub record IsHeap (h : Heap) (bs : List Block) : Type 0 where
  pub chain : Chain h.head h.start_addr bs h.end_addr
  pub listed : (p : ℕ) → count p h.free_list ≡ (if free_at p h.start_addr bs then 1 else 0)
  pub sorted : IsSorted h.head h.free_list
  pub bounded : h.end_addr ≤ 4294963200
