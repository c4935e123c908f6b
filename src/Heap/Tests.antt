-- ===== src/Heap/Tests.antt =====
-- The theorems on the kernel heap at a heap of three blocks, of which the middle one is free.
use just_kernel.Base.{◌+◌, ◌≡◌, ◌≢◌, refl, true, false, List, [], ◌∷◌, ◌==◌, if◌then◌else◌, arith}
use just_kernel.Samples.{small}
use just_kernel.Vmm.{Layout}
use just_kernel.Heap.{Heap, request2size, alloc}
use just_kernel.Heap.Release.{free}
use just_kernel.Heap.Results.{ok, no_fuel}
use just_kernel.Heap.Chain.{Block, Chain}
use just_kernel.Heap.Inv.{IsHeap}
use just_kernel.Heap.Free.{release_block}
use just_kernel.Heap.Fit.{Chosen, alloc-Chosen}
use just_kernel.Heap.GiveBack.{free-IsHeap}
use just_kernel.Heap.Rounds.{alloc-no_fuel}

abbrev layout : Layout
layout = record { base_dir = 0x1000; base_table = 0x2000; dir = 0x3000; table = 0x4000 }

abbrev row : List Block
row =
    record { size = 32; used = true }
    ∷ record { size = 64; used = false }
    ∷ record { size = 4000; used = true }
    ∷ []

abbrev heap : Heap
heap = record {
  start_addr = 0x90000000;
  end_addr = 0x90001000;
  max_addr = 0xa0000000;
  cr3 = 0x5000;
  perms = 3;
  free_list = 0x90000020 ∷ [];
  prev_foot = λ q. 0;
  head = λ q.
      if q == 0x90000000
      then 35
      else if q == 0x90000020
      then 65
      else if q == 0x90000060
      then 4003
      else 0;
  vmm = record {
    frames = λ f i. 0;
    paging = true;
    cr3 = 0x5000;
    base_kernel_cr3 = 0x1000;
    pmm = small;
  };
}

heap-IsHeap : IsHeap heap row
unfolding Chain
heap-IsHeap = record {
  chain = (refl, refl, omega arith, (refl, refl, omega arith, (refl, refl, omega arith, refl)));
  listed = λ p. ground arith;
  sorted = (tt, tt);
  bounded = omega arith;
}

alloc-Chosen_example : Chosen layout heap row 20
unfolding request2size
alloc-Chosen_example =
    alloc-Chosen layout heap row 0x90000020 20 heap-IsHeap (omega arith) refl (omega arith)

-- The block in front is given back.
free-IsHeap_example :
    (h : Heap) × (free layout (0x90000000 + 8) heap ≡ ok h)
    × IsHeap h (release_block 0x90000000 0x90000000 row)
free-IsHeap_example =
    free-IsHeap layout heap row 0x90000000 (record { size = 32; used = true }) heap-IsHeap
      (omega arith) refl refl (omega arith)

-- No free block fits, so that the heap has to grow.
alloc-no_fuel_example : alloc layout 5000 heap ≢ no_fuel
alloc-no_fuel_example = alloc-no_fuel layout heap row 5000 heap-IsHeap (omega arith)
