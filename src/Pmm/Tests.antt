-- ===== src/Pmm/Tests.antt =====
-- The allocator on small bitmaps: runs of the code, and its theorems at concrete states.
use just_kernel.Base.{ℕ, ◌≡◌, refl, ap, ◌⊎◌, none, some, List, [], ◌∷◌, arith}
use just_kernel.Pmm.{
  Pmm, bitmap_max_page, MemoryBlock, pmm_alloc, pmm_alloc_from, pmm_unalloc, take_pages,
  find_free_page, find_loop, pmm_get_bit, pmm_memory_setup,
}
use just_kernel.Samples.{small, small-WellFormed, count_small}
use just_kernel.Pmm.Bits.{is_free}
use just_kernel.Pmm.Ranges.{AllFree}
use just_kernel.Pmm.Search.{IsAnswer, find_free_page-IsAnswer}
use just_kernel.Pmm.Alloc.{
  WellFormed, Took, Allocated, Released, memory_sum, pmm_alloc-Allocated, pmm_alloc_from-Took,
  pmm_unalloc-Released,
}
use just_kernel.Pmm.Accounting.{
  alloc, run_call, run_call-memory_sum, IsCounted, pmm_alloc-IsCounted, pmm_unalloc-pmm_alloc,
}
use just_kernel.Pmm.Setup.{some_gives, is_free-pmm_memory_setup, pmm_memory_setup-WellFormed}

-- Four pages would not fit before page 12, three do.
alloc_run : pmm_alloc 0x2800 small ≡ some (0x9000, take_pages 9 3 small)
unfolding pmm_alloc find_free_page find_loop pmm_get_bit
alloc_run = refl

pmm_alloc-Allocated_example : Allocated 3 small (pmm_alloc 0x2800 small)
pmm_alloc-Allocated_example = pmm_alloc-Allocated 0x2800 small small-WellFormed (omega arith)

find_free_page-IsAnswer_example :
    IsAnswer small.bitmap 3 bitmap_max_page (find_free_page 3 small.bitmap)
find_free_page-IsAnswer_example =
    find_free_page-IsAnswer small.bitmap 3 small-WellFormed.zero_taken (omega arith)

pmm_alloc_from-Took_example :
    (AllFree small.bitmap 9 1
      × Took 9 1 small (pmm_alloc_from 0x9abc 0x10 small).1
      × WellFormed (pmm_alloc_from 0x9abc 0x10 small).1
      × ((pmm_alloc_from 0x9abc 0x10 small).0 ≡ 0x9000))
    ⊎ ((¬ AllFree small.bitmap 9 1) × (pmm_alloc_from 0x9abc 0x10 small ≡ (0, small)))
pmm_alloc_from-Took_example = pmm_alloc_from-Took 0x9abc 0x10 small small-WellFormed (omega arith)

pmm_unalloc-Released_example : Released 12 1 small (pmm_unalloc 0xc000 0x1000 small)
pmm_unalloc-Released_example =
    pmm_unalloc-Released 0xc000 0x1000 small small-WellFormed (omega arith)

run_call-memory_sum_example : memory_sum (take_pages 9 3 small) ≡ memory_sum small
unfolding run_call
run_call-memory_sum_example =
    run_call-memory_sum (alloc 0x2800) small (take_pages 9 3 small) small-WellFormed (omega arith)
      run
  where
    run : run_call (alloc 0x2800) small ≡ some (take_pages 9 3 small)
    run = ap (elim [ none ↦ none | some (addr, t) ↦ some t ]) alloc_run

pmm_alloc-IsCounted_example : IsCounted 1048568 (take_pages 9 3 small)
pmm_alloc-IsCounted_example =
    pmm_alloc-IsCounted 0x2800 small (take_pages 9 3 small) 0x9000 small-WellFormed (omega arith)
      (omega (arith, count_small 1048552)) alloc_run

pmm_unalloc-pmm_alloc_example :
    (u : Pmm) × (pmm_unalloc 0x9000 0x2800 (take_pages 9 3 small) ≡ some u)
    × ((q : ℕ) → is_free u.bitmap q ≡ is_free small.bitmap q)
    × (u.available_memory ≡ 0x6000)
    × (u.used_memory ≡ 0)
    × (u.total_memory ≡ 0x6000)
pmm_unalloc-pmm_alloc_example =
    pmm_unalloc-pmm_alloc 0x2800 small (take_pages 9 3 small) 0x9000 small-WellFormed (omega arith)
      alloc_run

-- A memory map of one reserved block and 1 MiB of available memory above 1 MiB.
abbrev mmap : List MemoryBlock
mmap =
    record { addr = 0; len = 0x9fc00; type = 2 }
    ∷ record { addr = 0x100000; len = 0x100000; type = 1 }
    ∷ []

abbrev blank : Pmm
blank = record { bitmap = λ _. 0; total_memory = 0; used_memory = 0; available_memory = 0 }

is_free-pmm_memory_setup_example :
    is_free (pmm_memory_setup mmap blank).bitmap 256 ≡ some_gives mmap 256
is_free-pmm_memory_setup_example =
    is_free-pmm_memory_setup mmap blank 256 (λ i. omega arith) (omega arith)

pmm_memory_setup-WellFormed_example :
    WellFormed (pmm_memory_setup mmap blank)
    × (memory_sum (pmm_memory_setup mmap blank) ≡ (pmm_memory_setup mmap blank).total_memory)
pmm_memory_setup-WellFormed_example =
    pmm_memory_setup-WellFormed mmap blank (omega arith) (λ i. omega arith) refl refl
