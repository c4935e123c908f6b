-- ===== src/Pmm/Accounting.antt =====
-- The counters of the physical memory manager over whole calls, and the release of an allocation.
use just_kernel.Base.{
  ℕ, ◌+◌, ◌*◌, ◌/◌, ◌≤◌, ◌<◌, ◌≡◌, ◌∙◌, subst, inl, inr, Option, none, some, arith, Option-cases,
}
use just_kernel.Pmm.{Pmm, pages_of, pmm_alloc, pmm_alloc_from, pmm_unalloc}
use just_kernel.Pmm.Bits.{is_free}
use just_kernel.Pmm.Ranges.{count_free, count_free-range, count_free-le}
use just_kernel.Pmm.Alloc.{
  WellFormed, Took, Allocated, Released, memory_sum, Took-memory_sum, Gave-memory_sum, pages_of-lt,
  pmm_alloc-Allocated, pmm_alloc_from-Took, pmm_unalloc-Released,
}

-- A call of the allocator, and its effect on the state; `none` is a halt.
pub data Call : Type 0 where
  alloc : (size : ℕ) → Call
  alloc_from : (addr size : ℕ) → Call
  unalloc : (addr size : ℕ) → Call

unfoldable pub run_call : Call → Pmm → Option Pmm
run_call (alloc size) s = elim (pmm_alloc size s) [ none ↦ none | some (addr, t) ↦ some t ]
run_call (alloc_from addr size) s = some (pmm_alloc_from addr size s).1
run_call (unalloc addr size) s = pmm_unalloc addr size s

-- The arguments are 32-bit words, and `pmm_alloc` is asked for at least one page.
abbrev pub IsProper : Call → Type 0
IsProper (alloc size) = 0 < pages_of size
IsProper (alloc_from addr size) = addr < 4294967296
IsProper (unalloc addr size) = addr < 4294967296

alloc_inv :
    (size : ℕ) (s t : Pmm) (addr : ℕ)
    → WellFormed s
    → 0 < pages_of size
    → pmm_alloc size s ≡ some (addr, t)
    → Allocated (pages_of size) s (some (addr, t))
alloc_inv size s t addr wf proper e =
    subst (Allocated (pages_of size) s) e (pmm_alloc-Allocated size s wf proper)

-- A proper call that returns keeps `used_memory + available_memory` modulo 2 ^ 32.
pub run_call-memory_sum :
    (c : Call) (s t : Pmm)
    → WellFormed s
    → IsProper c
    → run_call c s ≡ some t
    → memory_sum t ≡ memory_sum s
unfolding run_call
run_call-memory_sum (alloc size) s t wf proper e = elim (Option-cases (pmm_alloc size s)) [
  | inl halt ↦ ground (arith, halt)
  | inr ((addr, t'), got) ↦
      let (page, _, _, _, took, _, _) = alloc_inv size s t' addr wf proper got in
      let h = Took-memory_sum wf (pages_of-lt size) took in
      let e' : t' ≡ t = ground (arith, got) in rw (← e') h
]
run_call-memory_sum (alloc_from addr size) s t wf small e =
    elim (pmm_alloc_from-Took addr size s wf small) [
      | inl (_, took, _, _) ↦
          let h = Took-memory_sum wf (pages_of-lt size) took in ground (arith, h)
      | inr (_, same) ↦ ground (arith, same)
    ]
run_call-memory_sum (unalloc addr size) s t wf small e =
    Gave-memory_sum wf (pages_of-lt size)
      (subst (Released (addr / 4096) (pages_of size) s) e
        (pmm_unalloc-Released addr size s wf small)).1

-- `available_memory` is the size of the free pages among the first `m`.
abbrev pub IsCounted : (m : ℕ) → Pmm → Type 0
IsCounted m s = s.available_memory ≡ count_free m s.bitmap * 4096

pub Took-IsCounted :
    (m : ℕ) {page n : ℕ} {s t : Pmm}
    → Took page n s t
    → page + n ≤ m
    → m ≤ 1048568
    → IsCounted m s
    → IsCounted m t
Took-IsCounted m {page} {n} {s} {t} took fits small counted = omega (
  arith,
  count_free-range m s.bitmap t.bitmap page n took.now took.were_free,
  count_free-le m s.bitmap,
  took.available,
)

-- An allocation keeps `available_memory` equal to the size of the free pages, counted over all the
-- pages of the bitmap.
pub pmm_alloc-IsCounted :
    (size : ℕ) (s t : Pmm) (addr : ℕ)
    → WellFormed s
    → 0 < pages_of size
    → IsCounted 1048568 s
    → pmm_alloc size s ≡ some (addr, t)
    → IsCounted 1048568 t
pmm_alloc-IsCounted size s t addr wf proper counted e =
    let (page, _, _, fits, took, _, _) = alloc_inv size s t addr wf proper e in
    Took-IsCounted 1048568 took (omega arith) (omega arith) counted

-- What was allocated can be released at its address and size: the release does not halt, every
-- page is as before, and so are the counters.
pub pmm_unalloc-pmm_alloc :
    (size : ℕ) (s t : Pmm) (addr : ℕ)
    → WellFormed s
    → 0 < pages_of size
    → pmm_alloc size s ≡ some (addr, t)
    → (u : Pmm) × (pmm_unalloc addr size t ≡ some u)
      × ((q : ℕ) → is_free u.bitmap q ≡ is_free s.bitmap q)
      × (u.available_memory ≡ s.available_memory)
      × (u.used_memory ≡ s.used_memory)
      × (u.total_memory ≡ s.total_memory)
pmm_unalloc-pmm_alloc size s t addr wf proper e =
    let (page, at, pos, fits, took, wf', first) = alloc_inv size s t addr wf proper e in
    let back : addr / 4096 ≡ page = omega arith in
    let r = rw back at (pmm_unalloc-Released addr size t wf' (omega arith)) in
    elim (Option-cases (pmm_unalloc addr size t)) [
      | inl halt ↦ absurd (omega (arith, rw halt at r))
      | inr (u, got) ↦
          let gave = (rw got at r).1 in
          (
            u,
            got,
            (λ q. ground (arith, gave.now q, took.now q, took.were_free q)),
            omega (arith, gave.available, took.available, wf.available, pages_of-lt size),
            omega (arith, gave.used, took.used, wf.used, pages_of-lt size),
            gave.total ∙ took.total,
          )
    ]
