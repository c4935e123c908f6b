-- ===== src/Pmm/Alloc.antt =====
-- `pmm_alloc`, `pmm_alloc_from` and `pmm_unalloc`: which pages they change, when they fail, and
-- what the counters say.
use just_kernel.Base.{
  ℕ, ◌+◌, ◌*◌, ◌/◌, ◌≤◌, ◌<◌, ◌≡◌, refl, ◌⊎◌, inl, inr, true, false, Option, none, some, ltb,
  if◌then◌else◌, arith, u32, sub32, Bool-cases, page_size,
}
use just_kernel.Pmm.{
  Pmm, bitmap_max_page, find_free_page, pages_of, take_pages, pmm_alloc, pmm_alloc_from,
  pmm_unalloc, range_free,
}
use just_kernel.Pmm.Bits.{is_free, IsBytes}
use just_kernel.Pmm.Ranges.{
  in_range, AllFree, is_free-set_bits, is_free-clear_bits, set_bits-IsBytes, clear_bits-IsBytes,
  range_free-AllFree, AllFree-range_free,
}
use just_kernel.Pmm.Search.{IsAnswer, NoRun, find_free_page-IsAnswer}

-- What holds of the globals between calls: the bitmap holds bytes, page 0 is never given out, and
-- the counters are 32-bit words.
pub record WellFormed (s : Pmm) : Type 0 where
  pub bytes : IsBytes s.bitmap
  pub zero_taken : is_free s.bitmap 0 ≡ false
  pub used : s.used_memory < 4294967296
  pub available : s.available_memory < 4294967296

-- What a successful allocation of `n` pages at `page` did: the pages were free, they and no others
-- are taken now, and the counters moved by their size.
pub record Took (page n : ℕ) (s t : Pmm) : Type 0 where
  pub were_free : AllFree s.bitmap page n
  pub now : (q : ℕ) → is_free t.bitmap q ≡ (if in_range page n q then false else is_free s.bitmap q)
  pub available : t.available_memory ≡ sub32 s.available_memory (n * 4096)
  pub used : t.used_memory ≡ u32 (s.used_memory + n * 4096)
  pub total : t.total_memory ≡ s.total_memory

pub pages_of-lt : (size : ℕ) → pages_of size < 1048576
pages_of-lt size = omega arith

take_pages-Took :
    (page n : ℕ) (s : Pmm)
    → WellFormed s
    → page + n ≤ 4294967296
    → AllFree s.bitmap page n
    → Took page n s (take_pages page n s)
unfolding take_pages
take_pages-Took page n s wf fits all = record {
  were_free = all;
  now = λ q. is_free-set_bits n page s.bitmap q wf.bytes fits;
  available = refl;
  used = refl;
  total = refl;
}

take_pages-WellFormed :
    (page n : ℕ) (s : Pmm) → WellFormed s → page + n ≤ 4294967296 → WellFormed (take_pages page n s)
unfolding take_pages
take_pages-WellFormed page n s wf fits = record {
  bytes = set_bits-IsBytes n page s.bitmap wf.bytes;
  zero_taken = ground (arith, is_free-set_bits n page s.bitmap 0 wf.bytes fits, wf.zero_taken);
  used = omega arith;
  available = omega arith;
}

-- What `pmm_alloc` promises of its result: the first run of free pages, or a halt when none of the
-- pages below `bitmap_max_page` starts one.
abbrev pub Allocated : (n : ℕ) → Pmm → Option (ℕ × Pmm) → Type 0
Allocated n s none = NoRun s.bitmap n bitmap_max_page
Allocated n s (some (addr, t)) =
    (page : ℕ) × (addr ≡ page * 4096)
    × (0 < page)
    × (page + n ≤ bitmap_max_page)
    × Took page n s t
    × WellFormed t
    × ((p : ℕ) → p < page → ¬ AllFree s.bitmap p n)

-- On a well-formed state a request of at least one page is given the first run of free pages.
pub pmm_alloc-Allocated :
    (size : ℕ) (s : Pmm)
    → WellFormed s
    → 0 < pages_of size
    → Allocated (pages_of size) s (pmm_alloc size s)
unfolding pmm_alloc
pmm_alloc-Allocated size s wf some_pages =
    go (find_free_page n s.bitmap) (find_free_page-IsAnswer s.bitmap n wf.zero_taken some_pages)
  where
    n : ℕ
    n = pages_of size

    go :
        (r : Option ℕ)
        → IsAnswer s.bitmap n bitmap_max_page r
        → Allocated n s (elim r [
          | none ↦ none
          | some page ↦ some (u32 (page * page_size), take_pages page n s)
        ])
    go none a = a
    go (some page) (pos, fits, all, first) = (
      page,
      omega arith,
      pos,
      fits,
      take_pages-Took page n s wf (omega arith) all,
      take_pages-WellFormed page n s wf (omega arith),
      first,
    )

-- The promise of `pmm_alloc_from`: it takes exactly the pages asked for, or, when one of them is
-- taken, answers 0 and changes nothing.
pub pmm_alloc_from-Took :
    (addr size : ℕ) (s : Pmm)
    → WellFormed s
    → addr < 4294967296
    → (AllFree s.bitmap (addr / 4096) (pages_of size)
        × Took (addr / 4096) (pages_of size) s (pmm_alloc_from addr size s).1
        × WellFormed (pmm_alloc_from addr size s).1
        × ((pmm_alloc_from addr size s).0 ≡ addr / 4096 * 4096))
      ⊎ ((¬ AllFree s.bitmap (addr / 4096) (pages_of size)) × (pmm_alloc_from addr size s ≡ (0, s)))
unfolding pmm_alloc_from
pmm_alloc_from-Took addr size s wf small =
    elim (Bool-cases (range_free (pages_of size) (addr / page_size) s.bitmap)) [
      | inl free ↦
          let all = range_free-AllFree (pages_of size) (addr / 4096) s.bitmap fits free in
          inl (
            rw free (
              all,
              take_pages-Took (addr / 4096) (pages_of size) s wf fits all,
              take_pages-WellFormed (addr / 4096) (pages_of size) s wf fits,
              omega arith,
            ))
      | inr busy ↦ inr (
          rw busy (
            (λ all.
                ground (arith, AllFree-range_free (pages_of size) (addr / 4096) s.bitmap fits all)),
            refl,
          ))
    ]
  where
    fits : addr / 4096 + pages_of size ≤ 4294967296
    fits = omega (arith, pages_of-lt size)

-- What a release of `n` pages at `page` did.
pub record Gave (page n : ℕ) (s t : Pmm) : Type 0 where
  pub bytes : IsBytes t.bitmap
  pub now : (q : ℕ) → is_free t.bitmap q ≡ (if in_range page n q then true else is_free s.bitmap q)
  pub available : t.available_memory ≡ u32 (s.available_memory + n * 4096)
  pub used : t.used_memory ≡ sub32 s.used_memory (n * 4096)
  pub total : t.total_memory ≡ s.total_memory

-- The promise of `pmm_unalloc`: a range that ends above `bitmap_max_page` halts, any other range is
-- freed whatever the offset of the address in its page.
abbrev pub Released : (page n : ℕ) → Pmm → Option Pmm → Type 0
Released page n s none = bitmap_max_page < page + n
Released page n s (some t) = (page + n ≤ bitmap_max_page) × Gave page n s t

pub pmm_unalloc-Released :
    (addr size : ℕ) (s : Pmm)
    → WellFormed s
    → addr < 4294967296
    → Released (addr / 4096) (pages_of size) s (pmm_unalloc addr size s)
unfolding pmm_unalloc
pmm_unalloc-Released addr size s wf small =
    elim (Bool-cases (ltb bitmap_max_page (u32 (addr / 4096 + pages_of size)))) [
      | inl beyond ↦ rw beyond (ground (arith, pages_of-lt size))
      | inr within ↦ rw within (
        (ground (arith, pages_of-lt size)),
        record {
          bytes = clear_bits-IsBytes (pages_of size) (addr / 4096) s.bitmap wf.bytes;
          now = λ q.
              is_free-clear_bits (pages_of size) (addr / 4096) s.bitmap q wf.bytes
                (omega (arith, pages_of-lt size));
          available = refl;
          used = refl;
          total = refl;
        },
      )
    ]

-- The counters together: every operation keeps their sum, modulo 2 ^ 32.
abbrev pub memory_sum : Pmm → ℕ
memory_sum s = u32 (s.used_memory + s.available_memory)

pub Took-memory_sum :
    {page n : ℕ} {s t : Pmm}
    → WellFormed s
    → n < 1048576
    → Took page n s t
    → memory_sum t ≡ memory_sum s
Took-memory_sum wf small took = omega (arith, took.available, took.used, wf.available, wf.used)

pub Gave-memory_sum :
    {page n : ℕ} {s t : Pmm}
    → WellFormed s
    → n < 1048576
    → Gave page n s t
    → memory_sum t ≡ memory_sum s
Gave-memory_sum wf small gave = omega (arith, gave.available, gave.used, wf.available, wf.used)
