-- ===== src/Vmm/Grow.antt =====
-- `ensure_table`: a missing page table is a fresh frame, cleared, and entered into the directory.
use just_kernel.Base.{
  ℕ, zero, suc, ◌+◌, ◌*◌, ◌/◌, ◌<◌, ◌≡◌, refl, ap, ◌∙◌, ◌≢◌, true, false, ◌&&◌, some, ◌==◌,
  if◌then◌else◌, arith, Bool-cases, Option-cases, inl, inr, bit_or, page_size, subst,
}
use just_kernel.Pmm.{Pmm, bitmap_max_page, pmm_alloc}
use just_kernel.Pmm.Bits.{is_free}
use just_kernel.Pmm.Ranges.{count_free, count_free-range, in_range, AllFree}
use just_kernel.Pmm.Alloc.{WellFormed, Allocated, pmm_alloc-Allocated}
use just_kernel.Vmm.{
  Layout, Vmm, TableOff, write_entry, pid_of, slot, write_window, open_table, close_table,
  clear_table, ensure_table, is_present, address,
}
use just_kernel.Vmm.Windows.{IsLayout, is_slot, slot-point_table}
use just_kernel.Vmm.Walk.{seen-eq, seen-frames}
use just_kernel.Vmm.Offsets.{bit_or-flags}
use just_kernel.Vmm.Space.{Ready, room, entry}

count_free-pos :
    (m : ℕ) (bitmap : ℕ → ℕ)
    → 0 < count_free m bitmap
    → (p : ℕ) × (p < m) × (is_free bitmap p ≡ true)
unfolding count_free
count_free-pos zero bitmap h = absurd (omega arith)
count_free-pos (suc m) bitmap h = elim (Bool-cases (is_free bitmap m)) [
  | inl free ↦ (m, omega arith, free)
  | inr taken ↦ let (p, lt, free) = count_free-pos m bitmap (ground arith) in (p, omega arith, free)
]

-- What one page from the physical memory manager is.
pub record Fresh (page : ℕ) (s t : Pmm) : Type 0 where
  pub pos : 0 < page
  pub within : page < bitmap_max_page
  pub was_free : is_free s.bitmap page ≡ true
  pub now : (q : ℕ) → is_free t.bitmap q ≡ (if q == page then false else is_free s.bitmap q)
  pub ok : WellFormed t
  pub count : count_free bitmap_max_page t.bitmap + 1 ≡ count_free bitmap_max_page s.bitmap

-- With a free frame left, a request for one page gets one.
pub alloc_page :
    (s : Pmm)
    → WellFormed s
    → 0 < count_free bitmap_max_page s.bitmap
    → (page : ℕ) × (t : Pmm) × (pmm_alloc page_size s ≡ some (page * 4096, t)) × Fresh page s t
alloc_page s wf left = elim (Option-cases (pmm_alloc page_size s)) [
  | inl halt ↦
      let (p, lt, free) = count_free-pos bitmap_max_page s.bitmap left in
      absurd (
        subst (Allocated 1 s) halt (pmm_alloc-Allocated page_size s wf (omega arith)) p
          (omega arith) (one p free))
  | inr ((addr, t), got) ↦
      let (page, at, pos, fits, took, wf', first) =
        subst (Allocated 1 s) got (pmm_alloc-Allocated page_size s wf (omega arith)) in
      (
        page,
        t,
        rw (← at) got,
        record {
          pos = pos;
          within = omega arith;
          was_free = took.were_free page (omega arith) (omega arith);
          now = λ q. ground (arith, took.now q);
          ok = wf';
          count = omega (
            arith,
            count_free-range bitmap_max_page s.bitmap t.bitmap page 1 took.now took.were_free,
          );
        },
      )
]
  where
    one : (p : ℕ) → is_free s.bitmap p ≡ true → AllFree s.bitmap p 1
    one p free q lo hi = let e : p ≡ q = omega arith in rw e at free

module _ (l : Layout) (ok : IsLayout l) where
  -- The loop clears the frame behind the window, and nothing else.
  clear_table-frames :
      (n i : ℕ) (s : Vmm) {p : ℕ}
      → s.paging ≡ true
      → address (slot l l.table s) ≡ p
      → p ≢ l.base_table / 4096
      → record {
        frames :
            (f j : ℕ)
            → (clear_table l n i s).frames f j
              ≡ (if (f == p) && in_range i n j then 0 else s.frames f j);
        paging : (clear_table l n i s).paging ≡ s.paging;
        pmm : (clear_table l n i s).pmm ≡ s.pmm;
      }
  unfolding clear_table write_entry
  clear_table-frames zero i s paging at apart = record {
    frames = λ f j. ground arith;
    paging = refl;
    pmm = refl;
  }
  clear_table-frames (suc n) i s {p} paging at apart =
      let here = seen-eq l ok l.table s paging at in
      let rest =
        clear_table-frames n (i + 1) (write_window l l.table i 0 s) paging (ground (arith, here))
          apart in
      record {
        frames = λ f j. ground (arith, rest.frames f j, here);
        paging = rest.paging;
        pmm = rest.pmm;
      }

  -- The state `t` is `s` with a cleared frame `p` as the table at index `i` of the directory.
  pub record Grown (d i p : ℕ) (s t : Vmm) : Type 0 where
    pub frames :
        (f j : ℕ)
        → is_slot l f j ≡ false
        → j < 1024
        → t.frames f j ≡ (
            if (f == d / 4096) && (j == i)
            then p * 4096 + 7
            else if f == p
            then 0
            else s.frames f j)
    pub paging : t.paging ≡ true
    pub fresh : Fresh p s.pmm t.pmm
    pub at_dir : address (slot l l.dir t) ≡ d / 4096

  module _ (d i p : ℕ) (s : Vmm) (pmm' : Pmm) (ready : Ready l d s)
      (fresh : Fresh p s.pmm pmm') where
    -- The state before the write of the directory entry.
    filled : Vmm
    filled =
        close_table l (clear_table l 1024 0 (open_table l (p * 4096) (record s { pmm = pmm' })))

    record Filled : Type 0 where
      frames :
          (f j : ℕ)
          → is_slot l f j ≡ false
          → j < 1024
          → filled.frames f j ≡ (if f == p then 0 else s.frames f j)
      paging : filled.paging ≡ true
      pmm : filled.pmm ≡ pmm'
      at_dir : address (slot l l.dir filled) ≡ d / 4096

    filled-Filled : Filled
    unfolding filled
    filled-Filled =
        let s0 : Vmm = record s { pmm = pmm' } in
        let s1 : Vmm = open_table l (p * 4096) s0 in
        let s2 : Vmm = clear_table l 1024 0 s1 in
        let apart : p ≢ l.base_table / 4096 =
          λ e. ground (arith, fresh.was_free, ready.space.base_taken) in
        let o = slot-point_table l ok (p * 4096) s0 (omega arith) in
        let at : address (slot l l.table s1) ≡ p = o.0 ∙ omega arith in
        let c = clear_table-frames 1024 0 s1 (o.2.paging ∙ ready.space.paging) at apart in
        let z = slot-point_table l ok l.table s2 ok.table_page in
        let kept : slot l l.dir s2 ≡ slot l l.dir s1 =
          ground (arith, c.frames (l.base_table / 4096) (pid_of l.dir)) in
        record {
          frames = λ f j h lt. ground (arith, z.2.frames f j h, c.frames f j, o.2.frames f j h);
          paging = z.2.paging ∙ c.paging ∙ o.2.paging ∙ ready.space.paging;
          pmm = z.2.pmm ∙ c.pmm ∙ o.2.pmm;
          at_dir = ap (λ (n : ℕ). n / 4096) (z.1 ∙ kept ∙ o.1) ∙ ready.at_dir;
        }

    entered-Grown : Grown d i p s (write_window l l.dir i (bit_or (p * 4096) 7) filled)
    unfolding write_entry
    entered-Grown =
        let f = filled-Filled in
        let here = seen-eq l ok l.dir filled f.paging f.at_dir in
        record {
          frames = λ g j h lt. ground (
            arith,
            f.frames g j h lt,
            here,
            bit_or-flags (p * 4096) 7 (omega arith) (omega arith),
          );
          paging = f.paging;
          fresh = rw f.pmm fresh;
          at_dir = ground (arith, here, f.at_dir, ready.space.dir_apart);
        }

  pub ensure_table-Grown :
      (d : ℕ) (o : TableOff) (s : Vmm)
      → Ready l d s
      → 0 < room s
      → is_present (entry s.frames d o.tid) ≡ false
      → (p : ℕ) × (t : Vmm) × (ensure_table l o s ≡ some t) × Grown d o.tid p s t
  unfolding ensure_table filled
  ensure_table-Grown d o s ready left gone =
      let (p, pmm', got, fresh) = alloc_page s.pmm ready.space.pmm left in
      (
        p,
        write_window l l.dir o.tid (bit_or (p * 4096) 7) (filled d o.tid p s pmm' ready fresh),
        rw (seen-frames l ok l.dir o.tid s ready.space.paging ready.at_dir, gone, got),
        entered-Grown d o.tid p s pmm' ready fresh,
      )
