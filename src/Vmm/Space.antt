-- ===== src/Vmm/Space.antt =====
-- An address space that the code works on: its directory is in the window, its tables are frames of
-- their own, and none of these frames is free in the physical memory manager.
use just_kernel.Base.{
  ℕ, ◌/◌, ◌%◌, ◌≤◌, ◌<◌, ◌≡◌, ◌∙◌, ◌≢◌, true, false, arith, Bool-cases, inl, inr,
}
use just_kernel.Pmm.{bitmap_max_page}
use just_kernel.Pmm.Bits.{is_free}
use just_kernel.Pmm.Ranges.{count_free}
use just_kernel.Pmm.Alloc.{WellFormed}
use just_kernel.Vmm.{Layout, Vmm, Frames, slot, is_present, address}
use just_kernel.Vmm.Windows.{Same}
use just_kernel.Vmm.Walk.{translate}

-- The free frames that `pmm_alloc` can still hand out.
abbrev pub room : Vmm → ℕ
room s = count_free bitmap_max_page s.pmm.bitmap

-- The entry of directory `d` at index `t`.
abbrev pub entry : Frames → (d t : ℕ) → ℕ
entry m d t = m (d / 4096) t

-- Everything but where the windows point. Entry 0, the first 4 MiB, may be `_base_table` itself;
-- every other table is apart from it, from the directory and from the other tables.
pub record IsSpace (l : Layout) (d : ℕ) (s : Vmm) : Type 0 where
  pub paging : s.paging ≡ true
  pub aligned : d % 4096 ≡ 0
  pub dir_apart : d / 4096 ≢ l.base_table / 4096
  pub pmm : WellFormed s.pmm
  pub dir_taken : is_free s.pmm.bitmap (d / 4096) ≡ false
  pub base_taken : is_free s.pmm.bitmap (l.base_table / 4096) ≡ false
  pub taken :
      (t : ℕ)
      → t < 1024
      → is_present (entry s.frames d t) ≡ true
      → is_free s.pmm.bitmap (entry s.frames d t / 4096) ≡ false
  pub tables :
      (t : ℕ)
      → 0 < t
      → t < 1024
      → is_present (entry s.frames d t) ≡ true
      → (entry s.frames d t / 4096 ≢ l.base_table / 4096) × (entry s.frames d t / 4096 ≢ d / 4096)
  pub distinct :
      (t u : ℕ)
      → 0 < t
      → t < 1024
      → u < 1024
      → t ≢ u
      → is_present (entry s.frames d t) ≡ true
      → is_present (entry s.frames d u) ≡ true
      → entry s.frames d t / 4096 ≢ entry s.frames d u / 4096

-- The address space is in the window of `open_dir`.
pub record Ready (l : Layout) (d : ℕ) (s : Vmm) : Type 0 where
  pub space : IsSpace l d s
  pub at_dir : address (slot l l.dir s) ≡ d / 4096

-- Two memories that agree on the entry and, if it is present, on the page's entry.
pub translate-cong :
    (m m' : Frames) (d v : ℕ)
    → m' (d / 4096) (v / 4194304 % 1024) ≡ m (d / 4096) (v / 4194304 % 1024)
    → (is_present (m (d / 4096) (v / 4194304 % 1024)) ≡ true
        → m' (m (d / 4096) (v / 4194304 % 1024) / 4096) (v / 4096 % 1024)
          ≡ m (m (d / 4096) (v / 4194304 % 1024) / 4096) (v / 4096 % 1024))
    → translate m' d v ≡ translate m d v
unfolding translate
translate-cong m m' d v e h = elim (Bool-cases (is_present (m (d / 4096) (v / 4194304 % 1024)))) [
  | inl here ↦ rw (e, here, h here)
  | inr gone ↦ rw (e, gone)
]

module _ (l : Layout) (d : ℕ) {s t : Vmm} (space : IsSpace l d s) (same : Same l s t) where
  pub entry_same : (u : ℕ) → entry t.frames d u ≡ entry s.frames d u
  entry_same u = same.frames (d / 4096) u (ground (arith, space.dir_apart))

  pub IsSpace-Same : IsSpace l d t
  IsSpace-Same = record {
    paging = same.paging ∙ space.paging;
    aligned = space.aligned;
    dir_apart = space.dir_apart;
    pmm = rw same.pmm space.pmm;
    dir_taken = rw same.pmm space.dir_taken;
    base_taken = rw same.pmm space.base_taken;
    taken = λ u h p. rw (same.pmm, entry_same u) (space.taken u h (rw (entry_same u) at p));
    tables = λ u h h' p. rw (entry_same u) (space.tables u h h' (rw (entry_same u) at p));
    distinct = λ u w h h' h'' ne p q.
        rw (entry_same u, entry_same w)
          (space.distinct u w h h' h'' ne (rw (entry_same u) at p) (rw (entry_same w) at q));
  }

  -- Moving the windows changes no translation from 4 MiB on.
  pub translate-Same :
      (v : ℕ) → 4194304 ≤ v → v < 4294967296 → translate t.frames d v ≡ translate s.frames d v
  translate-Same v lo hi =
      translate-cong s.frames t.frames d v (entry_same (v / 4194304 % 1024)) λ here.
        same.frames (entry s.frames d (v / 4194304 % 1024) / 4096) (v / 4096 % 1024)
          (ground (arith, space.tables (v / 4194304 % 1024)))
