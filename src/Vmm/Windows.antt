-- ===== src/Vmm/Windows.antt =====
-- The windows on page tables: where they point after they are opened and closed, and what stays.
use just_kernel.Base.{ℕ, ◌/◌, ◌%◌, ◌<◌, ◌≡◌, refl, ◌∙◌, ◌≢◌, Bool, false, ◌&&◌, ◌||◌, ◌==◌, arith}
use just_kernel.Vmm.{Layout, Vmm, pid_of, slot, point_window, address}
use just_kernel.Vmm.Offsets.{bit_or-flags}

-- The linker aligns the tables, puts them into the first 4 MiB, and gives the windows pages of
-- their own.
pub record IsLayout (l : Layout) : Type 0 where
  pub base_table_page : l.base_table % 4096 ≡ 0
  pub dir_page : l.dir % 4096 ≡ 0
  pub table_page : l.table % 4096 ≡ 0
  pub dir_low : l.dir < 4194304
  pub table_low : l.table < 4194304
  pub apart : l.dir ≢ l.table

module _ (l : Layout) where
  -- The entries of `_base_table` behind the two windows.
  abbrev pub is_slot : ℕ → ℕ → Bool
  is_slot frame index =
      (frame == l.base_table / 4096) && ((index == pid_of l.dir) || (index == pid_of l.table))

  -- `t` is `s` but for the entries behind the windows.
  pub record Same (s t : Vmm) : Type 0 where
    pub frames : (f i : ℕ) → is_slot f i ≡ false → t.frames f i ≡ s.frames f i
    pub paging : t.paging ≡ s.paging
    pub pmm : t.pmm ≡ s.pmm
    pub cr3 : t.cr3 ≡ s.cr3
    pub base_kernel_cr3 : t.base_kernel_cr3 ≡ s.base_kernel_cr3

  pub Same-refl : (s : Vmm) → Same s s
  Same-refl s = record {
    frames = λ f i h. refl;
    paging = refl;
    pmm = refl;
    cr3 = refl;
    base_kernel_cr3 = refl;
  }

  pub Same-trans : {s t u : Vmm} → Same s t → Same t u → Same s u
  Same-trans a b = record {
    frames = λ f i h. b.frames f i h ∙ a.frames f i h;
    paging = b.paging ∙ a.paging;
    pmm = b.pmm ∙ a.pmm;
    cr3 = b.cr3 ∙ a.cr3;
    base_kernel_cr3 = b.base_kernel_cr3 ∙ a.base_kernel_cr3;
  }

module _ (l : Layout) (ok : IsLayout l) where
  pid_of-ne : pid_of l.dir ≢ pid_of l.table
  unfolding pid_of
  pid_of-ne = omega (arith, ok.dir_page, ok.table_page, ok.dir_low, ok.table_low, ok.apart)

  pub slot-point_dir :
      (target : ℕ) (s : Vmm)
      → target % 4096 ≡ 0
      → (address (slot l l.dir (point_window l l.dir target s)) ≡ target / 4096)
        × (slot l l.table (point_window l l.dir target s) ≡ slot l l.table s)
        × Same l s (point_window l l.dir target s)
  unfolding point_window
  slot-point_dir target s aligned = (
    ground (arith, bit_or-flags target 7 aligned (omega arith)),
    ground (arith, pid_of-ne),
    record {
      frames = λ f i h. ground arith;
      paging = ground arith;
      pmm = ground arith;
      cr3 = ground arith;
      base_kernel_cr3 = ground arith;
    },
  )

  pub slot-point_table :
      (target : ℕ) (s : Vmm)
      → target % 4096 ≡ 0
      → (address (slot l l.table (point_window l l.table target s)) ≡ target / 4096)
        × (slot l l.dir (point_window l l.table target s) ≡ slot l l.dir s)
        × Same l s (point_window l l.table target s)
  unfolding point_window
  slot-point_table target s aligned = (
    ground (arith, bit_or-flags target 7 aligned (omega arith)),
    ground (arith, pid_of-ne),
    record {
      frames = λ f i h. ground arith;
      paging = ground arith;
      pmm = ground arith;
      cr3 = ground arith;
      base_kernel_cr3 = ground arith;
    },
  )
