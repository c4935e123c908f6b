-- ===== src/Vmm.antt =====
-- The virtual memory manager, src/mm/vmm.c: two-level page tables in physical memory, edited
-- through two windows, the pages of `_dir` and `_table`, that `_base_table` maps to the frame that
-- is wanted.
pub mod Offsets
pub mod Windows
pub mod Walk
pub mod Space
pub mod Grow
pub mod Tables
pub mod Enter
pub mod Map
pub mod MapPages
pub mod MapStuck
pub mod Directories
mod Tests
use just_kernel.Base.{
  ℕ, zero, suc, ◌+◌, ◌-◌, ◌*◌, ◌/◌, ◌%◌, ◌^◌, ◌≤◌, ◌<◌, ◌≡◌, Bool, true, false, not, ◌&&◌, ◌||◌,
  Option, none, some, List, [], ◌∷◌, ltb, leb, ◌==◌, if◌then◌else◌, u32, u16, sub32, page_size,
  bit_and, bit_or, bit_xor,
}
use just_kernel.Pmm.{Pmm, pmm_alloc, pmm_unalloc}

-- The raw 32-bit entries of a page directory or table, and the memory that holds them: by number
-- of page frame.
abbrev pub Table : Type 0
Table = ℕ → ℕ

abbrev pub Frames : Type 0
Frames = ℕ → Table

-- The addresses that the linker gives to the four static tables. All lie in the first 4 MiB.
pub record Layout : Type 0 where
  pub base_dir : ℕ
  pub base_table : ℕ
  pub dir : ℕ
  pub table : ℕ

-- `paging` is bit 31 of CR0: without it addresses are physical, and the windows show their own
-- frames.
pub record Vmm : Type 0 where
  pub frames : Frames
  pub paging : Bool
  pub cr3 : ℕ
  pub base_kernel_cr3 : ℕ
  pub pmm : Pmm

-- `vmm_table_off_t`
pub record TableOff : Type 0 where
  pub tid : ℕ
  pub pid : ℕ
  pub off : ℕ

unfoldable pub vmm_virt_to_offs : ℕ → TableOff
vmm_virt_to_offs addr = record {
  tid = bit_and (addr / 2 ^ 22) 0x3ff;
  pid = bit_and (addr / 2 ^ 12) 0x3ff;
  off = bit_and addr 0xfff;
}

unfoldable pub vmm_offs_to_virt : TableOff → ℕ
vmm_offs_to_virt offs =
    bit_or
      (bit_or (bit_or 0 (bit_and (u32 (offs.tid * 2 ^ 22)) 0xffc00000))
        (bit_and (u32 (offs.pid * 2 ^ 12)) 0x003ff000))
      (bit_and offs.off 0x00000fff)

-- `VMM_PRESENT | VMM_WRITE | VMM_USER`
abbrev pub kernel_perms : ℕ
kernel_perms = 7

-- The fields of `vmm_entry_t`: `present` is bit 0, `address` the upper 20 bits.
abbrev pub is_present : ℕ → Bool
is_present raw = raw % 2 == 1

abbrev pub address : ℕ → ℕ
address raw = raw / 4096

pub write_entry : Frames → (frame index raw : ℕ) → Frames
write_entry m frame index raw f i = if (f == frame) && (i == index) then raw else m f i

unfoldable pub pid_of : ℕ → ℕ
pid_of addr = addr / 4096 % 1024

-- `(void*)0xFFFFFFFF`
abbrev pub no_page : ℕ
no_page = 0xffffffff

-- `addr & VMM_4K_PERM_MASK`
abbrev pub page_of : ℕ → ℕ
page_of addr = bit_and addr 0xfffff000

module _ (l : Layout) where
  -- The entry of `_base_table` behind the window at `addr`.
  abbrev pub slot : ℕ → Vmm → ℕ
  slot addr s = s.frames (l.base_table / 4096) (pid_of addr)

  -- The frame that an access to the window at `addr` reaches.
  abbrev pub seen : ℕ → Vmm → ℕ
  seen addr s = if s.paging then address (slot addr s) else addr / 4096

  abbrev pub read_window : ℕ → ℕ → Vmm → ℕ
  read_window addr i s = s.frames (seen addr s) i

  abbrev pub write_window : ℕ → ℕ → ℕ → Vmm → Vmm
  write_window addr i raw s = record s { frames = write_entry s.frames (seen addr s) i raw }

  -- The common body of `open_dir`, `open_table`, `close_dir` and `close_table`: point the window at
  -- a frame, unless it is there already.
  unfoldable pub point_window : ℕ → ℕ → Vmm → Vmm
  unfolding write_entry
  point_window addr target s = if address (slot addr s) == target / 4096 then s else record s {
    frames = write_entry s.frames (l.base_table / 4096) (pid_of addr) (bit_or target kernel_perms);
  }

  abbrev pub open_dir : ℕ → Vmm → Vmm
  open_dir page_dir s = point_window l.dir page_dir s

  abbrev pub open_table : ℕ → Vmm → Vmm
  open_table page_table s = point_window l.table page_table s

  abbrev pub close_dir : Vmm → Vmm
  close_dir s = point_window l.dir l.dir s

  abbrev pub close_table : Vmm → Vmm
  close_table s = point_window l.table l.table s

  abbrev pub traverse_dir_entry : TableOff → Vmm → ℕ
  traverse_dir_entry offset s = read_window l.dir offset.tid s

  abbrev pub traverse_table : TableOff → Vmm → ℕ
  traverse_table offset s = address (traverse_dir_entry offset s) * 4096

  abbrev pub traverse_table_entry : TableOff → Vmm → ℕ
  traverse_table_entry offset s = read_window l.table offset.pid s

  abbrev pub traverse_page : TableOff → Vmm → ℕ
  traverse_page offset s = address (traverse_table_entry offset s) * 4096

  -- The physical address, or `no_page`, and the state with both windows closed.
  unfoldable pub virt_to_phys : ℕ → ℕ → Vmm → ℕ × Vmm
  virt_to_phys virt page_dir s =
      let offset = vmm_virt_to_offs virt in
      let s1 = open_dir page_dir s in
      let s2 = open_table (traverse_table offset s1) s1 in
      if is_present (traverse_dir_entry offset s1)
      then (
        (if is_present (traverse_table_entry offset s2)
            then traverse_page offset s2 + offset.off
            else no_page),
        close_dir (close_table s2),
      )
      else (no_page, close_dir (close_table s1))

  -- `for (i = 0; i < 1024; i++) _table.entries[i].raw = 0;`
  unfoldable pub clear_table : ℕ → ℕ → Vmm → Vmm
  clear_table zero i s = s
  clear_table (suc n) i s = clear_table n (i + 1) (write_window l.table i 0 s)

  -- `none` is the halt of `pmm_alloc`.
  unfoldable pub ensure_table : TableOff → Vmm → Option Vmm
  ensure_table offset s =
      if is_present (traverse_dir_entry offset s)
      then some s
      else elim (pmm_alloc page_size s.pmm) [
        | none ↦ none
        | some (new_table, pmm') ↦
            let s1 = open_table new_table (record s { pmm = pmm' }) in
            let s2 = close_table (clear_table 1024 0 s1) in
            some (write_window l.dir offset.tid (bit_or new_table kernel_perms) s2)
      ]

  unfoldable pub is_mapped : ℕ → ℕ → Vmm → Bool × Vmm
  is_mapped addr page_dir s = if s.base_kernel_cr3 == 0 then (false, s) else (
    (if (virt_to_phys addr page_dir s).0 == no_page then false else true),
    (virt_to_phys addr page_dir s).1,
  )

  -- What the loops of `vmm_map_pages`, `vmm_remap_pages` and `vmm_unmap_pages` do first in a round:
  -- the table of the page is there, and in the window.
  unfoldable pub enter_page : TableOff → Vmm → Option Vmm
  enter_page offset s = elim (ensure_table offset s) [
    | none ↦ none
    | some s1 ↦ some (open_table (traverse_table offset s1) s1)
  ]

  -- A page that is mapped already sets `ret` and is met again in the next round.
  unfoldable pub map_loop : ℕ → (phys virt perms ret : ℕ) → Vmm → Option (ℕ × Vmm)
  map_loop zero phys virt perms ret s = some (ret, s)
  map_loop (suc n) phys virt perms ret s =
      let offset = vmm_virt_to_offs virt in
      elim (enter_page offset s) [
        | none ↦ none
        | some s1 ↦ elim (is_present (traverse_table_entry offset s1)) [
          | true ↦ map_loop n phys virt perms 1 s1
          | false ↦
              map_loop n (u32 (phys + page_size)) (u32 (virt + page_size)) perms ret
                (write_window l.table offset.pid (bit_or phys perms) s1)
        ]
      ]

  unfoldable pub remap_loop : ℕ → (phys virt perms : ℕ) → Vmm → Option Vmm
  remap_loop zero phys virt perms s = some s
  remap_loop (suc n) phys virt perms s =
      let offset = vmm_virt_to_offs virt in
      elim (enter_page offset s) [
        | none ↦ none
        | some s1 ↦
            remap_loop n (u32 (phys + page_size)) (u32 (virt + page_size)) perms
              (write_window l.table offset.pid (bit_or phys perms) s1)
      ]

  unfoldable pub unmap_loop : ℕ → (virt ret : ℕ) → Vmm → Option (ℕ × Vmm)
  unmap_loop zero virt ret s = some (ret, s)
  unmap_loop (suc n) virt ret s =
      let offset = vmm_virt_to_offs virt in
      elim (enter_page offset s) [
        | none ↦ none
        | some s1 ↦ elim (is_present (traverse_table_entry offset s1)) [
          | true ↦ unmap_loop n (u32 (virt + page_size)) ret (write_window l.table offset.pid 0 s1)
          | false ↦ unmap_loop n (u32 (virt + page_size)) 1 s1
        ]
      ]

  unfoldable pub vmm_map_pages : (phys virt page_dir count perms : ℕ) → Vmm → Option (ℕ × Vmm)
  vmm_map_pages phys virt page_dir count perms s =
      elim (map_loop count (page_of phys) (page_of virt) perms 0 (open_dir page_dir s)) [
        | none ↦ none
        | some (ret, s1) ↦ some (ret, close_dir (close_table s1))
      ]

  unfoldable pub vmm_remap_pages : (phys virt page_dir count perms : ℕ) → Vmm → Option (ℕ × Vmm)
  vmm_remap_pages phys virt page_dir count perms s =
      elim (remap_loop count (page_of phys) (page_of virt) perms (open_dir page_dir s)) [
        | none ↦ none
        | some s1 ↦ some (0, close_dir (close_table s1))
      ]

  unfoldable pub vmm_unmap_pages : (virt page_dir count : ℕ) → Vmm → Option (ℕ × Vmm)
  vmm_unmap_pages virt page_dir count s =
      elim (unmap_loop count (page_of virt) 0 (open_dir page_dir s)) [
        | none ↦ none
        | some (ret, s1) ↦ some (ret, close_dir (close_table s1))
      ]
