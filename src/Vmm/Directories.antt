-- ===== src/Vmm/Directories.antt =====
-- The rest of src/mm/vmm.c: the current directory, ranges, and the life of a directory.
use just_kernel.Base.{
  ℕ, zero, suc, ◌+◌, ◌-◌, ◌*◌, ◌/◌, Bool, true, false, not, ◌&&◌, ◌||◌, Option, none, some, ◌==◌,
  if◌then◌else◌, bit_or, u32, sub32, page_size,
}
use just_kernel.Pmm.{pmm_alloc, pmm_unalloc}
use just_kernel.Vmm.{
  Layout, Vmm, TableOff, open_dir, open_table, close_dir, close_table, is_present, address,
  write_window, write_entry, is_mapped, page_of, traverse_dir_entry, traverse_table,
  traverse_table_entry, traverse_page, vmm_map_pages, vmm_remap_pages, vmm_unmap_pages,
  virt_to_phys,
}

-- The old directory, or 0 (`NULL`) when there is nothing to replace.
unfoldable pub vmm_replace_cr3 : ℕ → Vmm → ℕ × Vmm
vmm_replace_cr3 new s =
    if new == 0 then (0, s) else if s.cr3 == new then (0, s) else (s.cr3, record s { cr3 = new })

unfoldable pub vmm_set_cr3 : ℕ → Vmm → Vmm
vmm_set_cr3 new s = record s { cr3 = new }

unfoldable pub vmm_enable_paging : Vmm → Vmm
vmm_enable_paging s = record s { paging = true }

module _ (l : Layout) where
  unfoldable pub vmm_map : (phys virt count perms : ℕ) → Vmm → Option (ℕ × Vmm)
  vmm_map phys virt count perms s = vmm_map_pages l phys virt s.cr3 count perms s

  unfoldable pub vmm_remap : (phys virt count perms : ℕ) → Vmm → Option (ℕ × Vmm)
  vmm_remap phys virt count perms s = vmm_remap_pages l phys virt s.cr3 count perms s

  unfoldable pub vmm_unmap : (virt count : ℕ) → Vmm → Option (ℕ × Vmm)
  vmm_unmap virt count s = vmm_unmap_pages l virt s.cr3 count s

  unfoldable pub vmm_virt_to_phys : ℕ → Vmm → ℕ × Vmm
  vmm_virt_to_phys virt s = virt_to_phys l virt s.cr3 s

  -- The loop of `range_mapped` over the pages left.
  unfoldable pub range_loop : ℕ → ℕ → Vmm → Bool × Vmm
  range_loop zero addr s = (true, s)
  range_loop (suc n) addr s =
      let rest = range_loop n (u32 (addr + page_size)) (is_mapped l addr s.cr3 s).1 in
      if (is_mapped l addr s.cr3 s).0 then rest else (false, (is_mapped l addr s.cr3 s).1)

  unfoldable pub range_mapped : (addr size : ℕ) → Vmm → Bool × Vmm
  range_mapped addr size s =
      let cur = page_of addr in
      let rounded = sub32 (page_of (u32 (addr + size))) cur in
      range_loop (u32 (rounded + (page_size - 1)) / page_size) cur s

  -- `memset` of the window of `_dir`, an entry at a time, and the copy of the present entries of
  -- the kernel's directory, which the code reads in place.
  unfoldable pub clear_dir : ℕ → ℕ → Vmm → Vmm
  clear_dir zero i s = s
  clear_dir (suc n) i s = clear_dir n (i + 1) (write_window l l.dir i 0 s)

  unfoldable pub copy_kernel : ℕ → ℕ → Vmm → Vmm
  copy_kernel zero i s = s
  copy_kernel (suc n) i s =
      let raw = s.frames (s.base_kernel_cr3 / 4096) i in
      copy_kernel n (i + 1) (if is_present raw then write_window l l.dir i raw s else s)

  -- The address of the new directory; interrupts are off from the first line to the last.
  unfoldable pub vmm_fork_kernel_space : Vmm → Option (ℕ × Vmm)
  vmm_fork_kernel_space s = elim (pmm_alloc page_size s.pmm) [
    | none ↦ none
    | some (new_dir, pmm') ↦
        let s1 = open_dir l new_dir (record s { pmm = pmm' }) in
        some (new_dir, close_dir l (copy_kernel 1024 0 (clear_dir 1024 0 s1)))
  ]

  -- The inner loop of `vmm_free_cr3` from table index `pid`, over the entries left: a present entry
  -- that differs from the kernel's gives its page back. `none` is the halt of `pmm_unalloc`.
  unfoldable pub free_pages : ℕ → (tid pid table_base : ℕ) → Vmm → Option Vmm
  free_pages zero tid pid table_base s = some s
  free_pages (suc n) tid pid table_base s =
      let offset : TableOff = record { tid = tid; pid = pid; off = 0 } in
      let raw = traverse_table_entry l offset s in
      let skip = free_pages n tid (pid + 1) table_base s in
      if is_present raw && not (raw == s.frames (table_base / 4096) pid)
      then elim (pmm_unalloc (traverse_page l offset s) page_size s.pmm) [
        | none ↦ none
        | some pmm' ↦ free_pages n tid (pid + 1) table_base (record s { pmm = pmm' })
      ]
      else skip

  -- The outer loop. `pid` is set to 0 once, before it: the inner loop leaves it at 1024, so a later
  -- table is opened and none of its entries is visited.
  unfoldable pub free_tables : ℕ → (tid pid : ℕ) → Vmm → Option Vmm
  free_tables zero tid pid s = some s
  free_tables (suc n) tid pid s =
      let offset : TableOff = record { tid = tid; pid = pid; off = 0 } in
      let raw = traverse_dir_entry l offset s in
      let raw_base = s.frames (s.base_kernel_cr3 / 4096) tid in
      let skip = free_tables n (tid + 1) pid s in
      if is_present raw && not (raw == raw_base)
      then elim (free_pages (1024 - pid) tid pid (address raw_base * 4096)
          (open_table l (traverse_table l offset s) s)) [
            | none ↦ none
            | some s1 ↦ free_tables n (tid + 1) 1024 s1
          ]
      else skip

  unfoldable pub vmm_free_cr3 : ℕ → Vmm → Option Vmm
  vmm_free_cr3 table0 s =
      if (table0 == 0) || (table0 == s.base_kernel_cr3)
      then some s
      else elim (free_tables 1024 0 0 (open_dir l table0 s)) [
        | none ↦ none
        | some s1 ↦
            let s2 = close_dir l (close_table l s1) in
            elim (pmm_unalloc table0 page_size s2.pmm) [
              | none ↦ none
              | some pmm' ↦ some (record s2 { pmm = pmm' })
            ]
      ]

  -- `vmm_memory_setup`: the loops that fill the kernel's directory and the identity map of the first
  -- 4 MiB.
  unfoldable pub fill_base_dir : ℕ → ℕ → Vmm → Vmm
  fill_base_dir zero i s = s
  fill_base_dir (suc n) i s =
      fill_base_dir n (i + 1) (record s { frames = write_entry s.frames (l.base_dir / 4096) i 6 })

  unfoldable pub fill_base_table : ℕ → ℕ → Vmm → Vmm
  fill_base_table zero i s = s
  fill_base_table (suc n) i s = fill_base_table n (i + 1) (record s {
    frames = write_entry s.frames (l.base_table / 4096) i (bit_or (i * page_size) 7);
  })

  unfoldable pub vmm_memory_setup : (kernel_start kernel_end : ℕ) → Vmm → Option Vmm
  vmm_memory_setup kernel_start kernel_end s =
      let s1 = fill_base_table 1024 0 (fill_base_dir 1024 0 s) in
      let s2 : Vmm = record s1 {
        frames = write_entry s1.frames (l.base_dir / 4096) 0 (bit_or l.base_table 7);
        base_kernel_cr3 = l.base_dir;
      } in
      let count = page_of (u32 (sub32 kernel_end kernel_start + (page_size - 1))) / page_size in
      elim (vmm_map_pages l kernel_start kernel_start l.base_dir count 7 s2) [
        | none ↦ none
        | some (_, s3) ↦ some (vmm_enable_paging (vmm_set_cr3 l.base_dir s3))
      ]
