-- ===== src/Vmm/MapStuck.antt =====
-- `vmm_map_pages` on a page that is mapped already: the loop does not move past it.
use just_kernel.Base.{
  ℕ, zero, suc, ◌/◌, ◌%◌, ◌≤◌, ◌<◌, ◌≡◌, refl, ap, ◌∙◌, true, some, ◌==◌, if◌then◌else◌, arith,
}
use just_kernel.Vmm.{
  Layout, Vmm, open_dir, enter_page, is_present, read_window, map_loop, vmm_map_pages, close_dir,
  close_table,
}
use just_kernel.Vmm.Offsets.{offs_of, vmm_virt_to_offs-eq}
use just_kernel.Vmm.Windows.{IsLayout, slot-point_dir}
use just_kernel.Vmm.Walk.{translate, seen-frames, close_both}
use just_kernel.Vmm.Space.{IsSpace, Ready, entry, IsSpace-Same, translate-Same}
use just_kernel.Vmm.Enter.{Keeps, enter_page-here}
use just_kernel.Vmm.MapPages.{map_pages-eq}

mapped_entries :
    (m : ℕ → ℕ → ℕ) (d v : ℕ) {p : ℕ}
    → translate m d v ≡ some p
    → (is_present (entry m d (v / 4194304 % 1024)) ≡ true)
      × (is_present (m (entry m d (v / 4194304 % 1024) / 4096) (v / 4096 % 1024)) ≡ true)
unfolding translate
mapped_entries m d v h = ground arith

module _ (l : Layout) (ok : IsLayout l) (d : ℕ) where
  mapped-step :
      (n phys virt perms ret : ℕ) (s t : Vmm)
      → enter_page l (offs_of virt) s ≡ some t
      → is_present (read_window l l.table (virt / 4096 % 1024) t) ≡ true
      → map_loop l (suc n) phys virt perms ret s ≡ map_loop l n phys virt perms 1 t
  unfolding map_loop
  mapped-step n phys virt perms ret s t got here =
      rw (vmm_virt_to_offs-eq virt, map_loop)
        (rw (got, map_loop) (rw (vmm_virt_to_offs-eq virt) (rw here)))

  mapped-done :
      (phys virt perms ret : ℕ) (s : Vmm) → map_loop l zero phys virt perms ret s ≡ some (ret, s)
  unfolding map_loop
  mapped-done phys virt perms ret s = refl

  map_loop-stuck :
      (n phys virt perms ret : ℕ) (s : Vmm) {p : ℕ}
      → Ready l d s
      → 4194304 ≤ virt
      → virt < 4294967296
      → translate s.frames d virt ≡ some p
      → (t : Vmm) × (map_loop l n phys virt perms ret s ≡ some ((if n == 0 then ret else 1), t))
        × Ready l d t
        × Keeps l ok d s t
  map_loop-stuck zero phys virt perms ret s ready lo hi there =
      (s, mapped-done phys virt perms ret s, ready, λ v a b. refl)
  map_loop-stuck (suc n) phys virt perms ret s {p} ready lo hi there =
      let (dir_there, _) = mapped_entries s.frames d virt there in
      let (t, got, e) = enter_page-here l ok d (offs_of virt) s ready (omega arith) dir_there in
      let there' : translate t.frames d virt ≡ some p = e.keeps virt lo hi ∙ there in
      let here =
        ap is_present
          (seen-frames l ok l.table (virt / 4096 % 1024) t e.ready.space.paging e.at_table)
        ∙ (mapped_entries t.frames d virt there').1 in
      let (u, ran, ready', keeps) = map_loop-stuck n phys virt perms 1 t e.ready lo hi there' in
      (
        u,
        mapped-step n phys virt perms ret s t got here
            ∙ ran
            ∙ ap (λ (r : ℕ). some (r, u)) (ground arith),
        ready',
        λ v a b. keeps v a b ∙ e.keeps v a b,
      )

  -- When the first page of a range of at least one page is mapped already, `vmm_map_pages` returns
  -- 1 and maps nothing at all: every round meets that page again, and the pages behind it, free or
  -- not, are never visited. No address from 4 MiB on is translated differently.
  pub vmm_map_pages-stuck :
      (n phys virt perms : ℕ) (s : Vmm) (p : ℕ)
      → IsSpace l d s
      → 0 < n
      → phys < 4294967296
      → phys % 4096 ≡ 0
      → 4194304 ≤ virt
      → virt < 4294967296
      → virt % 4096 ≡ 0
      → translate s.frames d virt ≡ some p
      → (t : Vmm) × (vmm_map_pages l phys virt d n perms s ≡ some (1, t)) × Keeps l ok d s t
  vmm_map_pages-stuck n phys virt perms s p space pos hp pp lo hi vp there =
      let o = slot-point_dir l ok d s space.aligned in
      let s1 : Vmm = open_dir l d s in
      let ready : Ready l d s1 = record { space = IsSpace-Same l d space o.2; at_dir = o.0 } in
      let (t, ran, ready', keeps) =
        map_loop-stuck n phys virt perms 0 s1 ready lo hi
          (translate-Same l d space o.2 virt lo hi ∙ there) in
      let one : map_loop l n phys virt perms 0 s1 ≡ some (1, t) =
        ran ∙ ap (λ (r : ℕ). some (r, t)) (ground arith) in
      let (closed, same) = close_both l ok t in
      (
        close_dir l (close_table l t),
        map_pages-eq l ok d n phys virt perms 1 s t hp hi pp vp one,
        λ v a b.
            translate-Same l d ready'.space same v a b
            ∙ keeps v a b
            ∙ translate-Same l d space o.2 v a b,
      )
