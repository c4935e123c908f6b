-- ===== src/Vmm/Map.antt =====
-- `vmm_map_pages` on a range that is not mapped yet: what the processor finds afterwards.
use just_kernel.Base.{
  ℕ, ◌+◌, ◌-◌, ◌*◌, ◌/◌, ◌%◌, ◌≤◌, ◌<◌, ◌≡◌, ◌≢◌, true, false, ◌&&◌, none, some, ◌==◌,
  if◌then◌else◌, arith, Bool-cases, inl, inr,
}
use just_kernel.Pmm.Ranges.{in_range}
use just_kernel.Vmm.{Layout, Vmm, pid_of, is_present, read_window, write_window, write_entry}
use just_kernel.Vmm.Windows.{IsLayout}
use just_kernel.Vmm.Walk.{translate, seen-eq, seen-frames}
use just_kernel.Vmm.Space.{Ready, entry, translate-cong}
use just_kernel.Vmm.Enter.{Entered}

module _ (l : Layout) (ok : IsLayout l) (d : ℕ) where
  -- From 4 MiB on, `t` translates the `n` pages at `virt` to those at `phys`, and every other
  -- address as `s` does.
  abbrev pub Mapped : (phys virt n : ℕ) (s t : Vmm) → Type 0
  Mapped phys virt n s t =
      (v : ℕ)
      → 4194304 ≤ v
      → v < 4294967296
      → translate t.frames d v ≡ (
          if in_range (virt / 4096) n (v / 4096)
          then some (phys + (v - virt))
          else translate s.frames d v)

  module _ (w raw : ℕ) {s t : Vmm} (lo : 4194304 ≤ w) (hi : w < 4294967296)
      (e : Entered l ok d (w / 4194304 % 1024) s t) where
    open e.ready.space use {dir_apart, tables, distinct}

    abbrev tid : ℕ
    tid = w / 4194304 % 1024

    abbrev pid : ℕ
    pid = w / 4096 % 1024

    abbrev pub written : Vmm
    written = write_window l l.table pid raw t

    home :
        (entry t.frames d tid / 4096 ≢ l.base_table / 4096)
        × (entry t.frames d tid / 4096 ≢ d / 4096)
    home = tables tid (omega arith) (omega arith) e.here

    written-frames :
        (f j : ℕ)
        → written.frames f j
          ≡ (if (f == entry t.frames d tid / 4096) && (j == pid) then raw else t.frames f j)
    unfolding write_entry
    written-frames f j = rw (seen-eq l ok l.table t e.ready.space.paging e.at_table)

    pub written_entry : (u : ℕ) → entry written.frames d u ≡ entry t.frames d u
    written_entry u = ground (arith, written-frames (d / 4096) u, home)

    pub written-Ready : Ready l d written
    written-Ready = record {
      space = record {
        paging = e.ready.space.paging;
        aligned = e.ready.space.aligned;
        dir_apart = dir_apart;
        pmm = e.ready.space.pmm;
        dir_taken = e.ready.space.dir_taken;
        base_taken = e.ready.space.base_taken;
        taken = λ u h p. rw (written_entry u) (e.ready.space.taken u h (rw (written_entry u) at p));
        tables = λ u h h' p. rw (written_entry u) (tables u h h' (rw (written_entry u) at p));
        distinct = λ u v h h' h'' ne p q.
            rw (written_entry u, written_entry v)
              (distinct u v h h' h'' ne (rw (written_entry u) at p) (rw (written_entry v) at q));
      };
      at_dir =
          ground (arith, written-frames (l.base_table / 4096) (pid_of l.dir), home, e.ready.at_dir);
    }

    written-other :
        (v : ℕ)
        → 4194304 ≤ v
        → v < 4294967296
        → v / 4096 ≢ w / 4096
        → translate written.frames d v ≡ translate t.frames d v
    written-other v lo' hi' ne =
        translate-cong t.frames written.frames d v (written_entry (v / 4194304 % 1024)) λ here.
          ground (
            arith,
            written-frames (entry t.frames d (v / 4194304 % 1024) / 4096) (v / 4096 % 1024),
            distinct (v / 4194304 % 1024) tid (omega arith) (omega arith) (omega arith),
            here,
            e.here,
          )

    written-own :
        (v : ℕ)
        → v / 4096 ≡ w / 4096
        → is_present raw ≡ true
        → translate written.frames d v ≡ some (raw / 4096 * 4096 + v % 4096)
    unfolding translate
    written-own v same on =
        let t_eq : v / 4194304 % 1024 ≡ tid = omega arith in
        let p_eq : v / 4096 % 1024 ≡ pid = omega arith in
        let found : written.frames (entry t.frames d tid / 4096) pid ≡ raw =
          ground (arith, written-frames (entry t.frames d tid / 4096) pid) in
        rw (t_eq, p_eq, written_entry tid, e.here, found, on)

    -- The write changes the translation of its own page alone.
    pub written-translate :
        (v : ℕ)
        → 4194304 ≤ v
        → v < 4294967296
        → is_present raw ≡ true
        → translate written.frames d v ≡ (
            if v / 4096 == w / 4096
            then some (raw / 4096 * 4096 + v % 4096)
            else translate t.frames d v)
    written-translate v lo' hi' on = elim (Bool-cases (v / 4096 == w / 4096)) [
      | inl same ↦ rw same (written-own v (ground arith) on)
      | inr other ↦ rw other (written-other v lo' hi' (ground arith))
    ]

    -- An unmapped page has no entry in the table that was entered.
    pub unmapped_entry :
        translate t.frames d w ≡ none → is_present (read_window l l.table pid t) ≡ false
    unfolding translate
    unmapped_entry none_there =
        rw (seen-frames l ok l.table pid t e.ready.space.paging e.at_table) (ground (arith, e.here))
