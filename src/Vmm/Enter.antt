-- ===== src/Vmm/Enter.antt =====
-- The first part of a round of the mapping loops: afterwards the page's table is there and in the
-- window, the address space is still in order, and no translation has changed.
use just_kernel.Base.{
  ℕ, ◌+◌, ◌*◌, ◌/◌, ◌%◌, ◌≤◌, ◌<◌, ◌≡◌, refl, ap, ◌∙◌, true, false, some, ◌==◌, if◌then◌else◌,
  arith, Bool-cases, inl, inr,
}
use just_kernel.Vmm.{
  Layout, Vmm, TableOff, slot, open_table, ensure_table, enter_page, is_present, address,
}
use just_kernel.Vmm.Windows.{IsLayout, slot-point_table}
use just_kernel.Vmm.Walk.{translate, seen-frames}
use just_kernel.Vmm.Space.{
  IsSpace, Ready, room, entry, translate-cong, IsSpace-Same, translate-Same,
}
use just_kernel.Vmm.Grow.{Grown, ensure_table-Grown}

module _ (l : Layout) (ok : IsLayout l) (d : ℕ) where
  -- No translation from 4 MiB on has changed.
  abbrev pub Keeps : (s t : Vmm) → Type 0
  Keeps s t =
      (v : ℕ) → 4194304 ≤ v → v < 4294967296 → translate t.frames d v ≡ translate s.frames d v

  -- A table that the directory has is still there.
  abbrev pub Stays : (s t : Vmm) → Type 0
  Stays s t =
      (u : ℕ)
      → u < 1024
      → is_present (entry s.frames d u) ≡ true
      → is_present (entry t.frames d u) ≡ true

  module _ {i p : ℕ} {s t : Vmm} (ready : Ready l d s) (g : Grown l ok d i p s t) (pos : 0 < i)
      (lt : i < 1024) (gone : is_present (entry s.frames d i) ≡ false) where
    open ready.space use {dir_apart, dir_taken, base_taken, taken, tables, distinct}
    open g.fresh use {was_free, now, within}

    -- The entries of the directory afterwards.
    grown_entry :
        (u : ℕ)
        → u < 1024
        → entry t.frames d u ≡ (if u == i then p * 4096 + 7 else entry s.frames d u)
    grown_entry u h = ground (arith, g.frames (d / 4096) u, was_free, dir_taken, dir_apart)

    Grown-IsSpace : IsSpace l d t
    Grown-IsSpace = record {
      paging = g.paging;
      aligned = ready.space.aligned;
      dir_apart = dir_apart;
      pmm = g.fresh.ok;
      dir_taken = ground (arith, now (d / 4096), dir_taken);
      base_taken = ground (arith, now (l.base_table / 4096), base_taken);
      taken =
          λ u h here. ground (arith, grown_entry u h, now (entry t.frames d u / 4096), taken u h);
      tables = λ u h h' here.
          ground (arith, grown_entry u h', tables u h h', was_free, dir_taken, base_taken);
      distinct = λ u w h h' h'' ne here here'. ground (
        arith,
        grown_entry u h',
        grown_entry w h'',
        distinct u w h h' h'' ne,
        taken u h',
        taken w h'',
        was_free,
      );
    }

    Grown-Stays : Stays s t
    Grown-Stays u h here = ground (arith, grown_entry u h, here)

    -- A table that was there is still the same.
    grown_table :
        (u j : ℕ)
        → 0 < u
        → u < 1024
        → j < 1024
        → is_present (entry s.frames d u) ≡ true
        → t.frames (entry s.frames d u / 4096) j ≡ s.frames (entry s.frames d u / 4096) j
    grown_table u j h h' lt' here = ground (
      arith,
      g.frames (entry s.frames d u / 4096) j,
      tables u h h' here,
      taken u h' here,
      was_free,
    )

    Grown-Keeps : Keeps s t
    unfolding translate
    Grown-Keeps v lo hi = elim (Bool-cases (v / 4194304 % 1024 == i)) [
      | inl mine ↦
          let e : v / 4194304 % 1024 ≡ i = ground arith in
          let old : is_present (entry s.frames d (v / 4194304 % 1024)) ≡ false = rw e gone in
          let new : entry t.frames d (v / 4194304 % 1024) ≡ p * 4096 + 7 =
            rw e (ground (arith, grown_entry i lt)) in
          let frame : (p * 4096 + 7) / 4096 ≡ p = omega arith in
          let blank : t.frames p (v / 4096 % 1024) ≡ 0 =
            ground (arith, g.frames p (v / 4096 % 1024), was_free, dir_taken, base_taken) in
          rw (old, new, frame, blank) (ground arith)
      | inr other ↦
          translate-cong s.frames t.frames d v
            (ground (arith, grown_entry (v / 4194304 % 1024) (omega arith)))
            (grown_table (v / 4194304 % 1024) (v / 4096 % 1024) (omega arith) (omega arith)
              (omega arith))
    ]

  -- What `enter_page` leaves behind.
  pub record Entered (i : ℕ) (s t : Vmm) : Type 0 where
    pub ready : Ready l d t
    pub here : is_present (entry t.frames d i) ≡ true
    pub at_table : address (slot l l.table t) ≡ entry t.frames d i / 4096
    pub keeps : Keeps s t
    pub stays : Stays s t
    pub room : room s ≤ room t + (if is_present (entry s.frames d i) then 0 else 1)

  -- A table that is present is put into the window.
  open_Entered :
      (i : ℕ) (s t : Vmm)
      → Ready l d t
      → Keeps s t
      → Stays s t
      → room s ≤ room t + (if is_present (entry s.frames d i) then 0 else 1)
      → is_present (entry t.frames d i) ≡ true
      → i < 1024
      → Entered i s (open_table l (entry t.frames d i / 4096 * 4096) t)
  open_Entered i s t ready keeps stays left here lt =
      let o = slot-point_table l ok (entry t.frames d i / 4096 * 4096) t (omega arith) in
      let kept = o.2.frames (d / 4096) i (ground (arith, ready.space.dir_apart)) in
      record {
        ready = record {
          space = IsSpace-Same l d ready.space o.2;
          at_dir = ap (λ (n : ℕ). n / 4096) o.1 ∙ ready.at_dir;
        };
        here = rw kept here;
        at_table = rw kept (o.0 ∙ omega arith);
        keeps = λ v lo hi. translate-Same l d ready.space o.2 v lo hi ∙ keeps v lo hi;
        stays = λ u h was.
            let same = o.2.frames (d / 4096) u (ground (arith, ready.space.dir_apart)) in
            rw same (stays u h was);
        room = rw o.2.pmm left;
      }

  enter_page-eq :
      (o : TableOff) (s t : Vmm)
      → Ready l d t
      → ensure_table l o s ≡ some t
      → enter_page l o s ≡ some (open_table l (entry t.frames d o.tid / 4096 * 4096) t)
  unfolding enter_page
  enter_page-eq o s t ready e =
      rw (e, enter_page) (rw (seen-frames l ok l.dir o.tid t ready.space.paging ready.at_dir))

  ensure_table-here :
      (o : TableOff) (s : Vmm)
      → Ready l d s
      → is_present (entry s.frames d o.tid) ≡ true
      → ensure_table l o s ≡ some s
  unfolding ensure_table
  ensure_table-here o s ready here =
      rw (seen-frames l ok l.dir o.tid s ready.space.paging ready.at_dir, here)

  -- A table that is there already needs no frame.
  pub enter_page-here :
      (o : TableOff) (s : Vmm)
      → Ready l d s
      → o.tid < 1024
      → is_present (entry s.frames d o.tid) ≡ true
      → (t : Vmm) × (enter_page l o s ≡ some t) × Entered o.tid s t
  enter_page-here o s ready lt here = (
    open_table l (entry s.frames d o.tid / 4096 * 4096) s,
    enter_page-eq o s s ready (ensure_table-here o s ready here),
    open_Entered o.tid s s ready (λ v lo hi. refl) (λ u h was. was) (ground arith) here lt,
  )

  -- With a free frame left if the table is missing, `enter_page` succeeds.
  pub enter_page-Entered :
      (o : TableOff) (s : Vmm)
      → Ready l d s
      → 0 < o.tid
      → o.tid < 1024
      → (is_present (entry s.frames d o.tid) ≡ false → 0 < room s)
      → (t : Vmm) × (enter_page l o s ≡ some t) × Entered o.tid s t
  enter_page-Entered o s ready pos lt left =
      elim (Bool-cases (is_present (entry s.frames d o.tid))) [
        | inl here ↦ enter_page-here o s ready lt here
        | inr gone ↦
            let (p, t, e, g) = ensure_table-Grown l ok d o s ready (left gone) gone in
            let ready' : Ready l d t = record {
              space = Grown-IsSpace ready g pos lt gone;
              at_dir = g.at_dir;
            } in
            (
              open_table l (entry t.frames d o.tid / 4096 * 4096) t,
              enter_page-eq o s t ready' e,
              open_Entered o.tid s t ready' (Grown-Keeps ready g pos lt gone)
                  (Grown-Stays ready g pos lt gone) (rw gone (omega (arith, g.fresh.count)))
                  (ground (arith, grown_entry ready g pos lt gone o.tid lt)) lt,
            )
      ]
