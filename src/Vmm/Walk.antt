-- ===== src/Vmm/Walk.antt =====
-- What the processor does with a page directory, and `virt_to_phys` against it.
use just_kernel.Base.{
  ℕ, ◌+◌, ◌*◌, ◌/◌, ◌%◌, ◌≡◌, refl, ap, ◌∙◌, true, false, Option, none, some, if◌then◌else◌, arith,
  Bool-cases, inl, inr,
}
use just_kernel.Vmm.{
  Layout, Vmm, Frames, slot, seen, virt_to_phys, is_present, read_window, address, no_page,
  open_dir, open_table, close_dir, close_table,
}
use just_kernel.Vmm.Offsets.{vmm_virt_to_offs-eq}
use just_kernel.Vmm.Windows.{IsLayout, is_slot, Same, Same-trans, slot-point_dir, slot-point_table}

-- The two-level walk of the processor from the directory at `d`: `none` is a page fault.
unfoldable pub translate : Frames → (d v : ℕ) → Option ℕ
translate m d v =
    let e = m (d / 4096) (v / 4194304 % 1024) in
    let t = m (e / 4096) (v / 4096 % 1024) in
    if is_present e
    then (if is_present t then some (t / 4096 * 4096 + v % 4096) else none)
    else none

-- What the C code returns for it.
abbrev pub or_no_page : Option ℕ → ℕ
or_no_page none = no_page
or_no_page (some p) = p

-- Both windows show their own frames.
pub record Closed (l : Layout) (s : Vmm) : Type 0 where
  pub dir : address (slot l l.dir s) ≡ l.dir / 4096
  pub table : address (slot l l.table s) ≡ l.table / 4096

module _ (l : Layout) (ok : IsLayout l) where
  pub close_both :
      (s : Vmm)
      → Closed l (close_dir l (close_table l s)) × Same l s (close_dir l (close_table l s))
  close_both s =
      let t = slot-point_table l ok l.table s ok.table_page in
      let d = slot-point_dir l ok l.dir (close_table l s) ok.dir_page in
      (record { dir = d.0; table = ap (λ (n : ℕ). n / 4096) d.1 ∙ t.0 }, Same-trans l t.2 d.2)

  -- A window that points at frame `f` shows that frame.
  pub seen-eq :
      (addr : ℕ) (s : Vmm) {f : ℕ}
      → s.paging ≡ true
      → address (slot l addr s) ≡ f
      → seen l addr s ≡ f
  seen-eq addr s paging at = ground arith

  pub seen-frames :
      (addr i : ℕ) (s : Vmm) {f : ℕ}
      → s.paging ≡ true
      → address (slot l addr s) ≡ f
      → read_window l addr i s ≡ s.frames f i
  seen-frames addr i s paging at = ap (λ (k : ℕ). s.frames k i) (seen-eq addr s paging at)

  -- What the windows show once they are open.
  pub read-open_dir :
      (d i : ℕ) (s : Vmm)
      → s.paging ≡ true
      → d % 4096 ≡ 0
      → is_slot l (d / 4096) i ≡ false
      → read_window l l.dir i (open_dir l d s) ≡ s.frames (d / 4096) i
  read-open_dir d i s paging aligned h =
      let p = slot-point_dir l ok d s aligned in
      seen-frames l.dir i (open_dir l d s) (p.2.paging ∙ paging) p.0 ∙ p.2.frames (d / 4096) i h

  pub read-open_table :
      (t i : ℕ) (s : Vmm)
      → s.paging ≡ true
      → t % 4096 ≡ 0
      → is_slot l (t / 4096) i ≡ false
      → read_window l l.table i (open_table l t s) ≡ s.frames (t / 4096) i
  read-open_table t i s paging aligned h =
      let p = slot-point_table l ok t s aligned in
      seen-frames l.table i (open_table l t s) (p.2.paging ∙ paging) p.0 ∙ p.2.frames (t / 4096) i h

  -- With paging on, `virt_to_phys` finds what the processor would find, and leaves both windows
  -- closed and all other entries alone. The entries of the walk must not be those behind the
  -- windows, which it moves.
  pub virt_to_phys-translate :
      (v d : ℕ) (s : Vmm)
      → s.paging ≡ true
      → d % 4096 ≡ 0
      → is_slot l (d / 4096) (v / 4194304 % 1024) ≡ false
      → is_slot l (s.frames (d / 4096) (v / 4194304 % 1024) / 4096) (v / 4096 % 1024) ≡ false
      → ((virt_to_phys l v d s).0 ≡ or_no_page (translate s.frames d v))
        × Closed l (virt_to_phys l v d s).1
        × Same l s (virt_to_phys l v d s).1
  unfolding virt_to_phys translate
  virt_to_phys-translate v d s paging aligned no_slot no_slot' =
      rw (vmm_virt_to_offs-eq v, read-open_dir d tid s paging aligned no_slot)
        (elim (Bool-cases (is_present e)) [
          | inl here ↦
              rw (here, entry)
                (
                  ground arith,
                  (close_both s2).0,
                  Same-trans l opened (Same-trans l turned (close_both s2).1),
                )
          | inr gone ↦ rw gone (refl, (close_both s1).0, Same-trans l opened (close_both s1).1)
        ])
    where
      tid : ℕ
      tid = v / 4194304 % 1024

      e : ℕ
      e = s.frames (d / 4096) tid

      s1 : Vmm
      s1 = open_dir l d s

      s2 : Vmm
      s2 = open_table l (e / 4096 * 4096) s1

      opened : Same l s s1
      opened = (slot-point_dir l ok d s aligned).2

      turned : Same l s1 s2
      turned = (slot-point_table l ok (e / 4096 * 4096) s1 (omega arith)).2

      frame : e / 4096 * 4096 / 4096 ≡ e / 4096
      frame = omega arith

      entry : read_window l l.table (v / 4096 % 1024) s2 ≡ s.frames (e / 4096) (v / 4096 % 1024)
      entry =
          read-open_table (e / 4096 * 4096) (v / 4096 % 1024) s1 (opened.paging ∙ paging)
            (omega arith) (rw frame no_slot')
          ∙ rw frame (opened.frames (e / 4096) (v / 4096 % 1024) no_slot')
