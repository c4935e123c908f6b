-- ===== src/Vmm/MapPages.antt =====
-- The loop of `vmm_map_pages`, and the whole function.
use just_kernel.Base.{
  ℕ, zero, suc, ◌+◌, ◌-◌, ◌*◌, ◌/◌, ◌%◌, ◌≤◌, ◌<◌, ◌≡◌, refl, ap, ◌∙◌, inl, inr, true, false,
  Bool-cases, Option, none, some, ◌==◌, if◌then◌else◌, arith, bit_or, u32, page_size,
}
use just_kernel.Pmm.Ranges.{in_range}
use just_kernel.Vmm.{
  Layout, Vmm, open_dir, enter_page, is_present, read_window, write_window, map_loop, vmm_map_pages,
  close_dir, close_table, page_of,
}
use just_kernel.Vmm.Offsets.{offs_of, vmm_virt_to_offs-eq, bit_or-flags, bit_and-page_mask}
use just_kernel.Vmm.Windows.{IsLayout, Same, slot-point_dir}
use just_kernel.Vmm.Walk.{translate, Closed, close_both}
use just_kernel.Vmm.Space.{IsSpace, Ready, room, entry, entry_same, IsSpace-Same, translate-Same}
use just_kernel.Vmm.Tables.{missing, missing-next, missing-first, missing-stays, missing-none}
use just_kernel.Vmm.Enter.{Entered, enter_page-Entered}
use just_kernel.Vmm.Map.{
  Mapped, written, written_entry, written-Ready, written-translate, unmapped_entry,
}

module _ (l : Layout) (ok : IsLayout l) (d : ℕ) where
  -- A request that the loop serves in full: whole pages from 4 MiB on that do not wrap, with the
  -- flags in the low 12 bits and `VMM_PRESENT` among them, none of which is mapped, and a free
  -- frame for each table that is missing.
  pub record IsRequest (phys virt n perms : ℕ) (s : Vmm) : Type 0 where
    pub phys_page : phys % 4096 ≡ 0
    pub virt_page : virt % 4096 ≡ 0
    pub above : 0 < n → 4194304 ≤ virt
    pub virt_fits : virt + n * 4096 ≤ 4294967296
    pub phys_fits : phys + n * 4096 ≤ 4294967296
    pub flags : perms < 4096
    pub present : perms % 2 ≡ 1
    pub unmapped : (v : ℕ) → virt ≤ v → v < virt + n * 4096 → translate s.frames d v ≡ none
    pub enough : missing s.frames d virt n ≤ room s

  module _ (n phys virt perms : ℕ) {s t : Vmm} (r : IsRequest phys virt (suc n) perms s)
      (lo : 4194304 ≤ virt) (hi : virt < 4294967296)
      (e : Entered l ok d (virt / 4194304 % 1024) s t) where
    -- The state after one round.
    abbrev next : Vmm
    next = written l ok d virt (bit_or phys perms) lo hi e

    raw_eq : bit_or phys perms ≡ phys + perms
    raw_eq = bit_or-flags phys perms r.phys_page r.flags

    -- The round maps the first page.
    next-translate :
        (v : ℕ)
        → 4194304 ≤ v
        → v < 4294967296
        → translate next.frames d v
          ≡ (if v / 4096 == virt / 4096 then some (phys + v % 4096) else translate s.frames d v)
    next-translate v lo' hi' =
        let own =
          written-translate l ok d virt (bit_or phys perms) lo hi e v lo' hi'
            (ground (arith, raw_eq, r.present)) in
        ground (arith, own, raw_eq, r.phys_page, r.flags, e.keeps v lo' hi')

    -- A frame is used up only if the table was missing.
    next-enough : missing next.frames d (u32 (virt + page_size)) n ≤ room next
    next-enough =
        let stays : (u : ℕ)
            → u < 1024
            → is_present (entry s.frames d u) ≡ true
            → is_present (entry next.frames d u) ≡ true =
          λ u h was.
            rw (written_entry l ok d virt (bit_or phys perms) lo hi e u) (e.stays u h was) in
        let here : is_present (entry next.frames d (virt / 4194304 % 1024)) ≡ true =
          rw (written_entry l ok d virt (bit_or phys perms) lo hi e (virt / 4194304 % 1024))
            e.here in
        let fewer =
          missing-next s.frames next.frames d virt n (virt / 4194304 % 1024) stays here
            (omega arith) (omega arith) (omega arith) in
        let left : room s
            ≤ room next + (if is_present (entry s.frames d (virt / 4194304 % 1024)) then 0 else 1) =
          e.room in
        elim (Bool-cases (n == 0)) [
          | inl last ↦
              let same : n ≡ 0 = ground arith in
              let zero_left = missing-none next.frames d (u32 (virt + page_size)) in
              rw same (omega (arith, zero_left))
          | inr more ↦
              let fits = r.virt_fits in
              let at : u32 (virt + page_size) ≡ virt + 4096 = ground arith in
              rw at (omega (arith, fewer, left, r.enough))
        ]

    next-IsRequest : IsRequest (u32 (phys + page_size)) (u32 (virt + page_size)) n perms next
    next-IsRequest = record {
      phys_page = omega (arith, r.phys_page);
      virt_page = omega (arith, r.virt_page);
      above = λ h. omega (arith, r.virt_fits);
      virt_fits = omega (arith, r.virt_fits);
      phys_fits = omega (arith, r.phys_fits);
      flags = r.flags;
      present = r.present;
      unmapped = λ v from to. ground (
        arith,
        next-translate v (omega (arith, r.virt_fits)) (omega (arith, r.virt_fits)),
        r.unmapped v (omega (arith, r.virt_fits)) (omega (arith, r.virt_fits)),
        r.virt_fits,
        r.virt_page,
      );
      enough = next-enough;
    }

    next-Mapped :
        (u : Vmm)
        → Mapped l ok d (u32 (phys + page_size)) (u32 (virt + page_size)) n next u
        → Mapped l ok d phys virt (suc n) s u
    next-Mapped u m v lo' hi' =
        ground (arith, m v lo' hi', next-translate v lo' hi', r.virt_fits, r.phys_fits, r.virt_page)

  -- One round of the loop on a page that is not mapped.
  map_loop-step :
      (n phys virt perms ret : ℕ) (s t : Vmm)
      → enter_page l (offs_of virt) s ≡ some t
      → is_present (read_window l l.table (virt / 4096 % 1024) t) ≡ false
      → map_loop l (suc n) phys virt perms ret s
        ≡ map_loop l n
            (u32 (phys + page_size))
            (u32 (virt + page_size))
            perms
            ret
            (write_window l l.table (virt / 4096 % 1024) (bit_or phys perms) t)
  unfolding map_loop
  map_loop-step n phys virt perms ret s t got free =
      rw (vmm_virt_to_offs-eq virt, map_loop)
        (rw (got, map_loop)
          (rw (vmm_virt_to_offs-eq virt) (rw free (rw (vmm_virt_to_offs-eq virt)))))

  map_loop-Mapped :
      (n phys virt perms ret : ℕ) (s : Vmm)
      → Ready l d s
      → IsRequest phys virt n perms s
      → (t : Vmm) × (map_loop l n phys virt perms ret s ≡ some (ret, t))
        × Ready l d t
        × Mapped l ok d phys virt n s t
  unfolding map_loop
  map_loop-Mapped zero phys virt perms ret s ready r = (s, refl, ready, λ v lo hi. ground arith)
  map_loop-Mapped (suc n) phys virt perms ret s ready r =
      let lo = r.above (omega arith) in
      let hi : virt < 4294967296 = omega (arith, r.virt_fits) in
      let (t, got, e) =
        enter_page-Entered l ok d (offs_of virt) s ready (omega arith) (omega arith) (λ gone.
          let one =
            missing-first s.frames d virt n (virt / 4194304 % 1024) gone (omega arith) (omega arith)
              (omega arith) in
          omega (arith, r.enough, one)) in
      let free =
        unmapped_entry l ok d virt (bit_or phys perms) lo hi e
          (e.keeps virt lo hi ∙ r.unmapped virt (omega arith) (omega arith)) in
      let (u, ran, ready', mapped) =
        map_loop-Mapped n (u32 (phys + page_size)) (u32 (virt + page_size)) perms ret
          (next n phys virt perms r lo hi e) (written-Ready l ok d virt (bit_or phys perms) lo hi e)
          (next-IsRequest n phys virt perms r lo hi e) in
      (
        u,
        map_loop-step n phys virt perms ret s t got free ∙ ran,
        ready',
        next-Mapped n phys virt perms r lo hi e u mapped,
      )

  page_of-eq : (a : ℕ) → a < 4294967296 → a % 4096 ≡ 0 → page_of a ≡ a
  page_of-eq a lt page = bit_and-page_mask a lt ∙ omega arith

  -- From the loop to the function, for addresses of whole pages.
  pub map_pages-eq :
      (n phys virt perms ret : ℕ) (s t : Vmm)
      → phys < 4294967296
      → virt < 4294967296
      → phys % 4096 ≡ 0
      → virt % 4096 ≡ 0
      → map_loop l n phys virt perms 0 (open_dir l d s) ≡ some (ret, t)
      → vmm_map_pages l phys virt d n perms s ≡ some (ret, close_dir l (close_table l t))
  unfolding vmm_map_pages
  map_pages-eq n phys virt perms ret s t hp hv pp pv ran =
      rw (page_of-eq phys hp pp, page_of-eq virt hv pv, vmm_map_pages) (rw (ran, vmm_map_pages))

  -- On an address space in order, for a range of whole pages from 4 MiB on that is not mapped yet,
  -- where it and its physical range begin in the 32-bit address space and do not pass its end, with
  -- flags below 4096 that include VMM_PRESENT, and with as many free frames as the directory lacks
  -- tables for the range, vmm_map_pages returns 0, the processor then finds page i of the range at
  -- page i of the physical range, no other address from 4 MiB on is translated differently, the
  -- address space stays in order and the windows are closed.
  pub vmm_map_pages-Mapped :
      (n phys virt perms : ℕ) (s : Vmm)
      → IsSpace l d s
      → IsRequest phys virt n perms s
      → phys < 4294967296
      → virt < 4294967296
      → (t : Vmm) × (vmm_map_pages l phys virt d n perms s ≡ some (0, t))
        × Mapped l ok d phys virt n s t
        × IsSpace l d t
        × Closed l t
  vmm_map_pages-Mapped n phys virt perms s space r phys_lt virt_lt =
      let o = slot-point_dir l ok d s space.aligned in
      let s1 : Vmm = open_dir l d s in
      let ready : Ready l d s1 = record { space = IsSpace-Same l d space o.2; at_dir = o.0 } in
      let (t, ran, ready', mapped) =
        map_loop-Mapped n phys virt perms 0 s1 ready (opened_request s1 o.2) in
      let (closed, same) = close_both l ok t in
      (
        close_dir l (close_table l t),
        map_pages-eq n phys virt perms 0 s t phys_lt virt_lt r.phys_page r.virt_page ran,
        (λ v lo hi.
            translate-Same l d ready'.space same v lo hi
            ∙ mapped v lo hi
            ∙ ap
                (λ (x : Option ℕ).
                  if in_range (virt / 4096) n (v / 4096) then some (phys + (v - virt)) else x)
                (translate-Same l d space o.2 v lo hi)),
        IsSpace-Same l d ready'.space same,
        closed,
      )
    where
      opened_request : (s1 : Vmm) → Same l s s1 → IsRequest phys virt n perms s1
      opened_request s1 same = record {
        phys_page = r.phys_page;
        virt_page = r.virt_page;
        above = r.above;
        virt_fits = r.virt_fits;
        phys_fits = r.phys_fits;
        flags = r.flags;
        present = r.present;
        unmapped = λ v from to.
            translate-Same l d space same v (omega (arith, r.above)) (omega (arith, r.virt_fits))
            ∙ r.unmapped v from to;
        enough =
            let fewer =
              missing-stays s.frames s1.frames d virt n
                (λ u h was. rw (entry_same l d space same u) was) in
            rw same.pmm (omega (arith, fewer, r.enough));
      }
