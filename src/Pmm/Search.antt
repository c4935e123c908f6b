-- ===== src/Pmm/Search.antt =====
-- The search of `find_free_page`: it finds the first run of free pages among the pages that it
-- visits, provided page 0 is taken.
use just_kernel.Base.{
  ℕ, zero, suc, ◌+◌, ◌-◌, ◌≤◌, ◌<◌, ◌≡◌, refl, ◌≢◌, ◌⊎◌, inl, inr, true, false, Option, none, some,
  ◌==◌, if◌then◌else◌, arith, Bool-cases,
}
use just_kernel.Pmm.{bitmap_max_page, find_loop, find_free_page}
use just_kernel.Pmm.Bits.{is_free}
use just_kernel.Pmm.Ranges.{AllFree}

module _ (bitmap : ℕ → ℕ) (pages : ℕ) where
  -- No run of the wanted length ends at or before page `i`.
  abbrev pub NoRun : ℕ → Type 0
  NoRun i = (p : ℕ) → p + pages ≤ i → ¬ AllFree bitmap p pages

  -- What the search must answer when it has visited the pages below `end`.
  abbrev pub IsAnswer : (end : ℕ) → Option ℕ → Type 0
  IsAnswer end none = NoRun end
  IsAnswer end (some p) =
      (0 < p)
      × (p + pages ≤ end)
      × AllFree bitmap p pages
      × ((p' : ℕ) → p' < p → ¬ AllFree bitmap p' pages)

  -- The locals before the round at `i`: the free run that ends at `i` is as long as `found` and
  -- starts at `first`, and no run so far was long enough.
  record Inv (i found first : ℕ) : Type 0 where
    short : found < pages
    within : found ≤ i
    run : AllFree bitmap (i - found) found
    stopped : (i ≡ found) ⊎ (is_free bitmap (i - found - 1) ≡ false)
    start : (0 < found) → (first ≡ i - found)
    idle : found ≡ 0 → first ≡ 0
    none_before : NoRun i

  module _ (zero_taken : is_free bitmap 0 ≡ false) where
    first_pos : (i found first : ℕ) → Inv i found first → found < suc i → 0 < found → found < i
    first_pos i found first v h h' = ground (arith, v.run 0)

    -- With page `i` free, no run of the wanted length ends at `i + 1` unless `found` says so.
    extend_none : (i found first : ℕ) → Inv i found first → found + 1 < pages → NoRun (i + 1)
    extend_none i found first v long p h all = elim v.stopped [
      | inl e ↦ elim (Bool-cases (p + pages == i + 1)) [
        | inl last ↦ absurd (ground arith)
        | inr old ↦ v.none_before p (ground arith) all
      ]
      | inr e ↦ elim (Bool-cases (p + pages == i + 1)) [
        | inl last ↦ ground (arith, all (i - found - 1))
        | inr old ↦ v.none_before p (ground arith) all
      ]
    ]

    extend_run :
        (i found first : ℕ)
        → Inv i found first
        → is_free bitmap i ≡ true
        → AllFree bitmap (i - found) (found + 1)
    extend_run i found first v free q lo hi = elim (Bool-cases (q == i)) [
      | inl e ↦ ground arith
      | inr e ↦ v.run q lo (ground arith)
    ]

    free_step :
        (i found first : ℕ)
        → Inv i found first
        → is_free bitmap i ≡ true
        → found + 1 ≢ pages
        → Inv (i + 1) (found + 1) (if first == 0 then i else first)
    free_step i found first v free short = record {
      short = omega (arith, v.short);
      within = omega (arith, v.within);
      run = λ q lo hi. extend_run i found first v free q (omega arith) (omega (arith, v.within));
      stopped = ground (arith, v.stopped, v.within);
      start = ground (arith, v.start, v.idle, first_pos i found first v (omega (arith, v.within)));
      idle = ground arith;
      none_before = extend_none i found first v (omega (arith, v.short));
    }

    taken_step :
        (i found first : ℕ) → Inv i found first → is_free bitmap i ≡ false → Inv (i + 1) 0 0
    taken_step i found first v taken = record {
      short = omega (arith, v.short);
      within = omega arith;
      run = λ q lo hi. absurd (omega arith);
      stopped = inr (ground arith);
      start = λ h. absurd (omega arith);
      idle = λ _. refl;
      none_before = λ p h all. elim (Bool-cases (p + pages == i + 1)) [
        | inl last ↦ ground (arith, all i, v.short)
        | inr old ↦ v.none_before p (ground arith) all
      ];
    }

    first_eq :
        (i found first : ℕ) → Inv i found first → (if first == 0 then i else first) ≡ i - found
    first_eq i found first v =
        ground (arith, v.start, v.idle, first_pos i found first v (omega (arith, v.within)))

    found_step :
        (n i found first : ℕ)
        → Inv i found first
        → is_free bitmap i ≡ true
        → found + 1 ≡ pages
        → IsAnswer (i + suc n) (some (if first == 0 then i else first))
    found_step n i found first v free done = rw (first_eq i found first v) (
      ground (arith, first_pos i found first v (omega (arith, v.within)), v.within),
      omega (arith, v.within),
      λ q lo hi. extend_run i found first v free q lo (omega (arith, v.within)),
      λ p' lt. v.none_before p' (omega (arith, v.within)),
    )

    find_loop-IsAnswer :
        (n i found first : ℕ)
        → Inv i found first
        → IsAnswer (i + n) (find_loop n i bitmap pages found first)
    unfolding find_loop
    find_loop-IsAnswer zero i found first v = λ p h. v.none_before p (omega arith)
    find_loop-IsAnswer (suc n) i found first v = elim (Bool-cases (is_free bitmap i)) [
      | inl free ↦ elim (Bool-cases (found + 1 == pages)) [
        | inl done ↦ rw (free, done) (found_step n i found first v free (ground arith))
        | inr more ↦
            rw (free, more)
              (shift n i _ (
                find_loop-IsAnswer n (i + 1) (found + 1) (if first == 0 then i else first)
                  (free_step i found first v free (ground arith))))
      ]
      | inr taken ↦
          rw (taken, zero_ne i found first v)
            (shift n i _ (find_loop-IsAnswer n (i + 1) 0 0 (taken_step i found first v taken)))
    ]
      where
        zero_ne : (i found first : ℕ) → Inv i found first → (0 == pages) ≡ false
        zero_ne i found first v = ground (arith, v.short)

        shift : (n i : ℕ) (r : Option ℕ) → IsAnswer (i + 1 + n) r → IsAnswer (i + suc n) r
        shift n i r a = let e : i + 1 + n ≡ i + suc n = omega arith in rw (← e) a

    -- With page 0 taken and at least one page wanted, the search answers with the first run of
    -- free pages that ends at or before page `bitmap_max_page`, and halts only if there is none.
    pub find_free_page-IsAnswer : 0 < pages → IsAnswer bitmap_max_page (find_free_page pages bitmap)
    unfolding find_free_page
    find_free_page-IsAnswer h = find_loop-IsAnswer bitmap_max_page 0 0 0 (record {
      short = h;
      within = omega arith;
      run = λ q lo hi. absurd (omega arith);
      stopped = inl refl;
      start = λ h. absurd (omega arith);
      idle = λ _. refl;
      none_before = λ p k all. absurd (omega arith);
    })
