-- ===== src/Klibc/Compare.antt =====
-- Comparison, strcmp of src/klibc/string.c.
use just_kernel.Base.{
  ℕ, zero, suc, ◌+◌, ◌<◌, ◌≡◌, refl, subst, sym, ◌∙◌, ◌⊎◌, inl, inr, true, false, Option, some,
  ◌==◌, arith, u32, Bool-cases,
}
use just_kernel.Klibc.{Memory, strcmp_loop, strcmp_lengths, strcmp}
use just_kernel.Klibc.Copy.{IsString, strlen-length}

-- The same bytes from the byte `i` on.
unfoldable pub Same : Memory → (s1 s2 n : ℕ) → Type 0
Same mem s1 s2 n = (i : ℕ) → i < n → mem (s1 + i) ≡ mem (s2 + i)

rest-IsString : (mem : Memory) (a n : ℕ) → IsString mem a (suc n) → IsString mem (a + 1) n
rest-IsString mem a n string =
    let fits = string.fits in
    let end : a + 1 + n ≡ a + suc n = omega arith in
    record {
      inside = λ i h.
          let at : a + 1 + i ≡ a + suc i = omega arith in
          rw at (string.inside (suc i) (omega arith));
      end = rw end string.end;
      fits = omega arith;
    }

-- The answer of a comparison.
unfoldable pub IsOrder : Option ℕ → Type 0 → Type 0
IsOrder result same = ((result ≡ some 0) × same) ⊎ ((result ≡ some 1) × ¬ same)

-- Equal first bytes leave the rest to compare.
Same-suc :
    (mem : Memory) (s1 s2 n : ℕ)
    → mem s1 ≡ mem s2
    → Same mem (s1 + 1) (s2 + 1) n
    → Same mem s1 s2 (suc n)
unfolding Same
Same-suc mem s1 s2 n first rest zero h =
    let at1 : s1 + 0 ≡ s1 = omega arith in
    let at2 : s2 + 0 ≡ s2 = omega arith in rw (at1, at2) first
Same-suc mem s1 s2 n first rest (suc i) h =
    let at1 : s1 + suc i ≡ s1 + 1 + i = omega arith in
    let at2 : s2 + suc i ≡ s2 + 1 + i = omega arith in rw (at1, at2) (rest i (omega arith))

Same-rest : (mem : Memory) (s1 s2 n : ℕ) → Same mem s1 s2 (suc n) → Same mem (s1 + 1) (s2 + 1) n
unfolding Same
Same-rest mem s1 s2 n same i h =
    let at1 : s1 + 1 + i ≡ s1 + suc i = omega arith in
    let at2 : s2 + 1 + i ≡ s2 + suc i = omega arith in rw (at1, at2) (same (suc i) (omega arith))

Same-first : (mem : Memory) (s1 s2 n : ℕ) → Same mem s1 s2 (suc n) → mem s1 ≡ mem s2
unfolding Same
Same-first mem s1 s2 n same =
    let at1 : s1 + 0 ≡ s1 = omega arith in
    let at2 : s2 + 0 ≡ s2 = omega arith in rw (at1, at2) at (same zero (omega arith))

-- The first byte of a string, which is its end if it has none.
first-end : (mem : Memory) (a : ℕ) → IsString mem a 0 → mem a ≡ 0
first-end mem a string = let at : a + 0 ≡ a = omega arith in rw at at string.end

first-inside : (mem : Memory) (a n : ℕ) → IsString mem a (suc n) → (mem a == 0) ≡ false
first-inside mem a n string =
    let at : a + 0 ≡ a = omega arith in rw at at (string.inside zero (omega arith))

-- One round of the loop.
module _ (fuel s1 s2 : ℕ) (mem : Memory) where
  loop_end : mem s1 ≡ 0 → strcmp_loop (suc fuel) s1 s2 mem ≡ some 0
  unfolding strcmp_loop
  loop_end e = ground (arith, e)

  loop_differ :
      (mem s1 == 0) ≡ false
      → (mem s2 == 0) ≡ false
      → (mem s1 == mem s2) ≡ false
      → strcmp_loop (suc fuel) s1 s2 mem ≡ some 1
  unfolding strcmp_loop
  loop_differ z1 z2 e = ground (arith, z1, z2, e)

  loop_on :
      (mem s1 == 0) ≡ false
      → (mem s2 == 0) ≡ false
      → (mem s1 == mem s2) ≡ true
      → strcmp_loop (suc fuel) s1 s2 mem ≡ strcmp_loop fuel (u32 (s1 + 1)) (u32 (s2 + 1)) mem
  unfolding strcmp_loop
  loop_on z1 z2 e = ground (arith, z1, z2, e)

strcmp_loop-IsOrder :
    (fuel n s1 s2 : ℕ) (mem : Memory)
    → IsString mem s1 n
    → IsString mem s2 n
    → n < fuel
    → IsOrder (strcmp_loop fuel s1 s2 mem) (Same mem s1 s2 n)
unfolding IsOrder Same
strcmp_loop-IsOrder zero n s1 s2 mem string1 string2 enough = absurd (omega arith)
strcmp_loop-IsOrder (suc fuel) zero s1 s2 mem string1 string2 enough =
    inl (loop_end fuel s1 s2 mem (first-end mem s1 string1), λ i h. absurd (omega arith))
strcmp_loop-IsOrder (suc fuel) (suc n) s1 s2 mem string1 string2 enough =
    let z1 = first-inside mem s1 n string1 in
    let z2 = first-inside mem s2 n string2 in
    let fits1 = string1.fits in
    let fits2 = string2.fits in
    let at1 : u32 (s1 + 1) ≡ s1 + 1 = omega arith in
    let at2 : u32 (s2 + 1) ≡ s2 + 1 = omega arith in
    elim (Bool-cases (mem s1 == mem s2)) [
      | inr e ↦ inr (
        loop_differ fuel s1 s2 mem z1 z2 e,
        λ same. let first = Same-first mem s1 s2 n same in absurd (ground (arith, first, e)),
      )
      | inl e ↦
          let on = rw (at1, at2) at (loop_on fuel s1 s2 mem z1 z2 e) in
          elim (strcmp_loop-IsOrder fuel n (s1 + 1) (s2 + 1) mem (rest-IsString mem s1 n string1)
            (rest-IsString mem s2 n string2) (omega arith)) [
              | inl (r, same) ↦ inl (on ∙ r, Same-suc mem s1 s2 n (ground (arith, e)) same)
              | inr (r, differ) ↦ inr (on ∙ r, λ same. differ (Same-rest mem s1 s2 n same))
            ]
    ]

lengths-IsOrder :
    (fuel n1 n2 s1 s2 : ℕ) (mem : Memory)
    → IsString mem s1 n1
    → IsString mem s2 n2
    → n1 < fuel
    → IsOrder (strcmp_lengths fuel s1 s2 mem (some n1) (some n2)) ((n1 ≡ n2) × Same mem s1 s2 n1)
unfolding strcmp_lengths IsOrder
lengths-IsOrder fuel n1 n2 s1 s2 mem string1 string2 enough = elim (Bool-cases (n1 == n2)) [
  | inr e ↦ rw e (inr (refl, λ (same, bytes). ground (arith, same, e)))
  | inl e ↦
      let same : n1 ≡ n2 = ground (arith, e) in
      let string2' = subst (IsString mem s2) (sym same) string2 in
      rw e (elim (strcmp_loop-IsOrder fuel n1 s1 s2 mem string1 string2' enough) [
        | inl (r, bytes) ↦ inl (r, (same, bytes))
        | inr (r, differ) ↦ inr (r, λ (same', bytes). differ bytes)
      ])
]

-- With more fuel than the strings have bytes, strcmp answers 0 if the strings have the same length
-- and the same bytes, and 1 otherwise.
pub strcmp-IsOrder :
    (fuel n1 n2 s1 s2 : ℕ) (mem : Memory)
    → IsString mem s1 n1
    → IsString mem s2 n2
    → n1 < fuel
    → n2 < fuel
    → IsOrder (strcmp fuel s1 s2 mem) ((n1 ≡ n2) × Same mem s1 s2 n1)
unfolding strcmp
strcmp-IsOrder fuel n1 n2 s1 s2 mem string1 string2 enough1 enough2 =
    rw (strlen-length fuel n1 s1 mem string1 enough1, strlen-length fuel n2 s2 mem string2 enough2)
      (lengths-IsOrder fuel n1 n2 s1 s2 mem string1 string2 enough1)
