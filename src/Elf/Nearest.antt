-- ===== src/Elf/Nearest.antt =====
-- What the search for the nearest symbol of src/fs/elf/elf.c finds.
use just_kernel.Base.{
  ℕ, zero, suc, ◌+◌, ◌*◌, ◌≤◌, ◌<◌, ◌≡◌, ◌≢◌, refl, sym, subst, ◌⊎◌, inl, inr, Bool, true, false,
  ltb, ◌==◌, if◌then◌else◌, Bool-cases, u32, sub32, arith,
}
use just_kernel.Klibc.{Memory, word_at}
use just_kernel.Elf.{
  Elf, symbol_type, symbol_value, symbol_at, nearer, is_outside, nearest_symbol_loop,
  find_nearest_symbol_by_address,
}

module _ (at : ℕ → ℕ) (ok : ℕ → Bool) (distance : ℕ → ℕ) where
  -- Of the first `i` entries, the one at `k` counts and is as near as any other that does.
  pub record IsNearest (i k : ℕ) : Type 0 where
    pub below : k < i
    pub counts : ok k ≡ true
    pub nearest : (j : ℕ) → j < i → ok j ≡ true → distance (at k) ≤ distance (at j)

  -- What a search over the first `i` entries has found.
  unfoldable pub Found : (i result : ℕ) → Type 0
  Found i result =
      ((result ≡ 0) × ((j : ℕ) → j < i → ok j ≡ false))
      ⊎ ((k : ℕ) × (result ≡ at k) × IsNearest i k)

  first-IsNearest : (i : ℕ) → ok i ≡ true → ((j : ℕ) → j < i → ok j ≡ false) → IsNearest (i + 1) i
  first-IsNearest i counts none_before = record {
    below = omega arith;
    counts = counts;
    nearest = λ j below there. elim (Bool-cases (j == i)) [
      | inl same ↦
          subst (λ q. distance (at i) ≤ distance (at q)) {x = i} {y = j} (ground arith)
            (omega arith)
      | inr other ↦ absurd (ground (arith, none_before j (ground arith)))
    ];
  }

  nearer-IsNearest :
      (i k : ℕ)
      → IsNearest i k
      → ok i ≡ true
      → distance (at i) < distance (at k)
      → IsNearest (i + 1) i
  nearer-IsNearest i k found counts closer = record {
    below = omega arith;
    counts = counts;
    nearest = λ j below there. elim (Bool-cases (j == i)) [
      | inl same ↦
          subst (λ q. distance (at i) ≤ distance (at q)) {x = i} {y = j} (ground arith)
            (omega arith)
      | inr other ↦ omega (arith, found.nearest j (ground arith) there)
    ];
  }

  kept-IsNearest :
      (i k : ℕ)
      → IsNearest i k
      → (ok i ≡ true → distance (at k) ≤ distance (at i))
      → IsNearest (i + 1) k
  kept-IsNearest i k found further = record {
    below = omega (arith, found.below);
    counts = found.counts;
    nearest = λ j below there. elim (Bool-cases (j == i)) [
      | inl same ↦
          let here : j ≡ i = ground arith in
          subst (λ q. ok q ≡ true → distance (at k) ≤ distance (at q)) (sym here) further there
      | inr other ↦ found.nearest j (ground arith) there
    ];
  }

  -- One round of the loop.
  step-Found :
      (i result : ℕ)
      → at i ≢ 0
      → ((k : ℕ) → k < i → at k ≢ 0)
      → Found i result
      → Found (i + 1) (
          if ok i
          then (let first = if result == 0 then at i else result in
              if ltb (distance (at i)) (distance first) then at i else first)
          else result)
  unfolding Found
  step-Found i result present before (inl (empty, none_before)) = elim (Bool-cases (ok i)) [
    | inr passed ↦ rw passed (
        inl (
          empty,
          λ j below. elim (Bool-cases (j == i)) [
            | inl same ↦ subst (λ q. ok q ≡ false) {x = i} {y = j} (ground arith) passed
            | inr other ↦ none_before j (ground arith)
          ],
        ))
    | inl counts ↦ inr (i, ground arith, first-IsNearest i counts none_before)
  ]
  step-Found i result present before (inr (k, same, found)) =
      let there : (result == 0) ≡ false = ground (arith, before k found.below) in
      elim (Bool-cases (ok i)) [
        | inr passed ↦
            rw passed (inr (k, same, kept-IsNearest i k found (λ counts. absurd (ground arith))))
        | inl counts ↦ elim (Bool-cases (ltb (distance (at i)) (distance result))) [
          | inl closer ↦
              let near : distance (at i) < distance result = ground arith in
              rw (counts, there, closer)
                (inr (
                  i,
                  refl,
                  nearer-IsNearest i k found counts
                      (subst (λ q. distance (at i) < distance q) same near),
                ))
          | inr further ↦
              let far : distance result ≤ distance (at i) = ground arith in
              rw (counts, there, further)
                (inr (
                  k,
                  same,
                  kept-IsNearest i k found
                      (λ c. subst (λ q. distance q ≤ distance (at i)) same far),
                ))
        ]
      ]

abbrev is_type : Memory → Elf → ℕ → ℕ → Bool
is_type mem hdr type i = symbol_type mem (symbol_at mem hdr i) == type

abbrev distance_to : Memory → ℕ → ℕ → ℕ
distance_to mem address symbol = sub32 address (symbol_value mem symbol)

nearest_symbol_loop-Found :
    (mem : Memory) (hdr : Elf) (type address n i nearest : ℕ)
    → ((k : ℕ) → k < i + n → symbol_at mem hdr k ≢ 0)
    → Found (symbol_at mem hdr) (is_type mem hdr type) (distance_to mem address) i nearest
    → Found
        (symbol_at mem hdr)
        (is_type mem hdr type)
        (distance_to mem address)
        (i + n)
        (nearest_symbol_loop mem hdr type address n i nearest)
unfolding nearest_symbol_loop
nearest_symbol_loop-Found mem hdr type address zero i nearest present found =
    let end : i ≡ i + 0 = omega arith in
    subst
      (λ e. Found (symbol_at mem hdr) (is_type mem hdr type) (distance_to mem address) e nearest)
      end found
nearest_symbol_loop-Found mem hdr type address (suc n) i nearest present found =
    let end : i + 1 + n ≡ i + suc n = omega arith in
    let next =
      step-Found (symbol_at mem hdr) (is_type mem hdr type) (distance_to mem address) i nearest
        (present i (omega arith)) (λ k below. present k (omega arith)) found in
    subst
      (λ e. Found (symbol_at mem hdr) (is_type mem hdr type) (distance_to mem address) e (
        nearest_symbol_loop mem hdr type address n (i + 1) (
          if is_type mem hdr type i
          then nearer mem (symbol_value mem) address (symbol_at mem hdr i) nearest
          else nearest)))
      end
      (nearest_symbol_loop-Found mem hdr type address n (i + 1) _
        (λ k below. present k (omega arith)) next)

-- The symbol at `k` is of the type and at or below the address, and no other such symbol is higher.
pub record IsClosest (mem : Memory) (hdr : Elf) (type address k : ℕ) : Type 0 where
  pub listed : k < hdr.symtab_size
  pub typed : is_type mem hdr type k ≡ true
  pub under : symbol_value mem (symbol_at mem hdr k) ≤ address
  pub highest :
      (j : ℕ)
      → j < hdr.symtab_size
      → is_type mem hdr type j ≡ true
      → symbol_value mem (symbol_at mem hdr j) ≤ address
      → symbol_value mem (symbol_at mem hdr j) ≤ symbol_value mem (symbol_at mem hdr k)

word_at-bounded : (mem : Memory) (a : ℕ) → ((x : ℕ) → mem x < 256) → word_at mem a < 4294967296
word_at-bounded mem a bytes =
    omega (arith, bytes (u32 a), bytes (u32 (a + 1)), bytes (u32 (a + 2)), bytes (u32 (a + 3)))

-- In 32 bits, the nearest value is the highest one at or below the address.
nearest-IsClosest :
    (mem : Memory) (hdr : Elf) (type address first k : ℕ)
    → ((x : ℕ) → mem x < 256)
    → address < 4294967296
    → first < hdr.symtab_size
    → is_type mem hdr type first ≡ true
    → symbol_value mem (symbol_at mem hdr first) ≤ address
    → IsNearest
        (symbol_at mem hdr)
        (is_type mem hdr type)
        (distance_to mem address)
        hdr.symtab_size
        k
    → IsClosest mem hdr type address k
nearest-IsClosest mem hdr type address first k bytes small listed typed under found =
    let bounded = λ (j : ℕ). word_at-bounded mem (symbol_at mem hdr j + 4) bytes in
    let below : symbol_value mem (symbol_at mem hdr k) ≤ address =
      omega (arith, found.nearest first listed typed, bounded k, bounded first) in
    record {
      listed = found.below;
      typed = found.counts;
      under = below;
      highest =
          λ j there right low. omega (arith, found.nearest j there right, bounded k, bounded j);
    }

-- For an address within the image, and a table of symbols that neither starts at 0 nor passes the end of
-- the address space, ELFFindNearestSymbolByAddress answers the symbol that the address belongs to: of the
-- symbols of the type at or below the address one with the highest value, provided that there is one.
pub find_nearest_symbol_by_address-IsClosest :
    (mem : Memory) (hdr : Elf) (type address first : ℕ)
    → ((x : ℕ) → mem x < 256)
    → is_outside mem hdr address ≡ false
    → 0 < hdr.symtab_head
    → hdr.symtab_head + hdr.symtab_size * 16 ≤ 4294967296
    → address < 4294967296
    → first < hdr.symtab_size
    → is_type mem hdr type first ≡ true
    → symbol_value mem (symbol_at mem hdr first) ≤ address
    → (k : ℕ) × (find_nearest_symbol_by_address mem hdr type address ≡ symbol_at mem hdr k)
      × IsClosest mem hdr type address k
unfolding find_nearest_symbol_by_address Found
find_nearest_symbol_by_address-IsClosest mem hdr type address first bytes inside positive fits small
      listed typed under =
    let found =
      nearest_symbol_loop-Found mem hdr type address hdr.symtab_size 0 0 (λ k below. omega arith)
        (inl (refl, λ j below. absurd (omega arith))) in
    elim found [
      | inl (empty, none_typed) ↦ absurd (ground (arith, none_typed first (omega arith)))
      | inr (k, same, nearest) ↦
          let nearest' : IsNearest (symbol_at mem hdr) (is_type mem hdr type)
              (distance_to mem address) hdr.symtab_size k =
            subst
              (λ e.
                IsNearest (symbol_at mem hdr) (is_type mem hdr type) (distance_to mem address) e k)
              {x = 0 + hdr.symtab_size} {y = hdr.symtab_size} (omega arith) nearest in
          (
            k,
            rw inside same,
            nearest-IsClosest mem hdr type address first k bytes small listed typed under nearest',
          )
    ]
