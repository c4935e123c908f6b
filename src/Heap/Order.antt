-- ===== src/Heap/Order.antt =====
-- The list of free chunks of src/mm/heap.c: sorted by size, searched for the best fit.
use just_kernel.Base.{
  ℕ, suc, ◌≤◌, ◌<◌, ◌≡◌, refl, inl, inr, Option, none, some, List, [], ◌∷◌, leb, ◌==◌,
  if◌then◌else◌, Bool-cases, Option-cases, arith,
}
use just_kernel.Heap.{size_of, find_smallest, insert_before, remove_from}

-- How often a chunk is on the list.
abbrev pub count : ℕ → List ℕ → ℕ
count p [] = 0
count p (c ∷ cs) = if c == p then suc (count p cs) else count p cs

module _ (head : ℕ → ℕ) where
  -- Each chunk of the list has at least this size.
  abbrev pub AllFrom : ℕ → List ℕ → Type 0
  AllFrom size [] = Unit
  AllFrom size (c ∷ cs) = (size ≤ size_of (head c)) × AllFrom size cs

  -- No chunk is followed by a smaller one.
  abbrev pub IsSorted : List ℕ → Type 0
  IsSorted [] = Unit
  IsSorted (c ∷ cs) = AllFrom (size_of (head c)) cs × IsSorted cs

  AllFrom-le : (a b : ℕ) (cs : List ℕ) → a ≤ b → AllFrom b cs → AllFrom a cs
  AllFrom-le a b [] le all = tt
  AllFrom-le a b (c ∷ cs) le (h, all) = (omega arith, AllFrom-le a b cs le all)

  insert-AllFrom :
      (size chunk : ℕ) (cs : List ℕ)
      → size ≤ size_of (head chunk)
      → AllFrom size cs
      → AllFrom size (insert_before head chunk cs)
  unfolding insert_before
  insert-AllFrom size chunk [] le all = (le, tt)
  insert-AllFrom size chunk (c ∷ cs) le (h, all) =
      elim (Bool-cases (leb (size_of (head chunk)) (size_of (head c)))) [
        | inl before ↦ rw before (le, (h, all))
        | inr behind ↦ rw behind (h, insert-AllFrom size chunk cs le all)
      ]

  -- insertChunk keeps the list sorted by size.
  pub insert-IsSorted :
      (chunk : ℕ) (cs : List ℕ) → IsSorted cs → IsSorted (insert_before head chunk cs)
  unfolding insert_before
  insert-IsSorted chunk [] sorted = (tt, tt)
  insert-IsSorted chunk (c ∷ cs) (all, sorted) =
      elim (Bool-cases (leb (size_of (head chunk)) (size_of (head c)))) [
        | inl before ↦
            let le : size_of (head chunk) ≤ size_of (head c) = ground arith in
            rw before ((le, AllFrom-le _ _ cs le all), (all, sorted))
        | inr behind ↦
            let le : size_of (head c) ≤ size_of (head chunk) = ground arith in
            rw behind
              (insert-AllFrom (size_of (head c)) chunk cs le all, insert-IsSorted chunk cs sorted)
      ]

  pub insert-count :
      (p chunk : ℕ) (cs : List ℕ)
      → count p (insert_before head chunk cs)
        ≡ (if chunk == p then suc (count p cs) else count p cs)
  unfolding insert_before
  insert-count p chunk [] = refl
  insert-count p chunk (c ∷ cs) = ground (arith, insert-count p chunk cs)

  -- The chunk that was found is on the list, large enough, and none that is large enough is smaller.
  pub record IsBestFit (size : ℕ) (cs : List ℕ) (found : ℕ) : Type 0 where
    pub listed : 1 ≤ count found cs
    pub fits : size ≤ size_of (head found)
    pub least :
        (c : ℕ) → 1 ≤ count c cs → size ≤ size_of (head c) → size_of (head found) ≤ size_of (head c)

  AllFrom-count :
      (size c : ℕ) (cs : List ℕ) → AllFrom size cs → 1 ≤ count c cs → size ≤ size_of (head c)
  AllFrom-count size c [] all listed = absurd (omega arith)
  AllFrom-count size c (d ∷ cs) (h, all) listed = elim (Bool-cases (d == c)) [
    | inl here ↦ let same : d ≡ c = ground arith in rw same at h
    | inr there ↦ AllFrom-count size c cs all (ground arith)
  ]

  -- What a search comes to.
  unfoldable pub Fits : (size : ℕ) → List ℕ → Option ℕ → Type 0
  Fits size cs none = (c : ℕ) → 1 ≤ count c cs → size_of (head c) < size
  Fits size cs (some found) = IsBestFit size cs found

  hit-IsBestFit :
      (size c : ℕ) (cs : List ℕ)
      → AllFrom (size_of (head c)) cs
      → size ≤ size_of (head c)
      → IsBestFit size (c ∷ cs) c
  hit-IsBestFit size c cs all fits = record {
    listed = ground arith;
    fits = fits;
    least = λ d listed h. elim (Bool-cases (c == d)) [
      | inl here ↦ let same : c ≡ d = ground arith in rw same (omega arith)
      | inr there ↦ AllFrom-count (size_of (head c)) d cs all (ground arith)
    ];
  }

  miss-Fits :
      (size c : ℕ) (cs : List ℕ) (result : Option ℕ)
      → size_of (head c) < size
      → Fits size cs result
      → Fits size (c ∷ cs) result
  unfolding Fits
  miss-Fits size c cs none small all = λ d listed. elim (Bool-cases (c == d)) [
    | inl here ↦ let same : c ≡ d = ground arith in rw same at small
    | inr there ↦ all d (ground arith)
  ]
  miss-Fits size c cs (some found) small best = record {
    listed = ground (arith, best.listed);
    fits = best.fits;
    least = λ d listed h. elim (Bool-cases (c == d)) [
      | inl here ↦
          let same : c ≡ d = ground arith in
          let less : size_of (head d) < size = rw same at small in absurd (omega arith)
      | inr there ↦ best.least d (ground arith) h
    ];
  }

  -- On a sorted list the search finds a chunk that is large enough, of the least size of all these, and
  -- finds none only if all chunks are too small.
  pub find_smallest-Fits :
      (size : ℕ) (cs : List ℕ) → IsSorted cs → Fits size cs (find_smallest head size cs)
  unfolding find_smallest Fits
  find_smallest-Fits size [] sorted = λ c listed. absurd (omega arith)
  find_smallest-Fits size (c ∷ cs) (all, sorted) = elim (Bool-cases (leb size (size_of (head c)))) [
    | inl fits ↦ rw fits (hit-IsBestFit size c cs all (ground arith))
    | inr small ↦ rw small (
        miss-Fits size c cs (find_smallest head size cs) (ground arith)
          (find_smallest-Fits size cs sorted))
  ]

pub remove-count :
    (p chunk : ℕ) (cs cs' : List ℕ)
    → remove_from chunk cs ≡ some cs'
    → count p cs ≡ (if chunk == p then suc (count p cs') else count p cs')
unfolding remove_from
remove-count p chunk [] cs' removed = absurd (ground arith)
remove-count p chunk (c ∷ cs) cs' removed = elim (Bool-cases (c == chunk)) [
  | inl here ↦ ground arith
  | inr there ↦ elim (Option-cases (remove_from chunk cs)) [
    | inl missing ↦ absurd (ground arith)
    | inr (rest, found) ↦ ground (arith, remove-count p chunk cs rest found)
  ]
]

pub remove-some :
    (chunk : ℕ) (cs : List ℕ)
    → 1 ≤ count chunk cs
    → (cs' : List ℕ) × (remove_from chunk cs ≡ some cs')
unfolding remove_from
remove-some chunk [] listed = absurd (omega arith)
remove-some chunk (c ∷ cs) listed = elim (Bool-cases (c == chunk)) [
  | inl here ↦ (cs, ground arith)
  | inr there ↦
      let (rest, found) = remove-some chunk cs (ground arith) in (c ∷ rest, ground (arith, found))
]
