-- ===== src/Vmm/Tables.antt =====
-- The page tables that a range of addresses needs and that the directory does not have, src/mm/vmm.c.
use just_kernel.Base.{
  ℕ, zero, suc, ◌+◌, ◌*◌, ◌≤◌, ◌<◌, ◌≡◌, inl, inr, Bool, true, false, not, ◌&&◌, ltb, ◌==◌,
  if◌then◌else◌, Bool-cases, arith, subst, refl,
}
use just_kernel.Vmm.{is_present}
use just_kernel.Vmm.Space.{entry}

-- The numbers below `k` that are wanted.
unfoldable pub count_where : (ℕ → Bool) → ℕ → ℕ
count_where wanted zero = 0
count_where wanted (suc k) = count_where wanted k + (if wanted k then 1 else 0)

count_where-le :
    (wanted wanted' : ℕ → Bool) (k : ℕ)
    → ((u : ℕ) → u < k → wanted' u ≡ true → wanted u ≡ true)
    → count_where wanted' k ≤ count_where wanted k
unfolding count_where
count_where-le wanted wanted' zero fewer = omega arith
count_where-le wanted wanted' (suc k) fewer =
    let rest = count_where-le wanted wanted' k (λ u h. fewer u (omega arith)) in
    ground (arith, rest, fewer k)

-- One of them less.
pub count_where-lt :
    (wanted wanted' : ℕ → Bool) (i k : ℕ)
    → ((u : ℕ) → u < k → wanted' u ≡ true → wanted u ≡ true)
    → i < k
    → wanted i ≡ true
    → wanted' i ≡ false
    → count_where wanted' k + 1 ≤ count_where wanted k
unfolding count_where
count_where-lt wanted wanted' i zero fewer below on off = absurd (omega arith)
count_where-lt wanted wanted' i (suc k) fewer below on off = elim (Bool-cases (i == k)) [
  | inl here ↦
      let same : i ≡ k = ground arith in
      let on' = subst (λ q. wanted q ≡ true) same on in
      let off' = subst (λ q. wanted' q ≡ false) same off in
      let rest = count_where-le wanted wanted' k (λ u h. fewer u (omega arith)) in
      ground (arith, rest, on', off')
  | inr there ↦
      let rest =
        count_where-lt wanted wanted' i k (λ u h. fewer u (omega arith)) (ground arith) on off in
      ground (arith, rest, fewer k)
]

-- The `n` pages at `virt` meet the 4 MiB of table `u`, which the directory does not have.
abbrev pub lacks : (m : ℕ → ℕ → ℕ) (d virt n : ℕ) → ℕ → Bool
lacks m d virt n u =
    ltb virt ((u + 1) * 4194304)
    && ltb (u * 4194304) (virt + n * 4096)
    && ltb 0 n
    && not (is_present (entry m d u))

-- The number of tables that have to be added to map the `n` pages at `virt`.
unfoldable pub missing : (m : ℕ → ℕ → ℕ) (d virt n : ℕ) → ℕ
missing m d virt n = count_where (lacks m d virt n) 1024

-- Without the first page, and with its table there, no table more is missing, and one less if it was.
pub missing-next :
    (m m' : ℕ → ℕ → ℕ) (d virt n i : ℕ)
    → ((u : ℕ) → u < 1024 → is_present (entry m d u) ≡ true → is_present (entry m' d u) ≡ true)
    → is_present (entry m' d i) ≡ true
    → i < 1024
    → i * 4194304 ≤ virt
    → virt < (i + 1) * 4194304
    → missing m' d (virt + 4096) n + (if is_present (entry m d i) then 0 else 1)
      ≤ missing m d virt (suc n)
unfolding missing
missing-next m m' d virt n i stays here below from to =
    let fewer : (u : ℕ)
        → u < 1024
        → lacks m' d (virt + 4096) n u ≡ true
        → lacks m d virt (suc n) u ≡ true =
      λ u h. ground (arith, stays u h) in
    elim (Bool-cases (is_present (entry m d i))) [
      | inl there ↦
          let le =
            count_where-le (lacks m d virt (suc n)) (lacks m' d (virt + 4096) n) 1024 fewer in
          ground (arith, le, there)
      | inr gone ↦
          let lt =
            count_where-lt (lacks m d virt (suc n)) (lacks m' d (virt + 4096) n) i 1024 fewer below
              (ground arith) (ground arith) in
          ground (arith, lt, gone)
    ]

-- A table that the first page lacks is missing.
pub missing-first :
    (m : ℕ → ℕ → ℕ) (d virt n i : ℕ)
    → is_present (entry m d i) ≡ false
    → i < 1024
    → i * 4194304 ≤ virt
    → virt < (i + 1) * 4194304
    → 0 < missing m d virt (suc n)
unfolding missing
missing-first m d virt n i gone below from to = omega (
  arith,
  count_where-lt (lacks m d virt (suc n)) (λ u. false) i 1024 (λ u h. ground arith) below
      (ground arith) refl,
)

pub missing-stays :
    (m m' : ℕ → ℕ → ℕ) (d virt n : ℕ)
    → ((u : ℕ) → u < 1024 → is_present (entry m d u) ≡ true → is_present (entry m' d u) ≡ true)
    → missing m' d virt n ≤ missing m d virt n
unfolding missing
missing-stays m m' d virt n stays =
    count_where-le (lacks m d virt n) (lacks m' d virt n) 1024 (λ u h. ground (arith, stays u h))

-- No page needs no table.
pub missing-none : (m : ℕ → ℕ → ℕ) (d virt : ℕ) → missing m d virt 0 ≤ 0
unfolding missing count_where
missing-none m d virt = none_wanted 1024
  where
    none_wanted : (k : ℕ) → count_where (lacks m d virt 0) k ≤ 0
    none_wanted zero = omega arith
    none_wanted (suc k) = ground (arith, none_wanted k)
