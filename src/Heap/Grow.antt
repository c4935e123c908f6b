-- ===== src/Heap/Grow.antt =====
-- The growth of the heap in alloc, src/mm/heap.c.
use just_kernel.Base.{
  ℕ, ◌+◌, ◌-◌, ◌/◌, ◌≤◌, ◌<◌, ◌≡◌, refl, inl, inr, Bool, true, false, leb, ltb, Option-cases, u32,
  sub32, bit_or, page_size, arith,
}
use just_kernel.Pmm.{pmm_alloc}
use just_kernel.Vmm.{Layout}
use just_kernel.Vmm.Directories.{vmm_map}
use just_kernel.Heap.{Heap, assert, round_pages, map_pages, expand}
use just_kernel.Heap.Results.{Outcome, ok, panics, halts, corrupts, faults, no_fuel, ◌>>=◌}
use just_kernel.Heap.Sizes.{page_part}

-- A call with enough fuel, whose result is such if it has one.
unfoldable pub Ends {ℓ} : {A : Type ℓ} → (A → Type 0) → Outcome A → Type 0
Ends P (ok a) = P a
Ends P panics = Unit
Ends P halts = Unit
Ends P corrupts = Unit
Ends P faults = Unit
Ends P no_fuel = ⊥

pub bind-Ends {ℓ κ} :
    {A : Type ℓ} {B : Type κ} (P : A → Type 0) (Q : B → Type 0) (o : Outcome A) (f : A → Outcome B)
    → Ends P o
    → ((a : A) → P a → Ends Q (f a))
    → Ends Q (o >>= f)
unfolding Ends
bind-Ends P Q (ok a) f ends next = next a ends
bind-Ends P Q panics f ends next = tt
bind-Ends P Q halts f ends next = tt
bind-Ends P Q corrupts f ends next = tt
bind-Ends P Q faults f ends next = tt
bind-Ends P Q no_fuel f ends next = ends

pub assert-Ends {κ} :
    {B : Type κ} (Q : B → Type 0) (b : Bool) (h : Heap) (f : Heap → Outcome B)
    → (b ≡ true → Ends Q (f h))
    → Ends Q (assert b h >>= f)
unfolding Ends
assert-Ends Q true h f holds = holds refl
assert-Ends Q false h f holds = tt

pub Ends-map {ℓ} :
    {A : Type ℓ} (P Q : A → Type 0) (o : Outcome A) → ((a : A) → P a → Q a) → Ends P o → Ends Q o
unfolding Ends
Ends-map P Q (ok a) f ends = f a ends
Ends-map P Q panics f ends = tt
Ends-map P Q halts f ends = tt
Ends-map P Q corrupts f ends = tt
Ends-map P Q faults f ends = tt
Ends-map P Q no_fuel f ends = ends

-- What the mapping of pages leaves alone.
record Same (h h1 : Heap) : Type 0 where
  start : h1.start_addr ≡ h.start_addr
  end : h1.end_addr ≡ h.end_addr
  pub list : h1.free_list ≡ h.free_list
  pub head : h1.head ≡ h.head

map_pages-Ends :
    (l : Layout) (old_end size : ℕ) (h : Heap) → Ends (Same h) (map_pages l old_end size h)
unfolding Ends map_pages
map_pages-Ends l old_end size h = elim (Option-cases (pmm_alloc size h.vmm.pmm)) [
  | inl missing ↦ rw (missing, map_pages, Ends) tt
  | inr ((phys, pmm'), found) ↦
      rw (found, map_pages, Ends)
        (elim (Option-cases (
          vmm_map l phys old_end (size / page_size) (bit_or h.perms 1)
            (record (h.vmm) { pmm = pmm' }))) [
              | inl missing ↦ rw (missing, Ends) tt
              | inr ((ret, vmm'), mapped) ↦
                  rw (mapped, Ends) (record { start = refl; end = refl; list = refl; head = refl })
            ])
]

-- A heap with at least `nb` bytes more.
pub record Grown (h : Heap) (nb : ℕ) (h1 : Heap) : Type 0 where
  pub room : h.end_addr + nb ≤ h1.end_addr
  pub small : h1.end_addr < 4294967296
  pub list : h1.free_list ≡ h.free_list
  pub head : h1.head ≡ h.head

round_pages-le : (n : ℕ) → n < 4294963200 → (n ≤ round_pages n) × (round_pages n ≤ n + 4096)
round_pages-le n small = ground (arith, page_part n)

pub expand-Ends :
    (l : Layout) (h : Heap) (nb : ℕ)
    → h.start_addr ≤ h.end_addr
    → h.end_addr + nb + 4096 < 4294967296
    → Ends (Grown h nb) (expand l (u32 (sub32 h.end_addr h.start_addr + nb)) h)
unfolding expand
expand-Ends l h nb ordered small =
    let new : u32 (sub32 h.end_addr h.start_addr + nb) ≡ h.end_addr - h.start_addr + nb =
      ground arith in
    let (up, near) = round_pages-le (h.end_addr - h.start_addr + nb) (omega arith) in
    let rounded = round_pages (h.end_addr - h.start_addr + nb) in
    let end : u32 (h.start_addr + rounded) ≡ h.start_addr + rounded = omega arith in
    let h1 : Heap = record h { end_addr = h.start_addr + rounded } in
    let mapped = map_pages-Ends l h.end_addr (sub32 (h.start_addr + rounded) h.end_addr) h1 in
    rw (new, end)
      (assert-Ends (Grown h nb)
        (ltb (sub32 h.end_addr h.start_addr) (h.end_addr - h.start_addr + nb)) h _
        (λ more. assert-Ends (Grown h nb) (leb (h.start_addr + rounded) h.max_addr) h _ (λ below.
          Ends-map (Same h1) (Grown h nb) _
            (λ g same. record {
              room = omega (arith, same.end);
              small = omega (arith, same.end);
              list = same.list;
              head = same.head;
            })
            mapped)))
