-- ===== src/Heap/Results.antt =====
-- How a call of the kernel heap, src/mm/heap.c, ends.

-- A failed assert or a found corruption is a panic. The page allocator may halt the machine. A chunk
-- that is taken off the list without being on it corrupts memory through stale links. A write to the
-- word behind the end of the heap faults, since the heap maps no page there.
pub data Outcome {ℓ} (A : Type ℓ) : Type ℓ where
  ok : A → Outcome A
  panics halts corrupts faults no_fuel : Outcome A

infixl 5 ◌>>=◌
abbrev pub ◌>>=◌ {ℓ κ} : {A : Type ℓ} {B : Type κ} → Outcome A → (A → Outcome B) → Outcome B
ok a >>= f = f a
panics >>= f = panics
halts >>= f = halts
corrupts >>= f = corrupts
faults >>= f = faults
no_fuel >>= f = no_fuel
