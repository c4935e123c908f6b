-- ===== src/Apic/Find.antt =====
-- The choice of a controller, apic_find_valid_ioapic of src/sys/apic.c.
use just_kernel.Base.{
  ℕ, ◌≡◌, refl, true, false, Option, none, some, List, [], ◌∷◌, ◌++◌, ◌⊎◌, inl, inr, Bool-cases, ap,
}
use just_kernel.Apic.{IoApic, Registers, serves, find_valid, apic_find_valid_ioapic}

-- No controller of the list serves the number.
unfoldable pub NoneServes : (gsi : ℕ) → Registers → List IoApic → Type 0
NoneServes gsi regs [] = Unit
NoneServes gsi regs (ioapic ∷ rest) = (serves gsi regs ioapic ≡ false) × NoneServes gsi regs rest

-- The last controller of the list that serves the number.
pub record IsLast (gsi : ℕ) (regs : Registers) (ioapics : List IoApic) (found : IoApic)
    : Type 0 where
  pub before : List IoApic
  pub after : List IoApic
  pub position : ioapics ≡ before ++ found ∷ after
  pub serving : serves gsi regs found ≡ true
  pub none_after : NoneServes gsi regs after

Outcome : (gsi : ℕ) → Registers → List IoApic → (start result : Option IoApic) → Type 0
Outcome gsi regs ioapics start result =
    ((result ≡ start) × NoneServes gsi regs ioapics)
    ⊎ ((found : IoApic) × (result ≡ some found) × IsLast gsi regs ioapics found)

-- A later find counts, whatever the first controller is.
later-Outcome :
    (gsi : ℕ) (regs : Registers) (first : IoApic) (rest : List IoApic) (start : Option IoApic)
    (result : Option IoApic) (found : IoApic)
    → result ≡ some found
    → IsLast gsi regs rest found
    → Outcome gsi regs (first ∷ rest) start result
unfolding Outcome
later-Outcome gsi regs first rest start result found e last = inr (
  found,
  e,
  record {
    before = first ∷ last.before;
    after = last.after;
    position = ap (λ l. first ∷ l) last.position;
    serving = last.serving;
    none_after = last.none_after;
  },
)

hit-Outcome :
    (gsi : ℕ) (regs : Registers) (first : IoApic) (rest : List IoApic)
    (start result : Option IoApic)
    → serves gsi regs first ≡ true
    → Outcome gsi regs rest (some first) result
    → Outcome gsi regs (first ∷ rest) start result
unfolding Outcome
hit-Outcome gsi regs first rest start result hit (inl (e, missed)) = inr (
  first,
  e,
  record { before = []; after = rest; position = refl; serving = hit; none_after = missed },
)
hit-Outcome gsi regs first rest start result hit (inr (found, e, last)) =
    later-Outcome gsi regs first rest start result found e last

miss-Outcome :
    (gsi : ℕ) (regs : Registers) (first : IoApic) (rest : List IoApic)
    (start result : Option IoApic)
    → serves gsi regs first ≡ false
    → Outcome gsi regs rest start result
    → Outcome gsi regs (first ∷ rest) start result
unfolding Outcome NoneServes
miss-Outcome gsi regs first rest start result miss (inl (e, missed)) = inl (e, (miss, missed))
miss-Outcome gsi regs first rest start result miss (inr (found, e, last)) =
    later-Outcome gsi regs first rest start result found e last

empty-Outcome :
    (gsi : ℕ) (regs : Registers) (start : Option IoApic) → Outcome gsi regs [] start start
unfolding Outcome NoneServes
empty-Outcome gsi regs start = inl (refl, tt)

find_valid-Outcome :
    (gsi : ℕ) (regs : Registers) (ioapics : List IoApic) (start : Option IoApic)
    → Outcome gsi regs ioapics start (find_valid gsi regs ioapics start)
unfolding find_valid
find_valid-Outcome gsi regs [] start = empty-Outcome gsi regs start
find_valid-Outcome gsi regs (first ∷ rest) start = elim (Bool-cases (serves gsi regs first)) [
  | inl hit ↦ rw hit (
      hit-Outcome gsi regs first rest start (find_valid gsi regs rest (some first)) hit
        (find_valid-Outcome gsi regs rest (some first)))
  | inr miss ↦ rw miss (
      miss-Outcome gsi regs first rest start (find_valid gsi regs rest start) miss
        (find_valid-Outcome gsi regs rest start))
]

unfoldable pub IsServer : (gsi : ℕ) → Registers → List IoApic → Option IoApic → Type 0
IsServer gsi regs ioapics none = NoneServes gsi regs ioapics
IsServer gsi regs ioapics (some found) = IsLast gsi regs ioapics found

-- apic_find_valid_ioapic answers the last controller of the list whose range of interrupt numbers
-- holds the number, and none only if no range does.
pub apic_find_valid_ioapic-IsServer :
    (gsi : ℕ) (regs : Registers) (ioapics : List IoApic)
    → IsServer gsi regs ioapics (apic_find_valid_ioapic gsi regs ioapics)
unfolding apic_find_valid_ioapic IsServer Outcome
apic_find_valid_ioapic-IsServer gsi regs ioapics = elim (find_valid-Outcome gsi regs ioapics none) [
  | inl (e, missed) ↦ rw e missed
  | inr (found, e, last) ↦ rw e last
]
