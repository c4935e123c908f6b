-- ===== src/Apic/Legacy.antt =====
-- Where the first 16 interrupts go, the last loop of apic_configure of src/sys/apic.c.
use just_kernel.Base.{
  ℕ, zero, suc, ◌+◌, ◌≤◌, ◌<◌, ◌≡◌, refl, ap, subst, ◌∙◌, inl, inr, Bool, true, false, not, ◌&&◌,
  some, [], ◌∷◌, ltb, leb, ◌==◌, if◌then◌else◌, Bool-cases, u32, arith,
}
use just_kernel.Base.Bits.{bit_or-zero}
use just_kernel.Apic.{
  IoApic, Registers, apic_get_gsi_max, apic_find_valid_ioapic, find_valid,
  apic_read_redirection_table, apic_write_redirection_table, redirect_gsi, redirect_entry,
  redirect_reg,
}
use just_kernel.Apic.Redirect.{apic_read-write}
use just_kernel.Apic.Configure.{map_rest}

redirect_entry-vector : (i : ℕ) → redirect_entry i 0 0 ≡ i + 32
redirect_entry-vector i = bit_or-zero (i + 32)

-- A controller whose numbers begin with 0.
abbrev pub first_at : ℕ → IoApic
first_at address = record { ioapic_addr = address; gsi_base = 0 }

condition-mapped :
    (i j n : ℕ) (mapped_irqs : ℕ → Bool)
    → mapped_irqs i ≡ true
    → (leb (i + 1) j && ltb j (i + 1 + n) && not (mapped_irqs j))
      ≡ (leb i j && ltb j (i + suc n) && not (mapped_irqs j))
condition-mapped i j n mapped_irqs mapped = elim (Bool-cases (i == j)) [
  | inl same ↦
      let there : i ≡ j = ground arith in
      let mapped' : mapped_irqs j ≡ true = subst (λ q. mapped_irqs q ≡ true) there mapped in
      ground arith
  | inr other ↦ ground arith
]

module _ (address : ℕ) where
  -- A write to the table leaves the number of its entries alone.
  gsi_max-write :
      (i value : ℕ) (regs : Registers)
      → i < 16
      → apic_get_gsi_max
          (first_at address)
          (apic_write_redirection_table (some (first_at address)) i value regs).1
        ≡ apic_get_gsi_max (first_at address) regs
  unfolding apic_get_gsi_max apic_write_redirection_table
  gsi_max-write i value regs small =
      let low : (1 == redirect_reg (first_at address) i) ≡ false = ground arith in
      let high : (1 == u32 (redirect_reg (first_at address) i + 1)) ≡ false = ground arith in
      let same : (address == address) ≡ true = ground arith in rw (same, low, high) refl

  find_only :
      (i : ℕ) (regs : Registers)
      → i < 16
      → 15 ≤ apic_get_gsi_max (first_at address) regs
      → apic_get_gsi_max (first_at address) regs < 256
      → apic_find_valid_ioapic i regs (first_at address ∷ []) ≡ some (first_at address)
  unfolding apic_find_valid_ioapic find_valid
  find_only i regs small large byte =
      let from : leb 0 i ≡ true = ground arith in
      let to : leb i (u32 (apic_get_gsi_max (first_at address) regs + 0)) ≡ true = ground arith in
      rw (from, to) refl

  map_rest-skip :
      (n i : ℕ) (mapped_irqs : ℕ → Bool) (regs : Registers)
      → mapped_irqs i ≡ true
      → map_rest (suc n) i (first_at address ∷ []) mapped_irqs regs
        ≡ map_rest n (i + 1) (first_at address ∷ []) mapped_irqs regs
  unfolding map_rest
  map_rest-skip n i mapped_irqs regs mapped = rw (mapped, map_rest) refl

  map_rest-set :
      (n i : ℕ) (mapped_irqs : ℕ → Bool) (regs : Registers)
      → mapped_irqs i ≡ false
      → apic_find_valid_ioapic i regs (first_at address ∷ []) ≡ some (first_at address)
      → map_rest (suc n) i (first_at address ∷ []) mapped_irqs regs
        ≡ map_rest n
            (i + 1)
            (first_at address ∷ [])
            mapped_irqs
            (apic_write_redirection_table (some (first_at address)) i (i + 32) regs).1
  unfolding map_rest redirect_gsi
  map_rest-set n i mapped_irqs regs free found =
      rw (free, found, map_rest)
        (ap
          (λ (v : ℕ).
            map_rest n (i + 1) (first_at address ∷ []) mapped_irqs
              (apic_write_redirection_table (some (first_at address)) i v regs).1)
          (redirect_entry-vector i))

  condition-free :
      (i j n : ℕ) (mapped_irqs : ℕ → Bool) (regs : Registers)
      → mapped_irqs i ≡ false
      → i < 16
      → j < 1048576
      → (if leb (i + 1) j && ltb j (i + 1 + n) && not (mapped_irqs j)
          then j + 32
          else apic_read_redirection_table
              (some (first_at address))
              j
              (apic_write_redirection_table (some (first_at address)) i (i + 32) regs).1)
        ≡ (if leb i j && ltb j (i + suc n) && not (mapped_irqs j)
            then j + 32
            else apic_read_redirection_table (some (first_at address)) j regs)
  condition-free i j n mapped_irqs regs free low small =
      let (own, others) =
        apic_read-write (first_at address) i (i + 32) regs (omega arith) (omega arith) (omega arith)
          (omega arith) in
      elim (Bool-cases (j == i)) [
        | inl same ↦
            let there : i ≡ j = ground arith in
            let before : leb (i + 1) j ≡ false = ground arith in
            let now : (leb i j && ltb j (i + suc n)) ≡ true = ground arith in
            let free' : mapped_irqs j ≡ false = subst (λ q. mapped_irqs q ≡ false) there free in
            rw (before, now, free')
              (subst
                (λ q.
                  apic_read_redirection_table (some (first_at address)) q
                    (apic_write_redirection_table (some (first_at address)) i (i + 32) regs).1
                  ≡ q + 32)
                there own)
        | inr other ↦
            let condition : (leb (i + 1) j && ltb j (i + 1 + n)) ≡ (leb i j && ltb j (i + suc n)) =
              ground arith in
            rw (condition, others j (ground arith) (omega arith) (omega arith) (omega arith)) refl
      ]

  -- The loop sets the entries of its numbers that are not mapped, and no other ones.
  map_rest-entry :
      (n i j : ℕ) (mapped_irqs : ℕ → Bool) (regs : Registers)
      → i + n ≤ 16
      → 15 ≤ apic_get_gsi_max (first_at address) regs
      → apic_get_gsi_max (first_at address) regs < 256
      → j < 1048576
      → apic_read_redirection_table
          (some (first_at address))
          j
          (map_rest n i (first_at address ∷ []) mapped_irqs regs)
        ≡ (if leb i j && ltb j (i + n) && not (mapped_irqs j)
            then j + 32
            else apic_read_redirection_table (some (first_at address)) j regs)
  unfolding map_rest
  map_rest-entry zero i j mapped_irqs regs inside large byte small =
      let outside : (leb i j && ltb j (i + zero)) ≡ false = ground arith in rw outside refl
  map_rest-entry (suc n) i j mapped_irqs regs inside large byte small =
      elim (Bool-cases (mapped_irqs i)) [
        | inl mapped ↦
            let same : (leb (i + 1) j && ltb j (i + 1 + n) && not (mapped_irqs j))
                ≡ (leb i j && ltb j (i + suc n) && not (mapped_irqs j)) =
              condition-mapped i j n mapped_irqs mapped in
            ap (apic_read_redirection_table (some (first_at address)) j)
              (map_rest-skip n i mapped_irqs regs mapped)
            ∙ map_rest-entry n (i + 1) j mapped_irqs regs (omega arith) large byte small
            ∙ ap
                (λ (b : Bool).
                  if b
                  then j + 32
                  else apic_read_redirection_table (some (first_at address)) j regs)
                same
        | inr free ↦
            let regs1 =
              (apic_write_redirection_table (some (first_at address)) i (i + 32) regs).1 in
            let found = find_only i regs (omega arith) large byte in
            let max : apic_get_gsi_max (first_at address) regs1
                ≡ apic_get_gsi_max (first_at address) regs =
              gsi_max-write i (i + 32) regs (omega arith) in
            ap (apic_read_redirection_table (some (first_at address)) j)
              (map_rest-set n i mapped_irqs regs free found)
            ∙ map_rest-entry n (i + 1) j mapped_irqs regs1 (omega arith) (omega arith) (omega arith)
                small
            ∙ condition-free i j n mapped_irqs regs free (omega arith) small
      ]

-- With one controller, whose numbers begin with 0 and go up to 15 at least, the last loop of
-- apic_configure sends each of the first 16 interrupts that no override has mapped to the vector 32 above
-- its number, and leaves every other entry below 2 ^ 20 as it was.
pub map_rest-vectors :
    (address j : ℕ) (mapped_irqs : ℕ → Bool) (regs : Registers)
    → 15 ≤ apic_get_gsi_max (first_at address) regs
    → apic_get_gsi_max (first_at address) regs < 256
    → j < 1048576
    → apic_read_redirection_table
        (some (first_at address))
        j
        (map_rest 16 0 (first_at address ∷ []) mapped_irqs regs)
      ≡ (if ltb j 16 && not (mapped_irqs j)
          then j + 32
          else apic_read_redirection_table (some (first_at address)) j regs)
map_rest-vectors address j mapped_irqs regs large byte small =
    let condition : (leb 0 j && ltb j (0 + 16)) ≡ ltb j 16 = ground arith in
    map_rest-entry address 16 0 j mapped_irqs regs (omega arith) large byte small
    ∙ rw condition refl
