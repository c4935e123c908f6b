-- ===== src/Tables/Gates.antt =====
-- The gates of src/int/idt.c.
use just_kernel.Base.{
  ℕ, zero, suc, ◌+◌, ◌*◌, ◌/◌, ◌≤◌, ◌<◌, ◌≡◌, refl, ◌==◌, arith, sym, subst, Bool-cases, inl, inr,
  ◌⊎◌,
}
use just_kernel.Tables.{IdtEntry, kernel_code, gate_flags, idt_set_gate, set_gates, idt_init}
use just_kernel.Tables.Fields.{low_16}

-- A present 32-bit interrupt gate of the kernel's code segment that ring 3 may call.
pub record IsGate (entry_point : ℕ) (e : IdtEntry) : Type 0 where
  pub at : e.base_low + e.base_high * 65536 ≡ entry_point
  pub segment : e.sel ≡ kernel_code
  pub zeros : e.always0 ≡ 0
  pub bits : e.flags ≡ 0xEE

idt_set_gate-IsGate :
    (num base : ℕ) (entries : ℕ → IdtEntry)
    → num < 256
    → base < 4294967296
    → IsGate base (idt_set_gate num base kernel_code gate_flags entries num)
unfolding idt_set_gate
idt_set_gate-IsGate num base entries small fits = record {
  at = ground (arith, low_16 base, low_16 (base / 65536));
  segment = ground arith;
  zeros = ground arith;
  bits = ground arith;
}

-- Gates outside of the range are left alone.
set_gates-others :
    (isr : ℕ → ℕ) (count num i : ℕ) (entries : ℕ → IdtEntry)
    → num + count ≤ 256
    → (i < num) ⊎ (num + count ≤ i)
    → set_gates isr count num entries i ≡ entries i
unfolding set_gates idt_set_gate
set_gates-others isr zero num i entries fits out = refl
set_gates-others isr (suc count) num i entries fits out = ground (
  arith,
  set_gates-others isr count (num + 1) i
      (idt_set_gate num (isr num) kernel_code gate_flags entries),
)

set_gates-IsGate :
    (isr : ℕ → ℕ) (count num i : ℕ) (entries : ℕ → IdtEntry)
    → num + count ≤ 256
    → isr i < 4294967296
    → num ≤ i
    → i < num + count
    → IsGate (isr i) (set_gates isr count num entries i)
unfolding set_gates
set_gates-IsGate isr zero num i entries fits small from below = absurd (omega arith)
set_gates-IsGate isr (suc count) num i entries fits small from below =
    elim (Bool-cases (num == i)) [
      | inl here ↦
          let same : num ≡ i = ground arith in
          let entries' = idt_set_gate num (isr num) kernel_code gate_flags entries in
          let others =
            set_gates-others isr count (num + 1) num entries' (omega arith) (inl (omega arith)) in
          subst (λ j. IsGate (isr j) (set_gates isr count (num + 1) entries' j)) same
            (subst (IsGate (isr num)) (sym others) (
              idt_set_gate-IsGate num (isr num) entries (omega arith)
                (subst (λ j. isr j < 4294967296) (sym same) small)))
      | inr later ↦
          set_gates-IsGate isr count (num + 1) i _ (omega arith) small (ground arith) (omega arith)
    ]

-- After idt_init each of the 256 gates is a present interrupt gate of the kernel's code segment, which
-- ring 3 may call, and leads to the assembly entry point of its number, if this has a 32-bit address.
pub idt_init-IsGate :
    (isr : ℕ → ℕ) (entries : ℕ → IdtEntry) (i : ℕ)
    → i < 256
    → isr i < 4294967296
    → IsGate (isr i) (idt_init isr entries i)
unfolding idt_init
idt_init-IsGate isr entries i small fits =
    set_gates-IsGate isr 256 0 i entries (omega arith) fits (omega arith) small
