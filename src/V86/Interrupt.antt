-- ===== src/V86/Interrupt.antt =====
-- Interrupts of the program, src/proc/v86.c: what INT pushes, IRET takes back.
use just_kernel.Base.{
  ℕ, ◌+◌, ◌*◌, ◌-◌, ◌%◌, ◌≤◌, ◌<◌, ◌≡◌, refl, ap, sym, subst, ◌∙◌, ◌⊎◌, inr, false, u16, arith,
}
use just_kernel.V86.{
  Cpu, fp_to_linear, read16, read32, write16, write32, v86_push, v86_pop, virtual_flags,
  stack_below, v86_vector, v86_int, v86_iret, set_flags,
}
use just_kernel.V86.Stack.{read16-write16, read32-write32, test_if-virtual_flags}

-- Writes elsewhere.
read16-write32 :
    (a b value : ℕ) (memory : ℕ → ℕ)
    → (a + 2 ≤ b) ⊎ (b + 4 ≤ a)
    → read16 a (write32 b value memory) ≡ read16 a memory
read16-write32 a b value memory apart = ground arith

read16-write16_apart :
    (a b value : ℕ) (memory : ℕ → ℕ)
    → (a + 2 ≤ b) ⊎ (b + 2 ≤ a)
    → read16 a (write16 b value memory) ≡ read16 a memory
read16-write16_apart a b value memory apart = ground arith

-- Reads of memories that agree from an address on.
read16-same : (a : ℕ) (m m' : ℕ → ℕ) → ((x : ℕ) → a ≤ x → m x ≡ m' x) → read16 a m ≡ read16 a m'
read16-same a m m' same = omega (arith, same a (omega arith), same (a + 1) (omega arith))

read32-same : (a : ℕ) (m m' : ℕ → ℕ) → ((x : ℕ) → a ≤ x → m x ≡ m' x) → read32 a m ≡ read32 a m'
read32-same a m m' same =
    omega (arith, read16-same a m m' same, read16-same (a + 2) m m' (λ x h. same x (omega arith)))

-- The three values that INT leaves on the stack, and the memory with them.
module _ (s : Cpu) (room : 8 ≤ s.user_esp) (small : s.user_esp < 65536) where
  abbrev base : ℕ
  base = u16 s.user_ss * 16 + s.user_esp

  abbrev with_flags : ℕ → ℕ
  with_flags = write16 (base - 2) (virtual_flags s) s.memory

  abbrev with_cs : ℕ → ℕ
  with_cs = write16 (base - 4) s.cs with_flags

  abbrev frame : ℕ → ℕ
  frame = write32 (base - 8) s.eip with_cs

  frame_eip : read32 (base - 8) frame ≡ s.eip % 4294967296
  frame_eip = read32-write32 (base - 8) s.eip with_cs

  frame_cs : read16 (base - 4) frame ≡ s.cs % 65536
  frame_cs =
      read16-write32 (base - 4) (base - 8) s.eip with_cs (inr (omega arith))
      ∙ read16-write16 (base - 4) s.cs with_flags

  frame_flags : read16 (base - 2) frame ≡ virtual_flags s % 65536
  frame_flags =
      read16-write32 (base - 2) (base - 8) s.eip with_cs (inr (omega arith))
      ∙ read16-write16_apart (base - 2) (base - 4) s.cs with_flags (inr (omega arith))
      ∙ read16-write16 (base - 2) (virtual_flags s) s.memory

  -- The state that INT leaves.
  pushed :
      (int_num : ℕ)
      → v86_int int_num s
        ≡ v86_vector int_num (record s { user_esp = s.user_esp - 8; memory = frame })
  unfolding v86_int v86_push
  pushed int_num =
      let s1 = v86_push (virtual_flags s) false s in
      let s2 = v86_push s.cs false s1 in
      let a1 : fp_to_linear s.user_ss (stack_below 2 s) ≡ base - 2 = omega arith in
      let a2 : fp_to_linear s.user_ss (stack_below 2 s1) ≡ base - 4 = omega arith in
      let a3 : fp_to_linear s.user_ss (stack_below 4 s2) ≡ base - 8 = omega arith in
      let e : stack_below 4 s2 ≡ s.user_esp - 8 = omega arith in
      λ i. v86_vector int_num (record s {
        user_esp = e i;
        memory =
            write32 (a3 i) s.eip (write16 (a2 i) s.cs (write16 (a1 i) (virtual_flags s) s.memory));
      })

  -- IRET from a state of the handler in which the frame is on top of the stack.
  module _ (h : Cpu) (same_ss : h.user_ss ≡ s.user_ss) (same_sp : h.user_esp ≡ s.user_esp - 8)
      (same_eip : read32 (base - 8) h.memory ≡ s.eip % 4294967296)
      (same_cs : read16 (base - 4) h.memory ≡ s.cs % 65536)
      (same_flags : read16 (base - 2) h.memory ≡ virtual_flags s % 65536) where
    popped :
        v86_iret h
        ≡ set_flags
            (virtual_flags s % 65536)
            (record h { eip = s.eip % 4294967296; cs = s.cs % 65536; user_esp = s.user_esp })
    unfolding v86_iret v86_pop
    popped =
        let a1 : fp_to_linear h.user_ss (u16 h.user_esp) ≡ base - 8 = omega arith in
        let a2 : fp_to_linear h.user_ss (u16 (u16 (u16 h.user_esp + 4))) ≡ base - 4 = omega arith in
        let a3 : fp_to_linear h.user_ss (u16 (u16 (u16 (u16 (u16 h.user_esp + 4)) + 2)))
            ≡ base - 2 =
          omega arith in
        let sp : u16 (u16 (u16 (u16 (u16 (u16 h.user_esp + 4)) + 2)) + 2) ≡ s.user_esp =
          omega arith in
        let eip = ap (λ a. read32 a h.memory) a1 ∙ same_eip in
        let cs = ap (λ a. read16 a h.memory) a2 ∙ same_cs in
        let flags = ap (λ a. read16 a h.memory) a3 ∙ same_flags in
        λ i. set_flags (flags i) (record h { eip = eip i; cs = cs i; user_esp = sp i })

-- The parts of a program's state that an interrupt must not change.
pub record Resumes (s s' : Cpu) : Type 0 where
  pub eip : s'.eip ≡ s.eip
  pub cs : s'.cs ≡ s.cs
  pub user_ss : s'.user_ss ≡ s.user_ss
  pub user_esp : s'.user_esp ≡ s.user_esp
  pub v86_if : s'.v86_if ≡ s.v86_if

-- The handler has run: what it left of the stack pointer, the stack segment and the frame.
pub record IsReturned (s h : Cpu) : Type 0 where
  pub user_ss : h.user_ss ≡ s.user_ss
  pub user_esp : h.user_esp ≡ s.user_esp
  pub frame : (x : ℕ) → u16 s.user_ss * 16 + s.user_esp ≤ x → h.memory x ≡ s.memory x

-- An IRET takes the program back to where an INT left it, with its stack pointer and its virtual
-- interrupt flag, whatever the handler did in between that kept the stack from its pointer on. The
-- program has eight bytes of stack below a 16-bit stack pointer, a 16-bit code segment and a 32-bit
-- instruction pointer.
pub v86_iret-int :
    (int_num : ℕ) (s h : Cpu)
    → 8 ≤ s.user_esp
    → s.user_esp < 65536
    → s.cs < 65536
    → s.eip < 4294967296
    → IsReturned (v86_int int_num s) h
    → Resumes s (v86_iret h)
unfolding v86_vector
v86_iret-int int_num s h room small cs_small eip_small back =
    let left : Cpu = record s { user_esp = s.user_esp - 8; memory = frame s room small } in
    let back' = subst (λ r. IsReturned r h) (pushed s room small int_num) back in
    let kept = back'.frame in
    let low = base s room small - 8 in
    let kept_from : (a : ℕ) → low ≤ a → (x : ℕ) → a ≤ x → h.memory x ≡ frame s room small x =
      λ a above x h. kept x (omega arith) in
    let run =
      popped s room small h back'.user_ss back'.user_esp
        (read32-same low h.memory _ (kept_from low (omega arith)) ∙ frame_eip s room small)
        (read16-same (base s room small - 4) h.memory _ (kept_from _ (omega arith))
          ∙ frame_cs s room small)
        (read16-same (base s room small - 2) h.memory _ (kept_from _ (omega arith))
          ∙ frame_flags s room small) in
    subst (Resumes s) (sym run) (record {
      eip = omega arith;
      cs = omega arith;
      user_ss = back'.user_ss;
      user_esp = refl;
      v86_if = test_if-virtual_flags false s;
    })
