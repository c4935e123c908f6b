-- ===== src/V86/Decode.antt =====
-- The loop of v86_monitor, src/proc/v86.c: it ends with the first byte that is no prefix.
use just_kernel.Base.{
  ℕ, zero, suc, ◌+◌, ◌<◌, ◌≡◌, refl, ap, sym, ◌∙◌, Bool, true, false, ◌||◌, ◌==◌, if◌then◌else◌,
  arith, u16, ◌/◌, ◌*◌,
}
use just_kernel.V86.{
  Cpu, fp_to_linear, next_ip, v86_get_ip_byte, v86_execute, v86_loop, v86_monitor,
}

abbrev pub is_prefix : ℕ → Bool
is_prefix instr = (instr == 0x66) || (instr == 0x67)

-- The state after `k` bytes were fetched, and the byte that comes next.
unfoldable pub fetched : ℕ → Cpu → Cpu
fetched zero s = s
fetched (suc k) s = fetched k (v86_get_ip_byte s).1

abbrev pub instr_at : ℕ → Cpu → ℕ
instr_at k s = (v86_get_ip_byte (fetched k s)).0

-- The `k`-th byte from `cs:ip` on, where `ip` wraps around at 16 bits.
abbrev pub code_byte : ℕ → Cpu → ℕ
code_byte k s = s.memory (fp_to_linear s.cs (s.eip + k))

instr_at-code_byte : (k : ℕ) (s : Cpu) → instr_at k s ≡ code_byte k s
unfolding fetched v86_get_ip_byte
instr_at-code_byte zero s =
    let same : fp_to_linear s.cs s.eip ≡ fp_to_linear s.cs (s.eip + 0) = omega arith in
    ap s.memory same
instr_at-code_byte (suc k) s =
    let same : fp_to_linear s.cs (next_ip s.eip + k) ≡ fp_to_linear s.cs (s.eip + suc k) =
      omega arith in
    instr_at-code_byte k (record s { eip = next_ip s.eip }) ∙ ap s.memory same

-- Whether an operand prefix is among the first `k` bytes.
abbrev pub has_o32 : (k : ℕ) → Cpu → Bool
has_o32 zero s = false
has_o32 (suc k) s = has_o32 k s || (code_byte k s == 0x66)

-- `ip` behind `k` bytes, in the low half of `eip`.
abbrev pub after_bytes : ℕ → Cpu → Cpu
after_bytes k s = record s { eip = s.eip / 65536 * 65536 + u16 (s.eip + k) }

-- The same, as the loop meets it.
o32_after : (before : Bool) (k : ℕ) → Cpu → Bool
o32_after before zero s = before
o32_after before (suc k) s =
    o32_after (if instr_at 0 s == 0x66 then true else before) k (v86_get_ip_byte s).1

o32_after-snoc :
    (before : Bool) (k : ℕ) (s : Cpu)
    → o32_after before (suc k) s ≡ (o32_after before k s || (instr_at k s == 0x66))
unfolding o32_after fetched
o32_after-snoc before zero s = ground arith
o32_after-snoc before (suc k) s =
    o32_after-snoc (if instr_at 0 s == 0x66 then true else before) k (v86_get_ip_byte s).1

o32_after-has_o32 : (k : ℕ) (s : Cpu) → o32_after false k s ≡ has_o32 k s
unfolding o32_after
o32_after-has_o32 zero s = refl
o32_after-has_o32 (suc k) s =
    o32_after-snoc false k s ∙ rw (o32_after-has_o32 k s, instr_at-code_byte k s)

fetched-after_bytes : (k : ℕ) (s : Cpu) → fetched k s ≡ after_bytes k s
unfolding fetched v86_get_ip_byte
fetched-after_bytes zero s =
    let same : s.eip / 65536 * 65536 + u16 (s.eip + 0) ≡ s.eip = omega arith in
    ap (λ e. record s { eip = e }) (sym same)
fetched-after_bytes (suc k) s =
    let same : next_ip s.eip / 65536 * 65536 + u16 (next_ip s.eip + k)
        ≡ s.eip / 65536 * 65536 + u16 (s.eip + suc k) =
      omega arith in
    fetched-after_bytes k (record s { eip = next_ip s.eip }) ∙ ap (λ e. record s { eip = e }) same

module _ (exit_stub exit_handler : ℕ) where
  v86_loop-execute :
      (k fuel : ℕ) (before : Bool) (s : Cpu)
      → ((i : ℕ) → i < k → is_prefix (instr_at i s) ≡ true)
      → is_prefix (instr_at k s) ≡ false
      → k < fuel
      → v86_loop exit_stub exit_handler fuel before s
        ≡ v86_execute exit_stub exit_handler
            (instr_at k s)
            (o32_after before k s)
            (fetched (suc k) s)
  unfolding v86_loop o32_after fetched
  v86_loop-execute k zero before s prefixes last enough = absurd (omega arith)
  v86_loop-execute zero (suc fuel) before s prefixes last enough = ground (arith, last)
  v86_loop-execute (suc k) (suc fuel) before s prefixes last enough =
      let s1 = (v86_get_ip_byte s).1 in
      let first = prefixes zero (omega arith) in
      let rest = λ (b : Bool).
        v86_loop-execute k fuel b s1 (λ i h. prefixes (suc i) (omega arith)) last (omega arith) in
      ground (arith, first, rest true, rest before)

  -- The monitor ends with the first byte from cs:ip on that is no prefix, if it has fuel for that byte
  -- and the `k` prefixes before it: it executes the instruction with an operand size of 32 bits exactly
  -- if one of the prefixes is 0x66, and behind all the bytes that it read.
  pub v86_monitor-execute :
      (k fuel : ℕ) (s : Cpu)
      → ((i : ℕ) → i < k → is_prefix (code_byte i s) ≡ true)
      → is_prefix (code_byte k s) ≡ false
      → k < fuel
      → v86_monitor exit_stub exit_handler fuel s
        ≡ v86_execute exit_stub exit_handler (code_byte k s) (has_o32 k s) (after_bytes (suc k) s)
  unfolding v86_monitor
  v86_monitor-execute k fuel s prefixes last enough =
      let byte = instr_at-code_byte in
      let run =
        v86_loop-execute k fuel false s (λ i h. rw (byte i s) (prefixes i h)) (rw (byte k s) last)
          enough in
      rw (byte k s, o32_after-has_o32 k s, fetched-after_bytes (suc k) s) at run
