-- ===== src/Klibc/Turned.antt =====
-- Turning the bytes of a number round: the last loops of reverse and of _vtoa in src/klibc/string.c.
use just_kernel.Base.{
  ℕ, zero, suc, ◌+◌, ◌-◌, ◌≤◌, ◌<◌, ◌≡◌, refl, ap, ◌∙◌, inl, inr, true, false, ◌&&◌, some, ltb, leb,
  ◌==◌, if◌then◌else◌, Bool-cases, u32, sub32, arith,
}
use just_kernel.Klibc.{Memory}
use just_kernel.Klibc.Numbers.{swap, reverse_loop, vtoa_reverse}

-- Where a byte between `p` and `q` comes from when the bytes are turned round.
abbrev pub turned : (p q x : ℕ) → ℕ
turned p q x = if leb p x && leb x q then p + (q - x) else x

vtoa_reverse-stop :
    (rounds p q : ℕ) (mem : Memory) → q ≤ p → vtoa_reverse (suc rounds) p q mem ≡ some mem
unfolding vtoa_reverse
vtoa_reverse-stop rounds p q mem stop = let test : ltb p q ≡ false = ground arith in rw test refl

vtoa_reverse-next :
    (rounds p q : ℕ) (mem : Memory)
    → p < q
    → q < 4294967296
    → vtoa_reverse (suc rounds) p q mem ≡ vtoa_reverse rounds (p + 1) (q - 1) (swap p q mem)
unfolding vtoa_reverse
vtoa_reverse-next rounds p q mem more fits =
    let test : ltb p q ≡ true = ground arith in
    let up : u32 (p + 1) ≡ p + 1 = omega arith in
    let down : sub32 q 1 ≡ q - 1 = omega arith in rw (test, up, down, vtoa_reverse) refl

swap-turned :
    (p q x : ℕ) (mem : Memory)
    → p < q
    → swap p q mem (turned (p + 1) (q - 1) x) ≡ mem (turned p q x)
swap-turned p q x mem more = elim (Bool-cases (x == p)) [
  | inl first ↦
      let from : turned (p + 1) (q - 1) x ≡ p = ground arith in
      let to : turned p q x ≡ q = ground arith in rw (from, to) (ground arith)
  | inr behind ↦ elim (Bool-cases (x == q)) [
    | inl last ↦
        let from : turned (p + 1) (q - 1) x ≡ q = ground arith in
        let to : turned p q x ≡ p = ground arith in rw (from, to) (ground arith)
    | inr before ↦
        let same : turned (p + 1) (q - 1) x ≡ turned p q x = ground arith in
        let not_last : (turned p q x == q) ≡ false = ground arith in
        let not_first : (turned p q x == p) ≡ false = ground arith in
        rw (same, not_last, not_first) refl
  ]
]

-- Turning round ends, with enough rounds.
pub vtoa_reverse-turned :
    (rounds p q : ℕ) (mem : Memory)
    → q < p + rounds
    → 0 < rounds
    → q < 4294967296
    → (mem' : Memory) × (vtoa_reverse rounds p q mem ≡ some mem')
      × ((x : ℕ) → mem' x ≡ mem (turned p q x))
vtoa_reverse-turned zero p q mem enough positive fits = absurd (omega arith)
vtoa_reverse-turned (suc rounds) p q mem enough positive fits = elim (Bool-cases (ltb p q)) [
  | inr stop ↦ (mem, vtoa_reverse-stop rounds p q mem (ground arith), λ x. ap mem (ground arith))
  | inl more ↦
      let (mem', ran, same) =
        vtoa_reverse-turned rounds (p + 1) (q - 1) (swap p q mem) (ground arith) (ground arith)
          (omega arith) in
      (
        mem',
        vtoa_reverse-next rounds p q mem (ground arith) fits ∙ ran,
        λ x. same x ∙ swap-turned p q x mem (ground arith),
      )
]

-- reverse does the same by indexes.
pub reverse_loop-vtoa_reverse :
    (fuel str s e : ℕ) (mem : Memory)
    → s ≤ e + 1
    → str + e + 1 < 4294967295
    → reverse_loop fuel str s e mem ≡ vtoa_reverse fuel (str + s) (str + e) mem
unfolding reverse_loop vtoa_reverse
reverse_loop-vtoa_reverse zero str s e mem order fits = refl
reverse_loop-vtoa_reverse (suc fuel) str s e mem order fits =
    let at_s : u32 (str + s) ≡ str + s = omega arith in
    let at_e : u32 (str + e) ≡ str + e = omega arith in
    elim (Bool-cases (ltb s e)) [
      | inr stop ↦
          let stop' : ltb (str + s) (str + e) ≡ false = ground arith in rw (stop, stop') refl
      | inl more ↦
          let more' : ltb (str + s) (str + e) ≡ true = ground arith in
          let up : u32 (s + 1) ≡ s + 1 = ground arith in
          let down : sub32 e 1 ≡ e - 1 = ground arith in
          let up' : u32 (str + s + 1) ≡ str + (s + 1) = ground arith in
          let down' : sub32 (str + e) 1 ≡ str + (e - 1) = ground arith in
          rw (more, more', up, down, up', down', at_s, at_e)
            (reverse_loop-vtoa_reverse fuel str (s + 1) (e - 1) (swap (str + s) (str + e) mem)
              (ground arith) (omega arith))
    ]
