-- ===== src/Stdio/Digits.antt =====
-- What _vprintf of src/klibc/stdio.c prints of a number: the digits that itoa has stored.
use just_kernel.Base.{
  ℕ, zero, suc, ◌+◌, ◌-◌, ◌<◌, ◌≡◌, refl, sym, subst, ap, ◌∙◌, false, some, List, [], ◌∷◌, ◌++◌,
  append-nil, append_assoc, ◌==◌, u32, arith,
}
use just_kernel.Klibc.Digits.{digit}
use just_kernel.Klibc.Printed.{IsPrinted}
use just_kernel.Stdio.{Printing, put, put_string}

-- The last `len` decimal digits of `n`, the high one first.
unfoldable pub numeral : (n len : ℕ) → List ℕ
numeral n zero = []
numeral n (suc len) = (digit n len + 48) ∷ numeral n len

-- The state with more output.
abbrev pub with_more : List ℕ → Printing → Printing
with_more out s = record s { printed = s.printed ++ out }

put_string-next :
    (fuel p c : ℕ) (s : Printing)
    → s.memory p ≡ c
    → 0 < c
    → p + 1 < 4294967296
    → put_string (suc fuel) p s ≡ put_string fuel (p + 1) (put c s)
unfolding put_string
put_string-next fuel p c s char positive fits =
    let more : (c == 0) ≡ false = ground arith in
    let next : u32 (p + 1) ≡ p + 1 = omega arith in rw (char, more, next, put_string) refl

put_string-end : (fuel p : ℕ) (s : Printing) → s.memory p ≡ 0 → put_string (suc fuel) p s ≡ some s
unfolding put_string
put_string-end fuel p s end = rw end refl

pub put-with_more :
    (c : ℕ) (out : List ℕ) (s : Printing) → with_more out (put c s) ≡ with_more (c ∷ out) s
put-with_more c out s =
    ap (λ (o : List ℕ). record s { printed = o }) (append_assoc s.printed (c ∷ []) out)

-- The loop over a string on the digits that are left, `j` of them.
pub put_string-numeral :
    (fuel j k : ℕ) (s : Printing) (str n len : ℕ)
    → IsPrinted s.memory str n len
    → k + j ≡ len
    → j < fuel
    → str + len < 4294967295
    → put_string fuel (str + k) s ≡ some (with_more (numeral n j) s)
unfolding numeral
put_string-numeral zero j k s str n len printed left enough fits = absurd (omega arith)
put_string-numeral (suc fuel) zero k s str n len printed left enough fits =
    let at : str + len ≡ str + k = omega arith in
    let none_more : with_more [] s ≡ s =
      ap (λ (o : List ℕ). record s { printed = o }) (append-nil s.printed) in
    put_string-end fuel (str + k) s (subst (λ q. s.memory q ≡ 0) at printed.end)
    ∙ ap some (sym none_more)
put_string-numeral (suc fuel) (suc j) k s str n len printed left enough fits =
    let place : len - 1 - k ≡ j = omega arith in
    let char : s.memory (str + k) ≡ digit n j + 48 =
      subst (λ q. s.memory (str + k) ≡ digit n q + 48) place (printed.digits k (omega arith)) in
    let next : str + k + 1 ≡ str + (k + 1) = omega arith in
    let rest =
      put_string-numeral fuel j (k + 1) (put (digit n j + 48) s) str n len printed (omega arith)
        (omega arith) fits in
    put_string-next fuel (str + k) (digit n j + 48) s char (omega arith) (omega arith)
    ∙ rw next rest
    ∙ ap some (put-with_more (digit n j + 48) (numeral n j) s)
