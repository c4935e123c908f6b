-- ===== src/Screen/Modes.antt =====
-- The list of video modes of src/drivers/vesa.c: the search for a mode, and the choice of the best one.
use just_kernel.Base.{
  ℕ, ◌≡◌, refl, ◌⊎◌, inl, inr, Bool, true, false, ◌&&◌, ◌||◌, Option, none, some, List, [], ◌∷◌,
  ltb, ◌==◌, if◌then◌else◌, Bool-cases, arith,
}
use just_kernel.Screen.{VideoMode}

unfoldable pub vesa_find_mode : (width height bpp : ℕ) → List VideoMode → Option VideoMode
vesa_find_mode width height bpp [] = none
vesa_find_mode width height bpp (m ∷ ms) =
    let rest = vesa_find_mode width height bpp ms in
    if (m.width == width) && (m.height == height) && (m.bpp == bpp) then some m else rest

-- `mode` is wider than `best`, or as wide and higher, or as large and deeper.
abbrev pub is_better : (mode best : VideoMode) → Bool
is_better mode best =
    ltb best.width mode.width
    || ((mode.width == best.width) && ltb best.height mode.height)
    || ((mode.width == best.width) && (mode.height == best.height) && ltb best.bpp mode.bpp)

unfoldable pub best_loop : List VideoMode → (best : VideoMode) → VideoMode
best_loop [] best = best
best_loop (m ∷ ms) best = best_loop ms (if is_better m best then m else best)

-- The mode that vesa_switch_to_best_mode sets, none if there is no mode.
unfoldable pub best_mode : List VideoMode → Option VideoMode
best_mode [] = none
best_mode (m ∷ ms) = some (best_loop (m ∷ ms) m)

-- Each mode of the list is no better than this one.
abbrev pub NoneBetter : List VideoMode → VideoMode → Type 0
NoneBetter [] best = Unit
NoneBetter (m ∷ ms) best = (is_better m best ≡ false) × NoneBetter ms best

-- The mode is on the list.
abbrev pub Listed : VideoMode → List VideoMode → Type 0
Listed m [] = ⊥
Listed m (n ∷ ns) = (m ≡ n) ⊎ Listed m ns

keeps_better :
    (m a b : VideoMode) → is_better m a ≡ false → is_better a b ≡ false → is_better m b ≡ false
keeps_better m a b ma ab = ground arith

-- A mode that is the start or on the list, while neither the start nor a mode of the list is better.
record IsBest (ms : List VideoMode) (start best : VideoMode) : Type 0 where
  from : (best ≡ start) ⊎ Listed best ms
  over : is_better start best ≡ false
  none_better : NoneBetter ms best

taken-IsBest :
    (m start best : VideoMode) (ms : List VideoMode)
    → is_better m start ≡ true
    → IsBest ms m best
    → IsBest (m ∷ ms) start best
taken-IsBest m start best ms better result = record {
  from = elim result.from [ inl same ↦ inr (inl same) | inr later ↦ inr (inr later) ];
  over = keeps_better start m best (ground arith) result.over;
  none_better = (result.over, result.none_better);
}

kept-IsBest :
    (m start best : VideoMode) (ms : List VideoMode)
    → is_better m start ≡ false
    → IsBest ms start best
    → IsBest (m ∷ ms) start best
kept-IsBest m start best ms worse result = record {
  from = elim result.from [ inl same ↦ inl same | inr later ↦ inr (inr later) ];
  over = result.over;
  none_better = (keeps_better m start best worse result.over, result.none_better);
}

best_loop-IsBest : (ms : List VideoMode) (start : VideoMode) → IsBest ms start (best_loop ms start)
unfolding best_loop
best_loop-IsBest [] start = record { from = inl refl; over = ground arith; none_better = tt }
best_loop-IsBest (m ∷ ms) start = elim (Bool-cases (is_better m start)) [
  | inl better ↦ rw better (taken-IsBest m start (best_loop ms m) ms better (best_loop-IsBest ms m))
  | inr worse ↦
      rw worse (kept-IsBest m start (best_loop ms start) ms worse (best_loop-IsBest ms start))
]

-- From a list with a mode, vesa_switch_to_best_mode takes a mode of the list, and no mode of the list
-- is wider, or as wide and higher, or as large and deeper.
pub best_mode-best :
    (m : VideoMode) (ms : List VideoMode)
    → (best : VideoMode) × (best_mode (m ∷ ms) ≡ some best)
      × Listed best (m ∷ ms)
      × NoneBetter (m ∷ ms) best
unfolding best_mode
best_mode-best m ms =
    let result = best_loop-IsBest (m ∷ ms) m in
    (
      best_loop (m ∷ ms) m,
      refl,
      elim result.from [ inl same ↦ inl same | inr listed ↦ listed ],
      result.none_better,
    )
