-- ===== src/Screen/Tests.antt =====
-- The theorems on the screen at the usual text mode of 80 columns and 25 rows.
use just_kernel.Base.{◌≡◌, refl, some, [], ◌∷◌, arith}
use just_kernel.Screen.{VideoMode, Font, Screen, text, screen_puts}
use just_kernel.Screen.Frame.{IsTextMode}
use just_kernel.Screen.Modes.{best_mode, Listed, NoneBetter, best_mode-best}
use just_kernel.Screen.Place.{IsShown}
use just_kernel.Screen.Cursor.{Shown, screen_puts-Shown}

abbrev mode : VideoMode
mode = record {
  fb = 0xB8000;
  fb_type = text;
  fb_size = 4000;
  width = 80;
  height = 25;
  pitch = 160;
  bpp = 16;
  r_mask = 0;
  r_pos = 0;
  g_mask = 0;
  g_pos = 0;
  b_mask = 0;
  b_pos = 0;
  a_mask = 0;
  a_pos = 0;
}

abbrev font : Font
font = record { width = 8; height = 8; data_at = λ i. 0 }

abbrev screen : Screen
screen = record { x = 79; y = 23; memory = λ a. 0; ports = [] }

mode-IsTextMode : IsTextMode mode
mode-IsTextMode = record {
  is_text = refl;
  depth = refl;
  cells = omega arith;
  even = refl;
  rows = refl;
  fits = omega arith;
  wide = omega arith;
  high = omega arith;
}

screen-IsShown : IsShown mode screen
screen-IsShown = record { column = omega arith; row = omega arith }

-- A letter in the last column of the row above the last one, and a new line.
screen_puts-Shown_example :
    (s : Screen) × (screen_puts mode font (65 ∷ 10 ∷ []) screen ≡ some s) × Shown mode screen s
screen_puts-Shown_example =
    screen_puts-Shown mode font (65 ∷ 10 ∷ []) screen mode-IsTextMode (omega arith) (omega arith)
      screen-IsShown

best_mode-best_example :
    (best : VideoMode) × (best_mode (mode ∷ record mode { width = 132 } ∷ []) ≡ some best)
    × Listed best (mode ∷ record mode { width = 132 } ∷ [])
    × NoneBetter (mode ∷ record mode { width = 132 } ∷ []) best
best_mode-best_example = best_mode-best mode (record mode { width = 132 } ∷ [])
