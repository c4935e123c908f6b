-- ===== src/Screen/Cursor.antt =====
-- The cursor of src/drivers/early_screen.c in a text mode.
use just_kernel.Base.{
  ℕ, ◌+◌, ◌*◌, ◌-◌, ◌/◌, ◌≤◌, ◌<◌, ◌≡◌, refl, ap, ◌∙◌, inl, inr, false, Option, none, some, List,
  [], ◌∷◌, ltb, Bool-cases, u8, u16, sub32, arith,
}
use just_kernel.Klibc.{Memory}
use just_kernel.Screen.{
  VideoMode, Font, Screen, vesa_scroll, background, symbol_height, screen_move_cursor,
  screen_scroll, put_char, wrap_line, screen_putc, screen_puts,
}
use just_kernel.Screen.Frame.{IsTextMode, Keeps, vesa_scroll-Keeps}
use just_kernel.Screen.Place.{IsShown, Placed, put_char-Placed}

-- The cursor is on the screen, perhaps in the last row.
record Ready (mode : VideoMode) (s s' : Screen) : Type 0 where
  column : s'.x < mode.width
  row : s'.y < mode.height
  kept : Keeps mode s.memory s'.memory

wrap_line-Ready :
    (mode : VideoMode) (font : Font) (s s' : Screen)
    → IsTextMode mode
    → mode.height < 65536
    → Placed mode s s'
    → Ready mode s (wrap_line mode font s')
unfolding wrap_line
wrap_line-Ready mode font s s' m small placed =
    let is_text = m.is_text in
    let row = placed.row in
    let height : symbol_height mode font ≡ 1 = rw is_text refl in
    elim (Bool-cases (ltb s'.x mode.width)) [
      | inl within ↦ rw within (record { column = ground arith; row = row; kept = placed.kept })
      | inr over ↦
          let room = placed.wrapped (ground arith) in
          rw (over, height) (record { column = m.wide; row = omega arith; kept = placed.kept })
    ]

-- What a character leaves: the cursor on the screen, and all memory outside the frame buffer as it was.
pub record Shown (mode : VideoMode) (s s' : Screen) : Type 0 where
  pub shown : IsShown mode s'
  pub kept : Keeps mode s.memory s'.memory

screen_scroll-ran :
    (mode : VideoMode) (font : Font) (s : Screen) (mem : Memory)
    → IsTextMode mode
    → ltb s.y (mode.height - 1) ≡ false
    → s.y < mode.height
    → mode.height < 65536
    → vesa_scroll mode 1 (background mode) s.memory ≡ some mem
    → screen_scroll mode font s ≡ some (record s { memory = mem; y = s.y - 1 })
unfolding screen_scroll
screen_scroll-ran mode font s mem m at_last row small ran =
    let is_text = m.is_text in
    let high = m.high in
    let height : symbol_height mode font ≡ 1 = rw is_text refl in
    let last : sub32 mode.height 1 ≡ mode.height - 1 = omega arith in
    let up : sub32 s.y 1 ≡ s.y - 1 = ground arith in
    rw (height, last, at_last, ran) (rw (height, up) refl)

screen_scroll-Shown :
    (mode : VideoMode) (font : Font) (s s' : Screen)
    → IsTextMode mode
    → mode.height < 65536
    → Ready mode s s'
    → (after : Screen) × (screen_scroll mode font s' ≡ some after) × Shown mode s after
unfolding screen_scroll
screen_scroll-Shown mode font s s' m small ready =
    let is_text = m.is_text in
    let high = m.high in
    let row = ready.row in
    let height : symbol_height mode font ≡ 1 = rw is_text refl in
    let last : sub32 mode.height 1 ≡ mode.height - 1 = omega arith in
    elim (Bool-cases (ltb s'.y (mode.height - 1))) [
      | inl above ↦ (
        s',
        rw (height, last, above) refl,
        record { shown = record { column = ready.column; row = ground arith }; kept = ready.kept },
      )
      | inr at_last ↦
          let (mem, ran, kept) = vesa_scroll-Keeps mode (background mode) s'.memory m in
          (
            record s' { memory = mem; y = s'.y - 1 },
            screen_scroll-ran mode font s' mem m at_last row small ran,
            record {
              shown = record { column = ready.column; row = omega arith };
              kept = λ z outside. kept z outside ∙ ready.kept z outside;
            },
          )
    ]

move-Shown :
    (mode : VideoMode) (s s' : Screen)
    → IsTextMode mode
    → Shown mode s s'
    → Shown mode s (screen_move_cursor mode s')
unfolding screen_move_cursor
move-Shown mode s s' m done =
    let is_text = m.is_text in
    let x : (screen_move_cursor mode s').x ≡ s'.x = rw is_text refl in
    let y : (screen_move_cursor mode s').y ≡ s'.y = rw is_text refl in
    let memory : (screen_move_cursor mode s').memory ≡ s'.memory = rw is_text refl in
    record {
      shown = record { column = rw x done.shown.column; row = rw y done.shown.row };
      kept = rw memory done.kept;
    }

screen_putc-Shown :
    (mode : VideoMode) (font : Font) (c : ℕ) (s : Screen)
    → IsTextMode mode
    → mode.width < 65536
    → mode.height < 65536
    → IsShown mode s
    → (s' : Screen) × (screen_putc mode font c s ≡ some s') × Shown mode s s'
unfolding screen_putc
screen_putc-Shown mode font c s m small_width small_height shown =
    let placed = put_char-Placed mode font c s m shown small_width small_height in
    let ready = wrap_line-Ready mode font s (put_char mode font c s) m small_height placed in
    let (after, ran, done) =
      screen_scroll-Shown mode font s (wrap_line mode font (put_char mode font c s)) m small_height
        ready in
    (
      screen_move_cursor mode after,
      ap
          (λ (o : Option Screen). elim o [
            | none ↦ none
            | some s' ↦ some (screen_move_cursor mode s')
          ])
          ran,
      move-Shown mode s after m done,
    )

-- In a text mode whose frame buffer holds its rows, with the cursor on the screen above its last row,
-- screen_puts returns for every string and every font: the cursor is on the screen above the last row again, and
-- no byte outside the frame buffer has changed.
pub screen_puts-Shown :
    (mode : VideoMode) (font : Font) (cs : List ℕ) (s : Screen)
    → IsTextMode mode
    → mode.width < 65536
    → mode.height < 65536
    → IsShown mode s
    → (s' : Screen) × (screen_puts mode font cs s ≡ some s') × Shown mode s s'
unfolding screen_puts
screen_puts-Shown mode font [] s m small_width small_height shown =
    (s, refl, record { shown = shown; kept = λ z outside. refl })
screen_puts-Shown mode font (c ∷ cs) s m small_width small_height shown =
    let (next, ran, first) = screen_putc-Shown mode font c s m small_width small_height shown in
    let (after, rest, done) =
      screen_puts-Shown mode font cs next m small_width small_height first.shown in
    (
      after,
      ap (λ (o : Option Screen). elim o [ none ↦ none | some s' ↦ screen_puts mode font cs s' ]) ran
          ∙ rest,
      record { shown = done.shown; kept = λ z outside. done.kept z outside ∙ first.kept z outside },
    )

row_ends : (x y width height : ℕ) → x < width → y < height → y * width + x < width * height
row_ends x y width height left below = grind arith

-- In a text mode with at most 65536 cells, with the cursor on the screen above its last row, the two
-- bytes that screen_move_cursor sends to registers 14 and 15 make up the number of the cursor's cell,
-- counted row by row.
pub screen_move_cursor-location :
    (mode : VideoMode) (s : Screen)
    → IsTextMode mode
    → IsShown mode s
    → mode.width * mode.height ≤ 65536
    → (high : ℕ) × (low : ℕ) × ((screen_move_cursor mode s).ports
        ≡ (0x3D5, low) ∷ (0x3D4, 15) ∷ (0x3D5, high) ∷ (0x3D4, 14) ∷ s.ports)
      × (high < 256)
      × (low < 256)
      × (high * 256 + low ≡ s.y * mode.width + s.x)
unfolding screen_move_cursor
screen_move_cursor-location mode s m shown cells =
    let is_text = m.is_text in
    let last = row_ends s.x s.y mode.width mode.height shown.column (omega (arith, shown.row)) in
    let location = s.y * mode.width + s.x in
    (u16 location / 256, u8 (u16 location), rw is_text refl, omega arith, omega arith, omega arith)
