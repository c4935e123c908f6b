-- ===== src/Screen/Place.antt =====
-- One character of src/drivers/early_screen.c in a text mode, before the line is wrapped.
use just_kernel.Base.{
  ℕ, ◌+◌, ◌-◌, ◌≤◌, ◌<◌, ◌≡◌, refl, inl, inr, ◌&&◌, ltb, leb, ◌==◌, if◌then◌else◌, Bool-cases, u32,
  sub32, arith,
}
use just_kernel.Screen.{
  VideoMode, Font, Screen, vesa_putc, background, foreground, symbol_width, symbol_height, put_char,
}
use just_kernel.Screen.Frame.{IsTextMode, Keeps, vesa_putc-Keeps}

-- The cursor is on the screen, above the last row.
pub record IsShown (mode : VideoMode) (s : Screen) : Type 0 where
  pub column : s.x < mode.width
  pub row : s.y + 1 < mode.height

-- What a character may come to before the line is wrapped.
pub record Placed (mode : VideoMode) (s s' : Screen) : Type 0 where
  pub row : s'.y < mode.height
  pub wrapped : mode.width ≤ s'.x → s'.y + 1 < mode.height
  pub near : s'.x ≤ mode.width + 4
  pub kept : Keeps mode s.memory s'.memory

stay : (mode : VideoMode) (s : Screen) → IsTextMode mode → IsShown mode s → Placed mode s s
stay mode s m shown = record {
  row = omega (arith, shown.row);
  wrapped = λ h. shown.row;
  near = omega (arith, shown.column);
  kept = λ z outside. refl;
}

-- A step back, unless at the start of a line.
back-Placed :
    (mode : VideoMode) (font : Font) (s : Screen)
    → IsTextMode mode
    → IsShown mode s
    → mode.width < 65536
    → Placed mode s (
        if s.x == 0 then s else record s {
          x = sub32 s.x (symbol_width mode font);
          memory =
              vesa_putc mode
                (sub32 s.x (symbol_width mode font))
                s.y
                32
                font
                (background mode)
                (foreground mode)
                s.memory;
        })
back-Placed mode font s m shown small_width =
    let is_text = m.is_text in
    let column = shown.column in
    let row = shown.row in
    let width : symbol_width mode font ≡ 1 = rw is_text refl in
    elim (Bool-cases (s.x == 0)) [
      | inl first ↦ rw first (stay mode s m shown)
      | inr later ↦
          let left : sub32 s.x 1 ≡ s.x - 1 = ground arith in
          rw (later, width, left)
            (record {
              row = omega arith;
              wrapped = λ h. row;
              near = omega arith;
              kept =
                  vesa_putc-Keeps mode (s.x - 1) s.y 32 font (background mode) (foreground mode)
                    s.memory m (omega arith) (omega arith);
            })
    ]

-- A character that is shown, or another one.
print-Placed :
    (mode : VideoMode) (font : Font) (c : ℕ) (s : Screen)
    → IsTextMode mode
    → IsShown mode s
    → mode.width < 65536
    → Placed mode s (
        if leb 32 c && ltb c 128
        then record s {
          x = u32 (s.x + symbol_width mode font);
          memory = vesa_putc mode s.x s.y c font (background mode) (foreground mode) s.memory;
        }
        else s)
print-Placed mode font c s m shown small_width =
    let is_text = m.is_text in
    let column = shown.column in
    let row = shown.row in
    let width : symbol_width mode font ≡ 1 = rw is_text refl in
    elim (Bool-cases (leb 32 c && ltb c 128)) [
      | inl shows ↦
          rw (shows, width)
            (record {
              row = omega arith;
              wrapped = λ h. row;
              near = omega arith;
              kept =
                  vesa_putc-Keeps mode s.x s.y c font (background mode) (foreground mode) s.memory m
                    column (omega arith);
            })
      | inr hidden ↦ rw hidden (stay mode s m shown)
    ]

pub put_char-Placed :
    (mode : VideoMode) (font : Font) (c : ℕ) (s : Screen)
    → IsTextMode mode
    → IsShown mode s
    → mode.width < 65536
    → mode.height < 65536
    → Placed mode s (put_char mode font c s)
unfolding put_char
put_char-Placed mode font c s m shown small_width small_height =
    let is_text = m.is_text in
    let column = shown.column in
    let row = shown.row in
    let height : symbol_height mode font ≡ 1 = rw is_text refl in
    elim (Bool-cases (c == 8)) [
      | inl back ↦ rw back (back-Placed mode font s m shown small_width)
      | inr not_back ↦ elim (Bool-cases (c == 9)) [
        | inl tab ↦
            rw (not_back, tab)
              (record {
                row = omega arith;
                wrapped = λ h. row;
                near = omega arith;
                kept = λ z outside. refl;
              })
        | inr not_tab ↦ elim (Bool-cases (c == 10)) [
          | inl line ↦
              rw (not_back, not_tab, line, height)
                (record {
                  row = omega arith;
                  wrapped = λ h. absurd (omega (arith, m.wide));
                  near = omega arith;
                  kept = λ z outside. refl;
                })
          | inr not_line ↦ elim (Bool-cases (c == 13)) [
            | inl return ↦
                rw (not_back, not_tab, not_line, return)
                  (record {
                    row = omega arith;
                    wrapped = λ h. row;
                    near = omega arith;
                    kept = λ z outside. refl;
                  })
            | inr not_return ↦
                rw (not_back, not_tab, not_line, not_return)
                  (print-Placed mode font c s m shown small_width)
          ]
        ]
      ]
    ]
