-- ===== src/Screen/Frame.antt =====
-- What the drawing of src/drivers/vesa.c writes in a text mode.
use just_kernel.Base.{
  ℕ, zero, suc, ◌+◌, ◌*◌, ◌-◌, ◌/◌, ◌%◌, ◌≤◌, ◌<◌, ◌≡◌, refl, ◌∙◌, ◌⊎◌, inl, inr, true, some, ltb,
  Bool-cases, u32, sub32, arith,
}
use just_kernel.Klibc.{Memory, memcpy}
use just_kernel.Klibc.Copy.{memcpy-copies}
use just_kernel.Screen.{
  Color, text, VideoMode, Font, vesa_put_symbol, vesa_color2entry, vesa_putc, clear_loop,
  vesa_scroll,
}

-- A text mode whose frame buffer holds all its rows, of two bytes for each symbol.
pub record IsTextMode (mode : VideoMode) : Type 0 where
  pub is_text : mode.fb_type ≡ text
  pub depth : mode.bpp ≡ 16
  pub cells : mode.width * 2 ≤ mode.pitch
  pub even : mode.pitch % 2 ≡ 0
  pub rows : mode.fb_size ≡ mode.height * mode.pitch
  pub fits : mode.fb + mode.fb_size + 16 ≤ 4294967296
  pub wide : 1 ≤ mode.width
  pub high : 2 ≤ mode.height

-- Only bytes of the frame buffer have changed.
abbrev pub Keeps : VideoMode → Memory → Memory → Type 0
Keeps mode mem mem' = (z : ℕ) → (z < mode.fb) ⊎ (mode.fb + mode.fb_size ≤ z) → mem' z ≡ mem z

row_fits : (y height pitch : ℕ) → y < height → y * pitch + pitch ≤ height * pitch
row_fits y height pitch below = grind arith

pub vesa_putc-Keeps :
    (mode : VideoMode) (x y c : ℕ) (font : Font) (bg fg : Color) (mem : Memory)
    → IsTextMode mode
    → x < mode.width
    → y < mode.height
    → Keeps mode mem (vesa_putc mode x y c font bg fg mem)
unfolding vesa_putc vesa_put_symbol
vesa_putc-Keeps mode x y c font bg fg mem m left below =
    let is_text = m.is_text in
    let depth = m.depth in
    let cells = m.cells in
    let rows = m.rows in
    let fits = m.fits in
    let row = row_fits y mode.height mode.pitch below in
    let column : u32 (x * (mode.bpp / 8)) ≡ x * 2 = rw depth (omega arith) in
    let line : u32 (y * mode.pitch) ≡ y * mode.pitch = omega arith in
    let spot : u32 (mode.fb + u32 (y * mode.pitch + x * 2)) ≡ mode.fb + (y * mode.pitch + x * 2) =
      omega arith in
    rw is_text (
      rw (column, line, spot)
        (λ z outside. elim outside [ inl before ↦ ground arith | inr behind ↦ ground arith ]))

-- An entry of the frame buffer.
vesa_color2entry-Keeps :
    (mode : VideoMode) (i : ℕ) (color : Color) (mem : Memory)
    → IsTextMode mode
    → i + 1 < mode.fb_size
    → Keeps mode mem (vesa_color2entry mode (u32 (mode.fb + i)) color mem)
unfolding vesa_color2entry
vesa_color2entry-Keeps mode i color mem m inside =
    let is_text = m.is_text in
    let fits = m.fits in
    let spot : u32 (mode.fb + i) ≡ mode.fb + i = omega arith in
    rw is_text (
      rw spot (λ z outside. elim outside [ inl before ↦ ground arith | inr behind ↦ ground arith ]))

product_even : (a b : ℕ) → b % 2 ≡ 0 → a * b % 2 ≡ 0
product_even zero b even = omega arith
product_even (suc a) b even = omega (arith, product_even a b even)

clear_loop-step :
    (mode : VideoMode) (fuel i : ℕ) (bg : Color) (mem : Memory)
    → i < mode.fb_size
    → u32 (i + mode.bpp) ≡ i + 16
    → clear_loop mode (suc fuel) i bg mem
      ≡ clear_loop mode fuel (i + 16) bg (vesa_color2entry mode (u32 (mode.fb + i)) bg mem)
unfolding clear_loop
clear_loop-step mode fuel i bg mem more next =
    let more' : ltb i mode.fb_size ≡ true = ground arith in rw (more', next, clear_loop) refl

clear_loop-Keeps :
    (mode : VideoMode) (fuel i : ℕ) (bg : Color) (mem : Memory)
    → IsTextMode mode
    → i % 2 ≡ 0
    → mode.fb_size % 2 ≡ 0
    → 1 ≤ fuel
    → mode.fb_size < i + fuel
    → (mem' : Memory) × (clear_loop mode fuel i bg mem ≡ some mem') × Keeps mode mem mem'
unfolding clear_loop
clear_loop-Keeps mode zero i bg mem m even even_size some_fuel enough = absurd (omega arith)
clear_loop-Keeps mode (suc fuel) i bg mem m even even_size some_fuel enough =
    elim (Bool-cases (ltb i mode.fb_size)) [
      | inr done ↦ (mem, rw (done, clear_loop) refl, λ z outside. refl)
      | inl more ↦
          let depth = m.depth in
          let fits = m.fits in
          let here : i < mode.fb_size = ground arith in
          let next : u32 (i + mode.bpp) ≡ i + 16 = rw depth (omega arith) in
          let first = vesa_color2entry-Keeps mode i bg mem m (omega arith) in
          let (mem', ran, kept) =
            clear_loop-Keeps mode fuel (i + 16) bg
              (vesa_color2entry mode (u32 (mode.fb + i)) bg mem) m (omega arith) even_size
              (omega arith) (omega arith) in
          (
            mem',
            clear_loop-step mode fuel i bg mem here next ∙ ran,
            λ z outside. kept z outside ∙ first z outside,
          )
    ]

vesa_scroll-ran :
    (mode : VideoMode) (bg : Color) (mem cleared : Memory)
    → mode.pitch ≤ mode.fb_size
    → mode.fb + mode.fb_size + 16 ≤ 4294967296
    → clear_loop mode (mode.pitch + 1) (mode.fb_size - mode.pitch) bg mem ≡ some cleared
    → vesa_scroll mode 1 bg mem
      ≡ some (memcpy (mode.fb + mode.pitch) mode.fb (mode.fb_size - mode.pitch) cleared)
unfolding vesa_scroll
vesa_scroll-ran mode bg mem cleared row fits ran =
    let shift : u32 (1 * mode.pitch) ≡ mode.pitch = omega arith in
    let delta : sub32 mode.fb_size mode.pitch ≡ mode.fb_size - mode.pitch = omega arith in
    let source : u32 (mode.fb + mode.pitch) ≡ mode.fb + mode.pitch = omega arith in
    rw (vesa_scroll, shift, delta, ran) (rw (shift, source, delta) refl)

-- Scrolling by one row of a text mode ends.
pub vesa_scroll-Keeps :
    (mode : VideoMode) (bg : Color) (mem : Memory)
    → IsTextMode mode
    → (mem' : Memory) × (vesa_scroll mode 1 bg mem ≡ some mem') × Keeps mode mem mem'
unfolding vesa_scroll
vesa_scroll-Keeps mode bg mem m =
    let fits = m.fits in
    let rows = m.rows in
    let row = row_fits 0 mode.height mode.pitch (omega (arith, m.high)) in
    let even = product_even mode.height mode.pitch m.even in
    let even' = m.even in
    let (cleared, ran, kept) =
      clear_loop-Keeps mode (mode.pitch + 1) (mode.fb_size - mode.pitch) bg mem m (omega arith)
        (omega arith) (omega arith) (omega arith) in
    (
      memcpy (mode.fb + mode.pitch) mode.fb (mode.fb_size - mode.pitch) cleared,
      vesa_scroll-ran mode bg mem cleared (omega arith) fits ran,
      λ z outside.
          let copied =
            memcpy-copies (mode.fb_size - mode.pitch) (mode.fb + mode.pitch) mode.fb cleared z
              (omega arith) (omega arith) (inl (omega arith)) in
          elim outside [
            | inl before ↦ ground (arith, copied, kept z (inl before))
            | inr behind ↦ ground (arith, copied, kept z (inr behind))
          ],
    )
