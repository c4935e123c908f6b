-- ===== src/Screen.antt =====
-- Output on the screen, src/drivers/early_screen.c, by the drawing of src/drivers/vesa.c: a cursor, and a
-- frame buffer in memory. What goes to the ports of the text cursor is kept as a list.
pub mod Cursor
pub mod Frame
pub mod Place
pub mod Modes
mod Tests
use just_kernel.Base.{
  ℕ, zero, suc, ◌+◌, ◌*◌, ◌-◌, ◌/◌, ◌%◌, ◌^◌, Bool, true, false, not, ◌&&◌, Option, none, some,
  List, [], ◌∷◌, ltb, leb, ◌==◌, if◌then◌else◌, u8, u16, u32, sub32, bit_and, bit_or,
}
use just_kernel.Klibc.{Memory, write, memcpy}

pub record Color : Type 0 where
  pub raw : ℕ
  pub b : ℕ
  pub g : ℕ
  pub r : ℕ
  pub a : ℕ

-- `vesa_mode_t`
pub data ModeType : Type 0 where
  text graphic : ModeType

pub record VideoMode : Type 0 where
  pub fb : ℕ
  pub fb_type : ModeType
  pub fb_size : ℕ
  pub width : ℕ
  pub height : ℕ
  pub pitch : ℕ
  pub bpp : ℕ
  pub r_mask : ℕ
  pub r_pos : ℕ
  pub g_mask : ℕ
  pub g_pos : ℕ
  pub b_mask : ℕ
  pub b_pos : ℕ
  pub a_mask : ℕ
  pub a_pos : ℕ

pub record Font : Type 0 where
  pub width : ℕ
  pub height : ℕ
  pub data_at : ℕ → ℕ

-- The cursor, memory and the bytes sent to ports, the last one first.
pub record Screen : Type 0 where
  pub x : ℕ
  pub y : ℕ
  pub memory : Memory
  pub ports : List (ℕ × ℕ)

abbrev pub text_color : ℕ → Color
text_color raw = record { raw = raw; b = 0; g = 0; r = 0; a = 0 }

abbrev pub graphics_color : ℕ → ℕ → ℕ → ℕ → Color
graphics_color r g b a = record { raw = 0; b = b; g = g; r = r; a = a }

module _ (mode : VideoMode) where
  abbrev pub index : (x y : ℕ) → ℕ
  index x y = u32 (u32 (y * mode.pitch) + u32 (x * (mode.bpp / 8)))

  unfoldable pub vesa_put_symbol : (x y c : ℕ) (bg fg : Color) → Memory → Memory
  vesa_put_symbol x y c bg fg mem =
      let entry = u32 (mode.fb + index x y) in
      write (u32 (entry + 1)) (u8 (bit_or (bg.raw * 16) fg.raw)) (write entry c mem)

  -- The bytes of a color, the low one first.
  unfoldable pub write_bytes : (entry value count : ℕ) → Memory → Memory
  write_bytes entry value zero mem = mem
  write_bytes entry value (suc count) mem =
      write_bytes (u32 (entry + 1)) (value / 256) count (write entry (value % 256) mem)

  abbrev pub part : (value mask pos : ℕ) → ℕ
  part value mask pos = u32 (bit_and value mask * 2 ^ pos)

  unfoldable pub full_color : Color → ℕ
  full_color c =
      bit_or
        (bit_or (bit_or (part c.r mode.r_mask mode.r_pos) (part c.g mode.g_mask mode.g_pos))
          (part c.b mode.b_mask mode.b_pos))
        (part c.a mode.a_mask mode.a_pos)

  unfoldable pub vesa_color2entry : (entry : ℕ) → Color → Memory → Memory
  vesa_color2entry entry color mem = elim mode.fb_type [
    | text ↦ write (u32 (entry + 1)) (u8 (bit_or (color.raw * 16) color.raw)) (write entry 32 mem)
    | graphic ↦ write_bytes entry (full_color color) (mode.bpp / 8) mem
  ]

  -- The pixels of a row of a symbol, from `ix` on.
  unfoldable pub render_row :
      (font : Font) (bits x y : ℕ) (bg fg : Color) (n ix : ℕ) → Memory → Memory
  render_row font bits x y bg fg zero ix mem = mem
  render_row font bits x y bg fg (suc n) ix mem =
      let color = if bits / 2 ^ ix % 2 == 1 then fg else bg in
      let entry = u32 (mode.fb + index (u32 (x + ix)) y) in
      render_row font bits x y bg fg n (ix + 1) (vesa_color2entry entry color mem)

  unfoldable pub render_rows :
      (font : Font) (x y c : ℕ) (bg fg : Color) (n iy : ℕ) → Memory → Memory
  render_rows font x y c bg fg zero iy mem = mem
  render_rows font x y c bg fg (suc n) iy mem =
      let bits = font.data_at (c * font.height + iy) in
      render_rows font x y c bg fg n (iy + 1)
        (render_row font bits x (u32 (y + iy)) bg fg font.width 0 mem)

  unfoldable pub vesa_render_symbol : (x y c : ℕ) (font : Font) (bg fg : Color) → Memory → Memory
  vesa_render_symbol x y c font bg fg mem = render_rows font x y c bg fg font.height 0 mem

  unfoldable pub vesa_putc : (x y c : ℕ) (font : Font) (bg fg : Color) → Memory → Memory
  vesa_putc x y c font bg fg mem = elim mode.fb_type [
    | text ↦ vesa_put_symbol x y c bg fg mem
    | graphic ↦ vesa_render_symbol x y c font bg fg mem
  ]

  -- From byte `i` of the frame buffer on, in steps of `bpp` bytes.
  unfoldable pub clear_loop : (fuel i : ℕ) → Color → Memory → Option Memory
  clear_loop zero i bg mem = none
  clear_loop (suc fuel) i bg mem =
      let rest =
        clear_loop fuel (u32 (i + mode.bpp)) bg (vesa_color2entry (u32 (mode.fb + i)) bg mem) in
      if ltb i mode.fb_size then rest else some mem

  unfoldable pub vesa_scroll : (rows : ℕ) → Color → Memory → Option Memory
  vesa_scroll rows bg mem =
      let rows_shift = u32 (rows * mode.pitch) in
      let delta = sub32 mode.fb_size rows_shift in
      elim (clear_loop (rows_shift + 1) delta bg mem) [
        | none ↦ none
        | some cleared ↦ some (memcpy (u32 (mode.fb + rows_shift)) mode.fb delta cleared)
      ]

  abbrev pub symbol_width : Font → ℕ
  symbol_width font = elim mode.fb_type [ text ↦ 1 | graphic ↦ font.width + 2 ]

  abbrev pub symbol_height : Font → ℕ
  symbol_height font = elim mode.fb_type [ text ↦ 1 | graphic ↦ font.height + 2 ]

  abbrev pub foreground : Color
  foreground = elim mode.fb_type [ text ↦ text_color 15 | graphic ↦ graphics_color 255 255 255 0 ]

  abbrev pub background : Color
  background = elim mode.fb_type [ text ↦ text_color 0 | graphic ↦ graphics_color 0 0 0 0 ]

  unfoldable pub screen_move_cursor : Screen → Screen
  screen_move_cursor s =
      let location = u16 (s.y * mode.width + s.x) in
      elim mode.fb_type [
        | text ↦ record s {
          ports =
              (0x3D5, u8 location) ∷ (0x3D4, 15) ∷ (0x3D5, location / 256) ∷ (0x3D4, 14) ∷ s.ports;
        }
        | graphic ↦ s
      ]

  module _ (font : Font) where
    unfoldable pub screen_scroll : Screen → Option Screen
    screen_scroll s =
        if ltb s.y (sub32 mode.height (symbol_height font))
        then some s
        else elim (vesa_scroll (symbol_height font) background s.memory) [
          | none ↦ none
          | some mem ↦ some (record s { memory = mem; y = sub32 s.y (symbol_height font) })
        ]

    -- The cases of the character. A `char` from 128 on is negative.
    unfoldable pub put_char : (c : ℕ) → Screen → Screen
    put_char c s =
        if c == 8
        then (if s.x == 0
            then s
            else (let left = sub32 s.x (symbol_width font) in
                record s {
                  x = left;
                  memory = vesa_putc left s.y 32 font background foreground s.memory;
                }))
        else if c == 9
        then record s { x = u32 (s.x + (4 - s.x % 4)) }
        else if c == 10
        then record s { y = u32 (s.y + symbol_height font); x = 0 }
        else if c == 13
        then record s { x = 0 }
        else if leb 32 c && ltb c 128
        then record s {
          x = u32 (s.x + symbol_width font);
          memory = vesa_putc s.x s.y c font background foreground s.memory;
        }
        else s

    unfoldable pub wrap_line : Screen → Screen
    wrap_line s =
        if ltb s.x mode.width then s else record s { x = 0; y = u32 (s.y + symbol_height font) }

    unfoldable pub screen_putc : (c : ℕ) → Screen → Option Screen
    screen_putc c s = elim (screen_scroll (wrap_line (put_char c s))) [
      | none ↦ none
      | some s' ↦ some (screen_move_cursor s')
    ]

    unfoldable pub screen_puts : List ℕ → Screen → Option Screen
    screen_puts [] s = some s
    screen_puts (c ∷ cs) s = elim (screen_putc c s) [ none ↦ none | some s' ↦ screen_puts cs s' ]

  unfoldable pub screen_clear : Screen → Screen
  screen_clear s = screen_move_cursor (record s { x = 0; y = 0 })
