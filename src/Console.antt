-- ===== src/Console.antt =====
-- Kernel/naive_graphics_console.c: the pen and the pixels.
pub mod Pen
pub mod Cells
pub mod Grid
pub mod Scroll
mod Tests
use macac_os.Base.{
  ℕ, zero, suc, ◌+◌, ◌-◌, ◌*◌, ◌/◌, ◌%◌, ◌^◌, Bool, true, false, ◌&&◌, List, [], ◌∷◌, ltb, leb,
  ◌==◌, if◌then◌else◌,
}
use macac_os.Memory.{u64, sub64}
use macac_os.KernelLib.{Bytes, put_byte, mem_set, mem_cpy}

abbrev pub char_width : ℕ
char_width = 9

abbrev pub char_height : ℕ
char_height = 16

abbrev pub first_char : ℕ
first_char = 33

abbrev pub last_char : ℕ
last_char = 126

pub record Color : Type 0 where
  pub b : ℕ
  pub g : ℕ
  pub r : ℕ

-- The static variables, the fields of `screen_data` that are read, and the memory. The font size
-- `level` is at least 0, and `int` arithmetic with it does not overflow: the shell sets it to 1, 2 or 3.
pub record Console : Type 0 where
  pub level : ℕ
  pub pen_x : ℕ
  pub pen_y : ℕ
  pub last_pen_x : ℕ
  pub pen_color : Color
  pub width : ℕ
  pub height : ℕ
  pub frame_buffer : ℕ
  pub memory : Bytes

-- `uint16_t` arithmetic
abbrev pub u16 : ℕ → ℕ
u16 n = n % 2 ^ 16

unfoldable pub get_ptr_to_pixel : ℕ → ℕ → Console → ℕ
get_ptr_to_pixel x y s = s.frame_buffer + 3 * (u16 x + u16 y * s.width)

unfoldable pub color_int_to_color : ℕ → Color
color_int_to_color color_int = record {
  b = color_int / 2 ^ 16 % 2 ^ 8;
  g = color_int / 2 ^ 8 % 2 ^ 8;
  r = color_int % 2 ^ 8;
}

-- `*p = color` for a `Color * p`
unfoldable pub put_color : ℕ → Color → Console → Console
put_color p c s = record s {
  memory = put_byte (p + 2) c.r (put_byte (p + 1) c.g (put_byte p c.b s.memory));
}

unfoldable pub ngc_set_color : Color → Console → Console
ngc_set_color c s = record s { pen_color = c }

-- `int` of the 64-bit argument, for the levels above.
unfoldable pub change_font_size : ℕ → Console → Console
change_font_size new_level s = record s { level = new_level % 2 ^ 32 }

-- The pixels from `p` on.
unfoldable pub paint_run : ℕ → ℕ → Console → Console
paint_run zero p s = s
paint_run (suc n) p s = paint_run n (p + 3) (put_color p s.pen_color s)

-- The square of `n` by `n` pixels that stands for one bit of the font, with the rows that are left
-- from row `y` on.
unfoldable pub paint_square : ℕ → ℕ → ℕ → ℕ → Console → Console
paint_square zero n x y s = s
paint_square (suc left) n x y s =
    paint_square left n x (y + 1) (paint_run n (get_ptr_to_pixel s.pen_x y s + 3 * x) s)

-- The tests of the bits of a byte, with those that are left, for column `c` and so on.
unfoldable pub paint_bits : ℕ → ℕ → ℕ → ℕ → ℕ → Console → Console
paint_bits zero n c y byte s = s
paint_bits (suc left) n c y byte s =
    paint_bits left n (c + 1) y (byte / 2)
      (if byte % 2 == 1 then paint_square n n (n * c) y s else s)

-- The loop of `ngc_font_size_1`, `ngc_font_size_2` and `ngc_font_size_3`, which differ in the number
-- `n` of pixels for a bit, with the rows of the font that are left.
unfoldable pub font_rows : ℕ → ℕ → ℕ → (ℕ → ℕ) → ℕ → Console → Console
font_rows zero n h font place s = s
font_rows (suc left) n h font place s = font_rows left n (h + s.level) font (place + 2) (
    paint_bits 1 n 8 (s.pen_y + h) (font (place + 1))
      (paint_bits 8 n 0 (s.pen_y + h) (font place) s))

unfoldable pub ngc_font_size : ℕ → (ℕ → ℕ) → ℕ → Console → Console
unfolding font_rows
ngc_font_size n font place s = font_rows char_height n 0 font place s

-- `level` times the size of the screen, in bytes but for the last line. A negative `int` becomes a
-- large `uint64_t`.
unfoldable pub scroll_length : Console → ℕ
scroll_length s = u64 (3 * (s.width * sub64 (s.height * s.level) (char_height * s.level)))

unfoldable pub scroll : Console → Console
unfolding scroll_length
scroll s =
    let dst = s.frame_buffer in
    let src = dst + 3 * (char_height * s.level * s.width) in
    let moved = mem_cpy dst src (scroll_length s) s.memory in
    record s {
      memory = mem_set (dst + scroll_length s) 0 (3 * s.width * char_height * s.level) moved;
    }

unfoldable pub ngc_print_new_line : Console → Console
unfolding scroll
ngc_print_new_line s₀ =
    let s : Console = record s₀ { last_pen_x = s₀.pen_x; pen_x = 0 } in
    if leb (s.pen_y + s.level * char_height + char_height * 3) s.height
    then record s { pen_y = u16 (s.pen_y + s.level * char_height) }
    else scroll s

-- The loops of `delete_last_char`.
unfoldable pub blank_rows : ℕ → ℕ → Console → Console
unfolding paint_run
blank_rows zero h s = s
blank_rows (suc left) h s =
    blank_rows left (h + 1)
      (paint_run (char_height * s.level) (get_ptr_to_pixel s.pen_x (s.pen_y + h) s) s)

unfoldable pub delete_last_char : Console → Console
unfolding blank_rows
delete_last_char s =
    if s.pen_x == char_width * 2 * s.level
    then s
    else let moved : Console = record s {
      pen_x = u16 (s.pen_x + (2 ^ 16 - u16 (char_width * s.level)));
    } in
      let black : Console = record moved { pen_color = record { b = 0; g = 0; r = 0 } } in
      record (blank_rows (char_height * s.level) 0 black) { pen_color = s.pen_color }

-- The part of `ngc_print_char` behind the tests, for a character that takes a place.
unfoldable pub advance : Console → Console
unfolding ngc_print_new_line
advance s₀ =
    let s : Console = record s₀ { pen_x = u16 (s₀.pen_x + char_width * s₀.level) } in
    if ltb s.width (s.pen_x + char_width * s.level) then ngc_print_new_line s else s

-- `font` is the array of font.h.
unfoldable pub ngc_print_char : (ℕ → ℕ) → ℕ → Console → Console
unfolding ngc_font_size advance delete_last_char
ngc_print_char font c s =
    if c == 0xA
    then ngc_print_new_line s
    else if c == 0x7F
    then delete_last_char s
    else if leb first_char c && leb c last_char
    then advance
        (if leb 1 s.level && leb s.level 3 then ngc_font_size s.level font (32 * (c - 33)) s else s)
    else advance s

-- The bytes of `string` before its zero byte.
unfoldable pub ngc_print : (ℕ → ℕ) → List ℕ → Console → Console
ngc_print font [] s = s
ngc_print font (c ∷ cs) s = ngc_print font cs (ngc_print_char font c s)

unfoldable pub ngc_print_color : (ℕ → ℕ) → List ℕ → ℕ → Console → Console
unfolding color_int_to_color ngc_set_color
ngc_print_color font string color_int s =
    ngc_set_color (record { b = 0x7F; g = 0x7F; r = 0x7F })
      (ngc_print font string (ngc_set_color (color_int_to_color color_int) s))

unfoldable pub ngc_print_pixel : ℕ → ℕ → ℕ → Console → Console
unfolding color_int_to_color put_color get_ptr_to_pixel
ngc_print_pixel x y color_int s =
    put_color (get_ptr_to_pixel x y s) (color_int_to_color color_int) s

-- The inner loop of `ngc_print_pixels`, with the rounds that are left from `j` on, and the outer one.
unfoldable pub print_column : ℕ → ℕ → ℕ → ℕ → ℕ → Console → Console
print_column zero x from_y j color s = s
print_column (suc left) x from_y j color s =
    print_column left x from_y (j + 1) color (ngc_print_pixel x (from_y + j) color s)

unfoldable pub print_columns : ℕ → ℕ → ℕ → ℕ → ℕ → ℕ → Console → Console
unfolding print_column
print_columns zero from_x from_y i width color s = s
print_columns (suc left) from_x from_y i width color s =
    print_columns left from_x from_y (i + 1) width color
      (print_column width (from_x + i) from_y 0 color s)

unfoldable pub ngc_print_pixels : ℕ → ℕ → ℕ → ℕ → ℕ → Console → Console
unfolding print_columns
ngc_print_pixels from_x from_y width height color s =
    print_columns (u16 height) from_x from_y 0 (u16 width) color s

-- The loop of `ngc_paint_screen`.
unfoldable pub paint_pixels : ℕ → ℕ → Color → Console → Console
unfolding put_color
paint_pixels zero p c s = s
paint_pixels (suc len) p c s = paint_pixels len (p + 3) c (put_color p c s)

unfoldable pub ngc_paint_screen : ℕ → Console → Console
unfolding paint_pixels
ngc_paint_screen bg_color s =
    record (paint_pixels (s.width * s.height % 2 ^ 32) s.frame_buffer (color_int_to_color bg_color)
      s) { pen_x = 0; pen_y = 0 }
