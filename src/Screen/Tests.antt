-- ===== src/Screen/Tests.antt =====
-- The text screen at concrete states.
use strixos.Prelude.{
  ℕ, ◌+◌, ◌*◌, ◌≤◌, ◌<◌, ◌≡◌, refl, ◌⊎◌, ◌==◌, true, false, some, List, [], ◌∷◌, length, get_or,
  replicate, map, All, arith,
}
use strixos.Number.{Digit, read_number}
use strixos.Screen.Color.{
  vga_color, vga_nearest, vga_pal16, vga_pal256, distance, nearest_from, pack,
}
use strixos.Screen.Nearest.{vga_nearest_lem}
use strixos.Screen.Print.{putdec, putdec_lem, hex_digits}
use strixos.Screen.Row.{Plain, write_cells, rgb_print_lem}
use strixos.Screen.Print.{rgb_print}
use strixos.Screen.Scroll.{cell, new_line_scrolls}
use strixos.Screen.Bounds.{InBounds, puts-InBounds}
use strixos.Screen.{
  Screen, vga_entry, vga_width, color_of, new_line, puts, putchar, put_plain, put_escape,
  put_backspace, escape, parse_params, sgr, sgr_one,
}

abbrev blank : Screen
blank = record {
  buffer = replicate 2000 (vga_entry 32 7);
  row = 0;
  col = 0;
  fg = 7;
  bg = 0;
  in_esc = false;
  esc_buf = [];
}

abbrev fourth : ℕ
fourth = 3

abbrev bottom : Screen
bottom = record blank { row = 24; col = 3 }

blank-InBounds : InBounds blank
blank-InBounds = record {
  cells = refl;
  on_row = omega arith;
  on_col = omega arith;
  room = omega arith;
  fore = omega arith;
  back = omega arith;
}

bottom-InBounds : InBounds bottom
bottom-InBounds = record {
  cells = refl;
  on_row = omega arith;
  on_col = omega arith;
  room = omega arith;
  fore = omega arith;
  back = omega arith;
}

-- "ab", a colour sequence, a backspace and a new line.
abbrev text : List ℕ
text = 97 ∷ 98 ∷ 27 ∷ 91 ∷ 51 ∷ 49 ∷ 109 ∷ 8 ∷ 10 ∷ []

after_text : ((puts blank text).row == 1) ≡ true
unfolding puts putchar put_plain put_escape put_backspace new_line escape parse_params sgr sgr_one
    vga_nearest nearest_from distance
after_text = refl

text_color : ((puts blank text).fg == 1) ≡ true
unfolding puts putchar put_plain put_escape put_backspace new_line escape parse_params sgr sgr_one
    vga_nearest nearest_from distance
text_color = refl

orange : (vga_nearest (vga_pal256 208) == 11) ≡ true
unfolding vga_nearest nearest_from distance vga_pal256
orange = refl

hex : hex_digits 4 48879 ≡ 66 ∷ 69 ∷ 69 ∷ 70 ∷ []
unfolding hex_digits
hex = refl

puts-InBounds_example : InBounds (puts blank text)
puts-InBounds_example = puts-InBounds blank text blank-InBounds

new_line_scrolls_example :
    ((3 < 24) × (cell (new_line bottom) 3 5 ≡ cell bottom 4 5))
    ⊎ ((fourth ≡ 24)
        × ((cell (new_line bottom) 3 5 ≡ vga_entry 32 (color_of bottom))
            × (((new_line bottom).row ≡ 24) × ((new_line bottom).col ≡ 0))))
new_line_scrolls_example =
    new_line_scrolls bottom 3 5 bottom-InBounds refl (omega arith) (omega arith)

vga_nearest_lem_example :
    (vga_nearest 0x112233 < 16)
    × ((distance 0x112233 (get_or vga_pal16 (vga_nearest 0x112233) 0)
          ≤ distance 0x112233 (get_or vga_pal16 4 0))
        × ((vga_nearest 0x112233 ≤ 4)
            ⊎ (distance 0x112233 (get_or vga_pal16 (vga_nearest 0x112233) 0)
                < distance 0x112233 (get_or vga_pal16 4 0))))
vga_nearest_lem_example = vga_nearest_lem 0x112233 4 (omega arith)

abbrev hi : List ℕ
hi = 72 ∷ 105 ∷ []

hi-Plain : All Plain hi
hi-Plain = ((omega arith, omega arith), ((omega arith, omega arith), tt))

rgb_print_lem_example :
    rgb_print blank hi 255 0 0
    ≡ some (record blank {
      buffer =
          write_cells blank.buffer
            (blank.row * vga_width + blank.col)
            (map (λ c. vga_entry c (vga_color (vga_nearest (pack 255 0 0)) blank.bg)) hi);
      col = blank.col + length hi;
      fg = 7;
      bg = 0;
      in_esc = false;
      esc_buf = [];
    })
rgb_print_lem_example =
    rgb_print_lem blank hi 255 0 0 refl (omega arith) (omega arith) (omega arith) hi-Plain
      (omega arith)

putdec_lem_example :
    (ds : List ℕ) × ((putdec blank 1024 ≡ some (puts blank ds))
      × ((read_number 0 ds ≡ 1024) × (All Digit ds × ((0 < length ds) × (length ds ≤ 20)))))
putdec_lem_example = putdec_lem blank 1024 (omega arith)
