-- ===== src/Frame/Tests.antt =====
-- The framebuffer at concrete values.
use strixos.Prelude.{ℕ, ◌+◌, ◌*◌, ◌≡◌, refl, inr, ◌==◌, true, false, List, [], ◌∷◌, get_or, arith}
use strixos.Screen.{parse_params}
use strixos.Frame.Bounds.{InFrame}
use strixos.Frame.Text.{fb_puts-fb_init}
use strixos.Frame.Glyph.{pixel, draw_char_lem}
use strixos.Frame.Draw.{Geometry, fill_rows, draw_char, draw_rows, draw_row, put32, glyph_of}
use strixos.Frame.{
  Frame, BootInfo, geometry_of, to_int, graphics, negative_pitch, fb_init, fb_puts, fb_putchar,
  draw_plain, colors, color_one, run_escape, take_escape,
}

abbrev small : Geometry
small = record { width = 16; height = 16; pitch = 20; w = 2; h = 2 }

abbrev start : Frame
start = record { pixels = λ a. 7; cx = 0; cy = 0; fg = 1; bg = 0; in_esc = false; esc_buf = [] }

-- At the place of `B` the font has an F, 0x7F, 0x46 and so on, and its stem is drawn on the right.
stem : draw_char small (λ a. 7) 0 0 66 1 0 (1 * 20 + 6) ≡ 1
unfolding draw_char draw_rows draw_row put32
stem = refl

no_stem : draw_char small (λ a. 7) 0 0 66 1 0 (1 * 20 + 2) ≡ 0
unfolding draw_char draw_rows draw_row put32
no_stem = refl

-- At the place of `A` the font has an E.
letter : glyph_of small 65 ≡ 0x7F ∷ 0x46 ∷ 0x16 ∷ 0x1E ∷ 0x16 ∷ 0x46 ∷ 0x7F ∷ 0 ∷ []
letter = refl

-- A red A.
abbrev text : List ℕ
text = 27 ∷ 91 ∷ 51 ∷ 49 ∷ 109 ∷ 65 ∷ []

text_color : ((fb_puts small start text).fg == 0x800000) ≡ true
unfolding fb_puts fb_putchar draw_plain take_escape run_escape colors color_one parse_params
text_color = refl

-- A boot info with a width that is out of range.
abbrev info : BootInfo
info = record {
  magic = 0x5354524958424F4F;
  boot_mode = 2;
  fb_base = 0xE0000000;
  fb_width = 320;
  fb_height = 600;
  fb_pitch = 2048;
}

abbrev chosen : Geometry
chosen = record { width = 1024; height = 600; pitch = 2048; w = 128; h = 75 }

abbrev black : Frame
black = record start { pixels = fill_rows chosen start.pixels 0 0 1024 600 0 }

started : fb_init info start ≡ graphics chosen black
unfolding fb_init geometry_of to_int
started = refl

-- A pitch that is negative as an `int`.
negative : fb_init (record info { fb_pitch = 0xFFFFFC00 }) start ≡ negative_pitch
unfolding fb_init to_int
negative = refl

fb_puts-fb_init_example : InFrame chosen start.pixels (fb_puts chosen black text)
fb_puts-fb_init_example =
    fb_puts-fb_init info start black chosen text started (inr (omega arith)) (omega arith)

draw_char_lem_example :
    draw_char small start.pixels 1 1 66 1 0 ((1 * 8 + 1) * small.pitch + (1 * 8 + 6))
    ≡ pixel (get_or (glyph_of small 66) 1 0) 6 1 0
draw_char_lem_example =
    draw_char_lem small start.pixels 1 1 66 1 0 1 6 (omega arith) (omega arith) (omega arith)
      (omega arith) (omega arith)
