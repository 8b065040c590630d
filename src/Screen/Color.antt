-- ===== src/Screen/Color.antt =====
-- kernel/main.c: the palettes of the text screen, and the nearest of its 16 colours.
use Prim.Native.Nat.{bit_or}
use strixos.Prelude.{
  ℕ, ◌+◌, ◌-◌, ◌*◌, ◌/◌, ◌%◌, ◌^◌, ◌==◌, ltb, leb, if◌then◌else◌, List, [], ◌∷◌, get_or,
}

-- `vga_color`
abbrev pub vga_color : ℕ → ℕ → ℕ
vga_color fg bg = bit_or fg (bg * 16) % 256

abbrev pub vga_pal16 : List ℕ
vga_pal16 =
    0x000000 ∷ 0x800000 ∷ 0x008000 ∷ 0x808000 ∷ 0x000080 ∷ 0x800080 ∷ 0x008080 ∷ 0xc0c0c0 ∷ 0x808080
    ∷ 0xff0000 ∷ 0x00ff00 ∷ 0xffff00 ∷ 0x0000ff ∷ 0xff00ff ∷ 0x00ffff ∷ 0xffffff ∷ []

-- `(r<<16)|(g<<8)|b`, for bytes.
abbrev pub pack : ℕ → ℕ → ℕ → ℕ
pack r g b = r * 2 ^ 16 + g * 2 ^ 8 + b

-- A step of the colour cube: `v?55+v*40:0`.
abbrev pub cube : ℕ → ℕ
cube v = if v == 0 then 0 else 55 + v * 40

-- `vga_pal256`
unfoldable pub vga_pal256 : ℕ → ℕ
vga_pal256 idx =
    let i = idx - 16 in
    let v = 8 + (idx - 232) * 10 in
    if ltb idx 16
    then get_or vga_pal16 idx 0
    else if ltb idx 232
    then pack (cube (i / 36)) (cube (i / 6 % 6)) (cube (i % 6))
    else pack v v v

abbrev pub red : ℕ → ℕ
red c = c / 2 ^ 16 % 256

abbrev pub green : ℕ → ℕ
green c = c / 2 ^ 8 % 256

abbrev pub blue : ℕ → ℕ
blue c = c % 256

-- `(a-b)*(a-b)`, of `int`.
abbrev pub square : ℕ → ℕ → ℕ
square a b = if leb b a then (a - b) * (a - b) else (b - a) * (b - a)

-- The distance of two colours.
unfoldable pub distance : ℕ → ℕ → ℕ
distance rgb c =
    square (red rgb) (red c) + square (green rgb) (green c) + square (blue rgb) (blue c)

-- The loop of `vga_nearest` from `i` on, over the colours that are left.
unfoldable pub nearest_from : ℕ → List ℕ → ℕ → ℕ → ℕ → ℕ
nearest_from rgb [] i best bestd = best
nearest_from rgb (c ∷ cs) i best bestd =
    nearest_from rgb cs (i + 1) (if ltb (distance rgb c) bestd then i else best)
      (if ltb (distance rgb c) bestd then distance rgb c else bestd)

-- `vga_nearest`
unfoldable pub vga_nearest : ℕ → ℕ
vga_nearest rgb = nearest_from rgb vga_pal16 0 0 0x7fffffff
