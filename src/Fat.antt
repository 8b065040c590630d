-- ===== src/Fat.antt =====
-- kernel/fat.c: a file system of one file, whose text is in the code. `none` is the result -1.
pub mod Read
mod Tests
use strixos.Prelude.{
  ℕ, zero, suc, ◌+◌, ◌-◌, ◌==◌, ltb, leb, if◌then◌else◌, Bool, true, false, not, ◌&&◌, Option, none,
  some, List, [], ◌∷◌, length, map, take, drop, add64, sub64,
}
use strixos.Initrd.{is_equal, skip_slash}

-- `fat_inited`, `fake_fd`, where -1 is `none`, and `fake_off`.
pub record Fat : Type 0 where
  pub inited : Bool
  pub fd : Option ℕ
  pub off : ℕ

-- "FAT.TXT"
abbrev pub fake_name : List ℕ
fake_name = 70 ∷ 65 ∷ 84 ∷ 46 ∷ 84 ∷ 88 ∷ 84 ∷ []

abbrev pub fake_data : List ℕ
fake_data =
    70 ∷ 65 ∷ 84 ∷ 49 ∷ 50 ∷ 32 ∷ 100 ∷ 101 ∷ 109 ∷ 111 ∷ 32 ∷ 102 ∷ 105 ∷ 108 ∷ 101 ∷ 32 ∷ 45 ∷ 32
    ∷ 83 ∷ 116 ∷ 114 ∷ 105 ∷ 120 ∷ 79 ∷ 83 ∷ 32 ∷ 115 ∷ 99 ∷ 97 ∷ 108 ∷ 97 ∷ 98 ∷ 108 ∷ 101 ∷ 32
    ∷ 70 ∷ 83 ∷ 10 ∷ 83 ∷ 101 ∷ 99 ∷ 116 ∷ 111 ∷ 114 ∷ 32 ∷ 48 ∷ 58 ∷ 32 ∷ 98 ∷ 111 ∷ 111 ∷ 116 ∷ 10
    ∷ []

-- `fat_init`, without the image, which nothing reads.
unfoldable pub init : Fat → Fat
init f = record f { inited = true }

-- `if(c>='a'&&c<='z') c-=32;`
abbrev pub upper : ℕ → ℕ
upper c = if leb 97 c && leb c 122 then c - 32 else c

-- `fat_open`
unfoldable pub open_fat : Fat → List ℕ → Option ℕ × Fat
open_fat f path =
    if not f.inited
    then (none, f)
    else if is_equal (map upper (skip_slash path)) (map upper fake_name)
    then (some 3, record f { fd = some 3; off = 0 })
    else (none, f)

-- `fat_read`: the bytes that go to the buffer, whose number it returns.
unfoldable pub read_fat : Fat → ℕ → ℕ → Option (List ℕ) × Fat
read_fat f fd len =
    let avail = length fake_data in
    let count = if ltb avail (add64 f.off len) then sub64 avail f.off else len in
    if not (fd == 3)
    then (none, f)
    else if leb avail f.off
    then (some [], f)
    else (some (take count (drop f.off fake_data)), record f { off = add64 f.off count })

-- `fat_close`: whether it succeeds.
unfoldable pub close_fat : Fat → ℕ → Bool × Fat
close_fat f fd = if fd == 3 then (true, record f { off = 0 }) else (false, f)
