-- ===== src/Keyboard.antt =====
-- kernel/keyboard.c: scancodes of set 1 to characters, and the ring buffer that holds the characters.
-- The scancodes that wait in the controller when it is polled are a list.
pub mod Ring
pub mod Codes
mod Tests
use strixos.Prelude.{
  ℕ, zero, suc, ◌+◌, ◌-◌, ◌%◌, ◌==◌, ltb, leb, if◌then◌else◌, Bool, true, false, not, ◌&&◌, ◌||◌,
  Option, none, some, List, [], ◌∷◌, get_or, set,
}

abbrev pub kbd_buf : ℕ
kbd_buf = 128

-- The rest of each table is 0.
abbrev pub sc_ascii : List ℕ
sc_ascii =
    0 ∷ 27 ∷ 49 ∷ 50 ∷ 51 ∷ 52 ∷ 53 ∷ 54 ∷ 55 ∷ 56 ∷ 57 ∷ 48 ∷ 45 ∷ 61 ∷ 8 ∷ 9 ∷ 113 ∷ 119 ∷ 101
    ∷ 114 ∷ 116 ∷ 121 ∷ 117 ∷ 105 ∷ 111 ∷ 112 ∷ 91 ∷ 93 ∷ 10 ∷ 0 ∷ 97 ∷ 115 ∷ 100 ∷ 102 ∷ 103 ∷ 104
    ∷ 106 ∷ 107 ∷ 108 ∷ 59 ∷ 39 ∷ 96 ∷ 0 ∷ 92 ∷ 122 ∷ 120 ∷ 99 ∷ 118 ∷ 98 ∷ 110 ∷ 109 ∷ 44 ∷ 46 ∷ 47
    ∷ 0 ∷ 42 ∷ 0 ∷ 32 ∷ []

abbrev pub sc_ascii_shift : List ℕ
sc_ascii_shift =
    0 ∷ 27 ∷ 33 ∷ 64 ∷ 35 ∷ 36 ∷ 37 ∷ 94 ∷ 38 ∷ 42 ∷ 40 ∷ 41 ∷ 95 ∷ 43 ∷ 8 ∷ 9 ∷ 81 ∷ 87 ∷ 69 ∷ 82
    ∷ 84 ∷ 89 ∷ 85 ∷ 73 ∷ 79 ∷ 80 ∷ 123 ∷ 125 ∷ 10 ∷ 0 ∷ 65 ∷ 83 ∷ 68 ∷ 70 ∷ 71 ∷ 72 ∷ 74 ∷ 75 ∷ 76
    ∷ 58 ∷ 34 ∷ 126 ∷ 0 ∷ 124 ∷ 90 ∷ 88 ∷ 67 ∷ 86 ∷ 66 ∷ 78 ∷ 77 ∷ 60 ∷ 62 ∷ 63 ∷ 0 ∷ 42 ∷ 0 ∷ 32
    ∷ []

pub record Keyboard : Type 0 where
  pub kbuf : List ℕ
  pub khead : ℕ
  pub ktail : ℕ
  pub shift : Bool
  pub caps : Bool

-- `kpush`
unfoldable pub kpush : Keyboard → ℕ → Keyboard
kpush k c =
    let n = (k.khead + 1) % kbd_buf in
    if not (n == k.ktail) then record k { kbuf = set k.kbuf k.khead c; khead = n } else k

-- `c>='a' && c<='z'`
abbrev pub is_lower : ℕ → Bool
is_lower c = leb 97 c && leb c 122

abbrev pub is_upper : ℕ → Bool
is_upper c = leb 65 c && leb c 90

-- The character of a key that is pressed, 0 for none.
unfoldable pub key_char : Bool → Bool → ℕ → ℕ
key_char shift caps sc =
    let c = get_or (if shift then sc_ascii_shift else sc_ascii) sc 0 in
    if caps && is_lower c then c - 32 else if caps && is_upper c then c + 32 else c

-- `handle_scancode`
unfoldable pub handle_scancode : Keyboard → ℕ → Keyboard
handle_scancode k sc =
    let c = key_char k.shift k.caps sc in
    if sc == 0x2A || sc == 0x36
    then record k { shift = true }
    else if sc == 0xAA || sc == 0xB6
    then record k { shift = false }
    else if sc == 0x3A
    then record k { caps = not k.caps }
    else if leb 0x80 sc
    then k
    else if not (c == 0)
    then kpush k c
    else k

-- `keyboard_poll`: every scancode that waits is handled.
unfoldable pub poll : Keyboard → List ℕ → Keyboard
poll k [] = k
poll k (sc ∷ scs) = poll (handle_scancode k sc) scs

-- `keyboard_init`: what waits in the controller is dropped.
unfoldable pub init : Keyboard → Keyboard
init k = record k { khead = 0; ktail = 0; shift = false; caps = false }

-- `keyboard_has_char`
unfoldable pub has_char : Keyboard → List ℕ → Bool × Keyboard
has_char k scs = let k' = poll k scs in (not (k'.khead == k'.ktail), k')

-- `keyboard_try_getc`: the character, if there is one.
unfoldable pub try_getc : Keyboard → List ℕ → Option ℕ × Keyboard
try_getc k scs =
    let k' = poll k scs in
    if k'.khead == k'.ktail
    then (none, k')
    else (some (get_or k'.kbuf k'.ktail 0), record k' { ktail = (k'.ktail + 1) % kbd_buf })
