-- ===== src/Editor/Tests.antt =====
-- Runs of the editor, and its theorems at a text of two lines.
use strixos.Prelude.{
  ℕ, ◌+◌, ◌≤◌, ◌<◌, ◌≡◌, refl, ltb, if◌then◌else◌, true, false, ◌⊎◌, Option, none, some, List, [],
  ◌∷◌, replicate, arith,
}
use strixos.Buffer.{move_up, move_down}
use strixos.Buffer.Text.{erase}
use strixos.Heap.{
  Heap, put, heap_magic, kmalloc, find_free, carve, kfree, find_prev, absorb_next, absorb_into,
}
use strixos.Initrd.{find_file, save, store}
use strixos.Vfs.{File, blank, file_at}
use strixos.Vfs.Tests.{disk, heap, disk-IsValid}
use strixos.Editor.{
  typing, closed, start, finish, Editor, insert_key, backspace, line_start, line_end, cut_line,
  edit_key, arrow, press, save_text, press_all,
}
use strixos.Editor.Bounds.{InBounds, Within, press_all-InBounds}
use strixos.Editor.Text.{text, StartsAt, EndsAt, cut_line_lem}
use strixos.Editor.Save.{save_and_load}

-- "ab\ncd", with the cursor in front of the "d", under the name "c".
abbrev two_lines : Editor
two_lines = record {
  filename = 99 ∷ [];
  buf = 97 ∷ 98 ∷ 10 ∷ 99 ∷ 100 ∷ replicate 8187 0;
  buf_ptr = 0x300000;
  len = 5;
  cur = 4;
  modified = true;
  mode = typing;
  disk = disk;
  heap = heap;
}

two_lines-InBounds : InBounds two_lines
two_lines-InBounds = record { room = refl; length_below = omega arith; cursor_inside = omega arith }

abbrev result_text : Option Editor → List ℕ
result_text none = []
result_text (some e) = e.cur ∷ text e

-- Left, an "x", and the rest of the line cut.
keys : result_text (press_all 0 two_lines (27 ∷ 91 ∷ 68 ∷ 120 ∷ 11 ∷ [])) ≡ 3 ∷ 97 ∷ 98 ∷ 10 ∷ []
unfolding press_all press edit_key arrow insert_key cut_line line_start line_end move_up move_down
keys = refl

-- Backspace twice, and the line before it cut from its end.
more_keys : result_text (press_all 0 two_lines (8 ∷ 127 ∷ 11 ∷ [])) ≡ 0 ∷ []
unfolding press_all press edit_key backspace cut_line line_start line_end move_down
more_keys = refl

-- An "x", ^O with memory for the text, ^K, and ^X.
saved_keys : result_text (press_all 9 two_lines (120 ∷ 15 ∷ 11 ∷ 24 ∷ [])) ≡ 3 ∷ 97 ∷ 98 ∷ 10 ∷ []
unfolding press_all press edit_key insert_key cut_line line_start line_end move_up move_down
    save_text kmalloc find_free save store find_file
saved_keys = refl

-- An "x", ^O with memory for the text, ^K, and ^X.
press_all-InBounds_example :
    Within 9 two_lines (120 ∷ 15 ∷ 11 ∷ 24 ∷ []) (press_all 9 two_lines (120 ∷ 15 ∷ 11 ∷ 24 ∷ []))
press_all-InBounds_example =
    press_all-InBounds 9 two_lines (120 ∷ 15 ∷ 11 ∷ 24 ∷ []) two_lines-InBounds

cut_line_lem_example :
    (ls : ℕ) × (le : ℕ) × StartsAt two_lines.buf 4 ls
    × EndsAt two_lines.buf 4 5 le
    × (text (edit_key two_lines 11) ≡ erase (text two_lines) ls (if ltb le 5 then le + 1 else le))
    × ((edit_key two_lines 11).cur
        ≡ (if ltb (edit_key two_lines 11).len 4 then (edit_key two_lines 11).len else 4))
cut_line_lem_example = cut_line_lem two_lines two_lines-InBounds

missing : find_file disk.files (99 ∷ []) 0 2 ≡ none
unfolding find_file
missing = refl

-- The buffer of the editor, and a free block of 16384 bytes behind it.
abbrev roomy : Heap
roomy = record {
  headers =
      put
        (put (λ a. record { size = 0; free = false; magic = 0; next = 0 }) 0x200000
          (record { size = 8192; free = false; magic = heap_magic; next = 0x202018 }))
        0x202018 (record { size = 16384; free = true; magic = heap_magic; next = 0 });
  bytes = λ a. 0;
  heap_base = 0x200000;
  head = 0x200000;
}

abbrev session : Editor
session = record two_lines { heap = roomy; buf_ptr = 0x200018 }

session-InBounds : InBounds session
session-InBounds = record { room = refl; length_below = omega arith; cursor_inside = omega arith }

-- The heap behind the save, behind the end of the first editor, and behind the start of the second.
abbrev with_text : Heap
with_text = record roomy { headers = carve roomy.headers 0x202018 16 }

abbrev without_buffer : Heap
without_buffer = record roomy {
  headers =
      absorb_into
        (absorb_next
          (put with_text.headers 0x200000 (record (with_text.headers 0x200000) { free = true }))
          0x200000)
        0 0x200000;
}

abbrev with_buffer : Heap
with_buffer = record roomy { headers = carve without_buffer.headers 0x200000 8192 }

given : kmalloc 9 roomy 5 ≡ some (0x202030, with_text)
unfolding kmalloc find_free
given = refl

freed : kfree 9 with_text 0x200018 ≡ some without_buffer
unfolding kfree find_prev carve absorb_next
freed = refl

given_again : kmalloc 9 without_buffer 8192 ≡ some (0x200018, with_buffer)
unfolding kmalloc find_free absorb_into absorb_next carve
given_again = refl

save_and_load_example :
    (e' : Editor) × (h : Heap) × (press_all 9 session (15 ∷ 24 ∷ []) ≡ some e')
    × (e'.mode ≡ closed)
    × (text e' ≡ text session)
    × (e'.modified ≡ false)
    × (finish 9 e' ≡ some h)
    × (((i : ℕ) → 3 ≤ i → i < 16 → (file_at (replicate 16 blank) i).used ≡ true)
        ⊎ ((e'' : Editor) × (fds' : List File) × (start 9 e'.disk h (replicate 16 blank) (99 ∷ [])
              ≡ some (some e'', fds'))
            × (e''.filename ≡ 99 ∷ [])
            × (text e'' ≡ text session)))
save_and_load_example =
    save_and_load 9 session 99 [] 0x202030 0x200018 with_text without_buffer with_buffer
      (replicate 16 blank) session-InBounds refl refl disk-IsValid (omega arith) (ground arith)
      (omega arith) missing given (omega arith) freed given_again (omega arith) refl
