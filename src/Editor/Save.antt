-- ===== src/Editor/Save.antt =====
-- A text that is saved, and loaded when the editor is started again.
use strixos.Prelude.{
  ℕ, ◌≤◌, ◌<◌, ◌≡◌, refl, ◌∙◌, ap, ◌++◌, [], drop, replicate, take-all, take-append, ◌≢◌, ◌==◌,
  ==_ne, if◌then◌else◌, true, false, inl, inr, ◌⊎◌, none, some, List, ◌∷◌, length, length-take, min,
  arith,
}
use strixos.Heap.{Heap, kmalloc, kfree}
use strixos.Heap.Bytes.{with_bytes, kmalloc-with_bytes, kfree-with_bytes}
use strixos.Initrd
use strixos.Initrd.{Initrd, Entry, ok, find_file, skip_slash}
use strixos.Vfs.{File, file_at, lookup, open_file, read, bytes_at}
use strixos.Vfs.Open.{open_file_lem}
use strixos.Vfs.Save.{IsValid, save_new}
use strixos.Editor.{
  typing, closed, Editor, file_name, save_text, edit_key, press, press_all, load, start, finish,
}
use strixos.Editor.Bounds.{InBounds}
use strixos.Editor.Text.{text}

-- What the editor loads for the path of an entry, if there is a descriptor.
load_entry :
    (d : Initrd) (h : Heap) (fds : List File) (name : List ℕ) (e : Entry)
    → length fds ≡ 16
    → lookup d.files (skip_slash name) ≡ some e
    → e.size ≤ 8191
    → ((i : ℕ) → 3 ≤ i → i < 16 → (file_at fds i).used ≡ true)
      ⊎ ((load d h fds name).0 ≡ bytes_at h.bytes e.data_ptr e.size)
unfolding load
load_entry d h fds name e table found small =
    elim (open_file_lem d.files fds name 0 e table found (omega arith)) [
      | inl (gone, same, full) ↦ inl full
      | inr (fd, got, low, idle, least, opened, others, reads) ↦
          let all : min 8191 e.size ≡ e.size = omega arith in
          let content : (read h.bytes (open_file d.files fds name 0).1 fd 8191).0
              ≡ some (bytes_at h.bytes e.data_ptr e.size) =
            reads h.bytes 8191 (omega arith)
            ∙ ap (λ (n : ℕ). some (bytes_at h.bytes e.data_ptr n)) all in
          inr (rw (load, got, content) refl)
    ]

-- The editor that starts on a name of at most 63 characters without a slash in front.
start-loads :
    (fuel : ℕ) (d : Initrd) (h g : Heap) (p : ℕ) (fds : List File) (c : ℕ) (cs t : List ℕ)
    → c ≢ 47
    → length cs < 31
    → kmalloc fuel h 8192 ≡ some (p, g)
    → 0 < p
    → (load d g fds (c ∷ cs)).0 ≡ t
    → (e : Editor) × (fds' : List File) × (start fuel d h fds (c ∷ cs) ≡ some (some e, fds'))
      × (e.filename ≡ c ∷ cs)
      × (text e ≡ t)
unfolding start
start-loads fuel d h g p fds c cs t first short got pos loaded =
    let slash : (c == 47) ≡ false = ==_ne c 47 first in
    let valid : (p == 0) ≡ false = ==_ne p 0 (omega arith) in
    let all : file_name (c ∷ cs) ≡ c ∷ cs =
      ap skip_slash (take-all 63 (c ∷ cs) (omega arith)) ∙ rw slash refl in
    let r = load d g fds (c ∷ cs) in
    (
      record {
        filename = c ∷ cs;
        buf = r.0 ++ drop (length r.0) (replicate 8192 0);
        buf_ptr = p;
        len = length r.0;
        cur = length r.0;
        modified = false;
        mode = typing;
        disk = d;
        heap = g;
      },
      r.1,
      rw (start, got, valid, all) refl,
      refl,
      take-append r.0 (drop (length r.0) (replicate 8192 0)) ∙ loaded,
    )

-- ^O and ^X in the main loop, in a disk with room and with memory for the text, under a new name of 1 to
-- 31 characters that does not start with a slash, and the buffer freed: the editor is closed with the same
-- text, no longer modified, and when it is started again on that name, with memory for its buffer, it
-- has the same text under the same name, unless every file descriptor from 3 on is in use.
pub save_and_load :
    (fuel : ℕ) (e : Editor) (c : ℕ) (cs : List ℕ) (p q : ℕ) (h1 h2 h3 : Heap) (fds : List File)
    → InBounds e
    → e.mode ≡ typing
    → e.filename ≡ c ∷ cs
    → IsValid e.disk
    → e.disk.count < 31
    → c ≢ 47
    → length cs < 31
    → find_file e.disk.files (c ∷ cs) 0 e.disk.count ≡ none
    → kmalloc fuel e.heap (if length (text e) == 0 then 1 else length (text e)) ≡ some (p, h1)
    → 0 < p
    → kfree fuel h1 e.buf_ptr ≡ some h2
    → kmalloc fuel h2 8192 ≡ some (q, h3)
    → 0 < q
    → length fds ≡ 16
    → (e' : Editor) × (h : Heap) × (press_all fuel e (15 ∷ 24 ∷ []) ≡ some e')
      × (e'.mode ≡ closed)
      × (text e' ≡ text e)
      × (e'.modified ≡ false)
      × (finish fuel e' ≡ some h)
      × (((i : ℕ) → 3 ≤ i → i < 16 → (file_at fds i).used ≡ true)
          ⊎ ((e'' : Editor) × (fds' : List File) × (start fuel e'.disk h fds (c ∷ cs)
                ≡ some (some e'', fds'))
              × (e''.filename ≡ c ∷ cs)
              × (text e'' ≡ text e)))
unfolding press save_text edit_key press_all finish
save_and_load fuel e c cs p q h1 h2 h3 fds bounds mode name valid few first short missing got pos
      left again pos' table =
    let (d, h, saved, valid', found, bytes, others, outside, same) =
      save_new fuel e.disk e.heap h1 c cs (text e) p valid few first short missing got pos in
    let slash : (c == 47) ≡ false = ==_ne c 47 first in
    let found' : lookup d.files (skip_slash (c ∷ cs))
        ≡ some (record { name = c ∷ cs; data_ptr = p; size = length (text e) }) =
      rw slash found in
    let ran : Initrd.save fuel e.disk e.heap e.filename (text e) ≡ some (ok, (d, h)) =
      ap (λ (n : List ℕ). Initrd.save fuel e.disk e.heap n (text e)) name ∙ saved in
    let freed : kfree fuel h e.buf_ptr ≡ some (with_bytes h.bytes h2) =
      ap (λ (k : Heap). kfree fuel k e.buf_ptr) same
      ∙ kfree-with_bytes fuel h1 h2 e.buf_ptr h.bytes left in
    let room : kmalloc fuel (with_bytes h.bytes h2) 8192 ≡ some (q, with_bytes h.bytes h3) =
      kmalloc-with_bytes fuel h2 h3 8192 q h.bytes again in
    let loaded =
      load_entry d (with_bytes h.bytes h3) fds (c ∷ cs)
        (record { name = c ∷ cs; data_ptr = p; size = length (text e) }) table found'
        (omega (arith, length-take e.len e.buf, bounds.length_below)) in
    (
      record e { disk = d; heap = h; modified = false; mode = closed },
      with_bytes h.bytes h2,
      rw (press_all, press, mode, save_text, ran) refl,
      refl,
      refl,
      refl,
      freed,
      elim loaded [
        | inl full ↦ inl full
        | inr read_back ↦ inr (
            start-loads fuel d (with_bytes h.bytes h2) (with_bytes h.bytes h3) q fds c cs (text e)
              first short room pos' (read_back ∙ bytes))
      ],
    )
