-- ===== src/Shell/Bounds.antt =====
-- kernel/shell.c: the bounds of the line and the history through every key, the tab key included.
use strixos.Prelude.{
  ℕ, zero, suc, ◌+◌, ◌-◌, ◌<◌, ◌≡◌, drop, min, if◌then◌else◌, not, refl, ◌∙◌, ◌==◌, ltb, leb,
  if_both, Bool-cases, inl, inr, ◌&&◌, ◌||◌, List, [], ◌∷◌, length, length-set, take, get_or, set,
  arith,
}
use strixos.Buffer.{move_up, length-move_up}
use strixos.Shell.{Shell, space, max_line}
use strixos.Shell.Complete.{
  cmds, move_up_by, copy_at, insert_here, all_have, insert_common, insert_match, wstart, use_files,
  matching, apply_matches, complete,
}
use strixos.Shell.Feed.{Input, plain, tab, sequence, newline, step, feed}
use strixos.Shell.Keys.{InBounds, line-InBounds, enter-InBounds, escape-InBounds, key-InBounds}

length-move_up_by :
    (by : ℕ) (line : List ℕ) (pos n : ℕ) → length (move_up_by by line pos n) ≡ length line
unfolding move_up_by
length-move_up_by by line pos zero = refl
length-move_up_by by line pos (suc n) =
    length-move_up_by by (set line (pos + n + by) (get_or line (pos + n) 0)) pos n
    ∙ length-set line (pos + n + by) (get_or line (pos + n) 0)

length-copy_at : (line : List ℕ) (i : ℕ) (cs : List ℕ) → length (copy_at line i cs) ≡ length line
unfolding copy_at
length-copy_at line i [] = refl
length-copy_at line i (c ∷ cs) = length-copy_at (set line i c) (i + 1) cs ∙ length-set line i c

insert_here-InBounds : (s : Shell) (c : ℕ) → InBounds s → s.len < 127 → InBounds (insert_here s c)
unfolding insert_here
insert_here-InBounds s c h lt =
    line-InBounds s (set (move_up s.line s.len (s.len - s.pos)) s.pos c) (s.len + 1) (s.pos + 1) h
      (length-set (move_up s.line s.len (s.len - s.pos)) s.pos c
        ∙ length-move_up s.line s.len (s.len - s.pos))
      (omega arith) (omega (arith, h.cursor_inside))

insert_common-InBounds :
    (s : Shell) (ms : List (List ℕ)) (common : ℕ) (rest : List ℕ)
    → InBounds s
    → InBounds (insert_common s ms common rest)
unfolding insert_common
insert_common-InBounds s ms common [] h = h
insert_common-InBounds s ms common (ch ∷ rest) h =
    elim (Bool-cases (all_have common ch ms && ltb (s.len + 1) max_line)) [
      | inl go ↦
          rw (insert_common, go)
            (insert_common-InBounds (insert_here s ch) ms (common + 1) rest
              (insert_here-InBounds s ch h (ground (arith, go))))
      | inr stop ↦ rw (insert_common, stop) h
    ]

insert_match-InBounds :
    (s : Shell) (plen : ℕ) (m : List ℕ) → InBounds s → InBounds (insert_match s plen m)
unfolding insert_match
insert_match-InBounds s plen m h =
    let need : ℕ = length m - plen in
    let line : List ℕ =
      copy_at (move_up_by need s.line s.pos (s.len - s.pos)) s.pos (drop plen m) in
    let s' : Shell = record s { line = line; len = s.len + need; pos = s.pos + need } in
    elim (Bool-cases (leb max_line (s.len + need + 1))) [
      | inl full ↦ rw full h
      | inr free ↦
          let small : s.len + need < 127 = ground (arith, free) in
          let in_bounds : InBounds s' =
            line-InBounds s line (s.len + need) (s.pos + need) h
              (length-copy_at (move_up_by need s.line s.pos (s.len - s.pos)) s.pos (drop plen m)
                ∙ length-move_up_by need s.line s.pos (s.len - s.pos))
              (omega arith) (omega (arith, h.cursor_inside)) in
          rw free (
            if_both InBounds (leb s'.len s'.pos || not (get_or s'.line s'.pos 0 == space)) _ _
              (insert_here-InBounds s' space in_bounds small) in_bounds)
    ]

complete-InBounds : (s : Shell) (files : List (List ℕ)) → InBounds s → InBounds (complete s files)
unfolding complete apply_matches
complete-InBounds s files h = by_matches (min 31 (s.pos - wstart s)) (
    take 16 (
      matching (take (min 31 (s.pos - wstart s)) (drop (wstart s) s.line))
        (if use_files s then take 16 files else cmds)))
  where
    by_matches : (plen : ℕ) (ms : List (List ℕ)) → InBounds (apply_matches s plen ms)
    by_matches plen [] = h
    by_matches plen (m ∷ []) = insert_match-InBounds s plen m h
    by_matches plen (m ∷ n ∷ ms) = insert_common-InBounds s (m ∷ n ∷ ms) plen (drop plen m) h

step-InBounds : (s : Shell) (i : Input) → InBounds s → InBounds (step s i)
unfolding step
step-InBounds s (plain c) h = key-InBounds s c h
step-InBounds s (tab files) h = complete-InBounds s files h
step-InBounds s (sequence n2 n3) h = escape-InBounds s n2 n3 h
step-InBounds s newline h = enter-InBounds s h

-- Whatever is typed, the tab key with any names of files included, the line stays below 128 characters with
-- the cursor inside it, the history keeps 32 lines of at most 127 characters, and the position in it does
-- not go beyond its end.
pub feed-InBounds : (s : Shell) (is : List Input) → InBounds s → InBounds (feed s is)
unfolding feed
feed-InBounds s [] h = h
feed-InBounds s (i ∷ is) h = feed-InBounds (step s i) is (step-InBounds s i h)
