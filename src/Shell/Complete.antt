-- ===== src/Shell/Complete.antt =====
-- kernel/shell.c: the tab key. The names of the files are those that `collect_files` finds.
use strixos.Prelude.{
  ℕ, ◌+◌, ◌-◌, ◌==◌, ltb, leb, if◌then◌else◌, Bool, true, false, not, ◌&&◌, ◌||◌, Option, none,
  some, List, [], ◌∷◌, zero, suc, length, take, drop, min, get_or, set,
}
use strixos.Buffer.{move_up}
use strixos.Initrd.{is_equal}
use strixos.Shell.{Shell, max_line, space, back_while, is_other}

-- `cmds`
abbrev pub cmds : List (List ℕ)
cmds =
    (108 ∷ 115 ∷ [])
    ∷ (99 ∷ 97 ∷ 116 ∷ [])
    ∷ (101 ∷ 99 ∷ 104 ∷ 111 ∷ [])
    ∷ (99 ∷ 108 ∷ 101 ∷ 97 ∷ 114 ∷ [])
    ∷ (104 ∷ 101 ∷ 108 ∷ 112 ∷ [])
    ∷ (112 ∷ 115 ∷ [])
    ∷ (109 ∷ 111 ∷ 100 ∷ 108 ∷ 115 ∷ [])
    ∷ (102 ∷ 97 ∷ 116 ∷ 108 ∷ 115 ∷ [])
    ∷ (102 ∷ 97 ∷ 116 ∷ 99 ∷ 97 ∷ 116 ∷ [])
    ∷ (101 ∷ 108 ∷ 102 ∷ 116 ∷ 101 ∷ 115 ∷ 116 ∷ [])
    ∷ (110 ∷ 101 ∷ 116 ∷ 116 ∷ 101 ∷ 115 ∷ 116 ∷ [])
    ∷ (104 ∷ 105 ∷ 115 ∷ 116 ∷ 111 ∷ 114 ∷ 121 ∷ [])
    ∷ (117 ∷ 110 ∷ 97 ∷ 109 ∷ 101 ∷ [])
    ∷ (101 ∷ 120 ∷ 105 ∷ 116 ∷ [])
    ∷ (113 ∷ 117 ∷ 105 ∷ 116 ∷ [])
    ∷ (99 ∷ 108 ∷ 115 ∷ [])
    ∷ (118 ∷ 105 ∷ 109 ∷ [])
    ∷ (118 ∷ 105 ∷ [])
    ∷ (110 ∷ 97 ∷ 110 ∷ 111 ∷ [])
    ∷ (101 ∷ 100 ∷ 105 ∷ 116 ∷ [])
    ∷ (101 ∷ 100 ∷ 105 ∷ 116 ∷ 111 ∷ 114 ∷ [])
    ∷ (110 ∷ 97 ∷ 110 ∷ 111 ∷ 45 ∷ 111 ∷ 102 ∷ 102 ∷ 105 ∷ 99 ∷ 105 ∷ 97 ∷ 108 ∷ [])
    ∷ (108 ∷ 111 ∷ 97 ∷ 100 ∷ 101 ∷ 108 ∷ 102 ∷ [])
    ∷ (112 ∷ 111 ∷ 119 ∷ 101 ∷ 114 ∷ 111 ∷ 102 ∷ 102 ∷ [])
    ∷ (115 ∷ 104 ∷ 117 ∷ 116 ∷ 100 ∷ 111 ∷ 119 ∷ 110 ∷ [])
    ∷ (114 ∷ 101 ∷ 98 ∷ 111 ∷ 111 ∷ 116 ∷ [])
    ∷ (104 ∷ 97 ∷ 108 ∷ 116 ∷ [])
    ∷ (116 ∷ 111 ∷ 117 ∷ 99 ∷ 104 ∷ [])
    ∷ (97 ∷ 100 ∷ 109 ∷ 105 ∷ 110 ∷ [])
    ∷ (115 ∷ 117 ∷ 100 ∷ 111 ∷ [])
    ∷ (115 ∷ 116 ∷ 120 ∷ 118 ∷ 101 ∷ 114 ∷ [])
    ∷ (110 ∷ 101 ∷ 111 ∷ 102 ∷ 101 ∷ 116 ∷ 99 ∷ 104 ∷ [])
    ∷ []

-- The commands whose words are names of files.
abbrev file_cmds : List (List ℕ)
file_cmds =
    (99 ∷ 97 ∷ 116 ∷ [])
    ∷ (102 ∷ 97 ∷ 116 ∷ 99 ∷ 97 ∷ 116 ∷ [])
    ∷ (118 ∷ 105 ∷ 109 ∷ [])
    ∷ (118 ∷ 105 ∷ [])
    ∷ (110 ∷ 97 ∷ 110 ∷ 111 ∷ [])
    ∷ (101 ∷ 100 ∷ 105 ∷ 116 ∷ [])
    ∷ (116 ∷ 111 ∷ 117 ∷ 99 ∷ 104 ∷ [])
    ∷ []

-- `for(i=len-1;i>=pos;i--) line[i+by]=line[i];`, with `n` rounds left.
unfoldable pub move_up_by : ℕ → List ℕ → ℕ → ℕ → List ℕ
move_up_by by line pos zero = line
move_up_by by line pos (suc n) =
    move_up_by by (set line (pos + n + by) (get_or line (pos + n) 0)) pos n

-- `for(i=0;i<need;i++) line[pos+i]=m[plen+i];`
unfoldable pub copy_at : List ℕ → ℕ → List ℕ → List ℕ
copy_at line i [] = line
copy_at line i (c ∷ cs) = copy_at (set line i c) (i + 1) cs

-- A character at the cursor, where there is room for it.
unfoldable pub insert_here : Shell → ℕ → Shell
insert_here s c = record s {
  line = set (move_up s.line s.len (s.len - s.pos)) s.pos c;
  len = s.len + 1;
  pos = s.pos + 1;
}

-- The characters in front of the first space, if there is one.
unfoldable pub first_word : List ℕ → Option (List ℕ)
first_word [] = none
first_word (c ∷ cs) =
    let rest : Option (List ℕ) = elim (first_word cs) [ none ↦ none | some w ↦ some (c ∷ w) ] in
    if c == space then some [] else rest

unfoldable pub is_among : List ℕ → List (List ℕ) → Bool
is_among w [] = false
is_among w (name ∷ names) = is_equal w name || is_among w names

-- `for(k=0;k<plen;k++) if(name[k]!=pref[k]) ok=0`. No character of the line is 0, so the loop stops at
-- the end of the name.
unfoldable pub starts_with : List ℕ → List ℕ → Bool
starts_with [] name = true
starts_with (c ∷ pref) [] = false
starts_with (c ∷ pref) (d ∷ name) = (c == d) && starts_with pref name

unfoldable pub matching : List ℕ → List (List ℕ) → List (List ℕ)
matching pref [] = []
matching pref (name ∷ names) =
    let rest = matching pref names in if starts_with pref name then name ∷ rest else rest

-- Does every name go on with `c` at `common`?
unfoldable pub all_have : ℕ → ℕ → List (List ℕ) → Bool
all_have common c [] = true
all_have common c (m ∷ ms) =
    (ltb common (length m) && (get_or m common 0 == c)) && all_have common c ms

-- `while(1)`: the characters that all matches share, from `common` on. The last argument is what the
-- first match has from there on.
unfoldable pub insert_common : Shell → List (List ℕ) → ℕ → List ℕ → Shell
insert_common s matches common [] = s
insert_common s matches common (ch ∷ rest) =
    elim (all_have common ch matches && ltb (s.len + 1) max_line) [
      | true ↦ insert_common (insert_here s ch) matches (common + 1) rest
      | false ↦ s
    ]

-- The one match: the characters behind its first `plen`, and a space if none follows.
unfoldable pub insert_match : Shell → ℕ → List ℕ → Shell
insert_match s plen m =
    let need = length m - plen in
    let s' : Shell = record s {
      line = copy_at (move_up_by need s.line s.pos (s.len - s.pos)) s.pos (drop plen m);
      len = s.len + need;
      pos = s.pos + need;
    } in
    if leb max_line (s.len + need + 1)
    then s
    else if leb s'.len s'.pos || not (get_or s'.line s'.pos 0 == space)
    then insert_here s' space
    else s'

-- Where the word in front of the cursor starts.
abbrev pub wstart : Shell → ℕ
wstart s = back_while is_other s.line s.pos

-- Are names of files completed, and not names of commands?
unfoldable pub use_files : Shell → Bool
use_files s = elim (first_word (take s.len s.line)) [
  | none ↦ false
  | some w ↦ is_among (take 15 w) file_cmds && not (wstart s == 0)
]

-- What the matches do to the line.
unfoldable pub apply_matches : Shell → ℕ → List (List ℕ) → Shell
apply_matches s plen [] = s
apply_matches s plen (m ∷ []) = insert_match s plen m
apply_matches s plen (m ∷ n ∷ ms) = insert_common s (m ∷ n ∷ ms) plen (drop plen m)

-- The tab key, where `files` are the names that `collect_files` finds.
unfoldable pub complete : Shell → List (List ℕ) → Shell
complete s files =
    let plen = min 31 (s.pos - wstart s) in
    let pref = take plen (drop (wstart s) s.line) in
    apply_matches s plen (take 16 (matching pref (if use_files s then take 16 files else cmds)))
