-- ===== src/Screen/Sequence.antt =====
-- kernel/fb.c and kernel/main.c: the text screen reads back the colours that `rgb_print` sends.
use strixos.Prelude.{
  ℕ, ◌+◌, ◌-◌, ◌*◌, ◌%◌, ◌≤◌, ◌<◌, ◌≡◌, refl, sym, ◌∙◌, ap, ap₂, ◌==◌, ltb, true, false, some, List,
  [], ◌∷◌, ◌++◌, append_assoc, append-nil, length, length-append, All, arith,
}
use strixos.Number.{decimal, Digit, read_number, read_number-decimal, All-append}
use strixos.Screen.Color.{vga_nearest, pack}
use strixos.Screen.{
  Screen, is_digit, parse_params, sgr, sgr_one, extended, escape, is_final, put_escape, putchar,
  puts,
}
use strixos.Screen.Print.{rgb_sequence}

pub puts-append : (s : Screen) (xs ys : List ℕ) → puts s (xs ++ ys) ≡ puts (puts s xs) ys
unfolding puts
puts-append s [] ys = refl
puts-append s (x ∷ xs) ys = puts-append (putchar s x) xs ys

-- Inside an escape sequence the characters that do not end it are kept.
abbrev Inner : ℕ → Type 0
Inner c = is_final c ≡ false

collect :
    (s : Screen) (cs : List ℕ)
    → s.in_esc ≡ true
    → All Inner cs
    → length s.esc_buf + length cs ≤ 31
    → puts s cs ≡ record s { esc_buf = s.esc_buf ++ cs }
unfolding puts putchar put_escape
collect s [] on inner le = ap (λ e. record s { esc_buf = e }) (sym (append-nil s.esc_buf))
collect s (c ∷ cs) on (i, inner) le =
    let room : ltb (length s.esc_buf) 31 ≡ true = ground arith in
    let step : putchar s c ≡ record s { esc_buf = s.esc_buf ++ c ∷ [] } =
      rw (putchar, put_escape, on, room, i) refl in
    let rest =
      collect (record s { esc_buf = s.esc_buf ++ c ∷ [] }) cs on inner
        (omega (arith, length-append s.esc_buf (c ∷ []))) in
    ap (λ t. puts t cs) step
    ∙ rest
    ∙ ap (λ e. record s { esc_buf = e }) (append_assoc s.esc_buf (c ∷ []) cs)

parse-digits :
    (ps ds cs : List ℕ) (cur : ℕ)
    → All Digit ds
    → parse_params ps (ds ++ cs) cur ≡ parse_params ps cs (read_number cur ds)
unfolding parse_params read_number
parse-digits ps [] cs cur all = refl
parse-digits ps (d ∷ ds) cs cur ((lo, hi), all) =
    let digit : is_digit d ≡ true = ground arith in
    let not_end : (d == 109) ≡ false = ground arith in
    let not_sep : (d == 59) ≡ false = ground arith in
    rw (not_end, digit, not_sep) (parse-digits ps ds cs (cur * 10 + (d - 48)) all)

digits-Inner : (ds : List ℕ) → All Digit ds → All Inner ds
digits-Inner [] all = tt
digits-Inner (d ∷ ds) ((lo, hi), all) = (ground arith, digits-Inner ds all)

-- The character that ends a colour sequence.
end_color :
    (s : Screen) (b ps : List ℕ)
    → length (91 ∷ b) < 31
    → parse_params [] (b ++ (109 ∷ [])) 0 ≡ ps
    → 0 < length ps
    → putchar (record s { in_esc = true; esc_buf = 91 ∷ b }) 109
      ≡ record (sgr 0 false ps (record s { in_esc = true; esc_buf = 91 ∷ (b ++ (109 ∷ [])) })) {
        in_esc = false;
        esc_buf = [];
      }
unfolding putchar put_escape escape
end_color s b ps room parsed some_ps =
    let fits : ltb (length (91 ∷ b)) 31 ≡ true = ground (arith, room) in
    let any : (length ps == 0) ≡ false = ground arith in rw (fits, parsed, any) refl

-- The sequence behind its first two characters.
module _ (tens : ℕ) (rs gs bs : List ℕ) where
  abbrev body : List ℕ
  body = tens ∷ 56 ∷ 59 ∷ 50 ∷ 59 ∷ (rs ++ (59 ∷ (gs ++ (59 ∷ bs))))

  abbrev ended : List ℕ
  ended = tens ∷ 56 ∷ 59 ∷ 50 ∷ 59 ∷ (rs ++ (59 ∷ (gs ++ (59 ∷ (bs ++ (109 ∷ []))))))

  body-append : body ++ (109 ∷ []) ≡ ended
  body-append =
      ap (λ t. tens ∷ 56 ∷ 59 ∷ 50 ∷ 59 ∷ t)
        (append_assoc rs (59 ∷ (gs ++ (59 ∷ bs))) (109 ∷ [])
          ∙ ap (λ t. rs ++ (59 ∷ t)) (append_assoc gs (59 ∷ bs) (109 ∷ [])))

  body-Inner : Digit tens → All Digit rs → All Digit gs → All Digit bs → All Inner (91 ∷ body)
  body-Inner (lo, hi) dr dg db = (
    refl,
    (
      ground arith,
      (
        refl,
        (
          refl,
          (
            refl,
            (
              refl,
              All-append Inner rs _ (digits-Inner rs dr)
                  (refl, All-append Inner gs _ (digits-Inner gs dg) (refl, digits-Inner bs db)),
            ),
          ),
        ),
      ),
    ),
  )

  parse-ended :
      Digit tens
      → All Digit rs
      → All Digit gs
      → All Digit bs
      → parse_params [] ended 0
        ≡ ((tens - 48) * 10 + 8) ∷ 2 ∷ read_number 0 rs ∷ read_number 0 gs ∷ read_number 0 bs ∷ []
  unfolding parse_params read_number
  parse-ended (lo, hi) dr dg db =
      let n : read_number 0 (tens ∷ 56 ∷ []) ≡ (tens - 48) * 10 + 8 = omega arith in
      parse-digits [] (tens ∷ 56 ∷ [])
        (59 ∷ 50 ∷ 59 ∷ (rs ++ (59 ∷ (gs ++ (59 ∷ (bs ++ (109 ∷ []))))))) 0
        ((lo, hi), ((omega arith, omega arith), tt))
      ∙ ap (λ k. parse_params (k ∷ 2 ∷ []) (rs ++ (59 ∷ (gs ++ (59 ∷ (bs ++ (109 ∷ [])))))) 0) n
      ∙ parse-digits (((tens - 48) * 10 + 8) ∷ 2 ∷ []) rs (59 ∷ (gs ++ (59 ∷ (bs ++ (109 ∷ []))))) 0
          dr
      ∙ parse-digits (((tens - 48) * 10 + 8) ∷ 2 ∷ read_number 0 rs ∷ []) gs
          (59 ∷ (bs ++ (109 ∷ []))) 0 dg
      ∙ parse-digits (((tens - 48) * 10 + 8) ∷ 2 ∷ read_number 0 rs ∷ read_number 0 gs ∷ []) bs
          (109 ∷ []) 0 db

  length-body : length rs ≤ 4 → length gs ≤ 4 → length bs ≤ 4 → length (91 ∷ body) < 31
  length-body lr lg lb =
      omega (arith, length-append rs (59 ∷ (gs ++ (59 ∷ bs))), length-append gs (59 ∷ bs))

  puts-ended :
      (s : Screen)
      → Digit tens
      → All Digit rs
      → All Digit gs
      → All Digit bs
      → length (91 ∷ body) < 31
      → s.in_esc ≡ false
      → puts s (27 ∷ 91 ∷ ended)
        ≡ record (sgr 0 false
            (((tens - 48) * 10 + 8)
              ∷ 2
              ∷ read_number 0 rs
              ∷ read_number 0 gs
              ∷ read_number 0 bs
              ∷ [])
            (record s { in_esc = true; esc_buf = 91 ∷ ended })) { in_esc = false; esc_buf = [] }
  unfolding puts putchar
  puts-ended s dt dr dg db room off =
      let start : putchar s 27 ≡ record s { in_esc = true; esc_buf = [] } = rw off refl in
      let split : puts (putchar s 27) (91 ∷ ended)
          ≡ puts (record s { in_esc = true; esc_buf = [] }) ((91 ∷ body) ++ (109 ∷ [])) =
        ap₂ puts start (ap (λ t. 91 ∷ t) (sym body-append)) in
      let kept =
        collect (record s { in_esc = true; esc_buf = [] }) (91 ∷ body) refl (body-Inner dt dr dg db)
          (omega (arith, room)) in
      split
      ∙ puts-append (record s { in_esc = true; esc_buf = [] }) (91 ∷ body) (109 ∷ [])
      ∙ ap (λ t. puts t (109 ∷ [])) kept
      ∙ end_color s body _ room
          (ap (λ t. parse_params [] t 0) body-append ∙ parse-ended dt dr dg db) (omega arith)
      ∙ ap
          (λ t.
            record (sgr 0 false
              (((tens - 48) * 10 + 8)
                ∷ 2
                ∷ read_number 0 rs
                ∷ read_number 0 gs
                ∷ read_number 0 bs
                ∷ [])
              (record s { in_esc = true; esc_buf = 91 ∷ t })) { in_esc = false; esc_buf = [] })
          body-append

sgr_fore :
    (s : Screen) (r g b : ℕ)
    → r < 256
    → g < 256
    → b < 256
    → sgr 0 false (38 ∷ 2 ∷ r ∷ g ∷ b ∷ []) s ≡ record s { fg = vga_nearest (pack r g b) }
unfolding sgr sgr_one extended
sgr_fore s r g b lr lg lb =
    let er : r % 256 ≡ r = omega arith in
    let eg : g % 256 ≡ g = omega arith in let eb : b % 256 ≡ b = omega arith in rw (er, eg, eb) refl

rgb_sequence-some :
    (tens r g b : ℕ) (rs gs bs : List ℕ)
    → decimal 4 r ≡ some rs
    → decimal 4 g ≡ some gs
    → decimal 4 b ≡ some bs
    → rgb_sequence tens r g b ≡ some (27 ∷ 91 ∷ ended tens rs gs bs)
unfolding rgb_sequence
rgb_sequence-some tens r g b rs gs bs er eg eb = rw (rgb_sequence, er, eg, eb) refl

sgr_fore_read :
    (s : Screen) (rs gs bs : List ℕ) (r g b : ℕ)
    → read_number 0 rs ≡ r
    → read_number 0 gs ≡ g
    → read_number 0 bs ≡ b
    → r < 256
    → g < 256
    → b < 256
    → sgr 0 false (38 ∷ 2 ∷ read_number 0 rs ∷ read_number 0 gs ∷ read_number 0 bs ∷ []) s
      ≡ record s { fg = vga_nearest (pack r g b) }
sgr_fore_read s rs gs bs r g b vr vg vb lr lg lb = rw (vr, vg, vb) (sgr_fore s r g b lr lg lb)

-- On a screen outside of an escape sequence, the sequence that `rgb_print` sends for a colour is read back to
-- that colour: the text takes the nearest of the 16 colours, and nothing else on the screen changes.
pub puts-rgb_sequence :
    (s : Screen) (r g b : ℕ)
    → s.in_esc ≡ false
    → r < 256
    → g < 256
    → b < 256
    → (seq : List ℕ) × ((rgb_sequence 51 r g b ≡ some seq)
        × (puts s seq ≡ record s { fg = vga_nearest (pack r g b); in_esc = false; esc_buf = [] }))
puts-rgb_sequence s r g b off lr lg lb =
    let (rs, (er, (vr, (dr, (pr, nr))))) = read_number-decimal 4 r (omega arith) (omega arith) in
    let (gs, (eg, (vg, (dg, (pg, ng))))) = read_number-decimal 4 g (omega arith) (omega arith) in
    let (bs, (eb, (vb, (db, (pb, nb))))) = read_number-decimal 4 b (omega arith) (omega arith) in
    (
      27 ∷ 91 ∷ ended 51 rs gs bs,
      (
        rgb_sequence-some 51 r g b rs gs bs er eg eb,
        puts-ended 51 rs gs bs s (omega arith, omega arith) dr dg db
              (length-body 51 rs gs bs nr ng nb) off
            ∙ ap (λ (t : Screen). record t { in_esc = false; esc_buf = [] })
                (sgr_fore_read (record s { in_esc = true; esc_buf = 91 ∷ ended 51 rs gs bs }) rs gs
                  bs r g b vr vg vb lr lg lb),
      ),
    )
