-- ===== src/Cat/Plain.antt =====
-- `cat` without options: it copies.
use strixos.Prelude.{
  ℕ, zero, suc, ◌+◌, ◌-◌, ◌*◌, ◌≤◌, ◌≡◌, refl, sym, ◌∙◌, ap, ap₂, ◌==◌, false, Bool-cases, inl, inr,
  Option, none, some, List, [], ◌∷◌, ◌++◌, append-nil, append_assoc, ◌≢◌, length, length-append,
  get_or-set, ==_ne, min, arith,
}
use strixos.Vfs
use strixos.Vfs.{File, blank, file_at, bytes_at}
use strixos.Vfs.Read.{IsOpen, advanced, file_at-set, bytes_at-append, read_lem, advanced-IsOpen}
use strixos.Cat.{Options, Lines, break_line, shown, one_line, cat_chunk, cat_loop}

abbrev pub plain : Options
plain = record {
  number = false;
  number_nb = false;
  show_ends = false;
  show_tabs = false;
  squeeze = false;
}

shown-plain : (cs : List ℕ) → shown false cs ≡ cs
unfolding shown
shown-plain [] = refl
shown-plain (c ∷ cs) = ap (c ∷◌) (shown-plain cs)

-- What follows the text of a line.
abbrev ending : Option (List ℕ) → List ℕ
ending none = []
ending (some cs) = 10 ∷ cs

break_line_lem : (cs : List ℕ) → (break_line cs).0 ++ ending (break_line cs).1 ≡ cs
unfolding break_line
break_line_lem [] = refl
break_line_lem (c ∷ cs) = elim (Bool-cases (c == 10)) [
  | inl e ↦ let is : c ≡ 10 = ground arith in rw e (ap (λ x. x ∷ cs) (sym is))
  | inr e ↦ rw e (ap (c ∷◌) (break_line_lem cs))
]

behind : Lines → List ℕ → Lines
behind st text = record { line = st.line + 1; prev_blank = length text == 0 }

one_line-none :
    (st : Lines) (text : List ℕ)
    → one_line plain st (text, none) ≡ some (text, record st { prev_blank = length text == 0 })
unfolding one_line
one_line-none st text =
    ap (λ t. some (t, record st { prev_blank = length text == 0 })) (shown-plain text)

one_line-some :
    (st : Lines) (text r : List ℕ)
    → one_line plain st (text, some r) ≡ some (text ++ (10 ∷ []), behind st text)
unfolding one_line behind
one_line-some st text r = ap (λ t. some (t ++ (10 ∷ []), behind st text)) (shown-plain text)

-- The chunk is copied.
Copies : ℕ → Lines → List ℕ → Type 0
Copies fuel st cs = (st' : Lines) × (cat_chunk fuel plain st cs ≡ some (cs, st'))

cat_chunk-plain : (fuel : ℕ) (st : Lines) (cs : List ℕ) → length cs ≤ fuel → Copies fuel st cs
unfolding Copies cat_chunk
cat_chunk-plain fuel st [] le = (st, refl)
cat_chunk-plain zero st (c ∷ cs) le = absurd (omega arith)
cat_chunk-plain (suc fuel) st (c ∷ cs) le =
    by_rest (break_line (c ∷ cs)).0 (break_line (c ∷ cs)).1 refl (break_line_lem (c ∷ cs))
      (λ st r le. cat_chunk-plain fuel st r le)
  where
    by_rest :
        (text : List ℕ) (rest : Option (List ℕ))
        → break_line (c ∷ cs) ≡ (text, rest)
        → text ++ ending rest ≡ c ∷ cs
        → ((st : Lines) (r : List ℕ) → length r ≤ fuel → Copies fuel st r)
        → Copies (suc fuel) st (c ∷ cs)
    by_rest text none e whole again = (
      record st { prev_blank = length text == 0 },
      rw (cat_chunk, e, one_line-none st text, e)
          (ap (λ (t : List ℕ). some (t, record st { prev_blank = length text == 0 }))
            (sym (append-nil text) ∙ whole)),
    )
    by_rest text (some r) e whole again =
        let shorter : length r ≤ fuel =
          omega (arith, ap length whole, length-append text (10 ∷ r)) in
        let (st', more) = again (behind st text) r shorter in
        (
          st',
          rw (cat_chunk, e, one_line-some st text r, e, more)
              (ap (λ (t : List ℕ). some (t, st')) (append_assoc text (10 ∷ []) r ∙ whole)),
        )

module _ {S : Type 0} (next : S → Option (List ℕ) × S) where
  cat_loop_stop :
      (fuel : ℕ) (o : Options) (st : Lines) (s : S)
      → (next s).0 ≡ some []
      → cat_loop next (suc fuel) o st s ≡ some ([], (next s).1)
  unfolding cat_loop
  cat_loop_stop fuel o st s e = rw (cat_loop, e) refl

  cat_loop_step :
      (fuel : ℕ) (o : Options) (st st' : Lines) (s end : S) (c : ℕ) (cs out more : List ℕ)
      → (next s).0 ≡ some (c ∷ cs)
      → cat_chunk (suc (length cs)) o st (c ∷ cs) ≡ some (out, st')
      → cat_loop next fuel o st' (next s).1 ≡ some (more, end)
      → cat_loop next (suc fuel) o st s ≡ some (out ++ more, end)
  unfolding cat_loop
  cat_loop_step fuel o st st' s end c cs out more e chunk rest = rw (cat_loop, e, chunk, rest) refl

-- The descriptors in which only `fd` has changed, and is still open.
unfoldable pub Behind : ℕ → List File → List File → Type 0
Behind fd fds end = IsOpen end fd × ((j : ℕ) → j ≢ fd → file_at end j ≡ file_at fds j)

advanced-Behind :
    (fds : List File) (fd n : ℕ)
    → IsOpen fds fd
    → n ≤ (file_at fds fd).size - (file_at fds fd).offset
    → Behind fd fds (advanced fds fd n)
unfolding Behind
advanced-Behind fds fd n open_fd le = (
  advanced-IsOpen fds fd n open_fd le,
  λ j ne.
      let away : (fd == j) ≡ false = ==_ne fd j (λ e. ne (sym e)) in
      get_or-set fds fd j _ blank (omega (arith, open_fd.table, open_fd.in_table)) ∙ rw away refl,
)

-- What the loop copies from `p` on.
unfoldable pub Copied : (ℕ → ℕ) → ℕ → ℕ → Lines → List File → ℕ → ℕ → Type 0
Copied m fd fuel st fds p n =
    (end : List File) × ((cat_loop (λ fds. Vfs.read m fds fd 128) fuel plain st fds
        ≡ some (bytes_at m p n, end))
      × Behind fd fds end)

-- The reads of an open file copy what is left of it.
pub cat_loop-plain :
    (m : ℕ → ℕ) (fd fuel : ℕ) (st : Lines) (fds : List File) (p n : ℕ)
    → IsOpen fds fd
    → (file_at fds fd).data_ptr + (file_at fds fd).offset ≡ p
    → (file_at fds fd).size - (file_at fds fd).offset ≡ n
    → n + 128 ≤ 128 * fuel
    → Copied m fd fuel st fds p n
unfolding Copied Behind Copies bytes_at
cat_loop-plain m fd zero st fds p n open_fd at len le = absurd (omega arith)
cat_loop-plain m fd (suc fuel) st fds p n open_fd at len le =
    by_count (min 128 n) refl got (λ st' k less.
      cat_loop-plain m fd fuel st' (advanced fds fd k) (p + k) (n - k)
        (advanced-IsOpen fds fd k open_fd (omega (arith, less, len)))
        (omega (arith, at, ap (λ f. f.data_ptr) (own k), ap (λ f. f.offset) (own k)))
        (omega (arith, len, ap (λ f. f.size) (own k), ap (λ f. f.offset) (own k))))
  where
    got : Vfs.read m fds fd 128 ≡ (some (bytes_at m p (min 128 n)), advanced fds fd (min 128 n))
    got =
        read_lem m fds fd 128 open_fd (omega arith)
        ∙ ap₂ (λ (a b : ℕ). (some (bytes_at m a (min 128 b)), advanced fds fd (min 128 b))) at len

    own :
        (k : ℕ)
        → file_at (advanced fds fd k) fd
          ≡ record (file_at fds fd) { offset = (file_at fds fd).offset + k }
    own k = file_at-set fds fd _ (omega (arith, open_fd.table, open_fd.in_table))

    by_count :
        (k : ℕ)
        → min 128 n ≡ k
        → Vfs.read m fds fd 128 ≡ (some (bytes_at m p k), advanced fds fd k)
        → ((st' : Lines) (k : ℕ)
            → k ≤ n
            → (n - k) + 128 ≤ 128 * fuel
            → Copied m fd fuel st' (advanced fds fd k) (p + k) (n - k))
        → Copied m fd (suc fuel) st fds p n
    by_count zero none_left read again =
        let z : 0 ≡ n = omega arith in
        (
          advanced fds fd 0,
          (
            cat_loop_stop (λ fds. Vfs.read m fds fd 128) fuel plain st fds (ap (λ r. r.0) read)
                ∙ ap₂ (λ (i : ℕ) (e : List File). some (bytes_at m p i, e)) z (ap (λ r. r.1) read),
            advanced-Behind fds fd 0 open_fd (omega arith),
          ),
        )
    by_count (suc k) some_left read again =
        let chunk : List ℕ = bytes_at m (p + 1) k in
        let (st', copied) = cat_chunk-plain (suc (length chunk)) st (m p ∷ chunk) (omega arith) in
        let (end, (rest, (opened, others))) = again st' (suc k) (omega arith) (omega arith) in
        let step =
          cat_loop_step (λ fds. Vfs.read m fds fd 128) fuel plain st st' fds end (m p) chunk
            (m p ∷ chunk) (bytes_at m (p + suc k) (n - suc k)) (ap (λ r. r.0) read) copied
            (ap
                (λ (r : Option (List ℕ) × List File).
                  cat_loop (λ fds. Vfs.read m fds fd 128) fuel plain st' r.1)
                read
              ∙ rest) in
        let whole : suc k + (n - suc k) ≡ n = omega arith in
        (
          end,
          (
            step
                ∙ ap (λ (bs : List ℕ). some (bs, end))
                    (sym (bytes_at-append m p (suc k) (n - suc k)) ∙ ap (bytes_at m p) whole),
            (
              opened,
              λ j ne. others j ne ∙ (advanced-Behind fds fd (suc k) open_fd (omega arith)).1 j ne,
            ),
          ),
        )
