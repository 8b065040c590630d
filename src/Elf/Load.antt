-- ===== src/Elf/Load.antt =====
-- kernel/elf.c: the memory behind `elf_load`.
use mathlib.Core.Bool.{true≢false}
use strixos.Prelude.{
  ℕ, zero, suc, ◌+◌, ◌-◌, ◌*◌, ◌^◌, ◌≤◌, ◌<◌, ◌≡◌, refl, sym, ◌∙◌, ap, subst, ◌⊎◌, inl, inr, ◌==◌,
  ltb, leb, if◌then◌else◌, Bool, true, false, Bool-cases, ◌&&◌, some, add64, arith,
}
use strixos.Elf.Memory.{
  Agree, number_at-Agree, segment_at-Agree, copy_inside, copy_outside, clear_inside, clear_outside,
}
use strixos.Elf.{
  Segment, segment_at, copy, clear_bytes, is_loaded, load_segment, load_all, elf_check, entry_of,
  phoff_of, phnum_of, elf_load,
}

-- The bytes of a segment in memory.
abbrev pub span : Segment → ℕ
span s = s.filesz + (s.memsz - s.filesz)

-- The address is one of a segment that is copied.
abbrev pub covers : Segment → ℕ → Bool
covers s a = is_loaded s && (leb s.vaddr a && ltb a (s.vaddr + span s))

-- The byte that belongs at the address: one of the file, or 0 behind them.
abbrev pub loaded_byte : (ℕ → ℕ) → ℕ → Segment → ℕ → ℕ
loaded_byte m image s a =
    if ltb (a - s.vaddr) s.filesz then m (image + s.off + (a - s.vaddr)) else 0

load_segment_outside :
    (m : ℕ → ℕ) (image : ℕ) (s : Segment) (a : ℕ)
    → covers s a ≡ false
    → load_segment m image s a ≡ m a
unfolding load_segment
load_segment_outside m image s a out = elim (Bool-cases (is_loaded s)) [
  | inr e ↦ rw e refl
  | inl e ↦
      let away : (a < s.vaddr) ⊎ (s.vaddr + span s ≤ a) = ground (arith, out, e) in
      rw e (
        clear_outside (copy m s.vaddr (add64 image s.off) s.filesz) (s.vaddr + s.filesz)
          (s.memsz - s.filesz) a (ground (arith, away))
        ∙ copy_outside m s.vaddr (add64 image s.off) s.filesz a (ground (arith, away)))
]

load_segment_inside :
    (m : ℕ → ℕ) (image : ℕ) (s : Segment) (a : ℕ)
    → covers s a ≡ true
    → image + s.off < 2 ^ 64
    → (image + s.off + s.filesz ≤ s.vaddr) ⊎ (s.vaddr + s.filesz ≤ image + s.off)
    → load_segment m image s a ≡ loaded_byte m image s a
unfolding load_segment
load_segment_inside m image s a inside small apart =
    let is : is_loaded s ≡ true = ground (arith, inside) in
    let low : s.vaddr ≤ a = ground (arith, inside) in
    let high : a < s.vaddr + span s = ground (arith, inside) in
    let src : add64 image s.off ≡ image + s.off = omega arith in
    let copied : ℕ → ℕ = copy m s.vaddr (image + s.off) s.filesz in
    elim (Bool-cases (ltb (a - s.vaddr) s.filesz)) [
      | inl e ↦
          let at : s.vaddr + (a - s.vaddr) ≡ a = omega arith in
          rw (is, e, src)
            (clear_outside copied (s.vaddr + s.filesz) (s.memsz - s.filesz) a (ground (arith, e))
              ∙ ap copied (sym at)
              ∙ copy_inside m s.vaddr (image + s.off) s.filesz (a - s.vaddr) apart
                  (ground (arith, e)))
      | inr e ↦
          let at : s.vaddr + s.filesz + (a - s.vaddr - s.filesz) ≡ a = ground (arith, e) in
          rw (is, e, src)
            (ap (clear_bytes copied (s.vaddr + s.filesz) (s.memsz - s.filesz)) (sym at)
              ∙ clear_inside copied (s.vaddr + s.filesz) (s.memsz - s.filesz)
                  (a - s.vaddr - s.filesz) (ground (arith, e)))
    ]

-- The image of `size` bytes with `n` entries at `ph`: it has its header, its entries and the contents of its
-- segments inside it, and no segment is copied over it.
pub record IsImage (m : ℕ → ℕ) (image size ph n : ℕ) : Type 0 where
  pub in_memory : image + size < 2 ^ 64
  pub header : 64 ≤ size
  pub entries_low : image ≤ ph
  pub entries_high : ph + 56 * n ≤ image + size
  pub contents :
      (j : ℕ)
      → j < n
      → is_loaded (segment_at m ph j) ≡ true
      → (segment_at m ph j).off + (segment_at m ph j).filesz ≤ size
  pub apart :
      (j : ℕ)
      → j < n
      → is_loaded (segment_at m ph j) ≡ true
      → ((segment_at m ph j).vaddr + span (segment_at m ph j) ≤ image)
        ⊎ (image + size ≤ (segment_at m ph j).vaddr)

-- What the memory `m'` has at the address `a`: the byte of the last of the segments from `i` to `k`, `k`
-- excluded, that covers it, and what it had before where there is none.
abbrev pub Loaded : (ℕ → ℕ) → ℕ → ℕ → ℕ → ℕ → ℕ → ℕ → ℕ → Type 0
Loaded m image ph i k a old new =
    ((j : ℕ) × ((i ≤ j)
        × ((j < k)
            × ((covers (segment_at m ph j) a ≡ true)
                × (((l : ℕ) → j < l → l < k → covers (segment_at m ph l) a ≡ false)
                    × (new ≡ loaded_byte m image (segment_at m ph j) a))))))
    ⊎ (((l : ℕ) → i ≤ l → l < k → covers (segment_at m ph l) a ≡ false) × (new ≡ old))

image_not_covered :
    (m : ℕ → ℕ) (image size ph n i a : ℕ)
    → IsImage m image size ph n
    → i < n
    → image ≤ a
    → a < image + size
    → covers (segment_at m ph i) a ≡ false
image_not_covered m image size ph n i a ok lt low high =
    elim (Bool-cases (is_loaded (segment_at m ph i))) [
      | inr e ↦ rw e refl
      | inl e ↦ ground (arith, ok.apart i lt e)
    ]

-- Loading a segment leaves the image.
load_segment-Agree :
    (m0 m : ℕ → ℕ) (image size ph n i : ℕ)
    → IsImage m0 image size ph n
    → Agree m0 m image size
    → i < n
    → Agree m0 (load_segment m image (segment_at m0 ph i)) image size
load_segment-Agree m0 m image size ph n i ok same lt = λ a low high.
    load_segment_outside m image (segment_at m0 ph i) a
      (image_not_covered m0 image size ph n i a ok lt low high)
    ∙ same a low high

-- One round in front of the others.
load_first :
    (m0 m : ℕ → ℕ) (image size ph n i k a new : ℕ)
    → IsImage m0 image size ph n
    → Agree m0 m image size
    → i + suc k ≤ n
    → Loaded m0 image ph (i + 1) (i + 1 + k) a (load_segment m image (segment_at m0 ph i) a) new
    → Loaded m0 image ph i (i + suc k) a (m a) new
load_first m0 m image size ph n i k a new ok same le (inl (j, (low, (high, (cov, (last, e)))))) =
    inl (j, (omega arith, (omega arith, (cov, ((λ l x y. last l x (omega arith)), e)))))
load_first m0 m image size ph n i k a new ok same le (inr (none_of, e)) =
    let s : Segment = segment_at m0 ph i in
    elim (Bool-cases (covers s a)) [
      | inl cov ↦
          let is : is_loaded s ≡ true = ground (arith, cov) in
          let room : s.off + s.filesz ≤ size = ok.contents i (omega arith) is in
          let away : (s.vaddr + span s ≤ image) ⊎ (image + size ≤ s.vaddr) =
            ok.apart i (omega arith) is in
          inl (
            i,
            (
              omega arith,
              (
                omega arith,
                (
                  cov,
                  (
                    (λ l x y. none_of l (omega arith) (omega arith)),
                    e
                        ∙ load_segment_inside m image s a cov (omega (arith, ok.in_memory))
                            (ground (arith, away))
                        ∙ same_byte s room,
                  ),
                ),
              ),
            ),
          )
      | inr out ↦ inr (
        (λ l x y. elim (Bool-cases (l == i)) [
          | inl here ↦
              let is : l ≡ i = ground arith in
              ap (λ (t : ℕ). covers (segment_at m0 ph t) a) is ∙ out
          | inr later ↦ none_of l (ground arith) (omega arith)
        ]),
        e ∙ load_segment_outside m image s a out,
      )
    ]
  where
    same_byte :
        (s : Segment) → s.off + s.filesz ≤ size → loaded_byte m image s a ≡ loaded_byte m0 image s a
    same_byte s room = elim (Bool-cases (ltb (a - s.vaddr) s.filesz)) [
      | inl e ↦ rw e (same (image + s.off + (a - s.vaddr)) (omega arith) (ground (arith, e)))
      | inr e ↦ rw e refl
    ]

load_all_lem :
    (m0 m : ℕ → ℕ) (image size ph n i k a : ℕ)
    → IsImage m0 image size ph n
    → Agree m0 m image size
    → i + k ≤ n
    → Loaded m0 image ph i (i + k) a (m a) (load_all m image ph i k a)
unfolding load_all
load_all_lem m0 m image size ph n i zero a ok same le =
    inr (λ l low high. absurd (omega arith), refl)
load_all_lem m0 m image size ph n i (suc k) a ok same le =
    let s = segment_at m0 ph i in
    let entry : segment_at m ph i ≡ s =
      segment_at-Agree m0 m image size ph i same ok.entries_low (omega (arith, ok.entries_high)) in
    let m1 : ℕ → ℕ = load_segment m image s in
    let rest =
      load_all_lem m0 m1 image size ph n (i + 1) k a ok
        (load_segment-Agree m0 m image size ph n i ok same (omega arith)) (omega arith) in
    subst (Loaded m0 image ph i (i + suc k) a (m a))
      (ap (λ (t : Segment). load_all (load_segment m image t) image ph (i + 1) k a) (sym entry))
      (load_first m0 m image size ph n i k a (load_all m1 image ph (i + 1) k a) ok same le rest)

load_all-Agree :
    (m : ℕ → ℕ) (image size ph n : ℕ)
    → IsImage m image size ph n
    → Agree m (load_all m image ph 0 n) image size
load_all-Agree m image size ph n ok = λ a low high.
    kept a low high (load_all_lem m m image size ph n 0 n a ok (λ b x y. refl) (omega arith))
  where
    kept :
        (a : ℕ)
        → image ≤ a
        → a < image + size
        → Loaded m image ph 0 (0 + n) a (m a) (load_all m image ph 0 n a)
        → load_all m image ph 0 n a ≡ m a
    kept a low high (inl (j, (from, (to, (cov, rest))))) =
        absurd
          (true≢false (sym cov ∙ image_not_covered m image size ph n j a ok (omega arith) low high))
    kept a low high (inr (none_of, e)) = e

elf_load_step :
    (m : ℕ → ℕ) (image ph : ℕ)
    → elf_check m image ≡ true
    → add64 image (phoff_of m image) ≡ ph
    → elf_load m image
      ≡ some (
        load_all m image ph 0 (phnum_of m image),
        entry_of (load_all m image ph 0 (phnum_of m image)) image,
      )
unfolding elf_load
elf_load_step m image ph ok at = rw (elf_load, ok, at) refl

-- An image with the magic number of ELF is loaded, with the entry point of its header: behind the call, each address
-- that a segment covers has the byte of the last such segment, one of the file or, behind them, 0, and any other
-- address has what it had before.
pub elf_load_lem :
    (m : ℕ → ℕ) (image size a : ℕ)
    → elf_check m image ≡ true
    → IsImage m image size (image + phoff_of m image) (phnum_of m image)
    → (m' : ℕ → ℕ) × ((elf_load m image ≡ some (m', entry_of m image))
        × Loaded m image (image + phoff_of m image) 0 (phnum_of m image) a (m a) (m' a))
elf_load_lem m image size a magic ok =
    let ph : ℕ = image + phoff_of m image in
    let n : ℕ = phnum_of m image in
    let at : add64 image (phoff_of m image) ≡ ph = omega (arith, ok.in_memory, ok.entries_high) in
    let entry : entry_of (load_all m image ph 0 n) image ≡ entry_of m image =
      number_at-Agree m (load_all m image ph 0 n) image size (image + 24) 8
        (load_all-Agree m image size ph n ok) (omega arith) (omega (arith, ok.header)) in
    (
      load_all m image ph 0 n,
      (
        elf_load_step m image ph magic at ∙ ap (λ (e : ℕ). some (load_all m image ph 0 n, e)) entry,
        subst (λ (k : ℕ). Loaded m image ph 0 k a (m a) (load_all m image ph 0 n a)) zero_n
            (load_all_lem m m image size ph n 0 n a ok (λ b x y. refl) (omega arith)),
      ),
    )
  where
    zero_n : 0 + phnum_of m image ≡ phnum_of m image
    zero_n = omega arith
