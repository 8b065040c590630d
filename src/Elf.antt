-- ===== src/Elf.antt =====
-- kernel/elf.c: the loader of programs. An image stands in memory at the address `image`, which the code calls `data`. The reading of the disk
-- is device access.
pub mod Memory
pub mod Load
mod Tests
use strixos.Prelude.{
  ℕ, zero, suc, ◌+◌, ◌-◌, ◌*◌, ◌==◌, ltb, leb, if◌then◌else◌, Bool, true, false, ◌&&◌, Option, none,
  some, add64,
}
use strixos.Syscall.{number_at}

-- The fields of `struct elf_phdr` that the loader reads, `kind` for `type`.
pub record Segment : Type 0 where
  pub kind : ℕ
  pub off : ℕ
  pub vaddr : ℕ
  pub filesz : ℕ
  pub memsz : ℕ

-- `ph[i]`, where each entry has 56 bytes.
unfoldable pub segment_at : (ℕ → ℕ) → ℕ → ℕ → Segment
segment_at m ph i = record {
  kind = number_at m (ph + 56 * i) 4;
  off = number_at m (ph + 56 * i + 8) 8;
  vaddr = number_at m (ph + 56 * i + 16) 8;
  filesz = number_at m (ph + 56 * i + 32) 8;
  memsz = number_at m (ph + 56 * i + 40) 8;
}

-- `ELF_MAGIC`
abbrev pub elf_magic : ℕ
elf_magic = 0x464C457F

-- `elf_check`
abbrev pub elf_check : (ℕ → ℕ) → ℕ → Bool
elf_check m image = number_at m image 4 == elf_magic

-- `h->entry`, `h->phoff` and `h->phnum`
abbrev pub entry_of : (ℕ → ℕ) → ℕ → ℕ
entry_of m image = number_at m (image + 24) 8

abbrev pub phoff_of : (ℕ → ℕ) → ℕ → ℕ
phoff_of m image = number_at m (image + 32) 8

abbrev pub phnum_of : (ℕ → ℕ) → ℕ → ℕ
phnum_of m image = number_at m (image + 56) 2

abbrev pub put : (ℕ → ℕ) → ℕ → ℕ → ℕ → ℕ
put m p v a = if a == p then v else m a

-- `dst[k]=src[k]`
unfoldable pub copy : (ℕ → ℕ) → ℕ → ℕ → ℕ → ℕ → ℕ
copy m dst src zero = m
copy m dst src (suc n) = copy (put m dst (m src)) (dst + 1) (src + 1) n

-- `dst[k]=0`
unfoldable pub clear_bytes : (ℕ → ℕ) → ℕ → ℕ → ℕ → ℕ
clear_bytes m dst zero = m
clear_bytes m dst (suc n) = clear_bytes (put m dst 0) (dst + 1) n

-- The segments that are copied.
abbrev pub is_loaded : Segment → Bool
is_loaded s = (s.kind == 1) && leb 0x400000 s.vaddr

-- One round of the loop of `elf_load`.
unfoldable pub load_segment : (ℕ → ℕ) → ℕ → Segment → ℕ → ℕ
load_segment m image s =
    if is_loaded s
    then clear_bytes (copy m s.vaddr (add64 image s.off) s.filesz) (s.vaddr + s.filesz)
        (s.memsz - s.filesz)
    else m

-- The loop from `i` on, `n` rounds left. Each entry is read from the memory that the rounds before it left.
unfoldable pub load_all : (ℕ → ℕ) → ℕ → ℕ → ℕ → ℕ → ℕ → ℕ
load_all m image ph i zero = m
load_all m image ph i (suc n) =
    load_all (load_segment m image (segment_at m ph i)) image ph (i + 1) n

-- `elf_load`: the memory behind it and the entry point, or `none` for the result -1.
unfoldable pub elf_load : (ℕ → ℕ) → ℕ → Option ((ℕ → ℕ) × ℕ)
elf_load m image = elim (elf_check m image) [
  | false ↦ none
  | true ↦ some (
    load_all m image (add64 image (phoff_of m image)) 0 (phnum_of m image),
    entry_of (load_all m image (add64 image (phoff_of m image)) 0 (phnum_of m image)) image,
  )
]
