-- ===== src/Elf/Tests.antt =====
-- A small program.
use strixos.Prelude.{
  ℕ, ◌+◌, ◌≤◌, ◌≡◌, refl, ◌⊎◌, inr, ◌==◌, ltb, if◌then◌else◌, true, Option, none, some, subst,
  arith,
}
use strixos.Syscall.{number_at}
use strixos.Elf.{
  elf_check, copy, clear_bytes, load_segment, load_all, entry_of, phoff_of, phnum_of, elf_load,
  segment_at,
}
use strixos.Elf.Load.{IsImage, Loaded, span, elf_load_lem}

-- An image at 4096 of 122 bytes: the header, with the entry point 0x400001, one entry behind it at 64, and 2 bytes at
-- 120, which go to 0x400000, with 2 bytes more in memory.
abbrev memory : ℕ → ℕ
memory a =
    if a == 4096
    then 0x7F
    else if a == 4097
    then 0x45
    else if a == 4098
    then 0x4C
    else if a == 4099
    then 0x46
    else if a == 4120
    then 1
    else if a == 4122
    then 0x40
    else if a == 4128
    then 64
    else if a == 4152
    then 1
    else if a == 4160
    then 1
    else if a == 4168
    then 120
    else if a == 4178
    then 0x40
    else if a == 4192
    then 2
    else if a == 4200
    then 4
    else if a == 4216
    then 0xC3
    else if a == 4217
    then 0x90
    else if ltb a 4218
    then 0
    else 7

is_magic : elf_check memory 4096 ≡ true
unfolding number_at
is_magic = refl

-- The bytes at an address behind the call.
abbrev after : Option ((ℕ → ℕ) × ℕ) → ℕ → Option ℕ
after none a = none
after (some r) a = some (r.0 a)

from_file : after (elf_load memory 4096) 0x400001 ≡ some 0x90
unfolding elf_load load_all load_segment copy clear_bytes segment_at number_at
from_file = refl

behind_file : after (elf_load memory 4096) 0x400003 ≡ some 0
unfolding elf_load load_all load_segment copy clear_bytes segment_at number_at
behind_file = refl

memory-IsImage : IsImage memory 4096 122 (4096 + phoff_of memory 4096) (phnum_of memory 4096)
unfolding segment_at number_at
memory-IsImage = record {
  in_memory = omega arith;
  header = omega arith;
  entries_low = omega arith;
  entries_high = omega arith;
  contents = λ j lt is.
      let z : 0 ≡ j = omega arith in
      subst (λ (j : ℕ). (segment_at memory 4160 j).off + (segment_at memory 4160 j).filesz ≤ 122) z
        (omega arith);
  apart = λ j lt is.
      let z : 0 ≡ j = omega arith in
      subst
        (λ (j : ℕ).
          ((segment_at memory 4160 j).vaddr + span (segment_at memory 4160 j) ≤ 4096)
          ⊎ (4218 ≤ (segment_at memory 4160 j).vaddr))
        z (inr (omega arith));
}

elf_load_lem_example :
    (m' : ℕ → ℕ) × ((elf_load memory 4096 ≡ some (m', entry_of memory 4096))
      × Loaded memory 4096
          (4096 + phoff_of memory 4096)
          0
          (phnum_of memory 4096)
          0x400003
          (memory 0x400003)
          (m' 0x400003))
elf_load_lem_example = elf_load_lem memory 4096 122 0x400003 is_magic memory-IsImage
