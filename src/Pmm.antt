-- ===== src/Pmm.antt =====
-- kernel/pmm.c and pmm.h: the allocator of physical pages, a bitmap with one bit for each page of
-- 2 MB to 64 MB.
pub mod Bitmap
pub mod Invariant
pub mod Alloc
pub mod Free
pub mod Run
pub mod FreeRun
mod Tests
use strixos.Prelude.{
  ℕ, zero, suc, ◌+◌, ◌-◌, ◌*◌, ◌/◌, ◌%◌, ◌^◌, ◌==◌, ltb, leb, if◌then◌else◌, Bool, true, false, not,
  ◌||◌, Option, none, some, List, get_or, set, replicate, add64, sub64, set_bit, clear_bit,
  test_bit,
}

abbrev pub page_size : ℕ
page_size = 4096

abbrev pub mem_start : ℕ
mem_start = 0x200000

abbrev pub mem_end : ℕ
mem_end = 0x4000000

abbrev pub bitmap_addr : ℕ
bitmap_addr = 0x150000

-- The static variables of the file, and the memory that `pmm_alloc_page` clears: the 64-bit word at
-- each address.
pub record Pmm : Type 0 where
  pub bitmap : List ℕ
  pub total_pages : ℕ
  pub free_pages : ℕ
  pub used_pages : ℕ
  pub ram : ℕ → ℕ

unfoldable pub bmp_set : List ℕ → ℕ → List ℕ
unfolding set_bit
bmp_set bm i = set bm (i / 8) (set_bit (get_or bm (i / 8) 0) (i % 8))

unfoldable pub bmp_clear : List ℕ → ℕ → List ℕ
unfolding clear_bit
bmp_clear bm i = set bm (i / 8) (clear_bit (get_or bm (i / 8) 0) (i % 8))

unfoldable pub bmp_test : List ℕ → ℕ → Bool
unfolding test_bit
bmp_test bm i = test_bit (get_or bm (i / 8) 0) (i % 8)

abbrev pub page_to_addr : ℕ → ℕ
page_to_addr i = (mem_start + i * page_size) % 2 ^ 64

abbrev pub addr_to_page : ℕ → ℕ
addr_to_page a = sub64 a mem_start / page_size

-- `pmm_init` without its messages.
unfoldable pub init : (ℕ → ℕ) → Pmm
init ram =
    let total : ℕ = (mem_end - mem_start) / page_size in
    let fresh : Pmm = record {
      bitmap = replicate ((total + 7) / 8) 0;
      total_pages = total;
      free_pages = total;
      used_pages = 0;
      ram = ram;
    } in
    let bmp_page = addr_to_page bitmap_addr in
    if ltb bmp_page total
    then record fresh {
      bitmap = bmp_set fresh.bitmap bmp_page;
      free_pages = sub64 total 1;
      used_pages = 1;
    }
    else fresh

-- `((uint64_t*)addr)[k] = 0` for `n` words from `addr` on.
unfoldable pub zero_words : ℕ → ℕ → (ℕ → ℕ) → ℕ → ℕ
zero_words addr zero ram = ram
zero_words addr (suc n) ram = zero_words (addr + 8) n (λ a. if a == addr then 0 else ram a)

-- The loop of `pmm_alloc_page` from `i` on, with `n` rounds left.
unfoldable pub find_clear : List ℕ → ℕ → ℕ → Option ℕ
find_clear bm i zero = none
find_clear bm i (suc n) = elim (bmp_test bm i) [ false ↦ some i | true ↦ find_clear bm (i + 1) n ]

-- `pmm_alloc_page`: the address, 0 for the null pointer, and the new state.
unfoldable pub alloc_page : Pmm → ℕ × Pmm
alloc_page p = elim (find_clear p.bitmap 0 p.total_pages) [
  | none ↦ (0, p)
  | some i ↦ (
    page_to_addr i,
    record p {
      bitmap = bmp_set p.bitmap i;
      free_pages = sub64 p.free_pages 1;
      used_pages = add64 p.used_pages 1;
      ram = zero_words (page_to_addr i) (page_size / 8) p.ram;
    },
  )
]

unfoldable pub free_page : Pmm → ℕ → Pmm
free_page p a =
    if ltb a mem_start || leb mem_end a
    then p
    else if not (a % page_size == 0)
    then p
    else if not (bmp_test p.bitmap (addr_to_page a))
    then p
    else record p {
      bitmap = bmp_clear p.bitmap (addr_to_page a);
      free_pages = add64 p.free_pages 1;
      used_pages = sub64 p.used_pages 1;
    }

-- The inner loop of `pmm_alloc_pages`: the first `j` whose page `i + j` is in use, `n` rounds left.
unfoldable pub first_used : List ℕ → ℕ → ℕ → ℕ → Option ℕ
first_used bm i j zero = none
first_used bm i j (suc n) = elim (bmp_test bm (i + j)) [
  | true ↦ some j
  | false ↦ first_used bm i (j + 1) n
]

-- The outer loop, with fuel.
unfoldable pub find_run : ℕ → List ℕ → ℕ → ℕ → ℕ → Option ℕ
find_run zero bm total n i = none
find_run (suc fuel) bm total n i = elim (leb (add64 i n) total) [
  | true ↦ elim (first_used bm i 0 n) [
    | none ↦ some i
    | some j ↦ find_run fuel bm total n (i + (j + 1))
  ]
  | false ↦ none
]

unfoldable pub set_run : List ℕ → ℕ → ℕ → List ℕ
set_run bm i zero = bm
set_run bm i (suc n) = set_run (bmp_set bm i) (i + 1) n

-- `pmm_alloc_pages`. The loop goes past a page in each round, so `total_pages + 1` rounds are
-- enough.
unfoldable pub alloc_pages : Pmm → ℕ → ℕ × Pmm
alloc_pages p n =
    if n == 0
    then (0, p)
    else if n == 1
    then alloc_page p
    else elim (find_run (p.total_pages + 1) p.bitmap p.total_pages n 0) [
      | none ↦ (0, p)
      | some i ↦ (
        page_to_addr i,
        record p {
          bitmap = set_run p.bitmap i n;
          free_pages = sub64 p.free_pages n;
          used_pages = add64 p.used_pages n;
          ram = zero_words (page_to_addr i) (n * page_size / 8) p.ram;
        },
      )
    ]

-- `pmm_free_pages`
unfoldable pub free_pages : Pmm → ℕ → ℕ → Pmm
free_pages p a zero = p
free_pages p a (suc n) = free_pages (free_page p a) (add64 a page_size) n
