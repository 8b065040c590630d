-- ===== src/Vmm.antt =====
-- kernel/vmm.c: the page tables. They lie in the memory of the page allocator, a table being 512 words
-- of 8 bytes; `root` is `vmm_kernel_pml4`, and `invlpg` has no part in the state. A flag of an entry is a
-- bit of a 64-bit word: bit 0 present, bit 7 huge, bit 63 not executable.
pub mod Walk
pub mod Step
pub mod Translate
mod Tests
use strixos.Prelude.{
  ℕ, zero, suc, ◌+◌, ◌-◌, ◌*◌, ◌/◌, ◌%◌, ◌^◌, ◌==◌, leb, if◌then◌else◌, Bool, true, false, not,
  add64,
}
use strixos.Pmm.{Pmm, alloc_page}

abbrev pub is_present : ℕ → Bool
is_present e = e % 2 == 1

abbrev pub is_huge : ℕ → Bool
is_huge e = e / 128 % 2 == 1

-- `e & ~0xFFF`
abbrev pub frame : ℕ → ℕ
frame e = e / 4096 * 4096

-- `(va >> n) & 0x1FF`
abbrev pub index : ℕ → ℕ → ℕ
index n va = va / 2 ^ n % 512

-- The address of `table[i]`, for the table that an entry or a register names.
abbrev pub slot : ℕ → ℕ → ℕ
slot e i = frame e + 8 * i

abbrev pub put_word : Pmm → ℕ → ℕ → Pmm
put_word p at v = record p { ram = λ a. if a == at then v else p.ram a }

-- `table | PTE_PRESENT | PTE_WRITABLE`
abbrev pub table_entry : ℕ → ℕ
table_entry table = table / 4 * 4 + 3

-- The entry at an address names a table, a new one where there was none; `false` for no memory.
unfoldable pub ensure : Pmm → ℕ → Bool × Pmm
ensure p at =
    let (table, p') = alloc_page p in
    if is_present (p.ram at)
    then (true, p)
    else if table == 0
    then (false, p')
    else (true, put_word p' at (table_entry table))

-- `(pa & ~0xFFF) | (flags & 0xFFF) | PTE_PRESENT`, and PTE_NX if the flags have it.
unfoldable pub page_entry : ℕ → ℕ → ℕ
page_entry pa flags =
    let e = frame pa + flags % 4096 / 2 * 2 + 1 in
    if flags / 2 ^ 63 % 2 == 1 then e % 2 ^ 63 + 2 ^ 63 else e

-- `vmm_map_page`: whether it succeeds.
unfoldable pub map_page : ℕ → Pmm → ℕ → ℕ → ℕ → Bool × Pmm
map_page root p va pa flags =
    let at4 = slot root (index 39 va) in
    let (ok4, p4) = ensure p at4 in
    let at3 = slot (p4.ram at4) (index 30 va) in
    let (ok3, p3) = ensure p4 at3 in
    let at2 = slot (p3.ram at3) (index 21 va) in
    let (ok2, p2) = ensure p3 at2 in
    let at1 = slot (p2.ram at2) (index 12 va) in
    if not ok4
    then (false, p4)
    else if is_huge (p4.ram at3)
    then (false, p4)
    else if not ok3
    then (false, p3)
    else if is_huge (p3.ram at2)
    then (false, p3)
    else if not ok2
    then (false, p2)
    else if is_present (p2.ram at1)
    then (false, p2)
    else (true, put_word p2 at1 (page_entry pa flags))

-- `vmm_unmap_page`: whether it succeeds.
unfoldable pub unmap_page : ℕ → Pmm → ℕ → Bool × Pmm
unmap_page root p va =
    let at4 = slot root (index 39 va) in
    let at3 = slot (p.ram at4) (index 30 va) in
    let at2 = slot (p.ram at3) (index 21 va) in
    let at1 = slot (p.ram at2) (index 12 va) in
    if not (is_present (p.ram at4))
    then (false, p)
    else if not (is_present (p.ram at3))
    then (false, p)
    else if not (is_present (p.ram at2))
    then (false, p)
    else (true, put_word p at1 0)

-- `vmm_get_phys`
unfoldable pub get_phys : ℕ → (ℕ → ℕ) → ℕ → ℕ
get_phys root ram va =
    let e4 = ram (slot root (index 39 va)) in
    let e3 = ram (slot e4 (index 30 va)) in
    let e2 = ram (slot e3 (index 21 va)) in
    let e1 = ram (slot e2 (index 12 va)) in
    if not (is_present e4)
    then 0
    else if not (is_present e3)
    then 0
    else if is_huge e3
    then add64 (e3 / 2 ^ 30 * 2 ^ 30) (va % 2 ^ 30)
    else if not (is_present e2)
    then 0
    else if is_huge e2
    then add64 (e2 / 2 ^ 21 * 2 ^ 21) (va % 2 ^ 21)
    else if not (is_present e1)
    then 0
    else add64 (frame e1) (va % 4096)

-- `vmm_map_range`, with `n` pages left.
unfoldable pub map_range : ℕ → Pmm → ℕ → ℕ → ℕ → ℕ → Pmm
map_range root p va pa flags zero = p
map_range root p va pa flags (suc n) =
    map_range root (map_page root p va pa flags).1 (add64 va 4096) (add64 pa 4096) flags n

-- `vmm_init`, for the value of the register CR3.
abbrev pub init : ℕ → ℕ
init cr3 = cr3
