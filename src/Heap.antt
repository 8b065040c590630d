-- ===== src/Heap.antt =====
-- kernel/heap.c: the kernel heap, a list of blocks in one run of pages. The header of the block at an
-- address is `headers` there; `bytes` is the memory that the callers own.
pub mod Blocks
pub mod Bytes
pub mod Layout
pub mod Alloc
pub mod Merge
pub mod Free
pub mod RoundTrip
pub mod Start
pub mod Sums
mod Tests
use strixos.Prelude.{
  ℕ, zero, suc, ◌+◌, ◌-◌, ◌*◌, ◌/◌, ◌%◌, ◌^◌, ◌==◌, ltb, leb, if◌then◌else◌, Bool, true, false, not,
  ◌&&◌, Option, none, some, add64, sub64,
}
use strixos.Pmm.{Pmm, alloc_pages}

abbrev pub heap_pages : ℕ
heap_pages = 256

abbrev pub heap_size : ℕ
heap_size = heap_pages * 4096

abbrev pub heap_magic : ℕ
heap_magic = 0xDEADBEEF

-- `struct block`. Its field `free` is only ever 0 or 1.
pub record Header : Type 0 where
  pub size : ℕ
  pub free : Bool
  pub magic : ℕ
  pub next : ℕ

-- `sizeof(struct block)`
abbrev pub header_size : ℕ
header_size = 24

pub record Heap : Type 0 where
  pub headers : ℕ → Header
  pub bytes : ℕ → ℕ
  pub heap_base : ℕ
  pub head : ℕ

abbrev pub put : (ℕ → Header) → ℕ → Header → ℕ → Header
put m a x b = if b == a then x else m b

-- `heap_init`
pub init : Heap → Pmm → Heap × Pmm
init h p =
    let (base, q) = alloc_pages p heap_pages in
    let first : Header = record {
      size = heap_size - header_size;
      free = true;
      magic = heap_magic;
      next = 0;
    } in
    if base == 0
    then (record h { heap_base = base }, q)
    else (record h { headers = put h.headers base first; heap_base = base; head = base }, q)

-- `find_free`, with fuel: the address of the block, 0 for the null pointer.
unfoldable pub find_free : ℕ → (ℕ → Header) → ℕ → ℕ → Option ℕ
find_free zero m cur size = none
find_free (suc fuel) m cur size = elim (cur == 0) [
  | true ↦ some 0
  | false ↦ elim ((m cur).free && leb size (m cur).size) [
    | true ↦ some cur
    | false ↦ find_free fuel m (m cur).next size
  ]
]

-- `(size + 15) & ~15`
abbrev pub round_up : ℕ → ℕ
round_up size = add64 size 15 / 16 * 16

-- The block at `b` is taken for `size` bytes, and split if the rest can hold a block of its own.
unfoldable pub carve : (ℕ → Header) → ℕ → ℕ → ℕ → Header
carve m b size =
    let rest = b + header_size + size in
    if leb (add64 (add64 size header_size) 16) (m b).size
    then put
        (put m rest (record {
          size = sub64 (sub64 (m b).size size) header_size;
          free = true;
          magic = heap_magic;
          next = (m b).next;
        }))
        b (record (m b) { size = size; next = rest; free = false })
    else put m b (record (m b) { free = false })

-- `kmalloc`: the pointer and the heap, or `none` where the search does not end within the fuel.
unfoldable pub kmalloc : ℕ → Heap → ℕ → Option (ℕ × Heap)
unfolding carve
kmalloc fuel h size =
    if size == 0 then some (0, h) else elim (find_free fuel h.headers h.head (round_up size)) [
      | none ↦ none
      | some b ↦
          if b == 0
          then some (0, h)
          else some (b + header_size, record h { headers = carve h.headers b (round_up size) })
    ]

-- The freed block takes in a free block behind it.
unfoldable pub absorb_next : (ℕ → Header) → ℕ → ℕ → Header
absorb_next m b =
    let n = (m b).next in
    if not (n == 0) && (m n).free
    then put m b
        (record (m b) { size = add64 (m b).size (add64 header_size (m n).size); next = (m n).next })
    else m

-- `while(cur && cur->next != b) cur=cur->next`, with fuel.
unfoldable pub find_prev : ℕ → (ℕ → Header) → ℕ → ℕ → Option ℕ
find_prev zero m cur b = none
find_prev (suc fuel) m cur b = elim (not (cur == 0) && not ((m cur).next == b)) [
  | true ↦ find_prev fuel m (m cur).next b
  | false ↦ some cur
]

-- The block at `cur`, if it is free, takes in the freed block behind it.
unfoldable pub absorb_into : (ℕ → Header) → ℕ → ℕ → ℕ → Header
absorb_into m cur b =
    if not (cur == 0) && (m cur).free
    then put m cur (record (m cur) {
      size = add64 (m cur).size (add64 header_size (m b).size);
      next = (m b).next;
    })
    else m

-- `kfree`
unfoldable pub kfree : ℕ → Heap → ℕ → Option Heap
kfree fuel h ptr =
    let b = sub64 ptr header_size in
    let m = absorb_next (put h.headers b (record (h.headers b) { free = true })) b in
    let freed : Option Heap = elim (find_prev fuel m h.head b) [
      | none ↦ none
      | some cur ↦ some (record h { headers = absorb_into m cur b })
    ] in
    if ptr == 0 then some h else if not ((h.headers b).magic == heap_magic) then some h else freed

-- `for(i<n) p[i]=0` from byte `i` on, with `n` rounds left.
pub zero_bytes : ℕ → ℕ → (ℕ → ℕ) → ℕ → ℕ
zero_bytes p zero m = m
zero_bytes p (suc n) m = zero_bytes (p + 1) n (λ a. if a == p then 0 else m a)

-- `kcalloc`
pub kcalloc : ℕ → Heap → ℕ → ℕ → Option (ℕ × Heap)
kcalloc fuel h n size =
    let total = n * size % 2 ^ 64 in
    elim (kmalloc fuel h total) [
      | none ↦ none
      | some (p, h') ↦
          if p == 0
          then some (p, h')
          else some (p, record h' { bytes = zero_bytes p total h'.bytes })
    ]

-- `for(i<n) dst[i]=src[i]`, with `n` rounds left.
pub copy_bytes : ℕ → ℕ → ℕ → (ℕ → ℕ) → ℕ → ℕ
copy_bytes dst src zero m = m
copy_bytes dst src (suc n) m =
    copy_bytes (dst + 1) (src + 1) n (λ a. if a == dst then m src else m a)

-- `krealloc`
pub krealloc : ℕ → Heap → ℕ → ℕ → Option (ℕ × Heap)
krealloc fuel h ptr size =
    let b = sub64 ptr header_size in
    let old = (h.headers b).size in
    let moved : Option (ℕ × Heap) = elim (kmalloc fuel h size) [
      | none ↦ none
      | some (np, h') ↦
          if np == 0
          then some (0, h')
          else elim (kfree fuel (record h' { bytes = copy_bytes np ptr old h'.bytes }) ptr) [
            | none ↦ none
            | some h'' ↦ some (np, h'')
          ]
    ] in
    let released : Option (ℕ × Heap) = elim (kfree fuel h ptr) [
      | none ↦ none
      | some h' ↦ some (0, h')
    ] in
    if ptr == 0
    then kmalloc fuel h size
    else if size == 0
    then released
    else if leb size old
    then some (ptr, h)
    else moved

abbrev is_same : Bool → Bool → Bool
is_same true f = f
is_same false f = not f

-- `heap_used` and `heap_free`: the sum of the sizes of the blocks whose flag is the given one.
pub heap_sum : ℕ → Bool → (ℕ → Header) → ℕ → Option ℕ
heap_sum zero want m cur = none
heap_sum (suc fuel) want m cur = elim (cur == 0) [
  | true ↦ some 0
  | false ↦ elim (heap_sum fuel want m (m cur).next) [
    | none ↦ none
    | some rest ↦ some (if is_same want (m cur).free then add64 (m cur).size rest else rest)
  ]
]
