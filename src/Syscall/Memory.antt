-- ===== src/Syscall/Memory.antt =====
-- Memory for the callers: mmap on the kernel heap.
use strixos.Prelude.{
  ℕ, ◌+◌, ◌%◌, ◌^◌, ◌≤◌, ◌<◌, ◌≡◌, refl, ◌==◌, false, some, add64, Bool-cases, inl, inr, ◌⊎◌, arith,
}
use strixos.Heap.{Heap, kmalloc}
use strixos.Syscall.{Kernel, minus, answer}
use strixos.Syscall.Dispatch.{page_up, on_mmap, one_of, syscall_handler}

-- mmap of a length below 2^62: where kmalloc has no memory it returns -1, and where kmalloc gives a
-- block below 2^63 the result is the start of a page, and that page and the ones behind it, enough for
-- the length, lie in the block.
pub mmap_lem :
    (fuel : ℕ) (k : Kernel) (addr len prot p : ℕ) (h : Heap)
    → 0 < len
    → len < 2 ^ 62
    → p < 2 ^ 63
    → kmalloc fuel k.heap (page_up len + 4096) ≡ some (p, h)
    → ((p ≡ 0)
        × (syscall_handler fuel k 9 addr len prot ≡ answer (record k { heap = h }) (minus 1)))
      ⊎ ((r : ℕ) × (0 < p)
          × (syscall_handler fuel k 9 addr len prot ≡ answer (record k { heap = h }) r)
          × (r % 4096 ≡ 0)
          × (p ≤ r)
          × (len ≤ page_up len)
          × (r + page_up len ≤ p + (page_up len + 4096)))
unfolding syscall_handler one_of on_mmap
mmap_lem fuel k addr len prot p h pos small low block =
    let filled : (len == 0) ≡ false = ground arith in
    let size : add64 (page_up len) 4096 ≡ page_up len + 4096 = omega arith in
    elim (Bool-cases (p == 0)) [
      | inl null ↦ inl (ground arith, rw (on_mmap, filled, size, block, null) refl)
      | inr given ↦ inr (
        page_up p,
        ground arith,
        rw (on_mmap, filled, size, block, given) refl,
        omega arith,
        omega arith,
        omega arith,
        omega arith,
      )
    ]
