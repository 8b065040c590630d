-- ===== src/Syscall/Dispatch.antt =====
-- kernel/syscall.c: the calls that emulate Linux, and `syscall_handler`.
use strixos.Prelude.{
  ℕ, zero, suc, ◌+◌, ◌*◌, ◌/◌, ◌%◌, ◌^◌, ◌==◌, ltb, if◌then◌else◌, Bool, true, false, not, ◌&&◌,
  ◌||◌, none, some, List, [], ◌∷◌, ◌++◌, replicate, add64,
}
use strixos.Heap.{kmalloc}
use strixos.Syscall.{
  Kernel, minus, Answer, answer, put_bytes, put_at, c_string, number_bytes, number_at, is_screen,
  on_write, on_read, on_open, on_openat, on_close, current_pid, on_yield, on_exit,
}
use strixos.Vfs
use strixos.Vfs.{bytes_at}

-- What TCGETS tells: four words, and seven control characters.
abbrev termios : List ℕ
termios =
    number_bytes 4 0x500
    ++ number_bytes 4 0x5
    ++ number_bytes 4 0x4bf
    ++ number_bytes 4 0x507
    ++ (3 ∷ 28 ∷ 127 ∷ 21 ∷ 4 ∷ 0 ∷ 1 ∷ [])

-- What TIOCGWINSZ tells.
abbrev winsize : List ℕ
winsize = number_bytes 2 25 ++ number_bytes 2 80 ++ number_bytes 2 640 ++ number_bytes 2 400

unfoldable pub on_ioctl : Kernel → ℕ → ℕ → Answer
on_ioctl k req argp =
    if req == 0x5401
    then answer (put_at k argp termios) 0
    else if req == 0x5402
    then answer k 0
    else if req == 0x5413
    then answer (put_at k argp winsize) 0
    else if req == 0x541B
    then answer k 0
    else answer k (minus 1)

-- `(n + 4095) & ~4095`
abbrev pub page_up : ℕ → ℕ
page_up n = add64 n 4095 / 4096 * 4096

unfoldable pub on_mmap : ℕ → Kernel → ℕ → Answer
on_mmap fuel k len =
    let sz = page_up (if len == 0 then 4096 else len) in
    elim (kmalloc fuel k.heap (add64 sz 4096)) [
      | none ↦ none
      | some (p, h) ↦ answer (record k { heap = h }) (if p == 0 then minus 1 else page_up p)
    ]

-- `(char)(i * 31 + 7)` for `n` indices from `i` on.
unfoldable pub random_bytes : ℕ → ℕ → List ℕ
random_bytes i zero = []
random_bytes i (suc n) = (i * 31 + 7) % 256 ∷ random_bytes (i + 1) n

-- Whether the path contains "term".
unfoldable pub has_term : List ℕ → Bool
has_term (c ∷ d ∷ e ∷ f ∷ cs) =
    let later = has_term (d ∷ e ∷ f ∷ cs) in
    (c == b't' && d == b'e' && e == b'r' && f == b'm') || later
has_term _ = false

-- What `stat` and `access` return for a path: 0 for a part of terminfo, and -2.
unfoldable pub pretend : ℕ → Kernel → ℕ → Answer
pretend fuel k path = elim (path == 0) [
  | true ↦ answer k (minus 2)
  | false ↦ elim (c_string fuel k.heap.bytes path) [
    | none ↦ none
    | some s ↦ answer k (if has_term s then 0 else minus 2)
  ]
]

-- The strings of `uname`, each with its end, in fields of 65 bytes.
abbrev uname_fields : List (List ℕ)
uname_fields =
    (b'S' ∷ b't' ∷ b'r' ∷ b'i' ∷ b'x' ∷ b'O' ∷ b'S' ∷ 0 ∷ [])
    ∷ (b's' ∷ b't' ∷ b'r' ∷ b'i' ∷ b'x' ∷ 0 ∷ [])
    ∷ (b'1' ∷ b'.' ∷ b'0' ∷ 0 ∷ [])
    ∷ (b'S' ∷ b't' ∷ b'r' ∷ b'i' ∷ b'x' ∷ b'O' ∷ b'S' ∷ b' ' ∷ b'1' ∷ b'.' ∷ b'0' ∷ 0 ∷ [])
    ∷ (b'x' ∷ b'8' ∷ b'6' ∷ b'_' ∷ b'6' ∷ b'4' ∷ 0 ∷ [])
    ∷ (b'l' ∷ b'o' ∷ b'c' ∷ b'a' ∷ b'l' ∷ 0 ∷ [])
    ∷ []

unfoldable pub put_fields : Kernel → ℕ → List (List ℕ) → Kernel
put_fields k p [] = k
put_fields k p (s ∷ ss) = put_fields (put_bytes k p s) (p + 65) ss

unfoldable pub on_arch_prctl : Kernel → ℕ → ℕ → Answer
on_arch_prctl k code addr =
    if code == 0x1002
    then answer (record k { fs_base = addr }) 0
    else if code == 0x1003
    then answer (put_at k addr (number_bytes 8 k.fs_base)) 0
    else answer k 0

-- The first of the buffers takes one character.
unfoldable pub on_readv : Kernel → ℕ → ℕ → Answer
on_readv k fd iov =
    let base = number_at k.heap.bytes iov 8 in
    let len = number_at k.heap.bytes (iov + 8) 8 in
    let taken : Answer = elim k.waiting [
      | [] ↦ answer k (minus 11)
      | c ∷ cs ↦ answer (put_bytes (record k { waiting = cs }) base (c ∷ [])) 1
    ] in
    if fd == 0 && not (iov == 0)
    then (if not (base == 0) && not (len == 0) then taken else answer k 0)
    else answer k (minus 1)

-- The loop over `n` buffers, with the total so far.
unfoldable pub on_writev : Kernel → ℕ → ℕ → ℕ → ℕ → Answer
on_writev k fd iov zero total = answer k total
on_writev k fd iov (suc n) total =
    let base = number_at k.heap.bytes iov 8 in
    let len = number_at k.heap.bytes (iov + 8) 8 in
    let shown = record k { output = k.output ++ bytes_at k.heap.bytes base len } in
    on_writev (if is_screen fd then shown else k) fd (iov + 16) n (
      if is_screen fd
      then add64 total len
      else elim (Vfs.write k.fds fd len) [ none ↦ total | some r ↦ add64 total r ])

unfoldable pub on_brk : Kernel → ℕ → Answer
on_brk k addr =
    let moved = answer (record k { brk = addr }) addr in
    if addr == 0
    then answer k k.brk
    else if ltb k.brk addr && ltb addr 0x40000000
    then moved
    else if ltb addr k.brk
    then moved
    else answer k k.brk

unfoldable pub one_of : ℕ → List ℕ → Bool
one_of n [] = false
one_of n (m ∷ ms) = n == m || one_of n ms

-- The calls that return 0 and do nothing.
abbrev pub calls_zero : List ℕ
calls_zero =
    10 ∷ 11 ∷ 28 ∷ 8 ∷ 13 ∷ 14 ∷ 131 ∷ 102 ∷ 104 ∷ 107 ∷ 108 ∷ 186 ∷ 302 ∷ 72 ∷ 273 ∷ 334 ∷ 24 ∷ 32
    ∷ 33 ∷ 79 ∷ 80 ∷ 89 ∷ 110 ∷ 202 ∷ []

-- The calls that return 1 and do nothing.
abbrev pub calls_one : List ℕ
calls_one = 7 ∷ 23 ∷ 270 ∷ 271 ∷ []

-- `(int)x`, as a word of 32 bits.
abbrev pub int : ℕ → ℕ
int x = x % 2 ^ 32

-- `syscall_handler`, by the number in rax and the arguments in rdi, rsi and rdx.
unfoldable pub syscall_handler : ℕ → Kernel → ℕ → ℕ → ℕ → ℕ → Answer
syscall_handler fuel k num arg1 arg2 arg3 =
    if one_of num (1 ∷ 5001 ∷ [])
    then on_write k (int arg1) arg2 arg3
    else if one_of num (0 ∷ 5002 ∷ [])
    then on_read k (int arg1) arg2 arg3
    else if one_of num (2 ∷ 5003 ∷ [])
    then on_open fuel k arg1 (int arg2)
    else if one_of num (3 ∷ 5004 ∷ [])
    then on_close k (int arg1)
    else if one_of num (39 ∷ 5005 ∷ [])
    then answer k (current_pid k (minus 1))
    else if one_of num (1000 ∷ 5006 ∷ [])
    then on_yield fuel k
    else if one_of num (60 ∷ 231 ∷ 5000 ∷ [])
    then on_exit fuel k
    else if num == 16
    then on_ioctl k arg2 arg3
    else if num == 9
    then on_mmap fuel k arg2
    else if num == 96
    then answer (put_at k arg1 (replicate 16 0)) 0
    else if num == 318
    then answer (put_at k arg1 (random_bytes 0 arg2)) arg2
    else if num == 4
    then pretend fuel (put_at k arg2 (replicate 144 0)) arg1
    else if num == 5
    then answer (put_at k arg2 (replicate 144 0)) 0
    else if num == 21
    then pretend fuel k arg1
    else if num == 160
    then answer (if arg1 == 0 then k else put_fields k arg1 uname_fields) 0
    else if num == 158
    then on_arch_prctl k (int arg1) arg2
    else if num == 218
    then answer k (current_pid k 1)
    else if num == 257
    then on_openat fuel k arg2 (int arg3)
    else if num == 17
    then answer k (minus 1)
    else if num == 19
    then on_readv k arg1 arg2
    else if num == 20
    then on_writev k (int arg1) arg2 arg3 0
    else if num == 63
    then answer (put_at k arg1 (replicate 390 0)) 0
    else if num == 228
    then answer (put_at k arg2 (replicate 16 0)) 0
    else if one_of num (12 ∷ 5007 ∷ [])
    then on_brk k arg1
    else if one_of num calls_zero
    then answer k 0
    else if one_of num calls_one
    then answer k 1
    else answer k (minus 1)
