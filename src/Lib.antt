-- ===== src/Lib.antt =====
-- StrixOS, a 64-bit hobby kernel in C, modelled as pure functions over explicit states, part by
-- part.
--
-- Conventions. A C function that changes a static variable or an object takes the state and
-- returns the new one beside its result. A number is a native natural number; `uint64_t` and
-- `size_t` arithmetic keeps its wrap by `% 2 ^ 64`. An address is a number, and 0 is the null
-- pointer. Printing to the screen and the serial port is left out unless a part says otherwise. A
-- loop whose end depends on the data runs on fuel, and `none` then means that the fuel ran out.
--
-- Parts:
--   Prelude: tests, lists as arrays, words, single bits of a byte.
--   Pmm: kernel/pmm.c, the bitmap of physical pages. `init`, `alloc_page`, `free_page`,
--   `alloc_pages`, `free_pages` are the functions with the prefix `pmm_`; `ram` is the memory
--   that they clear. The search for a run has fuel `total_pages + 1`, since each round goes past
--   a page.
--   Heap: kernel/heap.c, the list of blocks inside 256 pages from Pmm. `init` is `heap_init`,
--   the other functions have their names in C; `heap_sum` is `heap_used` and `heap_free`.
--   `headers` maps an address to the block header there, and `bytes` is what the callers own, a
--   map of its own: a caller that writes over a header is not modelled. Heap/Blocks is the
--   specification, a sequence of sizes and flags; Heap/Layout says how it lies in memory. Fuel
--   above the number of blocks is enough.
--   Process: kernel/process.c, the table of 16 tasks, the list through it, and `schedule`. A
--   pointer to a task is its index. The call of `context_switch`, which is assembly, is part of
--   the result: the task whose stack pointer is saved and the stack pointer that is loaded. Fuel
--   above the length of the list is enough for both walks over it.
--   Timer: kernel/timer.c, the tick counter that calls `schedule` at each tenth interrupt. The
--   programming of the device is not modelled.
--   Keyboard: kernel/keyboard.c. `try_getc`, `has_char` and `init` are the functions with the
--   prefix `keyboard_`, `key_char` is the part of `handle_scancode` that looks a character up.
--   The scancodes that wait in the controller are an argument. The writes to the interrupt
--   controller, and `keyboard_getc`, which waits on two devices, are not modelled.
--   Initrd: kernel/initrd.c, the table of 32 files in memory. `save` and `remove` are the
--   functions with the prefix `initrd_`; they call Heap. A name is the characters before the end
--   of the C string.
--   Vfs: kernel/vfs.c, the 16 file descriptors. `init`, `open_file`, `close`, `read` and `write`
--   are the functions with the prefix `vfs_`; `read` takes the memory as an argument.
--   Pic: kernel/pic.c, the masks of the 16 interrupt lines. `set_mask` and `clear_mask` are the
--   functions with the prefix `pic_`; the data port of a controller is a byte of the state.
--   Buffer: the loops of the editor and of the shell that move characters in an array.
--   Editor: kernel/editor.c, `editor_open` as a machine that takes one key at a time: `start`,
--   `press` and `finish` are its parts, over Heap, Initrd and Vfs. The state `mode` is the place
--   in the function where it waits for a key. The screen is left out. Saving has the fuel of the
--   heap.
--   Shell: kernel/shell.c, the command line in `shell_task` and the history. The keys behind ESC
--   [ come in one `Input` with the one that follows them. Shell/Complete is the tab key,
--   Shell/Feed the loop over the keys. Shell/Dispatch is `dispatch` up to the commands, and
--   Shell/Words the splitting into words, which the code repeats for each command; fuel above
--   the length of the line is enough.
--   Tty: kernel/tty.c, the four terminals and `tty_login` over the sequence of the keys. Each
--   round of the login takes a key, so fuel above the number of keys is enough.
--   Syscall: kernel/syscall.c, `syscall_handler` by number and arguments, over Heap, Initrd, Vfs
--   and Process. `on_write` and so on are the cases of its switch. The fuel bounds the heap's
--   and the scheduler's loops and the length of a path.
--   Vmm: kernel/vmm.c, the page tables of four levels in the memory of Pmm, found by the
--   register CR3, which is an argument. `map_page`, `unmap_page`, `get_phys` and `map_range` are
--   the functions with the prefix `vmm_`. Physical and virtual addresses of the tables are the
--   same, as in the boot mapping.
--   Idt: kernel/idt.c, the interrupt gates and `isr_handler`, over Timer, Keyboard and Syscall;
--   `init` is the loop of `idt_init`.
--   Fat: kernel/fat.c, the file system of one file. `init`, `open_fat`, `read_fat` and
--   `close_fat` are the functions with the prefix `fat_`.
--   Number: the loop that prints a number in decimal, which the code repeats in many places. The
--   buffer's bytes are the fuel.
--   Screen: kernel/main.c, the text screen. `putchar`, `puts`, `clear`, `putdec` and `puthex`
--   are the functions with the prefix `vga_`; the colour functions have their names.
--   Screen/Print and Screen/Row hold `rgb_print` and `rgb_print_bg` of kernel/fb.c on the text
--   screen.
--   Cat: kernel/coreutils_port.c, `cat`. The loop over the reads is one definition for both of
--   the code, over `sys_read` and over `fat_read`; its fuel is the number of reads. Cat/Args is
--   the parsing of the arguments.
--   Echo: kernel/coreutils_port.c, `echo`, behind Shell/Dispatch.
--   Elf: kernel/elf.c, `elf_check` and `elf_load`, over the memory as a map from addresses to
--   bytes. Addresses are added with their wrap, except inside a copy.
--   Frame: kernel/fb.c, text in graphics mode. `put32`, `draw_char` and the functions with the
--   prefix `fb_` have their names; a pixel is an index into the memory of the frame. The `int`
--   arithmetic of the indices is exact, and the theorem on the memory has the bound under which
--   it does not overflow; a pitch that is negative as an `int` is a result of its own of
--   `fb_init`. Frame/Draw has the pixels and the glyphs, Frame/Font the font. The escape
--   sequences are read as in Screen.
--   Strings: kernel/string.c, `memcpy`, `memset` and `memcmp`.
--
-- Not modelled: the reading of programs from the disk, the other commands of the shell. Also not
-- modelled: the boot sequence of `kmain`, the serial port, boot loaders, assembly, and the copies
-- of GNU coreutils, sudo and neofetch under kernel/coreutils.
pub mod Prelude
pub mod Pmm
pub mod Heap
pub mod Process
pub mod Timer
pub mod Initrd
pub mod Vfs
pub mod Fat
pub mod Keyboard
pub mod Editor
pub mod Buffer
pub mod Cat
pub mod Echo
pub mod Elf
pub mod Frame
pub mod Idt
pub mod Number
pub mod Pic
pub mod Screen
pub mod Shell
pub mod Strings
pub mod Syscall
pub mod Tty
pub mod Vmm
