-- ===== src/Idt/Tests.antt =====
-- Runs of interrupts, and the theorem of the gates at one table.
use strixos.Prelude.{
  ℕ, ◌+◌, ◌*◌, ◌%◌, ◌^◌, ◌≡◌, refl, false, Option, none, some, List, [], ◌∷◌, get_or, replicate,
  arith,
}
use strixos.Keyboard.{handle_scancode, key_char, kpush}
use strixos.Timer.{timer_tick}
use strixos.Syscall.{Return, returns, halts}
use strixos.Syscall.Dispatch.{syscall_handler, one_of}
use strixos.Syscall.Tests.{kernel}
use strixos.Idt.{no_gate, init, LeadsTo, init-LeadsTo, Machine, send_eoi, on_irq, isr_handler}

abbrev machine : Machine
machine = record {
  kernel = kernel;
  ticks = 4;
  keyboard = record { kbuf = replicate 128 0; khead = 0; ktail = 0; shift = false; caps = false };
  ended = [];
}

-- The ticks, the characters in the keyboard's buffer, the returned value, and the ports.
abbrev seen : Option (Machine × Return) → List ℕ
seen none = []
seen (some (m, halts)) = m.ticks ∷ m.keyboard.khead ∷ m.ended
seen (some (m, returns v)) = m.ticks ∷ m.keyboard.khead ∷ v ∷ m.ended

runs :
    (seen (isr_handler 9 machine 32 8 0 0 0 0) ≡ 5 ∷ 0 ∷ 8 ∷ 0x20 ∷ [])
    × (seen (isr_handler 9 machine 33 8 0 0 0 30) ≡ 4 ∷ 1 ∷ 8 ∷ 0x20 ∷ [])
    × (seen (isr_handler 9 machine 44 8 0 0 0 0) ≡ 4 ∷ 0 ∷ 8 ∷ 0xA0 ∷ 0x20 ∷ [])
    × (seen (isr_handler 9 machine 14 8 0 0 0 0) ≡ 4 ∷ 0 ∷ [])
    × (seen (isr_handler 9 machine 3 8 0 0 0 0) ≡ 4 ∷ 0 ∷ 8 ∷ [])
    × (seen (isr_handler 9 machine 0x80 5005 0 0 0 0) ≡ 4 ∷ 0 ∷ 7 ∷ [])
unfolding isr_handler on_irq send_eoi timer_tick handle_scancode key_char kpush syscall_handler
    one_of
runs = (refl, refl, refl, refl, refl, refl)

abbrev stub : ℕ → ℕ
stub n = (0x100000 + 16 * n) % 2 ^ 64

init-LeadsTo_example : LeadsTo (get_or (init stub (replicate 256 no_gate)) 33 no_gate) (stub 33)
init-LeadsTo_example =
    init-LeadsTo stub (replicate 256 no_gate) 33 (λ k. omega arith) refl (omega arith)
