-- ===== src/Idt.antt =====
-- kernel/idt.c: the table of interrupt gates, and the dispatch of an interrupt. The controllers' part of
-- `idt_init` is Pic, and what an exception prints is left out.
mod Tests
use strixos.Prelude.{
  ℕ, zero, suc, ◌+◌, ◌-◌, ◌*◌, ◌/◌, ◌%◌, ◌^◌, ◌≤◌, ◌<◌, ◌≡◌, ◌≢◌, refl, sym, ◌∙◌, ap, subst, ◌==◌,
  ==_ne, ==_refl, ltb, leb, if◌then◌else◌, Bool, true, false, Bool-cases, inl, inr, ◌⊎◌, ◌&&◌,
  Option, none, some, List, [], ◌∷◌, ◌++◌, length, length-set, get_or, set, get_or-set, arith,
}
use strixos.Keyboard.{Keyboard, handle_scancode}
use strixos.Timer.{Clock, timer_tick}
use strixos.Syscall.{Kernel, Return, returns, halts}
use strixos.Syscall.Dispatch.{syscall_handler}

-- `struct idt_entry`
pub record Gate : Type 0 where
  pub offset_low : ℕ
  pub selector : ℕ
  pub ist : ℕ
  pub type_attr : ℕ
  pub offset_mid : ℕ
  pub offset_high : ℕ
  pub reserved : ℕ

abbrev pub idt_entries : ℕ
idt_entries = 256

-- The entry for a handler.
abbrev pub gate : ℕ → ℕ → ℕ → Gate
gate handler sel flags = record {
  offset_low = handler % 2 ^ 16;
  selector = sel;
  ist = 0;
  type_attr = flags;
  offset_mid = handler / 2 ^ 16 % 2 ^ 16;
  offset_high = handler / 2 ^ 32 % 2 ^ 32;
  reserved = 0;
}

-- `idt_set_gate`
unfoldable pub set_gate : List Gate → ℕ → ℕ → ℕ → ℕ → List Gate
set_gate idt n handler sel flags = set idt n (gate handler sel flags)

-- The loop of `idt_init` from `i` on, with `n` rounds left.
unfoldable pub set_gates : (ℕ → ℕ) → List Gate → ℕ → ℕ → List Gate
set_gates stub idt i zero = idt
set_gates stub idt i (suc n) = set_gates stub (set_gate idt i (stub i) 0x08 0x8E) (i + 1) n

-- `idt_init`, for the addresses in `isr_stub_table`.
unfoldable pub init : (ℕ → ℕ) → List Gate → List Gate
init stub idt = set_gates stub idt 0 idt_entries

-- A gate that is empty.
abbrev pub no_gate : Gate
no_gate = record {
  offset_low = 0;
  selector = 0;
  ist = 0;
  type_attr = 0;
  offset_mid = 0;
  offset_high = 0;
  reserved = 0;
}

-- What the processor takes from a gate: the address of the handler.
abbrev pub target : Gate → ℕ
target g = g.offset_low + 2 ^ 16 * g.offset_mid + 2 ^ 32 * g.offset_high

-- A present interrupt gate of ring 0 in the kernel's code segment that leads to `handler`.
abbrev pub LeadsTo : Gate → ℕ → Type 0
LeadsTo g handler = (target g ≡ handler) × (g.selector ≡ 0x08) × (g.type_attr ≡ 0x8E) × (g.ist ≡ 0)

length-set_gate :
    (idt : List Gate) (n handler sel flags : ℕ)
    → length (set_gate idt n handler sel flags) ≡ length idt
unfolding set_gate
length-set_gate idt n handler sel flags = length-set idt n _

set_gate-LeadsTo :
    (idt : List Gate) (n handler : ℕ)
    → n < length idt
    → handler < 2 ^ 64
    → LeadsTo (get_or (set_gate idt n handler 0x08 0x8E) n no_gate) handler
unfolding set_gate
set_gate-LeadsTo idt n handler lt low =
    let self : (n == n) ≡ true = ==_refl n in
    let found : get_or (set idt n (gate handler 0x08 0x8E)) n no_gate ≡ gate handler 0x08 0x8E =
      get_or-set idt n n (gate handler 0x08 0x8E) no_gate lt ∙ rw self refl in
    subst (λ g. LeadsTo g handler) (sym found) (omega arith, refl, refl, refl)

set_gate_other :
    (idt : List Gate) (n j handler sel flags : ℕ)
    → n < length idt
    → n ≢ j
    → get_or (set_gate idt n handler sel flags) j no_gate ≡ get_or idt j no_gate
unfolding set_gate
set_gate_other idt n j handler sel flags lt ne =
    let other : (n == j) ≡ false = ==_ne n j ne in get_or-set idt n j _ no_gate lt ∙ rw other refl

set_gates_before :
    (stub : ℕ → ℕ) (idt : List Gate) (i n j : ℕ)
    → i + n ≤ length idt
    → j < i
    → get_or (set_gates stub idt i n) j no_gate ≡ get_or idt j no_gate
unfolding set_gates
set_gates_before stub idt i zero j le lt = refl
set_gates_before stub idt i (suc n) j le lt =
    set_gates_before stub (set_gate idt i (stub i) 0x08 0x8E) (i + 1) n j
      (omega (arith, length-set_gate idt i (stub i) 0x08 0x8E)) (omega arith)
    ∙ set_gate_other idt i j (stub i) 0x08 0x8E (omega arith) (omega arith)

set_gates-LeadsTo :
    (stub : ℕ → ℕ) (idt : List Gate) (i n j : ℕ)
    → ((k : ℕ) → stub k < 2 ^ 64)
    → i + n ≤ length idt
    → i ≤ j
    → j < i + n
    → LeadsTo (get_or (set_gates stub idt i n) j no_gate) (stub j)
unfolding set_gates
set_gates-LeadsTo stub idt i zero j low le from below = absurd (omega arith)
set_gates-LeadsTo stub idt i (suc n) j low le from below =
    let idt' = set_gate idt i (stub i) 0x08 0x8E in
    let room : i + 1 + n ≤ length idt' = omega (arith, length-set_gate idt i (stub i) 0x08 0x8E) in
    elim (Bool-cases (i == j)) [
      | inl first ↦
          let e : i ≡ j = ground arith in
          let same : get_or (set_gates stub idt' (i + 1) n) i no_gate ≡ get_or idt' i no_gate =
            set_gates_before stub idt' (i + 1) n i room (omega arith) in
          subst (λ k. LeadsTo (get_or (set_gates stub idt' (i + 1) n) k no_gate) (stub k)) e
            (subst (λ g. LeadsTo g (stub i)) (sym same)
              (set_gate-LeadsTo idt i (stub i) (omega arith) (low i)))
      | inr later ↦
          let ne : i < j = ground arith in
          set_gates-LeadsTo stub idt' (i + 1) n j low room (omega arith) (omega arith)
    ]

-- For stubs with addresses below 2^64 and a table of 256 gates: after idt_init each gate leads to the
-- stub of its number, as an interrupt gate of ring 0 in the kernel's code segment.
pub init-LeadsTo :
    (stub : ℕ → ℕ) (idt : List Gate) (j : ℕ)
    → ((k : ℕ) → stub k < 2 ^ 64)
    → length idt ≡ 256
    → j < 256
    → LeadsTo (get_or (init stub idt) j no_gate) (stub j)
unfolding init
init-LeadsTo stub idt j low table lt =
    set_gates-LeadsTo stub idt 0 256 j low (omega arith) (omega arith) (omega arith)

-- What an interrupt reaches: the parts of the kernel, the tick counter, the keyboard, and the command ports
-- that the end of an interrupt has been written to.
pub record Machine : Type 0 where
  pub kernel : Kernel
  pub ticks : ℕ
  pub keyboard : Keyboard
  pub ended : List ℕ

-- `pic_send_eoi`
unfoldable pub send_eoi : ℕ → List ℕ
send_eoi irq = if leb 8 irq then 0xA0 ∷ 0x20 ∷ [] else 0x20 ∷ []

-- The part of `isr_handler` for the line `irq`; `sc` is what the keyboard's port holds.
unfoldable pub on_irq : ℕ → Machine → ℕ → ℕ → Option Machine
on_irq fuel m irq sc =
    let eoi : Machine = record m { ended = m.ended ++ send_eoi irq } in
    let ticked : Option Machine =
      elim (timer_tick fuel (record { ticks = m.ticks; sched = m.kernel.sched })) [
        | none ↦ none
        | some c ↦
            some (record eoi { kernel = record m.kernel { sched = c.sched }; ticks = c.ticks })
      ] in
    if irq == 0
    then ticked
    else if irq == 1
    then some (record eoi { keyboard = handle_scancode m.keyboard sc })
    else some eoi

-- `isr_handler`: the machine, and what goes to rax, or the halt after an exception other than a breakpoint.
unfoldable pub isr_handler : ℕ → Machine → ℕ → ℕ → ℕ → ℕ → ℕ → ℕ → Option (Machine × Return)
isr_handler fuel m int_no rax rdi rsi rdx sc =
    let called : Option (Machine × Return) = elim (syscall_handler fuel m.kernel rax rdi rsi rdx) [
      | none ↦ none
      | some (k, r) ↦ some (record m { kernel = k }, r)
    ] in
    let interrupted : Option (Machine × Return) = elim (on_irq fuel m (int_no - 32) sc) [
      | none ↦ none
      | some m' ↦ some (m', returns rax)
    ] in
    if ltb int_no 32
    then (if int_no == 3 then some (m, returns rax) else some (m, halts))
    else if int_no == 0x80
    then called
    else if leb 32 int_no && ltb int_no 48
    then interrupted
    else some (m, returns rax)
