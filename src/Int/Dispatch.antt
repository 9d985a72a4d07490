-- ===== src/Int/Dispatch.antt =====
-- Which handler an interrupt runs, and the entries of the descriptor table.
use xanadu_os.Base.{
  ℕ, zero, suc, ◌+◌, ◌*◌, ◌^◌, ◌≤◌, ◌<◌, ◌≡◌, ◌≢◌, ◌∙◌, refl, ap, false, sym, arith, ◌==◌,
  if◌then◌else◌, ==_refl, Bool-cases, inl, inr,
}
use mathlib.Core.Path.{subst}
use xanadu_os.Base.Words.{u8}
use xanadu_os.Base.Memory.{Words, write, write_same, write_other, update_other}
use xanadu_os.Base.Ports.{Device}
use xanadu_os.Pic.{pic_init}
use xanadu_os.Int.{
  Interrupts, IdtEntry, idtd_default, idt_set_entry, fill_entry, fill_idt, idt_tables,
  add_irq_handler, add_isr_handler, isr_x86, ExceptionHandlers, exception_handlers_init, idt_init,
}

-- After `add_irq_handler` the line's interrupt runs the handler, and every other interrupt the one
-- it ran before.
pub isr_x86-add_irq_handler :
    (irq_num handler int_num : ℕ) (s : Interrupts)
    → irq_num < 256
    → (isr_x86 int_num (add_irq_handler irq_num handler s)).1
      ≡ (if int_num == 32 + irq_num then handler else (isr_x86 int_num s).1)
unfolding isr_x86 add_irq_handler write
isr_x86-add_irq_handler irq_num handler int_num s h = ground arith

-- The handler of an interrupt, behind `exception_handlers_init`.
pub handler_for : ExceptionHandlers → (handler j : ℕ) → ℕ
handler_for h handler j =
    if j == 6
    then h.invalid_opcode
    else if j == 7
    then h.spurious_handler
    else if j == 10
    then h.invalid_tss_handler
    else if j == 13
    then h.gp_fault
    else handler

-- The address of an entry point in an entry.
abbrev pub entry_address : IdtEntry → ℕ
entry_address e = e.isr_low + 2 ^ 16 * e.isr_high

pub Gate : (address flags : ℕ) → IdtEntry → Type 0
Gate address flags e =
    (entry_address e ≡ address) × (e.cs ≡ 8) × (e.attributes ≡ flags) × (e.reserved ≡ 0)

-- The entries that no round is for are left.
outside :
    (isr_table : Words) (void_handler n i j : ℕ) (s : Interrupts)
    → i + n ≤ 256
    → ((k : ℕ) → i ≤ k → k < i + n → k ≢ j)
    → ((fill_idt isr_table void_handler n i s).idt j ≡ s.idt j)
      × ((fill_idt isr_table void_handler n i s).isr_handlers j ≡ s.isr_handlers j)
unfolding fill_idt idt_set_entry
outside isr_table void_handler zero i j s b other = (refl, refl)
outside isr_table void_handler (suc n) i j s b other =
    let here : i ≢ j = other i (omega arith) (omega arith) in
    let rest =
      outside isr_table void_handler n (i + 1) j (fill_entry isr_table void_handler i s)
        (omega arith) (λ k l h. other k (omega (arith, l)) (omega (arith, h))) in
    (
      rest.0 ∙ update_other s.idt (u8 i) _ j (omega (arith, here)),
      rest.1 ∙ write_other s.isr_handlers i void_handler j here,
    )

-- What a round leaves at its own entry.
round_at :
    (isr_table : Words) (void_handler i : ℕ) (s : Interrupts)
    → isr_table i < 2 ^ 32
    → i < 256
    → Gate (isr_table i) idtd_default ((fill_entry isr_table void_handler i s).idt i)
      × ((fill_entry isr_table void_handler i s).isr_handlers i ≡ void_handler)
unfolding idt_set_entry Gate
round_at isr_table void_handler i s t b =
    let at : u8 i ≡ i = omega arith in
    (
      rw (at, ==_refl i) (omega (arith, t), refl, refl, refl),
      write_same s.isr_handlers i void_handler,
    )

filled_first :
    (isr_table : Words) (void_handler n i : ℕ) (s : Interrupts)
    → isr_table i < 2 ^ 32
    → i + suc n ≤ 256
    → Gate (isr_table i) idtd_default ((fill_idt isr_table void_handler (suc n) i s).idt i)
      × ((fill_idt isr_table void_handler (suc n) i s).isr_handlers i ≡ void_handler)
unfolding fill_idt
filled_first isr_table void_handler n i s t b =
    let rest =
      outside isr_table void_handler n (i + 1) i (fill_entry isr_table void_handler i s)
        (omega arith) (λ k l h. omega (arith, l)) in
    let first = round_at isr_table void_handler i s t (omega arith) in
    (subst (λ e. Gate (isr_table i) idtd_default e) (sym rest.0) first.0, rest.1 ∙ first.1)

filled :
    (isr_table : Words) (void_handler n i j : ℕ) (s : Interrupts)
    → ((k : ℕ) → isr_table k < 2 ^ 32)
    → i + n ≤ 256
    → i ≤ j
    → j < i + n
    → Gate (isr_table j) idtd_default ((fill_idt isr_table void_handler n i s).idt j)
      × ((fill_idt isr_table void_handler n i s).isr_handlers j ≡ void_handler)
unfolding fill_idt
filled isr_table void_handler zero i j s t b l h = absurd (omega arith)
filled isr_table void_handler (suc n) i j s t b l h = elim (Bool-cases (i == j)) [
  | inl same ↦
      let at : i ≡ j = ground (arith, same) in
      subst
        (λ k.
          Gate (isr_table k) idtd_default ((fill_idt isr_table void_handler (suc n) i s).idt k)
          × ((fill_idt isr_table void_handler (suc n) i s).isr_handlers k ≡ void_handler))
        at (filled_first isr_table void_handler n i s (t i) b)
  | inr later ↦
      filled isr_table void_handler n (i + 1) j (fill_entry isr_table void_handler i s) t
        (omega arith) (ground (arith, later)) (omega arith)
]

-- The loop of `idt_init` fills the entries 0 to 254: each is a gate of the kernel's code segment to its
-- entry point in the table, present and without privileges, and its handler is the one for unknown
-- interrupts. Entry 255 and its handler stay as they were.
pub idt_tables_lem :
    (isr_table : Words) (void_handler : ℕ) (s : Interrupts)
    → ((k : ℕ) → isr_table k < 2 ^ 32)
    → ((j : ℕ)
        → j < 255
        → Gate (isr_table j) idtd_default ((idt_tables isr_table void_handler s).idt j)
          × ((isr_x86 j (idt_tables isr_table void_handler s)).1 ≡ void_handler))
      × ((idt_tables isr_table void_handler s).idt 255 ≡ s.idt 255)
      × ((isr_x86 255 (idt_tables isr_table void_handler s)).1 ≡ s.isr_handlers 255)
unfolding idt_tables isr_x86
idt_tables_lem isr_table void_handler s t = (
  λ j h. filled isr_table void_handler 255 0 j s t (omega arith) (omega arith) (omega arith),
  (outside isr_table void_handler 255 0 255 s (omega arith) (λ k l h. omega (arith, h))).0,
  (outside isr_table void_handler 255 0 255 s (omega arith) (λ k l h. omega (arith, h))).1,
)

filled_pic :
    (isr_table : Words) (void_handler n i : ℕ) (s : Interrupts)
    → (fill_idt isr_table void_handler n i s).pic ≡ s.pic
unfolding fill_idt idt_set_entry
filled_pic isr_table void_handler zero i s = refl
filled_pic isr_table void_handler (suc n) i s =
    filled_pic isr_table void_handler n (i + 1) (fill_entry isr_table void_handler i s)

exception_handler_of :
    (isr_table : Words) (h : ExceptionHandlers) (s : Interrupts) (j : ℕ)
    → (exception_handlers_init isr_table h s).isr_handlers j ≡ handler_for h (s.isr_handlers j) j
unfolding exception_handlers_init add_isr_handler write handler_for
exception_handler_of isr_table h s j = ground arith

exceptions_keep :
    (isr_table : Words) (h : ExceptionHandlers) (s : Interrupts)
    → ((exception_handlers_init isr_table h s).idt ≡ s.idt)
      × ((exception_handlers_init isr_table h s).pic ≡ s.pic)
unfolding exception_handlers_init add_isr_handler
exceptions_keep isr_table h s = (refl, refl)

-- After `idt_init` each of the entries 0 to 254 is a gate of the kernel's code segment to its entry
-- point in the table, present and without privileges. Of these interrupts 6, 7, 10 and 13 run their
-- handlers of exceptions, and every other one the handler for unknown interrupts. Entry 255 and its
-- handler stay as they were, and the controllers are as `pic_init` leaves them.
pub idt_init_lem :
    (inb : Device) (isr_table : Words) (void_handler : ℕ) (h : ExceptionHandlers) (s : Interrupts)
    → ((k : ℕ) → isr_table k < 2 ^ 32)
    → let s' = idt_init inb isr_table void_handler h s in
      ((j : ℕ)
        → j < 255
        → Gate (isr_table j) idtd_default (s'.idt j)
          × ((isr_x86 j s').1 ≡ handler_for h void_handler j))
      × (s'.idt 255 ≡ s.idt 255)
      × ((isr_x86 255 s').1 ≡ s.isr_handlers 255)
      × (s'.pic ≡ pic_init inb 0 false s.pic)
unfolding idt_init isr_x86 handler_for idt_tables
idt_init_lem inb isr_table void_handler h s t =
    let filled = idt_tables isr_table void_handler s in
    let started : Interrupts = record filled { pic = pic_init inb 0x00 false filled.pic } in
    let (gates, last, last_handler) = idt_tables_lem isr_table void_handler s t in
    let runs = exception_handler_of isr_table h started in
    (
      λ j l. ((gates j l).0, runs j ∙ ap (λ v. handler_for h v j) (gates j l).1),
      last,
      runs 255 ∙ last_handler,
      ap (pic_init inb 0 false) (filled_pic isr_table void_handler 255 0 s),
    )
