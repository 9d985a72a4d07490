-- ===== src/Int/Tests.antt =====
-- A handler installed in tables that have been filled.
use xanadu_os.Base.{ℕ, ◌+◌, ◌*◌, ◌%◌, ◌<◌, ◌≡◌, arith, false, []}
use xanadu_os.Base.Memory.{Words}
use xanadu_os.Pic.{pic_init}
use xanadu_os.Int.{Interrupts, ExceptionHandlers, idt_init, isr_x86, idtd_default}
use xanadu_os.Int.Dispatch.{Gate, handler_for, idt_init_lem}

abbrev empty : Interrupts
empty = record {
  idt = λ i. record { isr_low = 0; cs = 0; reserved = 0; attributes = 0; isr_high = 0 };
  isr_handlers = λ i. 0;
  pic = record { cached_mask = 0xFF; out = [] };
}

abbrev table : Words
table i = 0xC0100000 + 16 * (i % 256)

abbrev exceptions : ExceptionHandlers
exceptions = record {
  invalid_opcode = 1;
  spurious_handler = 2;
  invalid_tss_handler = 3;
  gp_fault = 4;
}

idt_init_lem_example :
    let s' = idt_init (λ port l. 0) table 7 exceptions empty in
    ((j : ℕ)
      → j < 255
      → Gate (table j) idtd_default (s'.idt j) × ((isr_x86 j s').1 ≡ handler_for exceptions 7 j))
    × (s'.idt 255 ≡ empty.idt 255)
    × ((isr_x86 255 s').1 ≡ empty.isr_handlers 255)
    × (s'.pic ≡ pic_init (λ port l. 0) 0 false empty.pic)
idt_init_lem_example = idt_init_lem (λ port l. 0) table 7 exceptions empty (λ k. omega arith)
