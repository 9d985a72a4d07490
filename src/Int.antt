-- ===== src/Int.antt =====
-- kernel/int.c, the interrupt descriptor table and the table of handlers, and kernel/exceptions.c. A
-- handler and an entry point are the numbers of their addresses, 0 for NULL; an index that is not in a
-- table is not checked, as in the source. What a handler does is not part of the dispatch: `isr_x86` gives the handler it calls.
pub mod Dispatch
mod Tests
use Prim.Native.Nat.{bit_and, bit_or}
use xanadu_os.Base.{
  ℕ, zero, suc, ◌+◌, ◌-◌, ◌*◌, ◌/◌, ◌%◌, ◌^◌, Bool, false, not, leb, ◌==◌, if◌then◌else◌,
}
use xanadu_os.Base.Words.{u8, u16}
use xanadu_os.Base.Memory.{Words, write, update}
use xanadu_os.Pic.{PicState, pic1_remap, pic_unmask, pic_eoi, pic_init}
use xanadu_os.Base.Ports.{Device}

-- `IDTD_PRESENT | INT_GATE_MASK`.
abbrev pub idtd_default : ℕ
idtd_default = 0x8E

-- `struct idt_entry`.
pub record IdtEntry : Type 0 where
  pub isr_low : ℕ
  pub cs : ℕ
  pub reserved : ℕ
  pub attributes : ℕ
  pub isr_high : ℕ

pub record Interrupts : Type 0 where
  pub idt : ℕ → IdtEntry
  pub isr_handlers : Words
  pub pic : PicState

pub idt_set_entry : (idt_id isr flags : ℕ) → Interrupts → Interrupts × ℕ
idt_set_entry idt_id isr flags s = (
  record s {
    idt = update s.idt (u8 idt_id) (record {
      isr_low = u16 isr;
      cs = 0x08;
      reserved = 0;
      attributes = u8 flags;
      isr_high = u16 (isr / 2 ^ 16);
    });
  },
  0,
)

-- A round of the loop of `idt_init`.
abbrev pub fill_entry : (isr_table : Words) → (void_handler i : ℕ) → Interrupts → Interrupts
fill_entry isr_table void_handler i s =
    let s' = (idt_set_entry i (isr_table i) idtd_default s).0 in
    record s' { isr_handlers = write s'.isr_handlers i void_handler }

-- The loop from `i` on.
pub fill_idt : (isr_table : Words) → (void_handler : ℕ) → (rounds i : ℕ) → Interrupts → Interrupts
fill_idt isr_table void_handler zero i s = s
fill_idt isr_table void_handler (suc n) i s =
    fill_idt isr_table void_handler n (i + 1) (fill_entry isr_table void_handler i s)

-- The tables that `idt_init` fills before it loads them.
pub idt_tables : (isr_table : Words) → (void_handler : ℕ) → Interrupts → Interrupts
idt_tables isr_table void_handler s = fill_idt isr_table void_handler 255 0 s

unfoldable pub add_irq_handler : (irq_num handler : ℕ) → Interrupts → Interrupts
add_irq_handler irq_num handler s = record s {
  isr_handlers = write s.isr_handlers (pic1_remap + u8 irq_num) handler;
  pic = pic_unmask (u8 irq_num) s.pic;
}

pub add_isr_handler :
    (isr_table : Words) → (int_num handler flags : ℕ) → Interrupts → Interrupts × ℕ
unfolding idt_set_entry
add_isr_handler isr_table int_num handler flags s =
    let s' : Interrupts = record s { isr_handlers = write s.isr_handlers (u8 int_num) handler } in
    if not (u8 flags == 0)
    then idt_set_entry int_num (isr_table (u8 int_num)) (bit_or (u8 flags) idtd_default) s'
    else (s', 0)

-- The acknowledgement and the handler that is called.
pub isr_x86 : (int_num : ℕ) → Interrupts → Interrupts × ℕ
isr_x86 int_num s =
    (record s { pic = record (s.pic) { out = pic_eoi int_num s.pic.out } }, s.isr_handlers int_num)

-- kernel/exceptions.c: the instruction of the last message, and whether `general_handler` prints its
-- message for an exception at `eip`.
abbrev pub general_handler : (eip last_eip : ℕ) → ℕ × Bool
general_handler eip last_eip = (eip, not (last_eip == eip))

-- The handlers of kernel/exceptions.c.
pub record ExceptionHandlers : Type 0 where
  pub invalid_opcode : ℕ
  pub spurious_handler : ℕ
  pub invalid_tss_handler : ℕ
  pub gp_fault : ℕ

pub exception_handlers_init : (isr_table : Words) → ExceptionHandlers → Interrupts → Interrupts
unfolding add_isr_handler
exception_handlers_init isr_table h s =
    let s1 = (add_isr_handler isr_table 6 h.invalid_opcode 0 s).0 in
    let s2 = (add_isr_handler isr_table 7 h.spurious_handler 0 s1).0 in
    let s3 = (add_isr_handler isr_table 10 h.invalid_tss_handler 0 s2).0 in
    (add_isr_handler isr_table 13 h.gp_fault 0 s3).0

-- Without `load_idt` with its `idtr`, and `sti`, which are instructions; `inb` is what reads of the controllers give.
pub idt_init :
    (inb : Device)
    → (isr_table : Words) → (void_handler : ℕ) → ExceptionHandlers
    → Interrupts
    → Interrupts
unfolding idt_tables exception_handlers_init
idt_init inb isr_table void_handler h s =
    let filled = idt_tables isr_table void_handler s in
    exception_handlers_init isr_table h (record filled { pic = pic_init inb 0x00 false filled.pic })
