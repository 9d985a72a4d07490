-- ===== src/Pic.antt =====
-- drivers/pic.c, the two 8259 interrupt controllers. The state is `cached_mask` and the port writes.
-- The numbers of commands and ports are the file's macros and enumerators.
pub mod Masks
mod Tests
use Prim.Native.Nat.{bit_and, bit_or}
use xanadu_os.Base.{ℕ, ◌+◌, ◌-◌, ◌*◌, ◌/◌, ◌%◌, ◌^◌, Bool, List, ltb, leb, ◌==◌, if◌then◌else◌}
use xanadu_os.Base.Words.{u8, u16, not32}
use xanadu_os.Base.Ports.{Out, Device, outb}

abbrev pub pic1_command : ℕ
pic1_command = 0x20

abbrev pub pic1_data : ℕ
pic1_data = 0x21

abbrev pub pic2_command : ℕ
pic2_command = 0xA0

abbrev pub pic2_data : ℕ
pic2_data = 0xA1

abbrev pub pic_eoi_command : ℕ
pic_eoi_command = 0x20

abbrev pub ocw3_cmd : ℕ
ocw3_cmd = 8

-- `(ICW_INIT | ICW4_INIT) & ~SINGLE_MODE & ~LEVEL_TRIG_MODE`.
abbrev pub icw1 : ℕ
icw1 = 0x11

abbrev pub pic1_remap : ℕ
pic1_remap = 0x20

abbrev pub pic2_remap : ℕ
pic2_remap = 0x28

pub record PicState : Type 0 where
  pub cached_mask : ℕ
  pub out : List Out

-- `io_wait` writes a zero to an unused port.
abbrev pub outb_wait : ℕ → ℕ → List Out → List Out
outb_wait port value l = outb 0x80 0 (outb port (u8 value) l)

pub pic_remap : Device → (master_offset slave_offset : ℕ) → Bool → List Out → List Out
pic_remap inb master_offset slave_offset auto_eoi l =
    let master_mask = u8 (inb l pic1_data) in
    let slave_mask = u8 (inb l pic2_data) in
    let icw4 = if auto_eoi then 3 else 1 in
    let l1 = outb_wait pic2_command icw1 (outb_wait pic1_command icw1 l) in
    let l2 = outb_wait pic2_data slave_offset (outb_wait pic1_data master_offset l1) in
    let l3 = outb_wait pic2_data 2 (outb_wait pic1_data 4 l2) in
    let l4 = outb_wait pic2_data icw4 (outb_wait pic1_data icw4 l3) in
    outb pic2_data slave_mask (outb pic1_data master_mask l4)

pub pic_get_irq_reg : Device → (ocw3 : ℕ) → List Out → List Out × ℕ
pic_get_irq_reg inb ocw3 l =
    let cmd = u8 (bit_or ocw3_cmd ocw3) in
    let l' = outb pic2_command cmd (outb pic1_command cmd l) in
    (l', u16 (bit_or (u8 (inb l' pic2_command) * 2 ^ 8) (u8 (inb l' pic1_command))))

pub pic_get_irr : Device → List Out → List Out × ℕ
unfolding pic_get_irq_reg
pic_get_irr inb l = pic_get_irq_reg inb 2 l

pub pic_get_isr : Device → List Out → List Out × ℕ
unfolding pic_get_irq_reg
pic_get_isr inb l = pic_get_irq_reg inb 3 l

abbrev pub data_port : ℕ → ℕ
data_port irq = if leb 8 irq then pic2_data else pic1_data

abbrev pub line : ℕ → ℕ
line irq = if leb 8 irq then irq - 8 else irq

pub pic_mask : ℕ → PicState → PicState
pic_mask irq s =
    let value = u8 (bit_or s.cached_mask (2 ^ line irq)) in
    record { cached_mask = value; out = outb (data_port irq) value s.out }

pub pic_mask_set : ℕ → PicState → PicState
pic_mask_set mask s = record {
  cached_mask = mask;
  out = outb pic2_data (mask / 2 ^ 8 % 2 ^ 8) (outb pic1_data (mask % 2 ^ 8) s.out);
}

pub pic_mask_clear : ℕ → PicState → PicState
pic_mask_clear mask s = record {
  cached_mask = mask;
  out =
      outb pic2_data (u8 (not32 (mask / 2 ^ 8 % 2 ^ 8)))
        (outb pic1_data (u8 (not32 (mask % 2 ^ 8))) s.out);
}

pub pic_mask_all : PicState → PicState
unfolding pic_mask_set
pic_mask_all s = pic_mask_set 0xFFFF s

pub pic_unmask : ℕ → PicState → PicState
pic_unmask irq s =
    let value = u8 (bit_and s.cached_mask (not32 (2 ^ line irq))) in
    record { cached_mask = value; out = outb (data_port irq) value s.out }

pub pic_eoi : ℕ → List Out → List Out
pic_eoi int_id l =
    outb pic1_command pic_eoi_command
      (if leb pic2_remap int_id then outb pic2_command pic_eoi_command l else l)

pub pic_init : Device → (mask : ℕ) → Bool → PicState → PicState
unfolding pic_remap pic_mask_all pic_mask_clear
pic_init inb mask auto_eoi s =
    let s' = pic_mask_all (record s { out = pic_remap inb pic1_remap pic2_remap auto_eoi s.out }) in
    if mask == 0 then s' else pic_mask_clear mask s'
