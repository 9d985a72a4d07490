-- ===== src/Pic/Masks.antt =====
-- Which lines the controllers mask after the operations of the driver.
use Prim.Native.Nat.{bit_and, bit_or}
use xanadu_os.Base.{
  ℕ, suc, ◌+◌, ◌-◌, ◌/◌, ◌%◌, ◌^◌, ◌≤◌, ◌<◌, ◌≡◌, ◌≢◌, ◌∙◌, refl, ap, sym, Bool, true, false, not,
  some, none, [], arith, ltb, leb, ◌==◌, if◌then◌else◌, Bool-cases, inl, inr, ◌⊎◌,
}
use xanadu_os.Base.Bits.{bit, bit_and_low, bit-not, bit-le_one, bit-bit_and, bit_of_zero, pow_pos}
use xanadu_os.Base.Words.{
  u8, not32, test_bit, set_bit, clear_bit, test_bit-bit, test_bit-set_bit, test_bit-clear_bit,
}
use xanadu_os.Base.Ports.{Device, last_value, outb}
use xanadu_os.Pic.{
  PicState, pic1_command, pic1_data, pic2_data, pic2_command, pic_eoi_command, data_port, line,
  pic_mask, pic_unmask, pic_mask_clear, pic_init, pic_eoi,
}

-- A bit below the width of a byte survives the truncation to it.
bit-mod : (w x j : ℕ) → j < w → bit (x % 2 ^ w) j ≡ bit x j
bit-mod w x j h =
    let e : 2 ^ w - 1 - 0 ≡ 2 ^ w - 1 = omega arith in
    let ones : bit (2 ^ w - 1) j ≡ 1 =
      ap (λ t. bit t j) (sym e) ∙ bit-not w 0 j (pow_pos w) h ∙ omega (arith, bit_of_zero j) in
    ap (λ t. bit t j) (sym (bit_and_low x w))
    ∙ bit-bit_and x (2 ^ w - 1) j
    ∙ omega (arith, ones, bit-le_one x j)

-- Digit `8 + j` is digit `j` of the next byte.
bit-next_byte :
    (x j : ℕ) → bit (x / 256) j ≡ bit x (suc (suc (suc (suc (suc (suc (suc (suc j))))))))
unfolding bit
bit-next_byte x j =
    let e : x / 256 ≡ x / 2 / 2 / 2 / 2 / 2 / 2 / 2 / 2 = omega arith in ap (λ t. bit t j) e

test_bit-next_byte : (x j : ℕ) → test_bit (x / 2 ^ 8) j ≡ test_bit x (j + 8)
test_bit-next_byte x j =
    let e : suc (suc (suc (suc (suc (suc (suc (suc j))))))) ≡ j + 8 = omega arith in
    rw (test_bit-bit (x / 256) j, test_bit-bit x (j + 8))
      (ap (λ t. t == 1) (bit-next_byte x j ∙ ap (bit x) e))

test_bit-u8 : (x j : ℕ) → j < 8 → test_bit (u8 x) j ≡ test_bit x j
test_bit-u8 x j h = rw (test_bit-bit (u8 x) j, test_bit-bit x j, bit-mod 8 x j h) refl

-- `pic_mask` and `pic_unmask` of one of the 16 lines write one byte, to the controller of the line,
-- and keep that byte: it is the kept mask with the line's bit set or cleared, for either controller.
pub pic_mask-pic_unmask :
    (irq : ℕ) (s : PicState) (j : ℕ)
    → irq < 16
    → j < 8
    → let a = pic_mask irq s in
      let b = pic_unmask irq s in
      (a.out ≡ outb (data_port irq) a.cached_mask s.out)
      × (b.out ≡ outb (data_port irq) b.cached_mask s.out)
      × (test_bit a.cached_mask j ≡ (if irq % 8 == j then true else test_bit s.cached_mask j))
      × (test_bit b.cached_mask j ≡ (if irq % 8 == j then false else test_bit s.cached_mask j))
unfolding pic_mask pic_unmask set_bit clear_bit
pic_mask-pic_unmask irq s j h k =
    let m = s.cached_mask in
    let b = line irq in
    let same : b ≡ irq % 8 = ground arith in
    (
      refl,
      refl,
      test_bit-u8 (bit_or m (2 ^ b)) j k ∙ test_bit-set_bit m b j ∙ rw same refl,
      test_bit-u8 (bit_and m (not32 (2 ^ b))) j k
          ∙ test_bit-clear_bit m b j (omega arith) (omega arith)
          ∙ rw same refl,
    )

-- The driver keeps one byte for both controllers: opening a line of the second controller and then
-- one of the first also opens the line of the first with the number of the second's, whatever was
-- masked before.
pub pic_unmask-pic_unmask :
    (upper lower : ℕ) (s : PicState)
    → 8 ≤ upper
    → upper < 16
    → lower < 8
    → (v : ℕ) × (last_value pic1_data (pic_unmask lower (pic_unmask upper s)).out ≡ some v)
      × (test_bit v (upper - 8) ≡ false)
unfolding last_value
pic_unmask-pic_unmask upper lower s h k lt =
    let s1 = pic_unmask upper s in
    let (_, out, _, bits) = pic_mask-pic_unmask lower s1 (upper - 8) (omega arith) (omega arith) in
    let (_, _, _, bits1) = pic_mask-pic_unmask upper s (upper - 8) (omega arith) (omega arith) in
    let port : data_port lower ≡ pic1_data = ground arith in
    ((pic_unmask lower s1).cached_mask, rw (out, port) refl, bits ∙ ground (arith, bits1))

test_bit-not32 : (y j : ℕ) → y < 2 ^ 32 → j < 8 → test_bit (u8 (not32 y)) j ≡ not (test_bit y j)
test_bit-not32 y j h k =
    rw (test_bit-bit (u8 (not32 y)) j, test_bit-bit y j)
      (ground (arith, bit-mod 8 (not32 y) j k, bit-not 32 y j h (omega arith), bit-le_one y j))

-- After `pic_init` with a mask that is not 0, exactly the lines of the mask are open, line by line
-- for both controllers.
pub pic_init-opens :
    (inb : Device) (mask : ℕ) (auto_eoi : Bool) (s : PicState) (irq : ℕ)
    → mask ≢ 0
    → mask < 2 ^ 16
    → irq < 16
    → (v : ℕ) × (last_value (data_port irq) (pic_init inb mask auto_eoi s).out ≡ some v)
      × (test_bit v (irq % 8) ≡ not (test_bit mask irq))
unfolding pic_init last_value pic_mask_clear
pic_init-opens inb mask auto_eoi s irq nonzero h k = elim (Bool-cases (leb 8 irq)) [
  | inl upper ↦ (
    u8 (not32 (mask / 2 ^ 8 % 2 ^ 8)),
    ground arith,
    test_bit-not32 (mask / 2 ^ 8 % 2 ^ 8) (irq % 8) (omega arith) (omega arith)
        ∙ ap not (
            test_bit-u8 (mask / 2 ^ 8) (irq % 8) (omega arith)
            ∙ test_bit-next_byte mask (irq % 8)
            ∙ ap (test_bit mask) (ground arith)),
  )
  | inr lower ↦ (
    u8 (not32 (mask % 2 ^ 8)),
    ground arith,
    test_bit-not32 (mask % 2 ^ 8) (irq % 8) (omega arith) (omega arith)
        ∙ ap not (test_bit-u8 mask (irq % 8) (omega arith) ∙ ap (test_bit mask) (ground arith)),
  )
]

-- But the mask is kept as it was given, so the first change of a line afterwards turns round every
-- other line of its controller.
pub pic_unmask-pic_init :
    (inb : Device) (mask : ℕ) (auto_eoi : Bool) (s : PicState) (irq j : ℕ)
    → mask ≢ 0
    → irq < 8
    → j < 8
    → j ≢ irq
    → (v : ℕ) × (last_value pic1_data (pic_unmask irq (pic_init inb mask auto_eoi s)).out ≡ some v)
      × (test_bit v j ≡ test_bit mask j)
unfolding last_value pic_init pic_mask_clear
pic_unmask-pic_init inb mask auto_eoi s irq j nonzero h k other =
    let s1 = pic_init inb mask auto_eoi s in
    let (_, out, _, bits) = pic_mask-pic_unmask irq s1 j (omega arith) (omega arith) in
    let port : data_port irq ≡ pic1_data = ground arith in
    let kept : s1.cached_mask ≡ mask = ground arith in
    ((pic_unmask irq s1).cached_mask, rw (out, port) refl, bits ∙ ground (arith, kept))

-- `pic_eoi` acknowledges at the first controller always, and at the second exactly for the
-- interrupts from `pic2_remap` on.
pub pic_eoi_lem :
    (int_id : ℕ)
    → (last_value pic1_command (pic_eoi int_id []) ≡ some pic_eoi_command)
      × (last_value pic2_command (pic_eoi int_id [])
          ≡ (if ltb int_id 0x28 then none else some pic_eoi_command))
unfolding pic_eoi last_value
pic_eoi_lem int_id = ground arith

-- Where `pic_unmask` writes.
pub pic_unmask-out :
    (irq : ℕ) (s : PicState)
    → (value : ℕ) × ((pic_unmask irq s).out ≡ outb (data_port irq) value s.out)
      × ((data_port irq ≡ pic1_data) ⊎ (data_port irq ≡ pic2_data))
unfolding pic_unmask
pic_unmask-out irq s = (u8 (bit_and s.cached_mask (not32 (2 ^ line irq))), refl, ground arith)
