-- ===== src/Clock/Decimal.antt =====
-- What the clock's registers are read as, and how a number of two digits is written.
use Prim.Native.Nat.{bit_and}
use xanadu_os.Base.{
  ltb, none, ℕ, zero, suc, ◌+◌, ◌-◌, ◌*◌, ◌/◌, ◌%◌, ◌≤◌, ◌<◌, ◌≡◌, ◌⊎◌, inl, inr, refl, ap, ◌∙◌,
  Bool, true, false, ◌&&◌, arith, some, ◌==◌, if◌then◌else◌,
}
use xanadu_os.Base.Words.{u8, test_bit}
use xanadu_os.Base.Memory.{Words, write, write_same, write_other}
use xanadu_os.Base.Device.{Machine, Ends, ends, Ends-bind, Ends-if, Ends_inv}
use xanadu_os.Slibc.{copy_in}
use xanadu_os.Screen.Short.{itoa_one, itoa_two}
use xanadu_os.Clock.{
  from_bcd, get_time_str, placed, put_number, idle_loop, rtc_get_val, bcd_mode, cmos_stat_a,
}
use xanadu_os.Cmos.{cmos_data_port, cmos_command_port}

-- A test that holds below a bound.
holds_below : (n : ℕ) → (ℕ → Bool) → Bool
holds_below zero p = true
holds_below (suc n) p = let rest = holds_below n p in p n && rest

at_each : (n : ℕ) (p : ℕ → Bool) → holds_below n p ≡ true → (i : ℕ) → i < n → p i ≡ true
unfolding holds_below
at_each zero p h i l = absurd (omega (arith, l))
at_each (suc n) p h i l =
    let split : (i ≡ n) ⊎ (i < n) = omega (arith, l) in
    elim split [ inl e ↦ ap p e ∙ ground (arith, h) | inr b ↦ at_each n p (ground (arith, h)) i b ]

bcd_test : (value : ℕ) → Bool
bcd_test value =
    u8 (bit_and value 0xF0 / 2 + bit_and value 0xF0 / 8 + bit_and value 0xf)
    == u8 (10 * (value / 16) + value % 16)

all_bytes : holds_below 256 bcd_test ≡ true
unfolding holds_below bcd_test
all_bytes = refl

pub from_bcd_lem : (value : ℕ) → value < 256 → from_bcd value ≡ u8 (10 * (value / 16) + value % 16)
unfolding from_bcd bcd_test
from_bcd_lem value h =
    let same : bcd_test value ≡ true = at_each 256 bcd_test all_bytes value h in
    ground (arith, same)

decoded : (time_mode byte : ℕ) → ℕ
decoded time_mode byte = if time_mode == bcd_mode then from_bcd byte else byte

decoded_lem :
    (time_mode byte : ℕ)
    → byte < 256
    → decoded time_mode byte
      ≡ (if time_mode == bcd_mode then u8 (10 * (byte / 16) + byte % 16) else byte)
unfolding decoded
decoded_lem time_mode byte h =
    ap (λ v. if time_mode == bcd_mode then v else byte) (from_bcd_lem byte h)

-- The tens and the ones of a number at a position; what stands before it is kept, and zeros behind it.
unfoldable pub TwoDigits : (value pos : ℕ) (buf buf' : Words) → Type 0
TwoDigits value pos buf buf' =
    (buf' pos ≡ 48 + value / 10)
    × (buf' (pos + 1) ≡ 48 + value % 10)
    × ((j : ℕ) → j < pos → buf' j ≡ buf j)
    × ((j : ℕ) → pos + 2 ≤ j → buf j ≡ 0 → buf' j ≡ 0)

-- The text behind a single digit, and behind two.
one_digit :
    (value pos at : ℕ) (buf local : Words)
    → value < 10
    → local at ≡ 48 + value
    → local (at + 1) ≡ 0
    → at ≤ 14
    → (buf' : Words) × (placed true buf pos (some (local, 1, at)) ≡ some (buf', pos + 2))
      × TwoDigits value pos buf buf'
unfolding placed get_time_str copy_in write TwoDigits
one_digit value pos at buf local h c z room =
    let text = (get_time_str (λ i. local (at + i)) buf pos 1).0 in
    let inside : ltb 16 (at + 2) ≡ false = ground (arith, room) in
    let same : at + 0 ≡ at = omega arith in
    let here : local (at + 0) ≡ 48 + value = ap local same ∙ c in
    (
      text,
      ap (λ b. if b then none else some (text, pos + 2)) inside,
      (
        ground (arith, h),
        ground (arith, h, here),
        λ j l. ground (arith, l),
        λ j l o. ground (arith, l, o, z),
      ),
    )

two_digits :
    (value pos at : ℕ) (buf local : Words)
    → value < 100
    → local at ≡ 48 + value / 10
    → local (at + 1) ≡ 48 + value % 10
    → at ≤ 14
    → (buf' : Words) × (placed true buf pos (some (local, 2, at)) ≡ some (buf', pos + 2))
      × TwoDigits value pos buf buf'
unfolding placed get_time_str copy_in write TwoDigits
two_digits value pos at buf local h c e room =
    let text = (get_time_str (λ i. local (at + i)) buf pos 2).0 in
    let inside : ltb 16 (at + 2) ≡ false = ground (arith, room) in
    let same : at + 0 ≡ at = omega arith in
    let here : local (at + 0) ≡ 48 + value / 10 = ap local same ∙ c in
    (
      text,
      ap (λ b. if b then none else some (text, pos + 2)) inside,
      (
        ground (arith, h, here),
        ground (arith, h, e),
        λ j l. ground (arith, l),
        λ j l o. ground (arith, l, o),
      ),
    )

-- `put_number`, padded, for a text of 16 bytes at most, writes any number below 100 with two digits, and
-- moves the position by 2.
pub put_number_two :
    (f value size pos : ℕ) (buf : Words)
    → value < 100
    → 3 ≤ size
    → size ≤ 16
    → (buf' : Words) × (put_number (suc (suc f)) true value size (buf, pos) ≡ some (buf', pos + 2))
      × TwoDigits value pos buf buf'
unfolding put_number
put_number_two f value size pos buf h p w =
    let next : size - 3 + 1 ≡ size - 2 = omega (arith, p) in
    let size_of : (10 ≤ value) ⊎ (value < 10) = omega arith in
    elim size_of [
      | inl large ↦
          let local =
            write (write (λ i. 0) (size - 2) (48 + value % 10)) (size - 3) (48 + value / 10) in
          let tens : local (size - 3) ≡ 48 + value / 10 =
            write_same _ (size - 3) (48 + value / 10) in
          let ones : local (size - 3 + 1) ≡ 48 + value % 10 =
            ap local next
            ∙ write_other _ (size - 3) (48 + value / 10) (size - 2) (omega (arith, p))
            ∙ write_same (λ i. 0) (size - 2) (48 + value % 10) in
          let r = two_digits value pos (size - 3) buf local h tens ones (omega (arith, w)) in
          (
            r.0,
            ap (placed true buf pos)
                  (itoa_two f value (λ i. 0) size 10 large h p (omega (arith, w)))
                ∙ r.1,
            r.2,
          )
      | inr small ↦
          let local = write (λ i. 0) (size - 2) (48 + value) in
          let last : local (size - 2 + 1) ≡ 0 =
            write_other (λ i. 0) (size - 2) (48 + value) (size - 2 + 1) (omega arith) in
          let r =
            one_digit value pos (size - 2) buf local small
              (write_same (λ i. 0) (size - 2) (48 + value)) last (omega (arith, w)) in
          (
            r.0,
            ap (placed true buf pos)
                  (itoa_one (suc f) value (λ i. 0) size 10 small p (omega (arith, w)))
                ∙ r.1,
            r.2,
          )
    ]

module _ {ℓ} {D : Type ℓ} (m : Machine D) where
  -- One of the next `n` reads of the status shows that no update is in progress, and the state then.
  unfoldable pub idle_within : (n : ℕ) → D → Bool
  idle_within zero d = false
  idle_within (suc n) d =
      let seen = m.inb cmos_data_port d in
      let later = idle_within n (m.sleep_ms 50 (m.outb cmos_command_port cmos_stat_a seen.1)) in
      if test_bit (u8 seen.0) 7 then later else true

  idle_loop_lem :
      (fuel : ℕ) (d : D)
      → idle_within fuel d ≡ true
      → Ends
          (λ r d'.
            (before : D) × (test_bit (u8 (m.inb cmos_data_port before).0) 7 ≡ false)
            × (d' ≡ (m.inb cmos_data_port before).1))
          (idle_loop m fuel d)
  unfolding idle_loop idle_within
  idle_loop_lem zero d h = absurd (ground (arith, h))
  idle_loop_lem (suc f) d h =
      let seen = m.inb cmos_data_port d in
      Ends-if _ _ (test_bit (u8 seen.0) 7) seen.1
        (λ y.
          idle_loop_lem f (m.sleep_ms 50 (m.outb cmos_command_port cmos_stat_a seen.1))
            (ground (arith, h, y)))
        (λ n. ends (d, n, refl))

  -- What a register holds behind a read of the status.
  unfoldable pub register : (reg : ℕ) → D → ℕ
  register reg before =
      u8
        (m.inb cmos_data_port
          (m.sleep_ms 50 (m.outb cmos_command_port (u8 reg) (m.inb cmos_data_port before).1))).0

  -- `rtc_get_val`, on a clock that within the fuel shows that it is not updating: it ends, and has read
  -- the register just behind such a status; in the mode of two decimal digits to a byte the result is
  -- the number that they write, and the byte itself in every other mode.
  pub rtc_get_val_lem :
      (fuel time_mode reg : ℕ) (d : D)
      → idle_within fuel (m.sleep_ms 50 (m.outb cmos_command_port cmos_stat_a d)) ≡ true
      → (value : ℕ) × (d' : D) × (before : D) × (rtc_get_val m fuel time_mode reg d
          ≡ some (value, d'))
        × (test_bit (u8 (m.inb cmos_data_port before).0) 7 ≡ false)
        × (value ≡ (
            if time_mode == bcd_mode
            then u8 (10 * (register reg before / 16) + register reg before % 16)
            else register reg before))
  unfolding rtc_get_val register decoded
  rtc_get_val_lem fuel time_mode reg d h =
      let (value, d', result, (before, seen, is)) = Ends_inv (
        Ends-bind
          {Q = λ value d'.
            (before : D) × (test_bit (u8 (m.inb cmos_data_port before).0) 7 ≡ false)
            × (value ≡ (
                if time_mode == bcd_mode
                then u8 (10 * (register reg before / 16) + register reg before % 16)
                else register reg before))}
          (idle_loop_lem fuel (m.sleep_ms 50 (m.outb cmos_command_port cmos_stat_a d)) h)
          (λ r d1 (before, seen, now). ends (
            before,
            seen,
            ap
                  (λ e. decoded time_mode (
                    u8
                      (m.inb cmos_data_port
                        (m.sleep_ms 50 (m.outb cmos_command_port (u8 reg) e))).0))
                  now
                ∙ decoded_lem time_mode (register reg before) (omega arith),
          ))) in
      (value, d', before, result, seen, is)
