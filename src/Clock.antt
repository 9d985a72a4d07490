-- ===== src/Clock.antt =====
-- drivers/rtc.c, the real time clock, on a device: its registers through those of cmos.c, and the text
-- of a date. The mode is the value of the status register that `rtc_init` keeps. The text is an array
-- of bytes that ends with NUL; the messages are left out.
pub mod Decimal
pub mod Text
mod Tests
use Prim.Native.Nat.{bit_and}
use xanadu_os.Base.{
  ℕ, zero, suc, ◌+◌, ◌-◌, ◌*◌, ◌/◌, ◌%◌, ◌^◌, Bool, true, false, Option, none, some, ltb, ◌==◌,
  if◌then◌else◌,
}
use xanadu_os.Base.Words.{u8, u16, u32, test_bit}
use xanadu_os.Base.Memory.{Words, write}
use xanadu_os.Base.Device.{
  Machine, Io, Done, done, pure, out_of_fuel, bind, ◌>>=◌, ◌>>◌, read, send,
}
use xanadu_os.Slibc.{copy_in, memset}
use xanadu_os.Screen.{itoa}
use xanadu_os.Cmos.{cmos_select_reg, cmos_read_data}

abbrev pub cmos_seconds : ℕ
cmos_seconds = 0x00

abbrev pub cmos_minutes : ℕ
cmos_minutes = 0x02

abbrev pub cmos_hours : ℕ
cmos_hours = 0x04

abbrev pub cmos_day_of_month : ℕ
cmos_day_of_month = 0x07

abbrev pub cmos_month : ℕ
cmos_month = 0x08

abbrev pub cmos_year : ℕ
cmos_year = 0x09

abbrev pub cmos_stat_a : ℕ
cmos_stat_a = 0x0A

abbrev pub cmos_stat_b : ℕ
cmos_stat_b = 0x0B

abbrev pub bcd_mode : ℕ
bcd_mode = 2

-- `((value & 0xF0) >> 1) + ((value & 0xF0) >> 3) + (value & 0xf)`.
pub from_bcd : (value : ℕ) → ℕ
from_bcd value = u8 (bit_and value 0xF0 / 2 + bit_and value 0xF0 / 8 + bit_and value 0xf)

-- The text and the number of characters behind `get_time_str`; `res` is what it copies from.
pub get_time_str : (res buf : Words) → (cur_buf_pos chars_wrote : ℕ) → Words × ℕ
get_time_str res buf cur_buf_pos chars_wrote =
    if chars_wrote == 1
    then (copy_in 2 0 (write buf cur_buf_pos 48) (cur_buf_pos + 1) res, 2)
    else (copy_in chars_wrote 0 buf cur_buf_pos res, chars_wrote)

-- The size of `local_buf`.
abbrev pub local_buf_size : ℕ
local_buf_size = 16

-- A number by `itoa`, put in the text with a leading zero or as it is: the text, and the position
-- behind. `itoa` is told the size of the text, not that of `local_buf`, and places the digits by it:
-- `none` is also an access outside of `local_buf`. Of its accesses the last of the copy is the highest.
pub placed :
    (padded : Bool)
    → (buf : Words) → (cur_buf_pos : ℕ) → Option (Words × ℕ × ℕ)
    → Option (Words × ℕ)
unfolding get_time_str
placed padded buf cur_buf_pos none = none
placed padded buf cur_buf_pos (some (local_buf, chars_wrote, at)) =
    let res : Words = λ i. local_buf (at + i) in
    let timed = get_time_str res buf cur_buf_pos chars_wrote in
    if ltb local_buf_size (at + (if padded then timed.1 else chars_wrote))
    then none
    else if padded
    then some (timed.0, cur_buf_pos + timed.1)
    else some (copy_in chars_wrote 0 buf cur_buf_pos res, cur_buf_pos + chars_wrote)

pub put_number : (fuel : ℕ) → (padded : Bool) → (value size : ℕ) → Words × ℕ → Option (Words × ℕ)
unfolding placed
put_number fuel padded value size (buf, cur_buf_pos) =
    placed padded buf cur_buf_pos (itoa fuel value (λ i. 0) size 10)

module _ {ℓ} {D : Type ℓ} (m : Machine D) where
  -- The status register is selected already.
  pub idle_loop : (fuel : ℕ) → Io D Done
  idle_loop zero = out_of_fuel
  idle_loop (suc f) = do
    stat ← cmos_read_data m
    let again = do cmos_select_reg m cmos_stat_a; idle_loop f
    if test_bit stat 7 then again else pure done

  pub rtc_get_val : (fuel time_mode reg : ℕ) → Io D ℕ
  unfolding idle_loop
  rtc_get_val fuel time_mode reg = do
    cmos_select_reg m cmos_stat_a
    idle_loop fuel
    cmos_select_reg m reg
    value ← cmos_read_data m
    pure (if time_mode == bcd_mode then from_bcd value else value)

  abbrev pub rtc_get_seconds : (fuel time_mode : ℕ) → Io D ℕ
  rtc_get_seconds fuel time_mode = rtc_get_val fuel time_mode cmos_seconds

  abbrev pub rtc_get_minutes : (fuel time_mode : ℕ) → Io D ℕ
  rtc_get_minutes fuel time_mode = rtc_get_val fuel time_mode cmos_minutes

  abbrev pub rtc_get_hour : (fuel time_mode : ℕ) → Io D ℕ
  rtc_get_hour fuel time_mode = rtc_get_val fuel time_mode cmos_hours

  abbrev pub rtc_get_month : (fuel time_mode : ℕ) → Io D ℕ
  rtc_get_month fuel time_mode = rtc_get_val fuel time_mode cmos_month

  abbrev pub rtc_get_day_of_month : Io D ℕ
  rtc_get_day_of_month = do cmos_select_reg m cmos_day_of_month; cmos_read_data m

  abbrev pub rtc_get_year : (fuel time_mode : ℕ) → Io D ℕ
  rtc_get_year fuel time_mode = do
    year ← rtc_get_val fuel time_mode cmos_year
    pure (u16 (2000 + year))

  -- The value of an optional result without effect on the device.
  abbrev pub lift : Option (Words × ℕ) → Io D (Words × ℕ)
  lift none = out_of_fuel
  lift (some r) = pure r

  -- `out` is the text and the position in it.
  pub put_field :
      (fuel : ℕ) → (padded : Bool) → (size : ℕ) → (out : Words × ℕ) → Io D ℕ → Io D (Words × ℕ)
  unfolding put_number
  put_field fuel padded size out get = do value ← get; lift (put_number fuel padded value size out)

  -- 'h', 's', 'm', 'y', 'd', 'M', and any other character.
  pub put_item : (fuel time_mode size c : ℕ) → (out : Words × ℕ) → Io D (Words × ℕ)
  unfolding put_field rtc_get_val
  put_item fuel time_mode size c out =
      if c == 104
      then put_field fuel true size out (rtc_get_hour fuel time_mode)
      else if c == 115
      then put_field fuel true size out (rtc_get_seconds fuel time_mode)
      else if c == 109
      then put_field fuel true size out (rtc_get_minutes fuel time_mode)
      else if c == 121
      then put_field fuel false size out (rtc_get_year fuel time_mode)
      else if c == 100
      then put_field fuel false size out rtc_get_day_of_month
      else if c == 77
      then put_field fuel false size out (rtc_get_month fuel time_mode)
      else pure (write out.0 out.1 c, out.1 + 1)

  -- The items of a format from index `i` on; `rounds` bounds its length, `fuel` what a character takes.
  pub date_loop :
      (fuel time_mode size rounds i : ℕ) → (format : Words) → (out : Words × ℕ) → Io D Words
  unfolding put_item
  date_loop fuel time_mode size zero i format out = out_of_fuel
  date_loop fuel time_mode size (suc n) i format out =
      let rest = do
        out' ← put_item fuel time_mode size (format i) out
        date_loop fuel time_mode size n (i + 1) format out'
      in if format i == 0 then pure out.0 else rest

  pub get_date_time : (fuel time_mode rounds : ℕ) → (format buf : Words) → (size : ℕ) → Io D Words
  unfolding date_loop
  get_date_time fuel time_mode rounds format buf size =
      date_loop fuel time_mode size rounds 0 format ((memset buf 0 0 size).0, 0)

  -- The mode kept.
  abbrev pub rtc_init : Io D ℕ
  rtc_init = do cmos_select_reg m cmos_stat_b; cmos_read_data m
