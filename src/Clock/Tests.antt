-- ===== src/Clock/Tests.antt =====
-- A clock that is idle, and whose registers, in binary, all hold 7.
use xanadu_os.Base.{ℕ, ◌+◌, ◌*◌, ◌/◌, ◌%◌, ◌≡◌, refl, false, arith, some}
use xanadu_os.Base.Words.{u8, test_bit}
use xanadu_os.Base.Memory.{Words}
use xanadu_os.Base.Device.{Machine}
use xanadu_os.Clock.{rtc_get_val, get_date_time, cmos_hours, cmos_minutes, cmos_seconds}
use xanadu_os.Clock.Decimal.{idle_within, rtc_get_val_lem, register}
use xanadu_os.Clock.Text.{number, Reads, time_format, get_date_time_lem}

-- The state is the number of operations.
abbrev still : Machine ℕ
still = record {
  inb = λ port d. (7, d + 1);
  outb = λ port v d. d + 1;
  sleep_ms = λ delay d. d + 1;
  sleep_us = λ delay d. d + 1;
  irq_tick = λ d. 0;
}

rtc_get_val_lem_example :
    (value d' before : ℕ) × (rtc_get_val still 1 2 0 0 ≡ some (value, d'))
    × (test_bit (u8 7) 7 ≡ false)
    × (value ≡ u8 (10 * (register still 0 before / 16) + register still 0 before % 16))
unfolding idle_within test_bit
rtc_get_val_lem_example = rtc_get_val_lem still 1 2 0 0 refl

get_date_time_lem_example :
    (h mi s d' : ℕ) × (text : Words) × (get_date_time still 2 0 6 time_format (λ i. 1) 16 0
      ≡ some (text, d'))
    × Reads
        (number still 0 cmos_hours h)
        (number still 0 cmos_minutes mi)
        (number still 0 cmos_seconds s)
        text
unfolding idle_within test_bit number register
get_date_time_lem_example =
    get_date_time_lem still 0 0 0 16 (λ i. 1) 0 (λ e. refl) (λ reg e. omega arith) (omega arith)
      (omega arith)
