-- ===== src/Floppy/Tests.antt =====
-- A controller that always takes bytes.
use xanadu_os.Base.{ℕ, ◌+◌, ◌≡◌, ◌⊎◌, false, true, arith, some}
use xanadu_os.Base.Words.{u8}
use xanadu_os.Base.Device.{Machine}
use xanadu_os.Floppy.{floppy_wait, floppy_write_cmd, floppy_reset, floppy_fault, takes_bytes}
use xanadu_os.Floppy.Poll.{Polled, Sends, floppy_wait_lem, floppy_write_cmd_lem}
use xanadu_os.Floppy.Reset.{floppy_reset_lem}

-- The state is the number of operations.
abbrev answering : (value : ℕ) → Machine ℕ
answering value = record {
  inb = λ port d. (value, d + 1);
  outb = λ port v d. d + 1;
  sleep_ms = λ delay d. d + 1;
  sleep_us = λ delay d. d + 1;
  irq_tick = λ d. d;
}

floppy_wait_lem_example :
    (ret d' : ℕ) × (floppy_wait (answering 0x80) 3000 0x3F0 0 ≡ some (ret, d'))
    × Polled (answering 0x80) 0x3F0 0 ret d'
floppy_wait_lem_example = floppy_wait_lem (answering 0x80) 3000 0x3F0 0 (omega arith)

-- A command with two parameters.
floppy_write_cmd_lem_example :
    (ret d' : ℕ) × (floppy_write_cmd (answering 0x80) 3000 0x3F0 3 2 (λ i. i) 0 ≡ some (ret, d'))
    × (((takes_bytes (u8 0x80) ≡ true) × Sends (answering 0x80) 0x3F0 (λ i. i) 0 2 2 ret d')
        ⊎ ((takes_bytes (u8 0x80) ≡ false) × (ret ≡ floppy_fault) × (d' ≡ 1)))
floppy_write_cmd_lem_example =
    floppy_write_cmd_lem (answering 0x80) 3000 0x3F0 3 2 (λ i. i) 0 (omega arith)

floppy_reset_lem_example :
    (d' : ℕ) × (floppy_reset (answering 0x80) 3001 0x3F0 4 (λ i. 0) 0 ≡ some (0xFFFFFFFF, d'))
floppy_reset_lem_example = floppy_reset_lem (answering 0x80) 3001 0x3F0 4 (λ i. 0) 0 (omega arith)
