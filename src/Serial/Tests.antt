-- ===== src/Serial/Tests.antt =====
-- A device whose transmitter is always free and which always has a byte; its state is what was sent.
use xanadu_os.Base.{ℕ, ◌+◌, ◌≤◌, ◌≡◌, refl, arith, some, List, [], ◌∷◌, ◌++◌, ◌==◌, if◌then◌else◌}
use xanadu_os.Base.Memory.{Words}
use xanadu_os.Base.Device.{Machine, bind}
use xanadu_os.Base.Words.{test_bit}
use xanadu_os.Serial.{Buffers, serial_write, serial_interrupt, serial_read_buf, com1, data_reg}
use xanadu_os.Serial.Queue.{bytes, pending}
use xanadu_os.Serial.Order.{Recorder, Queued, interrupts, serial_write_lem, serial_interrupt_lem}
use xanadu_os.Serial.Line.{LineFrom, arrives_within, serial_read_buf_lem}

abbrev open_line : Machine (List ℕ)
open_line = record {
  inb = λ port d. (if port == com1 + data_reg then 65 else 0x21, d);
  outb = λ port v d. if port == com1 + data_reg then d ++ (v ∷ []) else d;
  sleep_ms = λ delay d. d;
  sleep_us = λ delay d. d;
  irq_tick = λ d. 0;
}

abbrev recorder : Recorder open_line
recorder = record { sent = λ d. d; sent-outb = λ v d. refl; sent-inb = λ port d. refl }

abbrev no_bytes : Words
no_bytes i = 0

abbrev letters : Words
letters i = 97 + i

abbrev idle : Buffers
idle = record {
  write_buf = no_bytes;
  read_buf = no_bytes;
  write_pos = 5;
  read_pos = 0;
  cur_pos = 5;
}

abbrev three : Buffers
three = record {
  write_buf = letters;
  read_buf = no_bytes;
  write_pos = 3;
  read_pos = 0;
  cur_pos = 0;
}

serial_write_lem_example :
    (s' : Buffers) × (d' : List ℕ) × (bind
        (serial_write open_line 1 com1 letters 3 idle [])
        (interrupts open_line 3)
      ≡ some (s', d'))
    × (d' ≡ 97 ∷ 98 ∷ 99 ∷ [])
unfolding bytes test_bit
serial_write_lem_example =
    serial_write_lem open_line recorder 1 letters 3 idle [] refl (omega arith) (omega arith)
      (omega arith) (λ e. refl)

serial_interrupt_lem_example :
    (s' : Buffers) × (d' : List ℕ) × (serial_interrupt open_line three [] ≡ some (s', d'))
    × Queued open_line recorder (97 ∷ 98 ∷ 99 ∷ []) 2 s' d'
unfolding pending bytes Queued test_bit
serial_interrupt_lem_example =
    serial_interrupt_lem open_line recorder (97 ∷ 98 ∷ 99 ∷ []) 3 three []
      (refl, omega arith, omega arith, omega arith)

serial_read_buf_lem_example :
    (ret : ℕ) × (buf' : Words) × (d' : List ℕ) × (serial_read_buf open_line 1 com1 no_bytes 4 []
      ≡ some ((ret, buf'), d'))
    × LineFrom 0 3 no_bytes (ret, buf')
    × ((j : ℕ) → 4 ≤ j → buf' j ≡ no_bytes j)
unfolding arrives_within test_bit
serial_read_buf_lem_example =
    serial_read_buf_lem open_line com1 1 no_bytes 4 [] (omega arith) (omega arith) (λ e. refl)
