-- ===== src/Serial.antt =====
-- drivers/serial.c, the serial port, on a device: the queue of the bytes to send, which the
-- interrupt empties, and the reads that wait. Bytes are numbers below 256. The buffers have no length
-- here: nothing in the source keeps the positions below the 1024 of `write_buf` and `read_buf`.
pub mod Queue
pub mod Order
pub mod Line
mod Tests
use xanadu_os.Base.{
  ℕ, zero, suc, ◌+◌, ◌-◌, ◌*◌, ◌^◌, Bool, true, false, ◌&&◌, ◌||◌, not, ◌==◌, if◌then◌else◌,
}
use xanadu_os.Base.Words.{u8, u32, sub32, test_bit}
use xanadu_os.Base.Memory.{Words, write}
use xanadu_os.Base.Device.{
  Machine, Io, Done, done, pure, out_of_fuel, bind, ◌>>=◌, ◌>>◌, read, send,
}
use xanadu_os.Slibc.{copy_in}
use xanadu_os.Int.{Interrupts, add_irq_handler}

-- The registers by their distance from the port.
abbrev pub data_reg : ℕ
data_reg = 0

abbrev pub int_reg : ℕ
int_reg = 1

abbrev pub line_cr : ℕ
line_cr = 3

abbrev pub modem_cr : ℕ
modem_cr = 4

abbrev pub line_stat_reg : ℕ
line_stat_reg = 5

abbrev pub baud_divisor : ℕ
baud_divisor = 0x0C

abbrev pub com1 : ℕ
com1 = 0x3f8

pub record Buffers : Type 0 where
  pub write_buf : Words
  pub read_buf : Words
  pub write_pos : ℕ
  pub read_pos : ℕ
  pub cur_pos : ℕ

-- The buffers behind `serial_write`.
pub enqueue : (buf : Words) → (len : ℕ) → Buffers → Buffers
enqueue buf len s = record {
  write_buf = copy_in len 0 s.write_buf s.write_pos buf;
  read_buf = s.read_buf;
  write_pos = u32 (s.write_pos + len);
  read_pos = s.read_pos;
  cur_pos = u32 (s.cur_pos + 1);
}

-- The buffers behind a byte sent, and behind a byte received, by the interrupt.
abbrev pub sent_next : Buffers → Buffers
sent_next s = record {
  write_buf = s.write_buf;
  read_buf = s.read_buf;
  write_pos = s.write_pos;
  read_pos = s.read_pos;
  cur_pos = u32 (s.cur_pos + 1);
}

abbrev pub received : (c : ℕ) → Buffers → Buffers
received c s = record {
  write_buf = s.write_buf;
  read_buf = write s.read_buf s.read_pos c;
  write_pos = s.write_pos;
  read_pos = u32 (s.read_pos + 1);
  cur_pos = s.cur_pos;
}

abbrev pub ends_line : (c : ℕ) → Bool
ends_line c = c == 10 || c == 13

module _ {ℓ} {D : Type ℓ} (m : Machine D) where
  abbrev pub com_init : (port : ℕ) → Io D Done
  com_init port = do
    send m (port + line_cr) (2 ^ 7)
    send m (port + 0) baud_divisor
    send m (port + 0) 0x00
    send m (port + 2) 0xC7
    send m (port + line_cr) 0x3
    send m (port + modem_cr) 0x0B
    send m (port + int_reg) 0x3

  abbrev pub rx_ready : (port : ℕ) → Io D Bool
  rx_ready port = do stat ← read m (port + line_stat_reg); pure (test_bit stat 0)

  abbrev pub tx_free : (port : ℕ) → Io D Bool
  tx_free port = do stat ← read m (port + line_stat_reg); pure (test_bit stat 5)

  abbrev pub serial_send : (port c : ℕ) → Io D Done
  serial_send port c = send m (port + data_reg) (u8 c)

  abbrev pub serial_read : (port : ℕ) → Io D ℕ
  serial_read port = read m (port + data_reg)

  pub wait_serial_read : (fuel port : ℕ) → Io D ℕ
  wait_serial_read zero port = out_of_fuel
  wait_serial_read (suc f) port = do
    ready ← rx_ready port
    if ready then serial_read port else wait_serial_read f port

  pub wait_serial_send : (fuel port c : ℕ) → Io D Done
  wait_serial_send zero port c = out_of_fuel
  wait_serial_send (suc f) port c = do
    free ← tx_free port
    if free then serial_send port c else wait_serial_send f port c

  pub serial_write : (fuel port : ℕ) → (buf : Words) → (len : ℕ) → Buffers → Io D Buffers
  unfolding enqueue wait_serial_send
  serial_write fuel port buf len s =
      let s' = enqueue buf len s in do wait_serial_send fuel port (buf 0); pure s'

  abbrev pub receive : Buffers → Io D Buffers
  receive s = do
    ready ← rx_ready com1
    let rest = do c ← serial_read com1; pure (received c s)
    if ready then rest else pure s

  pub serial_interrupt : Buffers → Io D Buffers
  serial_interrupt s = do
    free ← tx_free com1
    let sends = do serial_send com1 (s.write_buf s.cur_pos); receive (sent_next s)
    if free && not (s.cur_pos == s.write_pos) then sends else receive s

  -- From index `i` on to the NUL byte; fuel bounds the length.
  pub serial_print : (fuel i port : ℕ) → (msg : Words) → Io D Done
  serial_print zero i port msg = out_of_fuel
  serial_print (suc f) i port msg =
      let rest = do serial_send port (msg i); serial_print f (i + 1) port msg
      in if msg i == 0 then pure done else rest

  -- The rounds from index `i` on, and the NUL byte behind them at index `i + rounds`.
  pub read_loop : (fuel rounds i port : ℕ) → (buf : Words) → Io D (ℕ × Words)
  unfolding wait_serial_read
  read_loop fuel zero i port buf = pure (1, write buf i 0)
  read_loop fuel (suc n) i port buf = do
    c ← wait_serial_read fuel port
    let buf' = write buf i c
    let rest = read_loop fuel n (i + 1) port buf'
    if ends_line c then pure (0, write buf' (i + 1) 0) else rest

  -- For a length of 0 the bound `buf_len - 1` wraps around.
  pub serial_read_buf : (fuel port : ℕ) → (buf : Words) → (buf_len : ℕ) → Io D (ℕ × Words)
  unfolding read_loop
  serial_read_buf fuel port buf buf_len = read_loop fuel (sub32 buf_len 1) 0 port buf

  -- The interrupt of the port is 4.
  abbrev pub serial_init : (handler : ℕ) → Interrupts → Io D Interrupts
  serial_init handler ints = do com_init com1; pure (add_irq_handler 4 handler ints)
