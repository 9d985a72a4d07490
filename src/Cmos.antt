-- ===== src/Cmos.antt =====
-- drivers/cmos.c, the registers of the clock's memory, on a device.
use xanadu_os.Base.{ℕ}
use xanadu_os.Base.Words.{u8}
use xanadu_os.Base.Device.{Machine, Io, Done, ◌>>◌, read, send, delay}

abbrev pub cmos_command_port : ℕ
cmos_command_port = 0x70

abbrev pub cmos_data_port : ℕ
cmos_data_port = 0x71

module _ {ℓ} {D : Type ℓ} (m : Machine D) where
  abbrev pub cmos_select_reg : (reg : ℕ) → Io D Done
  cmos_select_reg reg = do send m cmos_command_port (u8 reg); delay m 50

  abbrev pub cmos_read_data : Io D ℕ
  cmos_read_data = read m cmos_data_port

  -- `io_wait` writes a zero to an unused port.
  abbrev pub cmos_write_data : (value : ℕ) → Io D Done
  cmos_write_data value = do send m cmos_data_port (u8 value); send m 0x80 0
