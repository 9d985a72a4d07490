-- ===== src/Ps2.antt =====
-- drivers/ps2.c, the PS/2 controller, on a device. What `ps2_wait_read` and `ps2_handler` print is
-- left out. `io_wait` writes a zero to an unused port.
pub mod Wait
mod Tests
use Prim.Native.Nat.{bit_and}
use xanadu_os.Base.{ℕ, zero, suc, ◌+◌, ◌-◌, ◌*◌, ◌^◌, Bool, true, false, ◌==◌, if◌then◌else◌}
use xanadu_os.Base.Words.{u8, test_bit, set_bit, clear_bit}
use xanadu_os.Base.Device.{
  Machine, Io, Done, done, pure, out_of_fuel, bind, ◌>>=◌, ◌>>◌, read, send,
}
use xanadu_os.Int.{Interrupts, add_irq_handler}

abbrev pub ps2_command_port : ℕ
ps2_command_port = 0x64

abbrev pub ps2_status_port : ℕ
ps2_status_port = 0x64

abbrev pub ps2_data_port : ℕ
ps2_data_port = 0x60

abbrev pub ps2_enable_aux : ℕ
ps2_enable_aux = 0xA8

abbrev pub ps2_get_compaq_stat : ℕ
ps2_get_compaq_stat = 0x20

abbrev pub ps2_set_compaq_stat : ℕ
ps2_set_compaq_stat = 0x60

abbrev pub ps2_set_defaults : ℕ
ps2_set_defaults = 0xF6

abbrev pub ps2_enable_streaming : ℕ
ps2_enable_streaming = 0xF4

abbrev pub time_out : ℕ
time_out = 100000

-- What the two waits of `mouse_wait` stop at: a full output buffer, or an empty input buffer.
abbrev pub is_ready : (a_type stat : ℕ) → Bool
is_ready a_type stat = if a_type == 0 then bit_and stat 1 == 1 else bit_and stat 2 == 0

module _ {ℓ} {D : Type ℓ} (m : Machine D) where
  abbrev pub ps2_read_status : Io D ℕ
  ps2_read_status = read m ps2_status_port

  abbrev pub ps2_read_data : Io D ℕ
  ps2_read_data = read m ps2_data_port

  abbrev pub ps2_write_cmd : (cmd : ℕ) → Io D Done
  ps2_write_cmd cmd = do send m ps2_command_port (u8 cmd); send m 0x80 0

  -- The second read of the port is printed.
  pub ps2_wait_read : (fuel : ℕ) → Io D ℕ
  ps2_wait_read zero = out_of_fuel
  ps2_wait_read (suc f) = do
    stat ← read m 0x64
    let rest = do printed ← read m ps2_command_port; read m ps2_data_port
    if test_bit stat 0 then rest else ps2_wait_read f

  pub wait_rounds : (rounds a_type : ℕ) → Io D Done
  wait_rounds zero a_type = pure done
  wait_rounds (suc n) a_type = do
    stat ← read m 0x64
    if is_ready a_type stat then pure done else wait_rounds n a_type

  pub mouse_wait : (a_type : ℕ) → Io D Done
  unfolding wait_rounds
  mouse_wait a_type = wait_rounds time_out a_type

  -- A byte written, and a byte read, behind a wait.
  abbrev pub wait_send : (port value : ℕ) → Io D Done
  wait_send port value = do mouse_wait 1; send m port value

  abbrev pub wait_data : Io D ℕ
  wait_data = do mouse_wait 0; read m ps2_data_port

  -- The status with the interrupt of the second port on and its clock not off.
  abbrev pub with_aux : (compaq_stat : ℕ) → ℕ
  with_aux compaq_stat = clear_bit (set_bit compaq_stat 1) 5

  pub ps2_init : (handler : ℕ) → Interrupts → Io D (Interrupts × ℕ)
  unfolding mouse_wait
  ps2_init handler ints = do
    wait_send ps2_command_port ps2_enable_aux
    wait_send ps2_command_port ps2_get_compaq_stat
    compaq_stat ← wait_data
    wait_send ps2_command_port ps2_set_compaq_stat
    wait_send ps2_data_port (with_aux compaq_stat)
    wait_send ps2_command_port 0xD4
    wait_send ps2_data_port ps2_set_defaults
    defaults ← wait_data
    wait_send ps2_command_port 0xD4
    wait_send ps2_data_port ps2_enable_streaming
    streaming ← wait_data
    pure (add_irq_handler 12 handler ints, 0)
