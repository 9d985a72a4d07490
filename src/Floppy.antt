-- ===== src/Floppy.antt =====
-- drivers/storage/floppy.c, the floppy controller, on a device. Results of type `int` are words of 32
-- bits. Interrupts are taken in while the driver sleeps: the device keeps their counter. The messages
-- are left out.
pub mod Poll
pub mod Reset
mod Tests
use Prim.Native.Nat.{bit_and, bit_or}
use xanadu_os.Base.{
  ℕ, zero, suc, ◌+◌, ◌-◌, ◌*◌, ◌/◌, ◌%◌, ◌^◌, Bool, true, false, ◌&&◌, ◌||◌, not, ltb, leb, ◌==◌,
  if◌then◌else◌,
}
use xanadu_os.Base.Words.{u8, u16, u32, test_bit}
use xanadu_os.Base.Memory.{Words, write}
use xanadu_os.Base.Device.{
  Machine, Io, Done, done, pure, out_of_fuel, bind, ◌>>=◌, ◌>>◌, read, send, delay, delay_us, tick,
}
use xanadu_os.Cmos.{cmos_select_reg, cmos_read_data}
use xanadu_os.Int.{Interrupts, add_irq_handler}

abbrev pub timeout_ms : ℕ
timeout_ms = 30000

-- The registers by their distance from the base.
abbrev pub digital_out_reg : ℕ
digital_out_reg = 2

abbrev pub main_status_reg : ℕ
main_status_reg = 4

abbrev pub data_fifo : ℕ
data_fifo = 5

abbrev pub config_reg : ℕ
config_reg = 7

abbrev pub cmd_specify : ℕ
cmd_specify = 3

abbrev pub cmd_recalibrate : ℕ
cmd_recalibrate = 7

abbrev pub cmd_sense_interrupt : ℕ
cmd_sense_interrupt = 8

-- `FLOPPY_TIMEOUT`, which is also the `-1` of the functions, and `FLOPPY_FAULT`.
abbrev pub floppy_timeout : ℕ
floppy_timeout = 0xFFFFFFFF

abbrev pub floppy_fault : ℕ
floppy_fault = 0xFFFFFFFE

-- `!(msr & MSR_RQM) || (msr & MSR_DIO)`, turned round.
abbrev pub takes_bytes : (msr : ℕ) → Bool
takes_bytes msr = test_bit msr 7 && not (test_bit msr 6)

abbrev pub is_negative : ℕ → Bool
is_negative x = leb (2 ^ 31) x

module _ {ℓ} {D : Type ℓ} (m : Machine D) where
  pub wait_loop : (fuel : ℕ) → (base msr ticks : ℕ) → Io D ℕ
  wait_loop zero base msr ticks = out_of_fuel
  wait_loop (suc f) base msr ticks =
      let rest = do
        msr' ← read m (base + main_status_reg)
        let sleep = do delay m 10; wait_loop f base msr' (ticks + 10)
        if leb timeout_ms (ticks + 10) then pure 1 else sleep
      in if takes_bytes msr then pure 0 else rest

  pub floppy_wait : (fuel base : ℕ) → Io D ℕ
  unfolding wait_loop
  floppy_wait fuel base = do msr ← read m (base + main_status_reg); wait_loop fuel base msr 0

  pub floppy_read : (fuel base : ℕ) → Io D ℕ
  unfolding floppy_wait
  floppy_read fuel base = do
    late ← floppy_wait fuel base
    if late == 0 then read m (base + data_fifo) else pure floppy_timeout

  -- The parameters from the `i`-th on; `args` is what `va_arg` gives, on and on behind those that the
  -- caller passes.
  pub send_params : (fuel base rounds i : ℕ) → (args : Words) → Io D ℕ
  unfolding floppy_wait
  send_params fuel base zero i args = pure 0
  send_params fuel base (suc n) i args = do
    late ← floppy_wait fuel base
    let rest = do send m (base + data_fifo) (u8 (args i)); send_params fuel base n (i + 1) args
    if late == 0 then rest else pure floppy_timeout

  pub floppy_write_cmd : (fuel base cmd param_cnt : ℕ) → (args : Words) → Io D ℕ
  unfolding send_params
  floppy_write_cmd fuel base cmd param_cnt args = do
    msr ← read m (base + main_status_reg)
    let rest = do send m (base + data_fifo) (u8 cmd); send_params fuel base param_cnt 0 args
    if takes_bytes msr then rest else pure floppy_fault

  pub irq_loop : (fuel init_tick timeout_tick : ℕ) → Io D ℕ
  irq_loop zero init_tick timeout_tick = out_of_fuel
  irq_loop (suc f) init_tick timeout_tick = do
    now ← tick m
    let rest = do
      delay m 10
      if ltb timeout_ms (timeout_tick + 10)
          then pure floppy_timeout
          else irq_loop f init_tick (timeout_tick + 10)
    if now == init_tick then rest else pure 0

  pub floppy_irq_wait : (fuel init_tick : ℕ) → Io D ℕ
  unfolding irq_loop
  floppy_irq_wait fuel init_tick = irq_loop fuel init_tick 0

  pub floppy_sense_interrupt : (fuel base : ℕ) → Io D ℕ
  unfolding floppy_write_cmd floppy_read
  floppy_sense_interrupt fuel base = do
    ret ← floppy_write_cmd fuel base cmd_sense_interrupt 0 (λ i. 0)
    let second = λ (val : ℕ). do
      lh ← floppy_read fuel base
      if is_negative lh then pure lh else pure (bit_or val (lh * 2 ^ 8))
    let first = do val ← floppy_read fuel base; if is_negative val then pure val else second val
    if ret == 0 then first else pure ret

  -- `(1 << drive) & (motor_on << drive)`.
  abbrev pub motor_bits : (drive motor_on : ℕ) → ℕ
  motor_bits drive motor_on = u8 (bit_and (2 ^ drive) (motor_on * 2 ^ drive) * 2 ^ 4)

  abbrev pub floppy_motor : (base drive motor_on : ℕ) → Io D Done
  floppy_motor base drive motor_on = do
    send m (base + digital_out_reg)
        (u8 (bit_or (bit_or 0xC (bit_and drive 3)) (motor_bits drive motor_on)))
    delay m 1000

  -- The motor is stopped at cylinder 0; in every case the next round follows.
  abbrev pub check_sense : (base sense : ℕ) → Io D ℕ → Io D ℕ
  check_sense base sense continue =
      let st1 = u16 sense / 2 ^ 8 in
      let cyl = bit_and (u16 sense) 0xFF in
      if not (bit_and st1 0xC0 == 0xC0)
      then continue
      else if cyl == 0
      then floppy_motor base 0 0 >> continue
      else continue

  -- The rounds of `floppy_calibrate` and what follows them; the drive is 0.
  pub calibrate_rounds : (fuel base rounds : ℕ) → Io D ℕ
  unfolding floppy_write_cmd floppy_irq_wait floppy_sense_interrupt
  calibrate_rounds fuel base zero = do floppy_motor base 0 0; pure 1
  calibrate_rounds fuel base (suc n) = do
    let continue = calibrate_rounds fuel base n
    irq_tick ← tick m
    sent ← floppy_write_cmd fuel base cmd_recalibrate 1 (λ i. 0)
    let sensed = do
      sense ← floppy_sense_interrupt fuel base
      if sense == 0xFFFFFFFF then continue else check_sense base sense continue
    let interrupted = do
      late ← floppy_irq_wait fuel irq_tick
      if late == 0 then sensed else continue
    if sent == 0 then interrupted else pure 0xFFFFFFFF

  pub floppy_calibrate : (fuel base : ℕ) → Io D ℕ
  unfolding calibrate_rounds
  floppy_calibrate fuel base = do floppy_motor base 0 1; calibrate_rounds fuel base 3

  -- The part of `floppy_reset` behind the sensed interrupt. Its calls pass the register as part of
  -- the base and so shift the arguments by one: 0xDF is the number of parameters of the second, of
  -- which it has one; behind it `stack` is read.
  pub configure : (fuel base type : ℕ) → (stack : Words) → Io D ℕ
  unfolding floppy_write_cmd floppy_calibrate
  configure fuel base type stack = do
    let speed = if type == 5 then 3 else 0
    config ← floppy_write_cmd fuel (base + config_reg) speed 0 stack
    let calibrate = do
      failed ← floppy_calibrate fuel base
      if failed == 0 then pure 0 else pure 0xFFFFFFFF
    let specify = do
      specified ← floppy_write_cmd fuel (base + cmd_specify) 2 0xDF (write stack 0 2)
      if specified == 0xFFFFFFFF then pure 0xFFFFFFFF else calibrate
    if config == 0xFFFFFFFF then pure 0xFFFFFFFF else specify

  pub floppy_reset : (fuel base type : ℕ) → (stack : Words) → Io D ℕ
  unfolding floppy_sense_interrupt configure
  floppy_reset fuel base type stack = do
    dor ← read m (base + digital_out_reg)
    delay_us m 100
    send m (base + digital_out_reg) 0
    delay m 5
    send m (base + digital_out_reg) 0xC
    sensed ← floppy_sense_interrupt fuel base
    if sensed == 0xFFFFFFFF then pure 0xFFFFFFFF else configure fuel base type stack

  -- The type of the drive 0: that of the second drive, where there is one, replaces it.
  pub floppy_detect : (type : ℕ) → Io D ℕ
  floppy_detect type = do
    cmos_select_reg m 0x10
    dtypes ← cmos_read_data m
    let master = dtypes / 2 ^ 4
    let slave = bit_and dtypes 0x0F
    let first = if master == 0 then type else master
    pure (if slave == 0 then first else slave)

  -- The result of `floppy_reset` is only logged. The base is 0x3F0.
  pub floppy_init : (fuel handler type : ℕ) → (stack : Words) → Interrupts → Io D (Interrupts × ℕ)
  unfolding floppy_detect floppy_reset
  floppy_init fuel handler type stack ints = do
    type' ← floppy_detect type
    ret ← floppy_reset fuel 0x3F0 type' stack
    pure (add_irq_handler 6 handler ints, type')

abbrev pub floppy_handler : (floppy_irq_tick : ℕ) → ℕ
floppy_handler floppy_irq_tick = u32 (floppy_irq_tick + 1)
