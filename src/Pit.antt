-- ===== src/Pit.antt =====
-- drivers/pit.c, the timer. Time is the list of the interrupts that end the calls of `halt`, `true` for
-- one of the timer; `none` means that a loop still waits when the list ends. `unsigned long` and
-- `tick_t` have 32 bits, and the frequency is not 0. `get_pit_count`, the callbacks and the event queue
-- are left out.
pub mod Wait
pub mod Delay
pub mod Divisor
mod Tests
use Prim.Native.Nat.{bit_and, bit_or}
use xanadu_os.Base.{
  ℕ, ◌+◌, ◌-◌, ◌*◌, ◌/◌, ◌%◌, ◌^◌, Bool, true, false, Option, none, some, List, [], ◌∷◌, ltb, leb,
  ◌==◌, if◌then◌else◌,
}
use xanadu_os.Base.Words.{u8, u16, u32, sub32}
use xanadu_os.Base.Ports.{Out, Device, outb}
use xanadu_os.Int.{Interrupts, add_irq_handler}

abbrev pub xtal_freq : ℕ
xtal_freq = 1193182

abbrev pub pit_ch0 : ℕ
pit_ch0 = 0x40

abbrev pub pit_mode_reg : ℕ
pit_mode_reg = 0x43

-- `LOHI_MODE | SQUARE_WAVE`.
abbrev pub pit_mode : ℕ
pit_mode = 0x36

-- The callbacks of the handler are behind its `return`.
abbrev pub pit_handler : (tick : ℕ) → ℕ
pit_handler tick = u32 (tick + 1)

-- `while (cond) halt();`: the tick at the end and the interrupts that are left.
pub wait_while : (cond : ℕ → Bool) → List Bool → (tick : ℕ) → Option (ℕ × List Bool)
wait_while cond [] tick = if cond tick then none else some (tick, [])
wait_while cond (timer ∷ irqs) tick =
    let rest = wait_while cond irqs (if timer then pit_handler tick else tick) in
    if cond tick then rest else some (tick, timer ∷ irqs)

-- The last loop of `wait_ticks`, from `init_tick` on.
pub wait_from : (delay : ℕ) → Option (ℕ × List Bool) → Option (ℕ × List Bool)
unfolding wait_while
wait_from delay none = none
wait_from delay (some (init_tick, irqs)) =
    wait_while (λ t. ltb t (u32 (init_tick + delay))) irqs init_tick

pub wait_ticks : (delay : ℕ) → (irqs : List Bool) → (tick : ℕ) → Option (ℕ × List Bool)
unfolding wait_from
wait_ticks delay irqs tick =
    if ltb (u32 (tick + delay)) tick
    then wait_from (sub32 delay (2 ^ 32 - 1 - tick)) (wait_while (λ t. leb tick t) irqs tick)
    else wait_from delay (some (tick, irqs))

-- The ticks that `sleep_us` waits for, for a delay that is not 0.
pub us_ticks : (pit_freq delay : ℕ) → ℕ
us_ticks pit_freq delay =
    let min_delay = 1000 * 1000 / pit_freq in
    let d = if ltb delay min_delay then min_delay else delay in
    if ltb d 1000
    then u32 (d * pit_freq) / (1000 * 1000)
    else if ltb d (1000 * 1000)
    then u32 (d / 1000 * pit_freq) / 1000
    else u32 (d / (1000 * 1000) * pit_freq)

pub sleep_us : (pit_freq delay : ℕ) → (irqs : List Bool) → (tick : ℕ) → Option (ℕ × List Bool)
unfolding wait_ticks us_ticks
sleep_us pit_freq delay irqs tick =
    if delay == 0 then some (tick, irqs) else wait_ticks (us_ticks pit_freq delay) irqs tick

pub sleep_ms : (pit_freq delay : ℕ) → (irqs : List Bool) → (tick : ℕ) → Option (ℕ × List Bool)
unfolding sleep_us
sleep_ms pit_freq delay irqs tick =
    let delay_ticks = u32 (delay * pit_freq) / 1000 in
    if delay == 0
    then some (tick, irqs)
    else if delay_ticks == 1
    then sleep_us pit_freq (u32 (delay * 1000)) irqs tick
    else wait_ticks delay_ticks irqs tick

pub sleep_sec : (pit_freq delay : ℕ) → (irqs : List Bool) → (tick : ℕ) → Option (ℕ × List Bool)
unfolding sleep_ms
sleep_sec pit_freq delay irqs tick =
    let delay_ticks = u32 (delay * pit_freq) in
    if delay == 0
    then some (tick, irqs)
    else if delay_ticks == 1
    then sleep_ms pit_freq (u32 (delay * 1000)) irqs tick
    else wait_ticks delay_ticks irqs tick

-- The frequency, and the tables and ports that `pit_init` changes.
pub record Pit : Type 0 where
  pub pit_freq : ℕ
  pub ints : Interrupts

-- The writes of `pit_init` for a frequency; `io_wait` writes a zero to an unused port.
abbrev pub write_divisor : (freq : ℕ) → List Out → List Out
write_divisor freq l =
    let divisor = u16 (xtal_freq / freq) in
    outb 0x80 0 (
      outb pit_ch0 (divisor / 2 ^ 8 % 2 ^ 8)
        (outb pit_ch0 (divisor % 2 ^ 8) (outb 0x80 0 (outb pit_mode_reg pit_mode l))))

abbrev pub start_timer : (handler freq : ℕ) → Pit → Pit
start_timer handler freq s =
    let ints = s.ints in
    let pic = ints.pic in
    let ints' : Interrupts = record ints {
      pic = record pic { out = write_divisor freq pic.out };
    } in
    record { pit_freq = freq; ints = add_irq_handler 0 handler ints' }

pub pit_init : (handler freq : ℕ) → Pit → Pit × ℕ
pit_init handler freq s =
    if ltb xtal_freq freq
    then (s, 1)
    else if freq == 0
    then (start_timer handler s.pit_freq s, 0)
    else (start_timer handler freq s, 0)
