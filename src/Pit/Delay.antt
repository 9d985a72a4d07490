-- ===== src/Pit/Delay.antt =====
-- How long the sleeping functions wait at the frequency that the timer has at start, 1000 ticks in a second.
use xanadu_os.Base.{
  ℕ, ◌+◌, ◌*◌, ◌^◌, ◌≤◌, ◌<◌, ◌≡◌, ◌≢◌, ap, Bool, List, arith, lt→ltb, if◌then◌else◌, max,
}
use mathlib.Core.Path.{subst}
use xanadu_os.Pit.{wait_ticks, us_ticks, sleep_us, sleep_ms, sleep_sec}
use xanadu_os.Pit.Wait.{Ends, timers, wait_ticks_lem}

-- For a delay in microseconds that is not 0, `sleep_us` at 1000 ticks in a second waits for at least a
-- tick and, but for this one tick, never for longer than the delay; the delay is less than twice as
-- long as the wait.
pub us_ticks_bounds :
    (delay : ℕ)
    → delay < 2 ^ 32
    → delay ≢ 0
    → (1 ≤ us_ticks 1000 delay)
      × (1000 * us_ticks 1000 delay ≤ max delay 1000)
      × (delay < 2 * (1000 * us_ticks 1000 delay))
unfolding us_ticks
us_ticks_bounds delay h nonzero = ground arith

ms_ticks :
    (delay : ℕ)
    → (irqs : List Bool) → (tick : ℕ) → delay * 1000 < 2 ^ 32
    → 0 < delay
    → sleep_ms 1000 delay irqs tick ≡ wait_ticks delay irqs tick
unfolding sleep_ms sleep_us us_ticks
ms_ticks delay irqs tick h pos = ground arith

sec_ticks :
    (delay : ℕ)
    → (irqs : List Bool) → (tick : ℕ) → delay * 1000 < 2 ^ 32
    → 0 < delay
    → sleep_sec 1000 delay irqs tick ≡ wait_ticks (delay * 1000) irqs tick
unfolding sleep_sec
sec_ticks delay irqs tick h pos = ground arith

ends :
    (delay : ℕ)
    → (irqs : List Bool) → (tick : ℕ) → tick + delay < 2 ^ 32
    → delay < timers irqs
    → Ends (wait_ticks delay irqs tick) irqs tick delay
ends delay irqs tick fits enough =
    let all = wait_ticks_lem delay irqs tick (omega arith) (omega arith) enough in
    subst (λ n. Ends (wait_ticks delay irqs tick) irqs tick n)
      (ap (λ b. if b then delay else delay + 1) (lt→ltb (tick + delay) (2 ^ 32) fits)) all

-- At 1000 ticks in a second, when the counter of ticks does not overflow and enough interrupts of
-- the timer come: `sleep_ms` of a delay ends after exactly as many of them, and `sleep_sec` after 1000
-- times as many, for a delay of at least 1 whose product with 1000 has 32 bits.
pub sleep_lem :
    (delay : ℕ)
    → (irqs : List Bool) → (tick : ℕ) → tick + delay * 1000 < 2 ^ 32
    → 0 < delay
    → delay * 1000 < timers irqs
    → Ends (sleep_ms 1000 delay irqs tick) irqs tick delay
      × Ends (sleep_sec 1000 delay irqs tick) irqs tick (delay * 1000)
sleep_lem delay irqs tick fits pos enough = (
  rw (ms_ticks delay irqs tick (omega arith) pos)
      (ends delay irqs tick (omega arith) (omega arith)),
  rw (sec_ticks delay irqs tick (omega arith) pos) (ends (delay * 1000) irqs tick fits enough),
)
