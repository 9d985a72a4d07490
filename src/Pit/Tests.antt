-- ===== src/Pit/Tests.antt =====
-- Waits of a few ticks, and the timer started at 100 hertz.
use xanadu_os.Base.{
  ℕ, zero, suc, ◌*◌, ◌≤◌, ◌<◌, ◌≡◌, refl, true, false, Bool, List, [], ◌∷◌, arith, max,
}
use xanadu_os.Pit.{Pit, wait_ticks, us_ticks, pit_init, xtal_freq}
use xanadu_os.Pit.Wait.{Ends, timers, wait_ticks_lem}
use xanadu_os.Pit.Delay.{us_ticks_bounds}
use xanadu_os.Pit.Divisor.{Started, pit_init_lem}

-- Two interrupts of the timer and one of another device.
abbrev irqs : List Bool
irqs = true ∷ false ∷ true ∷ true ∷ []

three : timers irqs ≡ 3
unfolding timers
three = refl

-- The counter overflows on the way.
wait_ticks_lem_example : Ends (wait_ticks 2 irqs 0xFFFFFFFF) irqs 0xFFFFFFFF 3
wait_ticks_lem_example =
    wait_ticks_lem 2 irqs 0xFFFFFFFF (omega arith) (omega arith) (omega (arith, three))

us_ticks_bounds_example :
    (1 ≤ us_ticks 1000 1999999)
    × (1000 * us_ticks 1000 1999999 ≤ max 1999999 1000)
    × (1999999 < 2 * (1000 * us_ticks 1000 1999999))
us_ticks_bounds_example = us_ticks_bounds 1999999 (omega arith) (omega arith)

ticks : ℕ → List Bool
ticks zero = []
ticks (suc n) = true ∷ ticks n

timers-ticks : (n : ℕ) → timers (ticks n) ≡ n
unfolding timers ticks
timers-ticks zero = refl
timers-ticks (suc n) = omega (arith, timers-ticks n)

abbrev timer : Pit
timer = record {
  pit_freq = 1000;
  ints = record {
    idt = λ i. record { isr_low = 0; cs = 0; reserved = 0; attributes = 0; isr_high = 0 };
    isr_handlers = λ i. 0;
    pic = record { cached_mask = 0xFF; out = [] };
  };
}

pit_init_lem_example :
    (xtal_freq < 100 → pit_init 0xC0101000 100 timer ≡ (timer, 1))
    × (19 ≤ 100
        → 100 ≤ xtal_freq
        → (s' : Pit) × (pit_init 0xC0101000 100 timer ≡ (s', 0)) × Started 0xC0101000 100 timer s')
    × (19 ≤ 1000
        → 1000 ≤ xtal_freq
        → (s' : Pit) × (pit_init 0xC0101000 0 timer ≡ (s', 0)) × Started 0xC0101000 1000 timer s')
pit_init_lem_example = pit_init_lem 0xC0101000 100 timer
