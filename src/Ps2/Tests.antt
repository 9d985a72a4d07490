-- ===== src/Ps2/Tests.antt =====
-- A controller that is always busy with input, at the status 2.
use xanadu_os.Base.{ℕ, suc, ◌+◌, ◌≤◌, ◌<◌, ◌≡◌, ◌⊎◌, true, false, some}
use xanadu_os.Base.Device.{Machine, done}
use xanadu_os.Ps2.{mouse_wait, is_ready}
use xanadu_os.Ps2.Wait.{after_reads, mouse_wait_lem}

abbrev busy : Machine ℕ
busy = record {
  inb = λ port d. (2, d + 1);
  outb = λ port v d. d;
  sleep_ms = λ delay d. d;
  sleep_us = λ delay d. d;
  irq_tick = λ d. 0;
}

mouse_wait_lem_example :
    (n d' : ℕ) × (mouse_wait busy 1 0 ≡ some (done, d'))
    × (n ≤ 100000)
    × (d' ≡ after_reads busy n 0)
    × ((k : ℕ) → suc k < n → is_ready 1 2 ≡ false)
    × ((n ≡ 100000) ⊎ ((k : ℕ) × (n ≡ suc k) × (is_ready 1 2 ≡ true)))
mouse_wait_lem_example = mouse_wait_lem busy 1 0
