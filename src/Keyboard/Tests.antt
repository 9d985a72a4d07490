-- ===== src/Keyboard/Tests.antt =====
-- The key with the code 30, 'a', and two receivers, 5 and 9.
use xanadu_os.Base.{ℕ, ◌+◌, ◌≡◌, refl, arith, some, ◌==◌, if◌then◌else◌, [], ◌∷◌, get_or}
use xanadu_os.Base.Words.{test_bit}
use xanadu_os.Base.Device.{Machine}
use xanadu_os.Keyboard.{Keyboard, kbd_add_receiver, kbd_interrupt}
use xanadu_os.Keyboard.Receivers.{
  Registered, present, kbd_add_receiver-Registered, kbd_interrupt_lem,
}

abbrev typed : Machine ℕ
typed = record {
  inb = λ port d. (if port == 0x60 then 30 else 1, d + 1);
  outb = λ port v d. d;
  sleep_ms = λ delay d. d;
  sleep_us = λ delay d. d;
  irq_tick = λ d. 0;
}

abbrev two_receivers : Keyboard
two_receivers = record { receiver_f = λ i. get_or (5 ∷ 9 ∷ []) i 0; receiver_num = 2; kbd_buf = 0 }

two_receivers-Registered : Registered (5 ∷ 9 ∷ []) two_receivers
unfolding Registered present
two_receivers-Registered = (λ i. refl, refl, refl, omega arith)

kbd_add_receiver-Registered_example : Registered (5 ∷ 9 ∷ 7 ∷ []) (kbd_add_receiver 7 two_receivers)
kbd_add_receiver-Registered_example =
    kbd_add_receiver-Registered (5 ∷ 9 ∷ []) 7 two_receivers two_receivers-Registered (omega arith)
      (omega arith)

kbd_interrupt_lem_example :
    kbd_interrupt typed 3 (λ i. 0) two_receivers 0
    ≡ some ((record two_receivers { kbd_buf = 97 }, 5 ∷ 9 ∷ []), 2)
unfolding test_bit
kbd_interrupt_lem_example =
    kbd_interrupt_lem typed 3 (λ i. 0) (5 ∷ 9 ∷ []) two_receivers 0 97 two_receivers-Registered
      (omega arith) refl refl (omega arith) (omega arith)
