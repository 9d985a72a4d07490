-- ===== src/Pit/Divisor.antt =====
-- What `pit_init` sets up.
use xanadu_os.Base.{
  ℕ, ◌/◌, ◌%◌, ◌^◌, ◌≤◌, ◌<◌, ◌≡◌, ◌∙◌, refl, List, [], ◌∷◌, arith, ◌==◌, if◌then◌else◌, lt→ltb,
}
use native.Mathlib.Nat.{div-lt_iff_lt-mul}
use xanadu_os.Base.Words.{u16}
use xanadu_os.Base.Ports.{Out}
use xanadu_os.Pit.{Pit, pit_init, xtal_freq, pit_ch0, write_divisor, start_timer}
use xanadu_os.Int.{isr_x86, add_irq_handler}
use xanadu_os.Int.Dispatch.{isr_x86-add_irq_handler}
use xanadu_os.Pic.{PicState, pic_unmask}
use xanadu_os.Pic.Masks.{pic_unmask-out}

-- The bytes that the channel of the timer is sent, the newest first.
pub sent : List Out → List ℕ
sent [] = []
sent (o ∷ l) = let before = sent l in if o.port == pit_ch0 then o.value ∷ before else before

-- After a start at a frequency: the channel has the bytes of the divisor, the frequency is kept, and
-- the interrupt of the timer runs the handler.
pub Started : (handler freq : ℕ) → (before after : Pit) → Type 0
Started handler freq before after =
    (sent after.ints.pic.out
      ≡ xtal_freq / freq / 256 ∷ xtal_freq / freq % 256 ∷ sent before.ints.pic.out)
    × (after.pit_freq ≡ freq)
    × ((isr_x86 32 after.ints).1 ≡ handler)

-- Opening the line does not write to the channel.
sent-pic_unmask : (irq : ℕ) (s : PicState) → sent (pic_unmask irq s).out ≡ sent s.out
unfolding sent
sent-pic_unmask irq s =
    let (value, out, port) = pic_unmask-out irq s in rw (out) (ground (arith, port))

divisor_fits : (freq : ℕ) → 19 ≤ freq → u16 (xtal_freq / freq) ≡ xtal_freq / freq
divisor_fits freq l =
    let fits : xtal_freq / freq < 2 ^ 16 =
      (div-lt_iff_lt-mul {k = freq} {x = xtal_freq} {y = 2 ^ 16} (omega arith)).1 (omega arith) in
    omega (arith, fits)

-- The bytes of a number of 16 bits that the channel is sent.
sent-write_divisor :
    (freq : ℕ) (l : List Out)
    → 19 ≤ freq
    → sent (write_divisor freq l) ≡ xtal_freq / freq / 256 ∷ xtal_freq / freq % 256 ∷ sent l
unfolding sent
sent-write_divisor freq l h =
    let same = divisor_fits freq h in
    let high : u16 (xtal_freq / freq) / 2 ^ 8 % 2 ^ 8 ≡ xtal_freq / freq / 256 =
      omega (arith, same) in
    let low : u16 (xtal_freq / freq) % 2 ^ 8 ≡ xtal_freq / freq % 256 = omega (arith, same) in
    rw (high, low) refl

start_lem :
    (handler freq : ℕ) (s : Pit)
    → 19 ≤ freq
    → freq ≤ xtal_freq
    → Started handler freq s (start_timer handler freq s)
unfolding Started add_irq_handler
start_lem handler freq s l h = (
  sent-pic_unmask 0 _ ∙ sent-write_divisor freq s.ints.pic.out l,
  refl,
  isr_x86-add_irq_handler 0 handler 32 _ (omega arith),
)

-- `pit_init` refuses a frequency above that of the crystal and changes nothing; for any other from
-- 19 on it reports success, the timer gets exactly the divisor, the frequency is kept, and the first
-- interrupt of the controllers runs the handler; 0 does so for the frequency kept before.
pub pit_init_lem :
    (handler freq : ℕ) (s : Pit)
    → (xtal_freq < freq → pit_init handler freq s ≡ (s, 1))
      × (19 ≤ freq
          → freq ≤ xtal_freq
          → (s' : Pit) × (pit_init handler freq s ≡ (s', 0)) × Started handler freq s s')
      × (19 ≤ s.pit_freq
          → s.pit_freq ≤ xtal_freq
          → (s' : Pit) × (pit_init handler 0 s ≡ (s', 0)) × Started handler s.pit_freq s s')
unfolding pit_init
pit_init_lem handler freq s = (
  λ h. rw (lt→ltb xtal_freq freq h) refl,
  λ l h. (start_timer handler freq s, ground arith, start_lem handler freq s l h),
  λ l h. (start_timer handler s.pit_freq s, ground arith, start_lem handler s.pit_freq s l h),
)
