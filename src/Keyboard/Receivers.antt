-- ===== src/Keyboard/Receivers.antt =====
-- The receivers of keys are called in the order in which they were added.
use xanadu_os.Base.{
  ℕ, zero, suc, ◌+◌, ◌^◌, ◌<◌, ◌≡◌, ◌≢◌, refl, ap, sym, ◌∙◌, Bool, true, false, ◌&&◌, not, arith,
  some, ltb, ◌==◌, if◌then◌else◌, List, [], ◌∷◌, ◌++◌, get_or, length, length-append,
}
use xanadu_os.Base.Words.{u8, test_bit}
use xanadu_os.Base.Memory.{Words, write}
use xanadu_os.Base.Device.{Machine}
use xanadu_os.Keyboard.{
  Keyboard, kbd_add_receiver, receivers, key_pressed, kbd_entry, kbd_interrupt,
}
use xanadu_os.Ps2.{ps2_status_port, ps2_data_port}

-- None of them is NULL.
unfoldable pub present : List ℕ → Bool
present [] = true
present (f ∷ fs) = not (f == 0) && present fs

-- The array holds a list of receivers, and NULL behind it.
unfoldable pub Registered : List ℕ → Keyboard → Type 0
Registered fs k =
    ((i : ℕ) → k.receiver_f i ≡ get_or fs i 0)
    × (k.receiver_num ≡ length fs)
    × (present fs ≡ true)
    × (length fs < 2 ^ 32)

next : (f : Words) (i j : ℕ) → f (i + 1 + j) ≡ f (i + suc j)
next f i j = let same : i + 1 + j ≡ i + suc j = omega arith in ap f same

from_start : (f : Words) (j : ℕ) → f (0 + j) ≡ f j
from_start f j = let same : 0 + j ≡ j = omega arith in ap f same

receivers-present :
    (fuel i : ℕ) (f : Words) (fs : List ℕ)
    → ((j : ℕ) → f (i + j) ≡ get_or fs j 0)
    → present fs ≡ true
    → length fs < fuel
    → receivers fuel i f ≡ some fs
unfolding receivers present
receivers-present zero i f fs h p l = absurd (omega (arith, l))
receivers-present (suc n) i f [] h p l =
    let first : i ≡ i + 0 = omega arith in let here : f i ≡ 0 = ap f first ∙ h 0 in rw here refl
receivers-present (suc n) i f (g ∷ fs) h p l =
    let first : i ≡ i + 0 = omega arith in
    let here : f i ≡ g = ap f first ∙ h 0 in
    let given : (g == 0) ≡ false = ground (arith, p) in
    let rest : receivers n (i + 1) f ≡ some fs =
      receivers-present n (i + 1) f fs (λ j. next f i j ∙ h (suc j)) (ground (arith, p))
        (omega (arith, l)) in
    rw (here, given, rest) refl

get_or-snoc :
    (fs : List ℕ) (f i : ℕ)
    → get_or (fs ++ (f ∷ [])) i 0 ≡ (if length fs == i then f else get_or fs i 0)
get_or-snoc [] f zero = refl
get_or-snoc [] f (suc i) = ground arith
get_or-snoc (g ∷ fs) f zero = ground arith
get_or-snoc (g ∷ fs) f (suc i) =
    get_or-snoc fs f i ∙ ap (λ b. if b then f else get_or fs i 0) (ground arith)

present-snoc : (fs : List ℕ) (f : ℕ) → present fs ≡ true → f ≢ 0 → present (fs ++ (f ∷ [])) ≡ true
unfolding present
present-snoc [] f p n = ground (arith, n)
present-snoc (g ∷ fs) f p n =
    let rest = present-snoc fs f (ground (arith, p)) n in ground (arith, p, rest)

-- `kbd_add_receiver` puts a receiver behind those that are registered.
pub kbd_add_receiver-Registered :
    (fs : List ℕ) (f : ℕ) (k : Keyboard)
    → Registered fs k
    → f ≢ 0
    → length fs + 1 < 2 ^ 32
    → Registered (fs ++ (f ∷ [])) (kbd_add_receiver f k)
unfolding Registered kbd_add_receiver write
kbd_add_receiver-Registered fs f k (at, num, p, small) n l =
    let long : length (fs ++ (f ∷ [])) ≡ length fs + 1 = length-append fs (f ∷ []) in
    (
      λ i.
          ap (λ j. if j == i then f else k.receiver_f i) num
          ∙ ap (λ v. if length fs == i then f else v) (at i)
          ∙ sym (get_or-snoc fs f i),
      omega (arith, num, long, l),
      present-snoc fs f p n,
      omega (arith, long, l),
    )

-- A key that the controller offers, of a code in the table that stands for a character: the interrupt
-- keeps the key and calls every receiver with it, once and in the order of their registration.
pub kbd_interrupt_lem {ℓ} :
    {D : Type ℓ} (m : Machine D) (fuel : ℕ) (behind : Words) (fs : List ℕ) (k : Keyboard) (d : D)
    (keycode : ℕ)
    → Registered fs k
    → length fs < fuel
    → test_bit (u8 (m.inb ps2_status_port d).0) 0 ≡ true
    → kbd_entry behind (u8 (m.inb ps2_data_port (m.inb ps2_status_port d).1).0) ≡ keycode
    → keycode ≢ 0
    → keycode < 512
    → kbd_interrupt m fuel behind k d
      ≡ some (
        (record k { kbd_buf = keycode }, fs),
        (m.inb ps2_data_port (m.inb ps2_status_port d).1).1,
      )
unfolding kbd_interrupt key_pressed Registered
kbd_interrupt_lem m fuel behind fs k d keycode (at, num, p, small) l b key n s =
    let all : receivers fuel 0 k.receiver_f ≡ some fs =
      receivers-present fuel 0 k.receiver_f fs (λ j. from_start k.receiver_f j ∙ at j) p l in
    let some_key : (keycode == 0) ≡ false = ground (arith, n) in
    let in_range : ltb keycode 512 ≡ true = ground (arith, s) in
    rw (b, key, some_key, in_range, all) refl
