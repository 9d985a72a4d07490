-- ===== src/Keyboard.antt =====
-- drivers/keyboard.c, the keyboard's interrupt and those that receive its keys, on a device. A
-- receiver is a number, 0 for NULL, and its calls are listed in order. The arrays have no length here:
-- what is read behind the table of keys is a parameter.
pub mod Receivers
mod Tests
use xanadu_os.Base.{
  ℕ, zero, suc, ◌+◌, ◌-◌, ◌^◌, Bool, true, false, ◌&&◌, not, Option, none, some, ltb, ◌==◌,
  if◌then◌else◌, List, [], ◌∷◌, get_or,
}
use xanadu_os.Base.Words.{u8, u32, test_bit}
use xanadu_os.Base.Memory.{Words, write}
use xanadu_os.Base.Device.{Machine, Io, Done, done, pure, out_of_fuel, bind, ◌>>=◌, ◌>>◌, read}
use xanadu_os.Int.{Interrupts, add_irq_handler}
use xanadu_os.Ps2.{ps2_read_status, ps2_read_data}

abbrev pub kbd_layout_max_code : ℕ
kbd_layout_max_code = 512

-- `kbd_US`, whose other entries up to the 128th are 0.
abbrev pub kbd_us : List ℕ
kbd_us =
    0 ∷ 27 ∷ 49 ∷ 50 ∷ 51 ∷ 52 ∷ 53 ∷ 54 ∷ 55 ∷ 56 ∷ 57 ∷ 48 ∷ 45 ∷ 61 ∷ 8 ∷ 9 ∷ 113 ∷ 119 ∷ 101
    ∷ 114 ∷ 116 ∷ 121 ∷ 117 ∷ 105 ∷ 111 ∷ 112 ∷ 91 ∷ 93 ∷ 10 ∷ 0 ∷ 97 ∷ 115 ∷ 100 ∷ 102 ∷ 103 ∷ 104
    ∷ 106 ∷ 107 ∷ 108 ∷ 59 ∷ 39 ∷ 96 ∷ 0 ∷ 92 ∷ 122 ∷ 120 ∷ 99 ∷ 118 ∷ 98 ∷ 110 ∷ 109 ∷ 44 ∷ 46 ∷ 47
    ∷ 0 ∷ 42 ∷ 0 ∷ 32 ∷ 0 ∷ 0 ∷ 0 ∷ 0 ∷ 0 ∷ 0 ∷ 0 ∷ 0 ∷ 0 ∷ 0 ∷ 0 ∷ 0 ∷ 0 ∷ 0 ∷ 344 ∷ 0 ∷ 45 ∷ 0 ∷ 0
    ∷ 0 ∷ 43 ∷ 0 ∷ 345 ∷ 0 ∷ 0 ∷ 127 ∷ 0 ∷ 0 ∷ 0 ∷ 0 ∷ 0 ∷ 0 ∷ []

abbrev pub kbd_entry : (behind : Words) → (c : ℕ) → ℕ
kbd_entry behind c = if ltb c 128 then get_or kbd_us c 0 else behind c

pub record Keyboard : Type 0 where
  pub receiver_f : Words
  pub receiver_num : ℕ
  pub kbd_buf : ℕ

pub kbd_add_receiver : (f : ℕ) → Keyboard → Keyboard
kbd_add_receiver f k = record k {
  receiver_f = write k.receiver_f k.receiver_num f;
  receiver_num = u32 (k.receiver_num + 1);
}

abbrev pub also : ℕ → Option (List ℕ) → Option (List ℕ)
also f none = none
also f (some fs) = some (f ∷ fs)

-- The receivers called, from number `r_id` on.
pub receivers : (fuel r_id : ℕ) → Words → Option (List ℕ)
receivers zero r_id f = none
receivers (suc n) r_id f =
    let rest = receivers n (r_id + 1) f in if f r_id == 0 then some [] else also (f r_id) rest

abbrev pub kbd_read : Keyboard → ℕ
kbd_read k = k.kbd_buf

abbrev pub called : Keyboard → Option (List ℕ) → Option (Keyboard × List ℕ)
called k none = none
called k (some fs) = some (k, fs)

-- The keyboard and the calls behind a key, each with `kbd_buf`.
pub key_pressed : (fuel keycode : ℕ) → Keyboard → Option (Keyboard × List ℕ)
unfolding receivers
key_pressed fuel keycode k = called (record k { kbd_buf = keycode }) (receivers fuel 0 k.receiver_f)

module _ {ℓ} {D : Type ℓ} (m : Machine D) where
  abbrev pub read_scan_code : (behind : Words) → Io D ℕ
  read_scan_code behind = do c ← ps2_read_data m; pure (kbd_entry behind c)

  abbrev pub lift : Option (Keyboard × List ℕ) → Io D (Keyboard × List ℕ)
  lift none = out_of_fuel
  lift (some r) = pure r

  pub kbd_interrupt : (fuel : ℕ) → (behind : Words) → Keyboard → Io D (Keyboard × List ℕ)
  unfolding key_pressed
  kbd_interrupt fuel behind k = do
    stat ← ps2_read_status m
    let rest = do
      keycode ← read_scan_code behind
      if not (keycode == 0) && ltb keycode kbd_layout_max_code
          then lift (key_pressed fuel keycode k)
          else pure (k, [])
    if test_bit stat 0 then rest else pure (k, [])

-- The interrupt of the keyboard is 1.
abbrev pub kbd_init : (handler : ℕ) → Interrupts → Interrupts
kbd_init handler ints = add_irq_handler 1 handler ints
