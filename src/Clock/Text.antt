-- ===== src/Clock/Text.antt =====
-- The time of the day as text.
use xanadu_os.Base.{
  ℕ, suc, ◌+◌, ◌*◌, ◌/◌, ◌%◌, ◌≤◌, ◌<◌, ◌≡◌, ap, ◌∙◌, true, arith, some, ◌==◌, if◌then◌else◌, [],
  ◌∷◌, get_or,
}
use xanadu_os.Base.Words.{u8}
use xanadu_os.Base.Memory.{Words, write, write_same, write_other}
use xanadu_os.Base.Device.{Machine, bind}
use xanadu_os.Slibc.{memset}
use xanadu_os.Slibc.Copy.{memset_lem}
use xanadu_os.Clock.{
  put_number, lift, put_field, put_item, date_loop, get_date_time, rtc_get_val, bcd_mode,
  cmos_hours, cmos_minutes, cmos_seconds,
}
use xanadu_os.Clock.Decimal.{TwoDigits, put_number_two, idle_within, register, rtc_get_val_lem}

-- "h:m:s".
abbrev pub time_format : Words
time_format i = get_or (104 ∷ 58 ∷ 109 ∷ 58 ∷ 115 ∷ []) i 0

-- A text of eight characters: two digits each for the hours, the minutes and the seconds.
pub Reads : (hours minutes seconds : ℕ) → Words → Type 0
Reads hours minutes seconds text =
    (text 0 ≡ 48 + hours / 10)
    × (text 1 ≡ 48 + hours % 10)
    × (text 2 ≡ 58)
    × (text 3 ≡ 48 + minutes / 10)
    × (text 4 ≡ 48 + minutes % 10)
    × (text 5 ≡ 58)
    × (text 6 ≡ 48 + seconds / 10)
    × (text 7 ≡ 48 + seconds % 10)
    × (text 8 ≡ 0)

module _ {ℓ} {D : Type ℓ} (m : Machine D) where
  -- What a register says in a mode.
  unfoldable pub number : (time_mode reg : ℕ) → D → ℕ
  number time_mode reg before =
      let byte = register m reg before in
      if time_mode == bcd_mode then u8 (10 * (byte / 16) + byte % 16) else byte

  put_field_lem :
      (f time_mode reg size pos : ℕ) (buf : Words) (d : D)
      → ((e : D) → idle_within m (suc (suc f)) e ≡ true)
      → ((e : D) → number time_mode reg e < 100)
      → 3 ≤ size
      → size ≤ 16
      → (before d' : D) × (buf' : Words) × (put_field m
            (suc (suc f))
            true
            size
            (buf, pos)
            (rtc_get_val m (suc (suc f)) time_mode reg)
            d
          ≡ some ((buf', pos + 2), d'))
        × TwoDigits (number time_mode reg before) pos buf buf'
  unfolding put_field number
  put_field_lem f time_mode reg size pos buf d idle small p w =
      let (value, d', before, result, seen, is) =
        rtc_get_val_lem m (suc (suc f)) time_mode reg d (idle _) in
      let (buf', put, two) =
        put_number_two f (number time_mode reg before) size pos buf (small before) p w in
      (
        before,
        d',
        buf',
        ap (λ r. bind r (λ v. lift m (put_number (suc (suc f)) true v size (buf, pos)))) result
            ∙ ap (λ v. lift m (put_number (suc (suc f)) true v size (buf, pos)) d') is
            ∙ ap (λ o. lift m o d') put,
        two,
      )

  -- The text of the loop for "h:m:s", from any position-0 text on.
  time_loop :
      (f n time_mode size : ℕ) (buf : Words) (d : D)
      → ((e : D) → idle_within m (suc (suc f)) e ≡ true)
      → ((reg : ℕ) (e : D) → number time_mode reg e < 100)
      → 3 ≤ size
      → size ≤ 16
      → buf 8 ≡ 0
      → (h mi s d' : D) × (text : Words) × (date_loop m
            (suc (suc f))
            time_mode
            size
            (suc (suc (suc (suc (suc (suc n))))))
            0
            time_format
            (buf, 0)
            d
          ≡ some (text, d'))
        × Reads
            (number time_mode cmos_hours h)
            (number time_mode cmos_minutes mi)
            (number time_mode cmos_seconds s)
            text
  unfolding date_loop put_item Reads TwoDigits
  time_loop f n time_mode size buf d idle small p w zero_at =
      let (h, d1, b1, r1, two1) =
        put_field_lem f time_mode cmos_hours size 0 buf d idle (small cmos_hours) p w in
      let c1 = write b1 2 58 in
      let (mi, d2, b2, r2, two2) =
        put_field_lem f time_mode cmos_minutes size 3 c1 d1 idle (small cmos_minutes) p w in
      let c2 = write b2 5 58 in
      let (s, d3, b3, r3, two3) =
        put_field_lem f time_mode cmos_seconds size 6 c2 d2 idle (small cmos_seconds) p w in
      (
        h,
        mi,
        s,
        d3,
        b3,
        ap
              (λ r. bind r (
                date_loop m (suc (suc f)) time_mode size (suc (suc (suc (suc (suc n))))) 1
                  time_format))
              r1
            ∙ ap
                (λ r.
                  bind r
                    (date_loop m (suc (suc f)) time_mode size (suc (suc (suc n))) 3 time_format))
                r2
            ∙ ap (λ r. bind r (date_loop m (suc (suc f)) time_mode size (suc n) 5 time_format)) r3,
        (
          two3.2 0 (omega arith)
              ∙ write_other b2 5 58 0 (omega arith)
              ∙ two2.2 0 (omega arith)
              ∙ write_other b1 2 58 0 (omega arith)
              ∙ two1.0,
          two3.2 1 (omega arith)
              ∙ write_other b2 5 58 1 (omega arith)
              ∙ two2.2 1 (omega arith)
              ∙ write_other b1 2 58 1 (omega arith)
              ∙ two1.1,
          two3.2 2 (omega arith)
              ∙ write_other b2 5 58 2 (omega arith)
              ∙ two2.2 2 (omega arith)
              ∙ write_same b1 2 58,
          two3.2 3 (omega arith) ∙ write_other b2 5 58 3 (omega arith) ∙ two2.0,
          two3.2 4 (omega arith) ∙ write_other b2 5 58 4 (omega arith) ∙ two2.1,
          two3.2 5 (omega arith) ∙ write_same b2 5 58,
          two3.0,
          two3.1,
          two3.3 8 (omega arith) (
              write_other b2 5 58 8 (omega arith)
              ∙ two2.3 8 (omega arith)
                  (write_other b1 2 58 8 (omega arith) ∙ two1.3 8 (omega arith) zero_at)),
        ),
      )

  -- `get_date_time` with the format "h:m:s", the only one in use, for a text of 9 to 16 bytes, on a clock
  -- that never stays in an update for the length of the fuel and whose registers are below 100: it ends
  -- without an access outside of its array of digits, and the text is the hours, the minutes and the
  -- seconds, each as read at some time and with two digits, with colons between, and ends with NUL.
  pub get_date_time_lem :
      (f n time_mode size : ℕ) (buf : Words) (d : D)
      → ((e : D) → idle_within m (suc (suc f)) e ≡ true)
      → ((reg : ℕ) (e : D) → number time_mode reg e < 100)
      → 9 ≤ size
      → size ≤ 16
      → (h mi s d' : D) × (text : Words) × (get_date_time m
            (suc (suc f))
            time_mode
            (6 + n)
            time_format
            buf
            size
            d
          ≡ some (text, d'))
        × Reads
            (number time_mode cmos_hours h)
            (number time_mode cmos_minutes mi)
            (number time_mode cmos_seconds s)
            text
  unfolding get_date_time
  get_date_time_lem f n time_mode size buf d idle small p w =
      let rounds : 6 + n ≡ suc (suc (suc (suc (suc (suc n))))) = omega arith in
      let cleared = (memset buf 0 0 size).0 in
      let zero_at : cleared 8 ≡ 0 = ground (arith, (memset_lem buf 0 0 size 8).0, p) in
      let (h, mi, s, d', text, result, reads) =
        time_loop f n time_mode size cleared d idle small (omega (arith, p)) w zero_at in
      (
        h,
        mi,
        s,
        d',
        text,
        ap (λ k. date_loop m (suc (suc f)) time_mode size k 0 time_format (cleared, 0) d) rounds
            ∙ result,
        reads,
      )
