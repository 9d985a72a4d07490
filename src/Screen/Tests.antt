-- ===== src/Screen/Tests.antt =====
-- The screen with concrete text.
use xanadu_os.Base.{
  ℕ, ◌-◌, ◌%◌, ◌≤◌, ◌<◌, ◌≡◌, refl, true, some, inl, List, [], ◌∷◌, arith, ltb, if◌then◌else◌,
}
use xanadu_os.Base.Memory.{Words, write}
use xanadu_os.Screen.{
  Screen, no_pixel, fb_clear, fb_print, fb_nprint, fb_print_char, itoa, show_symbol, write_fb,
  fb_mov_cursor, set_fb_pos,
}
use xanadu_os.Screen.Scroll.{fb_clear_lem}
use xanadu_os.Screen.Position.{fb_print_char-bound, fb_print-bound}
use xanadu_os.Screen.Format.{chars, fb_vprintf_color}
use xanadu_os.Screen.Format.Printed.{plain_text, fb_vprintf_color_lem}
use xanadu_os.Screen.Decimal.{Written, itoa_lem}

-- Every cell holds its number, and the position is behind the last cell.
abbrev full : Screen
full = record {
  frame_buf = λ i. record { symbol = i % 256; fg = 15; bg = 0 };
  attrs = λ i. if ltb i 160 then 1 else 0;
  fb_out = λ i. i % 256;
  fb_pos = 2000;
  device_pos = 2000;
  is_local = true;
  out = [];
}

fb_clear_lem_example :
    let s' = fb_clear full in
    (s'.frame_buf 7 ≡ (if ltb 7 2000 then no_pixel else full.frame_buf 7))
    × (s'.attrs 7 ≡ (if ltb 7 2000 then 0 else full.attrs 7))
    × (s'.fb_out 7 ≡ (if ltb 7 2000 then 0 else full.fb_out 7))
    × (s'.fb_pos ≡ 0)
fb_clear_lem_example = fb_clear_lem full 7

fb_print_char-bound_example : (fb_print_char 0 127 15 0 full).fb_pos ≤ 2000
fb_print_char-bound_example = fb_print_char-bound 127 15 0 full (omega arith) (λ _. omega arith)

-- "a", a line feed and a tab.
abbrev msg : List ℕ
msg = 97 ∷ 10 ∷ 9 ∷ []

fb_print-bound_example : (fb_print msg 15 0 full).fb_pos ≤ 2000
fb_print-bound_example = fb_print-bound msg 15 0 full (omega arith) refl

abbrev no_text : Words
no_text = λ _. 0

itoa_lem_example :
    (buf' : Words) × (count : ℕ) × (itoa 10 4096 no_text 16 10 ≡ some (buf', count, 16 - count - 1))
    × (count < 16)
    × Written buf' (16 - count - 1) count 4096
    × ((j : ℕ) → 16 - 1 ≤ j → buf' j ≡ no_text j)
itoa_lem_example =
    itoa_lem 10 4096 no_text 16 10 (omega arith) (omega arith) (omega arith) (omega arith)

-- The last cell of an empty screen.
abbrev at_end : Screen
at_end = record {
  frame_buf = λ i. no_pixel;
  attrs = λ i. 0;
  fb_out = λ i. 7;
  fb_pos = 1999;
  device_pos = 1999;
  is_local = true;
  out = [];
}

-- A character in the last cell also clears entry 2000 of the copy, which ends at 1999.
last_cell_clears_behind : (show_symbol 0 65 15 0 at_end).fb_out 2000 ≡ 0
unfolding show_symbol write_fb set_fb_pos fb_mov_cursor write
last_cell_clears_behind = refl

-- "x=%d;", with the argument 42.
fb_vprintf_color_lem_example :
    (str : Words) × (at count : ℕ) × (fb_vprintf_color 10 no_text
        (λ i. [])
        (120 ∷ 61 ∷ 37 ∷ 100 ∷ 59 ∷ [])
        15
        0
        (λ i. 42)
        at_end
      ≡ some (
        fb_print
            (59 ∷ [])
            15
            0
            (fb_nprint (chars str at count) 15 0 count (fb_print (120 ∷ 61 ∷ []) 15 0 at_end)).0,
        0,
      ))
    × Written str at count 42
unfolding plain_text
fb_vprintf_color_lem_example =
    fb_vprintf_color_lem 10 no_text (λ i. []) (120 ∷ 61 ∷ []) (59 ∷ []) 100 15 0 (λ i. 42) at_end
      refl refl (inl refl) (omega arith) (omega arith)
