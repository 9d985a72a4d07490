-- ===== src/Screen/Position.antt =====
-- The position of the cursor under printing.
use xanadu_os.Base.{
  ℕ, ◌+◌, ◌-◌, ◌%◌, ◌^◌, ◌≤◌, ◌<◌, ◌≡◌, ◌⊎◌, ◌∙◌, refl, ap, arith, ltb, leb, ◌==◌, if◌then◌else◌,
  List, [], ◌∷◌, Bool, true, false, Bool-cases, ==_iff, inl, inr,
}
use xanadu_os.Base.Words.{u16, sub32}
use xanadu_os.Screen.{
  Screen, Pixel, write_fb, set_fb_pos, scroll, fb_newline, fb_delete_char, fb_mov_cursor,
  show_symbol, print_tab, fb_print_char, fb_print,
}
use xanadu_os.Screen.Scroll.{scroll_lem}

scroll-pos : (s : Screen) → 80 ≤ s.fb_pos → s.fb_pos < 2 ^ 16 → (scroll s).fb_pos + 80 ≡ s.fb_pos
scroll-pos s = let (_, _, pos) = scroll_lem s 0 in pos

if-pos :
    (c : Bool) (s t : Screen) → (if c then s else t).fb_pos ≡ (if c then s.fb_pos else t.fb_pos)
if-pos true s t = refl
if-pos false s t = refl

write_fb-pos :
    (c : Bool) (i : ℕ) (p : Pixel) (s : Screen)
    → (if c then write_fb i p s else s).fb_pos ≡ s.fb_pos
unfolding write_fb
write_fb-pos true i p s = refl
write_fb-pos false i p s = refl

position_after :
    (p q : ℕ)
    → p ≤ 2000
    → (80 ≤ p → p < 2 ^ 16 → q + 80 ≡ p)
    → u16 (0 + 1 + (if leb 2000 (u16 (p + 0)) then q else p)) ≡ (if p == 2000 then 1921 else p + 1)
position_after p q h behind = ground arith

show_symbol-pos :
    (symbol fg bg : ℕ) (s : Screen)
    → s.fb_pos ≤ 2000
    → (show_symbol 0 symbol fg bg s).fb_pos ≡ (if s.fb_pos == 2000 then 1921 else s.fb_pos + 1)
unfolding show_symbol write_fb set_fb_pos fb_mov_cursor
show_symbol-pos symbol fg bg s h =
    let pixel : Pixel = record { symbol = symbol; fg = fg % 2 ^ 4; bg = bg % 2 ^ 4 } in
    let s1 = if leb 2000 (u16 (s.fb_pos + 0)) then scroll s else s in
    let s2 = write_fb s1.fb_pos pixel s1 in
    let s3 = set_fb_pos (0 + 1 + s2.fb_pos) s2 in
    write_fb-pos ((s3.frame_buf s3.fb_pos).symbol == 0) s3.fb_pos (record pixel { symbol = 0 }) s3
    ∙ ap (λ t. u16 (0 + 1 + t)) (if-pos (leb 2000 (u16 (s.fb_pos + 0))) (scroll s) s)
    ∙ position_after s.fb_pos (scroll s).fb_pos h (scroll-pos s)

fb_newline-pos :
    (s : Screen)
    → s.fb_pos ≤ 2000
    → (fb_newline s).fb_pos ≡ (
        if ltb s.fb_pos 1920
        then s.fb_pos - s.fb_pos % 80 + 80
        else if s.fb_pos == 2000
        then 2000
        else 1920)
unfolding fb_newline set_fb_pos
fb_newline-pos s h =
    let s' = set_fb_pos (s.fb_pos - s.fb_pos % 80 + 80) s in
    if-pos (leb 2000 (u16 (s.fb_pos - s.fb_pos % 80 + 80))) (scroll s') s'
    ∙ ground (arith, scroll-pos s')

newline_le :
    (p : ℕ)
    → p ≤ 2000
    → (if ltb p 1920 then p - p % 80 + 80 else if p == 2000 then 2000 else 1920) ≤ 2000
newline_le p h = ground arith

fb_newline-bound : (s : Screen) → s.fb_pos ≤ 2000 → (fb_newline s).fb_pos ≤ 2000
fb_newline-bound s h = rw (fb_newline-pos s h) (newline_le s.fb_pos h)

fb_delete_char-pos :
    (s : Screen)
    → 0 < s.fb_pos
    → s.fb_pos ≤ 2000
    → ((fb_delete_char s).fb_pos ≡ s.fb_pos) ⊎ ((fb_delete_char s).fb_pos + 1 ≡ s.fb_pos)
unfolding fb_delete_char set_fb_pos write_fb fb_mov_cursor
fb_delete_char-pos s p h = elim (Bool-cases (s.attrs (sub32 s.fb_pos 1) == 0)) [
  | inl deletable ↦ rw deletable (inr (omega arith))
  | inr kept ↦ rw kept (inl refl)
]

fb_delete_char-bound :
    (s : Screen) → 0 < s.fb_pos → s.fb_pos ≤ 2000 → (fb_delete_char s).fb_pos ≤ 2000
fb_delete_char-bound s p h = elim (fb_delete_char-pos s p h) [
  | inl same ↦ omega arith
  | inr back ↦ omega arith
]

show_symbol-bound :
    (symbol fg bg : ℕ) (s : Screen) → s.fb_pos ≤ 2000 → (show_symbol 0 symbol fg bg s).fb_pos ≤ 2000
show_symbol-bound symbol fg bg s h = rw (show_symbol-pos symbol fg bg s h) (ground arith)

space-bound : (s : Screen) → s.fb_pos ≤ 2000 → (show_symbol 0 32 15 0 s).fb_pos ≤ 2000
space-bound s h = show_symbol-bound 32 15 0 s h

print_tab-bound : (s : Screen) → s.fb_pos ≤ 2000 → (print_tab s).fb_pos ≤ 2000
unfolding print_tab
print_tab-bound s h =
    let space = show_symbol 0 32 15 0 in
    let b1 = space-bound s h in
    let b2 = space-bound (space s) b1 in
    space-bound (space (space (space s))) (space-bound (space (space s)) b2)

if-bound :
    (c : Bool) (s t : Screen)
    → (c ≡ true → s.fb_pos ≤ 2000)
    → (c ≡ false → t.fb_pos ≤ 2000)
    → (if c then s else t).fb_pos ≤ 2000
if-bound true s t p q = p refl
if-bound false s t p q = q refl

abbrev pub has_delete : List ℕ → Bool
has_delete [] = false
has_delete (c ∷ msg) = let rest = has_delete msg in if c == 127 then true else rest

-- Printing any character from a position on the screen or just behind its last cell leaves such a
-- position; a delete asks for a position that is not the first.
pub fb_print_char-bound :
    (symbol fg bg : ℕ) (s : Screen)
    → s.fb_pos ≤ 2000
    → (symbol ≡ 127 → 0 < s.fb_pos)
    → (fb_print_char 0 symbol fg bg s).fb_pos ≤ 2000
unfolding fb_print_char
fb_print_char-bound symbol fg bg s h del =
    if-bound (symbol == 0) _ _ (λ _. h)
      (λ _.
        if-bound (symbol == 13) _ _ (λ _. h)
          (λ _.
            if-bound (symbol == 10) _ _ (λ _. fb_newline-bound s h)
              (λ _.
                if-bound (symbol == 9) _ _ (λ _. print_tab-bound s h)
                  (λ _.
                    if-bound (symbol == 127) _ _
                      (λ e. fb_delete_char-bound s (del ((==_iff symbol 127).0 e)) h)
                      (λ _. show_symbol-bound symbol fg bg s h)))))

-- Text without the delete character keeps the position on the screen or just behind it.
pub fb_print-bound :
    (msg : List ℕ) (fg bg : ℕ) (s : Screen)
    → s.fb_pos ≤ 2000
    → has_delete msg ≡ false
    → (fb_print msg fg bg s).fb_pos ≤ 2000
unfolding fb_print
fb_print-bound [] fg bg s h ok = h
fb_print-bound (c ∷ msg) fg bg s h ok =
    fb_print-bound msg fg bg (fb_print_char 0 c fg bg s)
      (fb_print_char-bound c fg bg s h (λ e. ground (arith, ok))) (ground (arith, ok))
