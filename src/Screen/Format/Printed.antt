-- ===== src/Screen/Format/Printed.antt =====
-- What a format prints.
use xanadu_os.Base.{
  ℕ, ◌-◌, ◌^◌, ◌≤◌, ◌<◌, ◌≡◌, ◌⊎◌, inl, inr, refl, ap, sym, ◌∙◌, Bool, true, false, ◌&&◌, not,
  arith, some, ◌==◌, if◌then◌else◌, List, [], ◌∷◌, ◌++◌,
}
use mathlib.Core.Path.{subst}
use mathlib.Core.List.{append-nil}
use xanadu_os.Base.Memory.{Words}
use xanadu_os.Screen.{Screen, fb_print_char, fb_print, fb_nprint, itoa}
use xanadu_os.Screen.Decimal.{Written, itoa_lem}
use xanadu_os.Screen.Format.{
  chars, digits_shown, fb_print_num_color, converted, format_loop, fb_vprintf_color, and_then,
}

-- No character is '%'.
unfoldable pub plain_text : List ℕ → Bool
plain_text [] = true
plain_text (c ∷ msg) = not (c == 37) && plain_text msg

format_loop-plain :
    (fuel : ℕ) (garbage : Words) (strings : ℕ → List ℕ) (text rest : List ℕ) (fg bg next : ℕ)
    (args : Words) (s : Screen)
    → plain_text text ≡ true
    → format_loop fuel garbage strings (text ++ rest) false fg bg next args s
      ≡ format_loop fuel garbage strings rest false fg bg next args (fb_print text fg bg s)
unfolding format_loop plain_text fb_print
format_loop-plain fuel garbage strings [] rest fg bg next args s h = refl
format_loop-plain fuel garbage strings (c ∷ text) rest fg bg next args s h =
    let other : (c == 37) ≡ false = ground (arith, h) in
    let s' = fb_print_char 0 c fg bg s in
    ap
      (λ b.
        if b
        then format_loop fuel garbage strings (text ++ rest) true fg bg next args s
        else format_loop fuel garbage strings (text ++ rest) false fg bg next args s')
      other
    ∙ format_loop-plain fuel garbage strings text rest fg bg next args s' (ground (arith, h))

-- A text to its end.
plain_end :
    (fuel : ℕ) (garbage : Words) (strings : ℕ → List ℕ) (text : List ℕ) (fg bg next : ℕ)
    (args : Words) (s : Screen)
    → plain_text text ≡ true
    → format_loop fuel garbage strings text false fg bg next args s
      ≡ some (fb_print text fg bg s, 0)
unfolding format_loop
plain_end fuel garbage strings text fg bg next args s h =
    ap (λ t. format_loop fuel garbage strings t false fg bg next args s) (sym (append-nil text))
    ∙ format_loop-plain fuel garbage strings text [] fg bg next args s h

-- A number printed is its decimal digits.
fb_print_num_color_lem :
    (fuel : ℕ) (garbage : Words) (num fg bg : ℕ) (s : Screen)
    → num < 2 ^ 32
    → 10 ≤ fuel
    → (str : Words) × (at count : ℕ) × (fb_print_num_color fuel garbage num fg bg s
        ≡ some (fb_nprint (chars str at count) fg bg count s).0)
      × Written str at count num
unfolding fb_print_num_color digits_shown itoa
fb_print_num_color_lem fuel garbage num fg bg s h f =
    let (str, count, result, room, written, kept) =
      itoa_lem fuel num garbage 16 10 h f (omega arith) (omega arith) in
    (str, 16 - count - 1, count, ap (digits_shown fg bg s) result, written)

-- The loop behind the text, at the '%'.
number_behind :
    (fuel : ℕ) (garbage : Words) (strings : ℕ → List ℕ) (more : List ℕ) (c fg bg : ℕ) (args : Words)
    (s s' : Screen)
    → plain_text more ≡ true
    → (c ≡ 100) ⊎ (c ≡ 117)
    → fb_print_num_color fuel garbage (args 0) fg bg s ≡ some s'
    → format_loop fuel garbage strings (37 ∷ c ∷ more) false fg bg 0 args s
      ≡ some (fb_print more fg bg s', 0)
unfolding format_loop converted
number_behind fuel garbage strings more c fg bg args s s' plain (inl e) shown =
    subst
      (λ k.
        format_loop fuel garbage strings (37 ∷ k ∷ more) false fg bg 0 args s
        ≡ some (fb_print more fg bg s', 0))
      (sym e)
      (ap (λ o. and_then o (format_loop fuel garbage strings more false fg bg 1 args)) shown
        ∙ plain_end fuel garbage strings more fg bg 1 args s' plain)
number_behind fuel garbage strings more c fg bg args s s' plain (inr e) shown =
    subst
      (λ k.
        format_loop fuel garbage strings (37 ∷ k ∷ more) false fg bg 0 args s
        ≡ some (fb_print more fg bg s', 0))
      (sym e)
      (ap (λ o. and_then o (format_loop fuel garbage strings more false fg bg 1 args)) shown
        ∙ plain_end fuel garbage strings more fg bg 1 args s' plain)

-- A format of a text, a '%', 'd' or 'u', and a text: it prints the first text, the decimal digits of the
-- argument, an unsigned number of 32 bits, and the second text. It returns 0.
pub fb_vprintf_color_lem :
    (fuel : ℕ) (garbage : Words) (strings : ℕ → List ℕ) (text more : List ℕ) (c fg bg : ℕ)
    (args : Words) (s : Screen)
    → plain_text text ≡ true
    → plain_text more ≡ true
    → (c ≡ 100) ⊎ (c ≡ 117)
    → args 0 < 2 ^ 32
    → 10 ≤ fuel
    → (str : Words) × (at count : ℕ) × (fb_vprintf_color fuel garbage strings
          (text ++ (37 ∷ c ∷ more))
          fg
          bg
          args
          s
        ≡ some (
          fb_print more fg bg
              (fb_nprint (chars str at count) fg bg count (fb_print text fg bg s)).0,
          0,
        ))
      × Written str at count (args 0)
unfolding fb_vprintf_color
fb_vprintf_color_lem fuel garbage strings text more c fg bg args s plain plain' conversion h f =
    let s' = fb_print text fg bg s in
    let (str, at, count, shown, written) =
      fb_print_num_color_lem fuel garbage (args 0) fg bg s' h f in
    (
      str,
      at,
      count,
      format_loop-plain fuel garbage strings text (37 ∷ c ∷ more) fg bg 0 args s plain
          ∙ number_behind fuel garbage strings more c fg bg args s' _ plain' conversion shown,
      written,
    )
