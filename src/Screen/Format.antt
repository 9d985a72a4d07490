-- ===== src/Screen/Format.antt =====
-- drivers/fb.c, the printing of numbers and of formats. The arguments are the words that `va_arg`
-- gives, and `strings` are the bytes of the string at an address. Fuel is that of the printing of a
-- number; `none` is fuel run out. The arrays of digits hold `garbage` at first.
pub mod Printed
use xanadu_os.Base.{
  ℕ, zero, suc, ◌+◌, ◌-◌, ◌*◌, ◌^◌, Bool, true, false, ◌||◌, Option, none, some, ◌==◌,
  if◌then◌else◌, List, [], ◌∷◌,
}
use xanadu_os.Base.Words.{u32}
use xanadu_os.Base.Memory.{Words}
use xanadu_os.Screen.{
  Screen, fb_print_char, fb_print, fb_nprint, fb_white, fb_black, print_num_rec, print_hex_rec,
}

-- The `n` characters from index `i` on.
pub chars : Words → (i n : ℕ) → List ℕ
chars w i zero = []
chars w i (suc n) = w i ∷ chars w (i + 1) n

-- The characters that a conversion has left in its array.
pub digits_shown : (fg bg : ℕ) → Screen → Option (Words × ℕ × ℕ) → Option Screen
unfolding chars
digits_shown fg bg s none = none
digits_shown fg bg s (some (str, mul, at)) = some (fb_nprint (chars str at mul) fg bg mul s).0

pub fb_print_num_color : (fuel : ℕ) → (garbage : Words) → (num fg bg : ℕ) → Screen → Option Screen
unfolding digits_shown
fb_print_num_color fuel garbage num fg bg s =
    digits_shown fg bg s (print_num_rec fuel num 1 garbage 16)

abbrev pub fb_print_num : (fuel : ℕ) → (garbage : Words) → (num : ℕ) → Screen → Option Screen
fb_print_num fuel garbage num s = fb_print_num_color fuel garbage num fb_white fb_black s

pub fb_print_hex_color : (fuel : ℕ) → (garbage : Words) → (num fg bg : ℕ) → Screen → Option Screen
unfolding digits_shown
fb_print_hex_color fuel garbage num fg bg s =
    digits_shown fg bg s (print_hex_rec fuel num 1 garbage 16)

abbrev pub fb_print_hex : (fuel : ℕ) → (garbage : Words) → (num : ℕ) → Screen → Option Screen
fb_print_hex fuel garbage num s = fb_print_hex_color fuel garbage num fb_white fb_black s

-- What the character behind a '%' prints of the next argument: 's', 'd' or 'u', 'x' or 'p'.
pub converted :
    (fuel : ℕ)
    → (garbage : Words) → (strings : ℕ → List ℕ) → (c arg fg bg : ℕ) → Screen
    → Option Screen
unfolding fb_print_num_color fb_print_hex_color
converted fuel garbage strings c arg fg bg s =
    if c == 115
    then some (fb_print (strings arg) fg bg s)
    else if c == 100 || c == 117
    then fb_print_num_color fuel garbage arg fg bg s
    else if c == 120 || c == 112
    then fb_print_hex_color fuel garbage arg fg bg s
    else some s

-- Whether it takes an argument.
abbrev pub takes_argument : (c : ℕ) → Bool
takes_argument c = c == 115 || c == 100 || c == 117 || c == 120 || c == 112

abbrev pub and_then : Option Screen → (Screen → Option (Screen × ℕ)) → Option (Screen × ℕ)
and_then none k = none
and_then (some s) k = k s

-- The message from a character on, with the number of the next argument. The result counts nothing.
pub format_loop :
    (fuel : ℕ)
    → (garbage : Words) → (strings : ℕ → List ℕ) → (msg : List ℕ) → (format_char : Bool)
    → (fg bg next : ℕ) → (args : Words) → Screen
    → Option (Screen × ℕ)
unfolding converted
format_loop fuel garbage strings [] format_char fg bg next args s = some (s, 0)
format_loop fuel garbage strings (c ∷ msg) format_char fg bg next args s =
    let directive = format_loop fuel garbage strings msg true fg bg next args s in
    let behind = if takes_argument c then next + 1 else next in
    let conversion =
      and_then (converted fuel garbage strings c (args next) fg bg s)
        (format_loop fuel garbage strings msg false fg bg behind args) in
    let plain =
      format_loop fuel garbage strings msg false fg bg next args (fb_print_char 0 c fg bg s) in
    if c == 37 then directive else if format_char then conversion else plain

pub fb_vprintf_color :
    (fuel : ℕ)
    → (garbage : Words) → (strings : ℕ → List ℕ) → (msg : List ℕ) → (fg bg : ℕ) → (args : Words)
    → Screen
    → Option (Screen × ℕ)
unfolding format_loop
fb_vprintf_color fuel garbage strings msg fg bg args s =
    format_loop fuel garbage strings msg false fg bg 0 args s

-- `fb_printf_color` and `fb_printf` differ in how the arguments come.
abbrev pub fb_vprintf :
    (fuel : ℕ)
    → (garbage : Words) → (strings : ℕ → List ℕ) → (msg : List ℕ) → (args : Words) → Screen
    → Option (Screen × ℕ)
fb_vprintf fuel garbage strings msg args s =
    fb_vprintf_color fuel garbage strings msg fb_white fb_black args s
