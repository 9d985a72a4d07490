-- ===== src/Screen.antt =====
-- drivers/fb.c, text output to the frame buffer of 80 columns and 25 rows, and numbers as text. A
-- string that is printed is the list of its characters up to the NUL. Positions are `uint16_t`. An
-- index outside an array is not checked by the source; here the array has a cell there as well.
pub mod Scroll
pub mod Position
pub mod Decimal
pub mod Short
pub mod Format
mod Tests
use xanadu_os.Base.{
  ℕ, zero, suc, ◌+◌, ◌-◌, ◌*◌, ◌/◌, ◌%◌, ◌^◌, Bool, true, false, not, Option, none, some, List, [],
  ◌∷◌, ltb, leb, ◌==◌, if◌then◌else◌,
}
use xanadu_os.Base.Words.{u8, u16, u32, sub32}
use xanadu_os.Base.Memory.{Words, write, update}
use xanadu_os.Base.Ports.{Out, outb}

abbrev pub vga_width : ℕ
vga_width = 80

abbrev pub vga_size : ℕ
vga_size = 2000

abbrev pub fb_black : ℕ
fb_black = 0

abbrev pub fb_white : ℕ
fb_white = 15

abbrev pub kbd_del : ℕ
kbd_del = 127

-- `struct fb_pixel`.
pub record Pixel : Type 0 where
  pub symbol : ℕ
  pub fg : ℕ
  pub bg : ℕ

abbrev pub no_pixel : Pixel
no_pixel = record { symbol = 0; fg = 0; bg = 0 }

-- The globals of the file: `attrs` is `frame_buf_attrs`, whose one field is a bit, `is_local` tells
-- which function `write_fb` points to, and `device_pos` is `fb_char_device.pos`.
pub record Screen : Type 0 where
  pub frame_buf : ℕ → Pixel
  pub attrs : Words
  pub fb_out : Words
  pub fb_pos : ℕ
  pub device_pos : ℕ
  pub is_local : Bool
  pub out : List Out

-- `write_fb_sync` and `write_fb_local`.
pub write_fb : (i : ℕ) → Pixel → Screen → Screen
write_fb i pixel s = record s {
  frame_buf = update s.frame_buf i pixel;
  fb_out = if s.is_local then write s.fb_out i pixel.symbol else s.fb_out;
}

pub set_fb_pos : ℕ → Screen → Screen
set_fb_pos new_pos s = record s { fb_pos = u16 new_pos; device_pos = u16 new_pos }

pub move_up : (rounds i : ℕ) → Screen → Screen
unfolding write_fb
move_up zero i s = s
move_up (suc n) i s =
    let s' = write_fb (i - vga_width) (s.frame_buf i) s in
    move_up n (i + 1) (record s' { attrs = write s'.attrs (i - vga_width) (s'.attrs i) })

pub blank_cells : (rounds i : ℕ) → Screen → Screen
unfolding write_fb
blank_cells zero i s = s
blank_cells (suc n) i s =
    let s' = write_fb i no_pixel s in
    blank_cells n (i + 1) (record s' { attrs = write s'.attrs i 0 })

-- `fb_pos - 80` is an `int` before it becomes a position.
pub scroll : Screen → Screen
unfolding move_up blank_cells set_fb_pos
scroll s =
    let s' =
      blank_cells vga_width (vga_size - vga_width) (move_up (vga_size - vga_width) vga_width s) in
    set_fb_pos (s'.fb_pos + 2 ^ 16 - vga_width) s'

pub fb_mov_cursor : ℕ → Screen → Screen
fb_mov_cursor pos s = record s {
  out =
      outb 0x3D5 (pos % 2 ^ 8)
        (outb 0x3D4 15 (outb 0x3D5 (pos / 2 ^ 8 % 2 ^ 8) (outb 0x3D4 14 s.out)));
}

pub fb_newline : Screen → Screen
unfolding set_fb_pos scroll
fb_newline s =
    let s' = set_fb_pos (s.fb_pos - s.fb_pos % 80 + 80) s in
    if leb vga_size s'.fb_pos then scroll s' else s'

pub fb_delete_char : Screen → Screen
unfolding set_fb_pos write_fb fb_mov_cursor
fb_delete_char s =
    if not (s.attrs (sub32 s.fb_pos 1) == 0)
    then s
    else let s' = set_fb_pos (s.fb_pos + 2 ^ 16 - 1) s in
      fb_mov_cursor s'.fb_pos
        (write_fb s'.fb_pos (record (s'.frame_buf s'.fb_pos) { symbol = 0 }) s')

pub delete_loop : (rounds : ℕ) → Screen → Screen
unfolding fb_delete_char
delete_loop zero s = s
delete_loop (suc n) s = delete_loop n (fb_delete_char s)

pub fb_delete_last : (len : ℕ) → Screen → Screen
unfolding delete_loop
fb_delete_last len s = delete_loop len s

-- The end of `fb_print_char`, for a symbol that is shown.
pub show_symbol : (offset symbol foreground background : ℕ) → Screen → Screen
unfolding scroll write_fb set_fb_pos fb_mov_cursor
show_symbol offset symbol foreground background s =
    let pixel : Pixel = record {
      symbol = symbol;
      fg = foreground % 2 ^ 4;
      bg = background % 2 ^ 4;
    } in
    let s1 = if leb vga_size (u16 (s.fb_pos + offset)) then scroll s else s in
    let s2 = write_fb s1.fb_pos pixel s1 in
    let s3 = set_fb_pos (offset + 1 + s2.fb_pos) s2 in
    let s4 =
      if (s3.frame_buf s3.fb_pos).symbol == 0
      then write_fb s3.fb_pos (record pixel { symbol = 0 }) s3
      else s3 in
    fb_mov_cursor s4.fb_pos s4

-- `fb_print_black` of four spaces, none of which is a special character.
pub print_tab : Screen → Screen
unfolding show_symbol
print_tab s = let space = show_symbol 0 32 fb_white fb_black in space (space (space (space s)))

pub fb_print_char : (offset symbol foreground background : ℕ) → Screen → Screen
unfolding fb_newline fb_delete_char show_symbol print_tab
fb_print_char offset symbol foreground background s =
    if symbol == 0
    then s
    else if symbol == 13
    then s
    else if symbol == 10
    then fb_newline s
    else if symbol == 9
    then print_tab s
    else if symbol == kbd_del
    then fb_delete_char s
    else show_symbol offset symbol foreground background s

pub fb_putc : ℕ → Screen → Screen
unfolding fb_print_char
fb_putc c s = fb_print_char 0 c fb_white fb_black s

pub fb_putc_attrs : (symbol attrs : ℕ) → Screen → Screen
unfolding fb_putc
fb_putc_attrs symbol attrs s = fb_putc symbol (record s { attrs = write s.attrs s.fb_pos attrs })

-- The source counts the characters in 16 bits and prints a message that is longer for ever: the text
-- has at most 65535 characters.
pub fb_print : List ℕ → (fg bg : ℕ) → Screen → Screen
unfolding fb_print_char
fb_print [] fg bg s = s
fb_print (c ∷ msg) fg bg s = fb_print msg fg bg (fb_print_char 0 c fg bg s)

-- With the number of characters that it printed.
pub fb_nprint : List ℕ → (fg bg siz : ℕ) → Screen → Screen × ℕ
unfolding fb_print_char
fb_nprint msg fg bg zero s = (s, 0)
fb_nprint [] fg bg (suc siz) s = (s, 0)
fb_nprint (c ∷ msg) fg bg (suc siz) s =
    let (s', n) = fb_nprint msg fg bg siz (fb_print_char 0 c fg bg s) in (s', n + 1)

-- The bound of the loop is the device's position, which `fb_putc` moves. `none` is fuel run out.
pub flush_loop : (fuel i : ℕ) → Screen → Option Screen
unfolding fb_putc
flush_loop zero i s = none
flush_loop (suc f) i s =
    let rest = flush_loop f (i + 1) (fb_putc (u8 (s.fb_out i)) s) in
    if leb i s.device_pos then rest else some s

pub fb_flush : (fuel : ℕ) → Screen → Option Screen
unfolding flush_loop
fb_flush fuel s = elim (flush_loop fuel s.fb_pos (record s { is_local = false })) [
  | none ↦ none
  | some s' ↦ some (record s' { is_local = true })
]

pub clear_loop : (rounds i : ℕ) → Screen → Screen
clear_loop zero i s = s
clear_loop (suc n) i s = clear_loop n (i + 1) (record s {
  frame_buf = update s.frame_buf i no_pixel;
  attrs = write s.attrs i 0;
  fb_out = write s.fb_out i 0;
})

-- `fb_char_device.pos` keeps its value.
pub fb_clear : Screen → Screen
unfolding clear_loop
fb_clear s = record (clear_loop vga_size 0 s) { fb_pos = 0 }

-- `_print_num_rec`, with the buffer, `*mul` and the index in the buffer that the result points to.
-- `none` is fuel run out.
pub print_num_rec : (fuel num mul : ℕ) → Words → (siz : ℕ) → Option (Words × ℕ × ℕ)
print_num_rec zero num mul str siz = none
print_num_rec (suc f) num mul str siz =
    let at = sub32 (sub32 siz mul) 1 in
    let div = num / 10 in
    let rest = print_num_rec f div (u32 (mul + 1)) (write str at (u8 (num - div * 10 + 48))) siz in
    if leb 10 num then rest else some (write str at (u8 (num + 48)), mul, at)

-- `itoa` does not read its radix.
pub itoa : (fuel num : ℕ) → Words → (siz radix : ℕ) → Option (Words × ℕ × ℕ)
unfolding print_num_rec
itoa fuel num buf siz radix = print_num_rec fuel num 1 buf siz

pub dec_to_hex : ℕ → ℕ
dec_to_hex num = if leb 10 num then u8 (num + 48 + 7) else u8 (num + 48)

pub print_hex_rec : (fuel num mul : ℕ) → Words → (siz : ℕ) → Option (Words × ℕ × ℕ)
unfolding dec_to_hex
print_hex_rec zero num mul str siz = none
print_hex_rec (suc f) num mul str siz =
    let at = sub32 (sub32 siz mul) 1 in
    let div = num / 16 in
    let rest =
      print_hex_rec f div (u32 (mul + 1)) (write str at (dec_to_hex (num - div * 16))) siz in
    let prefixed =
      write (write (write str at (dec_to_hex num)) (sub32 (sub32 siz mul) 2) 120)
        (sub32 (sub32 siz mul) 3) 48 in
    if leb 16 num then rest else some (prefixed, u32 (mul + 2), sub32 (sub32 siz (u32 (mul + 2))) 1)
