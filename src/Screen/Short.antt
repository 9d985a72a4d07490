-- ===== src/Screen/Short.antt =====
-- `itoa` of numbers with one and with two digits.
use xanadu_os.Base.{
  ℕ, suc, ◌+◌, ◌-◌, ◌*◌, ◌/◌, ◌%◌, ◌^◌, ◌≤◌, ◌<◌, ◌≡◌, refl, true, false, arith, some, leb,
}
use xanadu_os.Base.Words.{u8, u32, sub32}
use xanadu_os.Base.Memory.{Words, write}
use xanadu_os.Screen.{itoa, print_num_rec}

-- A number below 10 is one character, the last but one of the buffer.
pub itoa_one :
    (f num : ℕ) (buf : Words) (siz radix : ℕ)
    → num < 10
    → 3 ≤ siz
    → siz < 2 ^ 32
    → itoa (suc f) num buf siz radix ≡ some (write buf (siz - 2) (48 + num), 1, siz - 2)
unfolding itoa print_num_rec
itoa_one f num buf siz radix h p w =
    let at : sub32 (sub32 siz 1) 1 ≡ siz - 2 = omega (arith, p, w) in
    let c : u8 (num + 48) ≡ 48 + num = omega (arith, h) in
    let small : leb 10 num ≡ false = ground (arith, h) in rw (small, at, c) refl

-- A number with two digits is the tens and the ones.
pub itoa_two :
    (f num : ℕ) (buf : Words) (siz radix : ℕ)
    → 10 ≤ num
    → num < 100
    → 3 ≤ siz
    → siz < 2 ^ 32
    → itoa (suc (suc f)) num buf siz radix
      ≡ some (write (write buf (siz - 2) (48 + num % 10)) (siz - 3) (48 + num / 10), 2, siz - 3)
unfolding itoa print_num_rec
itoa_two f num buf siz radix l h p w =
    let at : sub32 (sub32 siz 1) 1 ≡ siz - 2 = omega (arith, p, w) in
    let next : sub32 (sub32 siz (u32 (1 + 1))) 1 ≡ siz - 3 = omega (arith, p, w) in
    let ones : u8 (num - num / 10 * 10 + 48) ≡ 48 + num % 10 = omega (arith, h) in
    let tens : u8 (num / 10 + 48) ≡ 48 + num / 10 = omega (arith, h) in
    let large : leb 10 num ≡ true = ground (arith, l) in
    let small : leb 10 (num / 10) ≡ false = ground (arith, h) in
    rw (large, small, at, next, ones, tens) refl
