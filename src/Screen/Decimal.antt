-- ===== src/Screen/Decimal.antt =====
-- `itoa`: the digits that it writes are those of the number.
use native.Mathlib.Nat.{pow-suc}
use mathlib.Core.Path.{subst}
use xanadu_os.Base.{
  ℕ, zero, suc, ◌+◌, ◌-◌, ◌*◌, ◌/◌, ◌^◌, ◌≤◌, ◌<◌, ◌≡◌, ◌≢◌, ◌∙◌, refl, ap, arith, Option, some,
  leb, ◌==◌, false, Bool-cases, ==_iff, inl, inr,
}
use xanadu_os.Base.Words.{u8, u32, sub32}
use xanadu_os.Base.Memory.{Words, write, write_same, write_other}
use xanadu_os.Slibc.Number.{value}
use xanadu_os.Screen.{print_num_rec, itoa}

value_step :
    (str : Words) (n : ℕ) → str n ≢ 0 → value 10 str (suc n) ≡ value 10 str n * 10 + (str n - 48)
unfolding value
value_step str n h = ground arith

-- A number as text in a buffer: `count` digits from `start` on.
pub record Written (str' : Words) (start count num : ℕ) : Type 0 where
  pub some_digit : 0 < count
  pub digits : (i : ℕ) → i < count → (48 ≤ str' (start + i)) × (str' (start + i) < 58)
  pub number : value 10 (λ i. str' (start + i)) count ≡ num

one_digit :
    (str' : Words) (start num : ℕ) → num < 10 → str' start ≡ num + 48 → Written str' start 1 num
unfolding value
one_digit str' start num h e =
    let here : str' (start + 0) ≡ num + 48 = ap str' (omega arith) ∙ e in
    record {
      some_digit = omega arith;
      digits =
          λ i l. let z : i ≡ 0 = omega arith in rw z (omega (arith, here), omega (arith, here));
      number = ground (arith, here);
    }

more_digits :
    (str' : Words) (start count num : ℕ)
    → Written str' start count (num / 10)
    → str' (start + count) ≡ num - num / 10 * 10 + 48
    → Written str' start (suc count) num
more_digits str' start count num w e = record {
  some_digit = omega arith;
  digits = λ i l. elim (Bool-cases (i == count)) [
    | inl same ↦
        let s : i ≡ count = (==_iff i count).0 same in rw s (omega (arith, e), omega (arith, e))
    | inr other ↦ w.digits i (ground arith)
  ];
  number = value_step (λ i. str' (start + i)) count (omega (arith, e)) ∙ omega (arith, e, w.number);
}

-- A run of `print_num_rec`: what stands behind the last digit is kept.
pub record Run (str : Words) (siz mul num : ℕ) (r : Option (Words × ℕ × ℕ)) : Type 0 where
  pub str' : Words
  pub mul' : ℕ
  pub result : r ≡ some (str', mul', siz - mul' - 1)
  pub grows : mul ≤ mul'
  pub room : mul' < siz
  pub behind : (j : ℕ) → siz - mul - 1 < j → str' j ≡ str j
  pub written : Written str' (siz - mul' - 1) (mul' + 1 - mul) num

last_Run :
    (num mul : ℕ) (str : Words) (siz : ℕ) {r : Option (Words × ℕ × ℕ)}
    → num < 10
    → 0 < mul
    → mul < siz
    → r ≡ some (write str (siz - mul - 1) (num + 48), mul, siz - mul - 1)
    → Run str siz mul num r
last_Run num mul str siz h pos room e =
    let one : mul + 1 - mul ≡ 1 = omega arith in
    record {
      str' = write str (siz - mul - 1) (num + 48);
      mul' = mul;
      result = e;
      grows = omega arith;
      room = room;
      behind = λ j l. write_other str (siz - mul - 1) (num + 48) j (omega arith);
      written = rw one (
          one_digit (write str (siz - mul - 1) (num + 48)) (siz - mul - 1) num h
            (write_same str (siz - mul - 1) (num + 48)));
    }

more_Run :
    (num mul : ℕ) (str : Words) (siz : ℕ) {r r' : Option (Words × ℕ × ℕ)}
    → mul + 1 < siz
    → 0 < mul
    → Run (write str (siz - mul - 1) (num - num / 10 * 10 + 48)) siz (mul + 1) (num / 10) r'
    → r ≡ r'
    → Run str siz mul num r
more_Run num mul str siz {r} {r'} room pos ih e =
    let c = num - num / 10 * 10 + 48 in
    let count : ih.mul' + 1 - mul ≡ suc (ih.mul' + 1 - (mul + 1)) = omega (arith, ih.grows) in
    let place : siz - ih.mul' - 1 + (ih.mul' + 1 - (mul + 1)) ≡ siz - mul - 1 =
      omega (arith, ih.grows, ih.room) in
    record {
      str' = ih.str';
      mul' = ih.mul';
      result = e ∙ ih.result;
      grows = omega (arith, ih.grows);
      room = ih.room;
      behind = λ j l. ih.behind j (omega arith) ∙ write_other str (siz - mul - 1) c j (omega arith);
      written = rw count (
          more_digits ih.str' (siz - ih.mul' - 1) (ih.mul' + 1 - (mul + 1)) num ih.written (
            ap ih.str' place
            ∙ ih.behind (siz - mul - 1) (omega arith)
            ∙ write_same str (siz - mul - 1) c));
    }

print_num_rec-Run :
    (digits fuel num mul : ℕ) (str : Words) (siz : ℕ)
    → num < 10 ^ suc digits
    → digits < fuel
    → 0 < mul
    → mul + digits < siz
    → siz < 2 ^ 32
    → Run str siz mul num (print_num_rec fuel num mul str siz)
unfolding print_num_rec
print_num_rec-Run digits zero num mul str siz h fuel pos room lt = absurd (omega arith)
print_num_rec-Run zero (suc f) num mul str siz h fuel pos room lt =
    let at_is : sub32 (sub32 siz mul) 1 ≡ siz - mul - 1 = omega arith in
    let last : leb 10 num ≡ false = ground arith in
    let char : u8 (num + 48) ≡ num + 48 = omega arith in
    last_Run num mul str siz (omega arith) pos (omega arith) (rw (last, at_is, char) refl)
print_num_rec-Run (suc digits) (suc f) num mul str siz h fuel pos room lt =
    let at_is : sub32 (sub32 siz mul) 1 ≡ siz - mul - 1 = omega arith in
    elim (Bool-cases (leb 10 num)) [
      | inl more ↦
          let char : u8 (num - num / 10 * 10 + 48) ≡ num - num / 10 * 10 + 48 = omega arith in
          let next : u32 (mul + 1) ≡ mul + 1 = omega arith in
          more_Run num mul str siz (omega arith) (omega (arith, pos))
            (print_num_rec-Run digits f (num / 10) (mul + 1)
              (write str (siz - mul - 1) (num - num / 10 * 10 + 48)) siz
              (omega (arith, pow-suc 10 (suc digits))) (omega arith) (omega arith) (omega arith) lt)
            (rw (more, at_is, char, next) refl)
      | inr last ↦
          let small : num < 10 = ground arith in
          let char : u8 (num + 48) ≡ num + 48 = omega arith in
          last_Run num mul str siz small pos (omega arith) (rw (last, at_is, char) refl)
    ]

-- `itoa` of any 32-bit number into a buffer of 12 bytes or more ends. It returns the place and the
-- number of the characters, which are decimal digits, end before the last byte of the buffer and
-- write the number; the last byte and what lies behind the buffer are not changed.
pub itoa_lem :
    (fuel num : ℕ) (buf : Words) (siz radix : ℕ)
    → num < 2 ^ 32
    → 10 ≤ fuel
    → 12 ≤ siz
    → siz < 2 ^ 32
    → (buf' : Words) × (count : ℕ) × (itoa fuel num buf siz radix
        ≡ some (buf', count, siz - count - 1))
      × (count < siz)
      × Written buf' (siz - count - 1) count num
      × ((j : ℕ) → siz - 1 ≤ j → buf' j ≡ buf j)
unfolding itoa
itoa_lem fuel num buf siz radix h f room lt =
    let r =
      print_num_rec-Run 9 fuel num 1 buf siz (omega arith) (omega arith) (omega arith) (omega arith)
        lt in
    let count : r.mul' + 1 - 1 ≡ r.mul' = omega arith in
    (
      r.str',
      r.mul',
      r.result,
      r.room,
      subst (λ c. Written r.str' (siz - r.mul' - 1) c num) count r.written,
      λ j l. r.behind j (omega arith),
    )
