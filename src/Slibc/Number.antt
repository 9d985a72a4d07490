-- ===== src/Slibc/Number.antt =====
-- `atoi` against the value of a row of digits.
use xanadu_os.Base.{
  ℕ, zero, suc, ◌+◌, ◌-◌, ◌*◌, ◌/◌, ◌%◌, ◌^◌, ◌≤◌, ◌<◌, ◌≡◌, ◌≢◌, ◌⊎◌, inl, inr, ◌∙◌, refl, ap,
  arith, ltb, ◌==◌, if◌then◌else◌, Bool-cases,
}
use xanadu_os.Base.Words.{u32, sub32, mul-u32}
use xanadu_os.Base.Memory.{Words}
use xanadu_os.Slibc.{to_int, atoi_loop, atoi}

-- The number that the first `n` bytes write, NUL bytes skipped, in a radix.
unfoldable pub value : (radix : ℕ) → Words → ℕ → ℕ
value radix str zero = 0
value radix str (suc n) =
    let v = value radix str n in if str n == 0 then v else v * radix + (str n - 48)

value_step :
    (radix : ℕ) (str : Words) (n : ℕ)
    → str n ≢ 0
    → value radix str (suc n) ≡ value radix str n * radix + (str n - 48)
unfolding value
value_step radix str n h = ground arith

value_nul :
    (radix : ℕ) (str : Words) (n : ℕ) → str n ≡ 0 → value radix str (suc n) ≡ value radix str n
unfolding value
value_nul radix str n h = ground arith

-- A byte of a number field: NUL, or a character from '0' on.
abbrev pub IsDigitByte : ℕ → Type 0
IsDigitByte c = (c ≡ 0) ⊎ ((48 ≤ c) × (c < 128))

add-u32-mul : (a b c : ℕ) → u32 (u32 a + u32 b * c) ≡ u32 (a + b * c)
add-u32-mul a b c = omega (arith, mul-u32 b c)

atoi_loop-value :
    (n : ℕ) (str : Words) (radix order res : ℕ)
    → res < 2 ^ 32
    → ((i : ℕ) → i < n → IsDigitByte (str i))
    → atoi_loop n str radix order res ≡ u32 (res + order * value radix str n)
unfolding atoi_loop value
atoi_loop-value zero str radix order res h ok = omega arith
atoi_loop-value (suc n) str radix order res h ok = elim (Bool-cases (str n == 0)) [
  | inl nul ↦ rw nul (atoi_loop-value n str radix order res h (λ i p. ok i (omega arith)))
  | inr digit ↦
      let d = sub32 (to_int (str n)) 48 in
      let v = value radix str n in
      let d_is : d ≡ str n - 48 = ground (arith, ok n (omega arith)) in
      rw digit (
        atoi_loop-value n str radix (u32 (order * radix)) (u32 (res + d * order)) (omega arith)
          (λ i p. ok i (omega arith))
        ∙ add-u32-mul (res + d * order) (order * radix) v
        ∙ ap u32 (rw d_is (omega arith)))
]

-- `atoi` is, modulo 2^32, the number that the twelve bytes at the pointer write, NUL bytes skipped,
-- whatever length it is given; the bytes are NUL or characters from '0' on.
pub atoi_lem :
    (str : Words) (len radix : ℕ)
    → ((i : ℕ) → i < 12 → IsDigitByte (str i))
    → atoi str len radix ≡ u32 (value radix str 12)
unfolding atoi
atoi_lem str len radix ok = atoi_loop-value 12 str radix 1 0 (omega arith) ok ∙ ap u32 (omega arith)

-- The characters of `n` as eleven octal digits and a NUL, the form of a tar header's size field.
pub octal_field : ℕ → Words
octal_field n i = if ltb i 11 then 48 + n / 8 ^ (10 - i) % 8 else 0

octal_field-IsDigitByte : (n i : ℕ) → IsDigitByte (octal_field n i)
unfolding octal_field
octal_field-IsDigitByte n i = ground arith

octal_step :
    (n i : ℕ)
    → i < 11
    → value 8 (octal_field n) (suc i) ≡ value 8 (octal_field n) i * 8 + n / 8 ^ (10 - i) % 8
unfolding value octal_field
octal_step n i h = ground arith

value-octal_field : (n : ℕ) → n < 2 ^ 32 → value 8 (octal_field n) 12 ≡ n
value-octal_field n h =
    let none_yet : value 8 (octal_field n) 0 ≡ 0 = (unfold value in refl) in
    let end : octal_field n 11 ≡ 0 = (unfold octal_field in refl) in
    omega (
      arith,
      none_yet,
      value_nul 8 (octal_field n) 11 end,
      octal_step n 0,
      octal_step n 1,
      octal_step n 2,
      octal_step n 3,
      octal_step n 4,
      octal_step n 5,
      octal_step n 6,
      octal_step n 7,
      octal_step n 8,
      octal_step n 9,
      octal_step n 10,
    )

-- Reading back a size field gives every size below 2^32.
pub atoi-octal_field : (n : ℕ) → n < 2 ^ 32 → atoi (octal_field n) 12 8 ≡ n
atoi-octal_field n h =
    atoi_lem (octal_field n) 12 8 (λ i p. octal_field-IsDigitByte n i)
    ∙ omega (arith, value-octal_field n h)

-- An eight-byte field, seven digits and a NUL, is not read alone: its number is followed by the
-- four characters of the next field.
pub atoi-short_field :
    (str : Words)
    → ((i : ℕ) → i < 12 → IsDigitByte (str i))
    → ((i : ℕ) → 8 ≤ i → i < 12 → str i ≢ 0)
    → str 7 ≡ 0
    → atoi str 8 8 ≡ u32 (value 8 str 7 * 8 ^ 4 + value 8 (λ i. str (8 + i)) 4)
atoi-short_field str ok next nul =
    let none_yet : value 8 (λ i. str (8 + i)) 0 ≡ 0 = (unfold value in refl) in
    let step = λ (i : ℕ) (h : i < 4).
      value_step 8 (λ j. str (8 + j)) i (next (8 + i) (omega arith) (omega arith)) in
    let whole = λ (i : ℕ) (h : 8 ≤ i) (k : i < 12). value_step 8 str i (next i h k) in
    atoi_lem str 8 8 ok
    ∙ ap u32 (
        omega (
          arith,
          none_yet,
          value_nul 8 str 7 nul,
          step 0,
          step 1,
          step 2,
          step 3,
          whole 8,
          whole 9,
          whole 10,
          whole 11,
        ))
