-- ===== src/Base/Words.antt =====
-- Arithmetic of the C types `uint8_t`, `uint16_t` and `uint32_t` (also `size_t` and `uintptr_t`, the
-- kernel is a 32-bit program): numbers with the wrap-around written out.
use Prim.Native.Nat.{bit_and, bit_or}
use native.Mathlib.Nat.{pow-le-pow_right, div-add-mod', add-mul-mod_self_right}
use xanadu_os.Base.{
  ℕ, ◌+◌, ◌-◌, ◌*◌, ◌/◌, ◌%◌, ◌^◌, ◌<◌, ◌≡◌, Bool, true, false, not, ap, sym, arith, ◌==◌,
  if◌then◌else◌,
}
use xanadu_os.Base.Bits.{
  bit, bit-le_one, bit-bit_and, bit-bit_or, bit-pow, bit-not, bit_and-pow, pow_pos, bit_and_low,
  bit_and-not,
}

abbrev pub u8 : ℕ → ℕ
u8 x = x % 2 ^ 8

abbrev pub u16 : ℕ → ℕ
u16 x = x % 2 ^ 16

abbrev pub u32 : ℕ → ℕ
u32 x = x % 2 ^ 32

-- `a - b` on `uint32_t` operands.
abbrev pub sub32 : ℕ → ℕ → ℕ
sub32 a b = (a + 2 ^ 32 - b) % 2 ^ 32

-- `~y` on 32 bits.
abbrev pub not32 : ℕ → ℕ
not32 y = 2 ^ 32 - 1 - y

-- `x & (1 << k)` as a truth value, `x | (1 << k)` and `x & ~(1 << k)`, for `k` below 32.
unfoldable pub test_bit : ℕ → ℕ → Bool
test_bit x k = not (bit_and x (2 ^ k) == 0)

unfoldable pub set_bit : ℕ → ℕ → ℕ
set_bit x k = bit_or x (2 ^ k)

unfoldable pub clear_bit : ℕ → ℕ → ℕ
clear_bit x k = bit_and x (not32 (2 ^ k))

pub test_bit-bit : (x k : ℕ) → test_bit x k ≡ (bit x k == 1)
unfolding test_bit
test_bit-bit x k = ground (arith, bit_and-pow x k, bit-le_one x k, pow_pos k)

pub test_bit-set_bit :
    (x k j : ℕ) → test_bit (set_bit x k) j ≡ (if k == j then true else test_bit x j)
unfolding set_bit
test_bit-set_bit x k j =
    rw (test_bit-bit (bit_or x (2 ^ k)) j, test_bit-bit x j)
      (ground (arith, bit-bit_or x (2 ^ k) j, bit-pow k j, bit-le_one x j))

pow-lt-32 : (k : ℕ) → k < 32 → 2 ^ k < 2 ^ 32
pow-lt-32 k h = omega (arith, pow-le-pow_right {n = 2} (omega arith) {i = k} {j = 31} (omega arith))

pub test_bit-clear_bit :
    (x k j : ℕ)
    → k < 32
    → j < 32
    → test_bit (clear_bit x k) j ≡ (if k == j then false else test_bit x j)
unfolding clear_bit
test_bit-clear_bit x k j hk hj =
    rw (test_bit-bit (bit_and x (not32 (2 ^ k))) j, test_bit-bit x j)
      (ground (
        arith,
        bit-bit_and x (not32 (2 ^ k)) j,
        bit-not 32 (2 ^ k) j (pow-lt-32 k hk) hj,
        bit-pow k j,
        bit-le_one x j,
      ))

-- `x & ~0xfff` clears the page offset.
pub clear_low : (x : ℕ) → x < 2 ^ 32 → bit_and x (not32 0xfff) ≡ x - x % 4096
clear_low x h =
    let e : bit_and x (2 ^ 12 - 1) ≡ x % 2 ^ 12 = bit_and_low x 12 in
    omega (arith, bit_and-not 32 x 0xfff h (omega arith))

-- A factor may be reduced before a product is.
pub mul-u32 : (a b : ℕ) → u32 (u32 a * b) ≡ u32 (a * b)
mul-u32 a b =
    let e : a * b ≡ u32 a * b + (a / 2 ^ 32 * b) * 2 ^ 32 =
      omega (arith, ap (λ t. t * b) (div-add-mod' a (2 ^ 32))) in
    rw e (sym (add-mul-mod_self_right (u32 a * b) (a / 2 ^ 32 * b) (2 ^ 32)))
