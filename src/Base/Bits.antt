-- ===== src/Base/Bits.antt =====
-- The binary digits of a number, and how `&`, `|` and `~` of C act on them. The operations are
-- the native ones, which recur on halves; here they get the laws that proofs about masks need.
use Prim.Native.Nat.{bit_and, bit_or, digits, bit_and-bitwise, bit_or-bitwise}
use native.Mathlib.Nat.{
  div-div-eq-div-mul, pow-suc, mod-lt, mod-eq_of_lt, div-add-mod', add-mul-mod_self_right,
}
use xanadu_os.Base.{
  ℕ, zero, suc, ◌+◌, ◌-◌, ◌*◌, ◌/◌, ◌%◌, ◌^◌, ◌≤◌, ◌<◌, min, max, ◌≡◌, refl, ap, ◌∙◌, sym, arith,
  ◌==◌, if◌then◌else◌,
}

-- An operation that works digit by digit obeys its own recursion at the lowest digit.
module _ (z : ℕ → ℕ) (f : ℕ → ℕ → ℕ) (out : (b : ℕ) → z b ≡ z (b / 2) * 2 + f 0 (b % 2)) where
  digits_enough : (n m a b : ℕ) → a ≤ n → a ≤ m → digits z f n a b ≡ digits z f m a b
  digits_enough zero zero a b p q = refl
  digits_enough zero (suc m) zero b p q = refl
  digits_enough zero (suc m) (suc a) b p q = absurd (omega arith)
  digits_enough (suc n) zero zero b p q = refl
  digits_enough (suc n) zero (suc a) b p q = absurd (omega arith)
  digits_enough (suc n) (suc m) zero b p q = refl
  digits_enough (suc n) (suc m) (suc a) b p q =
      ap (λ k. k * 2 + f (suc a % 2) (b % 2))
        (digits_enough n m (suc a / 2) (b / 2) (omega arith) (omega arith))

  digits_step :
      (a b : ℕ) → digits z f a a b ≡ digits z f (a / 2) (a / 2) (b / 2) * 2 + f (a % 2) (b % 2)
  digits_step zero b = out b
  digits_step (suc a) b =
      ap (λ k. k * 2 + f (suc a % 2) (b % 2))
        (digits_enough a (suc a / 2) (suc a / 2) (b / 2) (omega arith) (omega arith))

pub bit_and_halves : (a b : ℕ) → bit_and a b ≡ bit_and (a / 2) (b / 2) * 2 + min (a % 2) (b % 2)
bit_and_halves a b =
    bit_and-bitwise a b
    ∙ digits_step (λ _. 0) min (λ b. omega arith) a b
    ∙ ap (λ k. k * 2 + min (a % 2) (b % 2)) (sym (bit_and-bitwise (a / 2) (b / 2)))

pub bit_or_halves : (a b : ℕ) → bit_or a b ≡ bit_or (a / 2) (b / 2) * 2 + max (a % 2) (b % 2)
bit_or_halves a b =
    bit_or-bitwise a b
    ∙ digits_step (λ b. b) max (λ b. omega arith) a b
    ∙ ap (λ k. k * 2 + max (a % 2) (b % 2)) (sym (bit_or-bitwise (a / 2) (b / 2)))

-- The digit at place `i`.
unfoldable pub bit : ℕ → ℕ → ℕ
bit x zero = x % 2
bit x (suc i) = bit (x / 2) i

pub bit-le_one : (x i : ℕ) → bit x i ≤ 1
unfolding bit
bit-le_one x zero = omega arith
bit-le_one x (suc i) = bit-le_one (x / 2) i

pub bit-bit_and : (a b i : ℕ) → bit (bit_and a b) i ≡ min (bit a i) (bit b i)
unfolding bit
bit-bit_and a b zero = omega (arith, bit_and_halves a b)
bit-bit_and a b (suc i) =
    let e : bit_and a b / 2 ≡ bit_and (a / 2) (b / 2) = omega (arith, bit_and_halves a b) in
    rw e (bit-bit_and (a / 2) (b / 2) i)

pub bit-bit_or : (a b i : ℕ) → bit (bit_or a b) i ≡ max (bit a i) (bit b i)
unfolding bit
bit-bit_or a b zero = omega (arith, bit_or_halves a b)
bit-bit_or a b (suc i) =
    let e : bit_or a b / 2 ≡ bit_or (a / 2) (b / 2) = omega (arith, bit_or_halves a b) in
    rw e (bit-bit_or (a / 2) (b / 2) i)

pub bit_of_zero : (i : ℕ) → bit 0 i ≡ 0
unfolding bit
bit_of_zero zero = refl
bit_of_zero (suc i) = bit_of_zero i

pub pow_pos : (k : ℕ) → 1 ≤ 2 ^ k
pow_pos zero = omega arith
pow_pos (suc k) = omega (arith, pow-suc 2 k, pow_pos k)

pub half-pow : (k : ℕ) → (2 ^ suc k / 2 ≡ 2 ^ k) × (2 ^ suc k % 2 ≡ 0)
half-pow k = omega (arith, pow-suc 2 k)

-- `1 << k` has the one digit at `k`.
pub bit-pow : (k i : ℕ) → bit (2 ^ k) i ≡ (if k == i then 1 else 0)
unfolding bit
bit-pow zero zero = refl
bit-pow zero (suc i) = bit_of_zero i ∙ ground arith
bit-pow (suc k) zero = (half-pow k).1 ∙ ground arith
bit-pow (suc k) (suc i) = rw (half-pow k).0 (bit-pow k i ∙ ground arith)

pub bit-not : (w y i : ℕ) → y < 2 ^ w → i < w → bit (2 ^ w - 1 - y) i ≡ 1 - bit y i
unfolding bit
bit-not zero y i h p = absurd (omega arith)
bit-not (suc w) y zero h p = omega (arith, pow-suc 2 w)
bit-not (suc w) y (suc i) h p =
    let e : (2 ^ suc w - 1 - y) / 2 ≡ 2 ^ w - 1 - y / 2 = omega (arith, pow-suc 2 w) in
    rw e (bit-not w (y / 2) i (omega (arith, pow-suc 2 w)) (omega arith))

bit_and_none : (n a : ℕ) → digits (λ _. 0) min n a 0 ≡ 0
bit_and_none zero a = refl
bit_and_none (suc n) zero = refl
bit_and_none (suc n) (suc a) = omega (arith, bit_and_none n (suc a / 2))

pub bit_and-zero : (a : ℕ) → bit_and a 0 ≡ 0
bit_and-zero a = bit_and-bitwise a 0 ∙ bit_and_none a a

-- The test `x & (1 << k)` reads one digit.
pub bit_and-pow : (x k : ℕ) → bit_and x (2 ^ k) ≡ 2 ^ k * bit x k
unfolding bit
bit_and-pow x zero = omega (arith, bit_and_halves x 1, bit_and-zero (x / 2))
bit_and-pow x (suc k) =
    bit_and_halves x (2 ^ suc k)
    ∙ (rw ((half-pow k).0, (half-pow k).1, bit_and-pow (x / 2) k, pow-suc) (omega arith))

mod-pow_suc : (x k : ℕ) → x % 2 ^ suc k ≡ (x / 2 % 2 ^ k) * 2 + min (x % 2) 1
mod-pow_suc x k =
    let r = (x / 2 % 2 ^ k) * 2 + min (x % 2) 1 in
    let low : r < 2 ^ suc k = omega (arith, pow-suc 2 k, mod-lt (x / 2) {m = 2 ^ k} (pow_pos k)) in
    let e : x ≡ r + (x / 2 / 2 ^ k) * 2 ^ suc k =
      omega (arith, div-add-mod' (x / 2) (2 ^ k), ap (λ t. (x / 2 / 2 ^ k) * t) (pow-suc 2 k)) in
    ap (λ t. t % 2 ^ suc k) e
    ∙ add-mul-mod_self_right r (x / 2 / 2 ^ k) (2 ^ suc k)
    ∙ mod-eq_of_lt low

-- `x & (2 ^ k - 1)` is the remainder by `2 ^ k`.
pub bit_and_low : (x k : ℕ) → bit_and x (2 ^ k - 1) ≡ x % 2 ^ k
bit_and_low x zero = bit_and-zero x ∙ omega arith
bit_and_low x (suc k) =
    let e : (2 ^ suc k - 1) / 2 ≡ 2 ^ k - 1 = omega (arith, pow-suc 2 k, pow_pos k) in
    let d : (2 ^ suc k - 1) % 2 ≡ 1 = omega (arith, pow-suc 2 k, pow_pos k) in
    bit_and_halves x (2 ^ suc k - 1) ∙ (rw (e, d, bit_and_low (x / 2) k) (sym (mod-pow_suc x k)))

-- Digits that one number has and another has not make up the number.
pub bit_and-not : (w x y : ℕ) → x < 2 ^ w → y < 2 ^ w → bit_and x (2 ^ w - 1 - y) + bit_and x y ≡ x
bit_and-not zero x y h p =
    let e : x ≡ 0 = omega arith in rw (e, bit_and-bitwise 0 y, bit_and-bitwise 0 (2 ^ 0 - 1 - y))
bit_and-not (suc w) x y h p =
    let e : (2 ^ suc w - 1 - y) / 2 ≡ 2 ^ w - 1 - y / 2 = omega (arith, pow-suc 2 w) in
    let d : (2 ^ suc w - 1 - y) % 2 ≡ 1 - y % 2 = omega (arith, pow-suc 2 w) in
    rw (bit_and_halves x (2 ^ suc w - 1 - y), bit_and_halves x y, e, d)
      (omega (
        arith,
        bit_and-not w (x / 2) (y / 2) (omega (arith, pow-suc 2 w)) (omega (arith, pow-suc 2 w)),
      ))

pub bit_or-add : (w x y : ℕ) → x < 2 ^ w → bit_or x y + bit_and x y ≡ x + y
bit_or-add zero x y h =
    let e : x ≡ 0 = omega arith in rw (e, bit_and-bitwise 0 y, bit_or-bitwise 0 y) (omega arith)
bit_or-add (suc w) x y h =
    rw (bit_or_halves x y, bit_and_halves x y)
      (omega (arith, bit_or-add w (x / 2) (y / 2) (omega (arith, pow-suc 2 w))))

pub bit_and_disjoint : (k q y : ℕ) → y < 2 ^ k → bit_and (q * 2 ^ k) y ≡ 0
bit_and_disjoint zero q y h = let e : y ≡ 0 = omega arith in rw e (bit_and-zero (q * 2 ^ 0))
bit_and_disjoint (suc k) q y h =
    let e : (q * 2 ^ suc k) / 2 ≡ q * 2 ^ k = omega (arith, ap (λ t. q * t) (pow-suc 2 k)) in
    let d : (q * 2 ^ suc k) % 2 ≡ 0 = omega (arith, ap (λ t. q * t) (pow-suc 2 k)) in
    bit_and_halves (q * 2 ^ suc k) y
    ∙ (rw (e, d, bit_and_disjoint k q (y / 2) (omega (arith, pow-suc 2 k))) (omega arith))

pub bit_or-lt : (w x y : ℕ) → x < 2 ^ w → y < 2 ^ w → bit_or x y < 2 ^ w
bit_or-lt zero x y h p = let e : x ≡ 0 = omega arith in rw (e, bit_or-bitwise 0 y) p
bit_or-lt (suc w) x y h p = rw bit_or_halves (
    omega (
      arith,
      pow-suc 2 w,
      bit_or-lt w (x / 2) (y / 2) (omega (arith, pow-suc 2 w)) (omega (arith, pow-suc 2 w)),
    ))

pub bit_and-le : (w x y : ℕ) → x < 2 ^ w → bit_and x y ≤ x
bit_and-le zero x y h = let e : x ≡ 0 = omega arith in rw (e, bit_and-bitwise 0 y) (omega arith)
bit_and-le (suc w) x y h =
    rw bit_and_halves (omega (arith, bit_and-le w (x / 2) (y / 2) (omega (arith, pow-suc 2 w))))

-- The digits of a number that a multiple of `2 ^ k` has too.
pub bit_and-shifted : (k x q : ℕ) → bit_and x (q * 2 ^ k) ≡ bit_and (x / 2 ^ k) q * 2 ^ k
bit_and-shifted zero x q =
    let e : q * 2 ^ 0 ≡ q = omega arith in
    let d : x / 2 ^ 0 ≡ x = omega arith in rw (e, d) (omega arith)
bit_and-shifted (suc k) x q =
    let e : (q * 2 ^ suc k) / 2 ≡ q * 2 ^ k = omega (arith, ap (λ t. q * t) (pow-suc 2 k)) in
    let d : (q * 2 ^ suc k) % 2 ≡ 0 = omega (arith, ap (λ t. q * t) (pow-suc 2 k)) in
    let h : x / 2 ^ suc k ≡ x / 2 / 2 ^ k =
      ap (λ t. x / t) (omega (arith, pow-suc 2 k)) ∙ sym (div-div-eq-div-mul x 2 (2 ^ k)) in
    bit_and_halves x (q * 2 ^ suc k)
    ∙ (rw (e, d, h, bit_and-shifted k (x / 2) q, pow-suc 2 k) (grind arith))
