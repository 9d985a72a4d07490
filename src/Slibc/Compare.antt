-- ===== src/Slibc/Compare.antt =====
-- `strneq` compares the strings that the pointers hold, cut at the length; `strcmp` adds up the
-- differences of their characters.
use xanadu_os.Base.{
  ℕ, zero, suc, ◌+◌, ◌^◌, ◌≤◌, ◌<◌, ◌≡◌, ◌≢◌, ◌⊎◌, inl, ◌∙◌, refl, arith, List, [], ◌∷◌, some, ◌==◌,
  if◌then◌else◌, ap,
}
use xanadu_os.Base.Words.{u32, sub32}
use xanadu_os.Base.Memory.{Words}
use xanadu_os.Slibc.{to_int, strneq_loop, strneq, strcmp_loop, strcmp}

-- The characters of the string from `i` on, at most `n` of them.
abbrev pub text : (n i : ℕ) → Words → List ℕ
text zero i str = []
text (suc n) i str = let rest = text n (i + 1) str in if str i == 0 then [] else str i ∷ rest

strneq_loop-zero :
    (n i : ℕ) (str cmp : Words) → strneq_loop n i str cmp ≡ 0 → text n i str ≡ text n i cmp
unfolding strneq_loop
strneq_loop-zero zero i str cmp e = refl
strneq_loop-zero (suc n) i str cmp e = ground (arith, strneq_loop-zero n (i + 1) str cmp)

strneq_loop-one :
    (n i : ℕ) (str cmp : Words)
    → (strneq_loop n i str cmp ≡ 0)
      ⊎ ((strneq_loop n i str cmp ≡ 1) × (text n i str ≢ text n i cmp))
unfolding strneq_loop
strneq_loop-one zero i str cmp = inl refl
strneq_loop-one (suc n) i str cmp = ground (arith, strneq_loop-one n (i + 1) str cmp)

-- `strneq` of two strings is 0 when their first `len` characters are the same text, and 1 when they
-- are not.
pub strneq_lem :
    (str cmp : Words) (len : ℕ)
    → ((strneq (some str) (some cmp) len ≡ 0) × (text len 0 str ≡ text len 0 cmp))
      ⊎ ((strneq (some str) (some cmp) len ≡ 1) × (text len 0 str ≢ text len 0 cmp))
unfolding strneq
strneq_lem str cmp zero = inl (refl, refl)
strneq_lem str cmp (suc n) =
    ground (arith, strneq_loop-zero (suc n) 0 str cmp, strneq_loop-one (suc n) 0 str cmp)

abbrev pub total : (n i : ℕ) → Words → ℕ
total zero i str = 0
total (suc n) i str = str i + total n (i + 1) str

-- One round of the loop keeps the difference of the sums.
round_diff :
    (diff a b : ℕ)
    → a < 128
    → b < 128
    → u32 (u32 (diff + sub32 (to_int a) (to_int b)) + b) ≡ u32 (diff + a)
round_diff diff a b h k = ground arith

strcmp_loop-total :
    (n fuel i z : ℕ) (str cmp : Words) (diff : ℕ)
    → i + n ≡ z
    → n < fuel
    → ((j : ℕ) → i ≤ j → j < z → (str j ≢ 0) × (cmp j ≢ 0))
    → ((str z ≡ 0) ⊎ (cmp z ≡ 0))
    → ((j : ℕ) → (str j < 128) × (cmp j < 128))
    → (r : ℕ) × (strcmp_loop fuel i str cmp diff ≡ some r)
      × (r < 2 ^ 32)
      × (u32 (r + total (suc n) i cmp) ≡ u32 (diff + total (suc n) i str))
unfolding strcmp_loop
strcmp_loop-total n zero i z str cmp diff e h chars end ascii = absurd (omega arith)
strcmp_loop-total zero (suc f) i z str cmp diff e h chars end ascii =
    let here : i ≡ z = omega arith in
    (
      u32 (diff + sub32 (to_int (str i)) (to_int (cmp i))),
      rw here (ground arith),
      omega arith,
      omega (arith, round_diff diff (str i) (cmp i) (ascii i).0 (ascii i).1),
    )
strcmp_loop-total (suc n) (suc f) i z str cmp diff e h chars end ascii =
    let d = u32 (diff + sub32 (to_int (str i)) (to_int (cmp i))) in
    let (r, run, lt, sum) =
      strcmp_loop-total n f (i + 1) z str cmp d (omega arith) (omega arith)
        (λ j a b. chars j (omega arith) b) end ascii in
    let (p, q) = chars i (omega arith) (omega arith) in
    (
      r,
      ground (arith, run),
      lt,
      omega (arith, sum, round_diff diff (str i) (cmp i) (ascii i).0 (ascii i).1),
    )

-- `strcmp` of two ASCII strings, the first NUL of either at `n`, ends with the sum of the characters
-- of the one less that of the other, modulo 2^32.
pub strcmp-total :
    (n fuel : ℕ) (str cmp : Words)
    → n < fuel
    → ((j : ℕ) → j < n → (str j ≢ 0) × (cmp j ≢ 0))
    → ((str n ≡ 0) ⊎ (cmp n ≡ 0))
    → ((j : ℕ) → (str j < 128) × (cmp j < 128))
    → (r : ℕ) × (strcmp fuel (some str) (some cmp) ≡ some r)
      × (r < 2 ^ 32)
      × (u32 (r + total (suc n) 0 cmp) ≡ u32 (total (suc n) 0 str))
unfolding strcmp
strcmp-total n fuel str cmp h chars end ascii =
    let (r, run, lt, sum) =
      strcmp_loop-total n fuel 0 n str cmp 0 (omega arith) h (λ j a b. chars j b) end ascii in
    (r, run, lt, omega (arith, sum))

-- So strings whose characters have the same sum compare as equal, whatever their order.
pub strcmp_same_total :
    (n fuel : ℕ) (str cmp : Words)
    → n < fuel
    → ((j : ℕ) → j < n → (str j ≢ 0) × (cmp j ≢ 0))
    → ((str n ≡ 0) ⊎ (cmp n ≡ 0))
    → ((j : ℕ) → (str j < 128) × (cmp j < 128))
    → total (suc n) 0 str ≡ total (suc n) 0 cmp
    → strcmp fuel (some str) (some cmp) ≡ some 0
strcmp_same_total n fuel str cmp h chars end ascii same =
    let (r, run, lt, sum) = strcmp-total n fuel str cmp h chars end ascii in
    let zero_diff : r ≡ 0 = omega arith in run ∙ ap some zero_diff
