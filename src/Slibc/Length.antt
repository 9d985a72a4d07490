-- ===== src/Slibc/Length.antt =====
-- `strnlen` and `strlen`.
use xanadu_os.Base.{
  ℕ, zero, suc, ◌+◌, ◌-◌, ◌≤◌, ◌<◌, ◌≡◌, ◌≢◌, ◌⊎◌, inl, inr, arith, some, ◌==◌, Bool-cases, ==_iff,
}
use xanadu_os.Base.Memory.{Words}
use xanadu_os.Slibc.{strnlen_loop, strnlen, strlen_loop, strlen}

-- `r` is the place of the first NUL byte from `i` on, or `end` if there is none before it.
pub record IsLength (str : Words) (i end r : ℕ) : Type 0 where
  pub from : i ≤ r
  pub to : r ≤ end
  pub chars : (j : ℕ) → i ≤ j → j < r → str j ≢ 0
  pub stop : (r ≡ end) ⊎ (str r ≡ 0)

IsLength-back :
    (str : Words) (i end r : ℕ) → str i ≢ 0 → IsLength str (i + 1) end r → IsLength str i end r
IsLength-back str i end r h l = record {
  from = omega (arith, l.from);
  to = l.to;
  chars = λ j a b. ground (arith, l.chars j);
  stop = l.stop;
}

strnlen_loop-IsLength :
    (rounds i end : ℕ) (str : Words)
    → i + rounds ≡ end
    → IsLength str i end (strnlen_loop rounds i str)
unfolding strnlen_loop
strnlen_loop-IsLength zero i end str e = record {
  from = omega arith;
  to = omega arith;
  chars = λ j a b. absurd (omega arith);
  stop = inl (omega arith);
}
strnlen_loop-IsLength (suc n) i end str e = elim (Bool-cases (str i == 0)) [
  | inl nul ↦ rw nul (record {
    from = omega arith;
    to = omega arith;
    chars = λ j a b. absurd (omega arith);
    stop = inr ((==_iff (str i) 0).0 nul);
  })
  | inr char ↦ rw char (
      IsLength-back str i end (strnlen_loop n (i + 1) str) (ground arith)
        (strnlen_loop-IsLength n (i + 1) end str (omega arith)))
]

-- `strnlen` is the number of bytes before the first NUL, and at most the given length.
pub strnlen-IsLength : (str : Words) (len : ℕ) → IsLength str 0 len (strnlen str len)
unfolding strnlen
strnlen-IsLength str len = strnlen_loop-IsLength len 0 len str (omega arith)

strlen_loop_lem :
    (fuel i n : ℕ) (str : Words)
    → n - i < fuel
    → i ≤ n
    → ((j : ℕ) → i ≤ j → j < n → str j ≢ 0)
    → str n ≡ 0
    → strlen_loop fuel i str ≡ some n
unfolding strlen_loop
strlen_loop_lem zero i n str h le chars nul = absurd (omega arith)
strlen_loop_lem (suc f) i n str h le chars nul = elim (Bool-cases (i == n)) [
  | inl here ↦ ground arith
  | inr before ↦ ground (
    arith,
    chars i,
    strlen_loop_lem f (i + 1) n str (ground arith) (ground arith) (λ j a b. chars j (omega arith) b)
        nul,
  )
]

-- `strlen` of a string whose first NUL stands at `n` ends, with the length `n`.
pub strlen_lem :
    (fuel n : ℕ) (str : Words)
    → n < fuel
    → ((j : ℕ) → j < n → str j ≢ 0)
    → str n ≡ 0
    → strlen fuel str ≡ some n
unfolding strlen
strlen_lem fuel n str h chars nul =
    strlen_loop_lem fuel 0 n str (omega arith) (omega arith) (λ j a b. chars j b) nul
