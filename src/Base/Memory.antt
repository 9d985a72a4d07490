-- ===== src/Base/Memory.antt =====
-- An array of words, read and written through a pointer: a function of the index. C does not
-- check an index, so an array has no length here; where the program allocates too little, the
-- words past the end are those of whatever lies behind it.
use xanadu_os.Base.{ℕ, ◌≡◌, ◌≢◌, ap, false, arith, ◌==◌, ==_refl, if◌then◌else◌}

abbrev pub Words : Type 0
Words = ℕ → ℕ

unfoldable pub write : Words → ℕ → ℕ → Words
write m i v j = if i == j then v else m j

pub write_same : (m : Words) (i v : ℕ) → write m i v i ≡ v
unfolding write
write_same m i v = ground arith

pub write_other : (m : Words) (i v j : ℕ) → i ≢ j → write m i v j ≡ m j
unfolding write
write_other m i v j h = ground arith

-- An array of anything else.
abbrev pub update {ℓ} : {A : Type ℓ} → (ℕ → A) → ℕ → A → ℕ → A
update f i v j = if i == j then v else f j

pub update_same {ℓ} : {A : Type ℓ} (f : ℕ → A) (i : ℕ) (v : A) → update f i v i ≡ v
update_same f i v = ap (λ b. if b then v else f i) (==_refl i)

pub update_other {ℓ} :
    {A : Type ℓ} (f : ℕ → A) (i : ℕ) (v : A) (j : ℕ) → i ≢ j → update f i v j ≡ f j
update_other f i v j h =
    let differ : (i == j) ≡ false = ground (arith, h) in ap (λ b. if b then v else f j) differ
