-- ===== src/Ps2/Wait.antt =====
-- The waits of the controller.
use xanadu_os.Base.{
  ℕ, zero, suc, ◌≤◌, ◌<◌, ◌≡◌, ◌⊎◌, inl, inr, refl, ap, ◌∙◌, Bool, true, false, arith, some,
}
use xanadu_os.Base.Words.{u8}
use xanadu_os.Base.Device.{Machine, Done, done, Ends, ends, Ends-if, Ends_inv, Ends_weaken}
use xanadu_os.Ps2.{wait_rounds, mouse_wait, is_ready, time_out}

only_done : (r : Done) → r ≡ done
only_done done = refl

all_earlier :
    (p : ℕ → Bool) (n : ℕ)
    → p 0 ≡ false
    → ((k : ℕ) → suc k < n → p (suc k) ≡ false)
    → (k : ℕ) → suc k < suc n
    → p k ≡ false
all_earlier p n first later zero l = first
all_earlier p n first later (suc k) l = later k (omega (arith, l))

module _ {ℓ} {D : Type ℓ} (m : Machine D) where
  -- The state behind `n` reads of the status.
  pub after_reads : (n : ℕ) → D → D
  after_reads zero d = d
  after_reads (suc n) d = after_reads n (m.inb 0x64 d).1

  -- A wait reads the status `n` times, at most `rounds` times: none but the last shows the controller
  -- ready, and the last does, unless it is that of the last round.
  pub Waited : (rounds a_type : ℕ) → D → Done → D → Type ℓ
  Waited rounds a_type d r d' =
      (n : ℕ) × (n ≤ rounds)
      × (d' ≡ after_reads n d)
      × ((k : ℕ) → suc k < n → is_ready a_type (u8 (m.inb 0x64 (after_reads k d)).0) ≡ false)
      × ((n ≡ rounds)
          ⊎ ((k : ℕ) × (n ≡ suc k)
              × (is_ready a_type (u8 (m.inb 0x64 (after_reads k d)).0) ≡ true)))

  wait_rounds-Waited :
      (rounds a_type : ℕ) (d : D) → Ends (Waited rounds a_type d) (wait_rounds m rounds a_type d)
  unfolding wait_rounds Waited after_reads
  wait_rounds-Waited zero a_type d =
      ends (0, omega arith, refl, λ k l. absurd (omega (arith, l)), inl refl)
  wait_rounds-Waited (suc n) a_type d =
      let stat = u8 (m.inb 0x64 d).0 in
      let d1 = (m.inb 0x64 d).1 in
      Ends-if _ _ (is_ready a_type stat) d1
        (λ y. ends (1, omega arith, refl, λ k l. absurd (omega (arith, l)), inr (0, refl, y)))
        (λ busy.
          Ends_weaken (wait_rounds-Waited n a_type d1) (λ r d' (reads, few, state, earlier, last). (
            suc reads,
            omega (arith, few),
            state,
            all_earlier (λ k. is_ready a_type (u8 (m.inb 0x64 (after_reads k d)).0)) reads busy
                earlier,
            elim last [ inl e ↦ inl (ap suc e) | inr (k, e, ready) ↦ inr (suc k, ap suc e, ready) ],
          )))

  -- `mouse_wait` ends after at most 100000 reads of the status, none but the last of which shows the
  -- controller ready; the last does, unless the time is out, which the caller is not told.
  pub mouse_wait_lem :
      (a_type : ℕ) (d : D)
      → (n : ℕ) × (d' : D) × (mouse_wait m a_type d ≡ some (done, d'))
        × (n ≤ 100000)
        × (d' ≡ after_reads n d)
        × ((k : ℕ) → suc k < n → is_ready a_type (u8 (m.inb 0x64 (after_reads k d)).0) ≡ false)
        × ((n ≡ 100000)
            ⊎ ((k : ℕ) × (n ≡ suc k)
                × (is_ready a_type (u8 (m.inb 0x64 (after_reads k d)).0) ≡ true)))
  unfolding mouse_wait Waited
  mouse_wait_lem a_type d =
      let (r, d', result, (n, few, state, earlier, last)) =
        Ends_inv (wait_rounds-Waited time_out a_type d) in
      (n, d', result ∙ ap (λ x. some (x, d')) (only_done r), few, state, earlier, last)
