-- ===== src/Floppy/Reset.antt =====
-- How the set-up of the controller ends.
use xanadu_os.Base.{
  ℕ, zero, suc, ◌+◌, ◌/◌, ◌^◌, ◌≤◌, ◌≡◌, ◌≢◌, refl, ap, ◌∙◌, not, arith, some, ◌==◌, if◌then◌else◌,
}
use Prim.Native.Nat.{bit_and}
use xanadu_os.Base.Words.{u16}
use xanadu_os.Base.Memory.{Words, write}
use xanadu_os.Base.Device.{Machine, Io, Ends, ends, Ends-bind, Ends-if, Ends_inv}
use xanadu_os.Floppy.{
  calibrate_rounds, floppy_calibrate, configure, floppy_reset, check_sense, config_reg, cmd_specify,
}
use xanadu_os.Floppy.Poll.{
  floppy_write_cmd-Status, floppy_irq_wait-Ends, floppy_sense_interrupt-Ends,
}

module _ {ℓ} {D : Type ℓ} (m : Machine D) where
  -- The calibration reports 1, or -1.
  Failed : ℕ → D → Type 0
  Failed ret d = ret ≢ 0

  check_sense-Failed :
      (base sense : ℕ) (continue : Io D ℕ) (d : D)
      → ((e : D) → Ends Failed (continue e))
      → Ends Failed (check_sense m base sense continue d)
  check_sense-Failed base sense continue d k =
      Ends-if _ _ (not (bit_and (u16 sense / 2 ^ 8) 0xC0 == 0xC0)) d (λ y. k d)
        (λ n. Ends-if _ _ (bit_and (u16 sense) 0xFF == 0) d (λ y. k _) (λ z. k d))

  calibrate_rounds-Failed :
      (fuel base n : ℕ) (d : D) → 3001 ≤ fuel → Ends Failed (calibrate_rounds m fuel base n d)
  unfolding calibrate_rounds Failed
  calibrate_rounds-Failed fuel base zero d h = ends (omega arith)
  calibrate_rounds-Failed fuel base (suc n) d h =
      Ends-bind (floppy_write_cmd-Status m fuel base 7 1 (λ i. 0) d (omega (arith, h)))
        (λ sent d1 s.
          Ends-if _ _ (sent == 0) d1
            (λ y. Ends-bind (floppy_irq_wait-Ends m fuel (m.irq_tick d) d1 h) (λ late d2 a.
              Ends-if _ _ (late == 0) d2
                (λ z.
                  Ends-bind (floppy_sense_interrupt-Ends m fuel base d2 (omega (arith, h)))
                    (λ sense d3 b.
                      Ends-if _ _ (sense == 0xFFFFFFFF) d3
                        (λ w. calibrate_rounds-Failed fuel base n d3 h)
                        (λ v.
                          check_sense-Failed base sense (calibrate_rounds m fuel base n) d3
                            (λ e. calibrate_rounds-Failed fuel base n e h))))
                (λ z. calibrate_rounds-Failed fuel base n d2 h)))
            (λ n. ends (omega arith)))

  Refused : ℕ → D → Type 0
  Refused ret d = ret ≡ 0xFFFFFFFF

  floppy_calibrate-Failed :
      (fuel base : ℕ) (d : D) → 3001 ≤ fuel → Ends Failed (floppy_calibrate m fuel base d)
  unfolding floppy_calibrate
  floppy_calibrate-Failed fuel base d h = calibrate_rounds-Failed fuel base 3 _ h

  configure-Refused :
      (fuel base type : ℕ) (stack : Words) (d : D)
      → 3001 ≤ fuel
      → Ends Refused (configure m fuel base type stack d)
  unfolding configure Refused Failed
  configure-Refused fuel base type stack d h =
      Ends-bind
        (floppy_write_cmd-Status m fuel (base + config_reg) (if type == 5 then 3 else 0) 0 stack d
          (omega (arith, h)))
        (λ config d1 s.
          Ends-if _ _ (config == 0xFFFFFFFF) d1 (λ y. ends refl)
            (λ n.
              Ends-bind
                (floppy_write_cmd-Status m fuel (base + cmd_specify) 2 0xDF (write stack 0 2) d1
                  (omega (arith, h)))
                (λ specified d2 t.
                  Ends-if _ _ (specified == 0xFFFFFFFF) d2 (λ y. ends refl)
                    (λ n. Ends-bind (floppy_calibrate-Failed fuel base d2 h) (λ failed d3 f.
                      Ends-if _ _ (failed == 0) d3 (λ y. absurd (ground (arith, f, y)))
                        (λ z. ends refl))))))

  floppy_reset-Refused :
      (fuel base type : ℕ) (stack : Words) (d : D)
      → 3001 ≤ fuel
      → Ends Refused (floppy_reset m fuel base type stack d)
  unfolding floppy_reset Refused
  floppy_reset-Refused fuel base type stack d h =
      Ends-bind (floppy_sense_interrupt-Ends m fuel base _ (omega (arith, h))) (λ sensed d1 a.
        Ends-if _ _ (sensed == 0xFFFFFFFF) d1 (λ y. ends refl)
          (λ n. configure-Refused fuel base type stack d1 h))

  -- `floppy_reset` never succeeds: with 3001 rounds for each loop it ends on every device, and returns
  -- -1, since `floppy_calibrate` reports a failure also after a round in which it has found cylinder 0.
  pub floppy_reset_lem :
      (fuel base type : ℕ) (stack : Words) (d : D)
      → 3001 ≤ fuel
      → (d' : D) × (floppy_reset m fuel base type stack d ≡ some (0xFFFFFFFF, d'))
  unfolding Refused
  floppy_reset_lem fuel base type stack d h =
      let (ret, d', result, refused) = Ends_inv (floppy_reset-Refused fuel base type stack d h) in
      (d', result ∙ ap (λ r. some (r, d')) refused)
