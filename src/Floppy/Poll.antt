-- ===== src/Floppy/Poll.antt =====
-- The loops that poll the controller end, and what they have seen then.
use xanadu_os.Base.{
  Bool-cases, ℕ, zero, suc, ◌+◌, ◌*◌, ◌≤◌, ◌<◌, ◌≡◌, ◌⊎◌, inl, inr, refl, ap, sym, ◌∙◌, true, false,
  arith, some, ltb, leb, ◌==◌,
}
use mathlib.Core.Path.{subst}
use xanadu_os.Base.Words.{u8}
use xanadu_os.Base.Memory.{Words}
use xanadu_os.Base.Device.{Machine, Ends, ends, Ends-bind, Ends-if, Ends_inv, Ends_weaken}
use xanadu_os.Floppy.{
  wait_loop, floppy_wait, floppy_read, send_params, floppy_write_cmd, irq_loop, floppy_irq_wait,
  floppy_sense_interrupt, takes_bytes, timeout_ms, floppy_timeout, floppy_fault, main_status_reg,
  data_fifo, is_negative,
}

module _ {ℓ} {D : Type ℓ} (m : Machine D) (base : ℕ) where
  -- The state behind `n` rounds of a wait: in each the status is read, and 10 milliseconds pass.
  pub rounds_on : (n : ℕ) → D → D
  rounds_on zero d = d
  rounds_on (suc n) d = rounds_on n (m.sleep_ms 10 (m.inb (base + main_status_reg) d).1)

  -- The status that round `k` tests, when `msr` is that of the first.
  pub status : (msr : ℕ) → D → (k : ℕ) → ℕ
  unfolding rounds_on
  status msr d zero = msr
  status msr d (suc k) = u8 (m.inb (base + main_status_reg) (rounds_on k d)).0

  status_next :
      (msr : ℕ) (d : D) (k : ℕ)
      → let next = m.inb (base + main_status_reg) d in
        status (u8 next.0) (m.sleep_ms 10 next.1) k ≡ status msr d (suc k)
  unfolding status rounds_on
  status_next msr d zero = refl
  status_next msr d (suc k) = refl

  -- The controller is busy in each of `n` rounds.
  pub Busy : (n msr : ℕ) → D → Type 0
  Busy n msr d = (k : ℕ) → k < n → takes_bytes (status msr d k) ≡ false

  Busy-next :
      (n msr : ℕ) (d : D)
      → takes_bytes msr ≡ false
      → (let next = m.inb (base + main_status_reg) d in Busy n (u8 next.0) (m.sleep_ms 10 next.1))
      → Busy (suc n) msr d
  unfolding Busy status
  Busy-next n msr d first later zero l = first
  Busy-next n msr d first later (suc k) l =
      ap takes_bytes (sym (status_next msr d k)) ∙ later k (omega (arith, l))

  -- A wait with `left` rounds behind its first: a round finds a controller that takes bytes, with only
  -- busy rounds before; or all rounds find it busy, and the last ends behind its read.
  pub Waits : (left msr : ℕ) → D → ℕ → D → Type ℓ
  Waits left msr d ret d' =
      (n : ℕ) × Busy n msr d
      × (((ret ≡ 0) × (n ≤ left) × (takes_bytes (status msr d n) ≡ true) × (d' ≡ rounds_on n d))
          ⊎ ((ret ≡ 1)
              × (n ≡ suc left)
              × (d' ≡ (m.inb (base + main_status_reg) (rounds_on left d)).1)))

  Waits-next :
      (left msr ret : ℕ) (d d' : D)
      → takes_bytes msr ≡ false
      → (let next = m.inb (base + main_status_reg) d in
          Waits left (u8 next.0) (m.sleep_ms 10 next.1) ret d')
      → Waits (suc left) msr d ret d'
  unfolding Waits rounds_on
  Waits-next left msr ret d d' first (n, busy, inl (zero_ret, l, takes, at)) = (
    suc n,
    Busy-next n msr d first busy,
    inl (zero_ret, omega (arith, l), ap takes_bytes (sym (status_next msr d n)) ∙ takes, at),
  )
  Waits-next left msr ret d d' first (n, busy, inr (one, e, at)) =
      (suc n, Busy-next n msr d first busy, inr (one, ap suc e, at))

  no_round : (msr : ℕ) (d : D) → Busy 0 msr d
  unfolding Busy
  no_round msr d k l = absurd (omega (arith, l))

  one_round : (msr : ℕ) (d : D) → takes_bytes msr ≡ false → Busy 1 msr d
  unfolding Busy status
  one_round msr d busy zero l = busy
  one_round msr d busy (suc k) l = absurd (omega (arith, l))

  wait_loop-Waits :
      (left fuel msr ticks : ℕ) (d : D)
      → ticks + 10 * suc left ≡ 30000
      → suc left ≤ fuel
      → Ends (Waits left msr d) (wait_loop m fuel base msr ticks d)
  unfolding wait_loop Waits rounds_on status
  wait_loop-Waits left zero msr ticks d t h = absurd (omega (arith, h))
  wait_loop-Waits zero (suc f) msr ticks d t h =
      Ends-if _ _ (takes_bytes msr) d
        (λ y. ends (0, no_round msr d, inl (refl, omega arith, y, refl)))
        (λ busy.
          Ends-if _ _ (leb timeout_ms (ticks + 10)) (m.inb (base + main_status_reg) d).1
            (λ late. ends (1, one_round msr d busy, inr (refl, refl, refl)))
            (λ early. absurd (ground (arith, early, t))))
  wait_loop-Waits (suc left) (suc f) msr ticks d t h =
      let next = m.inb (base + main_status_reg) d in
      Ends-if _ _ (takes_bytes msr) d
        (λ y. ends (0, no_round msr d, inl (refl, omega arith, y, refl)))
        (λ busy.
          Ends-if _ _ (leb timeout_ms (ticks + 10)) next.1
            (λ late. absurd (ground (arith, late, t)))
            (λ early.
              Ends_weaken
                (wait_loop-Waits left f (u8 next.0) (ticks + 10) (m.sleep_ms 10 next.1)
                  (omega (arith, t)) (omega (arith, h)))
                (λ ret d' w. Waits-next left msr ret d d' busy w)))

  -- `floppy_wait`, which reads the status once before its rounds.
  pub Polled : D → ℕ → D → Type ℓ
  Polled d = let first = m.inb (base + main_status_reg) d in Waits 2999 (u8 first.0) first.1

  pub floppy_wait-Polled :
      (fuel : ℕ) (d : D) → 3000 ≤ fuel → Ends (Polled d) (floppy_wait m fuel base d)
  unfolding floppy_wait Polled
  floppy_wait-Polled fuel d h =
      let first = m.inb (base + main_status_reg) d in
      wait_loop-Waits 2999 fuel (u8 first.0) 0 first.1 (omega arith) h

  pub result_of_wait : (ret : ℕ) (d d' : D) → Polled d ret d' → (ret ≡ 0) ⊎ (ret ≡ 1)
  unfolding Polled Waits
  result_of_wait ret d d' (n, busy, inl ok) = inl ok.0
  result_of_wait ret d d' (n, busy, inr late) = inr late.0

  -- The parameters of a command from the `i`-th on, `n` of them: each is sent behind a wait that
  -- succeeds, and the first wait that fails ends the command with -1.
  pub data Sends (args : Words) : (i n : ℕ) → D → ℕ → D → Type ℓ where
    all_sent : {i : ℕ} {d : D} → Sends args i 0 d 0 d
    timed_out : {i n : ℕ} {d d' : D} → Polled d 1 d' → Sends args i (suc n) d floppy_timeout d'
    sent :
        {i n ret : ℕ} {d d' d'' : D}
        → Polled d 0 d'
        → Sends args (i + 1) n (m.outb (base + data_fifo) (u8 (args i)) d') ret d''
        → Sends args i (suc n) d ret d''

module _ {ℓ} {D : Type ℓ} (m : Machine D) where
  -- A call that ends, with any result.
  pub Any : ℕ → D → Type ℓ
  Any ret d = d ≡ d

  -- A read of the data register ends: with a byte, or negative when the wait is too long.
  pub Byte : ℕ → D → Type 0
  Byte ret d = (ret < 256) ⊎ (ret ≡ floppy_timeout)

  pub floppy_read-Byte :
      (fuel base : ℕ) (d : D) → 3000 ≤ fuel → Ends Byte (floppy_read m fuel base d)
  unfolding floppy_read Byte
  floppy_read-Byte fuel base d h = Ends-bind (floppy_wait-Polled m base fuel d h) (λ late d' p.
      Ends-if _ _ (late == 0) d' (λ y. ends (inl (omega arith))) (λ n. ends (inr refl)))

  -- A command ends: with 0, with the fault of a controller that does not take it, or with a timeout.
  pub Status : ℕ → D → Type 0
  Status ret d = (ret ≡ 0) ⊎ (ret ≡ floppy_fault) ⊎ (ret ≡ floppy_timeout)

  result_of_params :
      (base : ℕ) (args : Words) (i n : ℕ) (d : D) (ret : ℕ) (d' : D)
      → Sends m base args i n d ret d'
      → (ret ≡ 0) ⊎ (ret ≡ floppy_timeout)
  result_of_params base args i n d ret d' all_sent = inl refl
  result_of_params base args i n d ret d' (timed_out p) = inr refl
  result_of_params base args i n d ret d' (sent {n = k} p s) =
      result_of_params base args (i + 1) k _ ret d' s

  send_params-Sends :
      (fuel base n i : ℕ) (args : Words) (d : D)
      → 3000 ≤ fuel
      → Ends (Sends m base args i n d) (send_params m fuel base n i args d)
  unfolding send_params
  send_params-Sends fuel base zero i args d h = ends all_sent
  send_params-Sends fuel base (suc n) i args d h =
      Ends-bind (floppy_wait-Polled m base fuel d h) (λ late d' p.
        let result = result_of_wait m base late d d' p in
        Ends-if _ _ (late == 0) d'
          (λ y.
            let ok : late ≡ 0 = ground (arith, y) in
            Ends_weaken
              (send_params-Sends fuel base n (i + 1) args
                (m.outb (base + data_fifo) (u8 (args i)) d') h)
              (λ ret e s. sent (subst (λ r. Polled m base d r d') ok p) s))
          (λ x.
            let late_is : late ≡ 1 = ground (arith, x, result) in
            ends (timed_out (subst (λ r. Polled m base d r d') late_is p))))

  pub floppy_write_cmd-Status :
      (fuel base cmd n : ℕ) (args : Words) (d : D)
      → 3000 ≤ fuel
      → Ends Status (floppy_write_cmd m fuel base cmd n args d)
  unfolding floppy_write_cmd Status
  floppy_write_cmd-Status fuel base cmd n args d h =
      Ends-if _ _ (takes_bytes (u8 (m.inb (base + main_status_reg) d).0)) _
        (λ y. Ends_weaken (send_params-Sends fuel base n 0 args _ h) (λ ret e s.
          elim (result_of_params base args 0 n _ ret e s) [ inl z ↦ inl z | inr t ↦ inr (inr t) ]))
        (λ b. ends (inr (inl refl)))

  irq_loop-Ends :
      (fuel init ticks : ℕ) (d : D)
      → ticks ≤ 30000
      → 30000 < ticks + 10 * fuel
      → Ends Any (irq_loop m fuel init ticks d)
  unfolding irq_loop Any
  irq_loop-Ends zero init ticks d t h = absurd (omega (arith, t, h))
  irq_loop-Ends (suc f) init ticks d t h =
      Ends-if _ _ (m.irq_tick d == init) d
        (λ y.
          Ends-if _ _ (ltb timeout_ms (ticks + 10)) (m.sleep_ms 10 d) (λ late. ends refl)
            (λ early.
              irq_loop-Ends f init (ticks + 10) _ (ground (arith, early)) (omega (arith, h))))
        (λ n. ends refl)

  pub floppy_irq_wait-Ends :
      (fuel init : ℕ) (d : D) → 3001 ≤ fuel → Ends Any (floppy_irq_wait m fuel init d)
  unfolding floppy_irq_wait
  floppy_irq_wait-Ends fuel init d h = irq_loop-Ends fuel init 0 d (omega arith) (omega (arith, h))

  pub floppy_sense_interrupt-Ends :
      (fuel base : ℕ) (d : D) → 3000 ≤ fuel → Ends Any (floppy_sense_interrupt m fuel base d)
  unfolding floppy_sense_interrupt Any
  floppy_sense_interrupt-Ends fuel base d h =
      Ends-bind (floppy_write_cmd-Status fuel base 8 0 (λ i. 0) d h) (λ ret d1 s.
        Ends-if _ _ (ret == 0) d1
          (λ y. Ends-bind (floppy_read-Byte fuel base d1 h) (λ val d2 b.
            Ends-if _ _ (is_negative val) d2 (λ n. ends refl)
              (λ p.
                Ends-bind (floppy_read-Byte fuel base d2 h)
                  (λ lh d3 c. Ends-if _ _ (is_negative lh) d3 (λ n. ends refl) (λ q. ends refl)))))
          (λ n. ends refl))

  -- `floppy_write_cmd`, with 3000 rounds for each wait. To a controller that takes bytes it sends the
  -- command, and then the parameters in order, each behind a wait that succeeds; it returns 0 when all
  -- are sent, and -1 at the first wait that times out. For any other controller it returns -2, and
  -- nothing is written.
  pub floppy_write_cmd_lem :
      (fuel base cmd n : ℕ) (args : Words) (d : D)
      → 3000 ≤ fuel
      → let first = m.inb (base + main_status_reg) d in
        (ret : ℕ) × (d' : D) × (floppy_write_cmd m fuel base cmd n args d ≡ some (ret, d'))
        × (((takes_bytes (u8 first.0) ≡ true)
              × Sends m base args 0 n (m.outb (base + data_fifo) (u8 cmd) first.1) ret d')
            ⊎ ((takes_bytes (u8 first.0) ≡ false) × (ret ≡ floppy_fault) × (d' ≡ first.1)))
  unfolding floppy_write_cmd
  floppy_write_cmd_lem fuel base cmd n args d h =
      let first = m.inb (base + main_status_reg) d in
      let started = m.outb (base + data_fifo) (u8 cmd) first.1 in
      elim (Bool-cases (takes_bytes (u8 first.0))) [
        | inl takes ↦
            let (ret, d', result, sends) =
              Ends_inv (send_params-Sends fuel base n 0 args started h) in
            (ret, d', rw takes result, inl (takes, sends))
        | inr busy ↦ (floppy_fault, first.1, rw busy refl, inr (busy, refl, refl))
      ]

  -- `floppy_wait` ends, with 3000 rounds. It returns 0 at the first status by which the controller takes
  -- bytes, or 1 when the statuses of 3000 rounds in a row, 10 milliseconds apart, all find it busy.
  pub floppy_wait_lem :
      (fuel base : ℕ) (d : D)
      → 3000 ≤ fuel
      → (ret : ℕ) × (d' : D) × (floppy_wait m fuel base d ≡ some (ret, d')) × Polled m base d ret d'
  floppy_wait_lem fuel base d h = Ends_inv (floppy_wait-Polled m base fuel d h)
