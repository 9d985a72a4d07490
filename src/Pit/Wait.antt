-- ===== src/Pit/Wait.antt =====
-- The delay loop: how many interrupts of the timer it waits for.
use xanadu_os.Base.{
  ℕ, zero, suc, ◌+◌, ◌-◌, ◌^◌, ◌≤◌, ◌<◌, ◌≡◌, ◌∙◌, refl, sym, ap, true, false, Bool, Option, some,
  List, [], ◌∷◌, ◌++◌, arith, ltb, leb, if◌then◌else◌, ltb→lt, lt→ltb, le→ltb_false, le→leb,
  lt→leb_false, ltb_false→le, Bool-cases, inl, inr,
}
use mathlib.Core.List.{append_assoc}
use xanadu_os.Base.Words.{u32, sub32}
use xanadu_os.Pit.{wait_while, wait_from, wait_ticks}

-- The interrupts of the timer in a list.
unfoldable pub timers : List Bool → ℕ
timers [] = 0
timers (timer ∷ irqs) = (if timer then 1 else 0) + timers irqs

timers-append : (a b : List Bool) → timers (a ++ b) ≡ timers a + timers b
unfolding timers
timers-append [] b = omega arith
timers-append (timer ∷ a) b = omega (arith, timers-append a b)

-- A wait from a tick ends behind a first part of the interrupts with `n` of the timer.
pub Ends : (wait : Option (ℕ × List Bool)) → (irqs : List Bool) → (tick n : ℕ) → Type 0
Ends wait irqs tick n =
    (passed : List Bool) × (left : List Bool) × (irqs ≡ passed ++ left)
    × (timers passed ≡ n)
    × (wait ≡ some (u32 (tick + n), left))

same : (tick : ℕ) → tick < 2 ^ 32 → u32 (tick + 0) ≡ tick
same tick h = omega (arith, h)

stop :
    (cond : ℕ → Bool)
    → (irqs : List Bool) → (tick : ℕ) → tick < 2 ^ 32
    → cond tick ≡ false
    → Ends (wait_while cond irqs tick) irqs tick 0
unfolding wait_while Ends timers
stop cond [] tick h c = ([], [], refl, refl, rw (c, same tick h) refl)
stop cond (timer ∷ irqs) tick h c = ([], timer ∷ irqs, refl, refl, rw (c, same tick h) refl)

idle :
    (cond : ℕ → Bool)
    → (irqs : List Bool) → (tick n : ℕ) → cond tick ≡ true
    → Ends (wait_while cond irqs tick) irqs tick n
    → Ends (wait_while cond (false ∷ irqs) tick) (false ∷ irqs) tick n
unfolding wait_while Ends timers
idle cond irqs tick n c (passed, left, split, count, ends) =
    (false ∷ passed, left, ap (λ l. false ∷ l) split, omega (arith, count), rw (c, ends) refl)

next_tick : (tick n : ℕ) → u32 (u32 (tick + 1) + n) ≡ u32 (tick + suc n)
next_tick tick n = omega arith

ticked :
    (cond : ℕ → Bool)
    → (irqs : List Bool) → (tick n : ℕ) → cond tick ≡ true
    → Ends (wait_while cond irqs (u32 (tick + 1))) irqs (u32 (tick + 1)) n
    → Ends (wait_while cond (true ∷ irqs) tick) (true ∷ irqs) tick (suc n)
unfolding wait_while Ends timers
ticked cond irqs tick n c (passed, left, split, count, ends) = (
  true ∷ passed,
  left,
  ap (λ l. true ∷ l) split,
  omega (arith, count),
  rw (c, ends, next_tick tick n) refl,
)

-- A wait whose condition holds for `n` ticks and not for the next.
wait :
    (cond : ℕ → Bool)
    → (irqs : List Bool) → (tick n : ℕ) → tick < 2 ^ 32
    → ((k : ℕ) → k < n → cond (u32 (tick + k)) ≡ true)
    → cond (u32 (tick + n)) ≡ false
    → n ≤ timers irqs
    → Ends (wait_while cond irqs tick) irqs tick n
unfolding timers
wait cond irqs tick zero h go end enough = stop cond irqs tick h (ap cond (sym (same tick h)) ∙ end)
wait cond [] tick (suc n) h go end enough = absurd (omega (arith, enough))
wait cond (false ∷ irqs) tick (suc n) h go end enough =
    idle cond irqs tick (suc n) (ap cond (sym (same tick h)) ∙ go 0 (omega arith))
      (wait cond irqs tick (suc n) h go end (omega (arith, enough)))
wait cond (true ∷ irqs) tick (suc n) h go end enough =
    ticked cond irqs tick n (ap cond (sym (same tick h)) ∙ go 0 (omega arith)) (
      wait cond irqs (u32 (tick + 1)) n (omega arith)
        (λ k lt. ap cond (next_tick tick k) ∙ go (suc k) (omega (arith, lt)))
        (ap cond (next_tick tick n) ∙ end) (omega (arith, enough)))

below :
    (delay : ℕ)
    → (irqs : List Bool) → (tick : ℕ) → tick + delay < 2 ^ 32
    → delay ≤ timers irqs
    → Ends (wait_from delay (some (tick, irqs))) irqs tick delay
unfolding wait_from
below delay irqs tick h enough =
    wait (λ t. ltb t (u32 (tick + delay))) irqs tick delay (omega arith)
      (λ k lt. lt→ltb (u32 (tick + k)) (u32 (tick + delay)) (omega (arith, lt)))
      (le→ltb_false (u32 (tick + delay)) (u32 (tick + delay)) (omega arith)) enough

-- Two waits, the second from the tick 0 at which the first ends.
joined :
    (delay n : ℕ)
    → (irqs : List Bool) → (tick : ℕ) → (first : Option (ℕ × List Bool)) → u32 (tick + n) ≡ 0
    → delay < 2 ^ 32
    → n + delay ≤ timers irqs
    → Ends first irqs tick n
    → Ends (wait_from delay first) irqs tick (n + delay)
unfolding Ends
joined delay n irqs tick first zero_at h enough (passed, left, split, count, ends) =
    let count_left : timers irqs ≡ timers passed + timers left =
      ap timers split ∙ timers-append passed left in
    let (p, l, split', count', ends') =
      below delay left 0 (omega (arith, h)) (omega (arith, enough, count, count_left)) in
    (
      passed ++ p,
      l,
      split ∙ ap (λ x. passed ++ x) split' ∙ sym (append_assoc passed p l),
      omega (arith, timers-append passed p, count, count'),
      ap (wait_from delay) (ends ∙ ap (λ t. some (t, left)) zero_at)
          ∙ ends'
          ∙ ap (λ t. some (t, l)) (omega (arith, zero_at)),
    )

overflowing :
    (delay : ℕ)
    → (irqs : List Bool) → (tick : ℕ) → delay < 2 ^ 32
    → tick < 2 ^ 32
    → 2 ^ 32 ≤ tick + delay
    → delay < timers irqs
    → Ends
        (wait_from (sub32 delay (2 ^ 32 - 1 - tick)) (wait_while (λ t. leb tick t) irqs tick))
        irqs
        tick
        (2 ^ 32 - tick + sub32 delay (2 ^ 32 - 1 - tick))
overflowing delay irqs tick h at over enough =
    joined (sub32 delay (2 ^ 32 - 1 - tick)) (2 ^ 32 - tick) irqs tick
      (wait_while (λ t. leb tick t) irqs tick) (omega arith) (omega arith) (omega arith)
      (wait (λ t. leb tick t) irqs tick (2 ^ 32 - tick) at
        (λ k lt. le→leb tick (u32 (tick + k)) (omega (arith, lt)))
        (lt→leb_false tick (u32 (tick + (2 ^ 32 - tick))) (omega arith)) (omega arith))

-- `wait_ticks` ends once more than `delay` interrupts of the timer come, whatever other interrupts
-- come between them: it waits for `delay` of them, or for one more when the counter overflows.
pub wait_ticks_lem :
    (delay : ℕ)
    → (irqs : List Bool) → (tick : ℕ) → delay < 2 ^ 32
    → tick < 2 ^ 32
    → delay < timers irqs
    → Ends
        (wait_ticks delay irqs tick)
        irqs
        tick
        (if ltb (tick + delay) (2 ^ 32) then delay else delay + 1)
unfolding wait_ticks
wait_ticks_lem delay irqs tick h at enough = elim (Bool-cases (ltb (tick + delay) (2 ^ 32))) [
  | inl fits ↦
      rw
        (
          fits,
          le→ltb_false (u32 (tick + delay)) tick
              (omega (arith, ltb→lt (tick + delay) (2 ^ 32) fits)),
        )
        (below delay irqs tick (ltb→lt (tick + delay) (2 ^ 32) fits) (omega arith))
  | inr over ↦
      let large : 2 ^ 32 ≤ tick + delay = ltb_false→le (tick + delay) (2 ^ 32) over in
      let total : 2 ^ 32 - tick + sub32 delay (2 ^ 32 - 1 - tick) ≡ delay + 1 =
        omega (arith, large) in
      rw (over, lt→ltb (u32 (tick + delay)) tick (omega (arith, large)), sym total)
        (overflowing delay irqs tick h at large enough)
]
