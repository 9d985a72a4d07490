-- ===== src/Base/Device.antt =====
-- Devices that answer: what a read of a port returns depends on all that happened before, and a read
-- changes the device. A device is a parameter, a state with the effects of a port's read and write and
-- of a delay. A call on it is a function on the state, `none` when fuel runs out.
use xanadu_os.Base.{ℕ, Bool, true, false, ◌≡◌, refl, Option, none, some, if◌then◌else◌}
use xanadu_os.Base.Words.{u8}

pub record Machine {ℓ} (D : Type ℓ) : Type ℓ where
  pub inb : (port : ℕ) → D → ℕ × D
  pub outb : (port value : ℕ) → D → D
  pub sleep_ms : (delay : ℕ) → D → D
  pub sleep_us : (delay : ℕ) → D → D
  -- The counter of the interrupts of the device.
  pub irq_tick : D → ℕ

abbrev pub Io {ℓ κ} : (D : Type ℓ) → Type κ → Type (ℓ ⊔ κ)
Io D A = D → Option (A × D)

pub data Done : Type 0 where
  done : Done

module _ {ℓ} {D : Type ℓ} where
  abbrev pub pure {κ} : {A : Type κ} → A → Io D A
  pure a d = some (a, d)

  abbrev pub out_of_fuel {κ} : {A : Type κ} → Io D A
  out_of_fuel d = none

  abbrev pub bind {κ κ'} :
      {A : Type κ} {B : Type κ'} → Option (A × D) → (A → Io D B) → Option (B × D)
  bind none f = none
  bind (some (a, d)) f = f a d

  infixl 5 ◌>>=◌ ◌>>◌
  abbrev pub ◌>>=◌ {κ κ'} : {A : Type κ} {B : Type κ'} → Io D A → (A → Io D B) → Io D B
  ◌>>=◌ r f d = bind (r d) f

  abbrev pub ◌>>◌ {κ κ'} : {A : Type κ} {B : Type κ'} → Io D A → Io D B → Io D B
  r >> k = r >>= λ _. k

  -- A call ends, with a result and a state that satisfy a predicate.
  pub data Ends {κ κ'} {A : Type κ} (P : A → D → Type κ') : Option (A × D) → Type (ℓ ⊔ κ ⊔ κ') where
    ends : {a : A} {d : D} → P a d → Ends P (some (a, d))

  module _ {κ κ'} {A : Type κ} {P : A → D → Type κ'} where
    pub Ends-bind {μ μ'} :
        {B : Type μ} {Q : B → D → Type μ'} {r : Option (A × D)} {f : A → Io D B}
        → Ends P r
        → ((a : A) (d : D) → P a d → Ends Q (f a d))
        → Ends Q (bind r f)
    Ends-bind (ends p) k = k _ _ p

    pub Ends-if :
        (x y : Io D A) (b : Bool) (d : D)
        → (b ≡ true → Ends P (x d))
        → (b ≡ false → Ends P (y d))
        → Ends P ((if b then x else y) d)
    Ends-if x y true d p q = p refl
    Ends-if x y false d p q = q refl

    pub Ends_inv : {r : Option (A × D)} → Ends P r → (a : A) × (d : D) × (r ≡ some (a, d)) × P a d
    Ends_inv (ends p) = (_, _, refl, p)

    pub Ends_weaken {μ} :
        {Q : A → D → Type μ} {r : Option (A × D)}
        → Ends P r
        → ((a : A) (d : D) → P a d → Q a d)
        → Ends Q r
    Ends_weaken (ends p) k = ends (k _ _ p)

module _ {ℓ} {D : Type ℓ} (m : Machine D) where
  abbrev pub read : (port : ℕ) → Io D ℕ
  read port d = some (u8 (m.inb port d).0, (m.inb port d).1)

  abbrev pub send : (port value : ℕ) → Io D Done
  send port value d = some (done, m.outb port value d)

  abbrev pub delay : (ms : ℕ) → Io D Done
  delay ms d = some (done, m.sleep_ms ms d)

  abbrev pub delay_us : (us : ℕ) → Io D Done
  delay_us us d = some (done, m.sleep_us us d)

  abbrev pub tick : Io D ℕ
  tick d = some (m.irq_tick d, d)
