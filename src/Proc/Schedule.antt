-- ===== src/Proc/Schedule.antt =====
-- What a call of the scheduler does to the tasks of the list.
use xanadu_os.Base.{
  ℕ, zero, suc, ◌<◌, ◌≡◌, ◌≢◌, ◌∙◌, refl, sym, ap, Bool, true, false, ◌||◌, some, List, [], ◌∷◌,
  ◌==◌, if◌then◌else◌, arith, ==_refl, Bool-cases, inl, inr, length,
}
use mathlib.Core.Path.{subst}
use xanadu_os.Base.Memory.{update}
use xanadu_os.Proc.{Task, running, is_empty, Procs, schedule_from, schedule}
use xanadu_os.Proc.Links.{is_in, Chain, SameLinks, relinked-Chain}

-- An empty task becomes a running one.
pub started : Task → Task
started t = if is_empty t.state then record t { state = running } else t

started_twice : (t : Task) → started (started t) ≡ started t
unfolding started
started_twice t = elim (Bool-cases (is_empty t.state)) [
  | inl e ↦ rw e refl
  | inr n ↦ rw (n, n) refl
]

-- The listed tasks are started, the others unchanged, and `ready_schedule` is set when one was empty.
pub Scheduled : (l : List ℕ) → (before after : Procs) → Type 0
Scheduled l before after =
    ((a : ℕ) → after.tasks a ≡ (if is_in a l then started (before.tasks a) else before.tasks a))
    × (before.ready_schedule ≡ true → after.ready_schedule ≡ true)
    × ((a : ℕ)
        → is_in a l ≡ true
        → is_empty (before.tasks a).state ≡ true
        → after.ready_schedule ≡ true)

-- One round of the loop.
pub round : (task : ℕ) → Procs → Procs
round task s =
    if is_empty (s.tasks task).state
    then record s {
      tasks = update s.tasks task (record (s.tasks task) { state = running });
      ready_schedule = true;
    }
    else s

round_at :
    (task : ℕ) (s : Procs) (a : ℕ)
    → (round task s).tasks a ≡ (if task == a then started (s.tasks a) else s.tasks a)
unfolding round started
round_at task s a = elim (Bool-cases (task == a)) [
  | inl same ↦
      let here : task ≡ a = ground (arith, same) in
      subst (λ b. (round task s).tasks b ≡ (if task == b then started (s.tasks b) else s.tasks b))
        here
        (elim (Bool-cases (is_empty (s.tasks task).state)) [
          | inl e ↦ rw (e, ==_refl task) refl
          | inr n ↦ rw (n, ==_refl task) refl
        ])
  | inr other ↦ elim (Bool-cases (is_empty (s.tasks task).state)) [
    | inl e ↦ rw (e, other) refl
    | inr n ↦ rw (n, other) refl
  ]
]

round_ready :
    (task : ℕ) (s : Procs)
    → (s.ready_schedule ≡ true → (round task s).ready_schedule ≡ true)
      × (is_empty (s.tasks task).state ≡ true → (round task s).ready_schedule ≡ true)
unfolding round
round_ready task s = elim (Bool-cases (is_empty (s.tasks task).state)) [
  | inl e ↦ (λ r. rw e refl, λ r. rw e refl)
  | inr n ↦ (λ r. rw n r, λ r. absurd (ground (arith, r, n)))
]

pub round_links : (task : ℕ) (s : Procs) (a : ℕ) → SameLinks ((round task s).tasks a) (s.tasks a)
unfolding round
round_links task s a = elim (Bool-cases (is_empty (s.tasks task).state)) [
  | inl e ↦ elim (Bool-cases (task == a)) [
    | inl same ↦
        let here : task ≡ a = ground (arith, same) in
        rw (e, same) (ap (λ x. (s.tasks x).next) here, ap (λ x. (s.tasks x).prev) here)
    | inr other ↦ rw (e, other) (refl, refl)
  ]
  | inr n ↦ rw n (refl, refl)
]

both :
    (p q : Bool) (t : Task)
    → (if q then started (if p then started t else t) else (if p then started t else t))
      ≡ (if p || q then started t else t)
both true true t = started_twice t
both true false t = refl
both false true t = refl
both false false t = refl

later : (a : ℕ) (l : List ℕ) (s r : Procs) → Scheduled l (round a s) r → Scheduled (a ∷ l) s r
unfolding Scheduled
later a l s r (tasks, kept, ready) = (
  λ b.
      tasks b
      ∙ ap (λ u. if is_in b l then started u else u) (round_at a s b)
      ∙ both (a == b) (is_in b l) (s.tasks b),
  λ h. kept ((round_ready a s).0 h),
  λ b i e. elim (Bool-cases (a == b)) [
    | inl same ↦
        let here : b ≡ a = ground (arith, same) in
        kept ((round_ready a s).1 (subst (λ x. is_empty (s.tasks x).state ≡ true) here e))
    | inr other ↦
        let at : (round a s).tasks b ≡ s.tasks b =
          round_at a s b ∙ ap (λ p. if p then started (s.tasks b) else s.tasks b) other in
        ready b (ground (arith, i, other)) (ap (λ u. is_empty u.state) at ∙ e)
  ],
)

round-task_list : (task : ℕ) (s : Procs) → (round task s).task_list ≡ s.task_list
unfolding round
round-task_list task s = elim (Bool-cases (is_empty (s.tasks task).state)) [
  | inl e ↦ rw e refl
  | inr n ↦ rw n refl
]

-- A round keeps every list.
pub round-Chain :
    (task : ℕ) (s : Procs) (l : List ℕ)
    → Chain s.tasks 0 s.task_list l
    → Chain (round task s).tasks 0 (round task s).task_list l
round-Chain task s l c =
    subst (λ x. Chain (round task s).tasks 0 x l) (sym (round-task_list task s))
      (relinked-Chain s.tasks (round task s).tasks 0 s.task_list l (λ b i. round_links task s b) c)

pub schedule_step :
    (n task : ℕ) (s : Procs)
    → task ≢ 0
    → schedule_from (suc n) task s ≡ schedule_from n ((round task s).tasks task).next (round task s)
unfolding schedule_from round
schedule_step n task s nz =
    let some_task : (task == 0) ≡ false = ground (arith, nz) in rw some_task refl

schedule_from_lem :
    (l : List ℕ) (fuel prev task : ℕ) (s : Procs)
    → length l < fuel
    → Chain s.tasks prev task l
    → (r : Procs) × (schedule_from fuel task s ≡ some r) × Scheduled l s r
unfolding Chain schedule_from Scheduled
schedule_from_lem l zero prev task s h c = absurd (omega (arith, h))
schedule_from_lem [] (suc n) prev task s h c =
    (s, rw c refl, ((λ a. refl), (λ r. r), λ a i. absurd (ground (arith, i))))
schedule_from_lem (a ∷ l) (suc n) prev task s h (e, nz, p, c) =
    let links = round_links a s a in
    let tail =
      relinked-Chain s.tasks (round a s).tasks a (s.tasks a).next l (λ b i. round_links a s b) c in
    let (r, eq, out) =
      schedule_from_lem l n a ((round a s).tasks a).next (round a s) (omega (arith, h))
        (subst (λ x. Chain (round a s).tasks a x l) (sym links.0) tail) in
    (r, ap (λ x. schedule_from (suc n) x s) e ∙ schedule_step n a s nz ∙ eq, later a l s r out)

-- `schedule` ends when the list of tasks is linked, with one unit of fuel more than it has tasks:
-- every empty task of the list is running, all other tasks are as before, and `ready_schedule` is set
-- if there was an empty one.
pub schedule_lem :
    (l : List ℕ) (fuel : ℕ) (s : Procs)
    → length l < fuel
    → Chain s.tasks 0 s.task_list l
    → (r : Procs) × (schedule fuel s ≡ some r) × Scheduled l s r
unfolding schedule
schedule_lem l fuel s h c = schedule_from_lem l fuel 0 s.task_list s h c
