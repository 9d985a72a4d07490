-- ===== src/Proc/Links.antt =====
-- The list of tasks as a chain of addresses that is linked both ways.
use xanadu_os.Base.{
  ℕ, ◌≡◌, ◌≢◌, ◌∙◌, refl, sym, ap, Bool, true, false, ◌||◌, List, [], ◌∷◌, ◌==◌, arith, ==_refl,
  Bool-cases, inl, inr,
}
use mathlib.Core.Path.{subst}
use xanadu_os.Base.Memory.{update, update_same, update_other}
use xanadu_os.Proc.{Task, Procs, set_prev, set_next, doubly_ll_insert, doubly_ll_remove}

abbrev pub is_in : ℕ → List ℕ → Bool
is_in a [] = false
is_in a (b ∷ l) = b == a || is_in a l

-- From `head` on the tasks are those at the addresses of the list, the last without a next one, each
-- with the one before it, the first with `prev`.
unfoldable pub Chain : (tasks : ℕ → Task) → (prev head : ℕ) → List ℕ → Type 0
Chain tasks prev head [] = head ≡ 0
Chain tasks prev head (a ∷ l) =
    (head ≡ a) × (a ≢ 0) × ((tasks a).prev ≡ prev) × Chain tasks a (tasks a).next l

-- The links of two tasks are the same.
abbrev pub SameLinks : (t u : Task) → Type 0
SameLinks t u = (t.next ≡ u.next) × (t.prev ≡ u.prev)

pub relinked-Chain :
    (tasks tasks' : ℕ → Task) (prev head : ℕ) (l : List ℕ)
    → ((a : ℕ) → is_in a l ≡ true → SameLinks (tasks' a) (tasks a))
    → Chain tasks prev head l
    → Chain tasks' prev head l
unfolding Chain
relinked-Chain tasks tasks' prev head [] same c = c
relinked-Chain tasks tasks' prev head (a ∷ l) same (h, n, p, c) =
    let here = same a (ground (arith, ==_refl a)) in
    let rest =
      relinked-Chain tasks tasks' a (tasks a).next l (λ b i. same b (ground (arith, i))) c in
    (h, n, here.1 ∙ p, subst (λ x. Chain tasks' a x l) (sym here.0) rest)

-- A task in the list and one that is not in it.
pub apart : (a b : ℕ) (l : List ℕ) → is_in a l ≡ false → is_in b l ≡ true → a ≢ b
apart a b l out i e = ground (arith, subst (λ x. is_in x l ≡ true) (sym e) i, out)

pub same_task : {t u : Task} → t ≡ u → SameLinks t u
same_task e = (ap (λ x. x.next) e, ap (λ x. x.prev) e)

-- A change of a task that is not in the list.
pub update-Chain :
    (tasks : ℕ → Task) (prev head : ℕ) (l : List ℕ) (a : ℕ) (t : Task)
    → is_in a l ≡ false
    → Chain tasks prev head l
    → Chain (update tasks a t) prev head l
update-Chain tasks prev head l a t out c =
    relinked-Chain tasks (update tasks a t) prev head l
      (λ b i. same_task (update_other tasks a t b (apart a b l out i))) c

-- A task is not behind another when the one before it is neither that nor behind that.
not_behind :
    (tasks : ℕ → Task) (prev head : ℕ) (l : List ℕ) (a z : ℕ)
    → prev ≢ z
    → is_in z l ≡ false
    → (tasks a).prev ≡ z
    → Chain tasks prev head l
    → is_in a l ≡ false
unfolding Chain
not_behind tasks prev head [] a z p out e c = refl
not_behind tasks prev head (b ∷ l) a z p out e (h, n, q, c) =
    let other : b ≢ a = λ s. p (sym q ∙ ap (λ x. (tasks x).prev) s ∙ e) in
    ground (
      arith,
      other,
      not_behind tasks b (tasks b).next l a z (ground (arith, out)) (ground (arith, out)) e c,
    )

zero_out :
    (tasks : ℕ → Task) (prev head : ℕ) (l : List ℕ) → Chain tasks prev head l → is_in 0 l ≡ false
unfolding Chain
zero_out tasks prev head [] c = refl
zero_out tasks prev head (a ∷ l) (h, n, p, c) =
    ground (arith, n, zero_out tasks a (tasks a).next l c)

set_prev_at :
    (tasks : ℕ → Task) (head a member : ℕ)
    → head ≡ a
    → a ≢ 0
    → set_prev tasks head member ≡ update tasks a (record (tasks a) { prev = member })
set_prev_at tasks head a member h n =
    let some_task : (a == 0) ≡ false = ground (arith, n) in rw (h, some_task) refl

-- A new task before another keeps what comes after each.
set_prev-next :
    (tasks : ℕ → Task) (head member a : ℕ) → (set_prev tasks head member a).next ≡ (tasks a).next
set_prev-next tasks head member a = elim (Bool-cases (head == 0)) [
  | inl z ↦ rw z refl
  | inr n ↦ elim (Bool-cases (head == a)) [
    | inl same ↦ rw (n, same) (ap (λ x. (tasks x).next) (ground (arith, same)))
    | inr other ↦ rw (n, other) refl
  ]
]

-- A chain whose first task is given another one before it.
linked_behind :
    (tasks : ℕ → Task) (head old member : ℕ) (l : List ℕ)
    → is_in old l ≡ false
    → Chain tasks old head l
    → Chain (set_prev tasks head member) member head l
unfolding Chain
linked_behind tasks head old member [] out c = rw c refl
linked_behind tasks head old member (a ∷ l) out (h, n, p, c) =
    let t = record (tasks a) { prev = member } in
    let at : set_prev tasks head member ≡ update tasks a t = set_prev_at tasks head a member h n in
    let new : update tasks a t a ≡ t = update_same tasks a t in
    let apart : is_in a l ≡ false =
      not_behind tasks a (tasks a).next l a old (ground (arith, out)) (ground (arith, out)) p c in
    let rest = update-Chain tasks a (tasks a).next l a t apart c in
    subst (λ ts. Chain ts member head (a ∷ l)) (sym at)
      (
        h,
        n,
        ap (λ u. u.prev) new,
        subst (λ x. Chain (update tasks a t) a x l) (sym (ap (λ u. u.next) new)) rest,
      )

-- Inserting a task that is not in the list puts it in front: the list stays linked both ways.
pub doubly_ll_insert-Chain :
    (member : ℕ) (s : Procs) (l : List ℕ)
    → member ≢ 0
    → is_in member l ≡ false
    → Chain s.tasks 0 s.task_list l
    → Chain (doubly_ll_insert member s).tasks 0 (doubly_ll_insert member s).task_list (member ∷ l)
unfolding doubly_ll_insert Chain
doubly_ll_insert-Chain member s l m out c =
    let t1 = update s.tasks member (record (s.tasks member) { next = s.task_list }) in
    let t2 = set_prev t1 s.task_list member in
    let first =
      update-Chain s.tasks 0 s.task_list l member (record (s.tasks member) { next = s.task_list })
        out c in
    let second =
      linked_behind t1 s.task_list 0 member l (zero_out t1 0 s.task_list l first) first in
    let t = record (t2 member) { prev = 0 } in
    let third = update-Chain t2 member s.task_list l member t out second in
    let new : update t2 member t member ≡ t = update_same t2 member t in
    let kept : (t2 member).next ≡ s.task_list =
      set_prev-next t1 s.task_list member member
      ∙ ap (λ u. u.next)
          (update_same s.tasks member (record (s.tasks member) { next = s.task_list })) in
    (
      refl,
      m,
      ap (λ u. u.prev) new,
      subst (λ x. Chain (update t2 member t) member x l) (sym (ap (λ u. u.next) new ∙ kept)) third,
    )

set_prev-prev :
    (tasks : ℕ → Task) (head a p : ℕ) → (tasks a).prev ≡ p → (set_prev tasks head p a).prev ≡ p
set_prev-prev tasks head a p e = elim (Bool-cases (head == 0)) [
  | inl z ↦ rw z e
  | inr n ↦ elim (Bool-cases (head == a)) [
    | inl same ↦ rw (n, same) refl
    | inr other ↦ rw (n, other) e
  ]
]

set_next-next :
    (tasks : ℕ → Task) (p a b : ℕ) → (tasks a).next ≡ b → (set_next tasks p b a).next ≡ b
set_next-next tasks p a b e = elim (Bool-cases (p == 0)) [
  | inl z ↦ rw z e
  | inr n ↦ elim (Bool-cases (p == a)) [
    | inl same ↦ rw (n, same) refl
    | inr other ↦ rw (n, other) e
  ]
]

set_next-Chain :
    (tasks : ℕ → Task) (prev head : ℕ) (l : List ℕ) (p b : ℕ)
    → is_in p l ≡ false
    → Chain tasks prev head l
    → Chain (set_next tasks p b) prev head l
set_next-Chain tasks prev head l p b out c = elim (Bool-cases (p == 0)) [
  | inl z ↦ rw z c
  | inr n ↦ rw n (update-Chain tasks prev head l p (record (tasks p) { next = b }) out c)
]

-- Removing a task: the list is what stood behind it, linked to the task before it. For the first task
-- this is the list without it; for any other the tasks before it are no longer in the list.
pub doubly_ll_remove-Chain :
    (member prev : ℕ) (s : Procs) (l : List ℕ)
    → is_in member l ≡ false
    → is_in prev l ≡ false
    → Chain s.tasks prev member (member ∷ l)
    → Chain (doubly_ll_remove member s).tasks prev (doubly_ll_remove member s).task_list l
unfolding doubly_ll_remove Chain
doubly_ll_remove-Chain member prev s l out outp (h, n, p, c) =
    let b = (s.tasks member).next in
    let t1 = set_prev s.tasks b (s.tasks member).prev in
    let first : Chain t1 prev b l =
      subst (λ x. Chain (set_prev s.tasks b x) prev b l) (sym p)
        (linked_behind s.tasks b member prev l out c) in
    let before : (t1 member).prev ≡ prev =
      set_prev-prev s.tasks b member (s.tasks member).prev refl ∙ p in
    let next : (t1 member).next ≡ b = set_prev-next s.tasks b (s.tasks member).prev member in
    let t2 = set_next t1 (t1 member).prev (t1 member).next in
    let second : Chain t2 prev b l =
      set_next-Chain t1 prev b l (t1 member).prev (t1 member).next
        (ap (λ x. is_in x l) before ∙ outp) first in
    subst (λ x. Chain t2 prev x l)
      (sym (set_next-next t1 (t1 member).prev member (t1 member).next refl ∙ next)) second

-- The first task of a list is not in it again.
pub first_removed :
    (member : ℕ) (s : Procs) (l : List ℕ)
    → Chain s.tasks 0 member (member ∷ l)
    → Chain (doubly_ll_remove member s).tasks 0 (doubly_ll_remove member s).task_list l
unfolding Chain
first_removed member s l (h, n, p, c) =
    let zero = zero_out s.tasks member (s.tasks member).next l c in
    doubly_ll_remove-Chain member 0 s l
      (not_behind s.tasks member (s.tasks member).next l member 0 n zero p c) zero (h, n, p, c)

pub end_of_none : (tasks : ℕ → Task) (prev head : ℕ) → Chain tasks prev head [] → head ≡ 0
unfolding Chain
end_of_none tasks prev head c = c

pub none_at_end : (tasks : ℕ → Task) (prev head : ℕ) → head ≡ 0 → Chain tasks prev head []
unfolding Chain
none_at_end tasks prev head e = e

pub head_of_some :
    (tasks : ℕ → Task) (prev head a : ℕ) (l : List ℕ) → Chain tasks prev head (a ∷ l) → head ≡ a
unfolding Chain
head_of_some tasks prev head a l c = c.0
