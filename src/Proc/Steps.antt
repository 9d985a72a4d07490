-- ===== src/Proc/Steps.antt =====
-- The steps that the processes take, and the list of tasks in every state that they reach.
use xanadu_os.Base.{
  ℕ, zero, suc, ◌≡◌, ◌≢◌, ◌∙◌, refl, sym, true, false, Option, none, some, List, [], ◌∷◌, leb, ◌==◌,
  arith, Bool-cases, inl, inr,
}
use mathlib.Core.Path.{subst}
use xanadu_os.Base.Memory.{update, update_other}
use xanadu_os.Proc.{
  Task, empty, Procs, Exit, panics, loops, switches, set_task, fork_task, fork, execve, spawned,
  removed, spawn_init, schedule, schedule_from, with_first, exit, switch_first, multiproc_init,
  doubly_ll_insert, doubly_ll_remove,
}
use xanadu_os.Proc.Links.{
  is_in, Chain, SameLinks, relinked-Chain, update-Chain, apart, same_task, first_removed,
  end_of_none, none_at_end, head_of_some, doubly_ll_insert-Chain,
}
use xanadu_os.Proc.Schedule.{round, round-Chain, schedule_step}

-- A task that the slab gives: not NULL and in no place of the list.
pub Unlisted : ℕ → Procs → Type 0
Unlisted new_task s =
    (new_task ≢ 0) × ((l : List ℕ) → Chain s.tasks 0 s.task_list l → is_in new_task l ≡ false)

pub Linked : Procs → Type 0
Linked s = (l : List ℕ) × Chain s.tasks 0 s.task_list l

-- What may happen to the processes. A task that exits is the first of the list.
pub data Step : Procs → Procs → Type 0 where
  forks :
      (new_task pd cloned buddy : ℕ) (s : Procs)
      → Unlisted new_task s
      → Step s (fork new_task pd cloned buddy s).0
  executes : (exec_node : ℕ) (s : Procs) → Step s (execve exec_node s).0
  spawns :
      (new_task pd cloned exec_node buddy : ℕ) (s r : Procs)
      → Unlisted new_task s
      → spawn_init new_task pd cloned exec_node buddy s ≡ switches r
      → Step s r
  schedules : (fuel : ℕ) (s r : Procs) → schedule fuel s ≡ some r → Step s r
  exits :
      (s r : Procs) → s.task_list ≢ 0 → s.cur_task ≡ s.task_list → exit s ≡ switches r → Step s r

-- The states that are reached from the first task on.
pub data Reachable : Procs → Type 0 where
  initial :
      (task kernel_pd kern_buddy : ℕ) (s : Procs)
      → task ≢ 0
      → s.task_list ≡ 0
      → Reachable (multiproc_init task kernel_pd kern_buddy s)
  then_step : (s r : Procs) → Reachable s → Step s r → Reachable r

-- `fork_task` changes the new task only.
fork_task-tasks :
    (new_task pd cloned : ℕ) (s : Procs) (a : ℕ)
    → new_task ≢ a
    → (fork_task new_task pd cloned s).0.tasks a ≡ s.tasks a
unfolding fork_task
fork_task-tasks new_task pd cloned s a h =
    let other : (new_task == a) ≡ false = ground (arith, h) in
    elim (Bool-cases (pd == 0)) [
      | inl z ↦ rw (z, other) refl
      | inr n ↦ elim (Bool-cases (leb 1000 (s.tasks s.cur_task).id)) [
        | inl u ↦ rw (n, u, other) refl
        | inr k ↦ rw (n, k, other) refl
      ]
    ]

fork_task-task_list :
    (new_task pd cloned : ℕ) (s : Procs)
    → (fork_task new_task pd cloned s).0.task_list ≡ s.task_list
unfolding fork_task
fork_task-task_list new_task pd cloned s = elim (Bool-cases (pd == 0)) [
  | inl z ↦ rw z refl
  | inr n ↦ elim (Bool-cases (leb 1000 (s.tasks s.cur_task).id)) [
    | inl u ↦ rw (n, u) refl
    | inr k ↦ rw (n, k) refl
  ]
]

fork_task-Chain :
    (new_task pd cloned : ℕ) (s : Procs) (l : List ℕ)
    → is_in new_task l ≡ false
    → Chain s.tasks 0 s.task_list l
    → Chain
        (fork_task new_task pd cloned s).0.tasks
        0
        (fork_task new_task pd cloned s).0.task_list
        l
fork_task-Chain new_task pd cloned s l out c =
    subst (λ x. Chain (fork_task new_task pd cloned s).0.tasks 0 x l)
      (sym (fork_task-task_list new_task pd cloned s))
      (relinked-Chain s.tasks (fork_task new_task pd cloned s).0.tasks 0 s.task_list l
        (λ a i. same_task (fork_task-tasks new_task pd cloned s a (apart new_task a l out i))) c)

-- `fork` reports success whatever `fork_task` reports, and the new task is in no list: the tasks of the
-- list, which are those that the scheduler looks at, are the same as before.
pub fork-Chain :
    (new_task pd cloned buddy : ℕ) (s : Procs) (l : List ℕ)
    → is_in new_task l ≡ false
    → Chain s.tasks 0 s.task_list l
    → ((fork new_task pd cloned buddy s).1 ≡ 0)
      × Chain
          (fork new_task pd cloned buddy s).0.tasks
          0
          (fork new_task pd cloned buddy s).0.task_list
          l
      × ((a : ℕ) → is_in a l ≡ true → (fork new_task pd cloned buddy s).0.tasks a ≡ s.tasks a)
unfolding fork
fork-Chain new_task pd cloned buddy s l out c =
    let s' = (fork_task new_task pd cloned s).0 in
    let t = record (s'.tasks new_task) { buddy = buddy } in
    (
      refl,
      update-Chain s'.tasks 0 s'.task_list l new_task t out
          (fork_task-Chain new_task pd cloned s l out c),
      λ a i.
          update_other s'.tasks new_task t a (apart new_task a l out i)
          ∙ fork_task-tasks new_task pd cloned s a (apart new_task a l out i),
    )

links :
    (tasks : ℕ → Task) (a : ℕ) (t : Task) (b : ℕ)
    → SameLinks t (tasks a)
    → SameLinks (update tasks a t b) (tasks b)
links tasks a t b same = elim (Bool-cases (a == b)) [
  | inl e ↦
      let here : a ≡ b = ground (arith, e) in rw e (subst (λ x. SameLinks t (tasks x)) here same)
  | inr n ↦ rw n (refl, refl)
]

execve-Linked : (exec_node : ℕ) (s : Procs) → Linked s → Linked (execve exec_node s).0
unfolding Linked execve
execve-Linked exec_node s (l, c) = elim (Bool-cases (exec_node == 0)) [
  | inl z ↦ rw z (l, c)
  | inr n ↦
      let t = record (s.tasks s.cur_task) { exec_node = exec_node; state = empty } in
      rw n (
        l,
        relinked-Chain s.tasks (update s.tasks s.cur_task t) 0 s.task_list l
            (λ a i. links s.tasks s.cur_task t a (refl, refl)) c,
      )
]

-- A result without a state needs no list.
LinkedIf : Option Procs → Type 0
LinkedIf none = 0 ≡ zero
LinkedIf (some r) = Linked r

LinkedAfter : Exit → Type 0
LinkedAfter panics = 0 ≡ zero
LinkedAfter loops = 0 ≡ zero
LinkedAfter (switches r) = Linked r

switch_first-Linked :
    (s : Procs) (l : List ℕ) → Chain s.tasks 0 s.task_list l → LinkedAfter (switch_first s)
unfolding Linked LinkedAfter
switch_first-Linked s l c = elim (Bool-cases (leb 1000 (s.tasks s.task_list).id)) [
  | inl u ↦ rw u (l, c)
  | inr k ↦ rw k refl
]

spawned-Linked :
    (new_task exec_node buddy : ℕ) (s : Procs) (ret : ℕ) (l : List ℕ)
    → new_task ≢ 0
    → is_in new_task l ≡ false
    → Chain s.tasks 0 s.task_list l
    → LinkedAfter (spawned new_task exec_node buddy s ret)
unfolding LinkedAfter spawned
spawned-Linked new_task exec_node buddy s ret l n out c =
    let task : Task = record (s.tasks new_task) {
      id = s.last_user_tid;
      state = empty;
      exec_node = exec_node;
      buddy = buddy;
    } in
    elim (Bool-cases (ret == 0)) [
      | inl z ↦ rw z (
          switch_first-Linked (doubly_ll_insert new_task (set_task s new_task task)) (new_task ∷ l)
            (doubly_ll_insert-Chain new_task (set_task s new_task task) l n out
              (update-Chain s.tasks 0 s.task_list l new_task task out c)))
      | inr e ↦ rw e refl
    ]

spawn_init-Linked :
    (new_task pd cloned exec_node buddy : ℕ) (s : Procs)
    → Unlisted new_task s
    → Linked s
    → LinkedAfter (spawn_init new_task pd cloned exec_node buddy s)
unfolding Linked spawn_init Unlisted
spawn_init-Linked new_task pd cloned exec_node buddy s (n, out) (l, c) =
    let forked = fork_task new_task pd cloned s in
    spawned-Linked new_task exec_node buddy forked.0 forked.1 l n (out l c)
      (fork_task-Chain new_task pd cloned s l (out l c) c)

removed-Linked : (s : Procs) (l : List ℕ) → Chain s.tasks 0 s.task_list l → LinkedAfter (removed s)
unfolding Linked LinkedAfter removed
removed-Linked s l c = elim (Bool-cases (s.task_list == 0)) [
  | inl z ↦ rw z refl
  | inr n ↦ elim (Bool-cases ((s.tasks s.task_list).next == 0)) [
    | inl z ↦ rw (n, z) refl
    | inr m ↦ rw (n, m) (switch_first-Linked s l c)
  ]
]

exit-Linked :
    (s : Procs) → s.cur_task ≡ s.task_list → s.task_list ≢ 0 → Linked s → LinkedAfter (exit s)
unfolding Linked exit
exit-Linked s first n ([], c) = absurd (n (end_of_none s.tasks 0 s.task_list c))
exit-Linked s first n (a ∷ l, c) =
    let head : s.task_list ≡ a = head_of_some s.tasks 0 s.task_list a l c in
    subst (λ m. LinkedAfter (removed (doubly_ll_remove m s))) (sym (first ∙ head))
      (removed-Linked (doubly_ll_remove a s) l
        (first_removed a s l (subst (λ h. Chain s.tasks 0 h (a ∷ l)) head c)))

multiproc_init-Linked :
    (task kernel_pd kern_buddy : ℕ) (s : Procs)
    → task ≢ 0
    → s.task_list ≡ 0
    → Linked (multiproc_init task kernel_pd kern_buddy s)
unfolding Linked multiproc_init
multiproc_init-Linked task kernel_pd kern_buddy s n e =
    let first = with_first task kernel_pd kern_buddy s in
    (
      task ∷ [],
      doubly_ll_insert-Chain task first [] n refl (none_at_end first.tasks 0 s.task_list e),
    )

schedule_from-Linked : (n task : ℕ) (s : Procs) → Linked s → LinkedIf (schedule_from n task s)
unfolding schedule_from LinkedIf Linked
schedule_from-Linked zero task s k = refl
schedule_from-Linked (suc n) task s (l, c) = elim (Bool-cases (task == 0)) [
  | inl z ↦ rw z (l, c)
  | inr m ↦ subst LinkedIf (sym (schedule_step n task s (ground (arith, m)))) (
      schedule_from-Linked n ((round task s).tasks task).next (round task s)
        (l, round-Chain task s l c))
]

schedule-Linked : (fuel : ℕ) (s : Procs) → Linked s → LinkedIf (schedule fuel s)
unfolding schedule
schedule-Linked fuel s k = schedule_from-Linked fuel s.task_list s k

next-Linked : (s r : Procs) → Step s r → Linked s → Linked r
unfolding Linked Unlisted LinkedIf LinkedAfter
next-Linked _ _ (forks new_task pd cloned buddy s u) (l, c) =
    (l, (fork-Chain new_task pd cloned buddy s l (u.1 l c) c).1)
next-Linked _ _ (executes exec_node s) k = execve-Linked exec_node s k
next-Linked _ _ (spawns new_task pd cloned exec_node buddy s r u e) k =
    subst LinkedAfter e (spawn_init-Linked new_task pd cloned exec_node buddy s u k)
next-Linked _ _ (schedules fuel s r e) k = subst LinkedIf e (schedule-Linked fuel s k)
next-Linked _ _ (exits s r n first e) k = subst LinkedAfter e (exit-Linked s first n k)

-- In every state that the processes reach from the first task by forks, executions, the start of the
-- first user task, calls of the scheduler and exits of the task at the front, the list of tasks is
-- linked both ways and ends.
pub Reachable-Linked : (s : Procs) → Reachable s → Linked s
Reachable-Linked _ (initial task kernel_pd kern_buddy s n e) =
    multiproc_init-Linked task kernel_pd kern_buddy s n e
Reachable-Linked _ (then_step s r reach step) = next-Linked s r step (Reachable-Linked s reach)
