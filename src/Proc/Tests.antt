-- ===== src/Proc/Tests.antt =====
-- The first kernel task, a task forked from it and one started behind it.
use xanadu_os.Base.{ℕ, ◌≡◌, refl, true, false, some, [], ◌∷◌, ◌==◌, if◌then◌else◌, arith}
use xanadu_os.Proc.{
  Task, empty, running, idle, Procs, fork, schedule, doubly_ll_remove, multiproc_init,
}
use xanadu_os.Proc.Links.{is_in, Chain, doubly_ll_remove-Chain}
use xanadu_os.Proc.Schedule.{Scheduled, schedule_lem}
use xanadu_os.Proc.Steps.{Linked, initial, fork-Chain, Reachable-Linked}

-- Three tasks, the second empty.
abbrev task_at : ℕ → Task
task_at a =
    if a == 0x1000
    then record {
      pd = 1;
      state = running;
      id = 1000;
      buddy = 1;
      exec_node = 0;
      next = 0x2000;
      prev = 0;
    }
    else if a == 0x2000
    then record {
      pd = 1;
      state = empty;
      id = 1001;
      buddy = 1;
      exec_node = 0;
      next = 0x3000;
      prev = 0x1000;
    }
    else record { pd = 1; state = idle; id = 0; buddy = 1; exec_node = 0; next = 0; prev = 0x2000 }

abbrev three : Procs
three = record {
  tasks = task_at;
  task_list = 0x1000;
  cur_task = 0x1000;
  last_kernel_tid = 0;
  last_user_tid = 1001;
  ready_schedule = false;
}

linked : Chain task_at 0 0x1000 (0x1000 ∷ 0x2000 ∷ 0x3000 ∷ [])
unfolding Chain
linked = (refl, omega arith, refl, (refl, omega arith, refl, (refl, omega arith, refl, refl)))

from_second : Chain task_at 0x1000 0x2000 (0x2000 ∷ 0x3000 ∷ [])
unfolding Chain
from_second = (refl, omega arith, refl, (refl, omega arith, refl, refl))

-- The task before the removed one is lost.
doubly_ll_remove-Chain_example :
    Chain
      (doubly_ll_remove 0x2000 three).tasks
      0x1000
      (doubly_ll_remove 0x2000 three).task_list
      (0x3000 ∷ [])
doubly_ll_remove-Chain_example =
    doubly_ll_remove-Chain 0x2000 0x1000 three (0x3000 ∷ []) refl refl from_second

schedule_lem_example :
    (r : Procs) × (schedule 4 three ≡ some r) × Scheduled (0x1000 ∷ 0x2000 ∷ 0x3000 ∷ []) three r
schedule_lem_example = schedule_lem (0x1000 ∷ 0x2000 ∷ 0x3000 ∷ []) 4 three (omega arith) linked

fork-Chain_example :
    ((fork 0x4000 7 0 8 three).1 ≡ 0)
    × Chain
        (fork 0x4000 7 0 8 three).0.tasks
        0
        (fork 0x4000 7 0 8 three).0.task_list
        (0x1000 ∷ 0x2000 ∷ 0x3000 ∷ [])
    × ((a : ℕ)
        → is_in a (0x1000 ∷ 0x2000 ∷ 0x3000 ∷ []) ≡ true
        → (fork 0x4000 7 0 8 three).0.tasks a ≡ three.tasks a)
fork-Chain_example = fork-Chain 0x4000 7 0 8 three (0x1000 ∷ 0x2000 ∷ 0x3000 ∷ []) refl linked

abbrev nothing : Procs
nothing = record three { task_list = 0 }

Reachable-Linked_example : Linked (multiproc_init 0x5000 1 2 nothing)
Reachable-Linked_example =
    Reachable-Linked (multiproc_init 0x5000 1 2 nothing)
      (initial 0x5000 1 2 nothing (omega arith) refl)
