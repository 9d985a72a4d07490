-- ===== src/Proc.antt =====
-- proc/proc.c, the tasks and their list, with the list macros of lib/kernel.h. Tasks are in memory by
-- their address, 0 for NULL. What the allocators and the clone of a directory give is a parameter. The
-- registers, the stacks, the release of a task's memory and the switch to it, which is assembly, are
-- left out; so are `load_elf` and the messages.
pub mod Links
pub mod Steps
pub mod Schedule
mod Tests
use xanadu_os.Base.{
  ℕ, zero, suc, ◌+◌, ◌-◌, ◌%◌, ◌^◌, Bool, true, false, not, Option, none, some, leb, ◌==◌,
  if◌then◌else◌,
}
use xanadu_os.Base.Words.{u32}
use xanadu_os.Base.Memory.{update}
use xanadu_os.Base.Errors.{enomem, enoent}

pub data TaskState : Type 0 where
  empty : TaskState
  running : TaskState
  idle : TaskState
  dead : TaskState

abbrev pub is_empty : TaskState → Bool
is_empty empty = true
is_empty running = false
is_empty idle = false
is_empty dead = false

-- `struct task`.
pub record Task : Type 0 where
  pub pd : ℕ
  pub state : TaskState
  pub id : ℕ
  pub buddy : ℕ
  pub exec_node : ℕ
  pub next : ℕ
  pub prev : ℕ

pub record Procs : Type 0 where
  pub tasks : ℕ → Task
  pub task_list : ℕ
  pub cur_task : ℕ
  pub last_kernel_tid : ℕ
  pub last_user_tid : ℕ
  pub ready_schedule : Bool

abbrev pub set_task : Procs → (addr : ℕ) → Task → Procs
set_task s addr t = record s { tasks = update s.tasks addr t }

abbrev pub set_prev : (tasks : ℕ → Task) → (addr prev : ℕ) → ℕ → Task
set_prev tasks addr prev =
    if addr == 0 then tasks else update tasks addr (record (tasks addr) { prev = prev })

abbrev pub set_next : (tasks : ℕ → Task) → (addr next : ℕ) → ℕ → Task
set_next tasks addr next =
    if addr == 0 then tasks else update tasks addr (record (tasks addr) { next = next })

-- The macro with `task_list`; the member is not NULL.
pub doubly_ll_insert : (member : ℕ) → Procs → Procs
doubly_ll_insert member s =
    let t1 = update s.tasks member (record (s.tasks member) { next = s.task_list }) in
    let t2 = set_prev t1 s.task_list member in
    record s { tasks = update t2 member (record (t2 member) { prev = 0 }); task_list = member }

pub doubly_ll_remove : (member : ℕ) → Procs → Procs
doubly_ll_remove member s =
    let t1 = set_prev s.tasks (s.tasks member).next (s.tasks member).prev in
    let t2 = set_next t1 (t1 member).prev (t1 member).next in
    record s { tasks = t2; task_list = (t2 member).next }

-- The fields of the first task; its other fields are what the slab had in them.
abbrev pub with_first : (task kernel_pd kern_buddy : ℕ) → Procs → Procs
with_first task kernel_pd kern_buddy s = record s {
  tasks =
      update s.tasks task
        (record (s.tasks task) { pd = kernel_pd; buddy = kern_buddy; id = 0; state = running });
  cur_task = task;
  last_kernel_tid = 0;
  last_user_tid = 1000;
}

pub multiproc_init : (task kernel_pd kern_buddy : ℕ) → Procs → Procs
unfolding doubly_ll_insert
multiproc_init task kernel_pd kern_buddy s =
    doubly_ll_insert task (with_first task kernel_pd kern_buddy s)

-- The number of the new task, and the counters behind it.
abbrev pub number_task : (new_task : ℕ) → (copy : Task) → Procs → Procs
number_task new_task copy s =
    if leb 1000 copy.id
    then record s {
      tasks = update s.tasks new_task (record copy { id = u32 (s.last_user_tid + 1) });
      last_user_tid = u32 (s.last_user_tid + 1);
    }
    else record s {
      tasks = update s.tasks new_task (record copy { id = u32 (s.last_kernel_tid + 1) });
      last_kernel_tid = u32 (s.last_kernel_tid + 1);
    }

-- `pd` is the new directory, 0 when there is no memory; `cloned` is the result of the clone.
pub fork_task : (new_task pd cloned : ℕ) → Procs → Procs × ℕ
fork_task new_task pd cloned s =
    let copy : Task = record (s.tasks s.cur_task) { pd = pd } in
    if pd == 0
    then (set_task s new_task copy, enomem)
    else (number_task new_task (record copy { state = idle }) s, cloned)

pub fork : (new_task pd cloned buddy : ℕ) → Procs → Procs × ℕ
unfolding fork_task
fork new_task pd cloned buddy s =
    let s' = (fork_task new_task pd cloned s).0 in
    (set_task s' new_task (record (s'.tasks new_task) { buddy = buddy }), 0)

-- `-ENOENT` as the word of the result.
pub execve : (exec_node : ℕ) → Procs → Procs × ℕ
execve exec_node s = if exec_node == 0 then (s, 2 ^ 32 - enoent) else (
  set_task s s.cur_task (record (s.tasks s.cur_task) { exec_node = exec_node; state = empty }),
  0,
)

-- How `exit` and `spawn_init` end: with a panic, in a loop of the kernel that never returns, or in
-- another task.
pub data Exit : Type 0 where
  panics : Exit
  loops : Exit
  switches : Procs → Exit

-- `switch_task` of the first task: a user task becomes the current one, and a kernel task loops.
abbrev pub switch_first : Procs → Exit
switch_first s =
    if leb 1000 (s.tasks s.task_list).id
    then switches (record s { cur_task = s.task_list })
    else loops

-- What `spawn_init` sets up behind the fork, up to the switch to the new task.
pub spawned : (new_task exec_node buddy : ℕ) → (s : Procs) → (ret : ℕ) → Exit
unfolding doubly_ll_insert
spawned new_task exec_node buddy s ret =
    let task : Task = record (s.tasks new_task) {
      id = s.last_user_tid;
      state = empty;
      exec_node = exec_node;
      buddy = buddy;
    } in
    if not (ret == 0)
    then panics
    else switch_first (doubly_ll_insert new_task (set_task s new_task task))

-- The first user task.
pub spawn_init : (new_task pd cloned exec_node buddy : ℕ) → Procs → Exit
unfolding fork_task spawned
spawn_init new_task pd cloned exec_node buddy s =
    let forked = fork_task new_task pd cloned s in
    spawned new_task exec_node buddy forked.0 forked.1

-- The first loop of `schedule`, the code behind which is never reached; `none` is fuel run out.
pub schedule_from : (fuel task : ℕ) → Procs → Option Procs
schedule_from zero task s = none
schedule_from (suc n) task s =
    let started : Procs = record s {
      tasks = update s.tasks task (record (s.tasks task) { state = running });
      ready_schedule = true;
    } in
    let s' = if is_empty (s.tasks task).state then started else s in
    let rest = schedule_from n (s'.tasks task).next s' in if task == 0 then some s else rest

pub schedule : (fuel : ℕ) → Procs → Option Procs
unfolding schedule_from
schedule fuel s = schedule_from fuel s.task_list s

-- What `exit` does when the task is removed.
pub removed : Procs → Exit
removed s =
    if s.task_list == 0
    then panics
    else if (s.tasks s.task_list).next == 0
    then loops
    else switch_first s

pub exit : Procs → Exit
unfolding doubly_ll_remove removed
exit s = removed (doubly_ll_remove s.cur_task s)
