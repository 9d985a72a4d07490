-- ===== src/Syscall.antt =====
-- kernel/syscall.c, the table of the system calls and the calls. A call with its arguments is a value of
-- `Call`; the arguments are those that `va_arg` gives. `sys_fork`, `sys_execve` and `sys_exit` pass on
-- to the functions of proc/proc.c.
pub mod Read
mod Tests
use Prim.Native.Nat.{bit_or}
use xanadu_os.Base.{
  ℕ, zero, suc, ◌+◌, ◌-◌, ◌*◌, ◌^◌, Bool, true, false, Option, none, some, ◌==◌, if◌then◌else◌,
  List,
}
use xanadu_os.Base.Words.{u32}
use xanadu_os.Base.Memory.{Words, write}
use xanadu_os.Screen.{Screen, fb_nprint, fb_white, fb_black}
use xanadu_os.Proc.{Procs, Exit, fork, execve, exit}
use xanadu_os.Int.{Interrupts, add_isr_handler, idtd_default}

pub data Call : Type 0 where
  call_read : (buf count : ℕ) → Call
  call_write : (msg len : ℕ) → Call
  call_fork : Call
  call_execve : (exec_name : ℕ) → Call
  call_exit : (code : ℕ) → Call

-- The entry of `syscall_table` and the arguments that it takes. `none` is an entry that is NULL or, for
-- a number above 60, no entry: the kernel calls what it finds there.
pub syscall_table : (num : ℕ) → (args : Words) → Option Call
syscall_table num args =
    if num == 0
    then some (call_read (args 0) (args 1))
    else if num == 1
    then some (call_write (args 0) (args 1))
    else if num == 2
    then some call_fork
    else if num == 59
    then some (call_execve (args 0))
    else if num == 60
    then some (call_exit (args 0))
    else none

-- The message is the bytes at `msg`.
pub sys_write : (msg : List ℕ) → (len : ℕ) → Screen → Screen × ℕ
sys_write msg len s = ((fb_nprint msg fb_white fb_black len s).0, len)

-- From word `i` of the buffer on; `kbd i` is what `kbd_read` gives then.
pub read_words : (rounds i : ℕ) → (kbd read_buf : Words) → Words
read_words zero i kbd read_buf = read_buf
read_words (suc n) i kbd read_buf = read_words n (i + 1) kbd (write read_buf i (kbd i))

-- The buffer by its words of 32 bits.
pub sys_read : (kbd read_buf : Words) → (count : ℕ) → Words × ℕ
unfolding read_words
sys_read kbd read_buf count = (read_words count 0 kbd read_buf, count)

abbrev pub sys_fork : (new_task pd cloned buddy : ℕ) → Procs → Procs × ℕ
sys_fork new_task pd cloned buddy s = fork new_task pd cloned buddy s

abbrev pub sys_execve : (exec_node : ℕ) → Procs → Procs × ℕ
sys_execve exec_node s = execve exec_node s

abbrev pub sys_exit : (code : ℕ) → Procs → Exit
sys_exit code s = exit s

-- The state that the calls change.
pub record System : Type 0 where
  pub screen : Screen
  pub procs : Procs

-- What a call leaves: the words of the buffer that it reads into, and its result; or the end of the task.
pub data Outcome : Type 0 where
  returns : (s : System) → (buf : Words) → (ret : ℕ) → Outcome
  leaves : Exit → Outcome

-- `messages` and `memory` are the bytes and the words at an address; `node` finds a file by its name;
-- the last three arguments are those of `fork`.
pub run_call :
    (messages : ℕ → List ℕ)
    → (memory : ℕ → Words) → (kbd : Words) → (node : ℕ → ℕ) → (new_task pd cloned buddy : ℕ) → Call
    → System
    → Outcome
unfolding sys_read sys_write
run_call messages memory kbd node new_task pd cloned buddy (call_read buf count) s =
    let r = sys_read kbd (memory buf) count in returns s r.0 r.1
run_call messages memory kbd node new_task pd cloned buddy (call_write msg len) s =
    let r = sys_write (messages msg) len s.screen in
    returns (record s { screen = r.0 }) (λ i. 0) r.1
run_call messages memory kbd node new_task pd cloned buddy call_fork s =
    let r = sys_fork new_task pd cloned buddy s.procs in
    returns (record s { procs = r.0 }) (λ i. 0) r.1
run_call messages memory kbd node new_task pd cloned buddy (call_execve exec_name) s =
    let r = sys_execve (node exec_name) s.procs in returns (record s { procs = r.0 }) (λ i. 0) r.1
run_call messages memory kbd node new_task pd cloned buddy (call_exit code) s =
    leaves (sys_exit code s.procs)

abbrev pub run_entry : (Call → Outcome) → Option Call → Option Outcome
run_entry run none = none
run_entry run (some c) = some (run c)

pub syscall_exec :
    (messages : ℕ → List ℕ)
    → (memory : ℕ → Words) → (kbd : Words) → (node : ℕ → ℕ) → (new_task pd cloned buddy num : ℕ)
    → (args : Words) → System
    → Option Outcome
unfolding syscall_table run_call
syscall_exec messages memory kbd node new_task pd cloned buddy num args s =
    run_entry (λ c. run_call messages memory kbd node new_task pd cloned buddy c s)
      (syscall_table num args)

-- The gate of the interrupt 0x80 for user code; `handler` is `scall_wrapper`.
pub syscall_init : (isr_table : Words) → (handler : ℕ) → Interrupts → Interrupts × ℕ
syscall_init isr_table handler s =
    add_isr_handler isr_table 0x80 handler (bit_or (3 * 2 ^ 5) idtd_default) s
