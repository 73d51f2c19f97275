-- ===== src/Task.antt =====
-- The cooperative runtime of os/task.c and os/task.h. A task is named by its slot and an event by
-- its number. A call that hands the CPU over stops where os/task_switch.S is entered, with
-- `current` naming who runs next; the call goes on when that slot is current again.
pub mod Scheduler
pub mod System
pub mod Slots
pub mod Pick
pub mod Invariant
pub mod Steps
pub mod Cursor
pub mod Fairness
pub mod Wake
pub mod Spawn
use yan_os.Base.{ℕ, zero, suc, ◌+◌, ◌-◌, ◌%◌, ◌^◌, List, [], ◌∷◌, Option, none, some}
use yan_os.Base.{Bool, true, false, not, ◌&&◌, ◌||◌, ◌==◌, ◌!=◌, ltb, if◌then◌else◌, is_null}
use yan_os.Base.{get_or, set, replicate}

abbrev pub task_max : ℕ
task_max = 8

abbrev pub stack_size : ℕ
stack_size = 4096

abbrev pub event_max : ℕ
event_max = 32

pub data TaskState : Type 0 where
  unused runnable running blocked : TaskState

pub record Task : Type 0 where
  pub ra : ℕ
  pub sp : ℕ
  pub saved : List ℕ
  pub entry : ℕ
  pub arg : ℕ
  pub state : TaskState

-- The globals of the file and mstatus.MIE.
pub record Runtime : Type 0 where
  pub tasks : List Task
  pub current : Option ℕ
  pub waiters : List (Option ℕ)
  pub sched_cursor : ℕ
  pub mie : Bool

abbrev pub empty_task : Task
empty_task = record { ra = 0; sp = 0; saved = replicate 12 0; entry = 0; arg = 0; state = unused }

-- The content of the statics before the first call.
abbrev pub boot : Runtime
boot = record {
  tasks = replicate task_max empty_task;
  current = none;
  waiters = replicate event_max none;
  sched_cursor = task_max - 1;
  mie = false;
}

abbrev pub task_at : Runtime → ℕ → Task
task_at rt index = get_or rt.tasks index empty_task

abbrev pub state_at : Runtime → ℕ → TaskState
state_at rt index = (task_at rt index).state

abbrev pub is_unused : TaskState → Bool
is_unused unused = true
is_unused _ = false

abbrev pub is_runnable : TaskState → Bool
is_runnable runnable = true
is_runnable _ = false

abbrev pub is_blocked : TaskState → Bool
is_blocked blocked = true
is_blocked _ = false

-- `tasks[index].state = state`
unfoldable pub set_state : Runtime → ℕ → TaskState → Runtime
set_state rt index state = record rt {
  tasks = set rt.tasks index (record (task_at rt index) { state = state });
}

abbrev pub waiter_at : Runtime → ℕ → Option ℕ
waiter_at rt event = get_or rt.waiters event none

-- The panic codes.
abbrev pub panic_top : ℕ
panic_top = 0x8000_0000

abbrev pub panic_waiter_exists : ℕ
panic_waiter_exists = 0x8000_0001

abbrev pub panic_interrupts_disabled : ℕ
panic_interrupts_disabled = 0x8000_0002

abbrev pub panic_task_table : ℕ
panic_task_table = 0x8000_0003

abbrev pub panic_event_range : ℕ
panic_event_range = 0x8000_0004

abbrev pub panic_no_task : ℕ
panic_no_task = 0x8000_0005

abbrev pub panic_unexpected_trap : ℕ
panic_unexpected_trap = 0x8000_0007

abbrev pub panic_unserviced_source : ℕ
panic_unserviced_source = 0x8000_0008

abbrev pub panic_predicate : ℕ
panic_predicate = 0x8000_0009

-- How a call ends: it returns, it goes on to the reschedule or to the scheduler, or it panics
-- with a code for `tohost`.
pub data Outcome : Type 0 where
  returned switching parking : Runtime → Outcome
  panicked : ℕ → Runtime → Outcome

-- `yan_os_panic` disables the interrupts and does not return.
unfoldable pub panic : ℕ → Runtime → Outcome
panic code rt = panicked code (record rt { mie = false })

pub data TaskResult : Type 0 where
  task_ok no_slot invalid : TaskResult

-- `stack index` is the address of `tasks[index].stack`, `trampoline` that of the function.
module _ (stack : ℕ → ℕ) (trampoline : ℕ) where
  unfoldable pub spawn_is_legal : ℕ → Task → Bool
  spawn_is_legal index task =
      let bottom = stack index in
      let top = stack index + stack_size in
      is_runnable task.state
      && task.entry != 0
      && task.ra == trampoline % 2 ^ 32
      && task.sp == top
      && task.sp % 16 == 0
      && ltb bottom task.sp
      && task.sp - bottom == stack_size

  -- The task that the loop of `yan_os_task_spawn` puts in a free slot.
  unfoldable pub fresh_task : ℕ → ℕ → ℕ → Task
  fresh_task index entry arg = record {
    ra = trampoline % 2 ^ 32;
    sp = (stack index + stack_size) % 2 ^ 32;
    saved = replicate 12 0;
    entry = entry;
    arg = arg;
    state = runnable;
  }

  unfoldable pub spawn_at : Runtime → ℕ → ℕ → ℕ → Outcome × TaskResult
  spawn_at rt index entry arg =
      let task = fresh_task index entry arg in
      if spawn_is_legal index task
      then (returned (record rt { tasks = set rt.tasks index task }), task_ok)
      else (
        panic panic_task_table
            (record rt { tasks = set rt.tasks index (record task { state = unused }) }),
        invalid,
      )

  -- The loop from slot `index`, with `left` slots to go.
  unfoldable pub spawn_loop : Runtime → ℕ → ℕ → ℕ → ℕ → Outcome × TaskResult
  spawn_loop rt entry arg index zero = (returned rt, no_slot)
  spawn_loop rt entry arg index (suc left) =
      let rest = spawn_loop rt entry arg (index + 1) left in
      if not (is_unused (state_at rt index)) then rest else spawn_at rt index entry arg

  unfoldable pub spawn : Runtime → ℕ → ℕ → Outcome × TaskResult
  spawn rt entry arg =
      if entry == 0 then (returned rt, invalid) else spawn_loop rt entry arg 0 task_max
