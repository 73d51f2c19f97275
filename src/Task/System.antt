-- ===== src/Task/System.antt =====
-- The runtime of os/task.c as a system of steps: the calls of the task that runs, the scheduler,
-- and the interrupts that arrive between them wherever mstatus.MIE is set, also between the state
-- that `yan_os_task_wait` or `yan_os_task_yield` writes and the reschedule. A panic ends it.
use yan_os.Base.{ℕ, ◌≡◌, Option, none, some, Bool, true}
use yan_os.Task.{Runtime, returned, switching, parking, spawn, boot}
use yan_os.Task.Scheduler.{yield, exit, wait, reschedule, sched_round, trap_handler}
use yan_os.Task.Scheduler.{enable_interrupts}

-- Whose code runs: the current task's, the current task's on its way to the reschedule, or the
-- scheduler's.
pub data Phase : Type 0 where
  in_task in_switch in_scheduler : Phase

pub record System : Type 0 where
  pub runtime : Runtime
  pub phase : Phase

abbrev pub system : Runtime → Phase → System
system rt phase = record { runtime = rt; phase = phase }

-- Where a switch leads.
abbrev pub resumed : Option ℕ → Phase
resumed none = in_scheduler
resumed (some c) = in_task

module _ (stack : ℕ → ℕ) (trampoline : ℕ) where
  pub data Step : System → System → Type 0 where
    spawned :
        (rt rt' : Runtime) (phase : Phase) (entry arg : ℕ)
        → (spawn stack trampoline rt entry arg).0 ≡ returned rt'
        → Step (system rt phase) (system rt' phase)
    started :
        (rt : Runtime) → Step (system rt in_scheduler) (system (enable_interrupts rt) in_scheduler)
    masked :
        (rt : Runtime) (mie : Bool)
        → Step (system rt in_task) (system (record rt { mie = mie }) in_task)
    yielded :
        (rt rt' : Runtime)
        → yield rt ≡ switching rt'
        → Step (system rt in_task) (system rt' in_switch)
    exited :
        (rt rt' : Runtime)
        → exit rt ≡ parking rt'
        → Step (system rt in_task) (system rt' in_scheduler)
    went_on :
        (rt rt' : Runtime) (event : ℕ) (predicate : Option Bool)
        → wait rt event predicate ≡ returned rt'
        → Step (system rt in_task) (system rt' in_task)
    waited :
        (rt rt' : Runtime) (event : ℕ) (predicate : Option Bool)
        → wait rt event predicate ≡ switching rt'
        → Step (system rt in_task) (system rt' in_switch)
    rescheduled :
        (rt : Runtime)
        → Step (system rt in_switch) (system (reschedule rt) (resumed (reschedule rt).current))
    dispatched :
        (rt : Runtime)
        → Step (system rt in_scheduler) (system (sched_round rt) (resumed (sched_round rt).current))
    interrupted :
        (rt rt' : Runtime) (phase : Phase) (mcause source irq_status : ℕ)
        → rt.mie ≡ true
        → (trap_handler rt mcause source irq_status).0 ≡ returned rt'
        → Step (system rt phase) (system rt' phase)

  -- The states that the runtime can come to.
  pub data Reachable : System → Type 0 where
    booted : Reachable (system boot in_scheduler)
    stepped : (s t : System) → Reachable s → Step s t → Reachable t
