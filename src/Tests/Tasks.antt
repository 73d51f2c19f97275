-- ===== src/Tests/Tasks.antt =====
-- The runtime of os/task.c at concrete states: two tasks are spawned, the first one runs and waits.
use yan_os.Base.{ℕ, ◌+◌, ◌*◌, ◌≡◌, ◌≢◌, ◌<◌, refl, arith, some, none, true, false}
use yan_os.Base.{set}
use yan_os.Task
use yan_os.Task.{
  Runtime, boot, spawn, fresh_task, returned, switching, task_max, state_at, runnable, blocked,
  running, event_max,
}
use yan_os.Task.Spawn.{Spawns, spawn-first_free}
use yan_os.Task.System.{system, Step, Reachable, in_task, in_switch, in_scheduler}
use yan_os.Task.Invariant.{IsSound}
use yan_os.Task.Steps.{Reachable-IsSound}
use yan_os.Task.Fairness.{Waits, turns, Waits-bounded}
use yan_os.Task.Scheduler
use yan_os.Task.Scheduler.{sched_pick, sched_round, wait, wake}

abbrev stack : ℕ → ℕ
stack i = 0x8010_0000 + i * 4096

abbrev trampoline : ℕ
trampoline = 0x8000_1000

spawn-first_free_example :
    Spawns stack trampoline
      (λ i h. omega arith)
      (λ i h. omega arith)
      boot
      0x8000_2000
      7
      0
      (spawn stack trampoline boot 0x8000_2000 7)
spawn-first_free_example =
    spawn-first_free stack trampoline (λ i h. omega arith) (λ i h. omega arith) boot 0x8000_2000 7
      (omega arith)

abbrev one : Runtime
one = record boot { tasks = set boot.tasks 0 (fresh_task stack trampoline 0 0x8000_2000 7) }

abbrev two : Runtime
two = record one { tasks = set one.tasks 1 (fresh_task stack trampoline 1 0x8000_3000 8) }

spawned_one : (spawn stack trampoline boot 0x8000_2000 7).0 ≡ returned one
unfolding spawn Task.spawn_loop Task.spawn_at Task.spawn_is_legal fresh_task
spawned_one = refl

spawned_two : (spawn stack trampoline one 0x8000_3000 8).0 ≡ returned two
unfolding spawn Task.spawn_loop Task.spawn_at Task.spawn_is_legal fresh_task
spawned_two = refl

abbrev on : Runtime
on = record two { mie = true }

enabled : Scheduler.enable_interrupts two ≡ on
unfolding Scheduler.enable_interrupts
enabled = refl

reach_two : Reachable stack trampoline (system two in_scheduler)
reach_two =
    Reachable.stepped (system one in_scheduler) (system two in_scheduler)
      (Reachable.stepped (system boot in_scheduler) (system one in_scheduler) Reachable.booted
        (Step.spawned boot one in_scheduler 0x8000_2000 7 spawned_one))
      (Step.spawned one two in_scheduler 0x8000_3000 8 spawned_two)

reach_on : Reachable stack trampoline (system on in_scheduler)
unfolding Scheduler.enable_interrupts
reach_on =
    Reachable.stepped (system two in_scheduler) (system on in_scheduler) reach_two
      (Step.started two)

-- The first task runs.
abbrev ran : Runtime
ran = record on {
  tasks = set on.tasks 0 (record (Task.task_at on 0) { state = running });
  current = some 0;
  sched_cursor = 0;
}

reach_ran : Reachable stack trampoline (system ran in_task)
unfolding sched_round sched_pick Scheduler.dispatch Scheduler.pick_loop Scheduler.picked
    Task.set_state fresh_task
reach_ran =
    Reachable.stepped (system on in_scheduler) (system ran in_task) reach_on (Step.dispatched on)

-- It waits for the UART.
abbrev asleep : Runtime
asleep = record ran {
  tasks = set ran.tasks 0 (record (Task.task_at ran 0) { state = blocked });
  waiters = set ran.waiters 2 (some 0);
}

fell_asleep : wait ran 2 (some false) ≡ switching asleep
unfolding wait Scheduler.wait_as Scheduler.wait_asked Task.set_state
fell_asleep = refl

reach_asleep : Reachable stack trampoline (system asleep in_switch)
reach_asleep =
    Reachable.stepped (system ran in_task) (system asleep in_switch) reach_ran
      (Step.waited ran asleep 2 (some false) fell_asleep)

Reachable-IsSound_example : IsSound asleep in_switch
Reachable-IsSound_example =
    Reachable-IsSound stack trampoline (system asleep in_switch) reach_asleep

-- The second task waits for one turn, that of the first.
still_ready : state_at ran 1 ≡ runnable
unfolding fresh_task
still_ready = refl

ready : state_at on 1 ≡ runnable
unfolding fresh_task
ready = refl

one_turn :
    Waits stack trampoline 1
      (system on in_scheduler)
      (0 + turns stack trampoline (Step.dispatched on))
      (system ran in_task)
unfolding sched_round sched_pick Scheduler.dispatch Scheduler.pick_loop Scheduler.picked
    Task.set_state fresh_task
one_turn =
    Waits.further 0 (system on in_scheduler) (system ran in_task) Waits.begun (Step.dispatched on)
      still_ready

Waits-bounded_example :
    (0 + turns stack trampoline (Step.dispatched on) < task_max) × (sched_pick ran ≢ none)
Waits-bounded_example =
    Waits-bounded stack trampoline 1 (0 + turns stack trampoline (Step.dispatched on))
      (system on in_scheduler) (system ran in_task) reach_on (omega arith) ready one_turn
