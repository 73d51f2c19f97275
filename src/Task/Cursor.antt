-- ===== src/Task/Cursor.antt =====
-- Only the scan of os/task.c moves the cursor.
use yan_os.Base.{ℕ, zero, suc, ◌+◌, ◌≡◌, refl, Option, none, some, List, Bool, true, false, not}
use yan_os.Base.{◌||◌, ◌==◌, ◌!=◌, leb, is_null, bit_and, if-intro}
use yan_os.Task.{Runtime, Outcome, returned, switching, parking, panicked, panic, set_state, spawn}
use yan_os.Task.{spawn_at, spawn_loop, spawn_is_legal, fresh_task, is_unused, is_blocked, state_at}
use yan_os.Task.{task_max, event_max, waiter_at, TaskResult}
use yan_os.Task.Scheduler.{
  yield, yield_as, exit, exit_as, wait, wait_as, wait_asked, wake, wake_task,
}
use yan_os.Task.Scheduler.{service, trap_handler, Effect, source_transport, source_uart}

-- However the call ends, the cursor is `c`.
abbrev pub Keeps : ℕ → Outcome → Type 0
Keeps c (returned rt) = rt.sched_cursor ≡ c
Keeps c (switching rt) = rt.sched_cursor ≡ c
Keeps c (parking rt) = rt.sched_cursor ≡ c
Keeps c (panicked code rt) = rt.sched_cursor ≡ c

panic-Keeps : (code : ℕ) (rt : Runtime) → Keeps rt.sched_cursor (panic code rt)
unfolding panic
panic-Keeps code rt = refl

abbrev First : {A : Type 0} → ℕ → Outcome × A → Type 0
First c o = Keeps c o.0

module _ (stack : ℕ → ℕ) (trampoline : ℕ) where
  spawn_at-Keeps :
      (rt : Runtime) (i entry arg : ℕ)
      → Keeps rt.sched_cursor (spawn_at stack trampoline rt i entry arg).0
  unfolding spawn_at panic
  spawn_at-Keeps rt i entry arg =
      if-intro (First {A = TaskResult} rt.sched_cursor)
        (spawn_is_legal stack trampoline i (fresh_task stack trampoline i entry arg)) _ _ refl refl

  spawn_loop-Keeps :
      (rt : Runtime) (entry arg index left : ℕ)
      → Keeps rt.sched_cursor (spawn_loop stack trampoline rt entry arg index left).0
  unfolding spawn_loop
  spawn_loop-Keeps rt entry arg index zero = refl
  spawn_loop-Keeps rt entry arg index (suc left) =
      if-intro (First {A = TaskResult} rt.sched_cursor) (not (is_unused (state_at rt index))) _ _
        (spawn_loop-Keeps rt entry arg (index + 1) left) (spawn_at-Keeps rt index entry arg)

  pub spawn-Keeps :
      (rt : Runtime) (entry arg : ℕ) → Keeps rt.sched_cursor (spawn stack trampoline rt entry arg).0
  unfolding spawn
  spawn-Keeps rt entry arg =
      if-intro (First {A = TaskResult} rt.sched_cursor) (entry == 0) _ _ refl
        (spawn_loop-Keeps rt entry arg 0 task_max)

yield_as-Keeps : (rt : Runtime) (current : Option ℕ) → Keeps rt.sched_cursor (yield_as rt current)
unfolding yield_as set_state panic
yield_as-Keeps rt none = refl
yield_as-Keeps rt (some self) = refl

pub yield-Keeps : (rt : Runtime) → Keeps rt.sched_cursor (yield rt)
unfolding yield
yield-Keeps rt =
    if-intro (Keeps rt.sched_cursor) (not rt.mie) _ _ (panic-Keeps _ rt)
      (yield_as-Keeps rt rt.current)

exit_as-Keeps : (rt : Runtime) (current : Option ℕ) → Keeps rt.sched_cursor (exit_as rt current)
unfolding exit_as set_state panic
exit_as-Keeps rt none = refl
exit_as-Keeps rt (some self) = refl

pub exit-Keeps : (rt : Runtime) → Keeps rt.sched_cursor (exit rt)
unfolding exit
exit-Keeps rt =
    if-intro (Keeps rt.sched_cursor) (not rt.mie) _ _ (panic-Keeps _ rt)
      (exit_as-Keeps rt rt.current)

wait_asked-Keeps :
    (rt : Runtime) (event self : ℕ) (holds : Bool)
    → Keeps rt.sched_cursor (wait_asked rt event self holds)
unfolding wait_asked set_state
wait_asked-Keeps rt event self true = refl
wait_asked-Keeps rt event self false =
    if-intro (Keeps rt.sched_cursor) (not (is_null (waiter_at rt event))) _ _ (panic-Keeps _ rt)
      refl

wait_as-Keeps :
    (rt : Runtime) (event : ℕ) (predicate : Option Bool) (current : Option ℕ)
    → Keeps rt.sched_cursor (wait_as rt event predicate current)
unfolding wait_as
wait_as-Keeps rt event predicate none = panic-Keeps _ rt
wait_as-Keeps rt event none (some self) = panic-Keeps _ rt
wait_as-Keeps rt event (some holds) (some self) =
    if-intro (Keeps rt.sched_cursor) (event == 0 || leb event_max event) _ _ (panic-Keeps _ rt)
      (wait_asked-Keeps rt event self holds)

pub wait-Keeps :
    (rt : Runtime) (event : ℕ) (predicate : Option Bool)
    → Keeps rt.sched_cursor (wait rt event predicate)
unfolding wait
wait-Keeps rt event predicate =
    if-intro (Keeps rt.sched_cursor) (not rt.mie) _ _ (panic-Keeps _ rt)
      (wait_as-Keeps (record rt { mie = false }) event predicate rt.current)

wake_keeps :
    (rt : Runtime) (event : ℕ) (waiter : Option ℕ)
    → (wake_task rt event waiter).sched_cursor ≡ rt.sched_cursor
unfolding wake_task set_state
wake_keeps rt event none = refl
wake_keeps rt event (some task) =
    if-intro (λ (r : Runtime). r.sched_cursor ≡ rt.sched_cursor) (is_blocked (state_at rt task)) _ _
      refl refl

service-Keeps :
    (rt : Runtime) (source irq_status : ℕ) → Keeps rt.sched_cursor (service rt source irq_status).0
unfolding service wake
service-Keeps rt source irq_status =
    if-intro (First {A = List Effect} rt.sched_cursor) (source == 0) _ _ refl (
      if-intro (First {A = List Effect} rt.sched_cursor) (source == source_transport) _ _
        (wake_keeps rt source_transport (waiter_at rt source_transport))
        (if-intro (First {A = List Effect} rt.sched_cursor) (source == source_uart) _ _
          (wake_keeps rt source_uart (waiter_at rt source_uart)) (panic-Keeps _ rt)))

pub trap_handler-Keeps :
    (rt : Runtime) (mcause source irq_status : ℕ)
    → Keeps rt.sched_cursor (trap_handler rt mcause source irq_status).0
unfolding trap_handler
trap_handler-Keeps rt mcause source irq_status =
    if-intro (First {A = List Effect} rt.sched_cursor) (bit_and mcause 0x8000_0000 == 0) _ _
      (panic-Keeps _ rt)
      (if-intro (First {A = List Effect} rt.sched_cursor) (bit_and mcause 0xff != 11) _ _
        (panic-Keeps _ rt) (service-Keeps rt source irq_status))
