-- ===== src/Task/Fairness.antt =====
-- How long a runnable task of os/task.c waits for the CPU.
use yan_os.Base.{ℕ, ◌+◌, ◌≤◌, ◌<◌, ◌≡◌, ◌≢◌, refl, sym, ◌∙◌, Option, none, some}
use yan_os.Base.{length, get_or, arith, not, is_null, to_int}
use yan_os.Task.{Runtime, set_state, empty_task, runnable, running, task_max, state_at}
use yan_os.Task.Invariant.{IsSound, tasks-IsUpdated, runnable_running}
use yan_os.Task.Slots.{IsUpdated-there}
use yan_os.Task.Pick.{distance, pick-distance, pick_finds, pick-ready}
use yan_os.Task.System.{System, Step, Reachable}
use yan_os.Task.Cursor.{spawn-Keeps, yield-Keeps, exit-Keeps, wait-Keeps, trap_handler-Keeps}
use yan_os.Task.Scheduler.{
  enable_interrupts, hand_over, dispatch, picked, sched_pick, reschedule, sched_round,
}
use yan_os.Task.Steps.{hand_over-some, step-IsSound, Reachable-IsSound}

module _ (stack : ℕ → ℕ) (trampoline : ℕ) where
  -- How often the step hands the CPU to a task.
  unfoldable pub turns : {a b : System} → Step stack trampoline a b → ℕ
  turns (Step.rescheduled rt) = to_int (not (is_null (sched_pick rt)))
  turns (Step.dispatched rt) = to_int (not (is_null (sched_pick rt)))
  turns _ = 0

  -- `k` turns went by, and the task in slot `t` was runnable all the while.
  pub data Waits (t : ℕ) (a : System) : ℕ → System → Type 0 where
    begun : Waits t a 0 a
    further :
        (k : ℕ) (b c : System)
        → Waits t a k b
        → (step : Step stack trampoline b c) → state_at c.runtime t ≡ runnable
        → Waits t a (k + turns step) c

  -- Where the cursor stays, so does the distance.
  module _ (t : ℕ) (rt rt' : Runtime) (kept : rt'.sched_cursor ≡ rt.sched_cursor) where
    distance_kept : 0 + distance rt'.sched_cursor t ≤ distance rt.sched_cursor t
    distance_kept = rw kept (omega arith)

  -- The CPU goes to another slot `n`, so the scan comes nearer to `t`.
  module _ (t : ℕ) (rt : Runtime) (slots : length rt.tasks ≡ task_max)
      (cursor : rt.sched_cursor < task_max) (small : t < task_max)
      (ready : state_at rt t ≡ runnable) where
    given-distance :
        (n : ℕ)
        → sched_pick rt ≡ some n
        → state_at (record (set_state (picked rt n) n running) { current = some n }) t ≡ runnable
        → 1
            + distance
                (record (set_state (picked rt n) n running) { current = some n }).sched_cursor
                t
          ≤ distance rt.sched_cursor t
    unfolding set_state picked
    given-distance n e q =
        let u =
          tasks-IsUpdated rt.tasks n (record (get_or rt.tasks n empty_task) { state = running })
            (omega (arith, slots, (pick-ready rt n e).0)) in
        let other : n ≢ t = λ same. runnable_running (sym q ∙ IsUpdated-there u t same) in
        omega (arith, pick-distance rt n t cursor small ready e other)

    hand_over-distance :
        (next : Option ℕ)
        → sched_pick rt ≡ next
        → state_at (hand_over rt next) t ≡ runnable
        → to_int (not (is_null next)) + distance (hand_over rt next).sched_cursor t
          ≤ distance rt.sched_cursor t
    hand_over-distance none e q = absurd (pick_finds rt t cursor small ready e)
    hand_over-distance (some n) e q =
        rw (hand_over-some rt n) (given-distance n e (rw (hand_over-some rt n) at q))

    dispatch-distance :
        (next : Option ℕ)
        → sched_pick rt ≡ next
        → state_at (dispatch rt next) t ≡ runnable
        → to_int (not (is_null next)) + distance (dispatch rt next).sched_cursor t
          ≤ distance rt.sched_cursor t
    unfolding dispatch
    dispatch-distance none e q = absurd (pick_finds rt t cursor small ready e)
    dispatch-distance (some n) e q = given-distance n e q

  turns-distance :
      (t : ℕ) (a b : System)
      → (step : Step stack trampoline a b) → IsSound a.runtime a.phase
      → t < task_max
      → state_at a.runtime t ≡ runnable
      → state_at b.runtime t ≡ runnable
      → turns step + distance b.runtime.sched_cursor t ≤ distance a.runtime.sched_cursor t
  unfolding turns enable_interrupts reschedule sched_round
  turns-distance t a b (Step.spawned rt rt' phase entry arg h) s small r q =
      distance_kept t rt rt' (rw h at (spawn-Keeps stack trampoline rt entry arg))
  turns-distance t a b (Step.started rt) s small r q = omega arith
  turns-distance t a b (Step.masked rt mie) s small r q = omega arith
  turns-distance t a b (Step.yielded rt rt' h) s small r q =
      distance_kept t rt rt' (rw h at (yield-Keeps rt))
  turns-distance t a b (Step.exited rt rt' h) s small r q =
      distance_kept t rt rt' (rw h at (exit-Keeps rt))
  turns-distance t a b (Step.went_on rt rt' event predicate h) s small r q =
      distance_kept t rt rt' (rw h at (wait-Keeps rt event predicate))
  turns-distance t a b (Step.waited rt rt' event predicate h) s small r q =
      distance_kept t rt rt' (rw h at (wait-Keeps rt event predicate))
  turns-distance t a b (Step.rescheduled rt) s small r q =
      hand_over-distance t rt s.slots s.cursor small r (sched_pick rt) refl q
  turns-distance t a b (Step.dispatched rt) s small r q =
      dispatch-distance t rt s.slots s.cursor small r (sched_pick rt) refl q
  turns-distance t a b (Step.interrupted rt rt' phase mcause source irq_status on h) s small r q =
      distance_kept t rt rt' (rw h at (trap_handler-Keeps rt mcause source irq_status))

  Waits-IsSound :
      (t : ℕ) (a : System)
      → IsSound a.runtime a.phase
      → t < task_max
      → state_at a.runtime t ≡ runnable
      → (k : ℕ) (b : System) → Waits t a k b
      → IsSound b.runtime b.phase
        × (state_at b.runtime t ≡ runnable)
        × (k + distance b.runtime.sched_cursor t ≤ distance a.runtime.sched_cursor t)
  Waits-IsSound t a s small r k b Waits.begun = (s, r, omega arith)
  Waits-IsSound t a s small r k b (Waits.further l c d w step q) =
      let before = Waits-IsSound t a s small r l c w in
      let next = turns-distance t c d step before.0 small before.1 q in
      (step-IsSound stack trampoline c d step before.0, q, omega (arith, next, before.2))

  -- From every state that the runtime can come to, and for as long as a task stays runnable, the
  -- CPU is handed to other tasks fewer than eight times, and the scan for the next task finds
  -- one.
  pub Waits-bounded :
      (t k : ℕ) (a b : System)
      → Reachable stack trampoline a
      → t < task_max
      → state_at a.runtime t ≡ runnable
      → Waits t a k b
      → (k < task_max) × (sched_pick b.runtime ≢ none)
  Waits-bounded t k a b reach small r w =
      let s = Waits-IsSound t a (Reachable-IsSound stack trampoline a reach) small r k b w in
      (omega (arith, s.2), pick_finds b.runtime t s.0.cursor small s.1)
