-- ===== src/Task/Steps.antt =====
-- Every step of the runtime of os/task.c keeps its invariant.
use yan_os.Base.{ℕ, zero, suc, ◌+◌, ◌≤◌, ◌<◌, ◌≡◌, inl, inr, refl, sym, ap, Option, none, some}
use yan_os.Base.{arith, Bool, true, false, not, ◌||◌, ◌==◌, ◌!=◌, leb, Bool-cases, is_null, bit_and}
use yan_os.Task.{Runtime, unused, runnable, running, event_max, task_max, state_at}
use yan_os.Task.{waiter_at, set_state, returned, switching, parking, panic}
use yan_os.Task.{spawn, spawn_at, spawn_loop, spawn_is_legal, fresh_task, is_unused}
use yan_os.Task.{TaskState}
use yan_os.Task.System.{Phase, in_task, in_switch, in_scheduler, System, Step, Reachable}
use yan_os.Task.System.{resumed}
use yan_os.Task.Invariant.{IsSound, give-IsSound, leave-IsSound, block-IsSound, spawn-IsSound}
use yan_os.Task.Slots.{IsEvent}
use yan_os.Task.Invariant.{wake-IsSound, mie-IsSound, park-IsSound, boot-IsSound, runnable_blocked}
use yan_os.Task.Invariant.{runnable_running, unused_blocked, running_unused, switch_task}
use yan_os.Task.Invariant.{scheduler_task}
use yan_os.Task.Pick.{pick-ready}
use yan_os.Task.Scheduler.{yield, yield_as, exit, exit_as, wait, wait_as, wait_asked, hand_over}
use yan_os.Task.Scheduler.{reschedule, dispatch, sched_round, sched_pick, picked, is_slot, wake}
use yan_os.Task.Scheduler.{
  wake_task, trap_handler, service, enable_interrupts, source_transport, source_uart,
}

returned-inj : {a b : Runtime} → returned a ≡ returned b → a ≡ b
returned-inj h = cc h

switching-inj : {a b : Runtime} → switching a ≡ switching b → a ≡ b
switching-inj h = cc h

parking-inj : {a b : Runtime} → parking a ≡ parking b → a ≡ b
parking-inj h = cc h

-- A call that panics ends in no other way.
panic_returned : (code : ℕ) (a b : Runtime) → panic code a ≡ returned b → ⊥
unfolding panic
panic_returned code a b h = cc h

panic_switching : (code : ℕ) (a b : Runtime) → panic code a ≡ switching b → ⊥
unfolding panic
panic_switching code a b h = cc h

panic_parking : (code : ℕ) (a b : Runtime) → panic code a ≡ parking b → ⊥
unfolding panic
panic_parking code a b h = cc h

switching_returned : {a b : Runtime} → switching a ≡ returned b → ⊥
switching_returned h = cc h

returned_switching : {a b : Runtime} → returned a ≡ switching b → ⊥
returned_switching h = cc h

null_none : (w : Option ℕ) → not (is_null w) ≡ false → w ≡ none
null_none none h = refl
null_none (some w) h = absurd (cc h)

is_unused→unused : (s : TaskState) → not (is_unused s) ≡ false → s ≡ unused
is_unused→unused s h = ground arith

module _ (stack : ℕ → ℕ) (trampoline : ℕ) where
  spawn_at-IsSound :
      (rt rt' : Runtime) (phase : Phase) (i entry arg : ℕ)
      → IsSound rt phase
      → i < task_max
      → state_at rt i ≡ unused
      → (spawn_at stack trampoline rt i entry arg).0 ≡ returned rt'
      → IsSound rt' phase
  unfolding spawn_at fresh_task
  spawn_at-IsSound rt rt' phase i entry arg s small free h =
      elim (Bool-cases
        (spawn_is_legal stack trampoline i (fresh_task stack trampoline i entry arg))) [
          | inl e ↦
              rw (sym (returned-inj (rw e at h))) (
                spawn-IsSound rt phase i (fresh_task stack trampoline i entry arg) s small free
                  refl)
          | inr e ↦ absurd (panic_returned _ _ _ (rw e at h))
        ]

  spawn_loop-IsSound :
      (rt rt' : Runtime) (phase : Phase) (entry arg index left : ℕ)
      → IsSound rt phase
      → index + left ≤ task_max
      → (spawn_loop stack trampoline rt entry arg index left).0 ≡ returned rt'
      → IsSound rt' phase
  unfolding spawn_loop
  spawn_loop-IsSound rt rt' phase entry arg index zero s fits h = rw (sym (returned-inj h)) s
  spawn_loop-IsSound rt rt' phase entry arg index (suc left) s fits h =
      elim (Bool-cases (not (is_unused (state_at rt index)))) [
        | inl e ↦
            spawn_loop-IsSound rt rt' phase entry arg (index + 1) left s (omega arith) (rw e at h)
        | inr e ↦
            spawn_at-IsSound rt rt' phase index entry arg s (omega arith)
              (is_unused→unused (state_at rt index) e) (rw e at h)
      ]

  after_spawn-IsSound :
      (rt rt' : Runtime) (phase : Phase) (entry arg : ℕ)
      → IsSound rt phase
      → (spawn stack trampoline rt entry arg).0 ≡ returned rt'
      → IsSound rt' phase
  unfolding spawn
  after_spawn-IsSound rt rt' phase entry arg s h = elim (Bool-cases (entry == 0)) [
    | inl e ↦ rw (sym (returned-inj (rw e at h))) s
    | inr e ↦ spawn_loop-IsSound rt rt' phase entry arg 0 task_max s (omega arith) (rw e at h)
  ]

yield_as-IsSound :
    (rt rt' : Runtime) (current : Option ℕ)
    → IsSound rt in_task
    → rt.current ≡ current
    → yield_as rt current ≡ switching rt'
    → IsSound rt' in_switch
unfolding yield_as set_state
yield_as-IsSound rt rt' none s c h = absurd (panic_switching _ _ _ h)
yield_as-IsSound rt rt' (some self) s c h = rw (sym (switching-inj h)) (
    leave-IsSound rt self runnable in_switch rt.current s c runnable_blocked runnable_running
      (λ here. (self, c, inl here)))

yield-IsSound :
    (rt rt' : Runtime) → IsSound rt in_task → yield rt ≡ switching rt' → IsSound rt' in_switch
unfolding yield
yield-IsSound rt rt' s h = elim (Bool-cases (not rt.mie)) [
  | inl e ↦ absurd (panic_switching _ _ _ (rw e at h))
  | inr e ↦ yield_as-IsSound rt rt' rt.current s refl (rw e at h)
]

exit_as-IsSound :
    (rt rt' : Runtime) (current : Option ℕ)
    → IsSound rt in_task
    → rt.current ≡ current
    → exit_as rt current ≡ parking rt'
    → IsSound rt' in_scheduler
unfolding exit_as set_state
exit_as-IsSound rt rt' none s c h = absurd (panic_parking _ _ _ h)
exit_as-IsSound rt rt' (some self) s c h = rw (sym (parking-inj h)) (
    leave-IsSound rt self unused in_scheduler none s c unused_blocked (λ e. running_unused (sym e))
      (λ here. refl))

exit-IsSound :
    (rt rt' : Runtime) → IsSound rt in_task → exit rt ≡ parking rt' → IsSound rt' in_scheduler
unfolding exit
exit-IsSound rt rt' s h = elim (Bool-cases (not rt.mie)) [
  | inl e ↦ absurd (panic_parking _ _ _ (rw e at h))
  | inr e ↦ exit_as-IsSound rt rt' rt.current s refl (rw e at h)
]

-- `wait` returns at once where the predicate holds, and blocks the task where it does not.
wait_returned-IsSound :
    (rt rt' : Runtime) (event self : ℕ) (holds : Bool)
    → IsSound rt in_task
    → wait_asked rt event self holds ≡ returned rt'
    → IsSound rt' in_task
unfolding wait_asked
wait_returned-IsSound rt rt' event self true s h =
    rw (sym (returned-inj h)) (mie-IsSound rt in_task true s)
wait_returned-IsSound rt rt' event self false s h =
    elim (Bool-cases (not (is_null (waiter_at rt event)))) [
      | inl e ↦ absurd (panic_returned _ _ _ (rw e at h))
      | inr e ↦ absurd (switching_returned (rw e at h))
    ]

wait_blocked-IsSound :
    (rt rt' : Runtime) (event self : ℕ) (holds : Bool)
    → IsSound rt in_task
    → rt.current ≡ some self
    → IsEvent event
    → wait_asked rt event self holds ≡ switching rt'
    → IsSound rt' in_switch
unfolding wait_asked
wait_blocked-IsSound rt rt' event self true s c small h = absurd (returned_switching h)
wait_blocked-IsSound rt rt' event self false s c small h =
    elim (Bool-cases (not (is_null (waiter_at rt event)))) [
      | inl e ↦ absurd (panic_switching _ _ _ (rw e at h))
      | inr e ↦
          rw (sym (switching-inj (rw e at h)))
            (block-IsSound rt self event true s c small (null_none (waiter_at rt event) e))
    ]

went_on-IsSound :
    (rt rt' : Runtime) (event : ℕ) (predicate : Option Bool) (current : Option ℕ)
    → IsSound rt in_task
    → wait_as rt event predicate current ≡ returned rt'
    → IsSound rt' in_task
unfolding wait_as
went_on-IsSound rt rt' event predicate none s h = absurd (panic_returned _ _ _ h)
went_on-IsSound rt rt' event none (some self) s h = absurd (panic_returned _ _ _ h)
went_on-IsSound rt rt' event (some holds) (some self) s h =
    elim (Bool-cases (event == 0 || leb event_max event)) [
      | inl e ↦ absurd (panic_returned _ _ _ (rw e at h))
      | inr e ↦ wait_returned-IsSound rt rt' event self holds s (rw e at h)
    ]

waited-IsSound :
    (rt rt' : Runtime) (event : ℕ) (predicate : Option Bool) (current : Option ℕ)
    → IsSound rt in_task
    → rt.current ≡ current
    → wait_as rt event predicate current ≡ switching rt'
    → IsSound rt' in_switch
unfolding wait_as
waited-IsSound rt rt' event predicate none s c h = absurd (panic_switching _ _ _ h)
waited-IsSound rt rt' event none (some self) s c h = absurd (panic_switching _ _ _ h)
waited-IsSound rt rt' event (some holds) (some self) s c h =
    elim (Bool-cases (event == 0 || leb event_max event)) [
      | inl e ↦ absurd (panic_switching _ _ _ (rw e at h))
      | inr e ↦ wait_blocked-IsSound rt rt' event self holds s c (ground arith) (rw e at h)
    ]

wait-IsSound_returned :
    (rt rt' : Runtime) (event : ℕ) (predicate : Option Bool)
    → IsSound rt in_task
    → wait rt event predicate ≡ returned rt'
    → IsSound rt' in_task
unfolding wait
wait-IsSound_returned rt rt' event predicate s h = elim (Bool-cases (not rt.mie)) [
  | inl e ↦ absurd (panic_returned _ _ _ (rw e at h))
  | inr e ↦
      went_on-IsSound (record rt { mie = false }) rt' event predicate rt.current
        (mie-IsSound rt in_task false s) (rw e at h)
]

wait-IsSound_blocked :
    (rt rt' : Runtime) (event : ℕ) (predicate : Option Bool)
    → IsSound rt in_task
    → wait rt event predicate ≡ switching rt'
    → IsSound rt' in_switch
unfolding wait
wait-IsSound_blocked rt rt' event predicate s h = elim (Bool-cases (not rt.mie)) [
  | inl e ↦ absurd (panic_switching _ _ _ (rw e at h))
  | inr e ↦
      waited-IsSound (record rt { mie = false }) rt' event predicate rt.current
        (mie-IsSound rt in_task false s) refl (rw e at h)
]

-- The CPU is handed over to the task that the scan found, or parked.
same_slot : (current : Option ℕ) (n : ℕ) → is_slot current n ≡ true → current ≡ some n
same_slot none n h = absurd (cc h)
same_slot (some c) n h = ground arith

pub hand_over-some :
    (rt : Runtime) (n : ℕ)
    → hand_over rt (some n) ≡ record (set_state (picked rt n) n running) { current = some n }
unfolding hand_over set_state picked
hand_over-some rt n = elim (Bool-cases (is_slot rt.current n)) [
  | inl same ↦ rw same (
      ap (λ (current : Option ℕ). record (set_state (picked rt n) n running) { current = current })
        (same_slot rt.current n same))
  | inr other ↦ rw other refl
]

hand_over-none :
    (rt : Runtime)
    → IsSound rt in_switch
    → IsSound (hand_over rt none) (resumed (hand_over rt none).current)
unfolding hand_over
hand_over-none rt s = park-IsSound rt s

hand_over-IsSound :
    (rt : Runtime) (next : Option ℕ)
    → IsSound rt in_switch
    → sched_pick rt ≡ next
    → IsSound (hand_over rt next) (resumed (hand_over rt next).current)
hand_over-IsSound rt none s e = hand_over-none rt s
hand_over-IsSound rt (some n) s e =
    let ready = pick-ready rt n e in
    rw (hand_over-some rt n) (give-IsSound rt in_switch n s switch_task ready.0 ready.1)

dispatch-IsSound :
    (rt : Runtime) (next : Option ℕ)
    → IsSound rt in_scheduler
    → sched_pick rt ≡ next
    → IsSound (dispatch rt next) (resumed (dispatch rt next).current)
unfolding dispatch set_state picked
dispatch-IsSound rt none s e =
    let idle : resumed rt.current ≡ in_scheduler = ap resumed s.control in rw idle s
dispatch-IsSound rt (some n) s e =
    let ready = pick-ready rt n e in give-IsSound rt in_scheduler n s scheduler_task ready.0 ready.1

-- An interrupt.
wake_task-IsSound :
    (rt : Runtime) (phase : Phase) (event : ℕ) (waiter : Option ℕ)
    → IsSound rt phase
    → event < event_max
    → waiter_at rt event ≡ waiter
    → IsSound (wake_task rt event waiter) phase
unfolding wake_task
wake_task-IsSound rt phase event none s small e = s
wake_task-IsSound rt phase event (some i) s small e =
    rw (s.waiting.blocks event i e) (wake-IsSound rt phase i event s small e)

woken-IsSound :
    (rt : Runtime) (phase : Phase) (event : ℕ)
    → IsSound rt phase
    → event < event_max
    → IsSound (wake rt event) phase
unfolding wake
woken-IsSound rt phase event s small =
    wake_task-IsSound rt phase event (waiter_at rt event) s small refl

service-IsSound :
    (rt rt' : Runtime) (phase : Phase) (source irq_status : ℕ)
    → IsSound rt phase
    → (service rt source irq_status).0 ≡ returned rt'
    → IsSound rt' phase
unfolding service
service-IsSound rt rt' phase source irq_status s h = elim (Bool-cases (source == 0)) [
  | inl e ↦ rw (sym (returned-inj (rw e at h))) s
  | inr e ↦ elim (Bool-cases (source == source_transport)) [
    | inl f ↦
        rw (sym (returned-inj (rw (e, f) at h)))
          (woken-IsSound rt phase source_transport s (omega arith))
    | inr f ↦ elim (Bool-cases (source == source_uart)) [
      | inl g ↦
          rw (sym (returned-inj (rw (e, f, g) at h)))
            (woken-IsSound rt phase source_uart s (omega arith))
      | inr g ↦ absurd (panic_returned _ _ _ (rw (e, f, g) at h))
    ]
  ]
]

trap_handler-IsSound :
    (rt rt' : Runtime) (phase : Phase) (mcause source irq_status : ℕ)
    → IsSound rt phase
    → (trap_handler rt mcause source irq_status).0 ≡ returned rt'
    → IsSound rt' phase
unfolding trap_handler
trap_handler-IsSound rt rt' phase mcause source irq_status s h =
    elim (Bool-cases (bit_and mcause 0x8000_0000 == 0)) [
      | inl e ↦ absurd (panic_returned _ _ _ (rw e at h))
      | inr e ↦ elim (Bool-cases (bit_and mcause 0xff != 11)) [
        | inl f ↦ absurd (panic_returned _ _ _ (rw (e, f) at h))
        | inr f ↦ service-IsSound rt rt' phase source irq_status s (rw (e, f) at h)
      ]
    ]

module _ (stack : ℕ → ℕ) (trampoline : ℕ) where
  pub step-IsSound :
      (a b : System)
      → Step stack trampoline a b
      → IsSound a.runtime a.phase
      → IsSound b.runtime b.phase
  unfolding enable_interrupts reschedule sched_round
  step-IsSound a b (Step.spawned rt rt' phase entry arg h) s =
      after_spawn-IsSound stack trampoline rt rt' phase entry arg s h
  step-IsSound a b (Step.started rt) s = mie-IsSound rt in_scheduler true s
  step-IsSound a b (Step.masked rt mie) s = mie-IsSound rt in_task mie s
  step-IsSound a b (Step.yielded rt rt' h) s = yield-IsSound rt rt' s h
  step-IsSound a b (Step.exited rt rt' h) s = exit-IsSound rt rt' s h
  step-IsSound a b (Step.went_on rt rt' event predicate h) s =
      wait-IsSound_returned rt rt' event predicate s h
  step-IsSound a b (Step.waited rt rt' event predicate h) s =
      wait-IsSound_blocked rt rt' event predicate s h
  step-IsSound a b (Step.rescheduled rt) s = hand_over-IsSound rt (sched_pick rt) s refl
  step-IsSound a b (Step.dispatched rt) s = dispatch-IsSound rt (sched_pick rt) s refl
  step-IsSound a b (Step.interrupted rt rt' phase mcause source irq_status on h) s =
      trap_handler-IsSound rt rt' phase mcause source irq_status s h

  -- In every state that the runtime can come to, from boot on and through any sequence of the
  -- tasks' calls, scheduling rounds and interrupts, at most the current task is running and only
  -- while its own code runs, a registered waiter is blocked, a blocked task is registered for
  -- exactly one event, and the tables have their sizes.
  pub Reachable-IsSound : (a : System) → Reachable stack trampoline a → IsSound a.runtime a.phase
  Reachable-IsSound a Reachable.booted = boot-IsSound
  Reachable-IsSound a (Reachable.stepped b c r st) = step-IsSound b a st (Reachable-IsSound b r)
