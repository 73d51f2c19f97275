-- ===== src/Task/Pick.antt =====
-- The round-robin scan of os/task.c.
use yan_os.Base.{ℕ, zero, suc, ◌+◌, ◌-◌, ◌%◌, ◌≤◌, ◌<◌, ◌≡◌, ◌≢◌, sym, ap, ◌∙◌, none, some}
use yan_os.Base.{arith, true, false, Bool-cases, inl, inr}
use yan_os.Base.{some-inj, some-none, true-false}
use native.Mathlib.Decide.{ℕ_discrete, dec_lt}
use yan_os.Task.{Runtime, TaskState, runnable, state_at, is_runnable, task_max}
use yan_os.Task.Scheduler.{pick_loop, sched_pick}

-- Slot `offset` places after the cursor.
abbrev pub slot_after : Runtime → ℕ → ℕ
slot_after rt offset = (rt.sched_cursor + offset) % task_max

pub is_runnable→runnable : (s : TaskState) → is_runnable s ≡ true → s ≡ runnable
is_runnable→runnable s h = ground arith

-- The scan found slot `n`, the first runnable one from `first` on.
record IsFirst (rt : Runtime) (first n : ℕ) : Type 0 where
  offset : ℕ
  after : first ≤ offset
  within : offset ≤ task_max
  slot : n ≡ slot_after rt offset
  ready : state_at rt n ≡ runnable
  passed : (o : ℕ) → first ≤ o → o < offset → is_runnable (state_at rt (slot_after rt o)) ≡ false

pick_loop-IsFirst :
    (rt : Runtime) (first left n : ℕ)
    → first + left ≡ task_max + 1
    → pick_loop rt first left ≡ some n
    → IsFirst rt first n
unfolding pick_loop
pick_loop-IsFirst rt first zero n fits h = absurd (cc h)
pick_loop-IsFirst rt first (suc left) n fits h =
    elim (Bool-cases (is_runnable (state_at rt (slot_after rt first)))) [
      | inl e ↦
          let here : slot_after rt first ≡ n = some-inj (rw e at h) in
          record {
            offset = first;
            after = omega arith;
            within = omega arith;
            slot = sym here;
            ready = rw (sym here) (is_runnable→runnable (state_at rt (slot_after rt first)) e);
            passed = λ o p q. absurd (omega arith);
          }
      | inr e ↦
          let rest = pick_loop-IsFirst rt (first + 1) left n (omega arith) (rw e at h) in
          record {
            offset = rest.offset;
            after = omega (arith, rest.after);
            within = rest.within;
            slot = rest.slot;
            ready = rest.ready;
            passed = λ o p q. elim (ℕ_discrete first o) [
              | yes same ↦ ap (λ o. is_runnable (state_at rt (slot_after rt o))) (sym same) ∙ e
              | no m ↦ rest.passed o (omega arith) q
            ];
          }
    ]

pick_loop-none :
    (rt : Runtime) (first left o : ℕ)
    → pick_loop rt first left ≡ none
    → first ≤ o
    → o < first + left
    → is_runnable (state_at rt (slot_after rt o)) ≡ false
unfolding pick_loop
pick_loop-none rt first zero o h p q = absurd (omega arith)
pick_loop-none rt first (suc left) o h p q =
    elim (Bool-cases (is_runnable (state_at rt (slot_after rt first)))) [
      | inl e ↦ absurd (some-none (rw e at h))
      | inr e ↦ elim (ℕ_discrete first o) [
        | yes same ↦ ap (λ o. is_runnable (state_at rt (slot_after rt o))) (sym same) ∙ e
        | no m ↦ pick_loop-none rt (first + 1) left o (rw e at h) (omega arith) (omega arith)
      ]
    ]

-- How many slots the scan looks at before slot `t`.
abbrev pub distance : ℕ → ℕ → ℕ
distance cursor t = (t + (task_max - 1) - cursor) % task_max

pub pick-ready :
    (rt : Runtime) (n : ℕ) → sched_pick rt ≡ some n → (n < task_max) × (state_at rt n ≡ runnable)
unfolding sched_pick
pick-ready rt n h =
    let f = pick_loop-IsFirst rt 1 task_max n (omega arith) h in (omega (arith, f.slot), f.ready)

-- Where slot `t` stands in the scan.
place :
    (rt : Runtime) (t : ℕ)
    → rt.sched_cursor < task_max
    → t < task_max
    → t ≡ slot_after rt (distance rt.sched_cursor t + 1)
place rt t c h = omega arith

pub pick-distance :
    (rt : Runtime) (n t : ℕ)
    → rt.sched_cursor < task_max
    → t < task_max
    → state_at rt t ≡ runnable
    → sched_pick rt ≡ some n
    → n ≢ t
    → distance n t < distance rt.sched_cursor t
unfolding sched_pick
pick-distance rt n t c small ready h ne =
    let f = pick_loop-IsFirst rt 1 task_max n (omega arith) h in
    let o = distance rt.sched_cursor t + 1 in
    elim (dec_lt o f.offset) [
      | yes p ↦ absurd (
          true-false (
            ap is_runnable (sym ready)
            ∙ ap (λ s. is_runnable (state_at rt s)) (place rt t c small)
            ∙ f.passed o (omega arith) p))
      | no p ↦ omega (arith, f.slot, f.after, f.within, place rt t c small, ne)
    ]

pub pick_finds :
    (rt : Runtime) (t : ℕ)
    → rt.sched_cursor < task_max
    → t < task_max
    → state_at rt t ≡ runnable
    → sched_pick rt ≢ none
unfolding sched_pick
pick_finds rt t c small ready h =
    let o = distance rt.sched_cursor t + 1 in
    let not_ready = pick_loop-none rt 1 task_max o h (omega arith) (omega arith) in
    true-false (
      ap is_runnable (sym ready)
      ∙ ap (λ s. is_runnable (state_at rt s)) (place rt t c small)
      ∙ not_ready)
