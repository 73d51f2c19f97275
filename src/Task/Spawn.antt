-- ===== src/Task/Spawn.antt =====
-- Which slot `yan_os_task_spawn` of os/task.c takes, and that its own check of the slot holds.
use yan_os.Base.{ℕ, zero, suc, ◌+◌, ◌%◌, ◌^◌, ◌≤◌, ◌<◌, ◌≡◌, ◌≢◌, ◌⊎◌, inl, inr, refl, ap, ◌∙◌}
use yan_os.Base.{arith, Bool-cases, not, true, false, set, ==_of_ne}
use yan_os.Task.{Runtime, returned, unused, state_at, task_max, stack_size, task_ok, no_slot}
use yan_os.Task.{spawn, spawn_at, spawn_loop, spawn_is_legal, fresh_task, is_unused, TaskState}
use yan_os.Task.{Outcome, TaskResult}
use native.Mathlib.Decide.{ℕ_discrete}

is_unused→unused : (s : TaskState) → not (is_unused s) ≡ false → s ≡ unused
is_unused→unused s h = ground arith

unused_is_used : (s : TaskState) → not (is_unused s) ≡ true → s ≢ unused
unused_is_used s h e = ground arith

module _ (stack : ℕ → ℕ) (trampoline : ℕ) (aligned : (i : ℕ) → i < task_max → stack i % 16 ≡ 0)
    (addressed : (i : ℕ) → i < task_max → stack i + stack_size < 2 ^ 32) where
  fresh_task_legal :
      (i entry arg : ℕ)
      → i < task_max
      → entry ≢ 0
      → spawn_is_legal stack trampoline i (fresh_task stack trampoline i entry arg) ≡ true
  unfolding spawn_is_legal fresh_task
  fresh_task_legal i entry arg h ne = ground (arith, aligned i h, addressed i h)

  -- The slots before `i` are in use, and `i` is free.
  abbrev pub IsFirstFree : Runtime → ℕ → ℕ → Type 0
  IsFirstFree rt from i =
      (i < task_max)
      × (state_at rt i ≡ unused)
      × ((j : ℕ) → from ≤ j → j < i → state_at rt j ≢ unused)

  -- The first free slot from `from` on gets the task, or there is none and nothing changes.
  abbrev pub Spawns : Runtime → ℕ → ℕ → ℕ → Outcome × TaskResult → Type 0
  Spawns rt entry arg from result =
      ((i : ℕ) × IsFirstFree rt from i
        × (result ≡ (
          returned (record rt { tasks = set rt.tasks i (fresh_task stack trampoline i entry arg) }),
          task_ok,
        )))
      ⊎ (((j : ℕ) → from ≤ j → j < task_max → state_at rt j ≢ unused)
          × (result ≡ (returned rt, no_slot)))

  spawned_later :
      (rt : Runtime) (entry arg from : ℕ) (result : Outcome × TaskResult)
      → state_at rt from ≢ unused
      → Spawns rt entry arg (from + 1) result
      → Spawns rt entry arg from result
  spawned_later rt entry arg from result used (inl l) = inl (
    l.0,
    (
      l.1.0,
      l.1.1,
      λ j p q. elim (ℕ_discrete from j) [
        | yes e ↦ λ h. used (ap (state_at rt) e ∙ h)
        | no n ↦ l.1.2 j (omega arith) q
      ],
    ),
    l.2,
  )
  spawned_later rt entry arg from result used (inr r) = inr (
    (λ j p q. elim (ℕ_discrete from j) [
      | yes e ↦ λ h. used (ap (state_at rt) e ∙ h)
      | no n ↦ r.0 j (omega arith) q
    ]),
    r.1,
  )

  spawn_loop_lem :
      (rt : Runtime) (entry arg index left : ℕ)
      → entry ≢ 0
      → index + left ≡ task_max
      → Spawns rt entry arg index (spawn_loop stack trampoline rt entry arg index left)
  unfolding spawn_loop spawn_at
  spawn_loop_lem rt entry arg index zero ne fits = inr ((λ j p q. absurd (omega arith)), refl)
  spawn_loop_lem rt entry arg index (suc left) ne fits =
      elim (Bool-cases (not (is_unused (state_at rt index)))) [
        | inl e ↦ rw e (
            spawned_later rt entry arg index _ (unused_is_used (state_at rt index) e)
              (spawn_loop_lem rt entry arg (index + 1) left ne (omega arith)))
        | inr e ↦
            let free = is_unused→unused (state_at rt index) e in
            rw (e, fresh_task_legal index entry arg (omega arith) ne)
              (inl (index, (omega arith, free, λ j p q. absurd (omega arith)), refl))
      ]

  -- With stacks that are 16-byte aligned and end below 2^32, a spawn with an entry never panics:
  -- it puts the new task into the first free slot and changes nothing else, or answers that there
  -- is none and changes nothing.
  pub spawn-first_free :
      (rt : Runtime) (entry arg : ℕ)
      → entry ≢ 0
      → Spawns rt entry arg 0 (spawn stack trampoline rt entry arg)
  unfolding spawn
  spawn-first_free rt entry arg ne =
      rw (==_of_ne ne) (spawn_loop_lem rt entry arg 0 task_max ne (omega arith))
