-- ===== src/Task/Invariant.antt =====
-- The invariant of the runtime of os/task.c, and the changes of a slot that keep it.
use native.Mathlib.Decide.{ℕ_discrete, dec_lt}
use yan_os.Base.{
  ℕ, zero, suc, ◌<◌, ◌≤◌, ◌≡◌, ◌≢◌, ◌⊎◌, inl, inr, refl, sym, ap, ◌∙◌, Option, none, some,
}
use yan_os.Base.{
  List, [], ◌∷◌, arith, length, get_or, set, length-set, get_or-set_self, get_or-set_ne,
}
use yan_os.Base.{some-inj, none-some, Bool, All-get_or, All-replicate}
use yan_os.Task.{Runtime, Task, TaskState, unused, runnable, running, blocked, event_max, task_max}
use yan_os.Task.{state_at, waiter_at, set_state, empty_task, boot}
use yan_os.Task.Slots.{
  IsUpdated, IsUpdated-there, IsUpdated-as, AreWaiting, awake-AreWaiting, wait-AreWaiting,
}
use yan_os.Task.Slots.{IsEvent, wake-AreWaiting}
use yan_os.Task.System.{Phase, in_task, in_switch, in_scheduler}
use yan_os.Task.Scheduler.{picked}

-- What the phase says of the current task.
abbrev pub Control : Phase → Option ℕ → (ℕ → TaskState) → Type 0
Control in_task current states = (c : ℕ) × (current ≡ some c) × (states c ≡ running)
Control in_switch current states =
    (c : ℕ) × (current ≡ some c) × ((states c ≡ runnable) ⊎ (states c ≡ blocked))
Control in_scheduler current states = current ≡ none

pub record IsSound (rt : Runtime) (phase : Phase) : Type 0 where
  pub slots : length rt.tasks ≡ task_max
  pub events : length rt.waiters ≡ event_max
  pub cursor : rt.sched_cursor < task_max
  pub waiting : AreWaiting (state_at rt) (waiter_at rt)
  -- Only the current task runs, and only while its own code does.
  pub runs : (t : ℕ) → state_at rt t ≡ running → (phase ≡ in_task) × (rt.current ≡ some t)
  pub control : Control phase rt.current (state_at rt)

get_or_outside : {A : Type 0} (xs : List A) (i : ℕ) (d : A) → length xs ≤ i → get_or xs i d ≡ d
get_or_outside [] i d h = refl
get_or_outside (x ∷ xs) zero d h = absurd (omega arith)
get_or_outside (x ∷ xs) (suc i) d h = get_or_outside xs i d (omega arith)

pub used-lt :
    (tasks : List Task) (t : ℕ) → (get_or tasks t empty_task).state ≢ unused → t < length tasks
used-lt tasks t h = elim (dec_lt t (length tasks)) [
  | yes p ↦ p
  | no p ↦ absurd (h (ap (λ (x : Task). x.state) (get_or_outside tasks t empty_task (omega arith))))
]

pub tasks-IsUpdated :
    (tasks : List Task) (i : ℕ) (task : Task)
    → i < length tasks
    → IsUpdated
        (λ j. (get_or tasks j empty_task).state)
        (λ j. (get_or (set tasks i task) j empty_task).state)
        i
        task.state
tasks-IsUpdated tasks i task h = record {
  here = ap (λ (x : Task). x.state) (get_or-set_self tasks i task empty_task h);
  others = λ j n. ap (λ (x : Task). x.state) (get_or-set_ne tasks i j task empty_task n);
}

pub waiters-IsUpdated :
    (waiters : List (Option ℕ)) (event : ℕ) (v : Option ℕ)
    → event < length waiters
    → IsUpdated (λ e. get_or waiters e none) (λ e. get_or (set waiters event v) e none) event v
waiters-IsUpdated waiters event v h = record {
  here = get_or-set_self waiters event v none h;
  others = λ j n. get_or-set_ne waiters event j v none n;
}

pub running_blocked : running ≡ blocked → ⊥
running_blocked h = cc h

pub runnable_blocked : runnable ≡ blocked → ⊥
runnable_blocked h = cc h

pub unused_blocked : unused ≡ blocked → ⊥
unused_blocked h = cc h

pub runnable_running : runnable ≡ running → ⊥
runnable_running h = cc h

pub running_unused : running ≡ unused → ⊥
running_unused h = cc h

pub switch_task : in_switch ≡ in_task → ⊥
switch_task h = cc h

pub scheduler_task : in_scheduler ≡ in_task → ⊥
scheduler_task h = cc h

-- The CPU goes to a runnable task.
pub give-IsSound :
    (rt : Runtime) (phase : Phase) (n : ℕ)
    → IsSound rt phase
    → phase ≢ in_task
    → n < task_max
    → state_at rt n ≡ runnable
    → IsSound (record (set_state (picked rt n) n running) { current = some n }) in_task
unfolding set_state picked
give-IsSound rt phase n s idle small ready =
    let u =
      tasks-IsUpdated rt.tasks n (record (get_or rt.tasks n empty_task) { state = running })
        (omega (arith, s.slots)) in
    record {
      slots = length-set rt.tasks n _ ∙ s.slots;
      events = s.events;
      cursor = small;
      waiting =
          awake-AreWaiting (state_at rt) _ (waiter_at rt) n running u
            (λ h. runnable_blocked (sym ready ∙ h)) running_blocked s.waiting;
      runs = λ t h. elim (ℕ_discrete n t) [
        | yes e ↦ (refl, ap some e)
        | no m ↦ absurd (idle (s.runs t (sym (u.others t m) ∙ h)).0)
      ];
      control = (n, refl, u.here);
    }

pub current-runs :
    (rt : Runtime) (c : ℕ) → IsSound rt in_task → rt.current ≡ some c → state_at rt c ≡ running
current-runs rt c s mine = ap (state_at rt) (some-inj (sym mine ∙ s.control.1)) ∙ s.control.2

-- The running task `c` goes to a state that is neither `blocked` nor `running`.
pub leave-IsSound :
    (rt : Runtime) (c : ℕ) (state : TaskState) (phase : Phase) (current : Option ℕ)
    → IsSound rt in_task
    → rt.current ≡ some c
    → state ≢ blocked
    → state ≢ running
    → (state_at (set_state rt c state) c ≡ state
        → Control phase current (state_at (set_state rt c state)))
    → IsSound (record (set_state rt c state) { current = current }) phase
unfolding set_state
leave-IsSound rt c state phase current s mine awake stopped control =
    let run = current-runs rt c s mine in
    let u =
      tasks-IsUpdated rt.tasks c (record (get_or rt.tasks c empty_task) { state = state })
        (used-lt rt.tasks c (λ h. running_unused (sym run ∙ h))) in
    record {
      slots = length-set rt.tasks c _ ∙ s.slots;
      events = s.events;
      cursor = s.cursor;
      waiting =
          awake-AreWaiting (state_at rt) _ (waiter_at rt) c state u
            (λ h. running_blocked (sym run ∙ h)) awake s.waiting;
      runs = λ t h. elim (ℕ_discrete c t) [
        | yes e ↦ absurd (stopped (sym (IsUpdated-there u t e) ∙ h))
        | no m ↦ absurd (m (some-inj (sym mine ∙ (s.runs t (sym (u.others t m) ∙ h)).1)))
      ];
      control = control u.here;
    }

-- The running task `c` blocks on an event that has no waiter.
pub block-IsSound :
    (rt : Runtime) (c event : ℕ) (mie : Bool)
    → IsSound rt in_task
    → rt.current ≡ some c
    → IsEvent event
    → waiter_at rt event ≡ none
    → IsSound
        (record (set_state (record rt { waiters = set rt.waiters event (some c) }) c blocked) {
          mie = mie;
        })
        in_switch
unfolding set_state
block-IsSound rt c event mie s mine small free =
    let run = current-runs rt c s mine in
    let u =
      tasks-IsUpdated rt.tasks c (record (get_or rt.tasks c empty_task) { state = blocked })
        (used-lt rt.tasks c (λ h. running_unused (sym run ∙ h))) in
    let v = waiters-IsUpdated rt.waiters event (some c) (omega (arith, s.events)) in
    record {
      slots = length-set rt.tasks c _ ∙ s.slots;
      events = length-set rt.waiters event (some c) ∙ s.events;
      cursor = s.cursor;
      waiting =
          wait-AreWaiting (state_at rt) _ (waiter_at rt) _ c event u v free small
            (λ h. running_blocked (sym run ∙ h)) s.waiting;
      runs = λ t h. elim (ℕ_discrete c t) [
        | yes e ↦ absurd (running_blocked (sym h ∙ IsUpdated-there u t e))
        | no m ↦ absurd (m (some-inj (sym mine ∙ (s.runs t (sym (u.others t m) ∙ h)).1)))
      ];
      control = (c, mine, inr u.here);
    }

-- A slot that does not run becomes runnable.
ready-Control :
    (phase : Phase) (current : Option ℕ) (states states' : ℕ → TaskState) (i : ℕ)
    → IsUpdated states states' i runnable
    → states i ≢ running
    → Control phase current states
    → Control phase current states'
ready-Control in_task current states states' i u idle k =
    (k.0, k.1, u.others k.0 (λ e. idle (ap states e ∙ k.2)) ∙ k.2)
ready-Control in_switch current states states' i u idle k = elim (ℕ_discrete i k.0) [
  | yes e ↦ (k.0, k.1, inl (ap states' (sym e) ∙ u.here))
  | no m ↦ (k.0, k.1, rw (u.others k.0 m) k.2)
]
ready-Control in_scheduler current states states' i u idle k = k

ready_runs :
    (rt : Runtime) (phase : Phase) (states' : ℕ → TaskState) (i : ℕ)
    → IsSound rt phase
    → IsUpdated (state_at rt) states' i runnable
    → (t : ℕ) → states' t ≡ running
    → (phase ≡ in_task) × (rt.current ≡ some t)
ready_runs rt phase states' i s u t h = elim (ℕ_discrete i t) [
  | yes e ↦ absurd (runnable_running (sym u.here ∙ ap states' e ∙ h))
  | no m ↦ s.runs t (sym (u.others t m) ∙ h)
]

pub spawn-IsSound :
    (rt : Runtime) (phase : Phase) (i : ℕ) (task : Task)
    → IsSound rt phase
    → i < task_max
    → state_at rt i ≡ unused
    → task.state ≡ runnable
    → IsSound (record rt { tasks = set rt.tasks i task }) phase
spawn-IsSound rt phase i task s small free ready =
    let u = IsUpdated-as ready (tasks-IsUpdated rt.tasks i task (omega (arith, s.slots))) in
    record {
      slots = length-set rt.tasks i task ∙ s.slots;
      events = s.events;
      cursor = s.cursor;
      waiting =
          awake-AreWaiting (state_at rt) _ (waiter_at rt) i runnable u
            (λ h. unused_blocked (sym free ∙ h)) runnable_blocked s.waiting;
      runs = ready_runs rt phase _ i s u;
      control =
          ready-Control phase rt.current (state_at rt) _ i u (λ h. running_unused (sym h ∙ free))
            s.control;
    }

pub wake-IsSound :
    (rt : Runtime) (phase : Phase) (i event : ℕ)
    → IsSound rt phase
    → event < event_max
    → waiter_at rt event ≡ some i
    → IsSound (set_state (record rt { waiters = set rt.waiters event none }) i runnable) phase
unfolding set_state
wake-IsSound rt phase i event s small mine =
    let sleeps = s.waiting.blocks event i mine in
    let u =
      tasks-IsUpdated rt.tasks i (record (get_or rt.tasks i empty_task) { state = runnable })
        (used-lt rt.tasks i (λ h. unused_blocked (sym h ∙ sleeps))) in
    let v = waiters-IsUpdated rt.waiters event none (omega (arith, s.events)) in
    record {
      slots = length-set rt.tasks i _ ∙ s.slots;
      events = length-set rt.waiters event none ∙ s.events;
      cursor = s.cursor;
      waiting = wake-AreWaiting (state_at rt) _ (waiter_at rt) _ i event u v mine s.waiting;
      runs = ready_runs rt phase _ i s u;
      control =
          ready-Control phase rt.current (state_at rt) _ i u (λ h. running_blocked (sym h ∙ sleeps))
            s.control;
    }

pub mie-IsSound :
    (rt : Runtime) (phase : Phase) (mie : Bool)
    → IsSound rt phase
    → IsSound (record rt { mie = mie }) phase
mie-IsSound rt phase mie s = record {
  slots = s.slots;
  events = s.events;
  cursor = s.cursor;
  waiting = s.waiting;
  runs = s.runs;
  control = s.control;
}

pub park-IsSound :
    (rt : Runtime) → IsSound rt in_switch → IsSound (record rt { current = none }) in_scheduler
park-IsSound rt s = record {
  slots = s.slots;
  events = s.events;
  cursor = s.cursor;
  waiting = s.waiting;
  runs = λ t h. absurd (switch_task (s.runs t h).0);
  control = refl;
}

pub boot-IsSound : IsSound boot in_scheduler
boot-IsSound =
    let idle : (t : ℕ) → state_at boot t ≡ unused = λ t.
      All-get_or (λ (x : Task). x.state ≡ unused) boot.tasks t empty_task refl
        (All-replicate (λ (x : Task). x.state ≡ unused) task_max empty_task refl) in
    let free : (e : ℕ) → waiter_at boot e ≡ none = λ e.
      All-get_or (λ w. w ≡ none) boot.waiters e none refl
        (All-replicate (λ w. w ≡ none) event_max none refl) in
    record {
      slots = refl;
      events = refl;
      cursor = omega arith;
      waiting = record {
        blocks = λ event task h. absurd (none-some (sym (free event) ∙ h));
        registered = λ task h. absurd (unused_blocked (sym (idle task) ∙ h));
        single = λ event event' task h h'. absurd (none-some (sym (free event) ∙ h));
      };
      runs = λ t h. absurd (running_unused (sym h ∙ idle t));
      control = refl;
    }
