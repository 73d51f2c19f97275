-- ===== src/Task/Slots.antt =====
-- The invariant of os/task.c on the states of the slots and the waiters of the events.
use native.Mathlib.Decide.{ℕ_discrete}
use yan_os.Base.{ℕ, ◌<◌, ◌≡◌, ◌≢◌, sym, ap, ◌∙◌, Option, none, some}
use yan_os.Base.{some-inj, none-some}
use yan_os.Task.{TaskState, runnable, blocked, event_max}

-- Slot `i` went to state `s` and no other changed; the same of the waiters of events.
pub record IsUpdated {A : Type 0} (before after : ℕ → A) (i : ℕ) (s : A) : Type 0 where
  pub here : after i ≡ s
  pub others : (j : ℕ) → i ≢ j → after j ≡ before j

pub IsUpdated-there :
    {A : Type 0} {before after : ℕ → A} {i : ℕ} {s : A}
    → IsUpdated before after i s
    → (j : ℕ) → i ≡ j
    → after j ≡ s
IsUpdated-there {after = after} u j e = ap after (sym e) ∙ u.here

pub IsUpdated-as :
    {A : Type 0} {before after : ℕ → A} {i : ℕ} {s s' : A}
    → s ≡ s'
    → IsUpdated before after i s
    → IsUpdated before after i s'
IsUpdated-as e u = record { here = u.here ∙ e; others = u.others }

-- An event that can be waited for.
abbrev pub IsEvent : ℕ → Type 0
IsEvent event = (0 < event) × (event < event_max)

-- A registered waiter is blocked; a blocked task is registered, for one event only.
pub record AreWaiting (states : ℕ → TaskState) (waiters : ℕ → Option ℕ) : Type 0 where
  pub blocks : (event task : ℕ) → waiters event ≡ some task → states task ≡ blocked
  pub registered :
      (task : ℕ) → states task ≡ blocked → (event : ℕ) × IsEvent event × (waiters event ≡ some task)
  pub single :
      (event event' task : ℕ)
      → waiters event ≡ some task
      → waiters event' ≡ some task
      → event ≡ event'

runnable_blocked : runnable ≡ blocked → ⊥
runnable_blocked h = cc h

-- A change between two states that are not `blocked`.
pub awake-AreWaiting :
    (states states' : ℕ → TaskState) (waiters : ℕ → Option ℕ) (i : ℕ) (s : TaskState)
    → IsUpdated states states' i s
    → states i ≢ blocked
    → s ≢ blocked
    → AreWaiting states waiters
    → AreWaiting states' waiters
awake-AreWaiting states states' waiters i s u before after w = record {
  blocks = λ event task h. elim (ℕ_discrete i task) [
    | yes e ↦ absurd (before (ap states e ∙ w.blocks event task h))
    | no n ↦ u.others task n ∙ w.blocks event task h
  ];
  registered = λ task h. elim (ℕ_discrete i task) [
    | yes e ↦ absurd (after (sym u.here ∙ ap states' e ∙ h))
    | no n ↦ w.registered task (sym (u.others task n) ∙ h)
  ];
  single = w.single;
}

-- The running task `i` waits for `event`, which had no waiter.
pub wait-AreWaiting :
    (states states' : ℕ → TaskState) (waiters waiters' : ℕ → Option ℕ) (i event : ℕ)
    → IsUpdated states states' i blocked
    → IsUpdated waiters waiters' event (some i)
    → waiters event ≡ none
    → IsEvent event
    → states i ≢ blocked
    → AreWaiting states waiters
    → AreWaiting states' waiters'
wait-AreWaiting states states' waiters waiters' i event u v free small before w = record {
  blocks = λ e task h. elim (ℕ_discrete event e) [
    | yes same ↦
        let mine = some-inj (sym v.here ∙ ap waiters' same ∙ h) in ap states' (sym mine) ∙ u.here
    | no n ↦
        let old = w.blocks e task (sym (v.others e n) ∙ h) in
        u.others task (λ same. before (ap states same ∙ old)) ∙ old
  ];
  registered = λ task h. elim (ℕ_discrete i task) [
    | yes same ↦ (event, small, v.here ∙ ap some same)
    | no n ↦
        let r = w.registered task (sym (u.others task n) ∙ h) in
        (r.0, r.1, v.others r.0 (λ same. none-some (sym free ∙ ap waiters same ∙ r.2)) ∙ r.2)
  ];
  single = λ e e' task h h'. elim (ℕ_discrete event e) [
    | yes p ↦ elim (ℕ_discrete event e') [
      | yes q ↦ sym p ∙ q
      | no q ↦
          let mine = some-inj (sym v.here ∙ ap waiters' p ∙ h) in
          absurd (before (ap states mine ∙ w.blocks e' task (sym (v.others e' q) ∙ h')))
    ]
    | no p ↦ elim (ℕ_discrete event e') [
      | yes q ↦
          let mine = some-inj (sym v.here ∙ ap waiters' q ∙ h') in
          absurd (before (ap states mine ∙ w.blocks e task (sym (v.others e p) ∙ h)))
      | no q ↦ w.single e e' task (sym (v.others e p) ∙ h) (sym (v.others e' q) ∙ h')
    ]
  ];
}

-- The waiter `i` of `event` is woken.
pub wake-AreWaiting :
    (states states' : ℕ → TaskState) (waiters waiters' : ℕ → Option ℕ) (i event : ℕ)
    → IsUpdated states states' i runnable
    → IsUpdated waiters waiters' event none
    → waiters event ≡ some i
    → AreWaiting states waiters
    → AreWaiting states' waiters'
wake-AreWaiting states states' waiters waiters' i event u v mine w =
    let still : (e task : ℕ) → waiters' e ≡ some task → event ≢ e =
      λ e task h same. none-some (sym v.here ∙ ap waiters' same ∙ h) in
    let old : (e task : ℕ) → waiters' e ≡ some task → waiters e ≡ some task =
      λ e task h. sym (v.others e (still e task h)) ∙ h in
    record {
      blocks = λ e task h.
          u.others task
            (λ same. still e task h (w.single event e task (mine ∙ ap some same) (old e task h)))
          ∙ w.blocks e task (old e task h);
      registered = λ task h.
          let other : i ≢ task = λ same. runnable_blocked (sym u.here ∙ ap states' same ∙ h) in
          let r = w.registered task (sym (u.others task other) ∙ h) in
          (
            r.0,
            r.1,
            v.others r.0 (λ same. other (some-inj (sym mine ∙ ap waiters same ∙ r.2))) ∙ r.2,
          );
      single = λ e e' task h h'. w.single e e' task (old e task h) (old e' task h');
    }
