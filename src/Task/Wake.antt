-- ===== src/Task/Wake.antt =====
-- The interrupt that ends a wait of os/task.c.
use yan_os.Base.{ℕ, ◌≡◌, ◌≢◌, ◌⊎◌, none}
use yan_os.Base.{List, [], ◌∷◌, ◌++◌}
use yan_os.Task.{Runtime, runnable, state_at, waiter_at}
use yan_os.Task.{Outcome, returned, panic, panic_unserviced_source}
use yan_os.Task.Slots.{IsUpdated}
use yan_os.Task.System.{System}
use yan_os.Task.Scheduler.{source_transport, source_uart}
use yan_os.Task.Scheduler.{Effect, plic_complete}

-- The sources that the trap handler serves.
abbrev pub IsServed : ℕ → Type 0
IsServed event = (event ≡ source_transport) ⊎ (event ≡ source_uart)

-- `handled` is the interrupt of the event that task `t` waits for: a served one makes it runnable,
-- changes the state of no other slot, frees the event and completes the source last; any other is
-- reported by a panic that changes nothing and leaves the source claimed.
abbrev pub Answers : Runtime → ℕ → ℕ → Outcome × List Effect → Type 0
Answers rt t event handled =
    (IsServed event
      × (rt' : Runtime) × (calls : List Effect) × (handled
          ≡ (returned rt', calls ++ plic_complete event ∷ []))
      × IsUpdated (state_at rt) (state_at rt') t runnable
      × (waiter_at rt' event ≡ none))
    ⊎ ((event ≢ source_transport)
        × (event ≢ source_uart)
        × (handled ≡ (panic panic_unserviced_source rt, [])))
