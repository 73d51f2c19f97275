-- ===== src/Task/Scheduler.antt =====
-- The scheduler, the waiting calls and the trap handler of os/task.c.
use yan_os.Base.{ℕ, zero, suc, ◌+◌, ◌%◌, List, [], ◌∷◌, Option, none, some, bit_and}
use yan_os.Base.{Bool, true, false, not, ◌||◌, ◌==◌, ◌!=◌, leb, if◌then◌else◌, is_null, set}
use yan_os.Task.{Runtime, runnable, running, unused, blocked, state_at, set_state}
use yan_os.Task.{is_runnable, is_blocked, waiter_at, Outcome, returned, switching, parking, panic}
use yan_os.Task.{task_max, event_max, panic_waiter_exists, panic_interrupts_disabled}
use yan_os.Task.{panic_event_range, panic_no_task, panic_unexpected_trap, panic_unserviced_source}
use yan_os.Task.{panic_predicate}

-- The loop of `yan_os_sched_pick` from `offset`, with `left` slots to go.
unfoldable pub pick_loop : Runtime → ℕ → ℕ → Option ℕ
pick_loop rt offset zero = none
pick_loop rt offset (suc left) =
    let index = (rt.sched_cursor + offset) % task_max in
    let rest = pick_loop rt (offset + 1) left in
    if is_runnable (state_at rt index) then some index else rest

unfoldable pub sched_pick : Runtime → Option ℕ
sched_pick rt = pick_loop rt 1 task_max

-- The store of `sched_cursor` in `yan_os_sched_pick`.
unfoldable pub picked : Runtime → ℕ → Runtime
picked rt index = record rt { sched_cursor = index }

-- `pointer == &tasks[index]`
abbrev pub is_slot : Option ℕ → ℕ → Bool
is_slot none index = false
is_slot (some c) index = c == index

-- `yan_os_sched_reschedule`, after the pick. With nobody to run, the scheduler context goes on.
unfoldable pub hand_over : Runtime → Option ℕ → Runtime
hand_over rt none = record rt { current = none }
hand_over rt (some next) =
    if is_slot rt.current next
    then set_state (picked rt next) next running
    else record (set_state (picked rt next) next running) { current = some next }

unfoldable pub reschedule : Runtime → Runtime
reschedule rt = hand_over rt (sched_pick rt)

-- One round of the loop of `yan_os_sched_run`.
unfoldable pub dispatch : Runtime → Option ℕ → Runtime
dispatch rt none = rt
dispatch rt (some next) = record (set_state (picked rt next) next running) { current = some next }

unfoldable pub sched_round : Runtime → Runtime
sched_round rt = dispatch rt (sched_pick rt)

-- `yan_os_enable_interrupts`, as far as mstatus goes.
unfoldable pub enable_interrupts : Runtime → Runtime
enable_interrupts rt = record rt { mie = true }

-- `yan_os_task_yield` up to the reschedule, by the task that is current.
unfoldable pub yield_as : Runtime → Option ℕ → Outcome
yield_as rt none = panic panic_no_task rt
yield_as rt (some self) = switching (set_state rt self runnable)

unfoldable pub yield : Runtime → Outcome
yield rt = if not rt.mie then panic panic_interrupts_disabled rt else yield_as rt rt.current

unfoldable pub exit_as : Runtime → Option ℕ → Outcome
exit_as rt none = panic panic_no_task rt
exit_as rt (some self) = parking (record (set_state rt self unused) { current = none })

unfoldable pub exit : Runtime → Outcome
exit rt = if not rt.mie then panic panic_interrupts_disabled rt else exit_as rt rt.current

-- `yan_os_task_wait` from the saved MIE on, up to the reschedule. `predicate` is the answer of the
-- predicate, or `none` for a NULL pointer.
unfoldable pub wait_asked : Runtime → ℕ → ℕ → Bool → Outcome
wait_asked rt event self true = returned (record rt { mie = true })
wait_asked rt event self false =
    if not (is_null (waiter_at rt event))
    then panic panic_waiter_exists rt
    else switching
        (record (set_state (record rt { waiters = set rt.waiters event (some self) }) self
          blocked) { mie = true })

unfoldable pub wait_as : Runtime → ℕ → Option Bool → Option ℕ → Outcome
wait_as rt event predicate none = panic panic_no_task rt
wait_as rt event none (some self) = panic panic_predicate rt
wait_as rt event (some holds) (some self) =
    if event == 0 || leb event_max event
    then panic panic_event_range rt
    else wait_asked rt event self holds

unfoldable pub wait : Runtime → ℕ → Option Bool → Outcome
wait rt event predicate =
    if not rt.mie
    then panic panic_interrupts_disabled rt
    else wait_as (record rt { mie = false }) event predicate rt.current

-- The devices that the trap handler touches.
pub data Effect : Type 0 where
  transport_irq_ack uart_rx_irq_off uart_ack_rx : Effect
  plic_complete : ℕ → Effect

unfoldable pub wake_task : Runtime → ℕ → Option ℕ → Runtime
wake_task rt event none = rt
wake_task rt event (some task) =
    let cleared = record rt { waiters = set rt.waiters event none } in
    if is_blocked (state_at rt task) then set_state cleared task runnable else cleared

unfoldable pub wake : Runtime → ℕ → Runtime
wake rt event = wake_task rt event (waiter_at rt event)

abbrev pub source_transport : ℕ
source_transport = 1

abbrev pub source_uart : ℕ
source_uart = 2

-- The handler after the claim of `source`; `irq_status` is the transport's status register.
unfoldable pub service : Runtime → ℕ → ℕ → Outcome × List Effect
service rt source irq_status =
    if source == 0
    then (returned rt, [])
    else if source == source_transport
    then (
      returned (wake rt source_transport),
      (if bit_and irq_status 1 != 0
          then transport_irq_ack ∷ plic_complete source ∷ []
          else plic_complete source ∷ []),
    )
    else if source == source_uart
    then (returned (wake rt source_uart), uart_rx_irq_off ∷ uart_ack_rx ∷ plic_complete source ∷ [])
    else (panic panic_unserviced_source rt, [])

-- The handler returns to `mepc`. `source` is the answer of the claim.
unfoldable pub trap_handler : Runtime → ℕ → ℕ → ℕ → Outcome × List Effect
trap_handler rt mcause source irq_status =
    if bit_and mcause 0x8000_0000 == 0
    then (panic panic_unexpected_trap rt, [])
    else if bit_and mcause 0xff != 11
    then (panic panic_unexpected_trap rt, [])
    else service rt source irq_status
