-- ===== src/Uart.antt =====
-- The character device: `YanUart` of src/uart.c. The backend's two callbacks are the host's:
-- `ready` is what its `tx_ready` answers during the call, and a call of its `tx_write` is an
-- effect. `attached` is `terminal_attached`.
pub mod Laws
use mathlib.Core.Option.{Option}
use yan_os.Base.{ℕ, ◌+◌, ◌%◌, bit_and, bit_or, none, some, List, [], ◌∷◌, Bool, true, false, not}
use yan_os.Base.{◌&&◌, ◌||◌, ◌==◌, ◌!=◌, if◌then◌else◌}
use yan_os.Base.Bits.Flag.{bit_not}
use yan_os.Status.{Status, ok, unaligned, unmapped, unavailable, invalid_argument, invalid_state}
use yan_os.Host.{Effect, sent}

pub record Uart : Type 0 where
  pub control : ℕ
  pub irq_status : ℕ
  pub rx_data : ℕ
  pub rx_available : Bool
  pub attached : Bool

-- Which callbacks a `YanUartTerminal` carries.
pub record Terminal : Type 0 where
  pub has_tx_ready : Bool
  pub has_tx_write : Bool

abbrev pub txdata_offset : ℕ
txdata_offset = 0x00

abbrev pub rxdata_offset : ℕ
rxdata_offset = 0x04

abbrev pub status_offset : ℕ
status_offset = 0x08

abbrev pub control_offset : ℕ
control_offset = 0x0c

abbrev pub irq_status_offset : ℕ
irq_status_offset = 0x10

unfoldable pub tx_ready : Uart → Bool → Bool
tx_ready uart ready = uart.attached && ready

unfoldable pub rx_ready : Uart → Bool
rx_ready uart = uart.attached && uart.rx_available

abbrev pub connected : Uart → Bool
connected uart = uart.attached

unfoldable pub reset : Uart → Uart
reset uart = record {
  control = 0;
  irq_status = 0;
  rx_data = 0;
  rx_available = false;
  attached = uart.attached;
}

-- The last argument is what `*value` holds before the call.
unfoldable pub read : Uart → ℕ → Bool → ℕ → Status × ℕ × Uart
read uart offset ready value =
    if offset % 4 != 0
    then (unaligned, value, uart)
    else if offset == txdata_offset
    then (ok, 0, uart)
    else if offset == rxdata_offset
    then (if rx_ready uart
        then (ok, uart.rx_data, record uart { rx_available = false })
        else (ok, 0, uart))
    else if offset == status_offset
    then (
      ok,
      bit_or (bit_or (if tx_ready uart ready then 1 else 0) (if rx_ready uart then 2 else 0))
          (if uart.attached then 4 else 0),
      uart,
    )
    else if offset == control_offset
    then (ok, bit_and uart.control 1, uart)
    else if offset == irq_status_offset
    then (ok, bit_and uart.irq_status 1, uart)
    else (unmapped, value, uart)

unfoldable pub write : Uart → ℕ → ℕ → Bool → Status × Uart × List Effect
write uart offset value ready =
    if offset % 4 != 0
    then (unaligned, uart, [])
    else if offset == txdata_offset
    then (if not (tx_ready uart ready)
        then (unavailable, uart, [])
        else (ok, uart, sent (bit_and value 0xff) ∷ []))
    else if offset == rxdata_offset || offset == status_offset
    then (ok, uart, [])
    else if offset == control_offset
    then (ok, record uart { control = bit_and value 1 }, [])
    else if offset == irq_status_offset
    then (if bit_and value 1 != 0
        then (ok, record uart { irq_status = bit_and uart.irq_status (bit_not 1) }, [])
        else (ok, uart, []))
    else (unmapped, uart, [])

-- `none` is a NULL terminal.
unfoldable pub set_terminal : Uart → Option Terminal → Status × Uart
set_terminal uart none =
    (ok, record uart { attached = false; rx_data = 0; rx_available = false; irq_status = 0 })
set_terminal uart (some terminal) =
    if not terminal.has_tx_ready || not terminal.has_tx_write
    then (invalid_argument, uart)
    else (ok, record uart { attached = true })

unfoldable pub push_rx : Uart → ℕ → Status × Uart
push_rx uart byte =
    if not uart.attached
    then (unavailable, uart)
    else if uart.rx_available
    then (invalid_state, uart)
    else (
      ok,
      record uart {
        rx_data = byte;
        rx_available = true;
        irq_status =
            if bit_and uart.control 1 != 0 then bit_or uart.irq_status 1 else uart.irq_status;
      },
    )

unfoldable pub pending : Uart → Bool
pending uart = rx_ready uart && bit_and uart.control 1 != 0
