-- ===== src/Uart/Laws.antt =====
-- Readiness and the one-byte receive buffer of src/uart.c.
use yan_os.Base.{ℕ, ◌%◌, ◌≡◌, arith, if◌then◌else◌}
use yan_os.Base.{◌==◌, Bool, false, [], ◌∷◌}
use yan_os.Base.Bits.Mask.{bit_and-low}
use yan_os.Status.{ok, unavailable, invalid_state}
use yan_os.Host.{sent}
use yan_os.Uart.{
  Uart, txdata_offset, rxdata_offset, status_offset, tx_ready, rx_ready, read, write, push_rx,
}

-- STATUS.TX_READY, as a guest reads it.
abbrev pub says_ready : Uart → Bool → Bool
says_ready uart ready = (read uart status_offset ready 0).1 % 2 == 1

-- Where STATUS shows TX_READY, a write of TXDATA is accepted and sends the low byte to the
-- terminal; where it does not, the write is refused and sends nothing.
pub tx_promise :
    (uart : Uart) (value : ℕ) (ready : Bool)
    → write uart txdata_offset value ready ≡ (
        if says_ready uart ready
        then (ok, uart, sent (value % 256) ∷ [])
        else (unavailable, uart, []))
unfolding write read tx_ready rx_ready
tx_promise uart value ready = ground (arith, bit_and-low 8 value)

-- A byte that the host has handed over is what the guest reads next; until then a second byte is
-- refused and changes nothing, and afterwards no byte is ready.
pub push-read :
    (uart : Uart) (byte other : ℕ) (ready : Bool)
    → (push_rx uart byte).0 ≡ ok
    → let pushed = (push_rx uart byte).1 in
      let taken = read pushed rxdata_offset ready 0 in
      (push_rx pushed other ≡ (invalid_state, pushed))
      × (taken.0 ≡ ok)
      × (taken.1 ≡ byte)
      × (rx_ready taken.2 ≡ false)
unfolding push_rx read rx_ready
push-read uart byte other ready h = ground arith
