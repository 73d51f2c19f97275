-- ===== src/Host.antt =====
-- What the devices do to the host, in the order in which they do it: the calls of the callbacks
-- that the host attaches to the UART and to the transport channel, but for the question whether the
-- terminal can take a byte (`tx_ready`), whose answer is an argument of the calls that may ask it.
use yan_os.Base.{ℕ}

pub data Effect : Type 0 where
  -- `terminal.tx_write(context, byte)`
  sent : ℕ → Effect
  -- `notify(notify_context)`
  rang : Effect
