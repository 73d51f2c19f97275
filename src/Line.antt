-- ===== src/Line.antt =====
-- The line reader of os/line.c. The callbacks of YanLineIo are the environment: a round of the
-- reader's loop has the answers of the callbacks that it asks, and makes a list of calls.
pub mod Grammar
pub mod Buffer
pub mod Refine
pub mod Exit
use yan_os.Base.{ℕ, zero, suc, ◌+◌, ◌-◌, List, [], ◌∷◌, ◌++◌, Option, none, some, get_or, set}
use yan_os.Base.{Bool, true, false, not, ◌&&◌, ◌||◌, ◌==◌, ltb, leb, if◌then◌else◌}

abbrev pub buffer_size : ℕ
buffer_size = 1024

abbrev pub line_max : ℕ
line_max = 1023

abbrev pub cr : ℕ
cr = 0x0d

abbrev pub lf : ℕ
lf = 0x0a

abbrev pub bs : ℕ
bs = 0x08

abbrev pub del : ℕ
del = 0x7f

pub data LineResult : Type 0 where
  line_ok too_long invalid_input unavailable line_invalid line_busy : LineResult

pub record Line : Type 0 where
  pub initialized : Bool
  pub busy : Bool
  pub swallow_lf : Bool
  pub len : ℕ
  pub buffer : List ℕ

pub data Call : Type 0 where
  arm_rx : Bool → Call
  put_byte : ℕ → Call
  ack_rx wait : Call

-- One round: the terminal is gone; nothing is ready; `get_byte` fails, or has no byte after all;
-- or it has a byte, and `put_byte` answers as in `echo`, where a missing answer is true.
pub data Round : Type 0 where
  gone idle failing empty : Round
  typed : ℕ → List Bool → Round

-- Is every answer true? A refusal ends the calls.
unfoldable pub put_all : List ℕ → List Bool → Bool × List Call
put_all [] echo = (true, [])
put_all (b ∷ more) [] = let rest = put_all more [] in (rest.0, put_byte b ∷ rest.1)
put_all (b ∷ more) (true ∷ echo) = let rest = put_all more echo in (rest.0, put_byte b ∷ rest.1)
put_all (b ∷ more) (false ∷ echo) = (false, put_byte b ∷ [])

unfoldable pub echo_eol : List Bool → Bool × List Call
echo_eol echo = put_all (cr ∷ lf ∷ []) echo

unfoldable pub echo_backspace : List Bool → Bool × List Call
echo_backspace echo = put_all (bs ∷ 0x20 ∷ bs ∷ []) echo

-- The locals of `yan_line_next` with its line.
pub record Reader : Type 0 where
  pub line : Line
  pub rejecting : Bool
  pub reject_result : LineResult

-- A round ends in the next one or leaves the loop.
pub data Turn : Type 0 where
  goes_on : Reader → List Call → Turn
  leaves : LineResult → Line → List Call → Turn

-- The calls of a round, then the interrupt is armed again; or the echo was refused.
unfoldable pub echoed : Bool × List Call → Reader → Turn
echoed put r =
    if put.0 then goes_on r (put.1 ++ arm_rx true ∷ []) else leaves unavailable r.line put.1

-- A line ending: the line is finished with `result`, unless its echo is refused.
unfoldable pub end_line : LineResult → ℕ → List Bool → Line → Turn
end_line result byte echo line =
    let line = record line { swallow_lf = byte == cr } in
    let put = echo_eol echo in leaves (if put.0 then result else unavailable) line put.1

unfoldable pub is_eol : ℕ → Bool
is_eol byte = byte == cr || byte == lf

-- A byte of a line that is being refused.
unfoldable pub drain_byte : Reader → ℕ → List Bool → Turn
drain_byte r byte echo =
    if is_eol byte then end_line r.reject_result byte echo r.line else goes_on r (arm_rx true ∷ [])

unfoldable pub reject : Reader → LineResult → Turn
reject r reason = goes_on (record r { rejecting = true; reject_result = reason }) (arm_rx true ∷ [])

unfoldable pub delete_byte : Reader → List Bool → Turn
delete_byte r echo =
    let len = r.line.len - 1 in
    if ltb 0 r.line.len
    then echoed (echo_backspace echo)
        (record r { line = record r.line { len = len; buffer = set r.line.buffer len 0 } })
    else goes_on r (arm_rx true ∷ [])

unfoldable pub store_byte : Reader → ℕ → List Bool → Turn
store_byte r byte echo =
    let len = r.line.len + 1 in
    echoed (put_all (byte ∷ []) echo) (record r {
      line = record r.line { len = len; buffer = set (set r.line.buffer r.line.len byte) len 0 };
    })

-- A byte of a line that is not refused, once the pending LF is dealt with.
unfoldable pub edit_byte : Reader → ℕ → List Bool → Turn
edit_byte r byte echo =
    if is_eol byte
    then end_line line_ok byte echo r.line
    else if byte == bs || byte == del
    then delete_byte r echo
    else if ltb byte 0x20
    then reject r invalid_input
    else if leb line_max r.line.len
    then reject r too_long
    else store_byte r byte echo

unfoldable pub take_byte : Reader → ℕ → List Bool → Turn
take_byte r byte echo =
    let cleared = record r { line = record r.line { swallow_lf = false } } in
    if r.rejecting
    then drain_byte r byte echo
    else if r.line.swallow_lf && byte == lf
    then goes_on cleared (arm_rx true ∷ [])
    else edit_byte cleared byte echo

-- The interrupt is masked before the byte is taken.
abbrev pub masked : Turn → Turn
masked (goes_on r calls) = goes_on r (arm_rx false ∷ calls)
masked (leaves result line calls) = leaves result line (arm_rx false ∷ calls)

unfoldable pub round : Reader → Round → Turn
round r gone = leaves unavailable r.line []
round r idle = goes_on r (arm_rx true ∷ wait ∷ [])
round r failing = leaves unavailable r.line (arm_rx false ∷ [])
round r empty = goes_on r (arm_rx false ∷ arm_rx true ∷ [])
round r (typed byte echo) = masked (take_byte r byte echo)

abbrev pub is_line_ok : LineResult → Bool
is_line_ok line_ok = true
is_line_ok _ = false

-- What follows the loop, but for its calls.
unfoldable pub close : LineResult → Line → Line
close result line =
    if is_line_ok result
    then record line { busy = false }
    else record line { busy = false; len = 0; buffer = set line.buffer 0 0 }

-- The loop after the calls `log`; `none` where the rounds are over and the reader still waits.
unfoldable pub rounds : Reader → List Call → List Round → Option (LineResult × Line × List Call)
rounds r log [] = none
rounds r log (now ∷ later) = elim (round r now) [
  | goes_on next calls ↦ rounds next (log ++ calls) later
  | leaves result line calls ↦
      some (result, close result line, log ++ calls ++ arm_rx false ∷ ack_rx ∷ [])
]

-- The line as the loop finds it.
unfoldable pub opened : Line → Line
opened line = record line { busy = true; len = 0; buffer = set line.buffer 0 0 }

-- The result, the line and the calls that were made.
unfoldable pub next : Line → List Round → Option (LineResult × Line × List Call)
next line script =
    if not line.initialized
    then some (line_invalid, line, [])
    else if line.busy
    then some (line_busy, line, [])
    else rounds (record { line = opened line; rejecting = false; reject_result = line_ok }) []
        script

-- `limit` is UINTPTR_MAX.
unfoldable pub pointer_inside : ℕ → Option ℕ → ℕ → ℕ → Bool
pointer_inside limit none object size = false
pointer_inside limit (some value) object size =
    if ltb value object
    then false
    else if ltb (limit - object) size
    then true
    else ltb value (object + size)

-- `address` is the line's, `size` its `sizeof`; `complete` is that no callback is NULL.
unfoldable pub init : ℕ → ℕ → ℕ → Line → Bool → Option ℕ → LineResult × Line
init limit address size line complete context =
    if ltb (limit - address) size
    then (line_invalid, line)
    else if line.initialized && line.busy
    then (line_busy, line)
    else if not complete
    then (line_invalid, line)
    else if pointer_inside limit context address size
    then (line_invalid, line)
    else (
      line_ok,
      record {
        initialized = true;
        busy = false;
        swallow_lf = false;
        len = 0;
        buffer = set line.buffer 0 0;
      },
    )
