-- ===== src/Line/Refine.antt =====
-- The reader of os/line.c against the grammar of os/line.h.
use yan_os.Base.{ℕ, ◌<◌, ◌≡◌, ◌≢◌, inl, inr, refl, sym, List, [], ◌∷◌, ◌++◌}
use yan_os.Base.{
  Option, none, some, Bool, true, false, ◌&&◌, ◌||◌, ◌==◌, ltb, leb, arith, length, set,
}
use yan_os.Base.{All, Bool-cases, if◌then◌else◌, ltb_of_lt, ltb_of_le}
use native.Mathlib.Decide.{dec_lt}
use yan_os.Line.{LineResult, line_ok, too_long, invalid_input, Line, Call, Round, Reader}
use yan_os.Line.{Turn, goes_on, leaves, cr, lf, bs, del, line_max, is_eol, end_line, drain_byte}
use yan_os.Line.{
  reject, delete_byte, store_byte, edit_byte, take_byte, round, rounds, close, echoed,
}
use yan_os.Line.{put_all, echo_eol, echo_backspace, arm_rx, masked, is_line_ok, opened, next}
use yan_os.Line.{buffer_size, ack_rx}
use yan_os.Line.Grammar.{Draft, accepted, refused, Fed, done, more, edit, feed, parse, drop_last}
use yan_os.Line.Buffer.{Holds, Holds-nothing, Holds-delete, Holds-store, Holds-drop_none}

-- The reader is where the grammar is.
abbrev pub Reads : Draft → Reader → Type 0
Reads (accepted text) r = (r.rejecting ≡ false) × Holds r.line.buffer r.line.len text
Reads (refused reason) r =
    (r.rejecting ≡ true)
    × (r.reject_result ≡ reason)
    × (reason ≢ line_ok)
    × (length r.line.buffer ≡ buffer_size)

-- The line that the loop leaves behind is the grammar's.
abbrev pub Leaves : LineResult → List ℕ → Line → Type 0
Leaves result text line =
    (result ≡ line_ok → Holds line.buffer line.len text) × (length line.buffer ≡ buffer_size)

abbrev Follows : Fed → Turn → Type 0
Follows (done result text swallow) (leaves result' line calls) =
    (result' ≡ result) × (line.swallow_lf ≡ swallow) × Leaves result text line
Follows (done result text swallow) (goes_on r calls) = ⊥
Follows (more swallow draft) (leaves result line calls) = ⊥
Follows (more swallow draft) (goes_on r calls) = (r.line.swallow_lf ≡ swallow) × Reads draft r

-- Two conditionals on the same test.
if-both :
    (b : Bool) (x y : Fed) (s t : Turn)
    → (b ≡ true → Follows x s)
    → (b ≡ false → Follows y t)
    → Follows (if b then x else y) (if b then s else t)
if-both true x y s t h k = h refl
if-both false x y s t h k = k refl

end_line-Follows :
    (result : LineResult) (text : List ℕ) (byte : ℕ) (line : Line)
    → Leaves result text line
    → Follows (done result text (byte == cr)) (end_line result byte [] line)
unfolding end_line echo_eol put_all
end_line-Follows result text byte line h = (refl, refl, h)

delete_byte-Follows :
    (r : Reader) (text : List ℕ)
    → r.line.swallow_lf ≡ false
    → Reads (accepted text) r
    → Follows (more false (accepted (drop_last text))) (delete_byte r [])
unfolding delete_byte echoed echo_backspace put_all
delete_byte-Follows r text s h = elim (dec_lt 0 r.line.len) [
  | yes p ↦ rw (ltb_of_lt p) (s, (h.0, Holds-delete r.line.buffer r.line.len text p h.1))
  | no p ↦
      rw (ltb_of_le {a = 0} {b = r.line.len} (omega arith))
        (s, (h.0, Holds-drop_none r.line.buffer r.line.len text (omega arith) h.1))
]

store_byte-Follows :
    (r : Reader) (text : List ℕ) (byte : ℕ)
    → r.line.swallow_lf ≡ false
    → r.line.len < line_max
    → Reads (accepted text) r
    → Follows (more false (accepted (byte ∷ text))) (store_byte r byte [])
unfolding store_byte echoed put_all
store_byte-Follows r text byte s p h =
    (s, (h.0, Holds-store r.line.buffer r.line.len text byte p h.1))

pub too_long_ok : too_long ≢ line_ok
too_long_ok h = cc h

pub invalid_ok : invalid_input ≢ line_ok
invalid_ok h = cc h

edit_byte-Follows :
    (r : Reader) (text : List ℕ) (byte : ℕ)
    → r.line.swallow_lf ≡ false
    → Reads (accepted text) r
    → Follows (edit text byte) (edit_byte r byte [])
unfolding edit_byte reject
edit_byte-Follows r text byte s h =
    if-both (is_eol byte) _ _ _ _
      (λ e. end_line-Follows line_ok text byte r.line ((λ ok. h.1), h.1.sized))
      λ e.
        if-both (byte == bs || byte == del) _ _ _ _ (λ f. delete_byte-Follows r text s h)
          λ f.
            if-both (ltb byte 0x20) _ _ _ _ (λ g. (s, (refl, refl, invalid_ok, h.1.sized)))
              λ g. rw (sym h.1.counted) (
                if-both (leb line_max r.line.len) _ _ _ _
                  (λ k. (s, (refl, refl, too_long_ok, h.1.sized)))
                  λ k. store_byte-Follows r text byte s (ground arith) h)

take_byte-Follows :
    (r : Reader) (draft : Draft) (byte : ℕ)
    → Reads draft r
    → Follows (feed r.line.swallow_lf draft byte) (take_byte r byte [])
unfolding take_byte drain_byte
take_byte-Follows r (refused reason) byte h =
    rw (h.0, h.1)
      (if-both (is_eol byte) _ _ _ _
        (λ e. end_line-Follows reason [] byte r.line ((λ ok. absurd (h.2 ok)), h.3))
        (λ e. (refl, (refl, refl, h.2, h.3))))
take_byte-Follows r (accepted text) byte h = rw h.0 (
    if-both (r.line.swallow_lf && byte == lf) _ _ _ _ (λ e. (refl, (refl, h.1)))
      (λ e.
        edit_byte-Follows
          (record r { line = record r.line { swallow_lf = false }; rejecting = false }) text byte
          refl (refl, h.1)))

-- The terminal stays, every byte is had and every echo is accepted.
abbrev pub IsSmooth : Round → Type 0
IsSmooth Round.gone = ⊥
IsSmooth Round.failing = ⊥
IsSmooth Round.idle = Unit {0}
IsSmooth Round.empty = Unit {0}
IsSmooth (Round.typed byte echo) = echo ≡ []

-- The bytes that were typed.
abbrev pub bytes_of : List Round → List ℕ
bytes_of [] = []
bytes_of (Round.typed byte echo ∷ later) = byte ∷ bytes_of later
bytes_of (_ ∷ later) = bytes_of later

-- The reader's answer is the grammar's: it waits on where the bytes end before the line does.
-- Else it has the grammar's result, an idle line, the text of an accepted line and no byte of a
-- refused one.
abbrev pub Answers :
    Option (LineResult × List ℕ × Bool) → Option (LineResult × Line × List Call) → Type 0
Answers none none = Unit {0}
Answers none (some answer) = ⊥
Answers (some expected) none = ⊥
Answers (some expected) (some answer) =
    (answer.0 ≡ expected.0)
    × (answer.1.swallow_lf ≡ expected.2)
    × (answer.1.busy ≡ false)
    × Holds answer.1.buffer answer.1.len (if is_line_ok expected.0 then expected.1 else [])

pub is_line_ok→ok : (result : LineResult) → is_line_ok result ≡ true → result ≡ line_ok
is_line_ok→ok result h = ground arith

closed-Answers :
    (result result' : LineResult) (text : List ℕ) (swallow : Bool) (line : Line) (calls : List Call)
    → result' ≡ result
    → line.swallow_lf ≡ swallow
    → Leaves result text line
    → Answers (some (result, text, swallow)) (some (result', close result' line, calls))
unfolding close
closed-Answers result result' text swallow line calls e s h =
    elim (Bool-cases (is_line_ok result)) [
      | inl t ↦ rw (e, t) (refl, s, refl, h.0 (is_line_ok→ok result t))
      | inr t ↦ rw (e, t) (refl, s, refl, Holds-nothing line.buffer h.1)
    ]

-- A byte on both sides, where what follows is known to agree.
byte-Answers :
    (fed : Fed) (turn : Turn) (log : List Call)
    (expect : Bool → Draft → Option (LineResult × List ℕ × Bool))
    (answer : Reader → List Call → Option (LineResult × Line × List Call))
    → Follows fed turn
    → ((draft : Draft) (r : Reader) (calls : List Call)
        → Reads draft r
        → Answers (expect r.line.swallow_lf draft) (answer r calls))
    → Answers
        (elim fed [
          | done result text swallow ↦ some (result, text, swallow)
          | more swallow draft ↦ expect swallow draft
        ])
        (elim (masked turn) [
          | goes_on r calls ↦ answer r calls
          | leaves result line calls ↦
              some (result, close result line, log ++ calls ++ arm_rx false ∷ ack_rx ∷ [])
        ])
byte-Answers (done result text swallow) (goes_on r calls) log expect answer f h = absurd f
byte-Answers (done result text swallow) (leaves result' line calls) log expect answer f h =
    closed-Answers result result' text swallow line
      (log ++ (arm_rx false ∷ calls) ++ arm_rx false ∷ ack_rx ∷ []) f.0 f.1 f.2
byte-Answers (more swallow draft) (goes_on r calls) log expect answer f h =
    rw (sym f.0) (h draft r (arm_rx false ∷ calls) f.1)
byte-Answers (more swallow draft) (leaves result line calls) log expect answer f h = absurd f

rounds-Answers :
    (draft : Draft) (r : Reader) (log : List Call) (script : List Round)
    → All IsSmooth script
    → Reads draft r
    → Answers (parse r.line.swallow_lf draft (bytes_of script)) (rounds r log script)
unfolding rounds round
rounds-Answers draft r log [] smooth h = tt
rounds-Answers draft r log (Round.gone ∷ later) smooth h = absurd smooth.0
rounds-Answers draft r log (Round.failing ∷ later) smooth h = absurd smooth.0
rounds-Answers draft r log (Round.idle ∷ later) smooth h = rounds-Answers draft r _ later smooth.1 h
rounds-Answers draft r log (Round.empty ∷ later) smooth h =
    rounds-Answers draft r _ later smooth.1 h
rounds-Answers draft r log (Round.typed byte echo ∷ later) smooth h = rw smooth.0 (
    byte-Answers (feed r.line.swallow_lf draft byte) (take_byte r byte []) log
      (λ swallow next. parse swallow next (bytes_of later))
      (λ next calls. rounds next (log ++ calls) later) (take_byte-Follows r draft byte h)
      (λ draft' r' calls q. rounds-Answers draft' r' (log ++ calls) later smooth.1 q))

-- On an idle, initialized line with a buffer of 1024 bytes, with a terminal that stays, has every
-- byte it announces and accepts every echo, `yan_line_next` follows the grammar of lines read off
-- the typed bytes alone, however often it waits: it goes on waiting exactly where the bytes end
-- before the line does, and otherwise gives the grammar's result, drops the next LF where the
-- grammar does, and leaves an idle line that holds the grammar's text and a NUL, or the empty
-- text where the line was refused.
pub next-Answers :
    (line : Line) (script : List Round)
    → line.initialized ≡ true
    → line.busy ≡ false
    → length line.buffer ≡ buffer_size
    → All IsSmooth script
    → Answers (parse line.swallow_lf (accepted []) (bytes_of script)) (next line script)
unfolding next opened
next-Answers line script i b sized smooth =
    rw (i, b)
      (rounds-Answers (accepted [])
        (record {
          line = record line {
            initialized = true;
            busy = true;
            len = 0;
            buffer = set line.buffer 0 0;
          };
          rejecting = false;
          reject_result = line_ok;
        })
        [] script smooth (refl, Holds-nothing line.buffer sized))
