-- ===== src/Line/Exit.antt =====
-- How `yan_line_next` of os/line.c leaves its line, whatever the device answers.
use yan_os.Base.{ℕ, ◌+◌, ◌-◌, ◌<◌, ◌≡◌, ◌≢◌, inl, inr, refl, sym, ◌∙◌, List, [], ◌∷◌, ◌++◌}
use yan_os.Base.{Option, some, Bool, true, false, ◌&&◌, ◌||◌, ◌==◌, ltb, leb, arith, length, set}
use yan_os.Base.{not, if◌then◌else◌, Bool-cases, if-intro, some-inj, none-some, true-false}
use yan_os.Line.{LineResult, line_ok, unavailable, Line, Call, Round, Reader}
use yan_os.Line.{Turn, goes_on, leaves, cr, lf, bs, del, line_max, is_eol, end_line, drain_byte}
use yan_os.Line.{
  reject, delete_byte, store_byte, edit_byte, take_byte, round, rounds, close, echoed,
}
use yan_os.Line.{put_all, echo_eol, echo_backspace, arm_rx, masked, is_line_ok, opened, next}
use yan_os.Line.{buffer_size, ack_rx}
use yan_os.Line.Grammar.{drop_last}
use yan_os.Line.Buffer.{Holds, Holds-nothing, Holds-delete, Holds-store}
use yan_os.Line.Refine.{too_long_ok, invalid_ok, is_line_ok→ok}

-- A line that is not refused has its text in the buffer.
abbrev IsReading : Reader → Type 0
IsReading r =
    (length r.line.buffer ≡ buffer_size)
    × (r.rejecting ≡ false → (text : List ℕ) × Holds r.line.buffer r.line.len text)
    × (r.rejecting ≡ true → r.reject_result ≢ line_ok)

abbrev IsLeft : LineResult → Line → Type 0
IsLeft result line =
    (length line.buffer ≡ buffer_size)
    × (result ≡ line_ok → (text : List ℕ) × Holds line.buffer line.len text)

abbrev IsTurn : Turn → Type 0
IsTurn (goes_on r calls) = IsReading r
IsTurn (leaves result line calls) = IsLeft result line

unavailable_ok : unavailable ≢ line_ok
unavailable_ok h = cc h

echoed-IsTurn : (put : Bool × List Call) (r : Reader) → IsReading r → IsTurn (echoed put r)
unfolding echoed
echoed-IsTurn put r h =
    if-intro IsTurn put.0 (goes_on r (put.1 ++ arm_rx true ∷ [])) (leaves unavailable r.line put.1)
      h (h.0, λ e. absurd (unavailable_ok e))

end_line-IsTurn :
    (result : LineResult) (byte : ℕ) (echo : List Bool) (line : Line)
    → IsLeft result line
    → IsTurn (end_line result byte echo line)
unfolding end_line
end_line-IsTurn result byte echo line h =
    if-intro (λ (res : LineResult). IsLeft res (record line { swallow_lf = byte == cr }))
      (echo_eol echo).0 result unavailable h (h.0, λ e. absurd (unavailable_ok e))

-- The invariant of a reader that edits a text.
editing :
    (r : Reader) (text : List ℕ)
    → r.rejecting ≡ false
    → Holds r.line.buffer r.line.len text
    → IsReading r
editing r text e h = (h.sized, (λ k. (text, h)), λ k. absurd (true-false (sym k ∙ e)))

delete_byte-IsTurn :
    (r : Reader) (text : List ℕ) (echo : List Bool)
    → r.rejecting ≡ false
    → Holds r.line.buffer r.line.len text
    → IsTurn (delete_byte r echo)
unfolding delete_byte
delete_byte-IsTurn r text echo e h = elim (Bool-cases (ltb 0 r.line.len)) [
  | inr k ↦ rw k (editing r text e h)
  | inl k ↦
      let after : Reader = record r {
        line = record r.line {
          len = r.line.len - 1;
          buffer = set r.line.buffer (r.line.len - 1) 0;
        };
      } in
      rw k (
        echoed-IsTurn (echo_backspace echo) after (
          editing after (drop_last text) e
            (Holds-delete r.line.buffer r.line.len text (ground arith) h)))
]

store_byte-IsTurn :
    (r : Reader) (text : List ℕ) (byte : ℕ) (echo : List Bool)
    → r.rejecting ≡ false
    → r.line.len < line_max
    → Holds r.line.buffer r.line.len text
    → IsTurn (store_byte r byte echo)
unfolding store_byte
store_byte-IsTurn r text byte echo e k h =
    let after : Reader = record r {
      line = record r.line {
        len = r.line.len + 1;
        buffer = set (set r.line.buffer r.line.len byte) (r.line.len + 1) 0;
      };
    } in
    echoed-IsTurn (put_all (byte ∷ []) echo) after
      (editing after (byte ∷ text) e (Holds-store r.line.buffer r.line.len text byte k h))

edit_byte-IsTurn :
    (r : Reader) (text : List ℕ) (byte : ℕ) (echo : List Bool)
    → r.rejecting ≡ false
    → Holds r.line.buffer r.line.len text
    → IsTurn (edit_byte r byte echo)
unfolding edit_byte reject
edit_byte-IsTurn r text byte echo e h =
    if-intro IsTurn (is_eol byte) _ _
      (end_line-IsTurn line_ok byte echo r.line (h.sized, λ k. (text, h)))
      (if-intro IsTurn (byte == bs || byte == del) _ _ (delete_byte-IsTurn r text echo e h) (
        if-intro IsTurn (ltb byte 0x20) _ _ (h.sized, (λ k. absurd (true-false k)), λ k. invalid_ok)
          (elim (Bool-cases (leb line_max r.line.len)) [
            | inl k ↦ rw k (h.sized, (λ q. absurd (true-false q)), λ q. too_long_ok)
            | inr k ↦ rw k (store_byte-IsTurn r text byte echo e (ground arith) h)
          ])))

take_byte-IsTurn :
    (r : Reader) (byte : ℕ) (echo : List Bool) → IsReading r → IsTurn (take_byte r byte echo)
unfolding take_byte drain_byte
take_byte-IsTurn r byte echo h = elim (Bool-cases r.rejecting) [
  | inl e ↦ rw e (
      if-intro IsTurn (is_eol byte) _ _
        (end_line-IsTurn r.reject_result byte echo r.line (h.0, λ ok. absurd (h.2 e ok)))
        (h.0, (λ k. absurd (true-false k)), λ k. h.2 e))
  | inr e ↦
      let t = h.1 e in
      rw e (
        if-intro IsTurn (r.line.swallow_lf && byte == lf) _ _
          (h.0, (λ k. t), λ k. absurd (true-false (sym k)))
          (edit_byte-IsTurn
            (record r { line = record r.line { swallow_lf = false }; rejecting = false }) t.0 byte
            echo refl t.1))
]

masked-IsTurn : (turn : Turn) → IsTurn turn → IsTurn (masked turn)
masked-IsTurn (goes_on r calls) h = h
masked-IsTurn (leaves result line calls) h = h

round-IsTurn : (r : Reader) (now : Round) → IsReading r → IsTurn (round r now)
unfolding round
round-IsTurn r Round.gone h = (h.0, λ e. absurd (unavailable_ok e))
round-IsTurn r Round.failing h = (h.0, λ e. absurd (unavailable_ok e))
round-IsTurn r Round.idle h = h
round-IsTurn r Round.empty h = h
round-IsTurn r (Round.typed byte echo) h =
    masked-IsTurn (take_byte r byte echo) (take_byte-IsTurn r byte echo h)

-- An idle line with the text of an accepted line, or with none.
pub record IsClosed (result : LineResult) (line : Line) : Type 0 where
  pub idle : line.busy ≡ false
  pub text : List ℕ
  pub holds : Holds line.buffer line.len text
  pub refused : result ≢ line_ok → text ≡ []

close-IsClosed :
    (result : LineResult) (line : Line) → IsLeft result line → IsClosed result (close result line)
unfolding close
close-IsClosed result line h = elim (Bool-cases (is_line_ok result)) [
  | inl e ↦
      let ok = is_line_ok→ok result e in
      let t = h.1 ok in
      rw e record { idle = refl; text = t.0; holds = t.1; refused = λ n. absurd (n ok) }
  | inr e ↦
      rw e record {
        idle = refl;
        text = [];
        holds = Holds-nothing line.buffer h.0;
        refused = λ n. refl;
      }
]

-- The calls end with the interrupt masked and acknowledged.
pub record IsAnswer (answer : LineResult × Line × List Call) : Type 0 where
  pub closed : IsClosed answer.0 answer.1
  pub before : List Call
  pub masked_at_end : answer.2 ≡ before ++ arm_rx false ∷ ack_rx ∷ []

-- A turn and what follows it.
turn-IsAnswer :
    (turn : Turn) (log : List Call)
    (follow : Reader → List Call → Option (LineResult × Line × List Call))
    (answer : LineResult × Line × List Call)
    → IsTurn turn
    → ((r : Reader) (calls : List Call)
        → IsReading r
        → follow r calls ≡ some answer
        → IsAnswer answer)
    → (elim turn [
      | goes_on r calls ↦ follow r calls
      | leaves result line calls ↦
          some (result, close result line, log ++ calls ++ arm_rx false ∷ ack_rx ∷ [])
    ])
      ≡ some answer
    → IsAnswer answer
turn-IsAnswer (goes_on r calls) log follow answer h k e = k r calls h e
turn-IsAnswer (leaves result line calls) log follow answer h k e =
    rw (sym (some-inj e))
      record { closed = close-IsClosed result line h; before = log ++ calls; masked_at_end = refl }

rounds-IsAnswer :
    (r : Reader) (log : List Call) (script : List Round) (answer : LineResult × Line × List Call)
    → IsReading r
    → rounds r log script ≡ some answer
    → IsAnswer answer
unfolding rounds
rounds-IsAnswer r log [] answer h e = absurd (none-some e)
rounds-IsAnswer r log (now ∷ later) answer h e =
    turn-IsAnswer (round r now) log (λ next calls. rounds next (log ++ calls) later) answer
      (round-IsTurn r now h)
      (λ next calls q f. rounds-IsAnswer next (log ++ calls) later answer q f) e

began :
    (uninitialized busy : Bool) (x y z : Option (LineResult × Line × List Call))
    (answer : LineResult × Line × List Call)
    → uninitialized ≡ false
    → busy ≡ false
    → (if uninitialized then x else if busy then y else z) ≡ some answer
    → z ≡ some answer
began uninitialized busy x y z answer u b e = rw (u, b) at e

-- Whatever the device and the terminal answer, where `yan_line_next` returns from an idle,
-- initialized line with a buffer of 1024 bytes, the line is idle and holds a text of at most 1023
-- bytes with a NUL behind it, which is empty unless the result is OK, and the last two calls mask
-- and acknowledge the receive interrupt.
pub next-IsAnswer :
    (line : Line) (script : List Round) (answer : LineResult × Line × List Call)
    → line.initialized ≡ true
    → line.busy ≡ false
    → length line.buffer ≡ buffer_size
    → next line script ≡ some answer
    → IsAnswer answer
unfolding next opened
next-IsAnswer line script answer i b sized e =
    let start : Reader = record {
      line = opened line;
      rejecting = false;
      reject_result = line_ok;
    } in
    rounds-IsAnswer start [] script answer (editing start [] refl (Holds-nothing line.buffer sized))
      (began (not line.initialized) line.busy _ _ _ answer (rw i refl) b e)
