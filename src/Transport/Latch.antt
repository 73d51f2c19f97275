-- ===== src/Transport/Latch.antt =====
-- The overrun latch of src/transport.c over sequences of calls.
use native.Mathlib.Decide.{dec_lt}
use yan_os.Base.{ltb_of_lt, ltb_of_le, ℕ, ◌^◌, ◌<◌, ◌≡◌, refl, sym, ap, ◌∙◌, arith}
use yan_os.Base.{Bool, true, false, ◌||◌, ltb, List, [], ◌∷◌, All, to_int}
use mathlib.Core.Path.{subst}
use yan_os.Base.Bits.{bit_at}
use yan_os.Transport.{Transport, usable, status, read, write, host_consume, host_publish}
use yan_os.Transport.{host_readable, host_writable}
use yan_os.Transport.Ring.{
  IsRing, consume_overrun, publish_overrun, host_consume-consumed, host_publish-published,
}
use yan_os.Transport.Ring.{consumed-IsRing, published-IsRing, published}

-- What happens to a channel between two resets of it: the guest stores a word to a register, the
-- host takes bytes, the host hands bytes over.
pub data Call : Type 0 where
  stores : ℕ → ℕ → Call
  takes hands : ℕ → Call

abbrev pub IsWordCall : Call → Type 0
IsWordCall (stores offset value) = value < 2 ^ 32
IsWordCall (takes n) = Unit {0}
IsWordCall (hands n) = Unit {0}

abbrev pub after : Transport → Call → Transport
after t (stores offset value) = (write t offset value).1
after t (takes n) = (host_consume t n).1
after t (hands n) = (host_publish t n).1

-- Did the host ask for more than there is?
abbrev pub overran : Transport → Call → Bool
overran t (stores offset value) = false
overran t (takes n) = ltb (host_readable t) n
overran t (hands n) = ltb (host_writable t) n

abbrev pub run : Transport → List Call → Transport
run t [] = t
run t (c ∷ cs) = run (after t c) cs

abbrev pub any_overran : Transport → List Call → Bool
any_overran t [] = false
any_overran t (c ∷ cs) = overran t c || any_overran (after t c) cs

latched-IsRing : (t : Transport) → IsRing t → IsRing (record t { overflow_detected = true })
unfolding usable
latched-IsRing t r = record {
  live = r.live;
  divides = r.divides;
  pos = r.pos;
  small = r.small;
  g2h_tail_in = r.g2h_tail_in;
  h2g_head_in = r.h2g_head_in;
  g2h_head_word = r.g2h_head_word;
  h2g_tail_word = r.h2g_tail_word;
}

module _ (t : Transport) (offset value : ℕ) where
  write-ring :
      ((write t offset value).1.ring_size ≡ t.ring_size)
      × ((write t offset value).1.attached ≡ t.attached)
      × ((write t offset value).1.g2h_tail ≡ t.g2h_tail)
      × ((write t offset value).1.h2g_head ≡ t.h2g_head)
      × ((write t offset value).1.overflow_detected ≡ t.overflow_detected)
  unfolding write
  write-ring = (ground arith, ground arith, ground arith, ground arith, ground arith)

  write-words :
      IsRing t
      → value < 2 ^ 32
      → ((write t offset value).1.g2h_head < 2 ^ 32) × ((write t offset value).1.h2g_tail < 2 ^ 32)
  unfolding write
  write-words r small =
      (ground (arith, r.g2h_head_word, small), ground (arith, r.h2g_tail_word, small))

  write-IsRing : IsRing t → value < 2 ^ 32 → IsRing (write t offset value).1
  unfolding usable
  write-IsRing r small =
      let same = write-ring in
      let words = write-words r small in
      record {
        live = rw (same.0, same.1) r.live;
        divides = rw (same.0) r.divides;
        pos = rw (same.0) r.pos;
        small = rw (same.0) r.small;
        g2h_tail_in = rw (same.0, same.2) r.g2h_tail_in;
        h2g_head_in = rw (same.0, same.3) r.h2g_head_in;
        g2h_head_word = words.0;
        h2g_tail_word = words.1;
      }

or_true : (b : Bool) → (b || true) ≡ true
or_true true = refl
or_true false = refl

or_false : (b : Bool) → (b || false) ≡ b
or_false true = refl
or_false false = refl

or_assoc : (a b c : Bool) → (a || b || c) ≡ (a || (b || c))
or_assoc true b c = refl
or_assoc false b c = refl

published-overflow :
    (t : Transport) (n : ℕ) → (published t n).overflow_detected ≡ t.overflow_detected
unfolding published
published-overflow t n = ground arith

-- One call keeps the ring, and latches exactly an overrun.
abbrev Latches : Transport → Call → Type 0
Latches t c =
    IsRing (after t c) × ((after t c).overflow_detected ≡ (t.overflow_detected || overran t c))

from_call :
    (t t' : Transport) (c : Call) (b : Bool)
    → after t c ≡ t'
    → IsRing t'
    → t'.overflow_detected ≡ (t.overflow_detected || b)
    → overran t c ≡ b
    → Latches t c
from_call t t' c b e r f g = (
  subst IsRing (sym e) r,
  ap (λ u. u.overflow_detected) e ∙ f ∙ ap (λ b. t.overflow_detected || b) (sym g),
)

takes-Latches : (t : Transport) (n : ℕ) → IsRing t → Latches t (takes n)
takes-Latches t n r = elim (dec_lt (host_readable t) n) [
  | yes p ↦
      from_call t _ (takes n) true (ap (λ u. u.1) (consume_overrun t n r p)) (latched-IsRing t r)
        (sym (or_true t.overflow_detected)) (ltb_of_lt {a = host_readable t} {b = n} p)
  | no p ↦
      from_call t _ (takes n) false (ap (λ u. u.1) (host_consume-consumed t n r (omega arith)))
        (consumed-IsRing t n r) (sym (or_false t.overflow_detected))
        (ltb_of_le {a = host_readable t} {b = n} (omega arith))
]

hands-Latches : (t : Transport) (n : ℕ) → IsRing t → Latches t (hands n)
hands-Latches t n r = elim (dec_lt (host_writable t) n) [
  | yes p ↦
      from_call t _ (hands n) true (ap (λ u. u.1) (publish_overrun t n r p)) (latched-IsRing t r)
        (sym (or_true t.overflow_detected)) (ltb_of_lt {a = host_writable t} {b = n} p)
  | no p ↦
      from_call t _ (hands n) false (ap (λ u. u.1) (host_publish-published t n r (omega arith)))
        (published-IsRing t n r) (published-overflow t n ∙ sym (or_false t.overflow_detected))
        (ltb_of_le {a = host_writable t} {b = n} (omega arith))
]

after-Latches : (t : Transport) (c : Call) → IsRing t → IsWordCall c → Latches t c
after-Latches t (stores offset value) r h = (
  write-IsRing t offset value r h,
  (write-ring t offset value).4 ∙ sym (or_false t.overflow_detected),
)
after-Latches t (takes n) r h = takes-Latches t n r
after-Latches t (hands n) r h = hands-Latches t n r

run-Latches :
    (t : Transport) (cs : List Call)
    → IsRing t
    → All IsWordCall cs
    → IsRing (run t cs) × ((run t cs).overflow_detected ≡ (t.overflow_detected || any_overran t cs))
run-Latches t [] r h = (r, sym (or_false t.overflow_detected))
run-Latches t (c ∷ cs) r h =
    let one = after-Latches t c r (h.0) in
    let rest = run-Latches (after t c) cs (one.0) (h.1) in
    (
      rest.0,
      rest.1
          ∙ ap (λ b. b || any_overran (after t c) cs) one.1
          ∙ or_assoc t.overflow_detected (overran t c) (any_overran (after t c) cs),
    )

status_overflow :
    (t : Transport) → IsRing t → bit_at (read t 0x008 0).1 3 ≡ to_int t.overflow_detected
unfolding read status
status_overflow t r = rw r.live (ground arith)

-- Over any sequence of stores of words to the registers by the guest and of consumes and
-- publishes by the host, a ring stays a ring, and the overrun bit that the guest reads in STATUS
-- is set exactly if it was set before or the host asked, in some call, for more bytes than were
-- readable or for more than there was room.
pub run-latched :
    (t : Transport) (cs : List Call)
    → IsRing t
    → All IsWordCall cs
    → IsRing (run t cs)
      × (bit_at (read (run t cs) 0x008 0).1 3 ≡ to_int (t.overflow_detected || any_overran t cs))
run-latched t cs r h =
    let whole = run-Latches t cs r h in
    (whole.0, status_overflow (run t cs) (whole.0) ∙ ap to_int whole.1)
