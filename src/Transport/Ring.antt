-- ===== src/Transport/Ring.antt =====
-- The accounting of the two rings of src/transport.c.
use Prim.Native.Nat.{◌∣◌}
use native.Mathlib.Nat.{
  mod-mod_of_dvd, mod-lt, mod-eq_of_lt, mod-eq-sub-mod, mod-add-mod, add-mul-mod_self_right,
  add-mod_right, div-add-mod',
}
use native.Mathlib.Decide.{dec_lt}
use yan_os.Base.{
  ℕ, ◌+◌, ◌-◌, ◌*◌, ◌/◌, ◌%◌, ◌^◌, ◌≤◌, ◌<◌, ◌≡◌, refl, sym, ap, ◌∙◌, arith, true, if◌then◌else◌,
  ◌==◌, ==_iff, Bool-cases, inl, inr, bit_or,
}
use yan_os.Status.{ok, invalid_state}
use yan_os.Transport.{
  Transport, usable, ring_used, ring_free, host_readable, host_writable, host_consume, host_publish,
}

-- A placed channel; the guest writes `g2h_head` and `h2g_tail` as it likes.
pub record IsRing (t : Transport) : Type 0 where
  pub live : usable t ≡ true
  pub divides : t.ring_size ∣ 2 ^ 32
  pub pos : 0 < t.ring_size
  pub small : t.ring_size ≤ 2 ^ 31
  pub g2h_tail_in : t.g2h_tail < t.ring_size
  pub h2g_head_in : t.h2g_head < t.ring_size
  pub g2h_head_word : t.g2h_head < 2 ^ 32
  pub h2g_tail_word : t.h2g_tail < 2 ^ 32

module _ (size : ℕ) (divides : size ∣ 2 ^ 32) (size_pos : 0 < size) where
  used-mod : (head tail : ℕ) → ring_used head tail size ≡ (head + 2 ^ 32 - tail) % size
  unfolding ring_used
  used-mod head tail = mod-mod_of_dvd size _ divides

  used-lt : (head tail : ℕ) → ring_used head tail size < size
  unfolding ring_used
  used-lt head tail = mod-lt _ size_pos

  -- Advancing the head by `n` bytes that fit adds `n` to what is used.
  used_advance :
      (head tail n : ℕ)
      → head + n < 2 ^ 32
      → tail < 2 ^ 32
      → ring_used head tail size + n < size
      → ring_used ((head + n) % 2 ^ 32 % size) tail size ≡ ring_used head tail size + n
  used_advance head tail n h k fits =
      let sum : (head + n) % 2 ^ 32 ≡ head + n = mod-eq_of_lt h in
      let left : (head + n) % size + 2 ^ 32 - tail ≡ (head + n) % size + (2 ^ 32 - tail) =
        omega arith in
      let right : head + n + (2 ^ 32 - tail) ≡ head + 2 ^ 32 - tail + n = omega arith in
      let whole : ((head + n) % size + 2 ^ 32 - tail) % size ≡ (head + 2 ^ 32 - tail) % size + n =
        rw (left, mod-add-mod, right, ← mod-add-mod (head + 2 ^ 32 - tail) size n)
          (mod-eq_of_lt (omega (arith, used-mod head tail))) in
      rw sum (used-mod _ tail ∙ whole ∙ ap (λ t. t + n) (sym (used-mod head tail)))

  sub-mod : (x n : ℕ) → n ≤ x % size → (x - n) % size + n ≡ x % size
  sub-mod x n h =
      let e : x - n ≡ x % size - n + x / size * size = omega (arith, div-add-mod' x size) in
      rw (e, add-mul-mod_self_right)
        (rw (mod-eq_of_lt {n = x % size - n} {m = size} (omega (arith, mod-lt x size_pos)))
          (omega arith))

  -- Advancing the tail by `n` used bytes takes `n` off.
  used_consume :
      (head tail n : ℕ)
      → tail < size
      → size ≤ 2 ^ 31
      → head < 2 ^ 32
      → n ≤ ring_used head tail size
      → ring_used head ((tail + n) % 2 ^ 32 % size) size + n ≡ ring_used head tail size
  used_consume head tail n h k w fits = elim (dec_lt (tail + n) size) [
    | yes p ↦
        let e : (tail + n) % 2 ^ 32 % size ≡ tail + n =
          ap (λ t. t % size) (mod-eq_of_lt {n = tail + n} {m = 2 ^ 32} (omega arith))
          ∙ mod-eq_of_lt p in
        let d : head + 2 ^ 32 - (tail + n) ≡ head + 2 ^ 32 - tail - n = omega arith in
        rw e (
          omega (
            arith,
            used-mod head tail,
            used-mod head (tail + n) ∙ ap (λ t. t % size) d,
            sub-mod (head + 2 ^ 32 - tail) n (omega (arith, used-mod head tail)),
          ))
    | no p ↦
        let e : (tail + n) % 2 ^ 32 % size ≡ tail + n - size =
          ap (λ t. t % size)
            (mod-eq_of_lt {n = tail + n} {m = 2 ^ 32} (omega (arith, used-lt head tail)))
          ∙ mod-eq-sub-mod {n = tail + n} {m = size} (omega arith)
          ∙ mod-eq_of_lt {n = tail + n - size} {m = size} (omega (arith, used-lt head tail)) in
        let d : head + 2 ^ 32 - (tail + n - size) ≡ head + 2 ^ 32 - tail - n + size =
          omega (arith, used-lt head tail) in
        rw e (
          omega (
            arith,
            used-mod head tail,
            used-mod head (tail + n - size)
                ∙ ap (λ t. t % size) d
                ∙ add-mod_right (head + 2 ^ 32 - tail - n) size,
            sub-mod (head + 2 ^ 32 - tail) n (omega (arith, used-mod head tail)),
          ))
  ]

-- Bytes that the guest has not read yet.
abbrev pub unread : Transport → ℕ
unread t = ring_used t.h2g_head t.h2g_tail t.ring_size

-- On a ring, the bytes that the host may write and those that the guest has not read make up the
-- ring's size but for the one free cell.
pub writable-add-unread : (t : Transport) → IsRing t → host_writable t + unread t + 1 ≡ t.ring_size
unfolding host_writable ring_free
writable-add-unread t r =
    ground (arith, used-lt t.ring_size r.divides r.pos t.h2g_head t.h2g_tail, r.live, r.small)

abbrev pub advanced : Transport → ℕ → Transport
advanced t n = record t {
  h2g_head = (t.h2g_head + n) % 2 ^ 32 % t.ring_size;
  irq_status = bit_or t.irq_status 1;
}

advanced-IsRing : (t : Transport) (n : ℕ) → IsRing t → IsRing (advanced t n)
unfolding usable
advanced-IsRing t n r = record {
  live = r.live;
  divides = r.divides;
  pos = r.pos;
  small = r.small;
  g2h_tail_in = r.g2h_tail_in;
  h2g_head_in = mod-lt _ r.pos;
  g2h_head_word = r.g2h_head_word;
  h2g_tail_word = r.h2g_tail_word;
}

-- What `host_publish` returns where the bytes fit.
unfoldable pub published : Transport → ℕ → Transport
published t n = if n == 0 then t else advanced t n

pub host_publish-published :
    (t : Transport) (n : ℕ)
    → IsRing t
    → n ≤ host_writable t
    → host_publish t n ≡ (ok, published t n)
unfolding host_publish published
host_publish-published t n r fits = ground (arith, r.live)

pub published-IsRing : (t : Transport) (n : ℕ) → IsRing t → IsRing (published t n)
unfolding published
published-IsRing t n r = elim (Bool-cases (n == 0)) [
  | inl e ↦ rw e r
  | inr e ↦ rw e (advanced-IsRing t n r)
]

published-unread :
    (t : Transport) (n : ℕ)
    → IsRing t
    → n ≤ host_writable t
    → (unread (published t n) ≡ unread t + n) × ((published t n).ring_size ≡ t.ring_size)
unfolding published
published-unread t n r fits = elim (Bool-cases (n == 0)) [
  | inl e ↦ rw e (omega (arith, (==_iff n 0).0 e), refl)
  | inr e ↦ rw e (
    used_advance t.ring_size r.divides r.pos t.h2g_head t.h2g_tail n
        (omega (arith, writable-add-unread t r)) r.h2g_tail_word
        (omega (arith, writable-add-unread t r)),
    refl,
  )
]

-- On a ring, publishing bytes that fit is accepted: the guest finds that many more to read, the
-- host has room for that many less, and the channel is still a ring.
pub host_publish_lem :
    (t : Transport) (n : ℕ)
    → IsRing t
    → n ≤ host_writable t
    → let (s, t') = host_publish t n in
      (s ≡ ok) × (unread t' ≡ unread t + n) × (host_writable t' + n ≡ host_writable t) × IsRing t'
host_publish_lem t n r fits =
    let r' = published-IsRing t n r in
    let u = published-unread t n r fits in
    rw (host_publish-published t n r fits) (
      refl,
      u.0,
      omega (arith, u, writable-add-unread t r, writable-add-unread (published t n) r'),
      r',
    )

abbrev pub consumed : Transport → ℕ → Transport
consumed t n = record t { g2h_tail = (t.g2h_tail + n) % 2 ^ 32 % t.ring_size }

pub consumed-IsRing : (t : Transport) (n : ℕ) → IsRing t → IsRing (consumed t n)
unfolding usable
consumed-IsRing t n r = record {
  live = r.live;
  divides = r.divides;
  pos = r.pos;
  small = r.small;
  g2h_tail_in = mod-lt _ r.pos;
  h2g_head_in = r.h2g_head_in;
  g2h_head_word = r.g2h_head_word;
  h2g_tail_word = r.h2g_tail_word;
}

pub host_consume-consumed :
    (t : Transport) (n : ℕ) → IsRing t → n ≤ host_readable t → host_consume t n ≡ (ok, consumed t n)
unfolding host_consume
host_consume-consumed t n r fits = ground (arith, r.live)

host_readable-used :
    (t : Transport) → IsRing t → host_readable t ≡ ring_used t.g2h_head t.g2h_tail t.ring_size
unfolding host_readable
host_readable-used t r = ground (arith, r.live)

-- On a ring, consuming readable bytes is accepted, leaves the host that many less to read, and
-- the channel is still a ring.
pub host_consume_lem :
    (t : Transport) (n : ℕ)
    → IsRing t
    → n ≤ host_readable t
    → let (s, t') = host_consume t n in
      (s ≡ ok) × (host_readable t' + n ≡ host_readable t) × IsRing t'
host_consume_lem t n r fits =
    let r' = consumed-IsRing t n r in
    rw (host_consume-consumed t n r fits) (
      refl,
      omega (
        arith,
        host_readable-used t r,
        host_readable-used (consumed t n) r',
        used_consume t.ring_size r.divides r.pos t.g2h_head t.g2h_tail n r.g2h_tail_in r.small
            r.g2h_head_word (omega (arith, host_readable-used t r)),
      ),
      r',
    )

-- On a ring, publishing more bytes than there is room for is refused: the overrun is latched and
-- nothing else changes.
pub publish_overrun :
    (t : Transport) (n : ℕ)
    → IsRing t
    → host_writable t < n
    → host_publish t n ≡ (invalid_state, record t { overflow_detected = true })
unfolding host_publish
publish_overrun t n r h = ground (arith, r.live)

-- On a ring, consuming more bytes than are readable is refused: the overrun is latched and
-- nothing else changes.
pub consume_overrun :
    (t : Transport) (n : ℕ)
    → IsRing t
    → host_readable t < n
    → host_consume t n ≡ (invalid_state, record t { overflow_detected = true })
unfolding host_consume
consume_overrun t n r h = ground (arith, r.live)
