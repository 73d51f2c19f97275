-- ===== src/Transport/Configure.antt =====
-- Where src/transport.c lets a ring be placed.
use yan_os.Base.{ℕ, zero, suc, ◌+◌, ◌-◌, ◌*◌, ◌/◌, ◌%◌, ◌^◌, ◌≤◌, ◌<◌, ◌≡◌, ap, ◌∙◌, arith, bit_and}
use mathlib.Core.Path.{subst}
use native.Mathlib.Nat.{pow-suc}
use native.Mathlib.Decide.{ℕ_discrete}
use yan_os.Base.Bits.{bit_and_fields, bit_and_self}
use yan_os.Status.{ok, invalid_argument}
use yan_os.Transport.{Transport, configure, min_ring_size}

half_pair : (m : ℕ) → 0 < m → bit_and (2 * m) (2 * m - 1) ≡ 2 * bit_and m (m - 1)
half_pair m pos =
    let fields = bit_and_fields 1 m 0 (m - 1) 1 (omega arith) (omega arith) in
    let left : m * 2 ^ 1 + 0 ≡ 2 * m = omega arith in
    let right : (m - 1) * 2 ^ 1 + 1 ≡ 2 * m - 1 = omega arith in
    rw (left, right) at fields ∙ omega arith

odd_pair : (m : ℕ) → bit_and (2 * m + 1) (2 * m) ≡ 2 * m
odd_pair m =
    let fields = bit_and_fields 1 m 1 m 0 (omega arith) (omega arith) in
    let left : m * 2 ^ 1 + 1 ≡ 2 * m + 1 = omega arith in
    let right : m * 2 ^ 1 + 0 ≡ 2 * m = omega arith in
    rw (left, right) at fields ∙ omega (arith, bit_and_self m)

-- `x & (x - 1)` is zero for the powers of two alone.
power_of_two_below : (n x : ℕ) → x ≤ n → 0 < x → bit_and x (x - 1) ≡ 0 → (k : ℕ) × (x ≡ 2 ^ k)
power_of_two_below zero x below pos h = absurd (omega arith)
power_of_two_below (suc n) x below pos h = elim (ℕ_discrete (x % 2) 0) [
  | yes even ↦
      let e : x ≡ 2 * (x / 2) = omega arith in
      let h' : bit_and (2 * (x / 2)) (2 * (x / 2) - 1) ≡ 0 =
        subst (λ y. bit_and y (y - 1) ≡ 0) e h in
      let (k, p) =
        power_of_two_below n (x / 2) (omega arith) (omega arith)
          (omega (arith, half_pair (x / 2) (omega arith))) in
      (suc k, omega (arith, pow-suc 2 k))
  | no odd ↦
      let e : x ≡ 2 * (x / 2) + 1 = omega arith in
      let d : x - 1 ≡ 2 * (x / 2) = omega arith in
      (0, omega (arith, ap (bit_and x) d, ap (λ y. bit_and y (2 * (x / 2))) e, odd_pair (x / 2)))
]

configure_checks :
    (t : Transport) (ring_base ring_size ram_base ram_size : ℕ)
    → ring_base < 2 ^ 32
    → ring_size < 2 ^ 32
    → ram_base + ram_size ≤ 2 ^ 32
    → (configure t ring_base ring_size ram_base ram_size).0 ≡ ok
    → (ram_base ≤ ring_base)
      × (ring_base + 2 * ring_size ≤ ram_base + ram_size)
      × (min_ring_size ≤ ring_size)
      × (bit_and ring_size (ring_size - 1) ≡ 0)
unfolding configure
configure_checks t ring_base ring_size ram_base ram_size hb hs fits h =
    let m : min_ring_size ≤ ring_size → (ring_size + 2 ^ 32 - 1) % 2 ^ 32 ≡ ring_size - 1 =
      λ p. omega arith in
    ground (arith, m)

-- A placement that is accepted in a RAM window inside the 32-bit address space has both rings
-- inside the window, a ring size of at least the minimum, and a power of two for it.
pub configure-fits :
    (t : Transport) (ring_base ring_size ram_base ram_size : ℕ)
    → ring_base < 2 ^ 32
    → ring_size < 2 ^ 32
    → ram_base + ram_size ≤ 2 ^ 32
    → (configure t ring_base ring_size ram_base ram_size).0 ≡ ok
    → (ram_base ≤ ring_base)
      × (ring_base + 2 * ring_size ≤ ram_base + ram_size)
      × (min_ring_size ≤ ring_size)
      × ((k : ℕ) × (ring_size ≡ 2 ^ k))
configure-fits t ring_base ring_size ram_base ram_size hb hs fits h =
    let c = configure_checks t ring_base ring_size ram_base ram_size hb hs fits h in
    (c.0, c.1, c.2, power_of_two_below ring_size ring_size (omega arith) (omega (arith, c.2)) c.3)

-- Where the RAM window ends at 2^32, every placement is refused with an invalid argument and the
-- channel is unchanged.
pub configure_top :
    (t : Transport) (ring_base ring_size ram_base ram_size : ℕ)
    → ram_base + ram_size ≡ 2 ^ 32
    → configure t ring_base ring_size ram_base ram_size ≡ (invalid_argument, t)
unfolding configure
configure_top t ring_base ring_size ram_base ram_size top = ground arith
