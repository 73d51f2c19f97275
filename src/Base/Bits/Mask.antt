-- ===== src/Base/Bits/Mask.antt =====
-- Masks of the low or the high bits of a word, as arithmetic.
use Prim.Native.Nat.{ℕ, zero, suc, ◌+◌, ◌-◌, ◌*◌, ◌/◌, ◌%◌, ◌^◌, ◌<◌}
use Prim.Native.Nat.{bit_and, bit_or, bit_xor}
use mathlib.Core.Path.{◌≡◌, refl, ap, ◌∙◌}
use native.Mathlib.Nat.{pow-suc, one-le-pow, div-add-mod', mod-lt, div-eq_of_lt, mod-eq_of_lt}
use native.Mathlib.Nat.{mod-eq-sub-mod, div-eq_of_lt-le, div-lt_iff_lt-mul}
use native.Mathlib.Decide.{dec_lt}
use native.Mathlib.Omega.{arith}
use yan_os.Base.Bits.{bit_and_fields, bit_or_fields, bit_xor_fields, bit_and-zero, bit_or-zero}
use yan_os.Base.Bits.{zero-bit_or, bit_xor-zero}

-- `(q << k) | r` of fields that do not overlap is a sum.
pub bit_or-disjoint : (k q r : ℕ) → r < 2 ^ k → bit_or (q * 2 ^ k) r ≡ q * 2 ^ k + r
bit_or-disjoint k q r h =
    let fields = bit_or_fields k q 0 0 r (omega (arith, one-le-pow k 2)) h in
    rw (bit_or-zero, zero-bit_or) at
      (rw (let e : q * 2 ^ k + 0 ≡ q * 2 ^ k = omega arith in e) at
        (rw (let e : 0 * 2 ^ k + r ≡ r = omega arith in e) at fields))

pub bit_or-disjoint' : (k q r : ℕ) → r < 2 ^ k → bit_or r (q * 2 ^ k) ≡ q * 2 ^ k + r
bit_or-disjoint' k q r h =
    let fields = bit_or_fields k 0 r q 0 h (omega (arith, one-le-pow k 2)) in
    rw (bit_or-zero, zero-bit_or) at
      (rw (let e : q * 2 ^ k + 0 ≡ q * 2 ^ k = omega arith in e) at
        (rw (let e : 0 * 2 ^ k + r ≡ r = omega arith in e) at fields))

bit_and-one : (r : ℕ) → r < 2 → bit_and r 1 ≡ r
bit_and-one zero h = refl
bit_and-one (suc zero) h = refl
bit_and-one (suc (suc r)) h = absurd (omega arith)

bit_and-ones : (k r : ℕ) → r < 2 ^ k → bit_and r (2 ^ k - 1) ≡ r
bit_and-ones zero r h = bit_and-zero r ∙ (omega arith)
bit_and-ones (suc k) r h =
    let fields = bit_and_fields 1 (r / 2) (r % 2) (2 ^ k - 1) 1 (omega arith) (omega arith) in
    let low : r / 2 * 2 ^ 1 + r % 2 ≡ r = omega arith in
    let mask : (2 ^ k - 1) * 2 ^ 1 + 1 ≡ 2 ^ suc k - 1 =
      omega (arith, pow-suc 2 k, one-le-pow k 2) in
    rw (low, mask) at fields
    ∙ omega (
      arith,
      bit_and-ones k (r / 2) (omega (arith, pow-suc 2 k)),
      bit_and-one (r % 2) (omega arith),
    )

split_at : (k a : ℕ) → a / 2 ^ k * 2 ^ k + a % 2 ^ k ≡ a
split_at k a = div-add-mod' a (2 ^ k)

pow-pos : (k : ℕ) → 0 < 2 ^ k
pow-pos k = omega (arith, one-le-pow k 2)

-- `a & (2^k - 1)` is a remainder.
pub bit_and-low : (k a : ℕ) → bit_and a (2 ^ k - 1) ≡ a % 2 ^ k
bit_and-low k a =
    let fields =
      bit_and_fields k (a / 2 ^ k) (a % 2 ^ k) 0 (2 ^ k - 1) (mod-lt a (pow-pos k))
        (omega (arith, pow-pos k)) in
    let mask : 0 * 2 ^ k + (2 ^ k - 1) ≡ 2 ^ k - 1 = omega arith in
    rw (split_at k a, mask, bit_and-zero) at fields
    ∙ omega (arith, bit_and-ones k (a % 2 ^ k) (mod-lt a (pow-pos k)))

-- `a & (m << k)` drops the low `k` bits of `a`.
pub bit_and-high : (k m a : ℕ) → bit_and a (m * 2 ^ k) ≡ bit_and (a / 2 ^ k) m * 2 ^ k
bit_and-high k m a =
    let fields = bit_and_fields k (a / 2 ^ k) (a % 2 ^ k) m 0 (mod-lt a (pow-pos k)) (pow-pos k) in
    let mask : m * 2 ^ k + 0 ≡ m * 2 ^ k = omega arith in
    rw (split_at k a, mask, bit_and-zero) at fields ∙ omega arith

-- `x & 0xfffffffc` of a 32-bit word clears the two low bits.
pub bit_and-word_mask : (a : ℕ) → a < 2 ^ 32 → bit_and a 0xffff_fffc ≡ a / 4 * 4
bit_and-word_mask a h = omega (arith, bit_and-high 2 (2 ^ 30 - 1) a, bit_and-low 30 (a / 4))

-- `x & 0xfffffffe` clears the low bit.
pub bit_and-even_mask : (a : ℕ) → a < 2 ^ 32 → bit_and a 0xffff_fffe ≡ a / 2 * 2
bit_and-even_mask a h = omega (arith, bit_and-high 1 (2 ^ 31 - 1) a, bit_and-low 31 (a / 2))

flip_digit : (q : ℕ) → q < 2 → bit_xor q 1 ≡ 1 - q
flip_digit zero h = refl
flip_digit (suc zero) h = refl
flip_digit (suc (suc q)) h = absurd (omega arith)

-- Flipping the top bit of a `w + 1`-bit word adds half of its range, with wrap-around.
pub bit_xor-top : (w x : ℕ) → x < 2 ^ suc w → bit_xor x (2 ^ w) ≡ (x + 2 ^ w) % 2 ^ suc w
bit_xor-top w x h = flipped ∙ elim (dec_lt x (2 ^ w)) [
  | yes p ↦
      let e : x / 2 ^ w ≡ 0 = div-eq_of_lt p in
      let e' : x % 2 ^ w ≡ x = mod-eq_of_lt p in
      rw (e, e', mod-eq_of_lt {n = x + 2 ^ w} {m = 2 ^ suc w} (omega (arith, pow-suc 2 w)))
        (omega arith)
  | no p ↦
      let e : x / 2 ^ w ≡ 1 = div-eq_of_lt-le (2 ^ w) (omega arith) (omega (arith, pow-suc 2 w)) in
      let e' : x % 2 ^ w ≡ x - 2 ^ w = omega (arith, split_at w x, ap (λ t. t * 2 ^ w) e) in
      rw
        (
          e,
          e',
          mod-eq-sub-mod {n = x + 2 ^ w} {m = 2 ^ suc w} (omega (arith, pow-suc 2 w)),
          mod-eq_of_lt {n = x + 2 ^ w - 2 ^ suc w} {m = 2 ^ suc w} (omega (arith, pow-suc 2 w)),
        )
        (omega (arith, pow-suc 2 w))
]
  where
    flipped : bit_xor x (2 ^ w) ≡ (1 - x / 2 ^ w) * 2 ^ w + x % 2 ^ w
    flipped =
        let fields =
          bit_xor_fields w (x / 2 ^ w) (x % 2 ^ w) 1 0 (mod-lt x (pow-pos w)) (pow-pos w) in
        let mask : 1 * 2 ^ w + 0 ≡ 2 ^ w = omega arith in
        let small : x / 2 ^ w < 2 =
          (div-lt_iff_lt-mul (pow-pos w)).1 (omega (arith, pow-suc 2 w)) in
        rw (split_at w x, mask, bit_xor-zero, flip_digit (x / 2 ^ w) small) at fields
