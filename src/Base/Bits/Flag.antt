-- ===== src/Base/Bits/Flag.antt =====
-- One bit of a word: set, cleared and tested through the mask `1 << s`.
use Prim.Native.Nat.{ℕ, zero, suc, ◌+◌, ◌-◌, ◌*◌, ◌/◌, ◌^◌, ◌≤◌, ◌<◌, min}
use Prim.Native.Nat.{bit_and, bit_or}
use mathlib.Core.Path.{◌≡◌, refl, sym, ap, ◌∙◌}
use mathlib.Core.Logic.{◌≢◌, inl, inr}
use mathlib.Core.Bool.{true, false}
use native.Mathlib.Nat.{pow-suc, one-le-pow, pow-le-pow_right}
use native.Mathlib.Decide.{ℕ_discrete, dec_lt}
use native.Mathlib.Omega.{arith}
use yan_os.Base.Tests.{◌==◌, ◌!=◌, Bool-cases, ==_iff, ==_of_eq, ==_of_ne, if◌then◌else◌}
use yan_os.Base.Bits.{bit_at, bit_at-lt, bit_at_zero, bit_ext, bit_at-bit_and, bit_at-bit_or}

-- `~a` on a `uint32_t`.
abbrev pub bit_not : ℕ → ℕ
bit_not a = 2 ^ 32 - 1 - a

pub bit_at_pow_self : (s : ℕ) → bit_at (2 ^ s) s ≡ 1
bit_at_pow_self zero = refl
bit_at_pow_self (suc s) =
    let e : 2 ^ suc s / 2 ≡ 2 ^ s = omega (arith, pow-suc 2 s) in
    ap (λ t. bit_at t s) e ∙ bit_at_pow_self s

pub bit_at_pow_ne : (s j : ℕ) → s ≢ j → bit_at (2 ^ s) j ≡ 0
bit_at_pow_ne zero zero h = absurd (h refl)
bit_at_pow_ne zero (suc j) h = bit_at_zero j
bit_at_pow_ne (suc s) zero h = omega (arith, pow-suc 2 s)
bit_at_pow_ne (suc s) (suc j) h =
    let e : 2 ^ suc s / 2 ≡ 2 ^ s = omega (arith, pow-suc 2 s) in
    ap (λ t. bit_at t j) e ∙ bit_at_pow_ne s j (λ p. h (ap suc p))

-- `a & (1 << s)`, as the code tests a flag.
pub bit_and-pow : (a s : ℕ) → bit_and a (2 ^ s) ≡ bit_at a s * 2 ^ s
bit_and-pow a s = bit_ext _ _ go
  where
    bit : (b : ℕ) → b < 2 → (j : ℕ) → bit_at (b * 2 ^ s) j ≡ min b (bit_at (2 ^ s) j)
    bit zero h j = let e : 0 * 2 ^ s ≡ 0 = omega arith in rw (e, bit_at_zero j) (omega arith)
    bit (suc zero) h j =
        let e : 1 * 2 ^ s ≡ 2 ^ s = omega arith in rw e (omega (arith, bit_at-lt (2 ^ s) j))
    bit (suc (suc b)) h j = absurd (omega arith)

    go : (j : ℕ) → bit_at (bit_and a (2 ^ s)) j ≡ bit_at (bit_at a s * 2 ^ s) j
    go j = elim (ℕ_discrete s j) [
      | yes e ↦ rw (bit_at-bit_and a (2 ^ s) j, bit (bit_at a s) (bit_at-lt a s) j, e)
      | no ne ↦ omega (
        arith,
        bit_at-bit_and a (2 ^ s) j,
        bit (bit_at a s) (bit_at-lt a s) j,
        bit_at_pow_ne s j ne,
      )
    ]

pub bit_at-set_self : (a s : ℕ) → bit_at (bit_or a (2 ^ s)) s ≡ 1
bit_at-set_self a s = omega (arith, bit_at-bit_or a (2 ^ s) s, bit_at_pow_self s, bit_at-lt a s)

pub bit_at-set_ne : (a s j : ℕ) → s ≢ j → bit_at (bit_or a (2 ^ s)) j ≡ bit_at a j
bit_at-set_ne a s j h = omega (arith, bit_at-bit_or a (2 ^ s) j, bit_at_pow_ne s j h)

-- The digits of the complement within a width.
pub bit_at-complement : (w x i : ℕ) → x < 2 ^ w → i < w → bit_at (2 ^ w - 1 - x) i + bit_at x i ≡ 1
bit_at-complement zero x i h k = absurd (omega arith)
bit_at-complement (suc w) x zero h k = omega (arith, pow-suc 2 w, one-le-pow w 2)
bit_at-complement (suc w) x (suc i) h k =
    let e : (2 ^ suc w - 1 - x) / 2 ≡ 2 ^ w - 1 - x / 2 = omega (arith, pow-suc 2 w) in
    rw e (bit_at-complement w (x / 2) i (omega (arith, pow-suc 2 w)) (omega arith))

pub bit_at_above : (w x i : ℕ) → x < 2 ^ w → w ≤ i → bit_at x i ≡ 0
bit_at_above zero x i h k = let e : x ≡ 0 = omega arith in rw e (bit_at_zero i)
bit_at_above (suc w) x zero h k = absurd (omega arith)
bit_at_above (suc w) x (suc i) h k =
    bit_at_above w (x / 2) i (omega (arith, pow-suc 2 w)) (omega arith)

pub pow-lt-word : (s : ℕ) → s < 32 → 2 ^ s < 2 ^ 32
pow-lt-word s h =
    omega (arith, pow-le-pow_right {n = 2} (omega arith) {i = s} {j = 31} (omega arith))

pub bit_at-clear_self : (a s : ℕ) → s < 32 → bit_at (bit_and a (bit_not (2 ^ s))) s ≡ 0
bit_at-clear_self a s h = omega (
  arith,
  bit_at-bit_and a (bit_not (2 ^ s)) s,
  bit_at-complement 32 (2 ^ s) s (pow-lt-word s h) h,
  bit_at_pow_self s,
)

pub bit_at-clear_ne :
    (a s j : ℕ) → a < 2 ^ 32 → s < 32 → s ≢ j → bit_at (bit_and a (bit_not (2 ^ s))) j ≡ bit_at a j
bit_at-clear_ne a s j ha h ne = elim (dec_lt j 32) [
  | yes p ↦ omega (
    arith,
    bit_at-bit_and a (bit_not (2 ^ s)) j,
    bit_at-complement 32 (2 ^ s) j (pow-lt-word s h) p,
    bit_at_pow_ne s j ne,
    bit_at-lt a j,
  )
  | no p ↦ omega (arith, bit_at-bit_and a (bit_not (2 ^ s)) j, bit_at_above 32 a j ha (omega arith))
]

pub bit_at-clear_below :
    (a s j : ℕ) → s < 32 → j < 32 → s ≢ j → bit_at (bit_and a (bit_not (2 ^ s))) j ≡ bit_at a j
bit_at-clear_below a s j h k ne = omega (
  arith,
  bit_at-bit_and a (bit_not (2 ^ s)) j,
  bit_at-complement 32 (2 ^ s) j (pow-lt-word s h) k,
  bit_at_pow_ne s j ne,
  bit_at-lt a j,
)

-- A number whose digits stop below `w` fits `w` bits.
lt_of_bits : (w x : ℕ) → ((i : ℕ) → w ≤ i → bit_at x i ≡ 0) → x < 2 ^ w
lt_of_bits zero x h =
    let e : x ≡ 0 = bit_ext x 0 (λ i. h i (omega arith) ∙ sym (bit_at_zero i)) in omega arith
lt_of_bits (suc w) x h =
    omega (arith, pow-suc 2 w, lt_of_bits w (x / 2) (λ i p. h (suc i) (omega arith)))

pub bit_and-lt : (w a b : ℕ) → a < 2 ^ w → bit_and a b < 2 ^ w
bit_and-lt w a b h =
    lt_of_bits w _ λ i p. omega (arith, bit_at-bit_and a b i, bit_at_above w a i h p)

pub bit_or-lt : (w a b : ℕ) → a < 2 ^ w → b < 2 ^ w → bit_or a b < 2 ^ w
bit_or-lt w a b h k =
    lt_of_bits w _
      λ i p. omega (arith, bit_at-bit_or a b i, bit_at_above w a i h p, bit_at_above w b i k p)

-- The test `(a & (1 << s)) != 0`, and its negation.
pub flag_set : (a s : ℕ) → bit_at a s ≡ 1 → (bit_and a (2 ^ s) != 0) ≡ true
flag_set a s h =
    let e : bit_and a (2 ^ s) ≡ 1 * 2 ^ s = bit_and-pow a s ∙ ap (λ t. t * 2 ^ s) h in
    ground (arith, e, one-le-pow s 2)

pub flag_clear : (a s : ℕ) → bit_at a s ≡ 0 → (bit_and a (2 ^ s) != 0) ≡ false
flag_clear a s h =
    let e : bit_and a (2 ^ s) ≡ 0 * 2 ^ s = bit_and-pow a s ∙ ap (λ t. t * 2 ^ s) h in
    ground (arith, e)

pub flag_test : (a s : ℕ) → (bit_and a (2 ^ s) != 0) ≡ (bit_at a s == 1)
flag_test a s = elim (Bool-cases (bit_at a s == 1)) [
  | inl e ↦ rw e (flag_set a s (omega (arith, (==_iff (bit_at a s) 1).0 e)))
  | inr e ↦ rw e (flag_clear a s (ground (arith, bit_at-lt a s)))
]

pub flag_test_not : (a s : ℕ) → (bit_and a (2 ^ s) == 0) ≡ (bit_at a s == 0)
flag_test_not a s = ground (arith, flag_test a s, bit_at-lt a s)

-- Each digit of a word after the flag `1 << s` is set or cleared.
pub set_bits : (a s j : ℕ) → bit_at (bit_or a (2 ^ s)) j ≡ (if j == s then 1 else bit_at a j)
set_bits a s j = elim (ℕ_discrete s j) [
  | yes e ↦ rw (==_of_eq (sym e)) (ap (bit_at (bit_or a (2 ^ s))) (sym e) ∙ bit_at-set_self a s)
  | no ne ↦ rw (==_of_ne (λ e. ne (sym e))) (bit_at-set_ne a s j ne)
]

pub clear_bits :
    (a s j : ℕ)
    → a < 2 ^ 32
    → s < 32
    → bit_at (bit_and a (bit_not (2 ^ s))) j ≡ (if j == s then 0 else bit_at a j)
clear_bits a s j h k = elim (ℕ_discrete s j) [
  | yes e ↦
      rw (==_of_eq (sym e))
        (ap (bit_at (bit_and a (bit_not (2 ^ s)))) (sym e) ∙ bit_at-clear_self a s k)
  | no ne ↦ rw (==_of_ne (λ e. ne (sym e))) (bit_at-clear_ne a s j h k ne)
]

-- Setting what is set, or clearing what is clear, changes nothing.
pub set_idle : (a s : ℕ) → bit_at a s ≡ 1 → bit_or a (2 ^ s) ≡ a
set_idle a s h = bit_ext _ a λ j. elim (ℕ_discrete s j) [
  | yes e ↦ omega (arith, ap (bit_at (bit_or a (2 ^ s))) e, ap (bit_at a) e, bit_at-set_self a s)
  | no ne ↦ bit_at-set_ne a s j ne
]

pub clear_idle : (a s : ℕ) → a < 2 ^ 32 → s < 32 → bit_at a s ≡ 0 → bit_and a (bit_not (2 ^ s)) ≡ a
clear_idle a s small k h = bit_ext _ a λ j. elim (ℕ_discrete s j) [
  | yes e ↦
      omega (
        arith,
        ap (bit_at (bit_and a (bit_not (2 ^ s)))) e,
        ap (bit_at a) e,
        bit_at-clear_self a s k,
      )
  | no ne ↦ bit_at-clear_ne a s j small k ne
]
