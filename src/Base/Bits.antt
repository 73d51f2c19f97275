-- ===== src/Base/Bits.antt =====
-- The binary digits of a number, and the bit operations of C digit by digit.
pub mod Mask
pub mod Flag
use Prim.Native.Nat.{ℕ, zero, suc, ◌+◌, ◌-◌, ◌*◌, ◌/◌, ◌%◌, ◌^◌, ◌≤◌, ◌<◌}
use Prim.Native.Nat.{min, max, bit_and, bit_or, bit_xor, digits}
use Prim.Native.Nat.{bit_and-bitwise, bit_or-bitwise, bit_xor-bitwise, differ}
use mathlib.Core.Path.{◌≡◌, refl, sym, ap, ◌∙◌}
use native.Mathlib.Nat.{pow-suc}
use native.Mathlib.Omega.{arith}

abbrev pub bit_at : ℕ → ℕ → ℕ
bit_at a zero = a % 2
bit_at a (suc i) = bit_at (a / 2) i

pub bit_at-lt : (a i : ℕ) → bit_at a i < 2
bit_at-lt a zero = omega arith
bit_at-lt a (suc i) = bit_at-lt (a / 2) i

pub bit_at_zero : (i : ℕ) → bit_at 0 i ≡ 0
bit_at_zero zero = refl
bit_at_zero (suc i) = bit_at_zero i

bit_ext_below : (n a b : ℕ) → a ≤ n → b ≤ n → ((i : ℕ) → bit_at a i ≡ bit_at b i) → a ≡ b
bit_ext_below zero a b p q h = omega arith
bit_ext_below (suc n) a b p q h =
    omega (arith, h 0, bit_ext_below n (a / 2) (b / 2) (omega arith) (omega arith) (λ i. h (suc i)))

-- A number is determined by its digits.
pub bit_ext : (a b : ℕ) → ((i : ℕ) → bit_at a i ≡ bit_at b i) → a ≡ b
bit_ext a b h = bit_ext_below (a + b) a b (omega arith) (omega arith) h

module _ (z : ℕ → ℕ) (f : ℕ → ℕ → ℕ) (small : (x y : ℕ) → x < 2 → y < 2 → f x y < 2)
    (rest : (b i : ℕ) → bit_at (z b) i ≡ f 0 (bit_at b i)) where
  bit_at-digits : (n a b i : ℕ) → a ≤ n → bit_at (digits z f n a b) i ≡ f (bit_at a i) (bit_at b i)
  bit_at-digits zero zero b i h = rw (bit_at_zero i) (rest b i)
  bit_at-digits zero (suc a) b i h = absurd (omega arith)
  bit_at-digits (suc n) zero b i h = rw (bit_at_zero i) (rest b i)
  bit_at-digits (suc n) (suc a) b zero h =
      omega (arith, small (suc a % 2) (b % 2) (omega arith) (omega arith))
  bit_at-digits (suc n) (suc a) b (suc i) h =
      let tail : (digits z f n (suc a / 2) (b / 2) * 2 + f (suc a % 2) (b % 2)) / 2
          ≡ digits z f n (suc a / 2) (b / 2) =
        omega (arith, small (suc a % 2) (b % 2) (omega arith) (omega arith)) in
      ap (λ t. bit_at t i) tail ∙ bit_at-digits n (suc a / 2) (b / 2) i (omega arith)

min-lt : (x y : ℕ) → x < 2 → y < 2 → min x y < 2
min-lt x y h k = omega arith

max-lt : (x y : ℕ) → x < 2 → y < 2 → max x y < 2
max-lt x y h k = omega arith

differ-lt : (x y : ℕ) → x < 2 → y < 2 → differ x y < 2
differ-lt zero y h k = k
differ-lt (suc x) zero h k = h
differ-lt (suc x) (suc y) h k = differ-lt x y (omega arith) (omega arith)

pub bit_at-bit_and : (a b i : ℕ) → bit_at (bit_and a b) i ≡ min (bit_at a i) (bit_at b i)
bit_at-bit_and a b i =
    ap (λ t. bit_at t i) (bit_and-bitwise a b)
    ∙ bit_at-digits (λ b. zero) min min-lt (λ c j. bit_at_zero j ∙ (omega arith)) a a b i
        (omega arith)

pub bit_at-bit_or : (a b i : ℕ) → bit_at (bit_or a b) i ≡ max (bit_at a i) (bit_at b i)
bit_at-bit_or a b i =
    ap (λ t. bit_at t i) (bit_or-bitwise a b)
    ∙ bit_at-digits (λ b. b) max max-lt (λ c j. omega arith) a a b i (omega arith)

pub bit_at-bit_xor : (a b i : ℕ) → bit_at (bit_xor a b) i ≡ differ (bit_at a i) (bit_at b i)
bit_at-bit_xor a b i =
    ap (λ t. bit_at t i) (bit_xor-bitwise a b)
    ∙ bit_at-digits (λ b. b) differ differ-lt (λ c j. refl) a a b i (omega arith)

-- An operation that works digit by digit works on a number's high and low fields apart.
doubled : (field shift : ℕ) → field * 2 ^ shift * 2 ≡ field * 2 ^ suc shift
doubled field shift =
    let e : field * (2 ^ shift * 2) ≡ field * 2 ^ suc shift =
      sym (ap (λ (power : ℕ). field * power) (pow-suc 2 shift)) in
    omega (arith, e)

half_field : (k q r : ℕ) → (q * 2 ^ suc k + r) / 2 ≡ q * 2 ^ k + r / 2
half_field k q r = omega (arith, doubled q k)

odd_field : (k q r : ℕ) → (q * 2 ^ suc k + r) % 2 ≡ r % 2
odd_field k q r = omega (arith, doubled q k)

module _ (op : ℕ → ℕ → ℕ) (f : ℕ → ℕ → ℕ) (small : (x y : ℕ) → x < 2 → y < 2 → f x y < 2)
    (f_zero : f 0 0 ≡ 0) (at : (a b i : ℕ) → bit_at (op a b) i ≡ f (bit_at a i) (bit_at b i)) where
  op_step : (a b : ℕ) → op a b ≡ op (a / 2) (b / 2) * 2 + f (a % 2) (b % 2)
  op_step a b = bit_ext _ _ go
    where
      go : (i : ℕ) → bit_at (op a b) i ≡ bit_at (op (a / 2) (b / 2) * 2 + f (a % 2) (b % 2)) i
      go zero = omega (arith, at a b 0, small (a % 2) (b % 2) (omega arith) (omega arith))
      go (suc i) =
          let tail : (op (a / 2) (b / 2) * 2 + f (a % 2) (b % 2)) / 2 ≡ op (a / 2) (b / 2) =
            omega (arith, small (a % 2) (b % 2) (omega arith) (omega arith)) in
          at a b (suc i) ∙ sym (at (a / 2) (b / 2) i) ∙ ap (λ t. bit_at t i) (sym tail)

  op_zero : op 0 0 ≡ 0
  op_zero = bit_ext _ _ (λ i. at 0 0 i ∙ (rw (bit_at_zero i) f_zero))

  op_fields :
      (k q r m s : ℕ)
      → r < 2 ^ k
      → s < 2 ^ k
      → op (q * 2 ^ k + r) (m * 2 ^ k + s) ≡ op q m * 2 ^ k + op r s
  op_fields zero q r m s hr hs =
      let er : r ≡ 0 = omega arith in
      let es : s ≡ 0 = omega arith in
      let eq : q * 1 + 0 ≡ q = omega arith in
      let em : m * 1 + 0 ≡ m = omega arith in rw (er, es, eq, em, op_zero) (omega arith)
  op_fields (suc k) q r m s hr hs =
      let ih =
        op_fields k q (r / 2) m (s / 2) (omega (arith, pow-suc 2 k)) (omega (arith, pow-suc 2 k)) in
      let whole : op (q * 2 ^ suc k + r) (m * 2 ^ suc k + s)
          ≡ op (q * 2 ^ k + r / 2) (m * 2 ^ k + s / 2) * 2 + f (r % 2) (s % 2) =
        op_step _ _ ∙ (rw (half_field k q r, half_field k m s, odd_field k q r, odd_field k m s)) in
      omega (arith, whole, ih, doubled (op q m) k, op_step r s)

pub bit_and_fields :
    (k q r m s : ℕ)
    → r < 2 ^ k
    → s < 2 ^ k
    → bit_and (q * 2 ^ k + r) (m * 2 ^ k + s) ≡ bit_and q m * 2 ^ k + bit_and r s
bit_and_fields = op_fields bit_and min min-lt refl bit_at-bit_and

pub bit_or_fields :
    (k q r m s : ℕ)
    → r < 2 ^ k
    → s < 2 ^ k
    → bit_or (q * 2 ^ k + r) (m * 2 ^ k + s) ≡ bit_or q m * 2 ^ k + bit_or r s
bit_or_fields = op_fields bit_or max max-lt refl bit_at-bit_or

pub bit_xor_fields :
    (k q r m s : ℕ)
    → r < 2 ^ k
    → s < 2 ^ k
    → bit_xor (q * 2 ^ k + r) (m * 2 ^ k + s) ≡ bit_xor q m * 2 ^ k + bit_xor r s
bit_xor_fields = op_fields bit_xor differ differ-lt refl bit_at-bit_xor

pub bit_and-zero : (a : ℕ) → bit_and a 0 ≡ 0
bit_and-zero a = bit_ext _ _ λ i. bit_at-bit_and a 0 i ∙ (rw (bit_at_zero i) (omega arith))

pub bit_or-zero : (a : ℕ) → bit_or a 0 ≡ a
bit_or-zero a = bit_ext _ _ λ i. bit_at-bit_or a 0 i ∙ (rw (bit_at_zero i) (omega arith))

pub zero-bit_or : (a : ℕ) → bit_or 0 a ≡ a
zero-bit_or a = bit_ext _ _ λ i. bit_at-bit_or 0 a i ∙ (rw (bit_at_zero i) (omega arith))

differ_zero : (x : ℕ) → differ x 0 ≡ x
differ_zero zero = refl
differ_zero (suc x) = refl

pub bit_xor-zero : (a : ℕ) → bit_xor a 0 ≡ a
bit_xor-zero a = bit_ext _ _ λ i. bit_at-bit_xor a 0 i ∙ (rw (bit_at_zero i) (differ_zero _))

pub bit_and_self : (a : ℕ) → bit_and a a ≡ a
bit_and_self a = bit_ext _ _ λ i. bit_at-bit_and a a i ∙ (omega arith)
