-- ===== src/Text/Decode.antt =====
-- What the UTF-8 check of os/search_text.c accepts at the start of a text.
use native.Mathlib.Decide.{dec_lt}
use yan_os.Base.{ℕ, suc, ◌+◌, ◌-◌, ◌*◌, ◌/◌, ◌%◌, ◌≤◌, ◌<◌, ◌≡◌, ◌≢◌, ◌⊎◌, inl, inr, refl, ap}
use yan_os.Base.{List, [], ◌∷◌, ◌++◌, arith, true, false, All, length, bit_and}
use yan_os.Base.{ltb_of_lt, ltb_of_le, leb, ◌&&◌}
use yan_os.Base.Bits.Mask.{bit_and-low, bit_and-high}
use yan_os.Text.{drop, continues, well_formed, second_out, checked}
use yan_os.Ram.Bytes.{IsByte}
use yan_os.Text.Encode.{IsScalar, encode}

abbrev IsContinuation : ℕ → Type 0
IsContinuation b = (0x80 ≤ b) × (b < 0xc0)

continues-IsContinuation : (b : ℕ) → IsByte b → continues b ≡ true → IsContinuation b
unfolding continues
continues-IsContinuation b h e =
    let top : bit_and (b / 64) 3 ≡ b / 64 % 4 = bit_and-low 2 (b / 64) in
    let masked : bit_and b 0xc0 ≡ bit_and (b / 64) 3 * 64 = bit_and-high 6 3 b in
    let value : bit_and b 0xc0 ≡ 0x80 = ground arith in omega (arith, top, masked, value)

-- The bytes are the encoding of a scalar value.
abbrev pub IsEncoded : List ℕ → Type 0
IsEncoded bytes = (c : ℕ) × IsScalar c × (encode c ≡ bytes)

IsScalar-cases : (c : ℕ) → c < 0x110000 → (0xd800 ≤ c → 0xe000 ≤ c) → IsScalar c
IsScalar-cases c h k = elim (dec_lt c 0xd800) [ yes p ↦ inl p | no p ↦ inr (k (omega arith), h) ]

pub encoded1 : (b0 : ℕ) → b0 < 0x80 → IsEncoded (b0 ∷ [])
encoded1 b0 h = (b0, inl (omega arith), rw (ltb_of_lt {a = b0} {b = 0x80} h) refl)

encoded2 : (b0 b1 : ℕ) → 0xc2 ≤ b0 → b0 < 0xe0 → IsContinuation b1 → IsEncoded (b0 ∷ b1 ∷ [])
encoded2 b0 b1 lo hi (u, v) =
    let c = (b0 - 0xc0) * 64 + (b1 - 0x80) in
    let first : 0xc0 + c / 64 ≡ b0 = omega arith in
    let second : 0x80 + c % 64 ≡ b1 = omega arith in
    (
      c,
      inl (omega arith),
      rw
          (
            ltb_of_le {a = c} {b = 0x80} (omega arith),
            ltb_of_lt {a = c} {b = 0x800} (omega arith),
            first,
            second,
          )
          refl,
    )

encoded3 :
    (b0 b1 b2 : ℕ)
    → 0xe0 ≤ b0
    → b0 < 0xf0
    → IsContinuation b1
    → IsContinuation b2
    → (b0 ≢ 0xe0) ⊎ (0xa0 ≤ b1)
    → (b0 ≢ 0xed) ⊎ (b1 ≤ 0x9f)
    → IsEncoded (b0 ∷ b1 ∷ b2 ∷ [])
encoded3 b0 b1 b2 lo hi (u, v) (w, x) long surrogate =
    let c = (b0 - 0xe0) * 4096 + (b1 - 0x80) * 64 + (b2 - 0x80) in
    let first : 0xe0 + c / 4096 ≡ b0 = omega arith in
    let second : 0x80 + c / 64 % 64 ≡ b1 = omega arith in
    let third : 0x80 + c % 64 ≡ b2 = omega arith in
    (
      c,
      IsScalar-cases c (omega arith) (λ h. omega arith),
      rw
          (
            ltb_of_le {a = c} {b = 0x80} (omega arith),
            ltb_of_le {a = c} {b = 0x800} (omega arith),
            ltb_of_lt {a = c} {b = 0x10000} (omega arith),
            first,
            second,
            third,
          )
          refl,
    )

encoded4 :
    (b0 b1 b2 b3 : ℕ)
    → 0xf0 ≤ b0
    → b0 < 0xf5
    → IsContinuation b1
    → IsContinuation b2
    → IsContinuation b3
    → (b0 ≢ 0xf0) ⊎ (0x90 ≤ b1)
    → (b0 ≢ 0xf4) ⊎ (b1 ≤ 0x8f)
    → IsEncoded (b0 ∷ b1 ∷ b2 ∷ b3 ∷ [])
encoded4 b0 b1 b2 b3 lo hi (u, v) (w, x) (y, z) long beyond =
    let c = (b0 - 0xf0) * 262144 + (b1 - 0x80) * 4096 + (b2 - 0x80) * 64 + (b3 - 0x80) in
    let first : 0xf0 + c / 262144 ≡ b0 = omega arith in
    let second : 0x80 + c / 4096 % 64 ≡ b1 = omega arith in
    let third : 0x80 + c / 64 % 64 ≡ b2 = omega arith in
    let fourth : 0x80 + c % 64 ≡ b3 = omega arith in
    (
      c,
      inr (omega arith, omega arith),
      rw
          (
            ltb_of_le {a = c} {b = 0x80} (omega arith),
            ltb_of_le {a = c} {b = 0x800} (omega arith),
            ltb_of_le {a = c} {b = 0x10000} (omega arith),
            first,
            second,
            third,
            fourth,
          )
          refl,
    )

-- The bytes start with the encoding of a scalar value that takes `need` of them.
abbrev pub Starts : List ℕ → ℕ → Type 0
Starts bytes need =
    (c : ℕ) × IsScalar c × (length (encode c) ≡ need) × (bytes ≡ encode c ++ drop need bytes)

pub IsEncoded-Starts :
    (bytes tail : List ℕ)
    → IsEncoded bytes
    → drop (length bytes) (bytes ++ tail) ≡ tail
    → Starts (bytes ++ tail) (length bytes)
IsEncoded-Starts bytes tail (c, unicode, e) rest = (c, unicode, ap length e, rw (rest, e) refl)

-- A check that does not refuse gives the length asked for, of bytes that passed it.
pub accepted :
    (bytes : List ℕ) (available need : ℕ)
    → checked bytes available need ≢ 0
    → (checked bytes available need ≡ need)
      × (well_formed bytes available need 1 need ≡ true)
      × ((leb 2 available && second_out bytes need) ≡ false)
unfolding checked
accepted bytes available need h = ground arith

module _ (b0 : ℕ) where
  pub starts2 :
      (tail : List ℕ) (available : ℕ)
      → All IsByte tail
      → available ≤ suc (length tail)
      → 2 ≤ available
      → 0xc2 ≤ b0
      → b0 < 0xe0
      → checked (b0 ∷ tail) available 2 ≢ 0
      → Starts (b0 ∷ tail) 2
  unfolding well_formed
  starts2 [] available h fits two lo hi e = absurd (omega arith)
  starts2 (b1 ∷ tail) available h fits two lo hi e =
      let (value, formed, range) = accepted (b0 ∷ b1 ∷ tail) available 2 e in
      let one : continues b1 ≡ true = ground arith in
      IsEncoded-Starts (b0 ∷ b1 ∷ []) tail
        (encoded2 b0 b1 lo hi (continues-IsContinuation b1 (h.0) one)) refl

  pub starts3 :
      (tail : List ℕ) (available : ℕ)
      → All IsByte tail
      → available ≤ suc (length tail)
      → 3 ≤ available
      → 0xe0 ≤ b0
      → b0 < 0xf0
      → checked (b0 ∷ tail) available 3 ≢ 0
      → Starts (b0 ∷ tail) 3
  unfolding well_formed second_out
  starts3 [] available h fits three lo hi e = absurd (omega arith)
  starts3 (b1 ∷ []) available h fits three lo hi e = absurd (omega arith)
  starts3 (b1 ∷ b2 ∷ tail) available h fits three lo hi e =
      let (value, formed, range) = accepted (b0 ∷ b1 ∷ b2 ∷ tail) available 3 e in
      let one : continues b1 ≡ true = ground arith in
      let two : continues b2 ≡ true = ground arith in
      IsEncoded-Starts (b0 ∷ b1 ∷ b2 ∷ []) tail
        (encoded3 b0 b1 b2 lo hi (continues-IsContinuation b1 (h.0) one)
          (continues-IsContinuation b2 (h.1.0) two) (ground arith) (ground arith))
        refl

  pub starts4 :
      (tail : List ℕ) (available : ℕ)
      → All IsByte tail
      → available ≤ suc (length tail)
      → 4 ≤ available
      → 0xf0 ≤ b0
      → b0 < 0xf5
      → checked (b0 ∷ tail) available 4 ≢ 0
      → Starts (b0 ∷ tail) 4
  unfolding well_formed second_out
  starts4 [] available h fits four lo hi e = absurd (omega arith)
  starts4 (b1 ∷ []) available h fits four lo hi e = absurd (omega arith)
  starts4 (b1 ∷ b2 ∷ []) available h fits four lo hi e = absurd (omega arith)
  starts4 (b1 ∷ b2 ∷ b3 ∷ tail) available h fits four lo hi e =
      let (value, formed, range) = accepted (b0 ∷ b1 ∷ b2 ∷ b3 ∷ tail) available 4 e in
      let one : continues b1 ≡ true = ground arith in
      let two : continues b2 ≡ true = ground arith in
      let three : continues b3 ≡ true = ground arith in
      IsEncoded-Starts (b0 ∷ b1 ∷ b2 ∷ b3 ∷ []) tail
        (encoded4 b0 b1 b2 b3 lo hi (continues-IsContinuation b1 (h.0) one)
          (continues-IsContinuation b2 (h.1.0) two) (continues-IsContinuation b3 (h.1.1.0) three)
          (ground arith) (ground arith))
        refl
