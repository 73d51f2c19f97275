-- ===== src/Text/Encode.antt =====
-- The decoder of os/search_text.c against the encoding of RFC 3629.
use native.Mathlib.Decide.{dec_lt}
use yan_os.Base.{ℕ, ◌+◌, ◌*◌, ◌/◌, ◌%◌, ◌^◌, ◌≤◌, ◌<◌, ◌≡◌, ◌⊎◌, refl, ◌∙◌}
use yan_os.Base.{List, [], ◌∷◌, ◌++◌, Option, arith, true, false}
use yan_os.Base.{
  ==_of_ne, ltb_of_lt, ltb_of_le, ltb, ◌==◌, ◌&&◌, if◌then◌else◌, bit_and, bit_or, length,
}
use yan_os.Base.Bits.Mask.{bit_and-low, bit_and-high, bit_or-disjoint}
use yan_os.Text.{continues, store, scalar2, scalar3, scalar4, utf8_scalar}

-- A Unicode scalar value.
abbrev pub IsScalar : ℕ → Type 0
IsScalar c = (c < 0xd800) ⊎ ((0xe000 ≤ c) × (c < 0x110000))

-- RFC 3629, by arithmetic.
abbrev pub encode : ℕ → List ℕ
encode c =
    if ltb c 0x80
    then c ∷ []
    else if ltb c 0x800
    then (0xc0 + c / 64) ∷ (0x80 + c % 64) ∷ []
    else if ltb c 0x10000
    then (0xe0 + c / 4096) ∷ (0x80 + c / 64 % 64) ∷ (0x80 + c % 64) ∷ []
    else (0xf0 + c / 262144) ∷ (0x80 + c / 4096 % 64) ∷ (0x80 + c / 64 % 64) ∷ (0x80 + c % 64) ∷ []

-- The test for a continuation byte, and its six low bits.
continuation : (d : ℕ) → d < 64 → continues (0x80 + d) ≡ true
unfolding continues
continuation d h =
    let e : bit_and (0x80 + d) 0xc0 ≡ 0x80 =
      bit_and-high 6 3 (0x80 + d) ∙ (let two : (0x80 + d) / 64 ≡ 2 = omega arith in rw two refl) in
    rw e refl

low_bits : (d : ℕ) → d < 64 → bit_and (0x80 + d) 0x3f ≡ d
low_bits d h = bit_and-low 6 (0x80 + d) ∙ omega arith

module _ (c : ℕ) (tail : List ℕ) (available : ℕ) (out : Option ℕ) where
  decode2 :
      0x80 ≤ c
      → c < 0x800
      → 2 ≤ available
      → scalar2 ((0xc0 + c / 64) ∷ (0x80 + c % 64) ∷ tail) available out ≡ (2, store out c)
  unfolding scalar2
  decode2 h k fits =
      let lead : bit_and (0xc0 + c / 64) 0x1f ≡ c / 64 =
        bit_and-low 5 (0xc0 + c / 64) ∙ omega arith in
      let joined : bit_or (c / 64 * 2 ^ 6) (c % 64) ≡ c =
        bit_or-disjoint 6 (c / 64) (c % 64) (omega arith) ∙ omega arith in
      rw
        (
          ltb_of_le {a = available} {b = 2} fits,
          continuation (c % 64) (omega arith),
          lead,
          low_bits (c % 64) (omega arith),
          joined,
        )
        refl

  decode3 :
      0x800 ≤ c
      → c < 0x10000
      → IsScalar c
      → 3 ≤ available
      → scalar3 ((0xe0 + c / 4096) ∷ (0x80 + c / 64 % 64) ∷ (0x80 + c % 64) ∷ tail) available out
        ≡ (3, store out c)
  unfolding scalar3
  decode3 h k unicode fits =
      let lead : bit_and (0xe0 + c / 4096) 0x0f ≡ c / 4096 =
        bit_and-low 4 (0xe0 + c / 4096) ∙ omega arith in
      let high : bit_or (c / 4096 * 2 ^ 12) (c / 64 % 64 * 2 ^ 6) ≡ c / 64 * 2 ^ 6 =
        bit_or-disjoint 12 (c / 4096) (c / 64 % 64 * 2 ^ 6) (omega arith) ∙ omega arith in
      let joined : bit_or (c / 64 * 2 ^ 6) (c % 64) ≡ c =
        bit_or-disjoint 6 (c / 64) (c % 64) (omega arith) ∙ omega arith in
      let long : (0xe0 + c / 4096 == 0xe0 && ltb (0x80 + c / 64 % 64) 0xa0) ≡ false =
        ground arith in
      let surrogate : (0xe0 + c / 4096 == 0xed && ltb 0x9f (0x80 + c / 64 % 64)) ≡ false =
        ground arith in
      rw
        (
          ltb_of_le {a = available} {b = 3} fits,
          continuation (c / 64 % 64) (omega arith),
          continuation (c % 64) (omega arith),
          long,
          surrogate,
          lead,
          low_bits (c / 64 % 64) (omega arith),
          low_bits (c % 64) (omega arith),
          high,
          joined,
        )
        refl

  decode4 :
      0x10000 ≤ c
      → c < 0x110000
      → 4 ≤ available
      → scalar4
          ((0xf0 + c / 262144)
            ∷ (0x80 + c / 4096 % 64)
            ∷ (0x80 + c / 64 % 64)
            ∷ (0x80 + c % 64)
            ∷ tail)
          available
          out
        ≡ (4, store out c)
  unfolding scalar4
  decode4 h k fits =
      let lead : bit_and (0xf0 + c / 262144) 0x07 ≡ c / 262144 =
        bit_and-low 3 (0xf0 + c / 262144) ∙ omega arith in
      let top : bit_or (c / 262144 * 2 ^ 18) (c / 4096 % 64 * 2 ^ 12) ≡ c / 4096 * 2 ^ 12 =
        bit_or-disjoint 18 (c / 262144) (c / 4096 % 64 * 2 ^ 12) (omega arith) ∙ omega arith in
      let high : bit_or (c / 4096 * 2 ^ 12) (c / 64 % 64 * 2 ^ 6) ≡ c / 64 * 2 ^ 6 =
        bit_or-disjoint 12 (c / 4096) (c / 64 % 64 * 2 ^ 6) (omega arith) ∙ omega arith in
      let joined : bit_or (c / 64 * 2 ^ 6) (c % 64) ≡ c =
        bit_or-disjoint 6 (c / 64) (c % 64) (omega arith) ∙ omega arith in
      let long : (0xf0 + c / 262144 == 0xf0 && ltb (0x80 + c / 4096 % 64) 0x90) ≡ false =
        ground arith in
      let beyond : (0xf0 + c / 262144 == 0xf4 && ltb 0x8f (0x80 + c / 4096 % 64)) ≡ false =
        ground arith in
      rw
        (
          ltb_of_le {a = available} {b = 4} fits,
          continuation (c / 4096 % 64) (omega arith),
          continuation (c / 64 % 64) (omega arith),
          continuation (c % 64) (omega arith),
          long,
          beyond,
          lead,
          low_bits (c / 4096 % 64) (omega arith),
          low_bits (c / 64 % 64) (omega arith),
          low_bits (c % 64) (omega arith),
          top,
          high,
          joined,
        )
        refl

-- The bytes decode to `c` where they are all there.
abbrev Decodes : ℕ → List ℕ → Type 0
Decodes c bytes =
    (tail : List ℕ) (available : ℕ) (out : Option ℕ)
    → length bytes ≤ available
    → utf8_scalar (bytes ++ tail) available out ≡ (length bytes, store out c)

decodes1 : (c : ℕ) → c < 0x80 → Decodes c (c ∷ [])
unfolding utf8_scalar
decodes1 c h tail available out fits =
    rw (==_of_ne {a = available} {b = 0} (omega arith), ltb_of_lt {a = c} {b = 0x80} h) refl

decodes2 : (c : ℕ) → 0x80 ≤ c → c < 0x800 → Decodes c ((0xc0 + c / 64) ∷ (0x80 + c % 64) ∷ [])
unfolding utf8_scalar
decodes2 c h k tail available out fits =
    rw
      (
        ==_of_ne {a = available} {b = 0} (omega arith),
        ltb_of_le {a = 0xc0 + c / 64} {b = 0x80} (omega arith),
        ltb_of_le {a = 0xc0 + c / 64} {b = 0xc2} (omega arith),
        ltb_of_lt {a = 0xc0 + c / 64} {b = 0xe0} (omega arith),
      )
      (decode2 c tail available out h k fits)

decodes3 :
    (c : ℕ)
    → 0x800 ≤ c
    → c < 0x10000
    → IsScalar c
    → Decodes c ((0xe0 + c / 4096) ∷ (0x80 + c / 64 % 64) ∷ (0x80 + c % 64) ∷ [])
unfolding utf8_scalar
decodes3 c h k unicode tail available out fits =
    rw
      (
        ==_of_ne {a = available} {b = 0} (omega arith),
        ltb_of_le {a = 0xe0 + c / 4096} {b = 0x80} (omega arith),
        ltb_of_le {a = 0xe0 + c / 4096} {b = 0xc2} (omega arith),
        ltb_of_le {a = 0xe0 + c / 4096} {b = 0xe0} (omega arith),
        ltb_of_lt {a = 0xe0 + c / 4096} {b = 0xf0} (omega arith),
      )
      (decode3 c tail available out h k unicode fits)

decodes4 :
    (c : ℕ)
    → 0x10000 ≤ c
    → c < 0x110000
    → Decodes c
        ((0xf0 + c / 262144) ∷ (0x80 + c / 4096 % 64) ∷ (0x80 + c / 64 % 64) ∷ (0x80 + c % 64) ∷ [])
unfolding utf8_scalar
decodes4 c h k tail available out fits =
    rw
      (
        ==_of_ne {a = available} {b = 0} (omega arith),
        ltb_of_le {a = 0xf0 + c / 262144} {b = 0x80} (omega arith),
        ltb_of_le {a = 0xf0 + c / 262144} {b = 0xc2} (omega arith),
        ltb_of_le {a = 0xf0 + c / 262144} {b = 0xe0} (omega arith),
        ltb_of_le {a = 0xf0 + c / 262144} {b = 0xf0} (omega arith),
        ltb_of_lt {a = 0xf0 + c / 262144} {b = 0xf5} (omega arith),
      )
      (decode4 c tail available out h k fits)

encode-Decodes : (c : ℕ) → IsScalar c → Decodes c (encode c)
encode-Decodes c unicode = elim (dec_lt c 0x80) [
  | yes p ↦ rw (ltb_of_lt {a = c} {b = 0x80} p) (decodes1 c p)
  | no p ↦ rw (ltb_of_le {a = c} {b = 0x80} (omega arith)) (elim (dec_lt c 0x800) [
    | yes q ↦ rw (ltb_of_lt {a = c} {b = 0x800} q) (decodes2 c (omega arith) q)
    | no q ↦ rw (ltb_of_le {a = c} {b = 0x800} (omega arith)) (elim (dec_lt c 0x10000) [
      | yes r ↦ rw (ltb_of_lt {a = c} {b = 0x10000} r) (decodes3 c (omega arith) r unicode)
      | no r ↦
          rw (ltb_of_le {a = c} {b = 0x10000} (omega arith))
            (decodes4 c (omega arith) (omega (arith, unicode)))
    ])
  ])
]

-- The encoding of RFC 3629 of every Unicode scalar value, followed by any bytes, decodes to its
-- own length where that many bytes are available, and the value is stored where the pointer for
-- it is not NULL.
pub utf8_scalar-encode :
    (c : ℕ) (tail : List ℕ) (available : ℕ) (out : Option ℕ)
    → IsScalar c
    → length (encode c) ≤ available
    → utf8_scalar (encode c ++ tail) available out ≡ (length (encode c), store out c)
utf8_scalar-encode c tail available out unicode fits =
    encode-Decodes c unicode tail available out fits
