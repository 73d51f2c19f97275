-- ===== src/Text/Sound.antt =====
-- The check of a whole text of os/search_text.c decides what is encoded Unicode.
use mathlib.Core.Path.{subst}
use mathlib.Core.Logic.{◌↔◌}
use native.Mathlib.Decide.{dec_lt}
use yan_os.Base.{ℕ, zero, suc, ◌+◌, ◌-◌, ◌≤◌, ◌≡◌, ◌≢◌, refl, sym, ap, ◌∙◌, arith}
use yan_os.Base.{List, [], ◌∷◌, ◌++◌, some, some-inj, All, length}
use yan_os.Base.{Bool, true, false, not, Bool-cases, inl, inr, ltb, ◌==◌, ◌||◌}
use yan_os.Text.{drop, checked, utf8_expected, valid_loop, utf8_valid}
use yan_os.Ram.Bytes.{IsByte}
use yan_os.Text.Encode.{IsScalar, encode}
use yan_os.Text.Decode.{Starts, IsEncoded-Starts, encoded1, accepted, starts2, starts3, starts4}
use yan_os.Text.Valid.{encode_all, utf8_valid-encode_all, utf8_valid-Ends}

-- What the check of one scalar value expects, where it is there, is a scalar value's encoding.
utf8_expected-Starts :
    (bytes : List ℕ) (available : ℕ)
    → All IsByte bytes
    → available ≤ length bytes
    → utf8_expected bytes available ≢ 0
    → utf8_expected bytes available ≤ available
    → Starts bytes (utf8_expected bytes available)
unfolding utf8_expected
utf8_expected-Starts [] available h fits e k = absurd (omega arith)
utf8_expected-Starts (b0 ∷ tail) available h fits e k =
    let need = utf8_expected (b0 ∷ tail) available in
    elim (dec_lt b0 0x80) [
      | yes p ↦
          let one : need ≡ 1 = ground arith in
          subst (Starts (b0 ∷ tail)) (sym one)
            (IsEncoded-Starts (b0 ∷ []) tail (encoded1 b0 p) refl)
      | no p ↦ elim (dec_lt b0 0xe0) [
        | yes q ↦
            let same : need ≡ checked (b0 ∷ tail) available 2 = ground arith in
            let value : need ≡ 2 =
              same ∙ (accepted (b0 ∷ tail) available 2 (λ z. e (same ∙ z))).0 in
            subst (Starts (b0 ∷ tail)) (sym value) (
              starts2 b0 tail available (h.1) fits (omega (arith, value, k)) (ground arith) q
                (λ z. e (same ∙ z)))
        | no q ↦ elim (dec_lt b0 0xf0) [
          | yes r ↦
              let same : need ≡ checked (b0 ∷ tail) available 3 = ground arith in
              let value : need ≡ 3 =
                same ∙ (accepted (b0 ∷ tail) available 3 (λ z. e (same ∙ z))).0 in
              subst (Starts (b0 ∷ tail)) (sym value) (
                starts3 b0 tail available (h.1) fits (omega (arith, value, k)) (omega arith) r
                  (λ z. e (same ∙ z)))
          | no r ↦
              let same : need ≡ checked (b0 ∷ tail) available 4 = ground arith in
              let value : need ≡ 4 =
                same ∙ (accepted (b0 ∷ tail) available 4 (λ z. e (same ∙ z))).0 in
              subst (Starts (b0 ∷ tail)) (sym value) (
                starts4 b0 tail available (h.1) fits (omega (arith, value, k)) (omega arith)
                  (ground arith) (λ z. e (same ∙ z)))
        ]
      ]
    ]

drop_nil : (n : ℕ) → drop n [] ≡ []
drop_nil zero = refl
drop_nil (suc n) = refl

drop-drop : (m n : ℕ) (xs : List ℕ) → drop m (drop n xs) ≡ drop (n + m) xs
drop-drop m zero xs = let e : 0 + m ≡ m = omega arith in rw e refl
drop-drop m (suc n) [] = drop_nil m ∙ sym (drop_nil (suc n + m))
drop-drop m (suc n) (x ∷ xs) =
    let e : suc n + m ≡ suc (n + m) = omega arith in rw e (drop-drop m n xs)

length-drop : (n : ℕ) (xs : List ℕ) → length (drop n xs) ≡ length xs - n
length-drop zero xs = omega arith
length-drop (suc n) [] = omega arith
length-drop (suc n) (x ∷ xs) = length-drop n xs ∙ omega arith

All-drop : (n : ℕ) (xs : List ℕ) → All IsByte xs → All IsByte (drop n xs)
All-drop zero xs h = h
All-drop (suc n) [] h = h
All-drop (suc n) (x ∷ xs) h = All-drop n xs (h.1)

-- The encoding of a sequence of scalar values.
abbrev pub IsText : List ℕ → Type 0
IsText bytes = (cs : List ℕ) × All IsScalar cs × (bytes ≡ encode_all cs)

empty-IsText : (bytes : List ℕ) → length bytes ≡ 0 → IsText bytes
empty-IsText [] h = ([], tt, refl)
empty-IsText (b ∷ bytes) h = absurd (omega arith)

Starts-IsText :
    (bytes : List ℕ) (need : ℕ) → Starts bytes need → IsText (drop need bytes) → IsText bytes
Starts-IsText bytes need (c, unicode, size, e) (cs, all, rest) =
    (c ∷ cs, (unicode, all), e ∙ ap (λ r. encode c ++ r) rest)

false-true : some false ≡ some true → ⊥
false-true h = cc h

loop-IsText :
    (fuel : ℕ) (bytes : List ℕ) (offset : ℕ)
    → All IsByte bytes
    → offset ≤ length bytes
    → valid_loop fuel bytes (length bytes) offset ≡ some true
    → IsText (drop offset bytes)
unfolding valid_loop
loop-IsText zero bytes offset h fits e = absurd (cc e)
loop-IsText (suc fuel) bytes offset h fits e =
    let left = length bytes - offset in
    let need = utf8_expected (drop offset bytes) left in
    elim (Bool-cases (not (ltb offset (length bytes)))) [
      | inl f ↦ empty-IsText (drop offset bytes) (
          let past : length bytes ≤ offset = ground arith in
          omega (arith, length-drop offset bytes))
      | inr f ↦ elim (Bool-cases (need == 0 || ltb left need)) [
        | inl g ↦ absurd (false-true (rw (f, g) at e))
        | inr g ↦
            let moves : (need ≢ 0) × (need ≤ left) = ground arith in
            let starts =
              utf8_expected-Starts (drop offset bytes) left (All-drop offset bytes h)
                (omega (arith, length-drop offset bytes)) (moves.0) (moves.1) in
            let rest =
              loop-IsText fuel bytes (offset + need) h (omega (arith, moves)) (rw (f, g) at e) in
            Starts-IsText (drop offset bytes) need starts
              (subst IsText (sym (drop-drop need offset bytes)) rest)
      ]
    ]

accepts-IsText :
    (bytes : List ℕ)
    → All IsByte bytes
    → utf8_valid (some bytes) (length bytes) ≡ some true
    → IsText bytes
unfolding utf8_valid
accepts-IsText bytes h e = loop-IsText (length bytes + 1) bytes 0 h (omega arith) e

-- On any bytes, the check of a whole text ends within its fuel, and it accepts exactly the RFC
-- 3629 encodings of sequences of Unicode scalar values.
pub utf8_valid-IsText :
    (bytes : List ℕ)
    → All IsByte bytes
    → (b : Bool) × (utf8_valid (some bytes) (length bytes) ≡ some b) × ((b ≡ true) ↔ IsText bytes)
utf8_valid-IsText bytes h =
    let ends = utf8_valid-Ends (some bytes) (length bytes) in
    (
      ends.0,
      ends.1,
      (
        λ yes_it. accepts-IsText bytes h (ends.1 ∙ ap some yes_it),
        λ (cs, all, e). some-inj (sym ends.1 ∙ (rw e (utf8_valid-encode_all cs all))),
      ),
    )
