-- ===== src/Text/Valid.antt =====
-- The check of a whole text of os/search_text.c ends.
use yan_os.Base.{ℕ, zero, suc, ◌+◌, ◌-◌, ◌≤◌, ◌<◌, ◌≡◌, refl, List, Option, none, some, arith}
use yan_os.Base.{Bool, true, false, not, ltb, ◌==◌, ◌||◌, if◌then◌else◌}
use yan_os.Base.{ltb_of_lt, sym, ap, ◌∙◌, All, length, ◌++◌, [], ◌∷◌}
use mathlib.Core.List.{append_assoc}
use yan_os.Text.Agree.{within, utf8_scalar-utf8_expected}
use yan_os.Text.Encode.{IsScalar, encode, utf8_scalar-encode}
use yan_os.Text.{utf8_scalar, drop, utf8_expected, valid_loop, utf8_valid}

abbrev pub Ends : Option Bool → Type 0
Ends r = (b : Bool) × (r ≡ some b)

Ends-if :
    (b : Bool) (x y : Option Bool)
    → (b ≡ true → Ends x)
    → (b ≡ false → Ends y)
    → Ends (if b then x else y)
Ends-if true x y h k = h refl
Ends-if false x y h k = k refl

valid_loop-Ends :
    (fuel : ℕ) (bytes : List ℕ) (available offset : ℕ)
    → offset ≤ available
    → available < offset + fuel
    → Ends (valid_loop fuel bytes available offset)
unfolding valid_loop
valid_loop-Ends zero bytes available offset h k = absurd (omega arith)
valid_loop-Ends (suc fuel) bytes available offset h k =
    let need = utf8_expected (drop offset bytes) (available - offset) in
    let rest = valid_loop fuel bytes available (offset + need) in
    let over = need == 0 || ltb (available - offset) need in
    let goes_on : not (ltb offset available) ≡ false → over ≡ false → Ends rest = λ inside within.
      valid_loop-Ends fuel bytes available (offset + need) (ground arith) (ground arith) in
    Ends-if (not (ltb offset available)) (some true) (if over then some false else rest)
      (λ e. (true, refl))
      (λ inside. Ends-if over (some false) rest (λ e. (false, refl)) (goes_on inside))

pub utf8_valid-Ends : (text : Option (List ℕ)) (available : ℕ) → Ends (utf8_valid text available)
unfolding utf8_valid
utf8_valid-Ends none available =
    Ends-if (ltb 0 available) _ _ (λ e. (false, refl)) (λ e. (true, refl))
utf8_valid-Ends (some bytes) available =
    valid_loop-Ends (available + 1) bytes available 0 (omega arith) (omega arith)

-- The text of a sequence of scalar values.
abbrev pub encode_all : List ℕ → List ℕ
encode_all [] = []
encode_all (c ∷ cs) = encode c ++ encode_all cs

length-++ : (xs ys : List ℕ) → length (xs ++ ys) ≡ length xs + length ys
length-++ [] ys = omega arith
length-++ (x ∷ xs) ys = let rest = length-++ xs ys in omega arith

drop-++ : (xs ys : List ℕ) → drop (length xs) (xs ++ ys) ≡ ys
drop-++ [] ys = refl
drop-++ (x ∷ xs) ys = drop-++ xs ys

encode-length : (c : ℕ) → 1 ≤ length (encode c)
encode-length c = ground arith

within_inj : (available m n : ℕ) → 1 ≤ n → within available m ≡ n → m ≡ n
within_inj available m n h k = ground arith

-- What is expected of a text that starts with a scalar value is all of its encoding.
utf8_expected-encode :
    (c : ℕ) (tail : List ℕ) (available : ℕ)
    → IsScalar c
    → length (encode c) ≤ available
    → utf8_expected (encode c ++ tail) available ≡ length (encode c)
utf8_expected-encode c tail available unicode fits =
    let decoded : (utf8_scalar (encode c ++ tail) available none).0 ≡ length (encode c) =
      ap (λ r. r.0) (utf8_scalar-encode c tail available none unicode fits) in
    let agreed = utf8_scalar-utf8_expected (encode c ++ tail) available none in
    let all_there : within available (utf8_expected (encode c ++ tail) available)
        ≡ length (encode c) =
      sym agreed ∙ decoded in
    let some_there = encode-length c in within_inj available _ _ some_there all_there

loop_encoded :
    (fuel : ℕ) (cs : List ℕ) (before : List ℕ)
    → All IsScalar cs
    → length (encode_all cs) < fuel
    → valid_loop fuel
        (before ++ encode_all cs)
        (length before + length (encode_all cs))
        (length before)
      ≡ some true
unfolding valid_loop
loop_encoded zero cs before h k = absurd (omega arith)
loop_encoded (suc fuel) [] before h k = ground arith
loop_encoded (suc fuel) (c ∷ cs) before h k =
    let bytes = before ++ (encode c ++ encode_all cs) in
    let n = length (encode c) in
    let rest = length (encode_all cs) in
    let total : length (encode c ++ encode_all cs) ≡ n + rest =
      length-++ (encode c) (encode_all cs) in
    let one = encode-length c in
    let left : length before + (n + rest) - length before ≡ n + rest = omega arith in
    let need : utf8_expected (drop (length before) bytes) (n + rest) ≡ n =
      rw (drop-++ before (encode c ++ encode_all cs))
        (utf8_expected-encode c (encode_all cs) (n + rest) (h.0) (omega arith)) in
    let inside : ltb (length before) (length before + (n + rest)) ≡ true =
      ltb_of_lt {a = length before} {b = length before + (n + rest)} (omega arith) in
    let enough : (n == 0 || ltb (n + rest) n) ≡ false = ground arith in
    let later : valid_loop fuel bytes (length before + (n + rest)) (length before + n) ≡ some true =
      let grouped : length before + (n + rest) ≡ length before + n + rest = omega arith in
      rw
        (
          grouped,
          sym (length-++ before (encode c)),
          sym (append_assoc before (encode c) (encode_all cs)),
        )
        (loop_encoded fuel cs (before ++ encode c) (h.1) (omega arith)) in
    rw (total, left, need, inside, enough) later

-- The check of a whole text ends within its fuel and accepts the RFC 3629 encoding of every
-- sequence of Unicode scalar values.
pub utf8_valid-encode_all :
    (cs : List ℕ)
    → All IsScalar cs
    → utf8_valid (some (encode_all cs)) (length (encode_all cs)) ≡ some true
unfolding utf8_valid
utf8_valid-encode_all cs h =
    let whole : length (encode_all cs) ≡ 0 + length (encode_all cs) = omega arith in
    let run = loop_encoded (length (encode_all cs) + 1) cs [] h (omega arith) in
    ap (λ n. valid_loop (length (encode_all cs) + 1) (encode_all cs) n 0) whole ∙ run
