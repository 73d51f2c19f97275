-- ===== src/Text.antt =====
-- The UTF-8 primitives of os/search_text.c. `bytes` is the text at the pointer and `available` the
-- length that the caller gives. The decoder and the expected length answer a NULL text as they answer
-- the length 0; the check of a whole text tells the two apart and takes an Option.
pub mod Agree
pub mod Encode
pub mod Valid
pub mod Decode
pub mod Sound
use yan_os.Base.{
  ℕ, zero, suc, ◌+◌, ◌-◌, ◌*◌, ◌^◌, bit_and, bit_or, ◌%◌, [], ◌∷◌, List, Option, none, some, get_or,
}
use yan_os.Base.{Bool, true, false, not, ◌&&◌, ◌||◌, ◌==◌, ◌!=◌, ltb, leb, if◌then◌else◌}

-- `bytes[i]`
abbrev pub at : List ℕ → ℕ → ℕ
at bytes i = get_or bytes i 0

-- `bytes + n`
abbrev pub drop : ℕ → List ℕ → List ℕ
drop zero bytes = bytes
drop (suc n) [] = []
drop (suc n) (b ∷ bytes) = drop n bytes

-- `(byte & 0xc0) == 0x80`
unfoldable pub continues : ℕ → Bool
continues byte = bit_and byte 0xc0 == 0x80

-- `*code_point = value`, where the pointer is not NULL.
abbrev pub store : Option ℕ → ℕ → Option ℕ
store none value = none
store (some old) value = some value

unfoldable pub scalar2 : List ℕ → ℕ → Option ℕ → ℕ × Option ℕ
scalar2 bytes available out =
    if ltb available 2 || not (continues (at bytes 1))
    then (0, out)
    else (2, store out (bit_or (bit_and (at bytes 0) 0x1f * 2 ^ 6) (bit_and (at bytes 1) 0x3f)))

unfoldable pub scalar3 : List ℕ → ℕ → Option ℕ → ℕ × Option ℕ
scalar3 bytes available out =
    if ltb available 3 || not (continues (at bytes 1)) || not (continues (at bytes 2))
    then (0, out)
    else if at bytes 0 == 0xe0 && ltb (at bytes 1) 0xa0
    then (0, out)
    else if at bytes 0 == 0xed && ltb 0x9f (at bytes 1)
    then (0, out)
    else (
      3,
      store out (
          bit_or (bit_or (bit_and (at bytes 0) 0x0f * 2 ^ 12) (bit_and (at bytes 1) 0x3f * 2 ^ 6))
            (bit_and (at bytes 2) 0x3f)),
    )

unfoldable pub scalar4 : List ℕ → ℕ → Option ℕ → ℕ × Option ℕ
scalar4 bytes available out =
    if ltb available 4
      || not (continues (at bytes 1))
      || not (continues (at bytes 2))
      || not (continues (at bytes 3))
    then (0, out)
    else if at bytes 0 == 0xf0 && ltb (at bytes 1) 0x90
    then (0, out)
    else if at bytes 0 == 0xf4 && ltb 0x8f (at bytes 1)
    then (0, out)
    else (
      4,
      store out (
          bit_or
            (bit_or
              (bit_or (bit_and (at bytes 0) 0x07 * 2 ^ 18) (bit_and (at bytes 1) 0x3f * 2 ^ 12))
              (bit_and (at bytes 2) 0x3f * 2 ^ 6))
            (bit_and (at bytes 3) 0x3f)),
    )

-- The length and what `*code_point` holds, where the pointer is not NULL.
unfoldable pub utf8_scalar : List ℕ → ℕ → Option ℕ → ℕ × Option ℕ
utf8_scalar bytes available out =
    let lead = at bytes 0 in
    if available == 0
    then (0, out)
    else if ltb lead 0x80
    then (1, store out lead)
    else if ltb lead 0xc2
    then (0, out)
    else if ltb lead 0xe0
    then scalar2 bytes available out
    else if ltb lead 0xf0
    then scalar3 bytes available out
    else if ltb lead 0xf5
    then scalar4 bytes available out
    else (0, out)

-- The loop of `yan_search_text_utf8_expected` from byte `i`, for at most `left` bytes: is every
-- byte of the `need` that is there a continuation byte?
unfoldable pub well_formed : List ℕ → ℕ → ℕ → ℕ → ℕ → Bool
well_formed bytes available need i zero = true
well_formed bytes available need i (suc left) =
    let rest = well_formed bytes available need (i + 1) left in
    if ltb i available && ltb i need then continues (at bytes i) && rest else true

-- The range checks on the second byte.
unfoldable pub second_out : List ℕ → ℕ → Bool
second_out bytes need =
    let lead = at bytes 0 in
    let second = at bytes 1 in
    if need == 3
    then lead == 0xe0 && ltb second 0xa0 || lead == 0xed && ltb 0x9f second
    else if need == 4
    then lead == 0xf0 && ltb second 0x90 || lead == 0xf4 && ltb 0x8f second
    else false

unfoldable pub checked : List ℕ → ℕ → ℕ → ℕ
checked bytes available need =
    if not (well_formed bytes available need 1 need)
    then 0
    else if leb 2 available && second_out bytes need
    then 0
    else need

unfoldable pub utf8_expected : List ℕ → ℕ → ℕ
utf8_expected bytes available =
    let lead = at bytes 0 in
    if available == 0
    then 0
    else if ltb lead 0x80
    then 1
    else if ltb lead 0xc2
    then 0
    else if ltb lead 0xe0
    then checked bytes available 2
    else if ltb lead 0xf0
    then checked bytes available 3
    else if ltb lead 0xf5
    then checked bytes available 4
    else 0

-- The loop of `yan_search_text_utf8_valid` from `offset`, on fuel; `none` is a run that used it up.
unfoldable pub valid_loop : ℕ → List ℕ → ℕ → ℕ → Option Bool
valid_loop zero bytes available offset = none
valid_loop (suc fuel) bytes available offset =
    let need = utf8_expected (drop offset bytes) (available - offset) in
    let rest = valid_loop fuel bytes available (offset + need) in
    if not (ltb offset available)
    then some true
    else if need == 0 || ltb (available - offset) need
    then some false
    else rest

unfoldable pub utf8_valid : Option (List ℕ) → ℕ → Option Bool
utf8_valid none available = if ltb 0 available then some false else some true
utf8_valid (some bytes) available = valid_loop (available + 1) bytes available 0

unfoldable pub is_ascii_word : ℕ → Bool
is_ascii_word byte =
    leb 0x41 byte && leb byte 0x5a
    || leb 0x61 byte && leb byte 0x7a
    || leb 0x30 byte && leb byte 0x39
    || byte == 0x5f

unfoldable pub ascii_fold : ℕ → ℕ
ascii_fold byte = if leb 0x41 byte && leb byte 0x5a then (byte + (0x61 - 0x41)) % 2 ^ 8 else byte
