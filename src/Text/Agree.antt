-- ===== src/Text/Agree.antt =====
-- The two UTF-8 checks of os/search_text.c against each other.
use yan_os.Base.{ℕ, ◌<◌, ◌≡◌, refl, List, Option, arith, Bool, true, false}
use yan_os.Base.{ltb, ◌==◌, if◌then◌else◌}
use native.Mathlib.Decide.{dec_lt}
use yan_os.Text.{at, scalar2, scalar3, scalar4, utf8_scalar, well_formed, second_out}
use yan_os.Text.{checked, utf8_expected}

-- The length expected, if that many bytes are there.
abbrev pub within : ℕ → ℕ → ℕ
within available need = if ltb available need then 0 else need

module _ (bytes : List ℕ) (available : ℕ) (out : Option ℕ) where
  checked2 :
      0 < available → (scalar2 bytes available out).0 ≡ within available (checked bytes available 2)
  unfolding scalar2 checked well_formed second_out
  checked2 h = ground arith

  checked3 :
      0 < available → (scalar3 bytes available out).0 ≡ within available (checked bytes available 3)
  unfolding scalar3 checked well_formed second_out
  checked3 h = ground arith

  checked4 :
      0 < available → (scalar4 bytes available out).0 ≡ within available (checked bytes available 4)
  unfolding scalar4 checked well_formed second_out
  checked4 h = ground arith

  branch :
      (b : Bool) (x y : ℕ × Option ℕ) (m n : ℕ)
      → x.0 ≡ within available m
      → y.0 ≡ within available n
      → (if b then x else y).0 ≡ within available (if b then m else n)
  branch true x y m n h k = h
  branch false x y m n h k = k

  refused : 0 ≡ within available 0
  refused = ground arith

  pub utf8_scalar-utf8_expected :
      (utf8_scalar bytes available out).0 ≡ within available (utf8_expected bytes available)
  unfolding utf8_scalar utf8_expected
  utf8_scalar-utf8_expected = elim (dec_lt 0 available) [
    | no p ↦ let none_left : available ≡ 0 = omega arith in rw none_left refl
    | yes p ↦ branch (available == 0) _ _ 0 _ refused (
        branch (ltb (at bytes 0) 0x80) _ _ 1 _ (ground arith) (
          branch (ltb (at bytes 0) 0xc2) _ _ 0 _ refused (
            branch (ltb (at bytes 0) 0xe0) _ _ (checked bytes available 2) _ (checked2 p) (
              branch (ltb (at bytes 0) 0xf0) _ _ (checked bytes available 3) _ (checked3 p) (
                branch (ltb (at bytes 0) 0xf5) _ _ (checked bytes available 4) 0 (checked4 p)
                  refused)))))
  ]
