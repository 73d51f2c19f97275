-- ===== src/Csr/Laws.antt =====
-- Which addresses src/csr.c answers, and what a write leaves.
use mathlib.Core.Path.{subst}
use native.Mathlib.Decide.{ℕ_discrete}
use yan_os.Base.{ℕ, ◌≡◌, ◌⊎◌, sym, arith, bit_and, bit_or, Bool, ◌==◌, ◌||◌, if◌then◌else◌}
use yan_os.Base.Bits.{bit_ext, bit_at-bit_and, bit_at-bit_or}
use yan_os.Status.{ok, unsupported_instruction}
use yan_os.Csr.{Csr, read, write, is_zero_csr, mie_mask, mstatus_mpp, word_mask}

pub read-status :
    (csr : Csr) (address value : ℕ)
    → ((read csr address value).0 ≡ ok) ⊎ ((read csr address value).0 ≡ unsupported_instruction)
unfolding read
read-status csr address value = ground arith

pub write-status :
    (csr : Csr) (address value : ℕ)
    → ((write csr address value).0 ≡ ok) ⊎ ((write csr address value).0 ≡ unsupported_instruction)
unfolding write
write-status csr address value = ground arith

-- What a register keeps of a value that software writes to it: its legal bits.
abbrev pub legal : ℕ → ℕ → ℕ
legal address value =
    if address == 0x300
    then bit_or (bit_and value 0x88) mstatus_mpp
    else if address == 0x304
    then bit_and value mie_mask
    else if address == 0x305
    then bit_and value word_mask
    else if address == 0x341
    then bit_and value word_mask
    else value

-- Registers whose reads do not depend on what software writes.
abbrev pub is_read_only : ℕ → Bool
is_read_only address = address == 0x344 || is_zero_csr address

mask_again : (a m : ℕ) → bit_and (bit_and a m) m ≡ bit_and a m
mask_again a m =
    bit_ext _ _ λ j. omega (arith, bit_at-bit_and (bit_and a m) m j, bit_at-bit_and a m j)

mstatus_again :
    (a : ℕ)
    → bit_or (bit_and (bit_or (bit_and a 0x88) mstatus_mpp) 0x88) mstatus_mpp
      ≡ bit_or (bit_and a 0x88) mstatus_mpp
mstatus_again a = bit_ext _ _ λ j. omega (
  arith,
  bit_at-bit_or (bit_and (bit_or (bit_and a 0x88) mstatus_mpp) 0x88) mstatus_mpp j,
  bit_at-bit_and (bit_or (bit_and a 0x88) mstatus_mpp) 0x88 j,
  bit_at-bit_or (bit_and a 0x88) mstatus_mpp j,
  bit_at-bit_and a 0x88 j,
)

-- The law for one written register.
abbrev pub IsLawful : Csr → ℕ → ℕ → ℕ → ℕ → Type 0
IsLawful csr written address value old = read (write csr written value).1 address old ≡ (
    if address == written
    then (if is_read_only address then read csr address old else (ok, legal address value))
    else read csr address old)

at_300 : (csr : Csr) (address value old : ℕ) → IsLawful csr 0x300 address value old
unfolding read write
at_300 csr address value old = ground (arith, mstatus_again value)

at_304 : (csr : Csr) (address value old : ℕ) → IsLawful csr 0x304 address value old
unfolding read write
at_304 csr address value old = ground (arith, mask_again value mie_mask)

at_305 : (csr : Csr) (address value old : ℕ) → IsLawful csr 0x305 address value old
unfolding read write
at_305 csr address value old = ground (arith, mask_again value word_mask)

at_340 : (csr : Csr) (address value old : ℕ) → IsLawful csr 0x340 address value old
unfolding read write
at_340 csr address value old = ground arith

at_341 : (csr : Csr) (address value old : ℕ) → IsLawful csr 0x341 address value old
unfolding read write
at_341 csr address value old = ground (arith, mask_again value word_mask)

at_342 : (csr : Csr) (address value old : ℕ) → IsLawful csr 0x342 address value old
unfolding read write
at_342 csr address value old = ground arith

at_343 : (csr : Csr) (address value old : ℕ) → IsLawful csr 0x343 address value old
unfolding read write
at_343 csr address value old = ground arith

at_344 : (csr : Csr) (address value old : ℕ) → IsLawful csr 0x344 address value old
unfolding read write
at_344 csr address value old = ground arith

at_301 : (csr : Csr) (address value old : ℕ) → IsLawful csr 0x301 address value old
unfolding read write
at_301 csr address value old = ground arith

at_310 : (csr : Csr) (address value old : ℕ) → IsLawful csr 0x310 address value old
unfolding read write
at_310 csr address value old = ground arith

-- After an accepted CSR write every register reads as before, but for the one at the written
-- address, which reads the legal bits of the value unless it is read-only.
pub read-write_csr :
    (csr : Csr) (written address value old : ℕ)
    → (write csr written value).0 ≡ ok
    → read (write csr written value).1 address old ≡ (
        if address == written
        then (if is_read_only address then read csr address old else (ok, legal address value))
        else read csr address old)
unfolding write
read-write_csr csr written address value old h =
    let law : (c : ℕ)
        → written ≡ c
        → IsLawful csr c address value old
        → IsLawful csr written address value old =
      λ c e l. subst (λ w. IsLawful csr w address value old) (sym e) l in
    elim (ℕ_discrete written 0x300) [
      | yes e ↦ law 0x300 e (at_300 csr address value old)
      | no n0 ↦ elim (ℕ_discrete written 0x304) [
        | yes e ↦ law 0x304 e (at_304 csr address value old)
        | no n1 ↦ elim (ℕ_discrete written 0x305) [
          | yes e ↦ law 0x305 e (at_305 csr address value old)
          | no n2 ↦ elim (ℕ_discrete written 0x340) [
            | yes e ↦ law 0x340 e (at_340 csr address value old)
            | no n3 ↦ elim (ℕ_discrete written 0x341) [
              | yes e ↦ law 0x341 e (at_341 csr address value old)
              | no n4 ↦ elim (ℕ_discrete written 0x342) [
                | yes e ↦ law 0x342 e (at_342 csr address value old)
                | no n5 ↦ elim (ℕ_discrete written 0x343) [
                  | yes e ↦ law 0x343 e (at_343 csr address value old)
                  | no n6 ↦ elim (ℕ_discrete written 0x344) [
                    | yes e ↦ law 0x344 e (at_344 csr address value old)
                    | no n7 ↦ elim (ℕ_discrete written 0x301) [
                      | yes e ↦ law 0x301 e (at_301 csr address value old)
                      | no n8 ↦ elim (ℕ_discrete written 0x310) [
                        | yes e ↦ law 0x310 e (at_310 csr address value old)
                        | no n9 ↦ absurd (ground arith)
                      ]
                    ]
                  ]
                ]
              ]
            ]
          ]
        ]
      ]
    ]
