-- ===== src/Tests/Words.antt =====
-- The arithmetic of src/cpu.c on concrete words.
use yan_os.Base.{ℕ, ◌+◌, ◌*◌, ◌^◌, ◌≡◌, refl, arith}
use yan_os.Base.Int.{signed32, floor_shift, ◌*ℤ◌, to_u64, quot, rem}
use yan_os.Base.{◌⊎◌, ◌-◌}
use yan_os.Alu.{arithmetic_shift_right, m_extension_operation}
use yan_os.Alu.Shift.{arithmetic_shift_right-floor}
use yan_os.Alu.Multiply.{mulh-mul}
use yan_os.Alu.Divide.{Truncates, div-rem}

abbrev minus_six : ℕ
minus_six = 0xffff_fffa

arithmetic_shift_right-floor_example :
    signed32 (arithmetic_shift_right minus_six 2) ≡ floor_shift (signed32 minus_six) 2
arithmetic_shift_right-floor_example =
    arithmetic_shift_right-floor minus_six 2 (omega arith) (omega arith)

mulh-mul_example :
    m_extension_operation 1 minus_six 7 * 2 ^ 32 + m_extension_operation 0 minus_six 7
    ≡ to_u64 (signed32 minus_six *ℤ signed32 7)
mulh-mul_example = mulh-mul minus_six 7 (omega arith) (omega arith)

div-rem_example :
    let q = m_extension_operation 4 minus_six 4 in
    let r = m_extension_operation 6 minus_six 4 in
    ((◌≡◌ {A = ℕ} 4 0) × (q ≡ 2 ^ 32 - 1) × (r ≡ minus_six)) ⊎ Truncates minus_six 4 q r
div-rem_example = div-rem minus_six 4 (omega arith) (omega arith)

-- -6 / 4 is -1, and the remainder is -2.
div_test : m_extension_operation 4 minus_six 4 ≡ 0xffff_ffff
unfolding m_extension_operation quot
div_test = refl

rem_test : m_extension_operation 6 minus_six 4 ≡ 0xffff_fffe
unfolding m_extension_operation rem
rem_test = refl
