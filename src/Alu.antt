-- ===== src/Alu.antt =====
-- The arithmetic of src/cpu.c on 32-bit words: RV32I's integer operations and the M extension.
pub mod Shift
pub mod Compare
pub mod Multiply
pub mod Divide
use yan_os.Base.{ℕ, ◌+◌, ◌-◌, ◌*◌, ◌/◌, ◌%◌, ◌^◌, bit_and, bit_or, bit_xor, Bool, ◌&&◌}
use yan_os.Base.{◌==◌, ◌!=◌, ltb, to_int, if◌then◌else◌}
use yan_os.Base.Int.{ℤ, pos, signed32, ◌*ℤ◌, quot, rem, to_u32, to_u64}

-- Arithmetic on `uint32_t`.
abbrev pub add32 : ℕ → ℕ → ℕ
add32 a b = (a + b) % 2 ^ 32

abbrev pub sub32 : ℕ → ℕ → ℕ
sub32 a b = (a + 2 ^ 32 - b) % 2 ^ 32

abbrev pub shl32 : ℕ → ℕ → ℕ
shl32 a n = a * 2 ^ n % 2 ^ 32

abbrev pub shr32 : ℕ → ℕ → ℕ
shr32 a n = a / 2 ^ n

abbrev pub sign_bit : ℕ
sign_bit = 0x8000_0000

abbrev pub u32_max : ℕ
u32_max = 0xffff_ffff

unfoldable pub arithmetic_shift_right : ℕ → ℕ → ℕ
arithmetic_shift_right value amount =
    if amount == 0
    then value
    else (let result = shr32 value amount in
        if bit_and value sign_bit != 0 then bit_or result (shl32 u32_max (32 - amount)) else result)

-- Flipping the sign bit orders two's-complement words as unsigned ones.
unfoldable pub signed_less : ℕ → ℕ → Bool
signed_less left right = ltb (bit_xor left sign_bit) (bit_xor right sign_bit)

unfoldable pub integer_operation : ℕ → ℕ → ℕ → Bool → ℕ
integer_operation funct3 left right alternate =
    let amount = bit_and right 31 in
    if funct3 == 0
    then (if alternate then sub32 left right else add32 left right)
    else if funct3 == 1
    then shl32 left amount
    else if funct3 == 2
    then to_int (signed_less left right)
    else if funct3 == 3
    then to_int (ltb left right)
    else if funct3 == 4
    then bit_xor left right
    else if funct3 == 5
    then (if alternate then arithmetic_shift_right left amount else shr32 left amount)
    else if funct3 == 6
    then bit_or left right
    else bit_and left right

unfoldable pub m_extension_operation : ℕ → ℕ → ℕ → ℕ
m_extension_operation funct3 left right =
    let signed_left = signed32 left in
    let signed_right = signed32 right in
    if funct3 == 0
    then left * right % 2 ^ 64 % 2 ^ 32
    else if funct3 == 1
    then to_u64 (signed_left *ℤ signed_right) / 2 ^ 32 % 2 ^ 32
    else if funct3 == 2
    then to_u64 (signed_left *ℤ pos right) / 2 ^ 32 % 2 ^ 32
    else if funct3 == 3
    then left * right % 2 ^ 64 / 2 ^ 32 % 2 ^ 32
    else if funct3 == 4
    then (if right == 0
        then u32_max
        else if left == sign_bit && right == u32_max
        then left
        else to_u32 (quot signed_left signed_right))
    else if funct3 == 5
    then (if right == 0 then u32_max else left / right)
    else if funct3 == 6
    then (if right == 0
        then left
        else if left == sign_bit && right == u32_max
        then 0
        else to_u32 (rem signed_left signed_right))
    else if right == 0
    then left
    else left % right

-- The low `bits` bits of `value` are all that it has.
unfoldable pub sign_extend : ℕ → ℕ → ℕ
sign_extend value bits = let sign = shl32 1 (bits - 1) in sub32 (bit_xor value sign) sign
