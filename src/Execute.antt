-- ===== src/Execute.antt =====
-- The parts of `yan_cpu_step` in src/cpu.c that compute one instruction's effect. What C stores
-- through a pointer comes back in a tuple; the arguments called `value`, `target` and
-- `fault_address` are what the pointers hold before the call.
use yan_os.Base.{ℕ, ◌*◌, ◌^◌, bit_and, bit_or, Bool, not, ◌&&◌, ◌||◌}
use yan_os.Base.{none, some, List, [], ◌==◌, ◌!=◌, ltb, leb, if◌then◌else◌}
use mathlib.Core.Option.{Option}
use yan_os.Base.Bits.Flag.{bit_not}
use yan_os.Status.{Status, ok, unsupported_instruction, is_ok}
use yan_os.Host.{Effect}
use yan_os.Bus
use yan_os.Bus.{Bus}
use yan_os.Csr
use yan_os.Alu.{add32, shr32, signed_less, integer_operation, m_extension_operation}
use yan_os.Alu.{sign_extend}
use yan_os.Cpu.{Cpu, read_reg}

-- The fields of an instruction word.
abbrev pub opcode : ℕ → ℕ
opcode instruction = bit_and instruction 0x7f

abbrev pub funct3 : ℕ → ℕ
funct3 instruction = bit_and (shr32 instruction 12) 7

abbrev pub rd : ℕ → ℕ
rd instruction = bit_and (shr32 instruction 7) 31

abbrev pub rs1 : ℕ → ℕ
rs1 instruction = bit_and (shr32 instruction 15) 31

abbrev pub rs2 : ℕ → ℕ
rs2 instruction = bit_and (shr32 instruction 20) 31

-- `(void)yan_cpu_read_reg(cpu, index, &x)` with `x` zero before.
abbrev pub register : Cpu → ℕ → ℕ
register cpu index = (read_reg cpu index 0).1

-- `instruction >> 20` of an I-type word, sign-extended.
abbrev pub immediate_i : ℕ → ℕ
immediate_i instruction =
    let immediate = shr32 instruction 20 in
    if bit_and immediate 0x800 != 0 then bit_or immediate 0xffff_f000 else immediate

unfoldable pub compute_integer_result : Cpu → ℕ → ℕ → Status × ℕ
compute_integer_result cpu instruction value =
    let op = opcode instruction in
    let kind = funct3 instruction in
    let upper = shr32 instruction 25 in
    let register_op = op == 0x33 in
    if op == 0x37 || op == 0x17
    then (let immediate = bit_and instruction 0xffff_f000 in
        (ok, if op == 0x37 then immediate else add32 cpu.pc immediate))
    else if op != 0x13 && op != 0x33
    then (unsupported_instruction, value)
    else if register_op && upper == 0x01
    then (
      ok,
      m_extension_operation kind (register cpu (rs1 instruction)) (register cpu (rs2 instruction)),
    )
    else if register_op && upper != 0 && not (upper == 0x20 && (kind == 0 || kind == 5))
    then (unsupported_instruction, value)
    else if not register_op && (kind == 1 && upper != 0 || kind == 5 && upper != 0 && upper != 0x20)
    then (unsupported_instruction, value)
    else (let operand =
          if register_op then register cpu (rs2 instruction) else immediate_i instruction in
        let alternate = upper == 0x20 && (register_op || kind == 5) in
        (ok, integer_operation kind (register cpu (rs1 instruction)) operand alternate))

-- Whether a branch is taken; `none` is an unsupported kind.
unfoldable pub branch_taken : ℕ → ℕ → ℕ → Option Bool
branch_taken kind left right =
    if kind == 0
    then some (left == right)
    else if kind == 1
    then some (left != right)
    else if kind == 4
    then some (signed_less left right)
    else if kind == 5
    then some (not (signed_less left right))
    else if kind == 6
    then some (ltb left right)
    else if kind == 7
    then some (leb right left)
    else none

-- The 13-bit offset that a B-type word encodes.
abbrev pub branch_offset : ℕ → ℕ
branch_offset instruction =
    bit_or
      (bit_or (bit_or (shr32 instruction 31 * 2 ^ 12) (bit_and (shr32 instruction 7) 1 * 2 ^ 11))
        (bit_and (shr32 instruction 25) 0x3f * 2 ^ 5))
      (bit_and (shr32 instruction 8) 0xf * 2)

unfoldable pub compute_branch_target : Cpu → ℕ → ℕ → Status × ℕ
compute_branch_target cpu instruction target =
    let left = register cpu (rs1 instruction) in
    let right = register cpu (rs2 instruction) in
    elim (branch_taken (funct3 instruction) left right) [
      | none ↦ (unsupported_instruction, target)
      | some taken ↦ (
        ok,
        if taken then add32 cpu.pc (sign_extend (branch_offset instruction) 13) else add32 cpu.pc 4,
      )
    ]

-- Status, value, fault address and bus after a load.
unfoldable pub load_value : Cpu → Bus → ℕ → Bool → ℕ → ℕ → Status × ℕ × ℕ × Bus
load_value cpu bus instruction ready value fault_address =
    let kind = funct3 instruction in
    if kind != 0 && kind != 1 && kind != 2 && kind != 4 && kind != 5
    then (unsupported_instruction, value, fault_address, bus)
    else (let base = register cpu (rs1 instruction) in
        let address = add32 base (sign_extend (shr32 instruction 20) 12) in
        let width = 2 ^ bit_and kind 3 in
        let (result, value', bus') = Bus.read bus address width ready value in
        if not (is_ok result.status)
        then (result.status, value', address, bus')
        else if kind == 0 || kind == 1
        then (ok, sign_extend value' (if kind == 0 then 8 else 16), address, bus')
        else (ok, value', address, bus'))

-- Status, fault address, bus and effects after a store.
unfoldable pub store_value : Cpu → Bus → ℕ → Bool → ℕ → Status × ℕ × Bus × List Effect
store_value cpu bus instruction ready fault_address =
    let kind = funct3 instruction in
    if ltb 2 kind
    then (unsupported_instruction, fault_address, bus, [])
    else (let offset = bit_or (shr32 instruction 25 * 2 ^ 5) (bit_and (shr32 instruction 7) 31) in
        let base = register cpu (rs1 instruction) in
        let value = register cpu (rs2 instruction) in
        let address = add32 base (sign_extend offset 12) in
        let (result, bus', effects) = Bus.write bus address (2 ^ kind) value ready in
        (result.status, address, bus', effects))

-- What a CSR instruction of `operation` writes.
abbrev pub updated_csr : ℕ → ℕ → ℕ → ℕ
updated_csr operation old operand =
    if operation == 1
    then operand
    else if operation == 2
    then bit_or old operand
    else bit_and old (bit_not operand)

-- The read that a CSR instruction makes; CSRRW[I] into x0 makes none.
abbrev pub csr_old : Cpu → ℕ → ℕ → ℕ → Status × ℕ
csr_old cpu address operation dest =
    if operation != 1 || dest != 0 then Csr.read cpu.csr address 0 else (ok, 0)

-- Status, value and hart after a CSR instruction.
unfoldable pub execute_csr : Cpu → ℕ → ℕ → Status × ℕ × Cpu
execute_csr cpu instruction value =
    let kind = funct3 instruction in
    if kind == 0 || kind == 4
    then (unsupported_instruction, value, cpu)
    else (let address = shr32 instruction 20 in
        let source_index = rs1 instruction in
        let operand = if ltb kind 4 then register cpu source_index else source_index in
        let operation = bit_and kind 3 in
        let (status, old) = csr_old cpu address operation (rd instruction) in
        if not (is_ok status)
        then (status, value, cpu)
        else if operation == 1 || source_index != 0
        then (let (status', csr') = Csr.write cpu.csr address (updated_csr operation old operand) in
            if not (is_ok status')
            then (status', value, record cpu { csr = csr' })
            else (ok, old, record cpu { csr = csr' }))
        else (ok, old, cpu))
