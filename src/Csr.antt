-- ===== src/Csr.antt =====
-- The control and status registers: `YanCsr` of include/yan/cpu.h and src/csr.c.
pub mod Laws
use yan_os.Base.{ℕ, bit_and, bit_or, Bool, true, false, ◌||◌, ◌==◌, if◌then◌else◌}
use yan_os.Status.{Status, ok, unsupported_instruction}

pub record Csr : Type 0 where
  pub mstatus : ℕ
  pub mtvec : ℕ
  pub mscratch : ℕ
  pub mepc : ℕ
  pub mcause : ℕ
  pub mtval : ℕ
  pub mie : ℕ
  pub mip : ℕ

abbrev pub mstatus_mie : ℕ
mstatus_mie = 0x8

abbrev pub mstatus_mpie : ℕ
mstatus_mpie = 0x80

abbrev pub mstatus_mpp : ℕ
mstatus_mpp = 0x1800

abbrev pub mie_mask : ℕ
mie_mask = 0x888

abbrev pub word_mask : ℕ
word_mask = 0xffff_fffc

abbrev pub is_zero_csr : ℕ → Bool
is_zero_csr address =
    address == 0x301
    || address == 0x310
    || address == 0xf11
    || address == 0xf12
    || address == 0xf13
    || address == 0xf14

-- The last argument is what `*value` holds before the call.
unfoldable pub read : Csr → ℕ → ℕ → Status × ℕ
read csr address value =
    if address == 0x300
    then (ok, bit_or (bit_and csr.mstatus 0x88) mstatus_mpp)
    else if address == 0x304
    then (ok, bit_and csr.mie mie_mask)
    else if address == 0x305
    then (ok, bit_and csr.mtvec word_mask)
    else if address == 0x340
    then (ok, csr.mscratch)
    else if address == 0x341
    then (ok, bit_and csr.mepc word_mask)
    else if address == 0x342
    then (ok, csr.mcause)
    else if address == 0x343
    then (ok, csr.mtval)
    else if address == 0x344
    then (ok, bit_and csr.mip mie_mask)
    else if is_zero_csr address
    then (ok, 0)
    else (unsupported_instruction, value)

unfoldable pub write : Csr → ℕ → ℕ → Status × Csr
write csr address value =
    if address == 0x300
    then (ok, record csr { mstatus = bit_or (bit_and value 0x88) mstatus_mpp })
    else if address == 0x304
    then (ok, record csr { mie = bit_and value mie_mask })
    else if address == 0x305
    then (ok, record csr { mtvec = bit_and value word_mask })
    else if address == 0x340
    then (ok, record csr { mscratch = value })
    else if address == 0x341
    then (ok, record csr { mepc = bit_and value word_mask })
    else if address == 0x342
    then (ok, record csr { mcause = value })
    else if address == 0x343
    then (ok, record csr { mtval = value })
    else if address == 0x344
    then (ok, csr)
    else if address == 0x301 || address == 0x310
    then (ok, csr)
    else (unsupported_instruction, csr)
