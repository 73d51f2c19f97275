-- ===== src/Clint.antt =====
-- The timer and software interrupts of one hart: `YanClint` of src/interrupt.c.
pub mod Laws
use mathlib.Core.Option.{Option}
use yan_os.Base.{ℕ, ◌+◌, ◌-◌, ◌*◌, ◌/◌, ◌%◌, ◌^◌, bit_and, bit_or, none, some, ◌==◌, ◌!=◌, leb}
use yan_os.Base.{if◌then◌else◌}
use yan_os.Status.{Status, ok, unaligned, unmapped}
use yan_os.Platform.{interrupt_msip, interrupt_mtip}

pub record Clint : Type 0 where
  pub msip : ℕ
  pub mtime : ℕ
  pub mtimecmp : ℕ

abbrev pub msip_offset : ℕ
msip_offset = 0x0000

abbrev pub mtimecmp_offset : ℕ
mtimecmp_offset = 0x4000

abbrev pub mtime_offset : ℕ
mtime_offset = 0xbff8

-- The comparator starts at the top, so that no timer interrupt comes out of a reset.
unfoldable pub reset : Clint → Clint
reset clint = record { msip = 0; mtime = 0; mtimecmp = 2 ^ 64 - 1 }

unfoldable pub tick : Clint → ℕ → Clint
tick clint ticks = record clint { mtime = (clint.mtime + ticks) % 2 ^ 64 }

-- The last argument is what `*value` holds before the call.
unfoldable pub read : Clint → ℕ → ℕ → Status × ℕ
read clint offset value =
    if offset % 4 != 0
    then (unaligned, value)
    else if offset == msip_offset
    then (ok, bit_and clint.msip 1)
    else if offset == mtimecmp_offset
    then (ok, clint.mtimecmp % 2 ^ 32)
    else if offset == mtimecmp_offset + 4
    then (ok, clint.mtimecmp / 2 ^ 32 % 2 ^ 32)
    else if offset == mtime_offset
    then (ok, clint.mtime % 2 ^ 32)
    else if offset == mtime_offset + 4
    then (ok, clint.mtime / 2 ^ 32 % 2 ^ 32)
    else (unmapped, value)

unfoldable pub set_low : ℕ → ℕ → ℕ
set_low reg value = bit_or (bit_and reg 0xffff_ffff_0000_0000) value

unfoldable pub set_high : ℕ → ℕ → ℕ
set_high reg value = bit_or (bit_and reg 0x0000_0000_ffff_ffff) (value * 2 ^ 32 % 2 ^ 64)

unfoldable pub write : Clint → ℕ → ℕ → Status × Clint
write clint offset value =
    if offset % 4 != 0
    then (unaligned, clint)
    else if offset == msip_offset
    then (ok, record clint { msip = bit_and value 1 })
    else if offset == mtimecmp_offset
    then (ok, record clint { mtimecmp = set_low clint.mtimecmp value })
    else if offset == mtimecmp_offset + 4
    then (ok, record clint { mtimecmp = set_high clint.mtimecmp value })
    else if offset == mtime_offset
    then (ok, record clint { mtime = set_low clint.mtime value })
    else if offset == mtime_offset + 4
    then (ok, record clint { mtime = set_high clint.mtime value })
    else (unmapped, clint)

-- A bus may have no CLINT.
unfoldable pub pending : Option Clint → ℕ
pending none = 0
pending (some clint) =
    let soft = if bit_and clint.msip 1 != 0 then interrupt_msip else 0 in
    if leb clint.mtimecmp clint.mtime then bit_or soft interrupt_mtip else soft
