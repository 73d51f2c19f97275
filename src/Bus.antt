-- ===== src/Bus.antt =====
-- The bus of src/bus.c: it decodes the device windows before RAM. A pointer of `YanBus` is the
-- object that it points to, or `none` where it is NULL; an access gives the objects back.
pub mod Failure
pub mod Routes
use mathlib.Core.Option
use mathlib.Core.Option.{Option}
use yan_os.Base.{ℕ, ◌+◌, ◌-◌, ◌%◌, ◌^◌, bit_or, none, some, List, [], Bool, true, false}
use yan_os.Base.{◌&&◌, ◌||◌, ◌==◌, ◌!=◌, ltb, leb, is_null, if◌then◌else◌}
use yan_os.Status.{Status, ok, invalid_state, out_of_bounds, invalid_width, unaligned, unmapped}
use yan_os.Status.{is_ok}
use yan_os.Platform.{clint_base, clint_size, plic_base, plic_size, uart_base, uart_size}
use yan_os.Platform.{transport_base, transport_size}
use yan_os.Host.{Effect}
use yan_os.Ram
use yan_os.Ram.{Ram}
use yan_os.Clint
use yan_os.Clint.{Clint}
use yan_os.Plic
use yan_os.Plic.{Plic}
use yan_os.Uart
use yan_os.Uart.{Uart}
use yan_os.Transport
use yan_os.Transport.{Transport}

pub record Bus : Type 0 where
  pub ram : Option Ram
  pub ram_base : ℕ
  pub clint : Option Clint
  pub plic : Option Plic
  pub uart : Option Uart
  pub transport : Option Transport

pub data Access : Type 0 where
  read_access write_access fetch_access : Access

pub record BusResult : Type 0 where
  pub status : Status
  pub address : ℕ
  pub width : ℕ
  pub access : Access

-- The bus before the call is the first argument.
unfoldable pub init : Bus → Ram → ℕ → Status × Bus
init bus ram base =
    if is_null ram.storage || ram.size == 0
    then (invalid_state, bus)
    else if ltb (2 ^ 32 - base) ram.size
    then (out_of_bounds, bus)
    else (
      ok,
      record {
        ram = some ram;
        ram_base = base;
        clint = none;
        plic = none;
        uart = none;
        transport = none;
      },
    )

-- `none` is a NULL `ram`. The second part is the offset into RAM.
unfoldable pub ram_translate : Bus → ℕ → ℕ → Status × ℕ
ram_translate bus address width = elim bus.ram [
  | none ↦ (invalid_state, 0)
  | some ram ↦
      if is_null ram.storage || ram.size == 0
      then (invalid_state, 0)
      else if width != 1 && width != 2 && width != 4
      then (invalid_width, 0)
      else if address % width != 0
      then (unaligned, 0)
      else if ltb address bus.ram_base
      then (unmapped, 0)
      else if leb ram.size (address - bus.ram_base)
      then (unmapped, 0)
      else (ok, address - bus.ram_base)
]

unfoldable pub ram_read : Bus → ℕ → ℕ → ℕ → Status × ℕ
ram_read bus address width value =
    let (status, offset) = ram_translate bus address width in
    if is_ok status
    then elim bus.ram [ none ↦ (status, value) | some ram ↦ Ram.read ram offset width value ]
    else (status, value)

unfoldable pub ram_write : Bus → ℕ → ℕ → ℕ → Status × Bus
ram_write bus address width value =
    let (status, offset) = ram_translate bus address width in
    if is_ok status
    then elim bus.ram [
      | none ↦ (status, bus)
      | some ram ↦
          let (status, ram') = Ram.write ram offset width value in
          (status, record bus { ram = some ram' })
    ]
    else (status, bus)

unfoldable pub device_offset : ℕ → ℕ → ℕ → Option ℕ
device_offset address base size =
    if ltb address base || leb size (address - base) then none else some (address - base)

-- The device's answer to the test that guards its branch: it is mapped, the access is of a word,
-- and the address lies in its window.
unfoldable pub mapped {ℓ} : {D : Type ℓ} → Option D → ℕ → ℕ → ℕ → ℕ → Option (D × ℕ)
mapped none address width base size = none
mapped (some device) address width base size =
    if width == 4
    then Option.map (λ offset. (device, offset)) (device_offset address base size)
    else none

-- Which branch of `yan_bus_read` and `yan_bus_write` an access takes.
pub data Target : Type 0 where
  to_clint : Clint → ℕ → Target
  to_plic : Plic → ℕ → Target
  to_uart : Uart → ℕ → Target
  to_transport : Transport → ℕ → Target
  to_ram : Target

-- The first device that is mapped answers; RAM if there is none.
unfoldable pub dispatch :
    Option (Clint × ℕ) → Option (Plic × ℕ) → Option (Uart × ℕ) → Option (Transport × ℕ) → Target
dispatch (some (clint, offset)) _ _ _ = to_clint clint offset
dispatch none (some (plic, offset)) _ _ = to_plic plic offset
dispatch none none (some (uart, offset)) _ = to_uart uart offset
dispatch none none none (some (transport, offset)) = to_transport transport offset
dispatch none none none none = to_ram

unfoldable pub decode : Bus → ℕ → ℕ → Target
decode bus address width =
    dispatch (mapped bus.clint address width clint_base clint_size)
      (mapped bus.plic address width plic_base plic_size)
      (mapped bus.uart address width uart_base uart_size)
      (mapped bus.transport address width transport_base transport_size)

-- One branch of a read: the status, what `*value` holds afterwards, and the objects. `ready` is
-- what the UART's backend answers, `value` what `*value` holds before.
unfoldable pub read_target : Target → Bus → ℕ → ℕ → Bool → ℕ → Status × ℕ × Bus
read_target (to_clint clint offset) bus address width ready value =
    let (status, value') = Clint.read clint offset value in (status, value', bus)
read_target (to_plic plic offset) bus address width ready value =
    let (status, value', plic') = Plic.read plic offset value in
    (status, value', record bus { plic = some plic' })
read_target (to_uart uart offset) bus address width ready value =
    let (status, value', uart') = Uart.read uart offset ready value in
    (status, value', record bus { uart = some uart' })
read_target (to_transport transport offset) bus address width ready value =
    let (status, value') = Transport.read transport offset value in (status, value', bus)
read_target to_ram bus address width ready value =
    let (status, value') = ram_read bus address width value in (status, value', bus)

unfoldable pub read : Bus → ℕ → ℕ → Bool → ℕ → BusResult × ℕ × Bus
read bus address width ready value =
    let (status, value', bus') =
      read_target (decode bus address width) bus address width ready value in
    (
      record { status = status; address = address; width = width; access = read_access },
      value',
      bus',
    )

unfoldable pub write_target : Target → Bus → ℕ → ℕ → ℕ → Bool → Status × Bus × List Effect
write_target (to_clint clint offset) bus address width value ready =
    let (status, clint') = Clint.write clint offset value in
    (status, record bus { clint = some clint' }, [])
write_target (to_plic plic offset) bus address width value ready =
    let (status, plic') = Plic.write plic offset value in
    (status, record bus { plic = some plic' }, [])
write_target (to_uart uart offset) bus address width value ready =
    let (status, uart', effects) = Uart.write uart offset value ready in
    (status, record bus { uart = some uart' }, effects)
write_target (to_transport transport offset) bus address width value ready =
    let (status, transport', effects) = Transport.write transport offset value in
    (status, record bus { transport = some transport' }, effects)
write_target to_ram bus address width value ready =
    let (status, bus') = ram_write bus address width value in (status, bus', [])

unfoldable pub write : Bus → ℕ → ℕ → ℕ → Bool → BusResult × Bus × List Effect
write bus address width value ready =
    let (status, bus', effects) =
      write_target (decode bus address width) bus address width value ready in
    (
      record { status = status; address = address; width = width; access = write_access },
      bus',
      effects,
    )

unfoldable pub pending_interrupts : Bus → ℕ
pending_interrupts bus = bit_or (Clint.pending bus.clint) (Plic.pending_line bus.plic)

-- Instruction fetch reads RAM alone.
unfoldable pub fetch32 : Bus → ℕ → ℕ → BusResult × ℕ
fetch32 bus address instruction =
    let (status, instruction') = ram_read bus address 4 instruction in
    (record { status = status; address = address; width = 4; access = fetch_access }, instruction')
