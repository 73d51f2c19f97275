-- ===== src/Machine/Wiring.antt =====
-- The machine that `yan_machine_init_with` of src/machine.c assembles.
use mathlib.Core.Option.{Option}
use yan_os.Base.{ℕ, ◌+◌, ◌%◌, ◌^◌, ◌≤◌, ◌<◌, ◌≡◌, refl, arith, none, some, Bool, false, replicate}
use yan_os.Status.{ok}
use yan_os.Platform.{clint_base, clint_size, plic_base, plic_size, uart_base, uart_size}
use yan_os.Platform.{transport_base, transport_size}
use yan_os.Ram
use yan_os.Ram.{Ram}
use yan_os.Cpu
use yan_os.Cpu.{zero_cpu, zero_csr}
use yan_os.Csr.{mstatus_mpp}
use yan_os.Clint
use yan_os.Plic
use yan_os.Uart
use yan_os.Transport
use yan_os.Bus.{Bus, mapped, device_offset, decode, dispatch, to_ram}
use yan_os.Bus
use yan_os.Ram.Laws.{IsValid}
use yan_os.Ram.Bytes.{IsByte}
use yan_os.Step.Invariant.{IsWellFormed}
use yan_os.Base.{length-replicate, All-replicate}
use yan_os.Machine.{
  Machine, check_machine, window_overlaps, ram_overlaps_a_device, init_with, all_links, bus_of,
}

-- An address of RAM lies outside a window that RAM does not overlap.
outside_window {ℓ} :
    {D : Type ℓ} (o : Option D) (ram_base ram_size address width base size : ℕ)
    → window_overlaps ram_base ram_size base size ≡ false
    → ram_base + ram_size ≤ 2 ^ 32
    → base + size ≤ 2 ^ 32
    → ram_base ≤ address
    → address < ram_base + ram_size
    → mapped o address width base size ≡ none
unfolding mapped device_offset window_overlaps
outside_window none ram_base ram_size address width base size h fits window lo hi = refl
outside_window (some d) ram_base ram_size address width base size h fits window lo hi = ground arith

decode_in_ram :
    (bus : Bus) (ram_base ram_size address width : ℕ)
    → ram_overlaps_a_device ram_base ram_size ≡ false
    → ram_base + ram_size ≤ 2 ^ 32
    → ram_base ≤ address
    → address < ram_base + ram_size
    → decode bus address width ≡ to_ram
unfolding decode dispatch ram_overlaps_a_device
decode_in_ram bus b s address width h fits lo hi =
    rw
      (
        outside_window bus.clint b s address width clint_base clint_size (ground arith) fits
            (omega arith) lo hi,
        outside_window bus.plic b s address width plic_base plic_size (ground arith) fits
            (omega arith) lo hi,
        outside_window bus.uart b s address width uart_base uart_size (ground arith) fits
            (omega arith) lo hi,
        outside_window bus.transport b s address width transport_base transport_size (ground arith)
            fits (omega arith) lo hi,
      )
      refl

-- The machine that a successful init leaves: zeroed RAM, every link, the hart at the base.
abbrev pub assembled : Machine → ℕ → ℕ → Machine
assembled m base size = record {
  ram = record { storage = some (replicate size 0); size = size };
  bus = all_links base;
  cpu = record zero_cpu { pc = base; csr = record zero_csr { mstatus = mstatus_mpp } };
  clint = Clint.reset m.clint;
  plic = Plic.reset m.plic;
  uart = Uart.reset m.uart;
  transport = Transport.reset m.transport;
  ram_base = base;
  ram_size = size;
}

-- Where `yan_machine_init_with` succeeds, RAM overlaps no device, is not empty, ends within 2^32
-- and starts aligned, and the machine is the assembled one: zeroed RAM, every link set, the
-- devices reset, the hart reset at the base of RAM.
pub init_with-ok :
    (m : Machine) (base size : ℕ) (available : Bool)
    → (init_with m base size available).0 ≡ ok
    → (ram_overlaps_a_device base size ≡ false)
      × (0 < size)
      × (base + size ≤ 2 ^ 32)
      × (base % 4 ≡ 0)
      × (init_with m base size available ≡ (ok, assembled m base size))
unfolding init_with Ram.init Bus.init Cpu.reset
init_with-ok m base size available h = ground arith

assembled-checks :
    (m : Machine) (base size : ℕ) → 0 < size → check_machine (assembled m base size) ≡ ok
unfolding check_machine
assembled-checks m base size h = ground arith

-- A machine that was assembled can run.
pub init_with-usable :
    (m : Machine) (base size : ℕ) (available : Bool)
    → (init_with m base size available).0 ≡ ok
    → (let m' = (init_with m base size available).1 in
        (check_machine m' ≡ ok) × IsValid m'.ram × IsWellFormed m'.cpu × (m'.cpu.pc ≡ base))
unfolding check_machine bus_of
init_with-usable m base size available h =
    let i = init_with-ok m base size available h in
    rw i.4 (
      assembled-checks m base size i.1,
      (length-replicate size 0, i.1, All-replicate IsByte size 0 (omega arith)),
      (refl, refl, i.3),
      refl,
    )

-- In a machine that `yan_machine_init_with` accepted, an access at any address of RAM, of any
-- width, is decoded to RAM and never to a device.
pub ram_not_shadowed :
    (m : Machine) (base size : ℕ) (available : Bool) (address width : ℕ)
    → (init_with m base size available).0 ≡ ok
    → base ≤ address
    → address < base + size
    → decode (bus_of (init_with m base size available).1) address width ≡ to_ram
ram_not_shadowed m base size available address width h lo hi =
    let i = init_with-ok m base size available h in
    decode_in_ram (bus_of (init_with m base size available).1) base size address width i.0 i.2 lo hi
