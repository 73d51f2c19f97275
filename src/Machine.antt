-- ===== src/Machine.antt =====
-- The assembled machine: `YanMachine` of src/machine.c. The machine owns RAM and devices; the
-- pointers of its bus are `Link`s, and only what a link of the machine's own names is reached.
pub mod Wiring
pub mod Run
use mathlib.Core.Option
use mathlib.Core.Option.{Option}
use yan_os.Base.{◌%◌, ◌^◌}
use yan_os.Base.{
  ℕ, zero, suc, ◌+◌, ◌%◌, none, some, List, [], ◌∷◌, Bool, true, false, not, ◌&&◌, ◌||◌,
}
use yan_os.Base.{◌==◌, ◌!=◌, ltb, is_null, if◌then◌else◌, replicate}
use yan_os.Status.{Status, ok, invalid_argument, invalid_state, out_of_bounds, is_ok}
use yan_os.Platform.{clint_base, clint_size, plic_base, plic_size, uart_base, uart_size}
use yan_os.Platform.{transport_base, transport_size, source_transport, source_uart}
use yan_os.Platform.{default_ram_base, default_ram_size}
use yan_os.Host.{Effect}
use yan_os.Ram
use yan_os.Ram.{Ram}
use yan_os.Clint
use yan_os.Clint.{Clint}
use yan_os.Plic
use yan_os.Plic.{Plic}
use yan_os.Uart
use yan_os.Uart.{Uart}
use yan_os.Transport
use yan_os.Transport.{Transport}
use yan_os.Bus
use yan_os.Bus.{Bus}
use yan_os.Cpu
use yan_os.Cpu.{Cpu, zero_cpu}
use yan_os.Step

-- A pointer of the bus: NULL, to the machine's own object, or to another one.
pub data Link : Type 0 where
  null own other : Link

pub record Links : Type 0 where
  pub ram : Link
  pub ram_base : ℕ
  pub clint : Link
  pub plic : Link
  pub uart : Link
  pub transport : Link

pub record Machine : Type 0 where
  pub ram : Ram
  pub bus : Links
  pub cpu : Cpu
  pub clint : Clint
  pub plic : Plic
  pub uart : Uart
  pub transport : Transport
  pub ram_base : ℕ
  pub ram_size : ℕ

abbrev pub is_own : Link → Bool
is_own own = true
is_own _ = false

abbrev pub is_null_link : Link → Bool
is_null_link null = true
is_null_link _ = false

unfoldable pub check_machine : Machine → Status
check_machine m =
    let bus = m.bus in
    if is_null m.ram.storage
      || m.ram.size != m.ram_size
      || m.ram_size == 0
      || not (is_own bus.ram)
      || bus.ram_base != m.ram_base
    then invalid_state
    else if not (is_own bus.clint)
        || not (is_own bus.plic)
        || not (is_own bus.uart)
        || not (is_own bus.transport)
    then invalid_state
    else ok

unfoldable pub window_overlaps : ℕ → ℕ → ℕ → ℕ → Bool
window_overlaps base size device_base device_size =
    ltb base ((device_base + device_size) % 2 ^ 64) && ltb device_base ((base + size) % 2 ^ 64)

unfoldable pub ram_overlaps_a_device : ℕ → ℕ → Bool
ram_overlaps_a_device base size =
    window_overlaps base size clint_base clint_size
    || window_overlaps base size plic_base plic_size
    || window_overlaps base size uart_base uart_size
    || window_overlaps base size transport_base transport_size

abbrev pub no_links : Links
no_links = record {
  ram = null;
  ram_base = 0;
  clint = null;
  plic = null;
  uart = null;
  transport = null;
}

abbrev pub zero_clint : Clint
zero_clint = record { msip = 0; mtime = 0; mtimecmp = 0 }

abbrev pub zero_plic : Plic
zero_plic = record {
  priority = replicate Plic.source_count 0;
  pending = 0;
  level = 0;
  enable_m = 0;
  threshold_m = 0;
  in_service_m = 0;
}

abbrev pub zero_uart : Uart
zero_uart = record {
  control = 0;
  irq_status = 0;
  rx_data = 0;
  rx_available = false;
  attached = false;
}

abbrev pub zero_transport : Transport
zero_transport = record {
  ring_base = 0;
  ring_size = 0;
  g2h_head = 0;
  g2h_tail = 0;
  h2g_head = 0;
  h2g_tail = 0;
  irq_status = 0;
  irq_enable = 0;
  overflow_detected = false;
  attached = false;
}

unfoldable pub destroy : Machine → Machine
destroy m = record {
  ram = Ram.destroy m.ram;
  bus = no_links;
  cpu = zero_cpu;
  clint = zero_clint;
  plic = zero_plic;
  uart = zero_uart;
  transport = zero_transport;
  ram_base = 0;
  ram_size = 0;
}

-- The links of an assembled machine.
abbrev pub all_links : ℕ → Links
all_links base = record {
  ram = own;
  ram_base = base;
  clint = own;
  plic = own;
  uart = own;
  transport = own;
}

abbrev pub no_bus : Bus
no_bus = record {
  ram = none;
  ram_base = 0;
  clint = none;
  plic = none;
  uart = none;
  transport = none;
}

-- Is the machine as zero-initialization or a destroy left it, as far as the code asks?
abbrev pub is_assembled : Machine → Bool
is_assembled m =
    let bus = m.bus in
    not (is_null m.ram.storage)
    || m.ram.size != 0
    || not (is_null_link bus.ram)
    || bus.ram_base != 0
    || not (is_null_link bus.clint)
    || not (is_null_link bus.plic)
    || not (is_null_link bus.uart)
    || not (is_null_link bus.transport)

-- `available` is whether the host has the memory for RAM.
unfoldable pub init_with : Machine → ℕ → ℕ → Bool → Status × Machine
init_with m ram_base ram_size available =
    if ram_size == 0
    then (invalid_argument, m)
    else if ram_overlaps_a_device ram_base ram_size
    then (invalid_argument, m)
    else if is_assembled m
    then (invalid_state, m)
    else (let (status, ram) = Ram.init m.ram ram_size available in
        if not (is_ok status)
        then (status, record m { ram = ram })
        else (let bus_status = (Bus.init no_bus ram ram_base).0 in
            if not (is_ok bus_status)
            then (bus_status, destroy (record m { ram = ram }))
            else (let (cpu_status, cpu) = Cpu.reset m.cpu ram_base in
                let ready : Machine = record {
                  ram = ram;
                  bus = all_links ram_base;
                  cpu = cpu;
                  clint = Clint.reset m.clint;
                  plic = Plic.reset m.plic;
                  uart = Uart.reset m.uart;
                  transport = Transport.reset m.transport;
                  ram_base = ram_base;
                  ram_size = ram_size;
                } in
                if not (is_ok cpu_status) then (cpu_status, destroy ready) else (ok, ready))))

unfoldable pub init : Machine → Bool → Status × Machine
init m available = init_with m default_ram_base default_ram_size available

unfoldable pub reset : Machine → Status × Machine
reset m =
    let status = check_machine m in
    if not (is_ok status)
    then (status, m)
    else (let (cleared, ram) = Ram.clear m.ram in
        if not (is_ok cleared)
        then (cleared, record m { ram = ram })
        else (let (status, cpu) = Cpu.reset m.cpu m.ram_base in
            (
              status,
              record m {
                ram = ram;
                cpu = cpu;
                clint = Clint.reset m.clint;
                plic = Plic.reset m.plic;
                uart = Uart.reset m.uart;
                transport = Transport.reset m.transport;
              },
            )))

-- `memmove(ram->data, image, size)`
abbrev pub copy_front : ℕ → List ℕ → List ℕ → List ℕ
copy_front zero image store = store
copy_front (suc n) [] store = store
copy_front (suc n) (b ∷ image) [] = []
copy_front (suc n) (b ∷ image) (x ∷ store) = b ∷ copy_front n image store

-- `none` is a NULL image.
unfoldable pub load_image : Machine → Option (List ℕ) → ℕ → Status × Machine
load_image m image size =
    let status = check_machine m in
    let ram = m.ram in
    if not (is_ok status)
    then (status, m)
    else if is_null image && size != 0
    then (invalid_argument, m)
    else if ltb ram.size size
    then (out_of_bounds, m)
    else (
      ok,
      record m {
        ram = record ram {
          storage = Option.map (copy_front size (Option.get_or image [])) ram.storage;
        };
      },
    )

unfoldable pub tick : Machine → ℕ → Status × Machine
tick m ticks =
    let status = check_machine m in
    if not (is_ok status) then (status, m) else (ok, record m { clint = Clint.tick m.clint ticks })

unfoldable pub sample_devices : Machine → Status × Machine
sample_devices m =
    let status = check_machine m in
    if not (is_ok status) then (status, m) else (
      ok,
      record m {
        plic =
            Plic.set_level (Plic.set_level m.plic source_uart (Uart.pending m.uart))
              source_transport (Transport.pending m.transport);
      },
    )

abbrev pub reached {ℓ} : {D : Type ℓ} → Link → D → Option D
reached own device = some device
reached _ device = none

-- The bus that the hart sees.
unfoldable pub bus_of : Machine → Bus
bus_of m =
    let bus = m.bus in
    record {
      ram = reached bus.ram m.ram;
      ram_base = bus.ram_base;
      clint = reached bus.clint m.clint;
      plic = reached bus.plic m.plic;
      uart = reached bus.uart m.uart;
      transport = reached bus.transport m.transport;
    }

-- The machine after the hart has used the bus.
unfoldable pub with_bus : Machine → Cpu → Bus → Machine
with_bus m cpu bus = record m {
  cpu = cpu;
  ram = Option.get_or bus.ram m.ram;
  clint = Option.get_or bus.clint m.clint;
  plic = Option.get_or bus.plic m.plic;
  uart = Option.get_or bus.uart m.uart;
  transport = Option.get_or bus.transport m.transport;
}

-- One cycle. `ready` is what the UART's backend answers if the instruction asks it.
unfoldable pub step : Machine → Bool → Status × Machine × List Effect
step m ready =
    let status = check_machine m in
    if not (is_ok status)
    then (status, m, [])
    else (let ticked = record m { clint = Clint.tick m.clint 1 } in
        let (sampled, published) = sample_devices ticked in
        if not (is_ok sampled)
        then (sampled, published, [])
        else (let (status, cpu, bus, effects) = Step.step published.cpu (bus_of published) ready in
            (status, with_bus published cpu bus, effects)))
