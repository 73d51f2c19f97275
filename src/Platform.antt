-- ===== src/Platform.antt =====
-- The platform's constants: the device windows and interrupt bits of include/yan/interrupt.h,
-- uart.h, transport.h, and the wiring of include/yan/machine.h.
use yan_os.Base.{ℕ, ◌*◌}

abbrev pub clint_base : ℕ
clint_base = 0x0200_0000

abbrev pub clint_size : ℕ
clint_size = 0x0001_0000

abbrev pub plic_base : ℕ
plic_base = 0x0c00_0000

abbrev pub plic_size : ℕ
plic_size = 0x0040_0000

abbrev pub uart_base : ℕ
uart_base = 0x1000_0000

abbrev pub uart_size : ℕ
uart_size = 0x0000_1000

abbrev pub transport_base : ℕ
transport_base = 0x1000_1000

abbrev pub transport_size : ℕ
transport_size = 0x0000_1000

-- Bits of mip and mie; each position is the cause that it reports.
abbrev pub interrupt_msip : ℕ
interrupt_msip = 0x8

abbrev pub interrupt_mtip : ℕ
interrupt_mtip = 0x80

abbrev pub interrupt_meip : ℕ
interrupt_meip = 0x800

-- The PLIC sources of the two device lines.
abbrev pub source_transport : ℕ
source_transport = 1

abbrev pub source_uart : ℕ
source_uart = 2

abbrev pub default_ram_base : ℕ
default_ram_base = 0x8000_0000

abbrev pub default_ram_size : ℕ
default_ram_size = 32 * 1024 * 1024
