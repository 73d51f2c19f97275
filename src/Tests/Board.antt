-- ===== src/Tests/Board.antt =====
-- The machine of src/machine.c at a concrete state.
use yan_os.Base.{◌≡◌, refl, arith, [], ◌∷◌, true, false}
use yan_os.Status.{ok}
use yan_os.Ram
use yan_os.Bus
use yan_os.Bus.{decode, to_ram}
use yan_os.Cpu
use yan_os.Cpu.{zero_cpu}
use yan_os.Machine
use yan_os.Machine.{
  Machine, init_with, ram_overlaps_a_device, bus_of, no_links, zero_clint, zero_plic, zero_uart,
  zero_transport,
}
use yan_os.Machine.Wiring.{ram_not_shadowed}
use yan_os.Machine.Run.{IsRunnable, run, boot-run}

abbrev blank : Machine
blank = record {
  ram = Ram.absent;
  bus = no_links;
  cpu = zero_cpu;
  clint = zero_clint;
  plic = zero_plic;
  uart = zero_uart;
  transport = zero_transport;
  ram_base = 0;
  ram_size = 0;
}

booted : (init_with blank 0x8000_0000 64 true).0 ≡ ok
unfolding init_with ram_overlaps_a_device Machine.window_overlaps Ram.init Bus.init Cpu.reset
booted = refl

boot-run_example : IsRunnable (run (init_with blank 0x8000_0000 64 true).1 (true ∷ false ∷ []))
boot-run_example = boot-run blank 0x8000_0000 64 true (true ∷ false ∷ []) booted

ram_not_shadowed_example :
    decode (bus_of (init_with blank 0x8000_0000 64 true).1) 0x8000_0020 4 ≡ to_ram
ram_not_shadowed_example =
    ram_not_shadowed blank 0x8000_0000 64 true 0x8000_0020 4 booted (omega arith) (omega arith)
