-- ===== src/Tests/Devices.antt =====
-- The devices and RAM at concrete states.
use native.Mathlib.Nat.{dvd-mul_right}
use mathlib.Core.Path.{subst}
use yan_os.Ram.Bytes.{IsByte}
use yan_os.Base.{
  All-replicate, replicate, set, ℕ, ◌+◌, ◌*◌, ◌%◌, ◌^◌, ◌≤◌, ◌≡◌, ◌≢◌, refl, arith, some, List, [],
  ◌∷◌, true, false, if◌then◌else◌, ◌==◌,
}
use yan_os.Base.Bits.{bit_at}
use yan_os.Status.{ok, invalid_argument, invalid_state}
use yan_os.Ram
use yan_os.Ram.{Ram}
use yan_os.Ram.Laws.{write-IsValid}
use yan_os.Ram.Laws
use yan_os.Ram.RoundTrip.{read-write}
use yan_os.Clint
use yan_os.Clint.{Clint}
use yan_os.Clint.Laws.{read-write_timer, pending-lines}
use yan_os.Plic
use yan_os.Plic.{Plic, select, claim, complete}
use yan_os.Plic.Select.{IsArbitrated, select-IsArbitrated}
use yan_os.Plic.Gateway.{IsGated, reset-IsGated, claim-IsGated}
use yan_os.Plic.Service.{
  Event, drive, load, store, after, run, after-IsGated, complete_resamples, claim_exclusive,
}
use yan_os.Uart
use yan_os.Uart.{Uart}
use yan_os.Uart.Laws.{push-read}
use yan_os.Transport
use yan_os.Transport.{Transport}
use yan_os.Transport.Ring.{IsRing, unread, host_publish_lem}
use yan_os.Transport.Latch.{Call, stores, takes, hands, any_overran, run-latched}
use yan_os.Transport.Latch
use yan_os.Base.{to_int, ◌||◌}
use yan_os.Base.Bits.{bit_at}
use yan_os.Transport.Configure.{configure-fits, configure_top}

abbrev small_ram : Ram
small_ram = record { storage = some (replicate 16 0); size = 16 }

small_ram-IsValid : Ram.Laws.IsValid small_ram
small_ram-IsValid = (refl, omega arith, All-replicate IsByte 16 0 (omega arith))

written_ok : (Ram.write small_ram 4 2 0x1_2345).0 ≡ ok
unfolding Ram.write Ram.check_access
written_ok = refl

read-write_example :
    Ram.read (Ram.write small_ram 4 2 0x1_2345).1 4 2 0 ≡ (ok, 0x1_2345 % 2 ^ (8 * 2))
read-write_example = read-write small_ram 4 2 0x1_2345 0 small_ram-IsValid written_ok

abbrev late_clint : Clint
late_clint = record { msip = 1; mtime = 0x1_0000_0005; mtimecmp = 0x1_0000_0000 }

late_clint-IsValid : Clint.Laws.IsValid late_clint
late_clint-IsValid = record {
  msip_small = omega arith;
  mtime_small = omega arith;
  mtimecmp_small = omega arith;
}

timer_written : (Clint.write late_clint 0x4004 7).0 ≡ ok
unfolding Clint.write
timer_written = refl

read-write_timer_example : Clint.read (Clint.write late_clint 0x4004 7).1 0x4000 0 ≡ (
    if 0x4000 == 0x4004
    then (ok, if 0x4004 == Clint.msip_offset then 7 % 2 else 7)
    else Clint.read late_clint 0x4000 0)
read-write_timer_example =
    read-write_timer late_clint 0x4004 7 0x4000 0 late_clint-IsValid (omega arith) timer_written

abbrev blank_plic : Plic
blank_plic = record {
  priority = [];
  pending = 0;
  level = 0;
  enable_m = 0;
  threshold_m = 0;
  in_service_m = 0;
}

-- Source 2 has priority 5, is enabled, and its line is up.
abbrev set_up : List Event
set_up = store 8 5 ∷ store 0x2000 4 ∷ drive 2 true ∷ []

abbrev raised : Plic
raised = record {
  priority = set (replicate Plic.source_count 0) 2 5;
  pending = 4;
  level = 4;
  enable_m = 4;
  threshold_m = 0;
  in_service_m = 0;
}

raised_test : run (Plic.reset blank_plic) set_up ≡ raised
unfolding run after Plic.reset Plic.write Plic.set_level
raised_test = refl

raised-IsGated : IsGated raised
unfolding run
raised-IsGated =
    let a = after-IsGated (Plic.reset blank_plic) (store 8 5) (reset-IsGated blank_plic) in
    let b = after-IsGated (after (Plic.reset blank_plic) (store 8 5)) (store 0x2000 4) a in
    subst (λ p. IsGated p) raised_test
      (after-IsGated (after (after (Plic.reset blank_plic) (store 8 5)) (store 0x2000 4))
        (drive 2 true) b)

raised_selects : select raised ≡ 2
unfolding select Plic.select_loop Plic.active
raised_selects = refl

raised_claims : (claim raised).0 ≡ 2
unfolding claim
raised_claims = raised_selects

raised_claims_something : (claim raised).0 ≢ 0
raised_claims_something e = absurd (omega (arith, raised_claims, e))

select-IsArbitrated_example : IsArbitrated raised (select raised)
select-IsArbitrated_example = select-IsArbitrated raised

after-IsGated_example : IsGated (after raised (drive 2 false))
after-IsGated_example = after-IsGated raised (drive 2 false) raised-IsGated

-- Source 2 is in service.
abbrev serving : Plic
serving = record raised { pending = 0; in_service_m = 4 }

serving_test : (claim raised).1 ≡ serving
unfolding claim
serving_test = rw raised_selects refl

serving-IsGated : IsGated serving
serving-IsGated = subst (λ p. IsGated p) serving_test (claim-IsGated raised raised-IsGated)

-- The line toggles, and another id is completed.
abbrev noise : List Event
noise = drive 2 false ∷ drive 2 true ∷ store 0x20_0004 3 ∷ load 0x20_0004 0 ∷ []

complete_resamples_example :
    (bit_at (complete serving 2).in_service_m 2 ≡ 0)
    × (bit_at (complete serving 2).pending 2 ≡ bit_at serving.level 2)
complete_resamples_example =
    complete_resamples serving 2 serving-IsGated (omega arith) (omega arith) refl

claim_exclusive_example : select (run (claim raised).1 (drive 2 true ∷ [])) ≢ (claim raised).0
claim_exclusive_example =
    claim_exclusive raised (drive 2 true ∷ []) raised-IsGated raised_claims_something (tt, tt)

abbrev open_uart : Uart
open_uart = record {
  control = 1;
  irq_status = 0;
  rx_data = 0;
  rx_available = false;
  attached = true;
}

pushed_ok : (Uart.push_rx open_uart 65).0 ≡ ok
unfolding Uart.push_rx
pushed_ok = refl

push-read_example :
    let pushed = (Uart.push_rx open_uart 65).1 in
    let taken = Uart.read pushed Uart.rxdata_offset true 0 in
    (Uart.push_rx pushed 66 ≡ (invalid_state, pushed))
    × (taken.0 ≡ ok)
    × (taken.1 ≡ 65)
    × (Uart.rx_ready taken.2 ≡ false)
push-read_example = push-read open_uart 65 66 true pushed_ok

-- A ring of 64 bytes whose pointers have wrapped.
abbrev ring : Transport
ring = record {
  ring_base = 0x8000_1000;
  ring_size = 64;
  g2h_head = 3;
  g2h_tail = 60;
  h2g_head = 62;
  h2g_tail = 50;
  irq_status = 0;
  irq_enable = 1;
  overflow_detected = false;
  attached = true;
}

ring-IsRing : IsRing ring
unfolding Transport.usable
ring-IsRing = record {
  live = refl;
  divides = dvd-mul_right 64 67108864;
  pos = omega arith;
  small = omega arith;
  g2h_tail_in = omega arith;
  h2g_head_in = omega arith;
  g2h_head_word = omega arith;
  h2g_tail_word = omega arith;
}

ring_room : Transport.host_writable ring ≡ 51
unfolding Transport.host_writable Transport.usable Transport.ring_free Transport.ring_used
ring_room = refl

ring_readable : Transport.host_readable ring ≡ 7
unfolding Transport.host_readable Transport.usable Transport.ring_used
ring_readable = refl

host_publish_lem_example :
    let (s, t') = Transport.host_publish ring 10 in
    (s ≡ ok)
    × (unread t' ≡ unread ring + 10)
    × (Transport.host_writable t' + 10 ≡ Transport.host_writable ring)
    × IsRing t'
host_publish_lem_example = host_publish_lem ring 10 ring-IsRing (omega (arith, ring_room))

-- The host publishes two bytes too many, then takes two bytes; the guest rings the doorbell.
abbrev calls : List Call
calls = hands 53 ∷ takes 2 ∷ stores 0x024 1 ∷ []

run-latched_example :
    IsRing (Latch.run ring calls)
    × (bit_at (Transport.read (Latch.run ring calls) 0x008 0).1 3
        ≡ to_int (ring.overflow_detected || any_overran ring calls))
run-latched_example = run-latched ring calls ring-IsRing (tt, (tt, (omega arith, tt)))

abbrev default_ram : ℕ
default_ram = 0x8000_0000

configured_ok : (Transport.configure ring 0x8000_1000 64 default_ram 0x10_0000).0 ≡ ok
unfolding Transport.configure
configured_ok = refl

configure-fits_example :
    (default_ram ≤ 0x8000_1000)
    × (0x8000_1000 + 2 * 64 ≤ default_ram + 0x10_0000)
    × (Transport.min_ring_size ≤ 64)
    × ((k : ℕ) × (64 ≡ 2 ^ k))
configure-fits_example =
    configure-fits ring 0x8000_1000 64 default_ram 0x10_0000 (omega arith) (omega arith)
      (omega arith) configured_ok

configure_top_example :
    Transport.configure ring 0xc000_0000 64 0x8000_0000 0x8000_0000 ≡ (invalid_argument, ring)
configure_top_example = configure_top ring 0xc000_0000 64 0x8000_0000 0x8000_0000 refl
