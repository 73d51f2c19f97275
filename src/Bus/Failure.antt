-- ===== src/Bus/Failure.antt =====
-- Failed accesses of src/bus.c.
use mathlib.Core.Option.{Option}
use yan_os.Base.{
  ℕ, ◌≡◌, ◌≢◌, refl, sym, ap, ◌∙◌, arith, [], none, some, Bool, Bool-cases, inl, inr, if◌then◌else◌,
}
use yan_os.Status.{Status, ok, is_ok}
use yan_os.Platform.{clint_base, clint_size, plic_base, plic_size, uart_base, uart_size}
use yan_os.Platform.{transport_base, transport_size}
use yan_os.Ram
use yan_os.Ram.Laws.{write_refused, write_status}
use yan_os.Clint
use yan_os.Clint.{Clint}
use yan_os.Plic
use yan_os.Plic.{Plic}
use yan_os.Uart
use yan_os.Uart.{Uart}
use yan_os.Transport
use yan_os.Transport.{Transport}
use yan_os.Bus.{
  Bus, Target, to_clint, to_plic, to_uart, to_transport, to_ram, mapped, dispatch, device_offset,
  decode, read, read_target, write, write_target, ram_read, ram_write, ram_translate,
}

unfoldable device_or {ℓ} : {D : Type ℓ} → D → Option (D × ℕ) → D
device_or d none = d
device_or d (some (x, offset)) = x

device_or-mapped {ℓ} :
    {D : Type ℓ} (d : D) (address width base size : ℕ)
    → device_or d (mapped (some d) address width base size) ≡ d
unfolding mapped device_or device_offset
device_or-mapped d address width base size = ground arith

mapped-some {ℓ} :
    {D : Type ℓ} (o : Option D) (d : D) (address width base size offset : ℕ)
    → mapped o address width base size ≡ some (d, offset)
    → o ≡ some d
unfolding mapped device_or
mapped-some none d address width base size offset h = absurd (cc h)
mapped-some (some d') d address width base size offset h =
    ap some (sym (device_or-mapped d' address width base size) ∙ ap (device_or d') h)

dispatch_cases {κ} :
    (a : Option (Clint × ℕ)) (b : Option (Plic × ℕ)) (c : Option (Uart × ℕ))
    (d : Option (Transport × ℕ)) (P : Target → Type κ)
    → ((x : Clint) (offset : ℕ) → a ≡ some (x, offset) → P (to_clint x offset))
    → ((x : Plic) (offset : ℕ) → b ≡ some (x, offset) → P (to_plic x offset))
    → ((x : Uart) (offset : ℕ) → c ≡ some (x, offset) → P (to_uart x offset))
    → ((x : Transport) (offset : ℕ) → d ≡ some (x, offset) → P (to_transport x offset))
    → P to_ram
    → P (dispatch a b c d)
unfolding dispatch
dispatch_cases (some (x, o)) b c d P p q r s t = p x o refl
dispatch_cases none (some (x, o)) c d P p q r s t = q x o refl
dispatch_cases none none (some (x, o)) d P p q r s t = r x o refl
dispatch_cases none none none (some (x, o)) P p q r s t = s x o refl
dispatch_cases none none none none P p q r s t = t

-- The branch that an access takes is of a device that the bus holds.
pub decode_cases {κ} :
    (bus : Bus) (address width : ℕ) (P : Target → Type κ)
    → ((clint : Clint) (offset : ℕ) → bus.clint ≡ some clint → P (to_clint clint offset))
    → ((plic : Plic) (offset : ℕ) → bus.plic ≡ some plic → P (to_plic plic offset))
    → ((uart : Uart) (offset : ℕ) → bus.uart ≡ some uart → P (to_uart uart offset))
    → ((transport : Transport) (offset : ℕ)
        → bus.transport ≡ some transport
        → P (to_transport transport offset))
    → P to_ram
    → P (decode bus address width)
unfolding decode
decode_cases bus address width P c p u t r =
    dispatch_cases _ _ _ _ P
      (λ x o e. c x o (mapped-some bus.clint x address width clint_base clint_size o e))
      (λ x o e. p x o (mapped-some bus.plic x address width plic_base plic_size o e))
      (λ x o e. u x o (mapped-some bus.uart x address width uart_base uart_size o e))
      (λ x o e. t x o (mapped-some bus.transport x address width transport_base transport_size o e))
      r

clint_read_failed :
    (clint : Clint) (offset value : ℕ)
    → (Clint.read clint offset value).0 ≢ ok
    → (Clint.read clint offset value).1 ≡ value
unfolding Clint.read
clint_read_failed clint offset value h = ground arith

clint_write_failed :
    (clint : Clint) (offset value : ℕ)
    → (Clint.write clint offset value).0 ≢ ok
    → (Clint.write clint offset value).1 ≡ clint
unfolding Clint.write
clint_write_failed clint offset value h = ground arith

plic_read_failed :
    (plic : Plic) (offset value : ℕ)
    → (Plic.read plic offset value).0 ≢ ok
    → ((Plic.read plic offset value).1 ≡ value) × ((Plic.read plic offset value).2 ≡ plic)
unfolding Plic.read
plic_read_failed plic offset value h = ground arith

plic_write_failed :
    (plic : Plic) (offset value : ℕ)
    → (Plic.write plic offset value).0 ≢ ok
    → (Plic.write plic offset value).1 ≡ plic
unfolding Plic.write
plic_write_failed plic offset value h = ground arith

uart_read_failed :
    (uart : Uart) (offset : ℕ) (ready : Bool) (value : ℕ)
    → (Uart.read uart offset ready value).0 ≢ ok
    → ((Uart.read uart offset ready value).1 ≡ value)
      × ((Uart.read uart offset ready value).2 ≡ uart)
unfolding Uart.read
uart_read_failed uart offset ready value h = ground arith

uart_write_failed :
    (uart : Uart) (offset value : ℕ) (ready : Bool)
    → (Uart.write uart offset value ready).0 ≢ ok
    → ((Uart.write uart offset value ready).1 ≡ uart)
      × ((Uart.write uart offset value ready).2 ≡ [])
unfolding Uart.write
uart_write_failed uart offset value ready h = ground arith

transport_read_failed :
    (t : Transport) (offset value : ℕ)
    → (Transport.read t offset value).0 ≢ ok
    → (Transport.read t offset value).1 ≡ value
unfolding Transport.read
transport_read_failed t offset value h = ground arith

transport_write_failed :
    (t : Transport) (offset value : ℕ)
    → (Transport.write t offset value).0 ≢ ok
    → ((Transport.write t offset value).1 ≡ t) × ((Transport.write t offset value).2 ≡ [])
unfolding Transport.write
transport_write_failed t offset value h = ground arith

ram_read_failed :
    (bus : Bus) (address width value : ℕ)
    → (ram_read bus address width value).0 ≢ ok
    → (ram_read bus address width value).1 ≡ value
unfolding ram_read Ram.read
ram_read_failed bus address width value h = ground arith

-- The store of a RAM access, by the pointer.
unfoldable stored : Option Ram.Ram → Bus → Status → ℕ → ℕ → ℕ → Status × Bus
stored none bus status offset width value = (status, bus)
stored (some ram) bus status offset width value = (
  (Ram.write ram offset width value).0,
  record bus { ram = some (Ram.write ram offset width value).1 },
)

stored_failed :
    (o : Option Ram.Ram) (bus : Bus) (status : Status) (offset width value : ℕ)
    → bus.ram ≡ o
    → (stored o bus status offset width value).0 ≢ ok
    → (stored o bus status offset width value).1 ≡ bus
unfolding stored
stored_failed none bus status offset width value e h = refl
stored_failed (some ram) bus status offset width value e h =
    let f =
      write_refused ram offset width value (λ c. h (write_status ram offset width value ∙ c)) in
    ap (λ r. record bus { ram = some r.1 }) f ∙ ap (λ o. record bus { ram = o }) (sym e)

ram_write-stored :
    (bus : Bus) (o : Option Ram.Ram) (address width value : ℕ)
    → ram_write (record bus { ram = o }) address width value ≡ (
        let t = ram_translate (record bus { ram = o }) address width in
        if is_ok t.0
        then stored o (record bus { ram = o }) t.0 t.1 width value
        else (t.0, record bus { ram = o }))
unfolding ram_write stored
ram_write-stored bus none address width value = refl
ram_write-stored bus (some ram) address width value = refl

ram_write_failed :
    (bus : Bus) (address width value : ℕ)
    → (ram_write bus address width value).0 ≢ ok
    → (ram_write bus address width value).1 ≡ bus
ram_write_failed bus address width value =
    let t = ram_translate bus address width in
    rw (ram_write-stored bus bus.ram address width value) (elim (Bool-cases (is_ok t.0)) [
      | inl e ↦ rw e (stored_failed bus.ram bus t.0 t.1 width value refl)
      | inr e ↦ rw e (λ _. refl)
    ])

-- A branch of an access that the bus can take: its device is the bus's.
abbrev IsHeld : Bus → Target → Type 0
IsHeld bus (to_clint clint offset) = bus.clint ≡ some clint
IsHeld bus (to_plic plic offset) = bus.plic ≡ some plic
IsHeld bus (to_uart uart offset) = bus.uart ≡ some uart
IsHeld bus (to_transport transport offset) = bus.transport ≡ some transport
IsHeld bus to_ram = Unit

decode-IsHeld : (bus : Bus) (address width : ℕ) → IsHeld bus (decode bus address width)
decode-IsHeld bus address width =
    decode_cases bus address width (IsHeld bus) (λ _ _ e. e) (λ _ _ e. e) (λ _ _ e. e) (λ _ _ e. e)
      tt

-- A failed branch keeps what the output held, and every device.
read_target_failed :
    (target : Target) (bus : Bus) (address width : ℕ) (ready : Bool) (value : ℕ)
    → IsHeld bus target
    → (read_target target bus address width ready value).0 ≢ ok
    → ((read_target target bus address width ready value).1 ≡ value)
      × ((read_target target bus address width ready value).2 ≡ bus)
unfolding read_target
read_target_failed (to_clint clint offset) bus address width ready value e h =
    (clint_read_failed clint offset value h, refl)
read_target_failed (to_plic plic offset) bus address width ready value e h =
    let f = plic_read_failed plic offset value h in
    (f.0, ap (λ p. record bus { plic = some p }) f.1 ∙ ap (λ o. record bus { plic = o }) (sym e))
read_target_failed (to_uart uart offset) bus address width ready value e h =
    let f = uart_read_failed uart offset ready value h in
    (f.0, ap (λ u. record bus { uart = some u }) f.1 ∙ ap (λ o. record bus { uart = o }) (sym e))
read_target_failed (to_transport t offset) bus address width ready value e h =
    (transport_read_failed t offset value h, refl)
read_target_failed to_ram bus address width ready value e h =
    (ram_read_failed bus address width value h, refl)

write_target_failed :
    (target : Target) (bus : Bus) (address width value : ℕ) (ready : Bool)
    → IsHeld bus target
    → (write_target target bus address width value ready).0 ≢ ok
    → ((write_target target bus address width value ready).1 ≡ bus)
      × ((write_target target bus address width value ready).2 ≡ [])
unfolding write_target
write_target_failed (to_clint clint offset) bus address width value ready e h =
    let f = clint_write_failed clint offset value h in
    (ap (λ c. record bus { clint = some c }) f ∙ ap (λ o. record bus { clint = o }) (sym e), refl)
write_target_failed (to_plic plic offset) bus address width value ready e h =
    let f = plic_write_failed plic offset value h in
    (ap (λ p. record bus { plic = some p }) f ∙ ap (λ o. record bus { plic = o }) (sym e), refl)
write_target_failed (to_uart uart offset) bus address width value ready e h =
    let f = uart_write_failed uart offset value ready h in
    (ap (λ u. record bus { uart = some u }) f.0 ∙ ap (λ o. record bus { uart = o }) (sym e), f.1)
write_target_failed (to_transport t offset) bus address width value ready e h =
    let f = transport_write_failed t offset value h in
    (
      ap (λ u. record bus { transport = some u }) f.0
          ∙ ap (λ o. record bus { transport = o }) (sym e),
      f.1,
    )
write_target_failed to_ram bus address width value ready e h =
    (ram_write_failed bus address width value h, refl)

-- A bus read that does not succeed keeps what the output held, and every device and RAM.
pub read_failed :
    (bus : Bus) (address width : ℕ) (ready : Bool) (value : ℕ)
    → (read bus address width ready value).0.status ≢ ok
    → ((read bus address width ready value).1 ≡ value)
      × ((read bus address width ready value).2 ≡ bus)
unfolding read
read_failed bus address width ready value h =
    read_target_failed (decode bus address width) bus address width ready value
      (decode-IsHeld bus address width) h

-- A bus write that does not succeed keeps every device and RAM, sends no byte
-- and makes no notification.
pub write_failed :
    (bus : Bus) (address width value : ℕ) (ready : Bool)
    → (write bus address width value ready).0.status ≢ ok
    → ((write bus address width value ready).1 ≡ bus)
      × ((write bus address width value ready).2 ≡ [])
unfolding write
write_failed bus address width value ready h =
    write_target_failed (decode bus address width) bus address width value ready
      (decode-IsHeld bus address width) h
