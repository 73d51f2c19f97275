-- ===== src/Bus/Routes.antt =====
-- RAM behind the bus of src/bus.c: stores, loads and fetches.
use mathlib.Core.Option.{Option}
use yan_os.Base.{
  ℕ, ◌*◌, ◌%◌, ◌^◌, ◌<◌, ◌≡◌, ◌≢◌, refl, sym, ap, ◌∙◌, arith, [], none, some, Bool, true, is_null,
}
use yan_os.Status.{ok, is_ok}
use yan_os.Ram
use yan_os.Ram.{Ram}
use yan_os.Ram.Laws.{IsValid, write-is_null, write-size}
use yan_os.Ram.RoundTrip.{read-write}
use yan_os.Bus.{
  Bus, to_ram, decode, write, write_target, ram_read, ram_write, ram_translate, fetch32,
  write_access,
}

-- The RAM behind the bus owns its bytes.
abbrev pub HasRam : Option Ram → Type 0
HasRam none = Unit
HasRam (some ram) = IsValid ram

ram_translate_congr :
    (bus : Bus) (ram ram' : Ram) (address width : ℕ)
    → is_null ram'.storage ≡ is_null ram.storage
    → ram'.size ≡ ram.size
    → ram_translate (record bus { ram = some ram' }) address width
      ≡ ram_translate (record bus { ram = some ram }) address width
unfolding ram_translate
ram_translate_congr bus ram ram' address width e f = rw (e, f) refl

-- A store through a RAM that is there.
ram_write-held :
    (bus : Bus) (ram : Ram) (address width value : ℕ)
    → (ram_write (record bus { ram = some ram }) address width value).0 ≡ ok
    → (let held = record bus { ram = some ram } in
        let offset = (ram_translate held address width).1 in
        (is_ok (ram_translate held address width).0 ≡ true)
        × ((Ram.write ram offset width value).0 ≡ ok)
        × (ram_write held address width value
            ≡ (ok, record bus { ram = some (Ram.write ram offset width value).1 })))
unfolding ram_write
ram_write-held bus ram address width value h = ground arith

no_ram_no_store :
    (bus : Bus) (address width value : ℕ)
    → (ram_write (record bus { ram = none }) address width value).0 ≢ ok
unfolding ram_write ram_translate
no_ram_no_store bus address width value h = absurd (cc h)

ram_read-held :
    (bus : Bus) (ram : Ram) (address width out : ℕ)
    → is_ok (ram_translate (record bus { ram = some ram }) address width).0 ≡ true
    → ram_read (record bus { ram = some ram }) address width out
      ≡ Ram.read ram (ram_translate (record bus { ram = some ram }) address width).1 width out
unfolding ram_read
ram_read-held bus ram address width out h = rw h refl

ram_read-ram_write :
    (bus : Bus) (o : Option Ram) (address width value out : ℕ)
    → HasRam o
    → (ram_write (record bus { ram = o }) address width value).0 ≡ ok
    → ram_read (ram_write (record bus { ram = o }) address width value).1 address width out
      ≡ (ok, value % 2 ^ (8 * width))
ram_read-ram_write bus none address width value out v h =
    absurd (no_ram_no_store bus address width value h)
ram_read-ram_write bus (some ram) address width value out v h =
    let held : Bus = record bus { ram = some ram } in
    let offset = (ram_translate held address width).1 in
    let ram' = (Ram.write ram offset width value).1 in
    let w = ram_write-held bus ram address width value h in
    let same =
      ram_translate_congr bus ram ram' address width (write-is_null ram offset width value)
        (write-size ram offset width value) in
    ap (λ r. ram_read r.1 address width out) w.2
    ∙ ram_read-held bus ram' address width out (ap (λ t. is_ok t.0) same ∙ w.0)
    ∙ ap (λ t. Ram.read ram' t.1 width out) same
    ∙ read-write ram offset width value out v w.1

-- A store that is routed to RAM.
write_to_ram :
    (bus : Bus) (address width value : ℕ) (ready : Bool)
    → decode bus address width ≡ to_ram
    → write bus address width value ready ≡ (
      record {
        status = (ram_write bus address width value).0;
        address = address;
        width = width;
        access = write_access;
      },
      (ram_write bus address width value).1,
      [],
    )
unfolding write write_target
write_to_ram bus address width value ready d = rw d refl

-- On a bus whose RAM, if it has one, is whole, an accepted store of a 32-bit word that is decoded
-- to RAM sends no byte and makes no notification, and an instruction fetch at the same address
-- then succeeds and gives that word.
pub fetch-store :
    (bus : Bus) (address value out : ℕ) (ready : Bool)
    → HasRam bus.ram
    → decode bus address 4 ≡ to_ram
    → value < 2 ^ 32
    → (write bus address 4 value ready).0.status ≡ ok
    → ((fetch32 (write bus address 4 value ready).1 address out).0.status ≡ ok)
      × ((fetch32 (write bus address 4 value ready).1 address out).1 ≡ value)
      × ((write bus address 4 value ready).2 ≡ [])
unfolding fetch32
fetch-store bus address value out ready v d small h =
    let w = write_to_ram bus address 4 value ready d in
    let accepted : (ram_write bus address 4 value).0 ≡ ok = sym (ap (λ r. r.0.status) w) ∙ h in
    let back =
      ap (λ r. ram_read r.1 address 4 out) w
      ∙ ram_read-ram_write bus bus.ram address 4 value out v accepted in
    (ap (λ r. r.0) back, ap (λ r. r.1) back ∙ omega arith, ap (λ r. r.2) w)
