-- ===== src/Transport.antt =====
-- The host transport channel: `YanTransport` of src/transport.c. The bytes of the rings lie in
-- guest RAM; the device keeps the pointers. `attached` is whether the host has set `notify`, and
-- a call of it is an effect; its opaque context is the host's.
pub mod Latch
pub mod Ring
pub mod Configure
use yan_os.Base.{ℕ, ◌+◌, ◌-◌, ◌*◌, ◌/◌, ◌%◌, ◌^◌, bit_and, bit_or, List, [], ◌∷◌, Bool, true, false}
use yan_os.Base.{not, ◌&&◌, ◌||◌, ◌==◌, ◌!=◌, ltb, leb, if◌then◌else◌}
use yan_os.Base.Bits.Flag.{bit_not}
use yan_os.Status.{Status, ok, unaligned, unmapped, unavailable, invalid_argument, invalid_state}
use yan_os.Host.{Effect, rang}

pub record Transport : Type 0 where
  pub ring_base : ℕ
  pub ring_size : ℕ
  pub g2h_head : ℕ
  pub g2h_tail : ℕ
  pub h2g_head : ℕ
  pub h2g_tail : ℕ
  pub irq_status : ℕ
  pub irq_enable : ℕ
  pub overflow_detected : Bool
  pub attached : Bool

abbrev pub magic : ℕ
magic = 0x5941_4e31

abbrev pub version : ℕ
version = 0x0001_0000

abbrev pub min_ring_size : ℕ
min_ring_size = 64

unfoldable pub usable : Transport → Bool
usable t = t.ring_size != 0 && t.attached

-- `(head - tail) % size` on `uint32_t`
unfoldable pub ring_used : ℕ → ℕ → ℕ → ℕ
ring_used head tail size = (head + 2 ^ 32 - tail) % 2 ^ 32 % size

-- `size - 1 - ring_used(head, tail, size)` on `uint32_t`
unfoldable pub ring_free : ℕ → ℕ → ℕ → ℕ
ring_free head tail size = (size + 2 ^ 32 - 1 - ring_used head tail size) % 2 ^ 32

unfoldable pub status : Transport → ℕ
status t =
    if usable t
    then bit_or
        (bit_or (bit_or 1 (if ring_free t.g2h_head t.g2h_tail t.ring_size == 0 then 2 else 0))
          (if ring_used t.h2g_head t.h2g_tail t.ring_size == 0 then 4 else 0))
        (if t.overflow_detected then 8 else 0)
    else 0

unfoldable pub reset : Transport → Transport
reset t = record {
  ring_base = t.ring_base;
  ring_size = t.ring_size;
  g2h_head = 0;
  g2h_tail = 0;
  h2g_head = 0;
  h2g_tail = 0;
  irq_status = 0;
  irq_enable = 0;
  overflow_detected = false;
  attached = t.attached;
}

-- The last argument is what `*value` holds before the call.
unfoldable pub read : Transport → ℕ → ℕ → Status × ℕ
read t offset value =
    if offset % 4 != 0
    then (unaligned, value)
    else if offset == 0x000
    then (ok, magic)
    else if offset == 0x004
    then (ok, version)
    else if offset == 0x008
    then (ok, status t)
    else if offset == 0x00c
    then (ok, t.ring_base)
    else if offset == 0x010
    then (ok, t.ring_size)
    else if offset == 0x014
    then (ok, t.g2h_head)
    else if offset == 0x018
    then (ok, t.g2h_tail)
    else if offset == 0x01c
    then (ok, t.h2g_head)
    else if offset == 0x020
    then (ok, t.h2g_tail)
    else if offset == 0x024
    then (ok, 0)
    else if offset == 0x028
    then (ok, bit_and t.irq_status 1)
    else if offset == 0x02c
    then (ok, bit_and t.irq_enable 1)
    else (unmapped, value)

-- The registers that a write leaves alone: constants, and those that the host drives.
abbrev pub is_read_only : ℕ → Bool
is_read_only offset =
    offset == 0x000
    || offset == 0x004
    || offset == 0x008
    || offset == 0x00c
    || offset == 0x010
    || offset == 0x018
    || offset == 0x01c

unfoldable pub write : Transport → ℕ → ℕ → Status × Transport × List Effect
write t offset value =
    if offset % 4 != 0
    then (unaligned, t, [])
    else if offset == 0x014
    then (ok, record t { g2h_head = value }, [])
    else if offset == 0x020
    then (ok, record t { h2g_tail = value }, [])
    else if offset == 0x024
    then (ok, t, if t.attached then rang ∷ [] else [])
    else if offset == 0x028
    then (if bit_and value 1 != 0
        then (ok, record t { irq_status = bit_and t.irq_status (bit_not 1) }, [])
        else (ok, t, []))
    else if offset == 0x02c
    then (ok, record t { irq_enable = bit_and value 1 }, [])
    else if is_read_only offset
    then (ok, t, [])
    else (unmapped, t, [])

abbrev pub placed : Transport → ℕ → ℕ → Transport
placed t ring_base ring_size = record {
  ring_base = ring_base;
  ring_size = ring_size;
  g2h_head = 0;
  g2h_tail = 0;
  h2g_head = 0;
  h2g_tail = 0;
  irq_status = 0;
  irq_enable = 0;
  overflow_detected = false;
  attached = t.attached;
}

unfoldable pub configure : Transport → ℕ → ℕ → ℕ → ℕ → Status × Transport
configure t ring_base ring_size ram_base ram_size =
    if ltb ring_size min_ring_size || bit_and ring_size ((ring_size + 2 ^ 32 - 1) % 2 ^ 32) != 0
    then (invalid_argument, t)
    else if ltb ram_size 2 || ltb (ram_size / 2) ring_size
    then (invalid_argument, t)
    else if ltb ring_base ram_base || leb ((ram_base + ram_size) % 2 ^ 32) ring_base
    then (invalid_argument, t)
    else if ltb ((ram_size + 2 ^ 32 - 2 * ring_size % 2 ^ 32) % 2 ^ 32)
        ((ring_base + 2 ^ 32 - ram_base) % 2 ^ 32)
    then (invalid_argument, t)
    else (ok, placed t ring_base ring_size)

unfoldable pub set_notify : Transport → Bool → Transport
set_notify t notify = record t { attached = notify }

unfoldable pub host_readable : Transport → ℕ
host_readable t = if not (usable t) then 0 else ring_used t.g2h_head t.g2h_tail t.ring_size

unfoldable pub host_writable : Transport → ℕ
host_writable t = if not (usable t) then 0 else ring_free t.h2g_head t.h2g_tail t.ring_size

unfoldable pub host_consume : Transport → ℕ → Status × Transport
host_consume t bytes =
    if not (usable t)
    then (unavailable, t)
    else if ltb (host_readable t) bytes
    then (invalid_state, record t { overflow_detected = true })
    else (ok, record t { g2h_tail = (t.g2h_tail + bytes) % 2 ^ 32 % t.ring_size })

unfoldable pub host_publish : Transport → ℕ → Status × Transport
host_publish t bytes =
    if not (usable t)
    then (unavailable, t)
    else if ltb (host_writable t) bytes
    then (invalid_state, record t { overflow_detected = true })
    else if bytes == 0
    then (ok, t)
    else (
      ok,
      record t {
        h2g_head = (t.h2g_head + bytes) % 2 ^ 32 % t.ring_size;
        irq_status = bit_or t.irq_status 1;
      },
    )

unfoldable pub pending : Transport → Bool
pending t =
    if not (usable t) then false else bit_and t.irq_status 1 != 0 && bit_and t.irq_enable 1 != 0
