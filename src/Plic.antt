-- ===== src/Plic.antt =====
-- The interrupt controller with one M-mode context: `YanPlic` of src/interrupt.c.
pub mod Select
pub mod Gateway
pub mod Service
use mathlib.Core.Option.{Option}
use yan_os.Base.{ℕ, zero, suc, ◌+◌, ◌/◌, ◌%◌, ◌^◌, bit_and, bit_or, none, some, List, Bool, true}
use yan_os.Base.{false, ◌&&◌, ◌||◌, ◌==◌, ◌!=◌, ltb, leb, if◌then◌else◌, get_or, set, replicate}
use yan_os.Base.Bits.Flag.{bit_not}
use yan_os.Status.{Status, ok, unaligned, unmapped}
use yan_os.Platform.{interrupt_meip}

pub record Plic : Type 0 where
  pub priority : List ℕ
  pub pending : ℕ
  pub level : ℕ
  pub enable_m : ℕ
  pub threshold_m : ℕ
  pub in_service_m : ℕ

abbrev pub source_count : ℕ
source_count = 32

abbrev pub source_max : ℕ
source_max = 31

abbrev pub pending_offset : ℕ
pending_offset = 0x1000

abbrev pub enable_offset : ℕ
enable_offset = 0x2000

abbrev pub threshold_offset : ℕ
threshold_offset = 0x20_0000

abbrev pub claim_offset : ℕ
claim_offset = 0x20_0004

unfoldable pub reset : Plic → Plic
reset plic = record {
  priority = replicate source_count 0;
  pending = 0;
  level = 0;
  enable_m = 0;
  threshold_m = 0;
  in_service_m = 0;
}

abbrev pub priority_of : Plic → ℕ → ℕ
priority_of plic source = get_or plic.priority source 0

unfoldable pub active : Plic → ℕ
active plic = bit_and (bit_and plic.pending plic.enable_m) (bit_not 1)

-- Does `source` take over from a selection of priority `best`?
abbrev pub takes_over : Plic → ℕ → ℕ → Bool
takes_over plic source best =
    bit_and (active plic) (2 ^ source) != 0 && ltb best (priority_of plic source)

-- The loop of `plic_select` from `source`, with `left` rounds to go.
unfoldable pub select_loop : Plic → ℕ → ℕ → ℕ → ℕ → ℕ
select_loop plic zero source selected best = selected
select_loop plic (suc left) source selected best =
    select_loop plic left (source + 1) (if takes_over plic source best then source else selected)
      (if takes_over plic source best then priority_of plic source else best)

unfoldable pub select : Plic → ℕ
select plic = select_loop plic source_max 1 0 plic.threshold_m

-- The claim read: the winner, if there is one, goes from pending into service.
unfoldable pub claim : Plic → ℕ × Plic
claim plic =
    let source = select plic in
    (
      source,
      if source != 0
          then record plic {
            pending = bit_and plic.pending (bit_not (2 ^ source));
            in_service_m = bit_or plic.in_service_m (2 ^ source);
          }
          else plic,
    )

-- The last argument is what `*value` holds before the call.
unfoldable pub read : Plic → ℕ → ℕ → Status × ℕ × Plic
read plic offset value =
    if offset % 4 != 0
    then (unaligned, value, plic)
    else if ltb offset pending_offset
    then (if leb source_count (offset / 4)
        then (unmapped, value, plic)
        else (ok, priority_of plic (offset / 4), plic))
    else if offset == pending_offset
    then (ok, bit_and plic.pending (bit_not 1), plic)
    else if offset == enable_offset
    then (ok, bit_and plic.enable_m (bit_not 1), plic)
    else if offset == threshold_offset
    then (ok, plic.threshold_m, plic)
    else if offset == claim_offset
    then (let (source, plic') = claim plic in (ok, source, plic'))
    else (unmapped, value, plic)

-- The write of an id to the claim register: it completes a source in service, and no other.
unfoldable pub complete : Plic → ℕ → Plic
complete plic id =
    if leb 1 id && leb id source_max && bit_and plic.in_service_m (2 ^ id) != 0
    then record plic {
      in_service_m = bit_and plic.in_service_m (bit_not (2 ^ id));
      pending =
          if bit_and plic.level (2 ^ id) != 0 then bit_or plic.pending (2 ^ id) else plic.pending;
    }
    else plic

unfoldable pub write : Plic → ℕ → ℕ → Status × Plic
write plic offset value =
    if offset % 4 != 0
    then (unaligned, plic)
    else if ltb offset pending_offset
    then (if leb source_count (offset / 4)
        then (unmapped, plic)
        else if offset / 4 != 0
        then (ok, record plic { priority = set plic.priority (offset / 4) value })
        else (ok, plic))
    else if offset == pending_offset
    then (ok, plic)
    else if offset == enable_offset
    then (ok, record plic { enable_m = bit_and value (bit_not 1) })
    else if offset == threshold_offset
    then (ok, record plic { threshold_m = value })
    else if offset == claim_offset
    then (ok, complete plic value)
    else (unmapped, plic)

-- A device drives its line; the gateway decides whether that pends the source.
unfoldable pub set_level : Plic → ℕ → Bool → Plic
set_level plic source asserted =
    if ltb source 1 || ltb source_max source
    then plic
    else if asserted
    then record plic {
      level = bit_or plic.level (2 ^ source);
      pending =
          if bit_and plic.in_service_m (2 ^ source) == 0
          then bit_or plic.pending (2 ^ source)
          else plic.pending;
    }
    else record plic {
      level = bit_and plic.level (bit_not (2 ^ source));
      pending = bit_and plic.pending (bit_not (2 ^ source));
    }

-- The summary line; a bus may have no PLIC.
unfoldable pub pending_line : Option Plic → ℕ
pending_line none = 0
pending_line (some plic) = if select plic != 0 then interrupt_meip else 0
