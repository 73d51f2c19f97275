-- ===== src/Plic/Service.antt =====
-- Sources in service along sequences of events of the PLIC of src/interrupt.c.
use yan_os.Base.{ℕ, ◌≤◌, ◌≡◌, ◌≢◌, ◌⊎◌, inl, inr, ap, ◌∙◌, arith, List, [], ◌∷◌}
use yan_os.Base.{Bool, ◌==◌, Bool-cases, All, ==_iff}
use yan_os.Base.Bits.{bit_at, bit_at-lt}
use yan_os.Base.Bits.Flag.{set_bits, clear_bits, flag_test}
use yan_os.Plic.{Plic, source_max, claim_offset, select, claim, read, complete, write, set_level}
use yan_os.Plic.Select.{Qualifies, IsArbitrated, select-IsArbitrated}
use yan_os.Plic.Gateway.{IsGated, write-SameGate, read_keeps, set_level-IsGated}
use yan_os.Plic.Gateway.{claim-IsGated, read-IsGated, write-IsGated}

-- What the platform and the guest do to a controller.
pub data Event : Type 0 where
  drive : ℕ → Bool → Event
  load store : ℕ → ℕ → Event

unfoldable pub after : Plic → Event → Plic
after plic (drive source asserted) = set_level plic source asserted
after plic (load offset out) = (read plic offset out).2
after plic (store offset value) = (write plic offset value).1

unfoldable pub run : Plic → List Event → Plic
run plic [] = plic
run plic (e ∷ es) = run (after plic e) es

-- The event is not the completion of `s`.
abbrev pub SparesSource : ℕ → Event → Type 0
SparesSource s (store offset value) = (offset ≢ claim_offset) ⊎ (value ≢ s)
SparesSource s _ = Unit

-- Driving a line, a register read and a register write keep the gateway's invariant: a source is
-- pending exactly if its line is asserted and it is not in service, and the three words fit 32
-- bits.
pub after-IsGated : (plic : Plic) (e : Event) → IsGated plic → IsGated (after plic e)
unfolding after
after-IsGated plic (drive source asserted) g = set_level-IsGated plic g source asserted
after-IsGated plic (load offset out) g = read-IsGated plic g offset out
after-IsGated plic (store offset value) g = write-IsGated plic g offset value

abbrev pub InService : Plic → ℕ → Type 0
InService plic s = bit_at plic.in_service_m s ≡ 1

set_level-in_service :
    (plic : Plic) (source : ℕ) (asserted : Bool)
    → (set_level plic source asserted).in_service_m ≡ plic.in_service_m
unfolding set_level
set_level-in_service plic source asserted = ground arith

claim-InService : (plic : Plic) (s : ℕ) → InService plic s → InService (claim plic).1 s
unfolding claim
claim-InService plic s h = ground (arith, set_bits plic.in_service_m (select plic) s)

complete-InService :
    (plic : Plic) (id s : ℕ)
    → IsGated plic
    → id ≢ s
    → InService plic s
    → InService (complete plic id) s
unfolding complete
complete-InService plic id s g ne h = ground (arith, clear_bits plic.in_service_m id s, g.words)

ne_of :
    {offset value s : ℕ} → offset ≡ claim_offset → (offset ≢ claim_offset) ⊎ (value ≢ s) → value ≢ s
ne_of at (inl ne) = absurd (ne at)
ne_of at (inr ne) = ne

after-InService :
    (plic : Plic) (e : Event) (s : ℕ)
    → IsGated plic
    → SparesSource s e
    → InService plic s
    → InService (after plic e) s
unfolding after
after-InService plic (drive source asserted) s g spares h =
    ap (λ w. bit_at w s) (set_level-in_service plic source asserted) ∙ h
after-InService plic (load offset out) s g spares h = elim (Bool-cases (offset == claim_offset)) [
  | inl e ↦ rw ((==_iff offset claim_offset).0 e) (unfold read in claim-InService plic s h)
  | inr e ↦ rw (read_keeps plic offset out e) h
]
after-InService plic (store offset value) s g spares h =
    elim (Bool-cases (offset == claim_offset)) [
      | inl e ↦
          let at = (==_iff offset claim_offset).0 e in
          rw at (unfold write in complete-InService plic value s g (ne_of at spares) h)
      | inr e ↦ ap (λ w. bit_at w s) (write-SameGate plic offset value e).2 ∙ h
    ]

not-select : (plic : Plic) (s : ℕ) → IsGated plic → 1 ≤ s → InService plic s → select plic ≢ s
not-select plic s g lo h e = elim (select-IsArbitrated plic) [
  | inl none ↦ omega (arith, none.0)
  | inr q ↦ omega (
    arith,
    q.0.is_pending,
    g.gate (select plic),
    ap (bit_at plic.in_service_m) e,
    bit_at-lt plic.level (select plic),
  )
]

-- In a controller that keeps the gateway's invariant, a source in service stays in service and is
-- not selected, whatever lines are driven and registers accessed, until its own id is written to
-- the claim register.
pub held_closed :
    (es : List Event) (plic : Plic) (s : ℕ)
    → IsGated plic
    → 1 ≤ s
    → InService plic s
    → All (SparesSource s) es
    → InService (run plic es) s × (select (run plic es) ≢ s)
unfolding run
held_closed [] plic s g lo h spares = (h, not-select plic s g lo h)
held_closed (e ∷ es) plic s g lo h (now, later) =
    held_closed es (after plic e) s (after-IsGated plic e g) lo (after-InService plic e s g now h)
      later

-- In a controller that keeps the gateway's invariant, completion takes a usable source in service
-- out of it and pends it again exactly if its line is asserted.
pub complete_resamples :
    (plic : Plic) (s : ℕ)
    → IsGated plic
    → 1 ≤ s
    → s ≤ source_max
    → InService plic s
    → (bit_at (complete plic s).in_service_m s ≡ 0)
      × (bit_at (complete plic s).pending s ≡ bit_at plic.level s)
unfolding complete
complete_resamples plic s g lo hi h = ground (
  arith,
  flag_test plic.in_service_m s,
  flag_test plic.level s,
  clear_bits plic.in_service_m s s,
  set_bits plic.pending s s,
  g.words,
  g.gate s,
  bit_at-lt plic.level s,
)

-- A claim hands out the arbitrated source, and moves it from pending into service.
pub claim_moves :
    (plic : Plic)
    → IsGated plic
    → (claim plic).0 ≢ 0
    → Qualifies plic (claim plic).0
      × (bit_at (claim plic).1.pending (claim plic).0 ≡ 0)
      × InService (claim plic).1 (claim plic).0
unfolding claim
claim_moves plic g h =
    let q : Qualifies plic (select plic) = winner (select-IsArbitrated plic) in
    (
      q,
      ground (
        arith,
        clear_bits plic.pending (select plic) (select plic) g.words.pending_small
            (omega (arith, q.in_range)),
      ),
      ground (arith, set_bits plic.in_service_m (select plic) (select plic)),
    )
  where
    winner : IsArbitrated plic (select plic) → Qualifies plic (select plic)
    winner (inl none) = absurd (h none.0)
    winner (inr q) = q.0

-- In a controller that keeps the gateway's invariant, a source that a claim has handed out is not
-- selected again after any sequence of driven lines and register accesses that does not write its
-- id to the claim register.
pub claim_exclusive :
    (plic : Plic) (es : List Event)
    → IsGated plic
    → (claim plic).0 ≢ 0
    → All (SparesSource (claim plic).0) es
    → select (run (claim plic).1 es) ≢ (claim plic).0
claim_exclusive plic es g h spares =
    let m = claim_moves plic g h in
    (held_closed es (claim plic).1 (claim plic).0 (claim-IsGated plic g) m.0.usable m.2 spares).1
