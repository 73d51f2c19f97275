-- ===== src/Plic/Select.antt =====
-- `plic_select` of src/interrupt.c and the rule of arbitration.
use yan_os.Base.{
  ℕ, zero, suc, ◌+◌, ◌^◌, ◌≤◌, ◌<◌, ◌≡◌, ◌⊎◌, inl, inr, refl, sym, ap, ◌∙◌, arith, bit_and, min,
}
use yan_os.Base.{Bool, true, false, if◌then◌else◌}
use yan_os.Base.Bits.{bit_at, bit_at-lt, bit_at-bit_and}
use yan_os.Base.Bits.Flag.{bit_at-clear_below, flag_test}
use mathlib.Core.Path.{subst}
use native.Mathlib.Decide.{dec_lt}
use yan_os.Plic.{Plic, source_max, priority_of, active, takes_over, select_loop, select}

-- The words of the controller fit 32 bits.
pub record IsValid (plic : Plic) : Type 0 where
  pub pending_small : plic.pending < 2 ^ 32
  pub level_small : plic.level < 2 ^ 32
  pub in_service_small : plic.in_service_m < 2 ^ 32

-- `source` asks for service: it is pending, enabled, and above the threshold.
pub record Qualifies (plic : Plic) (source : ℕ) : Type 0 where
  pub usable : 1 ≤ source
  pub in_range : source ≤ source_max
  pub is_pending : bit_at plic.pending source ≡ 1
  pub is_enabled : bit_at plic.enable_m source ≡ 1
  pub above : plic.threshold_m < priority_of plic source

bit_at-active :
    (plic : Plic) (source : ℕ)
    → 1 ≤ source
    → source ≤ source_max
    → bit_at (active plic) source ≡ min (bit_at plic.pending source) (bit_at plic.enable_m source)
unfolding active
bit_at-active plic source lo hi =
    bit_at-clear_below (bit_and plic.pending plic.enable_m) 0 source (omega arith) (omega arith)
      (omega arith)
    ∙ bit_at-bit_and plic.pending plic.enable_m source

-- The selection so far: the best of the sources below `source`, and its priority.
record IsBest (plic : Plic) (source selected best : ℕ) : Type 0 where
  winner :
      (selected ≡ 0) × (best ≡ plic.threshold_m)
      ⊎ Qualifies plic selected × (selected < source) × (best ≡ priority_of plic selected)
  above_threshold : plic.threshold_m ≤ best
  beats :
      (t : ℕ)
      → Qualifies plic t
      → t < source
      → (priority_of plic t ≤ best) × (priority_of plic t ≡ best → selected ≤ t)

module _ (plic : Plic) where
  takes_over-true :
      (source best : ℕ)
      → 1 ≤ source
      → source ≤ source_max
      → plic.threshold_m ≤ best
      → takes_over plic source best ≡ true
      → Qualifies plic source × (best < priority_of plic source)
  takes_over-true source best lo hi t h = ground (
    arith,
    flag_test (active plic) source,
    bit_at-active plic source lo hi,
    bit_at-lt plic.pending source,
    bit_at-lt plic.enable_m source,
  )

  takes_over-false :
      (source best : ℕ)
      → takes_over plic source best ≡ false
      → Qualifies plic source
      → priority_of plic source ≤ best
  takes_over-false source best h q =
      ground (arith, flag_test (active plic) source, bit_at-active plic source q.usable q.in_range)

  step-IsBest :
      (source selected best : ℕ) (b : Bool)
      → takes_over plic source best ≡ b
      → 1 ≤ source
      → source ≤ source_max
      → IsBest plic source selected best
      → IsBest plic
          (source + 1)
          (if b then source else selected)
          (if b then priority_of plic source else best)
  step-IsBest source selected best true e lo hi i =
      let q = takes_over-true source best lo hi i.above_threshold e in
      record {
        winner = inr (q.0, omega arith, refl);
        above_threshold = omega (arith, i.above_threshold, q.1);
        beats = λ t qt below. elim (dec_lt t source) [
          | yes p ↦ (
            omega (arith, i.beats t qt p, q.1),
            λ same. absurd (omega (arith, i.beats t qt p, q.1)),
          )
          | no p ↦
              let at : t ≡ source = omega arith in
              (omega (arith, ap (priority_of plic) at), λ same. omega arith)
        ];
      }
  step-IsBest source selected best false e lo hi i = record {
    winner = later i.winner;
    above_threshold = i.above_threshold;
    beats = λ t qt below. elim (dec_lt t source) [
      | yes p ↦ i.beats t qt p
      | no p ↦
          let at : t ≡ source = omega arith in
          (
            omega (
              arith,
              ap (priority_of plic) at,
              takes_over-false source best e (subst (Qualifies plic) at qt),
            ),
            λ same. is_before i.winner at,
          )
    ];
  }
    where
      later :
          (selected ≡ 0) × (best ≡ plic.threshold_m)
            ⊎ Qualifies plic selected × (selected < source) × (best ≡ priority_of plic selected)
          → (selected ≡ 0) × (best ≡ plic.threshold_m)
            ⊎ Qualifies plic selected × (selected < source + 1) × (best ≡ priority_of plic selected)
      later (inl w) = inl w
      later (inr w) = inr (w.0, omega arith, w.2)

      is_before :
          {t : ℕ}
          → (selected ≡ 0) × (best ≡ plic.threshold_m)
            ⊎ Qualifies plic selected × (selected < source) × (best ≡ priority_of plic selected)
          → t ≡ source
          → selected ≤ t
      is_before (inl w) at = omega arith
      is_before (inr w) at = omega arith

  loop-IsBest :
      (left source selected best : ℕ)
      → source + left ≡ 32
      → 1 ≤ source
      → IsBest plic source selected best
      → (b : ℕ) × IsBest plic 32 (select_loop plic left source selected best) b
  unfolding select_loop
  loop-IsBest zero source selected best e lo i =
      let e' : source ≡ 32 = omega arith in (best, rw e' at i)
  loop-IsBest (suc left) source selected best e lo i =
      loop-IsBest left (source + 1) _ _ (omega arith) (omega arith)
        (step-IsBest source selected best (takes_over plic source best) refl lo (omega arith) i)

-- The rule of the PLIC specification: no source where none qualifies, else a source that
-- qualifies, of the highest priority, and of these the one with the lowest id.
abbrev pub IsArbitrated : Plic → ℕ → Type 0
IsArbitrated plic s =
    (s ≡ 0) × ((t : ℕ) → ¬ Qualifies plic t)
    ⊎ Qualifies plic s
      × ((t : ℕ)
          → Qualifies plic t
          → (priority_of plic t ≤ priority_of plic s)
            × (priority_of plic t ≡ priority_of plic s → s ≤ t))

arbitrated : (plic : Plic) (s b : ℕ) → IsBest plic 32 s b → IsArbitrated plic s
arbitrated plic s b i = by_winner i.winner
  where
    by_winner :
        (s ≡ 0) × (b ≡ plic.threshold_m) ⊎ Qualifies plic s × (s < 32) × (b ≡ priority_of plic s)
        → IsArbitrated plic s
    by_winner (inl w) =
        inl (
          w.0,
          λ t q. absurd (omega (arith, i.beats t q (omega (arith, q.in_range)), q.above, w.1)),
        )
    by_winner (inr w) = inr (
      w.0,
      λ t q. (
        omega (arith, i.beats t q (omega (arith, q.in_range)), w.2),
        λ same. (i.beats t q (omega (arith, q.in_range))).1 (same ∙ sym w.2),
      ),
    )

-- The selection loop gives zero exactly where no source is pending, enabled and above the
-- threshold; otherwise it gives such a source of the highest priority, and of these the one with
-- the lowest number.
pub select-IsArbitrated : (plic : Plic) → IsArbitrated plic (select plic)
unfolding select
select-IsArbitrated plic =
    let r = loop-IsBest plic source_max 1 0 plic.threshold_m refl (omega arith) (record {
      winner = inl (refl, refl);
      above_threshold = omega arith;
      beats = λ t q below. absurd (omega (arith, q.usable));
    }) in
    arbitrated plic _ r.0 r.1
