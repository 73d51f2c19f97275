-- ===== src/Sort/Sorted.antt =====
-- The two loops of the heapsort of os/sort.h.
use native.Mathlib.Decide.{ℕ_discrete, dec_lt}
use yan_os.Base.{ℕ, zero, suc, ◌/◌, ◌^◌, ◌<◌, ◌≤◌, ◌≡◌, inl, inr}
use yan_os.Base.{refl, sym, ◌∙◌, List, Bool, false, arith, length}
use yan_os.Base.{ltb_of_lt, ltb_of_le, Bool-cases}
use yan_os.Sort.{at, exchange, sift_down, build, drain, index}
use yan_os.Sort.Arrays
use yan_os.Sort.Sift.{
  parent, Gives, IsRearranged, IsRearranged-refl, IsRearranged-trans, IsRearranged-widen,
}
use yan_os.Sort.Sift.{exchange-IsRearranged, IsOrder, IsHeapFrom, IsHeapBut, sift_down_orders}

module _ (before : ℕ → ℕ → Bool) (order : IsOrder before) where
  build_orders :
      (first : ℕ) (a : List ℕ) (count : ℕ)
      → count ≤ length a
      → count ≤ 2 ^ 16
      → first ≤ count / 2
      → IsHeapFrom before order first count a
      → Gives
          (λ r. IsHeapFrom before order 0 count r × IsRearranged count a r)
          (build before first a count)
  unfolding build
  build_orders zero a count fits small half h = (a, refl, (h, IsRearranged-refl count a))
  build_orders (suc first) a count fits small half h =
      let v : IsHeapBut before order first count a first = record {
        edges = λ c p q r t. h c p q (omega arith);
        bridged = λ c p q r t u. absurd (omega arith);
      } in
      let g =
        sift_down_orders before order count first a first count fits small (omega arith)
          (omega arith) (omega arith) v in
      let f =
        build_orders first g.0 count (omega (arith, g.2.1.same_length)) small (omega arith) g.2.0 in
      rw g.1 (f.0, f.1, (f.2.0, IsRearranged-trans g.2.1 f.2.1))

  -- The entries from `end` on are in order, and no entry before `end` comes after one of them.
  record IsDrained (end count : ℕ) (a : List ℕ) : Type 0 where
    done : (i j : ℕ) → i < j → j < count → end ≤ j → before (at a j) (at a i) ≡ false
    heap : IsHeapFrom before order 0 end a

  reflexive : (x : ℕ) → before x x ≡ false
  reflexive x = elim (Bool-cases (before x x)) [ inl e ↦ order.asymmetric x x e | inr e ↦ e ]

  root_largest :
      (n count : ℕ) (a : List ℕ)
      → IsHeapFrom before order 0 count a
      → (c : ℕ) → c < count
      → c ≤ n
      → before (at a 0) (at a c) ≡ false
  root_largest n count a h zero p q = reflexive (at a 0)
  root_largest zero count a h (suc c) p q = absurd (omega arith)
  root_largest (suc n) count a h (suc c) p q =
      order.transitive (at a 0) (at a (parent (suc c))) (at a (suc c))
        (root_largest n count a h (parent (suc c)) (omega arith) (omega arith))
        (h (suc c) (omega arith) p (omega arith))

  -- One round of the second loop: the largest entry goes to the end of the heap.
  module _ (end count : ℕ) (a : List ℕ) (fits : count ≤ length a) (small : count ≤ 2 ^ 16)
      (some_end : suc (suc end) ≤ count) (d : IsDrained (suc (suc end)) count a) where
    root_moved : IsHeapBut before order 0 (suc end) (exchange a 0 (suc end)) 0
    root_moved =
        let other =
          Arrays.at-exchange_other a 0 (suc end) (omega arith) (omega arith) (omega arith) in
        record {
          edges = λ c p q r t.
              rw
                (
                  other (parent c) (λ e. t (sym e)) (omega arith),
                  other c (omega arith) (omega arith),
                )
                (d.heap c p (omega arith) r);
          bridged = λ c p q r t u. absurd (omega arith);
        }

    round-IsDrained :
        (b : List ℕ)
        → IsHeapFrom before order 0 (suc end) b
        → IsRearranged (suc end) (exchange a 0 (suc end)) b
        → IsRearranged (suc (suc end)) a b
        → IsDrained (suc end) count b
    round-IsDrained b h s w = record {
      heap = h;
      done = λ i j p q r. elim (ℕ_discrete (suc end) j) [
        | yes e ↦
            let u = w.inside i (omega arith) in
            let root : at b (suc end) ≡ at a 0 =
              s.outside (suc end) (omega arith)
              ∙ Arrays.at-exchange_right a 0 (suc end) (omega arith) (omega arith) (omega arith) in
            rw (sym e, root, u.2) (root_largest u.0 (suc (suc end)) a d.heap u.0 u.1 (omega arith))
        | no n ↦ rw (w.outside j (omega arith)) (elim (dec_lt i (suc (suc end))) [
          | yes k ↦
              let u = w.inside i k in rw u.2 (d.done u.0 j (omega (arith, u.1)) q (omega arith))
          | no k ↦ rw (w.outside i (omega arith)) (d.done i j p q (omega arith))
        ])
      ];
    }

    round :
        Gives
          (λ r. IsDrained (suc end) count r × IsRearranged (suc (suc end)) a r)
          (sift_down before (suc end) (exchange a 0 (suc end)) 0 (suc end))
    round =
        let same = Arrays.length-exchange a 0 (suc end) in
        let g =
          sift_down_orders before order (suc end) 0 (exchange a 0 (suc end)) 0 (suc end)
            (omega (arith, same)) (omega arith) (omega arith) (omega arith) (omega arith)
            root_moved in
        let first =
          exchange-IsRearranged (suc (suc end)) a 0 (suc end) (omega arith) (omega arith)
            (omega arith) (omega arith) in
        let whole =
          IsRearranged-trans first (IsRearranged-widen {m = suc (suc end)} (omega arith) g.2.1) in
        (g.0, g.1, (round-IsDrained g.0 g.2.0 g.2.1 whole, whole))

  drain_orders :
      (end : ℕ) (a : List ℕ) (count : ℕ)
      → count ≤ length a
      → count ≤ 2 ^ 16
      → end ≤ count
      → IsDrained end count a
      → Gives (λ r. IsDrained 0 count r × IsRearranged count a r) (drain before end a)
  unfolding drain
  drain_orders zero a count fits small some_end d = (a, refl, (d, IsRearranged-refl count a))
  drain_orders (suc zero) a count fits small some_end d = (
    a,
    refl,
    (
      record {
        heap = λ c p q r. absurd (omega arith);
        done = λ i j p q r. d.done i j p q (omega arith);
      },
      IsRearranged-refl count a,
    ),
  )
  drain_orders (suc (suc end)) a count fits small some_end d =
      let g = round end count a fits small some_end d in
      let f =
        drain_orders (suc end) g.0 count (omega (arith, g.2.1.same_length)) small (omega arith)
          g.2.0 in
      rw g.1 (f.0, f.1, (f.2.0, IsRearranged-trans (IsRearranged-widen some_end g.2.1) f.2.1))

  -- No entry is before an earlier one.
  pub IsSorted : ℕ → List ℕ → Type 0
  IsSorted count a = (i j : ℕ) → i < j → j < count → before (at a j) (at a i) ≡ false

  -- For a strict order in which being unordered is transitive, and a count of at most 2^16 within
  -- the array, the heapsort ends within its fuel with an array of the same entries in another
  -- order, those from the count on where they were, in which no entry below the count is before
  -- an earlier one.
  pub index_sorts :
      (a : List ℕ) (count : ℕ)
      → count ≤ length a
      → count ≤ 2 ^ 16
      → Gives (λ r. IsSorted count r × IsRearranged count a r) (index before a count)
  unfolding index IsSorted
  index_sorts a count fits small = elim (dec_lt count 2) [
    | yes p ↦
        rw (ltb_of_lt p) (a, refl, ((λ i j q r. absurd (omega arith)), IsRearranged-refl count a))
    | no p ↦
        let h =
          build_orders (count / 2) a count fits small (omega arith)
            (λ c p q r. absurd (omega arith)) in
        let d =
          drain_orders count h.0 count (omega (arith, h.2.1.same_length)) small (omega arith)
            record { heap = h.2.0; done = λ i j p q r. absurd (omega arith) } in
        rw (ltb_of_le {a = count} {b = 2} (omega arith), h.1)
          (
            d.0,
            d.1,
            ((λ i j q r. d.2.0.done i j q r (omega arith)), IsRearranged-trans h.2.1 d.2.1),
          )
  ]
