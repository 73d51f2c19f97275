-- ===== src/Sort/Sift.antt =====
-- What one run of the sift-down does to the heap order of os/sort.h.
use mathlib.Core.List.Perm
use mathlib.Core.List.{Perm}
use native.Mathlib.Decide.{ℕ_discrete, dec_lt}
use yan_os.Base.{ℕ, zero, suc, ◌+◌, ◌-◌, ◌*◌, ◌/◌, ◌%◌, ◌^◌, ◌<◌, ◌≤◌, ◌≡◌, ◌≢◌, ◌⊎◌, inl, inr}
use yan_os.Base.{refl, sym, ap, ◌∙◌, List, Option, some, Bool, true, false, arith, length}
use yan_os.Base.{leb_of_le, leb_of_lt, Bool-cases, ltb, ◌&&◌}
use yan_os.Sort.{at, exchange, larger_child, sift_down}
use yan_os.Sort.Arrays

abbrev pub parent : ℕ → ℕ
parent c = (c - 1) / 2

-- A run that ends with an array that has the property.
abbrev pub Gives : (List ℕ → Type 0) → Option (List ℕ) → Type 0
Gives P run = (r : List ℕ) × (run ≡ some r) × P r

-- `r` has the entries of `a` in another order, those from `count` on where they were.
pub record IsRearranged (count : ℕ) (a r : List ℕ) : Type 0 where
  pub same_length : length r ≡ length a
  pub perm : Perm r a
  pub outside : (j : ℕ) → count ≤ j → at r j ≡ at a j
  pub inside : (j : ℕ) → j < count → (k : ℕ) × (k < count) × (at r j ≡ at a k)

pub IsRearranged-refl : (count : ℕ) (a : List ℕ) → IsRearranged count a a
IsRearranged-refl count a = record {
  same_length = refl;
  perm = Perm.rfl;
  outside = λ j h. refl;
  inside = λ j h. (j, h, refl);
}

pub IsRearranged-trans :
    {count : ℕ} {a b c : List ℕ}
    → IsRearranged count a b
    → IsRearranged count b c
    → IsRearranged count a c
IsRearranged-trans p q = record {
  same_length = q.same_length ∙ p.same_length;
  perm = Perm.trans q.perm p.perm;
  outside = λ j h. q.outside j h ∙ p.outside j h;
  inside = λ j h. let u = q.inside j h in let v = p.inside u.0 u.1 in (v.0, v.1, u.2 ∙ v.2);
}

pub IsRearranged-widen : {n m : ℕ} {a r : List ℕ} → n ≤ m → IsRearranged n a r → IsRearranged m a r
IsRearranged-widen {n} {m} h p = record {
  same_length = p.same_length;
  perm = p.perm;
  outside = λ j k. p.outside j (omega arith);
  inside = λ j k. elim (dec_lt j n) [
    | yes q ↦ let u = p.inside j q in (u.0, omega (arith, u.1), u.2)
    | no q ↦ (j, k, p.outside j (omega arith))
  ];
}

pub exchange-IsRearranged :
    (count : ℕ) (a : List ℕ) (i j : ℕ)
    → i < count
    → j < count
    → count ≤ length a
    → i ≢ j
    → IsRearranged count a (exchange a i j)
exchange-IsRearranged count a i j hi hj h ne =
    let li : i < length a = omega arith in
    let lj : j < length a = omega arith in
    record {
      same_length = Arrays.length-exchange a i j;
      perm = Arrays.exchange-perm a i j li lj ne;
      outside = λ k p. Arrays.at-exchange_other a i j li lj ne k (omega arith) (omega arith);
      inside = λ k p. elim (ℕ_discrete i k) [
        | yes e ↦ (j, hj, rw (sym e) (Arrays.at-exchange_left a i j li lj ne))
        | no n ↦ elim (ℕ_discrete j k) [
          | yes e ↦ (i, hi, rw (sym e) (Arrays.at-exchange_right a i j li lj ne))
          | no m ↦ (k, p, Arrays.at-exchange_other a i j li lj ne k n m)
        ]
      ];
    }

-- `before` is a strict order in which being unordered is transitive.
pub record IsOrder (before : ℕ → ℕ → Bool) : Type 0 where
  pub asymmetric : (x y : ℕ) → before x y ≡ true → before y x ≡ false
  pub transitive : (x y z : ℕ) → before x y ≡ false → before y z ≡ false → before x z ≡ false

module _ (before : ℕ → ℕ → Bool) (order : IsOrder before) where
  -- No entry below a parent from `lo` on comes after its parent.
  abbrev pub IsHeapFrom : ℕ → ℕ → List ℕ → Type 0
  IsHeapFrom lo count a =
      (c : ℕ) → 0 < c → c < count → lo ≤ parent c → before (at a (parent c)) (at a c) ≡ false

  -- Only the edges below `i` may be out of order.
  pub record IsHeapBut (lo count : ℕ) (a : List ℕ) (i : ℕ) : Type 0 where
    pub edges :
        (c : ℕ)
        → 0 < c
        → c < count
        → lo ≤ parent c
        → parent c ≢ i
        → before (at a (parent c)) (at a c) ≡ false
    pub bridged :
        (c : ℕ)
        → 0 < c
        → c < count
        → parent c ≡ i
        → 0 < i
        → lo ≤ parent i
        → before (at a (parent i)) (at a c) ≡ false

  record IsLargerChild (a : List ℕ) (count i m : ℕ) : Type 0 where
    within : m < count
    child : (m ≡ 2 * i + 1) ⊎ (m ≡ 2 * i + 2)
    largest : (c : ℕ) → 0 < c → c < count → parent c ≡ i → before (at a m) (at a c) ≡ false

  reflexive : (x : ℕ) → before x x ≡ false
  reflexive x = elim (Bool-cases (before x x)) [ inl e ↦ order.asymmetric x x e | inr e ↦ e ]

  sides : (c i : ℕ) → 0 < c → parent c ≡ i → (c ≡ 2 * i + 1) ⊎ (c ≡ 2 * i + 2)
  sides c i p q = omega arith

  right_IsLargerChild :
      (a : List ℕ) (count i : ℕ)
      → 2 * i + 2 < count
      → before (at a (2 * i + 1)) (at a (2 * i + 2)) ≡ true
      → IsLargerChild a count i (2 * i + 2)
  right_IsLargerChild a count i h e = record {
    within = h;
    child = inr refl;
    largest = λ c p q r. elim (sides c i p r) [
      | inl u ↦ rw u (order.asymmetric (at a (2 * i + 1)) (at a (2 * i + 2)) e)
      | inr u ↦ rw u (reflexive (at a (2 * i + 2)))
    ];
  }

  left_IsLargerChild :
      (a : List ℕ) (count i : ℕ)
      → 2 * i + 1 < count
      → (2 * i + 2 < count → before (at a (2 * i + 1)) (at a (2 * i + 2)) ≡ false)
      → IsLargerChild a count i (2 * i + 1)
  left_IsLargerChild a count i h e = record {
    within = h;
    child = inl refl;
    largest = λ c p q r. elim (sides c i p r) [
      | inl u ↦ rw u (reflexive (at a (2 * i + 1)))
      | inr u ↦ rw u (e (omega arith))
    ];
  }

  larger_child-IsLargerChild :
      (a : List ℕ) (count i : ℕ)
      → 2 * i + 1 < count
      → IsLargerChild a count i (larger_child before a (2 * i + 1) count)
  unfolding larger_child
  larger_child-IsLargerChild a count i h =
      let next : 2 * i + 1 + 1 ≡ 2 * i + 2 = omega arith in
      rw next
        (elim (Bool-cases (ltb (2 * i + 2) count && before (at a (2 * i + 1)) (at a (2 * i + 2)))) [
          | inl e ↦ rw e (right_IsLargerChild a count i (ground arith) (ground arith))
          | inr e ↦ rw e (left_IsLargerChild a count i h (λ p. ground arith))
        ])

  module _ (lo count : ℕ) (a : List ℕ) (fits : count ≤ length a) where
    settled :
        (i m : ℕ)
        → IsHeapBut lo count a i
        → IsLargerChild a count i m
        → before (at a i) (at a m) ≡ false
        → IsHeapFrom lo count a
    settled i m v s e c p q r = elim (ℕ_discrete (parent c) i) [
      | yes u ↦ rw u (order.transitive (at a i) (at a m) (at a c) e (s.largest c p q u))
      | no n ↦ v.edges c p q r n
    ]

    leaf : (i : ℕ) → count ≤ 2 * i + 1 → IsHeapBut lo count a i → IsHeapFrom lo count a
    leaf i h v c p q r = v.edges c p q r (omega arith)

    module _ (i m : ℕ) (low : lo ≤ i) (v : IsHeapBut lo count a i) (s : IsLargerChild a count i m)
        (e : before (at a i) (at a m) ≡ true) where
      child-parent : parent m ≡ i
      child-parent = omega (arith, s.child)

      above : i < m
      above = omega (arith, s.child)

      at_parent : at (exchange a i m) i ≡ at a m
      at_parent =
          Arrays.at-exchange_left a i m (omega (arith, above, s.within)) (omega (arith, s.within))
            (omega (arith, above))

      at_child : at (exchange a i m) m ≡ at a i
      at_child =
          Arrays.at-exchange_right a i m (omega (arith, above, s.within)) (omega (arith, s.within))
            (omega (arith, above))

      at_other : (c : ℕ) → i ≢ c → m ≢ c → at (exchange a i m) c ≡ at a c
      at_other =
          Arrays.at-exchange_other a i m (omega (arith, above, s.within)) (omega (arith, s.within))
            (omega (arith, above))

      below_exchanged :
          (c : ℕ)
          → 0 < c
          → c < count
          → parent c ≡ i
          → before (at a m) (at (exchange a i m) c) ≡ false
      below_exchanged c p q u = elim (ℕ_discrete m c) [
        | yes k ↦ rw (sym k, at_child) (order.asymmetric (at a i) (at a m) e)
        | no n ↦ rw (at_other c (omega arith) n) (s.largest c p q u)
      ]

      beside_exchanged :
          (c : ℕ)
          → 0 < c
          → c < count
          → lo ≤ parent c
          → parent c ≢ i
          → before (at a (parent c)) (at (exchange a i m) c) ≡ false
      beside_exchanged c p q r n = elim (ℕ_discrete i c) [
        | yes k ↦
            rw (sym k, at_parent)
              (v.bridged m (omega (arith, above)) s.within child-parent (omega arith) (omega arith))
        | no k ↦ rw (at_other c k (λ t. n (ap parent (sym t) ∙ child-parent))) (v.edges c p q r n)
      ]

      exchange-IsHeapBut : IsHeapBut lo count (exchange a i m) m
      exchange-IsHeapBut = record {
        edges = λ c p q r t. elim (ℕ_discrete (parent c) i) [
          | yes u ↦ rw (u, at_parent) (below_exchanged c p q u)
          | no n ↦
              rw (at_other (parent c) (λ k. n (sym k)) (λ k. t (sym k)))
                (beside_exchanged c p q r n)
        ];
        bridged = λ c p q r t u.
            rw (child-parent, at_parent, at_other c (omega (arith, above)) (omega (arith, above)))
              (rw r at (v.edges c p q (omega (arith, above)) (omega (arith, above))));
      }

  -- With fuel for the distance to the end, the sift-down ends; it restores the heap order.
  pub sift_down_orders :
      (fuel lo : ℕ) (a : List ℕ) (i count : ℕ)
      → count ≤ length a
      → count ≤ 2 ^ 16
      → count ≤ fuel + i
      → i < count
      → lo ≤ i
      → IsHeapBut lo count a i
      → Gives
          (λ r. IsHeapFrom lo count r × IsRearranged count a r)
          (sift_down before fuel a i count)
  unfolding sift_down
  sift_down_orders zero lo a i count fits small more inside low v = absurd (omega arith)
  sift_down_orders (suc fuel) lo a i count fits small more inside low v =
      let first : (i * 2 + 1) % 2 ^ 32 ≡ 2 * i + 1 = omega arith in
      rw first (elim (dec_lt (2 * i + 1) count) [
        | no p ↦
            rw (leb_of_le {a = count} {b = 2 * i + 1} (omega arith))
              (a, refl, (leaf lo count a fits i (omega arith) v, IsRearranged-refl count a))
        | yes p ↦
            let s = larger_child-IsLargerChild a count i p in
            rw (leb_of_lt p)
              (elim (Bool-cases
                (before (at a i) (at a (larger_child before a (2 * i + 1) count)))) [
                  | inl e ↦
                      let m = larger_child before a (2 * i + 1) count in
                      let high = above lo count a fits i m low v s e in
                      let g =
                        sift_down_orders fuel lo (exchange a i m) m count
                          (omega (arith, Arrays.length-exchange a i m)) small (omega (arith, high))
                          s.within (omega (arith, high))
                          (exchange-IsHeapBut lo count a fits i m low v s e) in
                      let swapped =
                        exchange-IsRearranged count a i m inside s.within fits
                          (omega (arith, high)) in
                      rw e (g.0, g.1, (g.2.0, IsRearranged-trans swapped g.2.1))
                  | inr e ↦ rw e (
                    a,
                    refl,
                    (
                      settled lo count a fits i (larger_child before a (2 * i + 1) count) v s e,
                      IsRearranged-refl count a,
                    ),
                  )
                ])
      ])
