-- ===== src/Sort/Arrays.antt =====
-- Exchanges of two entries of an array.
use mathlib.Core.List.Perm
use mathlib.Core.List.{Perm}
use yan_os.Base.{ℕ, zero, suc, ◌<◌, ◌≡◌, ◌≢◌, sym, ◌∙◌, List, [], ◌∷◌, arith}
use yan_os.Base.{length, set, length-set, get_or-set_self, get_or-set_ne}
use yan_os.Sort.{at, exchange}

pub length-exchange : (a : List ℕ) (i j : ℕ) → length (exchange a i j) ≡ length a
unfolding exchange
length-exchange a i j = length-set (set a i (at a j)) j (at a i) ∙ length-set a i (at a j)

-- Writing a cell trades its entry for the new one.
set-traded : (a : List ℕ) (i v : ℕ) → i < length a → Perm (at a i ∷ set a i v) (v ∷ a)
set-traded [] i v h = absurd (omega arith)
set-traded (x ∷ a) zero v h = Perm.swap v x a
set-traded (x ∷ a) (suc i) v h =
    Perm.trans (Perm.swap x (at a i) (set a i v))
      (Perm.trans (Perm.cons x (set-traded a i v (omega arith))) (Perm.swap v x a))

module _ (a : List ℕ) (i j : ℕ) (hi : i < length a) (hj : j < length a) (ne : i ≢ j) where
  pub at-exchange_right : at (exchange a i j) j ≡ at a i
  unfolding exchange
  at-exchange_right =
      get_or-set_self (set a i (at a j)) j (at a i) 0 (omega (arith, length-set a i (at a j)))

  pub at-exchange_left : at (exchange a i j) i ≡ at a j
  unfolding exchange
  at-exchange_left =
      get_or-set_ne (set a i (at a j)) j i (at a i) 0 (λ e. ne (sym e))
      ∙ get_or-set_self a i (at a j) 0 hi

  pub at-exchange_other : (c : ℕ) → i ≢ c → j ≢ c → at (exchange a i j) c ≡ at a c
  unfolding exchange
  at-exchange_other c p q =
      get_or-set_ne (set a i (at a j)) j c (at a i) 0 q ∙ get_or-set_ne a i c (at a j) 0 p

  pub exchange-perm : Perm (exchange a i j) a
  unfolding exchange
  exchange-perm =
      let kept : at (set a i (at a j)) j ≡ at a j = get_or-set_ne a i j (at a j) 0 ne in
      let second =
        set-traded (set a i (at a j)) j (at a i) (omega (arith, length-set a i (at a j))) in
      Perm.cons_inv (Perm.trans (rw kept at second) (set-traded a i (at a j) hi))
