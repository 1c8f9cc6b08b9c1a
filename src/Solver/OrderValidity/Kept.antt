-- ===== src/Solver/OrderValidity/Kept.antt =====
-- About the orders that the filter of src/solver/order_validity.py keeps.
use cow_solver_skeleton.Prelude.{
  String, List, [], ◌∷◌, All, All-filter, ◌≡◌, refl, subst, Result, ok, err, >>=-eq-ok,
  ok-injective,
}
use cow_solver_skeleton.Model.{Order}
use cow_solver_skeleton.Routing.Multicall.{Multicall3}
use cow_solver_skeleton.Solver.OrderValidity.{
  filter_valid_orders, read_orders, check_orders, or_keep, judge, Verdict,
}

module _ (P : Order → Type 0) where
  or_keep-All :
      (orders : List Order) (v : Result Verdict)
      → ((w : Verdict) → v ≡ ok w → All P w.0)
      → All P orders
      → All P (or_keep orders v).0
  unfolding or_keep
  or_keep-All orders (ok v) f h = f v refl
  or_keep-All orders (err e) f h = h

  check_orders-All :
      (m : Multicall3) (settlement_addr vault_relayer block : String) (orders : List Order)
      (v : Verdict)
      → check_orders m settlement_addr vault_relayer block orders ≡ ok v
      → All P orders
      → All P v.0
  unfolding check_orders judge
  check_orders-All m settlement_addr vault_relayer block orders v h all =
      let (readings, read, h₃) =
        >>=-eq-ok (read_orders m settlement_addr vault_relayer block orders) _ h in
      subst (λ w. All P w.0) (ok-injective h₃) (All-filter P _ orders all)

  -- What holds of all the orders holds of the kept ones.
  pub All-filter_valid_orders :
      (m : Multicall3) (settlement_addr vault_relayer block : String) (orders : List Order)
      → All P orders
      → All P (filter_valid_orders m settlement_addr vault_relayer block orders).0
  unfolding filter_valid_orders
  All-filter_valid_orders m settlement_addr vault_relayer block [] h = tt
  All-filter_valid_orders m settlement_addr vault_relayer block (o ∷ os) h =
      or_keep-All (o ∷ os) _
        (λ v e. check_orders-All m settlement_addr vault_relayer block (o ∷ os) v e h) h
