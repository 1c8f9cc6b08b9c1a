-- ===== src/Solver/Router/Batched/Funded.antt =====
-- About the funding gate of `RouterSolver.solve`.
use cow_solver_skeleton.Prelude.{
  ℕ, ◌≡◌, refl, true, List, [], ◌∷◌, filter, map, text_mem, ok, >>=-eq-ok, ok-injective, err-ne-ok,
  Option-cases, inl, inr, subst,
}
use cow_solver_skeleton.Dict.{Dict}
use cow_solver_skeleton.Model.{Order, Auction, Solution, Outcome, solution, no_solution}
use cow_solver_skeleton.Solver.Ranking.{rank}
use cow_solver_skeleton.Solver.OrderValidity.{filter_valid_orders, gpv2_vault_relayer, Reason}
use cow_solver_skeleton.Solver.Router.Batched.{
  Router, block_of, without_ghosts, candidates, unless_dropped, gate_orders, funding_gate,
  solve_candidates, solve,
}

-- The orders that the solution trades.
abbrev pub traded : Auction → Solution → List Order
traded auction sol = filter (λ o. text_mem o.uid (map (λ t. t.order_uid) sol.trades)) auction.orders

no_solution-ne-solution : {a : Solution} → Path Outcome no_solution (solution a) → ⊥
no_solution-ne-solution h = cc

solution-injective : {a b : Solution} → Path Outcome (solution a) (solution b) → a ≡ b
solution-injective h = cc

nothing_dropped :
    (r : Router) (auction : Auction)
    → (filter_valid_orders r.multicall r.settlement.gpv2_settlement gpv2_vault_relayer
        (block_of auction)
        []).1
      ≡ []
unfolding filter_valid_orders
nothing_dropped r auction = refl

unless_dropped-clean :
    (sol out : Solution) (gone : Dict Reason)
    → unless_dropped sol gone ≡ solution out
    → (sol ≡ out) × (gone ≡ [])
unfolding unless_dropped
unless_dropped-clean sol out [] h = (solution-injective h, refl)
unless_dropped-clean sol out (d ∷ ds) h = absurd (no_solution-ne-solution h)

module _ (r : Router) (auction : Auction) where
  -- What the funding filter says of the orders that a solution trades.
  abbrev pub dropped_of : Solution → Dict Reason
  dropped_of sol =
      (filter_valid_orders r.multicall r.settlement.gpv2_settlement gpv2_vault_relayer
        (block_of auction) (traded auction sol)).1

  gate_orders-clean :
      (sol out : Solution) (os : List Order)
      → gate_orders r auction sol os ≡ solution out
      → (sol ≡ out)
        × ((filter_valid_orders r.multicall r.settlement.gpv2_settlement gpv2_vault_relayer
              (block_of auction)
              os).1
            ≡ [])
  unfolding gate_orders
  gate_orders-clean sol out [] h = (solution-injective h, nothing_dropped r auction)
  gate_orders-clean sol out (o ∷ os) h = unless_dropped-clean sol out _ h

  funding_gate-clean :
      (result : Outcome) (out : Solution)
      → r.order_validity_filter ≡ true
      → funding_gate r auction result ≡ solution out
      → dropped_of out ≡ []
  unfolding funding_gate
  funding_gate-clean no_solution out on h = absurd (no_solution-ne-solution h)
  funding_gate-clean (solution sol) out on h =
      let (same, clean) = gate_orders-clean sol out (traded auction sol) (rw on at h) in
      subst (λ x. dropped_of x ≡ []) same clean

  -- With the order-validity filter on, a solution that `RouterSolver.solve` publishes has passed
  -- the funding gate: the filter drops none of the orders that the solution trades.
  pub solve-funded :
      (now : ℕ) (out : Solution)
      → r.order_validity_filter ≡ true
      → solve r now auction ≡ ok (solution out)
      → dropped_of out ≡ []
  unfolding solve
  solve-funded now out on h = elim (Option-cases auction.id) [
    | inl e ↦ absurd (err-ne-ok (rw (e, solve) at h))
    | inr (i, e) ↦
        let (kept, ghosts, h₁) =
          >>=-eq-ok (without_ghosts r.is_ghost auction.orders) _ (rw (e, solve) at h) in
        let (result, solved, h₂) =
          >>=-eq-ok (solve_candidates r now auction (candidates r auction (rank auction kept))) _
            h₁ in
        funding_gate-clean result out on (ok-injective h₂)
  ]
