-- ===== src/Solver/Router/Batched/Settles.antt =====
-- About the outcome of `RouterSolver.solve`.
use cow_solver_skeleton.Prelude.{
  ℕ, zero, suc, ◌+◌, inl, inr, ◌≡◌, ◌≢◌, refl, subst, Bool, true, false, Option, none, some, List,
  [], ◌∷◌, All, All-of_In, In, length, ◌==◌, if◌then◌else◌, Bool-cases, Result, ok, err, >>=-eq-ok,
  ok-injective, err-ne-ok, take, All-In,
}
use cow_solver_skeleton.Dict.{Dict}
use cow_solver_skeleton.Model.{
  Order, Auction, Trade, Solution, WireInteraction, Outcome, solution, no_solution,
}
use cow_solver_skeleton.Solver.Ranking.{rank, expected_surplus_sort_key}
use cow_solver_skeleton.Solver.Ranking.Sorted.{sorted_desc-All}
use cow_solver_skeleton.Solver.OrderValidity.{Reason}
use cow_solver_skeleton.Solver.OrderValidity.Kept.{All-filter_valid_orders}
use cow_solver_skeleton.Solver.Quotes.{RouteQuote}
use cow_solver_skeleton.Solver.Router.Candidates.{build_v3_candidate_paths}
use cow_solver_skeleton.Solver.Router.Draft.{Draft, empty_draft, fill_orders}
use cow_solver_skeleton.Solver.Router.Draft.Settled.{AllSettled}
use cow_solver_skeleton.Solver.Router.Draft.Fills.{fill_orders-Good}
use cow_solver_skeleton.Solver.Router.Fallback.Offers.{fill_v2_fallback-Good}
use cow_solver_skeleton.Solver.Router.Legacy.Booked.{legacy_book-Good}
use cow_solver_skeleton.Solver.Router.Batched.{
  Router, gather_quotes, auction_number, publish, wants_fallback, after_fallback, solve_with_quotes,
  solve_v3_batched, solve_legacy, drop_ghosts, without_ghosts, candidates, unless_dropped,
  gate_orders, funding_gate, solve_candidates, solve,
}

-- What holds of the prices and the trades of an outcome, if it has any.
abbrev pub Publishes : (Dict ℕ → List Trade → Type 0) → Outcome → Type 0
Publishes P no_solution = Unit
Publishes P (solution sol) = P sol.prices sol.trades

abbrev pub OutcomeSettled : List Order → Outcome → Type 0
OutcomeSettled orders = Publishes (AllSettled orders)

pub publish-Publishes :
    (P : Dict ℕ → List Trade → Type 0) (auction : Auction) (trades : List Trade) (prices : Dict ℕ)
    (calls : List WireInteraction) (out : Outcome)
    → P prices trades
    → publish auction trades prices calls ≡ ok out
    → Publishes P out
unfolding publish
publish-Publishes P auction [] prices calls out g h = subst (Publishes P) (ok-injective h) tt
publish-Publishes P auction (t ∷ ts) prices calls out g h =
    let (n, number, kept) = >>=-eq-ok (auction_number auction.id) _ h in
    subst (Publishes P) (ok-injective kept) g

module _ (orders : List Order) where
  -- An order of the list that trades two tokens.
  abbrev Listed : Order → Type 0
  Listed o = In o orders × (o.sell_token ≢ o.buy_token)

  after_fallback-Good :
      (r : Router) (os : List Order) (d d' : Draft)
      → All Listed os
      → after_fallback r os d ≡ ok d'
      → AllSettled orders d.prices d.trades
      → AllSettled orders d'.prices d'.trades
  unfolding after_fallback
  after_fallback-Good r os d d' a h g = elim (Bool-cases (wants_fallback r os d)) [
    | inl wanted ↦
        fill_v2_fallback-Good r.settlement.gpv2_settlement orders r.v2_sources d d' os a
          (rw wanted at h) g
    | inr full ↦ subst (λ x. AllSettled orders x.prices x.trades) (ok-injective (rw full at h)) g
  ]

  solve_with_quotes-Settled :
      (r : Router) (deadline : ℕ) (auction : Auction) (os : List Order)
      (quotes : Result (List RouteQuote)) (out : Outcome)
      → All Listed os
      → solve_with_quotes r deadline auction os quotes ≡ ok out
      → OutcomeSettled orders out
  unfolding solve_with_quotes
  solve_with_quotes-Settled r deadline auction os (err e) out a h =
      subst (OutcomeSettled orders) (ok-injective h) tt
  solve_with_quotes-Settled r deadline auction os (ok quotes) out a h =
      let (d, filled, h₁) =
        >>=-eq-ok (fill_orders r.settlement deadline quotes empty_draft os) _ h in
      let (d', finished, h₂) = >>=-eq-ok (after_fallback r os d) _ h₁ in
      publish-Publishes (AllSettled orders) auction d'.trades d'.prices d'.interactions out
        (after_fallback-Good r os d d' a finished
          (fill_orders-Good r.settlement deadline orders quotes empty_draft d os a filled tt))
        h₂

  solve_candidates-Settled :
      (r : Router) (now : ℕ) (auction : Auction) (os : List Order) (out : Outcome)
      → All Listed os
      → solve_candidates r now auction os ≡ ok out
      → OutcomeSettled orders out
  unfolding solve_candidates solve_v3_batched solve_legacy gather_quotes
  solve_candidates-Settled r now auction [] out a h =
      subst (OutcomeSettled orders) (ok-injective h) tt
  solve_candidates-Settled r now auction (o ∷ os) out a h = elim (Bool-cases r.v3_only_batched) [
    | inl batched ↦
        elim (Bool-cases (length (build_v3_candidate_paths r.intermediates (o ∷ os)) == 0)) [
          | inl nothing ↦
              subst (OutcomeSettled orders)
                (ok-injective (rw (batched, nothing, solve_v3_batched) at h)) tt
          | inr paths ↦
              solve_with_quotes-Settled r (now + 60) auction (o ∷ os) (gather_quotes r (o ∷ os)) out
                a (rw (batched, paths, solve_v3_batched) at h)
        ]
    | inr legacy ↦
        publish-Publishes (AllSettled orders) auction _ _ [] out
          (legacy_book-Good orders r.search (o ∷ os) a) (rw (legacy, solve_legacy) at h)
  ]

  unless_dropped-Settled :
      (sol : Solution) (gone : Dict Reason)
      → AllSettled orders sol.prices sol.trades
      → OutcomeSettled orders (unless_dropped sol gone)
  unfolding unless_dropped
  unless_dropped-Settled sol [] g = g
  unless_dropped-Settled sol (d ∷ ds) g = tt

  gate_orders-Settled :
      (r : Router) (auction : Auction) (sol : Solution) (os : List Order)
      → AllSettled orders sol.prices sol.trades
      → OutcomeSettled orders (gate_orders r auction sol os)
  unfolding gate_orders
  gate_orders-Settled r auction sol [] g = g
  gate_orders-Settled r auction sol (o ∷ os) g = unless_dropped-Settled sol _ g

  funding_gate-Settled :
      (r : Router) (auction : Auction) (out : Outcome)
      → OutcomeSettled orders out
      → OutcomeSettled orders (funding_gate r auction out)
  unfolding funding_gate
  funding_gate-Settled r auction no_solution g = tt
  funding_gate-Settled r auction (solution sol) g = elim (Bool-cases r.order_validity_filter) [
    | inl on ↦ rw on (gate_orders-Settled r auction sol _ g)
    | inr off ↦ rw off g
  ]

module _ (P : Order → Type 0) where
  drop_ghosts-All :
      (is_ghost : Order → Result Bool) (os kept : List Order)
      → drop_ghosts is_ghost os ≡ ok kept
      → All P os
      → All P kept
  unfolding drop_ghosts
  drop_ghosts-All is_ghost [] kept h a = subst (All P) (ok-injective h) tt
  drop_ghosts-All is_ghost (o ∷ os) kept h a =
      let (ghost, asked, h₁) = >>=-eq-ok (is_ghost o) _ h in
      let (rest, dropped, h₂) = >>=-eq-ok (drop_ghosts is_ghost os) _ h₁ in
      subst (All P) (ok-injective h₂)
        (choose ghost rest (drop_ghosts-All is_ghost os rest dropped a.1))
    where
      choose : (b : Bool) (rest : List Order) → All P rest → All P (if b then rest else o ∷ rest)
      choose true rest r = r
      choose false rest r = (a.0, r)

  pub without_ghosts-All :
      (is_ghost : Option (Order → Result Bool)) (os kept : List Order)
      → without_ghosts is_ghost os ≡ ok kept
      → All P os
      → All P kept
  unfolding without_ghosts
  without_ghosts-All none os kept h a = subst (All P) (ok-injective h) a
  without_ghosts-All (some is_ghost) os kept h a = drop_ghosts-All is_ghost os kept h a

  take-All : (n : ℕ) (os : List Order) → All P os → All P (take n os)
  take-All zero os a = tt
  take-All (suc n) [] a = tt
  take-All (suc n) (o ∷ os) a = (a.0, take-All n os a.1)

  candidates-All :
      (r : Router) (auction : Auction) (ranked : List Order)
      → All P ranked
      → All P (candidates r auction ranked)
  unfolding candidates
  candidates-All r auction ranked a = elim (Bool-cases r.order_validity_filter) [
    | inl on ↦ rw on (
        take-All r.max_orders _
          (All-filter_valid_orders P r.multicall _ _ _ _ (take-All _ ranked a)))
    | inr off ↦ rw off (take-All r.max_orders ranked a)
  ]

-- If every order of the auction trades two different tokens, each trade that `RouterSolver.solve`
-- publishes belongs to an order of the auction, executes within that order's limit (a partial sale
-- within the floored limit of its fraction), and the published prices of the order's two tokens
-- are the amounts that the trade executes.
pub solve-Settled :
    (r : Router) (now : ℕ) (auction : Auction) (out : Outcome)
    → All (λ o. o.sell_token ≢ o.buy_token) auction.orders
    → solve r now auction ≡ ok out
    → OutcomeSettled auction.orders out
unfolding solve rank
solve-Settled r now auction out distinct h = by_id auction.id refl
  where
    by_id : (i : Option _) → auction.id ≡ i → OutcomeSettled auction.orders out
    by_id none e = absurd (err-ne-ok (rw (e, solve) at h))
    by_id (some i) e =
        let (kept, ghosts, h₁) =
          >>=-eq-ok (without_ghosts r.is_ghost auction.orders) _ (rw (e, solve) at h) in
        let (result, solved, h₂) =
          >>=-eq-ok (solve_candidates r now auction (candidates r auction (rank auction kept))) _
            h₁ in
        let start =
          All-of_In (Listed auction.orders) auction.orders
            (λ o m. (m, All-In (λ o. o.sell_token ≢ o.buy_token) o auction.orders distinct m)) in
        let kept_listed =
          without_ghosts-All (Listed auction.orders) r.is_ghost auction.orders kept ghosts start in
        let ranked =
          sorted_desc-All (λ o. expected_surplus_sort_key o auction) (Listed auction.orders) kept
            kept_listed in
        subst (OutcomeSettled auction.orders) (ok-injective h₂) (
          funding_gate-Settled auction.orders r auction result (
            solve_candidates-Settled auction.orders r now auction _ result
              (candidates-All (Listed auction.orders) r auction (rank auction kept) ranked) solved))
