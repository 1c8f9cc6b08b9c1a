-- ===== src/Solver/JointClearing/Solved.antt =====
-- About `JointClearingSolver.solve` of src/solver/joint_clearing.py.
use cow_solver_skeleton.Prelude.{
  ℕ, ◌+◌, ◌*◌, ◌≤◌, ◌<◌, ◌≡◌, ◌≢◌, refl, subst, ap, inl, inr, not, Option, none, some, List, [],
  ◌∷◌, ◌++◌, filter, All, All-append, All-impl, All-of_In, All-In, All-take, arith, lower, ltb,
  Bool-cases, Result, ok, err, >>=-eq-ok, ok-injective, err-ne-ok, ltb_false→le, ceil_div-exact,
  length, ◌==◌, text_mem, All-filter,
}
use cow_solver_skeleton.Dict.{Dict, get}
use cow_solver_skeleton.Model.{Kind, sell, buy, Order, Auction, Outcome}
use cow_solver_skeleton.Routing.V3Batched.{V3BatchedQuote}
use cow_solver_skeleton.Solver.Prices.{register_prices}
use cow_solver_skeleton.Solver.Prices.Laws.{register_prices-records}
use cow_solver_skeleton.Solver.Quotes.{RouteQuote, select_best_quote_per_order}
use cow_solver_skeleton.Solver.Ranking.{rank, expected_surplus_sort_key}
use cow_solver_skeleton.Solver.Ranking.Sorted.{sorted_desc-All}
use cow_solver_skeleton.Solver.Route.{Settlement, encode_path_interaction}
use cow_solver_skeleton.Solver.Router.Draft.{Draft, empty_draft}
use cow_solver_skeleton.Solver.Router.Candidates.{build_v3_candidate_paths}
use cow_solver_skeleton.Solver.Router.Batched.{without_ghosts}
use cow_solver_skeleton.Solver.Router.Batched.Settles.{
  Publishes, publish-Publishes, without_ghosts-All,
}
use cow_solver_skeleton.Solver.JointClearing.Groups.{
  Group, group_orders, joint_pairs, build_group_paths,
}
use cow_solver_skeleton.Solver.JointClearing.Settled.{
  JointTrade, AllPaid, register_prices-AllPaid, Listed, Grouped, group_orders-Grouped,
  settle_groups-Good,
}
use cow_solver_skeleton.Solver.JointClearing.{
  JointClearing, emit_single, single_order, settle_singles, settle_groups, individual_quotes, build,
  solve_orders, solve,
}

module _ (s : Settlement) (deadline : ℕ) (orders : List Order) where
  abbrev Good : Draft → Type 0
  Good d = AllPaid orders d.prices d.trades

  -- An order that is sold whole, of two tokens and a positive amount.
  abbrev Sellable : Order → Type 0
  Sellable o = Listed orders o × (0 < o.sell_amount)

  emit_single-Good :
      (d d' : Draft) (o : Order) (q : RouteQuote)
      → Sellable o
      → o.buy_amount ≤ q.amount_out
      → emit_single s deadline d o q ≡ ok d'
      → Good d
      → Good d'
  unfolding emit_single
  emit_single-Good d d' o q l le h good =
      by_prices (register_prices d.prices o q.amount_out o.sell_amount) refl
    where
      by_prices :
          (p : Option _) → register_prices d.prices o q.amount_out o.sell_amount ≡ p → Good d'
      by_prices none e = subst Good (ok-injective (rw (e, emit_single) at h)) good
      by_prices (some prices) e =
          let (calls, encoded, kept) =
            >>=-eq-ok (encode_path_interaction s q.path o.sell_amount q.amount_out deadline) _
              (rw (e, emit_single) at h) in
          let prices_set =
            register_prices-records d.prices o q.amount_out o.sell_amount e
              (λ same. l.0.1 (ap lower same)) in
          subst Good (ok-injective kept) (
            All-append (JointTrade orders prices) d.trades _
              (register_prices-AllPaid orders d.prices prices o q.amount_out o.sell_amount d.trades
                e good)
              (
                record {
                  order = o;
                  listed = l.0.0;
                  uid = refl;
                  executed = refl;
                  sell_key = o.sell_token;
                  buy_key = o.buy_token;
                  is_sell_key = inl refl;
                  is_buy_key = inl refl;
                  price_sell = q.amount_out;
                  price_buy = o.sell_amount;
                  sell_price = prices_set.0;
                  buy_price = prices_set.1;
                  paid =
                      rw
                        (ceil_div-exact (o.sell_amount * q.amount_out) o.sell_amount q.amount_out
                          l.1 (omega arith))
                        le;
                },
                tt,
              ))

  single_order-Good :
      (d d' : Draft) (o : Order) (q : Option RouteQuote)
      → Sellable o
      → single_order s deadline d o q ≡ ok d'
      → Good d
      → Good d'
  unfolding single_order
  single_order-Good d d' o none l h good = subst Good (ok-injective h) good
  single_order-Good d d' o (some q) l h good = by_kind o.kind refl
    where
      by_kind : (k : Kind) → o.kind ≡ k → Good d'
      by_kind buy k = subst Good (ok-injective (rw (k, single_order) at h)) good
      by_kind sell k = elim (Bool-cases (ltb q.amount_out o.buy_amount)) [
        | inl under ↦ subst Good (ok-injective (rw (k, under, single_order) at h)) good
        | inr clear ↦
            emit_single-Good d d' o q l (ltb_false→le q.amount_out o.buy_amount clear)
              (rw (k, clear, single_order) at h) good
      ]

  settle_singles-Good :
      (best : Dict RouteQuote) (d d' : Draft) (os : List Order)
      → All Sellable os
      → settle_singles s deadline best d os ≡ ok d'
      → Good d
      → Good d'
  unfolding settle_singles
  settle_singles-Good best d d' [] l h good = subst Good (ok-injective h) good
  settle_singles-Good best d d' (o ∷ os) l h good =
      let (d₁, first, rest) = >>=-eq-ok (single_order s deadline d o (get best o.uid)) _ h in
      settle_singles-Good best d₁ d' os l.1 rest
        (single_order-Good d d₁ o (get best o.uid) l.0 first good)

module _ (j : JointClearing) (deadline : ℕ) (orders : List Order) where
  build-Paid :
      (auction : Auction) (os : List Order) (groups : List Group)
      (quotes : Result (List V3BatchedQuote)) (out : Outcome)
      → All (Sellable j.settlement deadline orders) os
      → All (Grouped orders) groups
      → build j deadline auction os groups quotes ≡ ok out
      → Publishes (AllPaid orders) out
  unfolding build
  build-Paid auction os groups (err e) out l b h =
      subst (Publishes (AllPaid orders)) (ok-injective h) tt
  build-Paid auction os groups (ok quotes) out l b h =
      let (d, grouped, h₁) =
        >>=-eq-ok (settle_groups j.settlement deadline quotes empty_draft groups) _ h in
      let best = select_best_quote_per_order (individual_quotes quotes) none in
      let unfilled = filter (λ o. not (text_mem o.uid d.filled)) os in
      let (d', singled, h₂) =
        >>=-eq-ok (settle_singles j.settlement deadline best d unfilled) _ h₁ in
      publish-Publishes (AllPaid orders) auction d'.trades d'.prices d'.interactions out
        (settle_singles-Good j.settlement deadline orders best d d' unfilled
          (All-filter (Sellable j.settlement deadline orders) _ os l) singled
          (settle_groups-Good j.settlement deadline orders quotes empty_draft d groups b grouped
            tt))
        h₂

solve_orders-Paid :
    (j : JointClearing) (now : ℕ) (orders : List Order) (auction : Auction) (os : List Order)
    (out : Outcome)
    → All (Sellable j.settlement (now + 60) orders) os
    → solve_orders j now auction os ≡ ok out
    → Publishes (AllPaid orders) out
unfolding solve_orders joint_pairs
solve_orders-Paid j now orders auction [] out l h =
    subst (Publishes (AllPaid orders)) (ok-injective h) tt
solve_orders-Paid j now orders auction (o ∷ os) out l h =
    elim (Bool-cases (
      length (
        build_v3_candidate_paths j.intermediates (o ∷ os)
        ++ build_group_paths j.intermediates groups)
      == 0)) [
        | inl nothing ↦ subst (Publishes (AllPaid orders)) (ok-injective (rw (nothing) at h)) tt
        | inr paths ↦
            build-Paid j (now + 60) orders auction (o ∷ os) groups _ out l
              (All-filter (Grouped orders) _ _ (
                group_orders-Grouped orders (o ∷ os) []
                  (All-impl (Sellable j.settlement (now + 60) orders) (Listed orders) (λ x m. m.0)
                    (o ∷ os) l)
                  tt))
              (rw paths at h)
      ]
  where
    groups : List Group
    groups = joint_pairs j.min_group_size (group_orders [] (o ∷ os))

-- If every order of the auction sells a positive amount and its two tokens differ when
-- lower-cased, each trade that `JointClearingSolver.solve` publishes belongs to an order of the
-- auction, sells its whole amount, and at published prices of its two tokens (under their own or
-- their lower-cased text) pays at least the order's limit, rounded up.
pub solve-Paid :
    (j : JointClearing) (now : ℕ) (auction : Auction) (out : Outcome)
    → All (λ o. (lower o.sell_token ≢ lower o.buy_token) × (0 < o.sell_amount)) auction.orders
    → solve j now auction ≡ ok out
    → Publishes (AllPaid auction.orders) out
unfolding solve rank
solve-Paid j now auction out sound h = by_id auction.id refl
  where
    by_id : (i : Option _) → auction.id ≡ i → Publishes (AllPaid auction.orders) out
    by_id none e = absurd (err-ne-ok (rw (e, solve) at h))
    by_id (some i) e =
        let (kept, ghosts, solved) =
          >>=-eq-ok (without_ghosts j.is_ghost auction.orders) _ (rw (e, solve) at h) in
        let P = Sellable j.settlement (now + 60) auction.orders in
        let start = All-of_In P auction.orders (λ o m.
          let fact =
            All-In (λ o. (lower o.sell_token ≢ lower o.buy_token) × (0 < o.sell_amount)) o
              auction.orders sound m in
          ((m, fact.0), fact.1)) in
        let kept_all = without_ghosts-All P j.is_ghost auction.orders kept ghosts start in
        let ranked = sorted_desc-All (λ o. expected_surplus_sort_key o auction) P kept kept_all in
        solve_orders-Paid j now auction.orders auction _ out
          (All-take P j.max_orders (rank auction kept) ranked) solved
