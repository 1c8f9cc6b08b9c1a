-- ===== src/Solver/Ebbo/Accounts.antt =====
-- About the loop of src/solver/ebbo.py and its result.
use cow_solver_skeleton.Prelude.{
  ℕ, suc, ◌+◌, ◌-◌, ◌*◌, ◌/◌, ◌≤◌, ◌≡◌, refl, sym, ◌∙◌, ◌<◌, In, All-In, ltb_false→le, true, Option,
  none, some, List, [], ◌∷◌, ◌++◌, All, length, ltb, ceil_div, arith, Bool-cases, inl, inr, ok,
  String, false-ne-true,
}
use cow_solver_skeleton.Dict.{Dict, get}
use cow_solver_skeleton.Model.{sell, buy, Order, Auction, Trade, Solution}
use cow_solver_skeleton.Solver.OrderValidity.{index_by_uid}
use cow_solver_skeleton.Solver.Ebbo.{
  Market, Tally, check_sell, check_buy, check_priced, check_trade, check_trades,
  validate_solution_ebbo, report, is_empty, blank_tally, falls_short, overpays, positive_quote,
  nonzero, max_trades_per_check,
}

append_nil : (xs : List String) → xs ++ [] ≡ xs
append_nil [] = refl
append_nil (x ∷ xs) = rw (append_nil xs)

append_is_nil : (xs ys : List String) → xs ++ ys ≡ [] → (xs ≡ []) × (ys ≡ [])
append_is_nil [] ys h = (refl, h)
append_is_nil (x ∷ xs) ys h = cc

module _ (m : Market) (tolerance_bps : ℕ) (prices : Dict ℕ) where
  check_trade_count :
      (trade : Trade) (o : Option Order) (t : Tally)
      → (let t' = check_trade m tolerance_bps prices trade o t in
          t'.n_checked + t'.n_skipped ≡ suc (t.n_checked + t.n_skipped))
  unfolding check_trade check_priced check_sell check_buy
  check_trade_count trade none t = omega arith
  check_trade_count trade (some o) t = ground arith

  -- The loop of the EBBO check counts every trade once, as checked or as skipped.
  pub check_trades_count :
      (uid_to_order : Dict Order) (trades : List Trade) (t : Tally)
      → (let t' = check_trades m tolerance_bps prices uid_to_order trades t in
          t'.n_checked + t'.n_skipped ≡ length trades + (t.n_checked + t.n_skipped))
  unfolding check_trades
  check_trades_count u [] t = omega arith
  check_trades_count u (trade ∷ trades) t = omega (
    arith,
    check_trades_count u trades
        (check_trade m tolerance_bps prices trade (get u trade.order_uid) t),
    check_trade_count trade (get u trade.order_uid) t,
  )

  check_trade_violations :
      (trade : Trade) (o : Option Order) (t : Tally)
      → (check_trade m tolerance_bps prices trade o t).violations
        ≡ t.violations ++ (check_trade m tolerance_bps prices trade o blank_tally).violations
  unfolding check_trade check_priced check_sell check_buy
  check_trade_violations trade none t = ground (arith, append_nil t.violations)
  check_trade_violations trade (some o) t = ground (arith, append_nil t.violations)

  check_trades_clean :
      (uid_to_order : Dict Order) (trades : List Trade) (t : Tally)
      → (check_trades m tolerance_bps prices uid_to_order trades t).violations ≡ []
      → (t.violations ≡ [])
        × All
            (λ trade.
              (check_trade m tolerance_bps prices trade
                (get uid_to_order trade.order_uid)
                blank_tally).violations
              ≡ [])
            trades
  unfolding check_trades
  check_trades_clean u [] t h = (h, tt)
  check_trades_clean u (trade ∷ trades) t h =
      let o = get u trade.order_uid in
      let rest = check_trades_clean u trades (check_trade m tolerance_bps prices trade o t) h in
      let parts = append_is_nil t.violations _ (sym (check_trade_violations trade o t) ∙ rest.0) in
      (parts.0, (parts.1, rest.1))

is_empty-nil : (vs : List String) → is_empty vs ≡ true → vs ≡ []
is_empty-nil [] h = refl
is_empty-nil (v ∷ vs) h = absurd (false-ne-true h)

module _ (m : Market) (tolerance_bps : ℕ) (sol : Solution) (auction : Auction) where
  passes-clean :
      (validate_solution_ebbo m tolerance_bps sol auction).passes ≡ true
      → (length sol.trades ≤ max_trades_per_check)
        × All
            (λ trade.
              (check_trade m tolerance_bps sol.prices trade
                (get (index_by_uid [] auction.orders) trade.order_uid)
                blank_tally).violations
              ≡ [])
            sol.trades
  unfolding validate_solution_ebbo report
  passes-clean h = elim (Bool-cases (ltb max_trades_per_check (length sol.trades))) [
    | inl many ↦ absurd (false-ne-true (rw (many, validate_solution_ebbo) at h))
    | inr few ↦ (
      ltb_false→le _ _ few,
      (check_trades_clean m tolerance_bps sol.prices (index_by_uid [] auction.orders) sol.trades
          blank_tally (is_empty-nil _ (rw (few, validate_solution_ebbo) at h))).1,
    )
  ]

  module _ (passed : (validate_solution_ebbo m tolerance_bps sol auction).passes ≡ true)
      (trade : Trade) (o : Order) (cp_sell cp_buy ext : ℕ) (traded : In trade sol.trades)
      (known : get (index_by_uid [] auction.orders) trade.order_uid ≡ some o)
      (sell_price : get sol.prices o.sell_token ≡ some cp_sell)
      (buy_price : get sol.prices o.buy_token ≡ some cp_buy) (priced_sell : 0 < cp_sell)
      (priced_buy : 0 < cp_buy) (quoted : 0 < ext) where
    clean : (check_trade m tolerance_bps sol.prices trade (some o) blank_tally).violations ≡ []
    clean = rw known at (
        All-In
          (λ trade.
            (check_trade m tolerance_bps sol.prices trade
              (get (index_by_uid [] auction.orders) trade.order_uid) blank_tally).violations
            ≡ [])
          trade sol.trades (passes-clean passed).1 traded)

    -- If a solution passes the EBBO check, a sale of it whose order is known, whose two prices are
    -- positive and whose external quote is positive receives at least the quote less the
    -- tolerance, rounded down.
    pub validate-sale :
        o.kind ≡ sell
        → m.best_exact_input o.sell_token o.buy_token trade.executed_amount ≡ ok (some ext)
        → ext * (10_000 - tolerance_bps) / 10_000
          ≤ ceil_div (trade.executed_amount * cp_sell) cp_buy
    unfolding check_trade check_priced check_sell falls_short positive_quote nonzero
    validate-sale k q = ground (arith, clean)

    -- If a solution passes the EBBO check, a purchase of it whose order is known, whose two prices
    -- are positive and whose external quote is positive pays at most the quote and the tolerance,
    -- rounded down.
    pub validate-purchase :
        o.kind ≡ buy
        → m.best_exact_output o.sell_token o.buy_token trade.executed_amount ≡ ok (some ext)
        → trade.executed_amount * cp_buy / cp_sell ≤ ext * (10_000 + tolerance_bps) / 10_000
    unfolding check_trade check_priced check_buy overpays positive_quote nonzero
    validate-purchase k q = ground (arith, clean)
