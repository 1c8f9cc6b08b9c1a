-- ===== src/Shadow/Scoring/Routed.antt =====
-- About the validity pass of src/shadow/scoring.py on the solutions of src/solver/router.py.
use text.Mathlib.TextEquality.{eq_iff}
use cow_solver_skeleton.Prelude.{
  ℕ, ==_iff, ◌+◌, ◌*◌, ◌≤◌, ◌<◌, ◌≡◌, ◌≢◌, ◌⊎◌, inl, inr, refl, ap, ◌∙◌, subst, String, lower, Bool,
  true, false, ◌&&◌, ◌=ₛ◌, ◌==◌, some, List, [], ◌∷◌, map, In, All, All-impl, All-In, Option,
  none-ne-some, some-injective, Bool-cases, ok, ceil_div, ceil_div-le, arith,
}
use cow_solver_skeleton.Dict.{Dict, get, put, get-put, get-put_self}
use cow_solver_skeleton.Model.{buy, Order, Auction, Trade, Solution, solution}
use cow_solver_skeleton.Solver.Router.Batched.{Router, solve}
use cow_solver_skeleton.Solver.Router.Batched.Settles.{solve-Settled}
use cow_solver_skeleton.Solver.Router.Draft.Settled.{Settled, Clears}
use cow_solver_skeleton.Shadow.Scoring.{signed, lower_prices, price_at, voids}
use cow_solver_skeleton.Shadow.Scoring.Validity.{price_at_known}
use cow_solver_skeleton.Shadow.Scoring.Execution.{whole_fill-keeps_limit, sale-shortfall}

-- No two keys differ only in their case.
unfoldable pub DistinctKeys : Dict ℕ → Type 0
DistinctKeys [] = Unit
DistinctKeys ((k, p) ∷ d) = All (λ e. lower e.0 ≢ lower k) d × DistinctKeys d

abbrev written : Dict ℕ → Dict (Option ℕ)
written = map (λ e. (e.0, some e.1))

-- The prices of a solution, as the score reads them.
abbrev pub scored_prices : Solution → Dict ℕ
scored_prices sol = lower_prices [] (written sol.prices)

lower_prices-other :
    (acc d : Dict ℕ) (key : String)
    → All (λ e. lower e.0 ≢ key) d
    → get (lower_prices acc (written d)) key ≡ get acc key
unfolding lower_prices
lower_prices-other acc [] key a = refl
lower_prices-other acc ((k, p) ∷ d) key a =
    lower_prices-other (put acc (lower k) p) d key a.1 ∙ kept
  where
    differs : (lower k =ₛ key) ≡ false
    differs = elim (Bool-cases (lower k =ₛ key)) [
      | inl e ↦ absurd (a.0 ((eq_iff (lower k) key).0 e))
      | inr e ↦ e
    ]

    kept : get (put acc (lower k) p) key ≡ get acc key
    kept = ground (arith, get-put acc (lower k) key p, differs)

lower_prices-get :
    (acc d : Dict ℕ) (tok : String) (p : ℕ)
    → DistinctKeys d
    → get d tok ≡ some p
    → get (lower_prices acc (written d)) (lower tok) ≡ some p
unfolding lower_prices DistinctKeys get
lower_prices-get acc [] tok p u h = absurd (none-ne-some h)
lower_prices-get acc ((k, q) ∷ d) tok p u h = elim (Bool-cases (k =ₛ tok)) [
  | inl e ↦
      subst (λ x. get (lower_prices (put acc (lower k) q) (written d)) (lower x) ≡ some p)
        ((eq_iff k tok).0 e)
        (lower_prices-other (put acc (lower k) q) d (lower k) u.0
          ∙ get-put_self acc (lower k) q
          ∙ ap some (some-injective (rw e at h)))
  | inr e ↦ lower_prices-get (put acc (lower k) q) d tok p u.1 (rw e at h)
]

positive : (n : ℕ) → (n == 0) ≡ false → 0 < n
positive n h = ground arith

zero_limit : (b s m : ℕ) → 0 < s → ceil_div (0 * b) s ≤ m + 1
zero_limit b s m pos = omega (arith, ceil_div-le (0 * b) s 0 pos (omega arith))

module _ (orders : List Order) (sol : Solution) where
  -- The trade does not void the score, as an order of the list.
  pub record Valid (t : Trade) : Type 0 where
    pub order : Order
    pub listed : In order orders
    pub uid : t.order_uid ≡ order.uid
    pub valid : voids (scored_prices sol) t.executed_amount (some (signed order)) ≡ false

  -- The trade is a purchase, or pays at most one unit less than the limit, rounded up.
  pub record Short (t : Trade) : Type 0 where
    pub order : Order
    pub listed : In order orders
    pub uid : t.order_uid ≡ order.uid
    pub pays :
        (order.kind ≡ buy)
        ⊎ (ceil_div (t.executed_amount * order.buy_amount) order.sell_amount
            ≤ ceil_div
                (t.executed_amount * price_at (scored_prices sol) order.sell_token)
                (price_at (scored_prices sol) order.buy_token)
              + 1)

module _ (orders : List Order) (sol : Solution) (unique : DistinctKeys sol.prices) where
  module _ (t : Trade) (s : Settled orders sol.prices t) where
    sell_at : price_at (scored_prices sol) s.order.sell_token ≡ s.executed_buy
    sell_at =
        price_at_known (scored_prices sol) s.order.sell_token s.executed_buy
          (lower_prices-get [] sol.prices s.order.sell_token s.executed_buy unique s.sell_price)

    buy_at : price_at (scored_prices sol) s.order.buy_token ≡ s.executed_sell
    buy_at =
        price_at_known (scored_prices sol) s.order.buy_token s.executed_sell
          (lower_prices-get [] sol.prices s.order.buy_token s.executed_sell unique s.buy_price)

  and_false : (b c : Bool) → c ≡ false → (b && c) ≡ false
  and_false true c h = h
  and_false false c h = refl

  Settled-Valid :
      (t : Trade)
      → All (λ o. (0 < o.sell_amount) × (0 < o.buy_amount) × (o.partially_fillable ≡ false)) orders
      → Settled orders sol.prices t
      → Valid orders sol t
  unfolding voids
  Settled-Valid t whole s =
      let (some_sell, some_buy, full) =
        All-In (λ o. (0 < o.sell_amount) × (0 < o.buy_amount) × (o.partially_fillable ≡ false))
          s.order orders whole s.listed in
      record {
        order = s.order;
        listed = s.listed;
        uid = s.uid;
        valid =
            rw (sell_at t s, buy_at t s)
              (and_false _ _ (
                whole_fill-keeps_limit s.order t.executed_amount s.executed_sell s.executed_buy
                  some_sell some_buy full s.clears));
      }

  Settled-Short :
      (t : Trade)
      → All (λ o. 0 < o.sell_amount) orders
      → Settled orders sol.prices t
      → Short orders sol t
  Settled-Short t sells s = record {
    order = s.order;
    listed = s.listed;
    uid = s.uid;
    pays = rw (sell_at t s, buy_at t s) (by_kind s.clears);
  }
    where
      nothing_sold :
          (n m : ℕ) → n ≡ 0 → ceil_div (n * s.order.buy_amount) s.order.sell_amount ≤ m + 1
      nothing_sold n m e = rw e (
          zero_limit s.order.buy_amount s.order.sell_amount m
            (All-In (λ o. 0 < o.sell_amount) s.order orders sells s.listed))

      by_kind :
          Clears s.order t.executed_amount s.executed_sell s.executed_buy
          → (s.order.kind ≡ buy)
            ⊎ (ceil_div (t.executed_amount * s.order.buy_amount) s.order.sell_amount
                ≤ ceil_div (t.executed_amount * s.executed_buy) s.executed_sell + 1)
      by_kind (inr h) = inl h.0
      by_kind (inl h) = elim (Bool-cases (s.executed_sell == 0)) [
        | inl none_sold ↦
            inr (nothing_sold t.executed_amount _ (h.1 ∙ (==_iff s.executed_sell 0).0 none_sold))
        | inr some_sold ↦ inr (
            sale-shortfall s.order t.executed_amount s.executed_sell s.executed_buy
              (All-In (λ o. 0 < o.sell_amount) s.order orders sells s.listed)
              (positive s.executed_sell some_sold) h.0 s.clears)
      ]

-- If every order of the auction trades two different tokens, has positive amounts and must be
-- filled whole, and no two price keys of a solution that `RouterSolver.solve` returns differ only
-- in their case, each trade of it belongs to an order of the auction and does not void the score
-- as a trade of that order, at the solution's own prices as the score reads them.
pub solve-Valid :
    (r : Router) (now : ℕ) (auction : Auction) (sol : Solution)
    → All (λ o. o.sell_token ≢ o.buy_token) auction.orders
    → All
        (λ o. (0 < o.sell_amount) × (0 < o.buy_amount) × (o.partially_fillable ≡ false))
        auction.orders
    → DistinctKeys sol.prices
    → solve r now auction ≡ ok (solution sol)
    → All (Valid auction.orders sol) sol.trades
solve-Valid r now auction sol distinct whole unique h =
    All-impl (Settled auction.orders sol.prices) (Valid auction.orders sol)
      (λ t s. Settled-Valid auction.orders sol unique t whole s) sol.trades
      (solve-Settled r now auction (solution sol) distinct h)

-- If every order of the auction trades two different tokens and sells a positive amount, and no
-- two price keys of a solution that `RouterSolver.solve` returns differ only in their case, each
-- trade of it belongs to an order of the auction, and is a purchase or pays, at the prices that
-- the score reads, at most one unit less than the order's limit, rounded up.
pub solve-Short :
    (r : Router) (now : ℕ) (auction : Auction) (sol : Solution)
    → All (λ o. o.sell_token ≢ o.buy_token) auction.orders
    → All (λ o. 0 < o.sell_amount) auction.orders
    → DistinctKeys sol.prices
    → solve r now auction ≡ ok (solution sol)
    → All (Short auction.orders sol) sol.trades
solve-Short r now auction sol distinct sells unique h =
    All-impl (Settled auction.orders sol.prices) (Short auction.orders sol)
      (λ t s. Settled-Short auction.orders sol unique t sells s) sol.trades
      (solve-Settled r now auction (solution sol) distinct h)
