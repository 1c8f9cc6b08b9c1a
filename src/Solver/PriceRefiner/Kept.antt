-- ===== src/Solver/PriceRefiner/Kept.antt =====
-- About the trades that `refine_solution_prices` keeps.
use cow_solver_skeleton.Prelude.{
  ℕ, ◌*◌, ◌/◌, ◌≤◌, ltb, ◌==◌, ltb_false→le, div-covers, ◌≡◌, ◌≢◌, ◌⊎◌, inl, inr, refl, sym, ap,
  ◌∙◌, subst, Option, none, some, some-injective, List, [], ◌∷◌, ◌++◌, Result, ok, >>=-eq-ok,
  ok-injective, err-ne-ok, Bool-cases, Option-cases, none-ne-some, All, All-append, All-of_In, In,
  arith,
}
use cow_solver_skeleton.Dict.{Dict, get}
use cow_solver_skeleton.Model.{Order, Auction, Trade, TradeKind, fulfillment, jit, Solution}
use cow_solver_skeleton.Solver.Naive.{Book, empty_book, reference_price}
use cow_solver_skeleton.Solver.PriceRefiner.{
  orders_by_uid, Pair, pair_of, pair_sell_amounts, PathQuote, real_prices, price_pair, keep,
  keep_unquoted, keep_quoted, keep_order, refine_trade, refine_trades, rebuilt, refine_quoted,
  refine_solution_prices,
}

module _ (auction : Auction) (orders : Dict Order) (quotes : List (Pair × (ℕ × ℕ))) where
  -- A trade that is kept although its order's pair was quoted meets the limit at the quote.
  abbrev pub MeetsQuote : Trade → Type 0
  MeetsQuote t =
      (o : Order) (cp_sell cp_buy : ℕ)
      → t.kind ≡ fulfillment
      → get orders t.order_uid ≡ some o
      → price_pair quotes (pair_of o) ≡ some (cp_sell, cp_buy)
      → o.buy_amount * cp_buy ≤ t.executed_amount * cp_sell

  -- What the loop has kept so far.
  abbrev pub Kept : List Trade → List Trade → Type 0
  Kept all = All (λ t. In t all × MeetsQuote t)

  jit-ne : Path TradeKind jit fulfillment → ⊥
  jit-ne h = cc

  -- A step leaves the trades, or adds its own.
  Steps : Trade → Book → Book → Type 0
  Steps t book next =
      (next.trades ≡ book.trades) ⊎ ((next.trades ≡ book.trades ++ t ∷ []) × MeetsQuote t)

  module _ (t : Trade) (book next : Book) where
    stays : Path (Result Book) (ok book) (ok next) → Steps t book next
    unfolding Steps
    stays h = inl (ap (λ b. b.trades) (sym (ok-injective h)))

    keeps : (prices : Dict ℕ) → MeetsQuote t → ok (keep t book prices) ≡ ok next → Steps t book next
    unfolding Steps
    keeps prices meets h = inr (ap (λ b. b.trades) (sym (ok-injective h)), meets)

    unquoted-Steps :
        (o : Order)
        → MeetsQuote t
        → ok (keep_unquoted auction o t book) ≡ ok next
        → Steps t book next
    unfolding keep_unquoted
    unquoted-Steps o meets h = elim (Option-cases (reference_price auction o.sell_token)) [
      | inl e ↦ stays (rw (e, keep_unquoted) at h)
      | inr (p, e) ↦ elim (Option-cases (reference_price auction o.buy_token)) [
        | inl f ↦ stays (rw (e, f, keep_unquoted) at h)
        | inr (q, f) ↦ keeps _ meets (rw (e, f, keep_unquoted) at h)
      ]
    ]

    unquoted_meets :
        (o : Order)
        → get orders t.order_uid ≡ some o
        → price_pair quotes (pair_of o) ≡ none
        → MeetsQuote t
    unquoted_meets o known bare o' s b kind known' priced =
        let same = some-injective (sym known ∙ known') in
        absurd (
          none-ne-some (sym (subst (λ x. price_pair quotes (pair_of x) ≡ none) same bare) ∙ priced))

    meets_at :
        (o : Order) (cp_sell cp_buy : ℕ)
        → get orders t.order_uid ≡ some o
        → price_pair quotes (pair_of o) ≡ some (cp_sell, cp_buy)
        → o.buy_amount * cp_buy ≤ t.executed_amount * cp_sell
        → MeetsQuote t
    meets_at o cp_sell cp_buy known priced met o' s b kind known' priced' =
        let same = some-injective (sym known ∙ known') in
        let quoted =
          subst (λ x. price_pair quotes (pair_of x) ≡ some (cp_sell, cp_buy)) same priced in
        subst (λ p. o'.buy_amount * p.1 ≤ t.executed_amount * p.0)
          (some-injective (sym quoted ∙ priced'))
          (subst (λ x. x.buy_amount * cp_buy ≤ t.executed_amount * cp_sell) same met)

    quoted-Steps :
        (o : Order) (cp_sell cp_buy : ℕ)
        → get orders t.order_uid ≡ some o
        → price_pair quotes (pair_of o) ≡ some (cp_sell, cp_buy)
        → keep_quoted auction o t cp_sell cp_buy book ≡ ok next
        → Steps t book next
    unfolding keep_quoted
    quoted-Steps o cp_sell cp_buy known priced h = elim (Bool-cases (cp_buy == 0)) [
      | inl e ↦ absurd (err-ne-ok (rw (e, keep_quoted) at h))
      | inr e ↦ elim (Bool-cases (ltb (t.executed_amount * cp_sell / cp_buy) o.buy_amount)) [
        | inl low ↦ stays (rw (e, low, keep_quoted) at h)
        | inr high ↦
            let met =
              div-covers (t.executed_amount * cp_sell) o.buy_amount cp_buy (ground (arith, e))
                (ltb_false→le _ _ high) in
            keeps _ (meets_at o cp_sell cp_buy known priced met) (rw (e, high, keep_quoted) at h)
      ]
    ]

    order-Steps :
        (found : Option Order)
        → get orders t.order_uid ≡ found
        → keep_order auction quotes found t book ≡ ok next
        → Steps t book next
    unfolding keep_order
    order-Steps none known h = stays h
    order-Steps (some o) known h = elim (Option-cases (price_pair quotes (pair_of o))) [
      | inl e ↦ unquoted-Steps o (unquoted_meets o known e) (rw (e, keep_order) at h)
      | inr ((s, b), e) ↦ quoted-Steps o s b known e (rw (e, keep_order) at h)
    ]

    kind-Steps :
        (k : TradeKind)
        → t.kind ≡ k
        → elim k [
          | jit ↦ ok (keep t book book.prices)
          | fulfillment ↦ keep_order auction quotes (get orders t.order_uid) t book
        ]
          ≡ ok next
        → Steps t book next
    kind-Steps jit kind h =
        keeps book.prices (λ o s b k known priced. absurd (jit-ne (sym kind ∙ k))) h
    kind-Steps fulfillment kind h = order-Steps (get orders t.order_uid) refl h

    refine_trade-Steps : refine_trade auction orders quotes t book ≡ ok next → Steps t book next
    unfolding refine_trade
    refine_trade-Steps h = kind-Steps t.kind refl h

  refine_trades-Kept :
      (all ts : List Trade) (book last : Book)
      → All (λ t. In t all) ts
      → Kept all book.trades
      → refine_trades auction orders quotes ts book ≡ ok last
      → Kept all last.trades
  unfolding refine_trades Steps
  refine_trades-Kept all [] book last listed kept h =
      subst (λ b. Kept all b.trades) (ok-injective h) kept
  refine_trades-Kept all (t ∷ ts) book last listed kept h =
      let (next, stepped, rest) =
        >>=-eq-ok (refine_trade auction orders quotes t book)
          (λ next. refine_trades auction orders quotes ts next) h in
      refine_trades-Kept all ts next last listed.1
        (elim (refine_trade-Steps t book next stepped) [
          | inl same ↦ subst (Kept all) (sym same) kept
          | inr (added, meets) ↦ subst (Kept all) (sym added) (
              All-append (λ t. In t all × MeetsQuote t) book.trades (t ∷ []) kept
                ((listed.0, meets), tt))
        ])
        rest

  -- A solution of its own: another list of trades of `sol`, which is not empty.
  pub record Refines (sol better : Solution) : Type 0 where
    pub same_id : better.id ≡ sol.id
    pub same_interactions : better.interactions ≡ sol.interactions
    pub trades : better.trades ≢ []
    pub kept : Kept sol.trades better.trades

  cons-ne-nil : {t : Trade} {ts : List Trade} → Path (List Trade) (t ∷ ts) [] → ⊥
  cons-ne-nil h = cc

  rebuilt-Refines :
      (sol : Solution) (trades : List Trade) (prices : Dict ℕ)
      → Kept sol.trades trades
      → (rebuilt sol (record { trades = trades; prices = prices }) ≡ sol)
        ⊎ Refines sol (rebuilt sol (record { trades = trades; prices = prices }))
  unfolding rebuilt
  rebuilt-Refines sol [] prices kept = inl refl
  rebuilt-Refines sol (t ∷ ts) prices kept = inr (record {
    same_id = refl;
    same_interactions = refl;
    trades = λ e. cons-ne-nil e;
    kept = kept;
  })

refine_quoted-Refines :
    (auction : Auction) (orders : Dict Order) (quotes : List (Pair × (ℕ × ℕ)))
    (sol better : Solution)
    → refine_quoted sol auction orders quotes ≡ ok better
    → (better ≡ sol) ⊎ Refines auction orders quotes sol better
unfolding refine_quoted
refine_quoted-Refines auction orders [] sol better h = inl (sym (ok-injective h))
refine_quoted-Refines auction orders (q ∷ qs) sol better h =
    let (book, refined, same) =
      >>=-eq-ok (refine_trades auction orders (q ∷ qs) sol.trades empty_book)
        (λ book. ok (rebuilt sol book)) h in
    subst (λ s. (s ≡ sol) ⊎ Refines auction orders (q ∷ qs) sol s) (ok-injective same)
      (rebuilt-Refines auction orders (q ∷ qs) sol book.trades book.prices (
        refine_trades-Kept auction orders (q ∷ qs) sol.trades sol.trades empty_book book
          (All-of_In (λ t. In t sol.trades) sol.trades (λ t m. m)) tt refined))

-- A refined solution is the given one, or has its id and interactions and a nonempty selection of
-- its trades, each within its order's limit at the quote of its pair where the pair was quoted.
pub refine_solution_prices-Refines :
    (quote : PathQuote) (sol better : Solution) (auction : Auction)
    → refine_solution_prices quote sol auction ≡ ok better
    → (better ≡ sol)
      ⊎ Refines auction
          (orders_by_uid [] auction.orders)
          (real_prices quote (pair_sell_amounts (orders_by_uid [] auction.orders) [] sol.trades))
          sol
          better
unfolding refine_solution_prices
refine_solution_prices-Refines quote sol better auction h =
    refine_quoted-Refines auction (orders_by_uid [] auction.orders)
      (real_prices quote (pair_sell_amounts (orders_by_uid [] auction.orders) [] sol.trades)) sol
      better h
