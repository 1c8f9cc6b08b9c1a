-- ===== src/Solver/Naive/Settled.antt =====
-- About the trades of `NaiveSolver.solve` at the prices that it publishes.
use text.Mathlib.TextEquality.{eq_iff}
use cow_solver_skeleton.Prelude.{
  ◌==◌, ℕ, ◌*◌, ◌/◌, ◌≤◌, ◌<◌, String, ◌≡◌, inl, inr, refl, subst, Option, none, some, List, [],
  ◌∷◌, ltb, ltb_false→le, div-covers, if◌then◌else◌, ok, >>=-eq-ok, ok-injective, err-ne-ok,
  Bool-cases, Option-cases, none-ne-some, All, All-append, All-impl, All-of_In, In, arith,
}
use cow_solver_skeleton.Dict.{Dict, get, put, get-put, get-put_self}
use cow_solver_skeleton.Model.{Kind, sell, buy, Order, Token, Auction, Trade, fulfillment, Outcome}
use cow_solver_skeleton.Solver.Ranking.{positive_price}
use cow_solver_skeleton.Solver.Router.Batched.{publish}
use cow_solver_skeleton.Solver.Router.Batched.Settles.{Publishes, publish-Publishes}
use cow_solver_skeleton.Solver.Naive.{
  Book, empty_book, Refiner, refined, reference_price, fill_at, fill_priced, consider, fill_all,
  solve,
}

-- The trade is the whole of a sell order of the list, whose limit is met at the two prices.
pub record SoldAt (prices : Dict ℕ) (orders : List Order) (t : Trade) : Type 0 where
  pub order : Order
  pub sell_price : ℕ
  pub buy_price : ℕ
  pub listed : In order orders
  pub sells : order.kind ≡ sell
  pub trades :
      t ≡ record { kind = fulfillment; order_uid = order.uid; executed_amount = order.sell_amount }
  pub sell_priced : get prices order.sell_token ≡ some sell_price
  pub buy_priced : get prices order.buy_token ≡ some buy_price
  pub meets_limit : order.buy_amount * buy_price ≤ order.sell_amount * sell_price

module _ (ref : String → Option ℕ) where
  -- Every published price is the reference price.
  abbrev pub AtReference : Dict ℕ → Type 0
  AtReference prices = (token : String) (p : ℕ) → get prices token ≡ some p → ref token ≡ some p

  module _ (prices : Dict ℕ) (token : String) (p : ℕ) (known : ref token ≡ some p)
      (h : AtReference prices) where
    put-AtReference : AtReference (put prices token p)
    put-AtReference other q e =
        ground (arith, get-put prices token other p, eq_iff token other, h other q)

    -- A price that is known stays the same.
    put-priced :
        (other : String) (q : ℕ)
        → get prices other ≡ some q
        → get (put prices token p) other ≡ some q
    put-priced other q e =
        ground (arith, get-put prices token other p, eq_iff token other, h other q e)

set_price-positive :
    (r : Option ℕ) (p : ℕ)
    → elim r [ none ↦ none | some n ↦ if n == 0 then none else some n ] ≡ some p
    → 0 < p
set_price-positive none p h = absurd (none-ne-some h)
set_price-positive (some n) p h = ground arith

positive_price-positive : (o : Option Token) (p : ℕ) → positive_price o ≡ some p → 0 < p
unfolding positive_price
positive_price-positive none p h = absurd (none-ne-some h)
positive_price-positive (some t) p h = set_price-positive t.reference_price p h

reference_price-positive :
    (auction : Auction) (token : String) (p : ℕ) → reference_price auction token ≡ some p → 0 < p
unfolding reference_price
reference_price-positive auction token p h = positive_price-positive (get auction.tokens token) p h

module _ (auction : Auction) (orders : List Order) where
  record Good (book : Book) : Type 0 where
    at_reference : AtReference (reference_price auction) book.prices
    sold : All (SoldAt book.prices orders) book.trades

  module _ (order : Order) (p q : ℕ) (book : Book) (listed : In order orders)
      (sells : order.kind ≡ sell) (sell_known : reference_price auction order.sell_token ≡ some p)
      (buy_known : reference_price auction order.buy_token ≡ some q) (good : Good book) where
    after : Dict ℕ
    after = put (put book.prices order.sell_token p) order.buy_token q

    middle-at_reference : AtReference (reference_price auction) (put book.prices order.sell_token p)
    middle-at_reference =
        put-AtReference (reference_price auction) book.prices order.sell_token p sell_known
          good.at_reference

    after-priced :
        (token : String) (r : ℕ)
        → get (put book.prices order.sell_token p) token ≡ some r
        → get after token ≡ some r
    unfolding after
    after-priced =
        put-priced (reference_price auction) (put book.prices order.sell_token p) order.buy_token q
          buy_known middle-at_reference

    still-SoldAt : (t : Trade) → SoldAt book.prices orders t → SoldAt after orders t
    still-SoldAt t s = record {
      order = s.order;
      sell_price = s.sell_price;
      buy_price = s.buy_price;
      listed = s.listed;
      sells = s.sells;
      trades = s.trades;
      sell_priced = after-priced _ _ (
          put-priced (reference_price auction) book.prices order.sell_token p sell_known
            good.at_reference _ _ s.sell_priced);
      buy_priced = after-priced _ _ (
          put-priced (reference_price auction) book.prices order.sell_token p sell_known
            good.at_reference _ _ s.buy_priced);
      meets_limit = s.meets_limit;
    }

    fill_at-Good : Good (fill_at order p q book)
    unfolding fill_at after
    fill_at-Good = elim (Bool-cases (ltb (order.sell_amount * p / q) order.buy_amount)) [
      | inl low ↦ rw (low, fill_at) good
      | inr high ↦
          rw (high, fill_at)
            (record {
              at_reference =
                  put-AtReference (reference_price auction) _ order.buy_token q buy_known
                    middle-at_reference;
              sold =
                  All-append (SoldAt after orders) book.trades (_ ∷ [])
                    (All-impl (SoldAt book.prices orders) (SoldAt after orders) still-SoldAt
                      book.trades good.sold)
                    (
                      record {
                        order = order;
                        sell_price = p;
                        buy_price = q;
                        listed = listed;
                        sells = sells;
                        trades = refl;
                        sell_priced =
                            after-priced order.sell_token p
                              (get-put_self book.prices order.sell_token p);
                        buy_priced =
                            get-put_self (put book.prices order.sell_token p) order.buy_token q;
                        meets_limit =
                            div-covers (order.sell_amount * p) order.buy_amount q
                              (reference_price-positive auction order.buy_token q buy_known)
                              (ltb_false→le _ _ high);
                      },
                      tt,
                    );
            })
    ]

  fill_priced-Good :
      (order : Order) (a b : Option ℕ) (book : Book)
      → In order orders
      → order.kind ≡ sell
      → reference_price auction order.sell_token ≡ a
      → reference_price auction order.buy_token ≡ b
      → Good book
      → Good (fill_priced order a b book)
  unfolding fill_priced
  fill_priced-Good order none b book listed sells ha hb good = good
  fill_priced-Good order (some p) none book listed sells ha hb good = good
  fill_priced-Good order (some p) (some q) book listed sells ha hb good =
      fill_at-Good order p q book listed sells ha hb good

  on_kind :
      {A : Type 0} (Q : A → Type 0) (k : Kind) (x y : A)
      → Q x
      → (k ≡ sell → Q y)
      → Q (elim k [ buy ↦ x | sell ↦ y ])
  on_kind Q buy x y hx hy = hx
  on_kind Q sell x y hx hy = hy refl

  fill_all-Good :
      (os : List Order) (book : Book)
      → All (λ o. In o orders) os
      → Good book
      → Good (fill_all auction os book)
  unfolding fill_all consider
  fill_all-Good [] book listed good = good
  fill_all-Good (o ∷ os) book listed good = fill_all-Good os (consider auction o book) listed.1 (
      on_kind Good o.kind book _ good
        (λ sells. fill_priced-Good o _ _ book listed.0 sells refl refl good))

-- The trades are sales of orders of the auction, at reference prices.
abbrev pub Sold : Auction → Dict ℕ → List Trade → Type 0
Sold auction prices trades =
    All (SoldAt prices auction.orders) trades × AtReference (reference_price auction) prices

fill_all-Sold :
    (auction : Auction)
    → Sold auction
        (fill_all auction auction.orders empty_book).prices
        (fill_all auction auction.orders empty_book).trades
unfolding get
fill_all-Sold auction =
    let good =
      fill_all-Good auction auction.orders auction.orders empty_book
        (All-of_In (λ o. In o auction.orders) auction.orders (λ o m. m))
        (record { at_reference = λ token p h. absurd (none-ne-some h); sold = tt }) in
    (good.sold, good.at_reference)

module _ (refine : Option Refiner) (auction : Auction) (out : Outcome)
    (solved : solve refine auction ≡ ok out) where
  -- What is answered is the refinement of what is published.
  solve-inv :
      (published : Outcome) × Publishes (Sold auction) published
      × (refined refine auction published ≡ ok out)
  unfolding solve
  solve-inv = elim (Option-cases auction.id) [
    | inl e ↦ absurd (err-ne-ok (rw (e, solve) at solved))
    | inr (i, e) ↦
        let book = fill_all auction auction.orders empty_book in
        let (published, p, r) =
          >>=-eq-ok (publish auction book.trades book.prices []) (refined refine auction)
            (rw (e, solve) at solved) in
        (
          published,
          publish-Publishes (Sold auction) auction book.trades book.prices [] published
              (fill_all-Sold auction) p,
          r,
        )
  ]

-- Without a refiner, each trade that `NaiveSolver.solve` publishes sells the whole amount of a
-- sell order of the auction within its limit at the published prices, which are reference prices.
pub solve-Sold :
    (auction : Auction) (out : Outcome) → solve none auction ≡ ok out → Publishes (Sold auction) out
unfolding refined
solve-Sold auction out solved =
    let (published, sold, same) = solve-inv none auction out solved in
    subst (Publishes (Sold auction)) (ok-injective same) sold
