-- ===== src/Solver/PriceRefiner/Returns.antt =====
-- About the divisions of `refine_solution_prices`.
use cow_solver_skeleton.Prelude.{
  ℕ, ◌<◌, String, ◌≡◌, refl, ap, ◌∙◌, subst, Option, none, some, some-injective, none-ne-some, List,
  [], ◌∷◌, ◌=ₛ◌, ◌==◌, ltb, ◌*◌, ◌/◌, if◌then◌else◌, Bool-cases, Option-cases, inl, inr, All,
  Result, ok, ◌>>=◌, arith,
}
use cow_solver_skeleton.Dict.{Dict, get, put, get-put}
use cow_solver_skeleton.Model.{Order, Auction, Trade, TradeKind, fulfillment, jit, Solution}
use cow_solver_skeleton.Solver.Naive.{Book, empty_book}
use cow_solver_skeleton.Solver.PriceRefiner.{
  orders_by_uid, Pair, pair_of, note_pair, note_order, note_trade, same_pair, positive_quote,
  pair_sell_amounts, PathQuote, real_prices, price_pair, priced, keep, keep_unquoted, keep_quoted,
  keep_order, refine_trade, refine_trades, rebuilt, refine_quoted, refine_solution_prices,
}

-- The call returns.
abbrev pub Returns : {A : Type 0} → Result A → Type 0
Returns {A} r = (a : A) × (r ≡ ok a)

-- Every known order sells something.
abbrev AllSell : Dict Order → Type 0
AllSell orders = (uid : String) (o : Order) → get orders uid ≡ some o → 0 < o.sell_amount

orders_by_uid-AllSell :
    (acc : Dict Order) (os : List Order)
    → AllSell acc
    → All (λ o. 0 < o.sell_amount) os
    → AllSell (orders_by_uid acc os)
unfolding orders_by_uid
orders_by_uid-AllSell acc [] h all = h
orders_by_uid-AllSell acc (o ∷ os) h all =
    orders_by_uid-AllSell (put acc o.uid o) os
      (λ uid x e. by_key uid x (rw (get-put acc o.uid uid o) at e)) all.1
  where
    by_key :
        (uid : String) (x : Order)
        → (if o.uid =ₛ uid then some o else get acc uid) ≡ some x
        → 0 < x.sell_amount
    by_key uid x e = elim (Bool-cases (o.uid =ₛ uid)) [
      | inl same ↦ subst (λ y. 0 < y.sell_amount) (some-injective (rw same at e)) all.0
      | inr other ↦ h uid x (rw other at e)
    ]

abbrev AllPositive : List (Pair × ℕ) → Type 0
AllPositive = All (λ p. 0 < p.1)

note_pair-AllPositive :
    (pair : Pair) (n : ℕ) (ps : List (Pair × ℕ))
    → 0 < n
    → AllPositive ps
    → AllPositive (note_pair pair n ps)
unfolding note_pair
note_pair-AllPositive pair n [] pos all = (pos, tt)
note_pair-AllPositive pair n ((p, most) ∷ ps) pos all =
    ground (arith, note_pair-AllPositive pair n ps pos all.1, all, pos)

note_order-AllPositive :
    (acc : List (Pair × ℕ)) (found : Option Order)
    → ((o : Order) → found ≡ some o → 0 < o.sell_amount)
    → AllPositive acc
    → AllPositive (note_order acc found)
unfolding note_order
note_order-AllPositive acc none sells all = all
note_order-AllPositive acc (some o) sells all =
    note_pair-AllPositive (pair_of o) o.sell_amount acc (sells o refl) all

on_kind :
    {A : Type 0} (P : A → Type 0) (k : TradeKind) (x y : A)
    → P x
    → P y
    → P (elim k [ jit ↦ x | fulfillment ↦ y ])
on_kind P jit x y hx hy = hx
on_kind P fulfillment x y hx hy = hy

pair_sell_amounts-AllPositive :
    (orders : Dict Order) (acc : List (Pair × ℕ)) (ts : List Trade)
    → AllSell orders
    → AllPositive acc
    → AllPositive (pair_sell_amounts orders acc ts)
unfolding pair_sell_amounts note_trade
pair_sell_amounts-AllPositive orders acc [] sells all = all
pair_sell_amounts-AllPositive orders acc (t ∷ ts) sells all =
    pair_sell_amounts-AllPositive orders (note_trade orders acc t) ts sells (
      on_kind AllPositive t.kind acc _ all
        (note_order-AllPositive acc (get orders t.order_uid) (sells t.order_uid) all))

-- Every quote divides by a positive amount.
abbrev Divides : List (Pair × (ℕ × ℕ)) → Type 0
Divides = All (λ q. 0 < q.1.1)

real_prices-Divides :
    (quote : PathQuote) (ps : List (Pair × ℕ)) → AllPositive ps → Divides (real_prices quote ps)
unfolding real_prices
real_prices-Divides quote [] all = tt
real_prices-Divides quote (((s, b), n) ∷ ps) all =
    by_quote (positive_quote (quote s b n)) (real_prices-Divides quote ps all.1)
  where
    by_quote :
        (found : Option ℕ)
        → Divides (real_prices quote ps)
        → Divides (elim found [
          | none ↦ real_prices quote ps
          | some out ↦ ((s, b), (out, n)) ∷ real_prices quote ps
        ])
    by_quote none rest = rest
    by_quote (some out) rest = (all.0, rest)

price_pair-positive :
    (quotes : List (Pair × (ℕ × ℕ))) (pair : Pair) (s b : ℕ)
    → Divides quotes
    → price_pair quotes pair ≡ some (s, b)
    → 0 < b
unfolding price_pair
price_pair-positive [] pair s b all h = absurd (none-ne-some h)
price_pair-positive ((p, prices) ∷ quotes) pair s b all h = elim (Bool-cases (same_pair p pair)) [
  | inl e ↦ subst (λ q. 0 < q.1) (some-injective (rw e at h)) all.0
  | inr e ↦ price_pair-positive quotes pair s b all.1 (rw e at h)
]

module _ (auction : Auction) (orders : Dict Order) (quotes : List (Pair × (ℕ × ℕ)))
    (all : Divides quotes) where
  keep_quoted-Returns :
      (o : Order) (t : Trade) (s b : ℕ) (book : Book)
      → 0 < b
      → Returns (keep_quoted auction o t s b book)
  unfolding keep_quoted
  keep_quoted-Returns o t s b book pos = elim (Bool-cases (b == 0)) [
    | inl e ↦ absurd (ground (arith, e, pos))
    | inr e ↦ elim (Bool-cases (ltb (t.executed_amount * s / b) o.buy_amount)) [
      | inl f ↦ (book, rw (e, f, keep_quoted) refl)
      | inr f ↦ (keep t book (priced auction o book.prices), rw (e, f, keep_quoted) refl)
    ]
  ]

  keep_order-Returns :
      (found : Option Order) (t : Trade) (book : Book)
      → Returns (keep_order auction quotes found t book)
  unfolding keep_order
  keep_order-Returns none t book = (book, refl)
  keep_order-Returns (some o) t book = elim (Option-cases (price_pair quotes (pair_of o))) [
    | inl e ↦ (keep_unquoted auction o t book, rw (e, keep_order) refl)
    | inr ((s, b), e) ↦
        let (next, r) =
          keep_quoted-Returns o t s b book (price_pair-positive quotes (pair_of o) s b all e) in
        (next, rw (e, keep_order) r)
  ]

  refine_trades-Returns :
      (ts : List Trade) (book : Book) → Returns (refine_trades auction orders quotes ts book)
  unfolding refine_trades refine_trade
  refine_trades-Returns [] book = (book, refl)
  refine_trades-Returns (t ∷ ts) book =
      let (next, r) =
        on_kind Returns t.kind (ok (keep t book book.prices)) _ (_, refl)
          (keep_order-Returns (get orders t.order_uid) t book) in
      let (last, rest) = refine_trades-Returns ts next in
      (last, ap (λ x. x >>= λ next. refine_trades auction orders quotes ts next) r ∙ rest)

refine_quoted-Returns :
    (sol : Solution) (auction : Auction) (orders : Dict Order) (quotes : List (Pair × (ℕ × ℕ)))
    → Divides quotes
    → Returns (refine_quoted sol auction orders quotes)
unfolding refine_quoted
refine_quoted-Returns sol auction orders [] all = (sol, refl)
refine_quoted-Returns sol auction orders (q ∷ qs) all =
    let (book, r) = refine_trades-Returns auction orders (q ∷ qs) all sol.trades empty_book in
    (rebuilt sol book, ap (λ x. x >>= λ book. ok (rebuilt sol book)) r)

-- If every order of the auction sells a positive amount, the refinement returns a solution: no
-- division by zero ends it, whatever the quotes are.
pub refine_solution_prices-Returns :
    (quote : PathQuote) (sol : Solution) (auction : Auction)
    → All (λ o. 0 < o.sell_amount) auction.orders
    → Returns (refine_solution_prices quote sol auction)
unfolding refine_solution_prices get
refine_solution_prices-Returns quote sol auction sells =
    let orders = orders_by_uid [] auction.orders in
    refine_quoted-Returns sol auction orders
      (real_prices quote (pair_sell_amounts orders [] sol.trades))
      (real_prices-Divides quote (pair_sell_amounts orders [] sol.trades) (
        pair_sell_amounts-AllPositive orders [] sol.trades
          (orders_by_uid-AllSell [] auction.orders (λ uid o e. absurd (none-ne-some e)) sells) tt))
