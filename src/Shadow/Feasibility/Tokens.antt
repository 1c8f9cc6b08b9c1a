-- ===== src/Shadow/Feasibility/Tokens.antt =====
-- About the rows of `settle_trades`: the tokens, prices and amounts that each of them names.
use cow_solver_skeleton.Prelude.{
  ℕ, String, ◌≡◌, ◌⊎◌, refl, sym, ap, subst, Option, some, some-injective, List, [], ◌∷◌, lower,
  ◌=ₛ◌, inl, inr, Bool-cases, Option-cases, none-ne-some, get_elem?, get_elem?-map, ok, ◌>>=◌,
  >>=-eq-ok, ok-injective,
}
use text.Mathlib.TextEquality.{eq_iff}
use cow_solver_skeleton.Dict.{Dict, get}
use cow_solver_skeleton.Encoder.Settle.{SettleTrade}
use cow_solver_skeleton.Shadow.Feasibility.Orders.{
  RawOrder, or_else, to_int, app_data_bytes, sig_bytes, zero_address, Cache, Orderbook, cached,
}
use cow_solver_skeleton.Shadow.Feasibility.Rows.{
  RawTrade, Step, known, price_under, index_of, make_row, flags_of, build_row, settle_trade, row_of,
  uid_of, settle_trades,
}
use cow_solver_skeleton.Shadow.Feasibility.{clearing_prices_of}
use cow_solver_skeleton.Shadow.Feasibility.Cached.{
  Traces, Traces-trans, settle_trades-First, unknown-ne-known,
}

index_of-get_elem? :
    (tokens : List String) (tok : String) (i : ℕ)
    → index_of tokens tok ≡ some i
    → get_elem? tokens i ≡ some tok
unfolding index_of
index_of-get_elem? [] tok i h = absurd (none-ne-some h)
index_of-get_elem? (t ∷ tokens) tok i h = elim (Bool-cases (t =ₛ tok)) [
  | inl e ↦
      subst (λ n. get_elem? (t ∷ tokens) n ≡ some tok) (some-injective (rw (e, index_of) at h))
        (ap some ((eq_iff t tok).0 e))
  | inr e ↦ elim (Option-cases (index_of tokens tok)) [
    | inl f ↦ absurd (none-ne-some (rw (e, f, index_of) at h))
    | inr (j, f) ↦
        subst (λ n. get_elem? (t ∷ tokens) n ≡ some tok) (some-injective (rw (e, f, index_of) at h))
          (index_of-get_elem? tokens tok j f)
  ]
]

-- The row of `order` for the trade `t`.
pub record RowFor (tokens : List String) (order : RawOrder) (t : RawTrade) (row : SettleTrade)
    : Type 0 where
  pub sells : get_elem? tokens row.sell_token_index ≡ some (lower (or_else order.sell_token ""))
  pub buys : get_elem? tokens row.buy_token_index ≡ some (lower (or_else order.buy_token ""))
  pub pays : row.receiver ≡ or_else order.receiver zero_address
  pub signed :
      (row.sell_amount ≡ to_int order.sell_amount) × (row.buy_amount ≡ to_int order.buy_amount)
  pub executes : row.executed_amount ≡ to_int t.executed_amount
  pub packs : flags_of order ≡ ok row.flags
  pub proves : sig_bytes order ≡ ok row.signature

known-injective : {a b : SettleTrade} → Path (Step SettleTrade) (known a) (known b) → a ≡ b
known-injective h = cc

build_row-RowFor :
    (tokens : List String) (order : RawOrder) (t : RawTrade) (i j : ℕ) (row : SettleTrade)
    → get_elem? tokens i ≡ some (lower (or_else order.sell_token ""))
    → get_elem? tokens j ≡ some (lower (or_else order.buy_token ""))
    → build_row order t i j ≡ ok (known row)
    → RowFor tokens order t row
unfolding build_row
build_row-RowFor tokens order t i j row sells buys h =
    let (flags, packed, rest) =
      >>=-eq-ok (flags_of order)
        (λ flags. app_data_bytes order >>= λ app_data. sig_bytes order >>= λ signature.
          ok (known (make_row order t i j flags app_data signature)))
        h in
    let (app_data, padded, rest2) =
      >>=-eq-ok (app_data_bytes order)
        (λ app_data. sig_bytes order >>= λ signature.
          ok (known (make_row order t i j flags app_data signature)))
        rest in
    let (signature, signed, built) =
      >>=-eq-ok (sig_bytes order)
        (λ signature. ok (known (make_row order t i j flags app_data signature))) rest2 in
    subst (RowFor tokens order t) (known-injective (ok-injective built)) (record {
      sells = sells;
      buys = buys;
      pays = refl;
      signed = (refl, refl);
      executes = refl;
      packs = packed;
      proves = signed;
    })

settle_trade-RowFor :
    (tokens : List String) (uid : String) (order : RawOrder) (t : RawTrade) (row : SettleTrade)
    → settle_trade tokens uid order t ≡ ok (known row)
    → RowFor tokens order t row
unfolding settle_trade
settle_trade-RowFor tokens uid order t row h =
    let sell = lower (or_else order.sell_token "") in
    let buy = lower (or_else order.buy_token "") in
    elim (Option-cases (index_of tokens sell)) [
      | inl e ↦ absurd (unknown-ne-known (ok-injective (rw (e, settle_trade) at h)))
      | inr (i, e) ↦ elim (Option-cases (index_of tokens buy)) [
        | inl f ↦ absurd (unknown-ne-known (ok-injective (rw (e, f, settle_trade) at h)))
        | inr (j, f) ↦
            build_row-RowFor tokens order t i j row (index_of-get_elem? tokens sell i e)
              (index_of-get_elem? tokens buy j f) (rw (e, f, settle_trade) at h)
      ]
    ]

-- The order that the cache holds under the lower-cased uid, or that the orderbook answers for a
-- spelling of the uid.
abbrev pub OrderOf : Orderbook → Cache → String → RawOrder → Type 0
OrderOf api c uid order =
    (get c (lower uid) ≡ some order)
    ⊎ ((spelling : String) × (lower spelling ≡ lower uid) × (api spelling ≡ ok (some order)))

-- Every row is that of its trade, for the order of the trade's uid.
pub RowsFor : Orderbook → Cache → List String → List RawTrade → List SettleTrade → Type 0
RowsFor api c tokens [] [] = Unit
RowsFor api c tokens [] (row ∷ rows) = ⊥
RowsFor api c tokens (t ∷ ts) [] = ⊥
RowsFor api c tokens (t ∷ ts) (row ∷ rows) =
    ((order : RawOrder) × OrderOf api c (lower (or_else t.order "")) order
      × RowFor tokens order t row)
    × RowsFor api c tokens ts rows

module _ (api : Orderbook) (tokens : List String) (start : Cache) where
  rows-RowsFor :
      (ts : List RawTrade) (c d : Cache) (rows : List SettleTrade)
      → Traces api start c
      → settle_trades api tokens c ts ≡ (d, ok (known rows))
      → RowsFor api start tokens ts rows
  unfolding settle_trades RowsFor row_of uid_of cached
  rows-RowsFor [] c d [] traced h = tt
  rows-RowsFor [] c d (row ∷ rows) traced h = cc
  rows-RowsFor (t ∷ ts) c d rows traced h =
      let f = settle_trades-First tokens api c d t ts rows h in
      let onwards = Traces-trans api start c f.between traced f.traced in
      subst (RowsFor api start tokens (t ∷ ts)) (sym f.listed) (
        (
          f.order,
          onwards (lower (uid_of t)) f.order (f.found.holds f.order refl),
          settle_trade-RowFor tokens (uid_of t) f.order t f.row f.rowed,
        ),
        rows-RowsFor ts f.between d f.others onwards f.behind,
      )

-- Each row that `validate_solution` settles belongs to its trade in order, and is the row of an
-- order that the cache holds under the lower-cased uid of the trade or that the orderbook answers
-- for a spelling of that uid: its indices point at the lower-cased tokens of the order in the list
-- of tokens, its receiver, amounts, flags and signature are the order's, and its executed amount
-- is the trade's.
pub settle_trades-RowsFor :
    (api : Orderbook) (tokens : List String) (ts : List RawTrade) (c d : Cache)
    (rows : List SettleTrade)
    → settle_trades api tokens c ts ≡ (d, ok (known rows))
    → RowsFor api c tokens ts rows
settle_trades-RowsFor api tokens ts c d rows h =
    rows-RowsFor api tokens c ts c d rows (λ k o e. inl e) h

-- The price at the index of a token is the price of that token.
pub clearing_prices_of-index :
    (prices : Dict (Option String)) (tokens : List String) (tok : String) (i : ℕ)
    → index_of tokens tok ≡ some i
    → get_elem? (clearing_prices_of prices tokens) i ≡ some (to_int (price_under prices tok))
unfolding clearing_prices_of
clearing_prices_of-index prices tokens tok i h =
    get_elem?-map (λ t. to_int (price_under prices t)) tokens i tok
      (index_of-get_elem? tokens tok i h)
