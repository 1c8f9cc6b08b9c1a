-- ===== src/Shadow/Feasibility/Rows.antt =====
-- The token table and the rows of the call in `validate_solution` of src/shadow/feasibility.py. The
-- keys `orderUid` and `order_uid` of old records are read like `order`.
use Prim.Native.Char.{code}
use Prim.Native.String.{◌++◌ as ◌++ₛ◌}
use cow_solver_skeleton.Prelude.{
  ℕ, suc, String, Bool, true, false, Option, none, some, List, [], ◌∷◌, lower, ltb, ◌&&◌, ◌==◌,
  ◌=ₛ◌, if◌then◌else◌, Result, ok, err, ◌>>=◌,
}
use cow_solver_skeleton.Dict.{Dict}
use cow_solver_skeleton.Encoder.Bytes.{Bytes}
use cow_solver_skeleton.Encoder.Settle.{SettleTrade, encode_trade_flags}
use cow_solver_skeleton.Shadow.Feasibility.Orders.{
  RawOrder, or_else, to_int, app_data_bytes, sig_bytes, zero_address, Orderbook, Cache,
  resolve_order,
}

-- The JSON object of a trade.
pub record RawTrade : Type 0 where
  pub kind : Option String
  pub order : Option String
  pub executed_amount : Option String

-- What a step of the validation ends with: a verdict UNKNOWN with its reason, or a value.
pub data Step (A : Type 0) : Type 0 where
  unknown : String → Step A
  known : A → Step A

-- `a <= b` on texts, by code points
text_leb : String → String → Bool
text_leb String.[] t = true
text_leb (String.◌∷◌ c s) String.[] = false
text_leb (String.◌∷◌ c s) (String.◌∷◌ d t) =
    let rest = text_leb s t in if ltb (code c) (code d) then true else (code c == code d) && rest

insert_key : String → List String → List String
unfolding text_leb
insert_key k [] = k ∷ []
insert_key k (j ∷ js) =
    let rest = insert_key k js in
    if k =ₛ j then j ∷ js else if text_leb k j then k ∷ j ∷ js else j ∷ rest

-- `sorted({k.lower() for k in prices})`
unfoldable pub sorted_tokens : Dict (Option String) → List String
unfolding insert_key lower
sorted_tokens [] = []
sorted_tokens ((k, p) ∷ prices) = insert_key (lower k) (sorted_tokens prices)

-- `prices[next(k for k in prices if k.lower() == tok)]`
unfoldable pub price_under : Dict (Option String) → String → Option String
unfolding lower
price_under [] tok = none
price_under ((k, p) ∷ prices) tok = if lower k =ₛ tok then p else price_under prices tok

-- `{tok: i for i, tok in enumerate(tokens)}.get(tok)` on distinct tokens
unfoldable pub index_of : List String → String → Option ℕ
index_of [] tok = none
index_of (t ∷ tokens) tok =
    if t =ₛ tok then some 0 else elim (index_of tokens tok) [ none ↦ none | some i ↦ some (suc i) ]

-- `SettleTrade(…)`
abbrev pub make_row : RawOrder → RawTrade → ℕ → ℕ → ℕ → Bytes → Bytes → SettleTrade
make_row order t sell_index buy_index flags app_data signature = record {
  sell_token_index = sell_index;
  buy_token_index = buy_index;
  receiver = or_else order.receiver zero_address;
  sell_amount = to_int order.sell_amount;
  buy_amount = to_int order.buy_amount;
  valid_to = to_int order.valid_to;
  app_data = app_data;
  fee_amount = to_int order.fee_amount;
  flags = flags;
  executed_amount = to_int t.executed_amount;
  signature = signature;
}

abbrev pub flags_of : RawOrder → Result ℕ
flags_of order =
    encode_trade_flags (or_else order.kind "sell") order.partially_fillable
      (or_else order.signing_scheme "eip712") "erc20" "erc20"

unfoldable pub build_row : RawOrder → RawTrade → ℕ → ℕ → Result (Step SettleTrade)
unfolding or_else to_int app_data_bytes sig_bytes
build_row order t sell_index buy_index = do
  flags ← flags_of order
  app_data ← app_data_bytes order
  signature ← sig_bytes order
  ok (known (make_row order t sell_index buy_index flags app_data signature))

-- The row of an order that is traded.
unfoldable pub settle_trade : List String → String → RawOrder → RawTrade → Result (Step SettleTrade)
unfolding lower or_else build_row
settle_trade tokens uid order t = elim (index_of tokens (lower (or_else order.sell_token ""))) [
  | none ↦ ok (unknown ("order " ++ₛ (uid ++ₛ " token not in clearing prices")))
  | some sell_index ↦ elim (index_of tokens (lower (or_else order.buy_token ""))) [
    | none ↦ ok (unknown ("order " ++ₛ (uid ++ₛ " token not in clearing prices")))
    | some buy_index ↦ build_row order t sell_index buy_index
  ]
]

-- The row of a trade whose order was looked up.
unfoldable pub row_of :
    List String → String → RawTrade → Result (Option RawOrder) → Result (Step SettleTrade)
unfolding settle_trade
row_of tokens uid t (err e) = err e
row_of tokens uid t (ok none) = ok (unknown ("order " ++ₛ (uid ++ₛ " unfetchable")))
row_of tokens uid t (ok (some order)) = settle_trade tokens uid order t

abbrev pub Settled : Type 0
Settled = Cache × Result (Step (List SettleTrade))

-- The row in front of the rows of the trades behind it, which are reached only if it is known.
unfoldable pub after_row : Cache → Result (Step SettleTrade) → Settled → Settled
after_row cache (err e) rest = (cache, err e)
after_row cache (ok (unknown reason)) rest = (cache, ok (unknown reason))
after_row cache (ok (known row)) (cache', ok (known rows)) = (cache', ok (known (row ∷ rows)))
after_row cache (ok (known row)) (cache', ok (unknown reason)) = (cache', ok (unknown reason))
after_row cache (ok (known row)) (cache', err e) = (cache', err e)

-- `(t.get("order") or …).lower()`
unfoldable pub uid_of : RawTrade → String
unfolding lower or_else
uid_of t = lower (or_else t.order "")

-- The loop over the trades: the cache behind it, and the rows or what ended it.
unfoldable pub settle_trades : Orderbook → List String → Cache → List RawTrade → Settled
unfolding uid_of resolve_order row_of after_row
settle_trades api tokens cache [] = (cache, ok (known []))
settle_trades api tokens cache (t ∷ ts) =
    let (cache', answer) = resolve_order api cache (uid_of t) in
    let rest = settle_trades api tokens cache' ts in
    after_row cache' (row_of tokens (uid_of t) t answer) rest
