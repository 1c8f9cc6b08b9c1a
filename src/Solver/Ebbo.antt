-- ===== src/Solver/Ebbo.antt =====
-- src/solver/ebbo.py: every trade of a solution against an external V3 quote. The tolerance is below
-- 10_000 (the settings' validator, src/config.py).
pub mod Accounts
use Prim.Native.String.{◌++◌ as ◌++ₛ◌}
use cow_solver_skeleton.Prelude.{
  ℕ, ◌+◌, ◌-◌, ◌*◌, ◌/◌, max, String, Bool, true, false, not, ◌||◌, Option, none, some, List, [],
  ◌∷◌, ◌++◌, length, map, lower, ltb, ◌==◌, ◌=ₛ◌, if◌then◌else◌, ceil_div, Result, ok, err, ◌>>=◌,
}
use cow_solver_skeleton.Dict.{Dict, get}
use cow_solver_skeleton.Model.{Kind, sell, buy, Order, Auction, Trade, Solution}
use cow_solver_skeleton.Encoder.Bytes.{take_text, str}
use cow_solver_skeleton.Routing.Multicall.{Multicall3}
use cow_solver_skeleton.Routing.V3Batched.{V3Path, V3BatchedQuote, fee_tiers, batched_v3_quote}
use cow_solver_skeleton.Solver.OrderValidity.{index_by_uid}
use cow_solver_skeleton.Solver.Router.Candidates.{flat_map}

abbrev probe : String → String → ℕ → Bool → Option String → Option ℕ → ℕ → V3Path
probe sell_token buy_token amount exact_output mid fee_out fee = record {
  order_uid = "";
  token_in = sell_token;
  token_out = buy_token;
  amount_in = amount;
  fee_tier_in = fee;
  intermediate = mid;
  fee_tier_out = fee_out;
  exact_output = exact_output;
}

probe_hops : String → String → ℕ → Bool → String → List V3Path
unfolding lower
probe_hops sell_token buy_token amount exact_output mid =
    if lower mid =ₛ lower sell_token || lower mid =ₛ lower buy_token
    then []
    else map (λ fee. probe sell_token buy_token amount exact_output (some mid) (some fee) fee)
        fee_tiers

-- The candidates that both helpers quote.
unfoldable pub probe_paths : String → String → ℕ → Bool → List String → List V3Path
unfolding probe_hops
probe_paths sell_token buy_token amount exact_output intermediates =
    map (probe sell_token buy_token amount exact_output none none) fee_tiers
    ++ flat_map (probe_hops sell_token buy_token amount exact_output) intermediates

-- The best nonzero amount: the largest of an exact input, the smallest of an exact output.
keep_best : Bool → Option ℕ → ℕ → Option ℕ
keep_best exact_output none amount = if amount == 0 then none else some amount
keep_best exact_output (some best) amount =
    if amount == 0
    then some best
    else if (if exact_output then ltb amount best else ltb best amount)
    then some amount
    else some best

best_amount : Bool → Option ℕ → List V3BatchedQuote → Option ℕ
unfolding keep_best
best_amount exact_output best [] = best
best_amount exact_output best (q ∷ qs) =
    best_amount exact_output (keep_best exact_output best q.amount_out) qs

-- What the check needs of the outside: the two quote helpers.
pub record Market : Type 0 where
  pub best_exact_input : String → String → ℕ → Result (Option ℕ)
  pub best_exact_output : String → String → ℕ → Result (Option ℕ)

quote_best : Multicall3 → List String → Bool → String → String → ℕ → Result (Option ℕ)
unfolding probe_paths best_amount
quote_best m intermediates exact_output sell_token buy_token amount = do
  quotes ← batched_v3_quote m (probe_paths sell_token buy_token amount exact_output intermediates)
  ok (best_amount exact_output none quotes)

-- `_quote_best_exact_input` and `_quote_best_exact_output`
unfoldable pub v3_market : Multicall3 → List String → Market
unfolding quote_best
v3_market m intermediates = record {
  best_exact_input = quote_best m intermediates false;
  best_exact_output = quote_best m intermediates true;
}

pub record EbboResult : Type 0 where
  pub passes : Bool
  pub violations : List String
  pub n_checked : ℕ
  pub n_skipped : ℕ
  pub n_truncated : ℕ

abbrev pub max_trades_per_check : ℕ
max_trades_per_check = 20

pub record Tally : Type 0 where
  pub violations : List String
  pub n_checked : ℕ
  pub n_skipped : ℕ

abbrev skip : Tally → Tally
skip t = record t { n_skipped = t.n_skipped + 1 }

abbrev checked : Tally → Tally
checked t = record t { n_checked = t.n_checked + 1 }

abbrev blame : Tally → String → Tally
blame t violation = record t { violations = t.violations ++ violation ∷ [] }

sell_violation : Order → ℕ → ℕ → String
unfolding take_text str
sell_violation order our ext =
    take_text 18 order.uid
    ++ₛ (": our="
        ++ₛ (str our
            ++ₛ (" ext="
                ++ₛ (str ext
                    ++ₛ (" (" ++ₛ (str ((ext - our) * 10_000 / max ext 1) ++ₛ "bps short)"))))))

buy_violation : Order → ℕ → ℕ → String
unfolding take_text str
buy_violation order our ext =
    take_text 18 order.uid
    ++ₛ (": our_sell="
        ++ₛ (str our
            ++ₛ (" ext_sell="
                ++ₛ (str ext
                    ++ₛ (" (" ++ₛ (str ((our - ext) * 10_000 / max ext 1) ++ₛ "bps overpay)"))))))

-- The external amount that is compared, if the quote succeeded and is positive.
positive_quote : Result (Option ℕ) → Option ℕ
positive_quote (err e) = none
positive_quote (ok none) = none
positive_quote (ok (some amount)) = if amount == 0 then none else some amount

-- A sale falls short: it receives less than the external quote less the tolerance.
unfoldable pub falls_short : ℕ → ℕ → ℕ → Bool
falls_short tolerance_bps our ext = ltb our (ext * (10_000 - tolerance_bps) / 10_000)

-- A purchase overpays.
unfoldable pub overpays : ℕ → ℕ → ℕ → Bool
overpays tolerance_bps our ext = ltb (ext * (10_000 + tolerance_bps) / 10_000) our

check_sell : ℕ → Order → ℕ → Option ℕ → Tally → Tally
unfolding falls_short sell_violation
check_sell tolerance_bps order our none t = skip t
check_sell tolerance_bps order our (some ext) t =
    if falls_short tolerance_bps our ext
    then blame (checked t) (sell_violation order our ext)
    else checked t

check_buy : ℕ → Order → ℕ → Option ℕ → Tally → Tally
unfolding overpays buy_violation
check_buy tolerance_bps order our none t = skip t
check_buy tolerance_bps order our (some ext) t =
    if overpays tolerance_bps our ext
    then blame (checked t) (buy_violation order our ext)
    else checked t

-- A price that is there and not 0.
nonzero : Option ℕ → Option ℕ
nonzero none = none
nonzero (some p) = if p == 0 then none else some p

check_priced : Market → ℕ → Order → ℕ → Option ℕ → Option ℕ → Tally → Tally
unfolding check_sell check_buy positive_quote
check_priced m tolerance_bps order executed (some cp_sell) (some cp_buy) t = elim order.kind [
  | sell ↦
      check_sell tolerance_bps order (ceil_div (executed * cp_sell) cp_buy)
        (positive_quote (m.best_exact_input order.sell_token order.buy_token executed)) t
  | buy ↦
      check_buy tolerance_bps order (executed * cp_buy / cp_sell)
        (positive_quote (m.best_exact_output order.sell_token order.buy_token executed)) t
]
check_priced m tolerance_bps order executed _ _ t = skip t

-- The body of the loop over the trades.
unfoldable pub check_trade : Market → ℕ → Dict ℕ → Trade → Option Order → Tally → Tally
unfolding check_priced nonzero
check_trade m tolerance_bps prices trade none t = skip t
check_trade m tolerance_bps prices trade (some order) t =
    check_priced m tolerance_bps order trade.executed_amount (nonzero (get prices order.sell_token))
      (nonzero (get prices order.buy_token)) t

unfoldable pub check_trades : Market → ℕ → Dict ℕ → Dict Order → List Trade → Tally → Tally
unfolding check_trade
check_trades m tolerance_bps prices uid_to_order [] t = t
check_trades m tolerance_bps prices uid_to_order (trade ∷ trades) t =
    check_trades m tolerance_bps prices uid_to_order trades
      (check_trade m tolerance_bps prices trade (get uid_to_order trade.order_uid) t)

abbrev pub is_empty : List String → Bool
is_empty [] = true
is_empty (v ∷ vs) = false

report : Tally → EbboResult
report t = record {
  passes = is_empty t.violations;
  violations = t.violations;
  n_checked = t.n_checked;
  n_skipped = t.n_skipped;
  n_truncated = 0;
}

abbrev pub blank_tally : Tally
blank_tally = record { violations = []; n_checked = 0; n_skipped = 0 }

-- `validate_solution_ebbo`
unfoldable pub validate_solution_ebbo : Market → ℕ → Solution → Auction → EbboResult
unfolding check_trades report index_by_uid str
validate_solution_ebbo m tolerance_bps sol auction =
    let n_total = length sol.trades in
    if ltb max_trades_per_check n_total
    then record {
      passes = false;
      violations = ("truncation: " ++ₛ (str n_total ++ₛ " trades exceed limit of 20")) ∷ [];
      n_checked = 0;
      n_skipped = 0;
      n_truncated = n_total - max_trades_per_check;
    }
    else report (
        check_trades m tolerance_bps sol.prices (index_by_uid [] auction.orders) sol.trades
          blank_tally)
