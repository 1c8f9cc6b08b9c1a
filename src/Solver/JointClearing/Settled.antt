-- ===== src/Solver/JointClearing/Settled.antt =====
-- About the groups of src/solver/joint_clearing.py, and what their trades are paid.
use text.Mathlib.TextEquality.{eq_iff}
use cow_solver_skeleton.Prelude.{
  ℕ, ◌*◌, ◌≤◌, String, ◌≡◌, ◌≢◌, refl, subst, ◌⊎◌, inl, inr, Bool, true, false, not, ◌&&◌, Option,
  none, some, List, [], ◌∷◌, ◌++◌, All, All-append, All-impl, In, arith, lower, ◌=ₛ◌, if◌then◌else◌,
  Bool-cases, ok, >>=-eq-ok, ok-injective, ceil_div,
}
use cow_solver_skeleton.Dict.{Dict, get, put}
use cow_solver_skeleton.Model.{sell, market, Order, Trade}
use cow_solver_skeleton.Routing.V3Batched.{V3BatchedQuote}
use cow_solver_skeleton.Solver.Prices.{register_prices}
use cow_solver_skeleton.Solver.Prices.Laws.{register_prices-keeps, register_prices-records}
use cow_solver_skeleton.Solver.Quotes.{v3}
use cow_solver_skeleton.Solver.Route.{Settlement, encode_path_interaction}
use cow_solver_skeleton.Solver.Router.Candidates.{is_sell}
use cow_solver_skeleton.Solver.Router.Draft.{Draft, fill, add_uid}
use cow_solver_skeleton.Solver.JointClearing.Groups.{
  Group, add_to_group, group_orders, combined_sell,
}
use cow_solver_skeleton.Solver.JointClearing.Limits.{all_limits_satisfied, all_limits_satisfied-All}
use cow_solver_skeleton.Solver.JointClearing.{
  add_trades, settle_group, group_conflicts, try_group, settle_groups, best_joint_quote,
}

-- A token is priced under its own text, or under its lower-cased text.
abbrev pub IsKeyOf : String → String → Type 0
IsKeyOf token key = (key ≡ token) ⊎ (key ≡ lower token)

pub record JointTrade (orders : List Order) (prices : Dict ℕ) (t : Trade) : Type 0 where
  pub order : Order
  pub listed : In order orders
  pub uid : t.order_uid ≡ order.uid
  pub executed : t.executed_amount ≡ order.sell_amount
  pub sell_key : String
  pub buy_key : String
  pub is_sell_key : IsKeyOf order.sell_token sell_key
  pub is_buy_key : IsKeyOf order.buy_token buy_key
  pub price_sell : ℕ
  pub price_buy : ℕ
  pub sell_price : get prices sell_key ≡ some price_sell
  pub buy_price : get prices buy_key ≡ some price_buy
  pub paid : order.buy_amount ≤ ceil_div (order.sell_amount * price_sell) price_buy

-- A registration under two texts, as `register_prices` does it for an order of those tokens.
abbrev keyed : String → String → Order
keyed sell_key buy_key = record {
  uid = "";
  sell_token = sell_key;
  buy_token = buy_key;
  sell_amount = 0;
  buy_amount = 0;
  fee_policies = [];
  valid_to = 0;
  kind = sell;
  owner = "";
  partially_fillable = false;
  class = market;
  signing_scheme = none;
  sell_token_balance = "";
  pre_interactions = [];
}

module _ (orders : List Order) where
  abbrev pub AllPaid : Dict ℕ → List Trade → Type 0
  AllPaid prices trades = All (JointTrade orders prices) trades

  -- A registration keeps what is paid.
  pub register_prices-AllPaid :
      (prices after : Dict ℕ) (o : Order) (bought sold : ℕ) (trades : List Trade)
      → register_prices prices o bought sold ≡ some after
      → AllPaid prices trades
      → AllPaid after trades
  register_prices-AllPaid prices after o bought sold trades reg =
      All-impl (JointTrade orders prices) (JointTrade orders after)
        (λ t s. record {
          order = s.order;
          listed = s.listed;
          uid = s.uid;
          executed = s.executed;
          sell_key = s.sell_key;
          buy_key = s.buy_key;
          is_sell_key = s.is_sell_key;
          is_buy_key = s.is_buy_key;
          price_sell = s.price_sell;
          price_buy = s.price_buy;
          sell_price =
              register_prices-keeps prices o bought sold reg s.sell_key s.price_sell s.sell_price;
          buy_price =
              register_prices-keeps prices o bought sold reg s.buy_key s.price_buy s.buy_price;
          paid = s.paid;
        })
        trades

  -- An order of a group: listed, with the group's tokens.
  abbrev Belongs : String → String → Order → Type 0
  Belongs sell_tok buy_tok o =
      In o orders × (sell_tok ≡ lower o.sell_token) × (buy_tok ≡ lower o.buy_token)

  abbrev pub Grouped : Group → Type 0
  Grouped g = (g.sell_tok ≢ g.buy_tok) × All (Belongs g.sell_tok g.buy_tok) g.orders

  -- An order of the list that trades two tokens, however they are spelled.
  abbrev pub Listed : Order → Type 0
  Listed o = In o orders × (lower o.sell_token ≢ lower o.buy_token)

  add_to_group-Grouped :
      (groups : List Group) (o : Order)
      → Listed o
      → All Grouped groups
      → All Grouped (add_to_group groups o)
  unfolding add_to_group
  add_to_group-Grouped [] o m a = ((m.1, ((m.0, refl, refl), tt)), tt)
  add_to_group-Grouped (g ∷ gs) o m a =
      elim (Bool-cases (g.sell_tok =ₛ lower o.sell_token && g.buy_tok =ₛ lower o.buy_token)) [
        | inl same ↦ rw same (
          (
            a.0.0,
            All-append (Belongs g.sell_tok g.buy_tok) g.orders (o ∷ []) a.0.1 (
              (
                m.0,
                ground (arith, same, eq_iff g.sell_tok (lower o.sell_token)),
                ground (arith, same, eq_iff g.buy_tok (lower o.buy_token)),
              ),
              tt,
            ),
          ),
          a.1,
        )
        | inr other ↦ rw other (a.0, add_to_group-Grouped gs o m a.1)
      ]

  pub group_orders-Grouped :
      (os : List Order) (groups : List Group)
      → All Listed os
      → All Grouped groups
      → All Grouped (group_orders groups os)
  unfolding group_orders
  group_orders-Grouped [] groups m a = a
  group_orders-Grouped (o ∷ os) groups m a =
      group_orders-Grouped os _ m.1 (added (is_sell o.kind && not o.partially_fillable))
    where
      added : (b : Bool) → All Grouped (if b then add_to_group groups o else groups)
      added true = add_to_group-Grouped groups o m.0 a
      added false = a

  module _ (bought sold : ℕ) (sell_tok buy_tok : String) where
    abbrev IsPaid : Order → Type 0
    IsPaid o = o.buy_amount ≤ ceil_div (o.sell_amount * bought) sold

    add_trades-AllPaid :
        (os : List Order) (d : Draft)
        → get d.prices sell_tok ≡ some bought
        → get d.prices buy_tok ≡ some sold
        → All (Belongs sell_tok buy_tok) os
        → All IsPaid os
        → AllPaid d.prices d.trades
        → AllPaid (add_trades os d).prices (add_trades os d).trades
    unfolding add_trades
    add_trades-AllPaid [] d ps pb b a g = g
    add_trades-AllPaid (o ∷ os) d ps pb b a g =
        add_trades-AllPaid os
          (record d {
            trades = d.trades ++ fill o o.sell_amount ∷ [];
            filled = add_uid o.uid d.filled;
          })
          ps pb b.1 a.1
          (All-append (JointTrade orders d.prices) d.trades _ g (
            record {
              order = o;
              listed = b.0.0;
              uid = refl;
              executed = refl;
              sell_key = sell_tok;
              buy_key = buy_tok;
              is_sell_key = inr b.0.1;
              is_buy_key = inr b.0.2;
              price_sell = bought;
              price_buy = sold;
              sell_price = ps;
              buy_price = pb;
              paid = a.0;
            },
            tt,
          ))

module _ (s : Settlement) (deadline : ℕ) where
  -- A group without a conflict is registered as one order of its tokens would be.
  registered :
      (d : Draft) (g : Group) (bought : ℕ)
      → group_conflicts s deadline d g bought ≡ false
      → register_prices d.prices (keyed g.sell_tok g.buy_tok) bought (combined_sell g.orders)
        ≡ some (put (put d.prices g.sell_tok bought) g.buy_tok (combined_sell g.orders))
  unfolding register_prices group_conflicts
  registered d g bought h = ground arith

module _ (s : Settlement) (deadline : ℕ) (orders : List Order) where
  abbrev Good : Draft → Type 0
  Good d = AllPaid orders d.prices d.trades

  settle_group-Good :
      (d d' : Draft) (g : Group) (best : V3BatchedQuote)
      → Grouped orders g
      → all_limits_satisfied g.orders (combined_sell g.orders) best.amount_out ≡ true
      → group_conflicts s deadline d g best.amount_out ≡ false
      → settle_group s deadline d g best ≡ ok d'
      → Good d
      → Good d'
  unfolding settle_group
  settle_group-Good d d' g best b limits free h good =
      let sold = combined_sell g.orders in
      let (calls, encoded, kept) =
        >>=-eq-ok (encode_path_interaction s (v3 best.path) sold best.amount_out deadline) _ h in
      let reg = registered s deadline d g best.amount_out free in
      let prices_set =
        register_prices-records d.prices (keyed g.sell_tok g.buy_tok) best.amount_out sold reg
          b.0 in
      subst Good (ok-injective kept) (
        add_trades-AllPaid orders best.amount_out sold g.sell_tok g.buy_tok g.orders _ prices_set.0
          prices_set.1 b.1 (all_limits_satisfied-All g.orders sold best.amount_out limits).2
          (register_prices-AllPaid orders d.prices _ (keyed g.sell_tok g.buy_tok) best.amount_out
            sold d.trades reg good))

  try_group-Good :
      (d d' : Draft) (g : Group) (best : Option V3BatchedQuote)
      → Grouped orders g
      → try_group s deadline d g best ≡ ok d'
      → Good d
      → Good d'
  unfolding try_group
  try_group-Good d d' g none b h good = subst Good (ok-injective h) good
  try_group-Good d d' g (some best) b h good =
      elim (Bool-cases (all_limits_satisfied g.orders (combined_sell g.orders) best.amount_out)) [
        | inr missed ↦ subst Good (ok-injective (rw missed at h)) good
        | inl limits ↦ elim (Bool-cases (group_conflicts s deadline d g best.amount_out)) [
          | inl conflict ↦ subst Good (ok-injective (rw (limits, conflict) at h)) good
          | inr free ↦ settle_group-Good d d' g best b limits free (rw (limits, free) at h) good
        ]
      ]

  pub settle_groups-Good :
      (quotes : List V3BatchedQuote) (d d' : Draft) (groups : List Group)
      → All (Grouped orders) groups
      → settle_groups s deadline quotes d groups ≡ ok d'
      → Good d
      → Good d'
  unfolding settle_groups
  settle_groups-Good quotes d d' [] b h good = subst Good (ok-injective h) good
  settle_groups-Good quotes d d' (g ∷ gs) b h good =
      let (d₁, first, rest) =
        >>=-eq-ok (try_group s deadline d g (best_joint_quote quotes g.sell_tok g.buy_tok)) _ h in
      settle_groups-Good quotes d₁ d' gs b.1 rest
        (try_group-Good d d₁ g (best_joint_quote quotes g.sell_tok g.buy_tok) b.0 first good)
