-- ===== src/Shadow/Scoring/Validity.antt =====
-- About the validity pass of src/shadow/scoring.py.
use cow_solver_skeleton.Prelude.{
  ℕ, ◌*◌, ◌/◌, ◌<◌, ◌==◌, ceil_div, lt→ltb, false, String, lower, some, ap, ◌∙◌, ◌⊎◌, ◌≡◌, refl,
  true, Option, List, [], ◌∷◌, In, inl, inr, arith, subst,
}
use cow_solver_skeleton.Dict.{Dict, get}
use cow_solver_skeleton.Model.{Kind, sell, buy, Trade, fulfillment}
use cow_solver_skeleton.Shadow.Scoring.{
  ScoredSolution, SignedOrder, breaks_limit, price_at, all_set, voids, any_voids, scored_order,
  lower_prices, compute_solution_score,
}

module _ (orders_by_uid : Dict SignedOrder) where
  any_voids_of :
      (cp : Dict ℕ) (t : Trade) (trades : List Trade)
      → In t trades
      → voids cp t.executed_amount (scored_order orders_by_uid t) ≡ true
      → any_voids orders_by_uid cp trades ≡ true
  unfolding any_voids
  any_voids_of cp t [] m h = absurd m
  any_voids_of cp t (u ∷ us) (inl e) h =
      let here =
        subst (λ x. voids cp x.executed_amount (scored_order orders_by_uid x) ≡ true) e h in
      rw here refl
  any_voids_of cp t (u ∷ us) (inr m) h = ground (arith, any_voids_of cp t us m h)

-- A fulfillment of the order at its two positive prices that falls short of the order's limit.
pub record Shortchanged (orders_by_uid : Dict SignedOrder) (cp : Dict ℕ) (t : Trade) : Type 0 where
  pub order : SignedOrder
  pub cp_sell : ℕ
  pub cp_buy : ℕ
  pub kind : t.kind ≡ fulfillment
  pub executes : 0 < t.executed_amount
  pub known : get orders_by_uid (lower t.order_uid) ≡ some order
  pub signs : (0 < order.sell_amount) × (0 < order.buy_amount)
  pub priced_sell : get cp (lower order.sell_token) ≡ some cp_sell
  pub priced_buy : get cp (lower order.buy_token) ≡ some cp_buy
  pub positive : (0 < cp_sell) × (0 < cp_buy)
  pub short :
      ((order.kind ≡ sell)
        × (ceil_div (t.executed_amount * cp_sell) cp_buy
            < ceil_div (t.executed_amount * order.buy_amount) order.sell_amount))
      ⊎ ((order.kind ≡ buy)
          × (t.executed_amount * order.sell_amount / order.buy_amount
              < t.executed_amount * cp_buy / cp_sell))

short-breaks_limit :
    (kind : Kind) (executed signed_sell signed_buy cp_sell cp_buy : ℕ)
    → ((kind ≡ sell)
        × (ceil_div (executed * cp_sell) cp_buy < ceil_div (executed * signed_buy) signed_sell))
      ⊎ ((kind ≡ buy) × (executed * signed_sell / signed_buy < executed * cp_buy / cp_sell))
    → breaks_limit kind executed signed_sell signed_buy cp_sell cp_buy ≡ true
unfolding breaks_limit
short-breaks_limit kind x s b p q (inl (k, lt)) = rw k (lt→ltb _ _ lt)
short-breaks_limit kind x s b p q (inr (k, lt)) = rw k (lt→ltb _ _ lt)

pub price_at_known :
    (cp : Dict ℕ) (tok : String) (p : ℕ) → get cp (lower tok) ≡ some p → price_at cp tok ≡ p
unfolding price_at
price_at_known cp tok p h = rw (h, price_at) refl

all_set_four : (a b c d : ℕ) → 0 < a → 0 < b → 0 < c → 0 < d → all_set (a ∷ b ∷ c ∷ d ∷ []) ≡ true
all_set_four a b c d h i j k = ground arith

module _ (orders_by_uid : Dict SignedOrder) (cp : Dict ℕ) (t : Trade)
    (h : Shortchanged orders_by_uid cp t) where
  Shortchanged-scored_order : scored_order orders_by_uid t ≡ some h.order
  unfolding scored_order
  Shortchanged-scored_order = rw (h.kind, nonzero t.executed_amount h.executes) h.known
    where
      nonzero : (n : ℕ) → 0 < n → (n == 0) ≡ false
      nonzero n pos = ground arith

  Shortchanged-voids : voids cp t.executed_amount (some h.order) ≡ true
  unfolding voids
  Shortchanged-voids =
      let sell_at = price_at_known cp h.order.sell_token h.cp_sell h.priced_sell in
      let buy_at = price_at_known cp h.order.buy_token h.cp_buy h.priced_buy in
      rw
        (
          sell_at,
          buy_at,
          all_set_four h.order.sell_amount h.order.buy_amount h.cp_sell h.cp_buy h.signs.0 h.signs.1
              h.positive.0 h.positive.1,
        )
        (short-breaks_limit h.order.kind t.executed_amount h.order.sell_amount h.order.buy_amount
          h.cp_sell h.cp_buy h.short)

-- One trade of a known order with positive amounts that, at the two positive prices of the
-- solution, receives less than the rounded-up limit of a sale or pays more than the rounded-down
-- limit of a purchase makes the score of the whole solution 0.
pub compute_solution_score-void :
    (sol : ScoredSolution) (orders_by_uid : Dict SignedOrder) (native_prices : Dict (Option ℕ))
    (t : Trade)
    → In t sol.trades
    → Shortchanged orders_by_uid (lower_prices [] sol.prices) t
    → compute_solution_score sol orders_by_uid native_prices ≡ 0
unfolding compute_solution_score
compute_solution_score-void sol [] native_prices t m h = refl
compute_solution_score-void sol (o ∷ os) [] t m h = refl
compute_solution_score-void sol (o ∷ os) (n ∷ ns) t m h =
    rw
      (any_voids_of (o ∷ os) (lower_prices [] sol.prices) t sol.trades m (
        ap (voids (lower_prices [] sol.prices) t.executed_amount)
          (Shortchanged-scored_order (o ∷ os) (lower_prices [] sol.prices) t h)
        ∙ Shortchanged-voids (o ∷ os) (lower_prices [] sol.prices) t h))
      refl
