-- ===== src/Solver/Router/Fallback/Offers.antt =====
-- About the V2 fallback of src/solver/router.py.
use cow_solver_skeleton.Prelude.{
  ℕ, String, ◌≡◌, ◌≢◌, refl, subst, inl, inr, false, Option, none, some, List, [], ◌∷◌, All, In,
  text_mem, Bool-cases, value_error, zero_division, other_error, Result, ok, err, >>=-eq-ok,
  ok-injective, err-ne-ok, ltb_false→le,
}
use cow_solver_skeleton.Model.{Kind, sell, buy, Order}
use cow_solver_skeleton.Liquidity.Source.{SwapRequest, make_request, Quote, LiquiditySource}
use cow_solver_skeleton.Solver.Prices.{register_prices}
use cow_solver_skeleton.Solver.Router.Draft.{Draft}
use cow_solver_skeleton.Solver.Router.Draft.Settled.{Clears, AllSettled, register_prices-Settled}
use cow_solver_skeleton.Solver.Router.Fallback.{
  Offer, misses_limit, is_better, offer, best_offer, emit_offer, take_offer, with_request,
  request_of, fallback_order, fill_v2_fallback,
}

-- An offer, if there is one, that clears its order's limit.
abbrev pub Meets : Order → Option Offer → Type 0
Meets order none = Unit
Meets order (some (q, source)) = misses_limit order q ≡ false

offer-Meets :
    (order : Order) (best : Option Offer) (source : LiquiditySource)
    (answer : Result (Option Quote))
    → Meets order best
    → Meets order (offer order best source answer)
unfolding offer
offer-Meets order best source (ok none) h = h
offer-Meets order best source (err e) h = h
offer-Meets order best source (ok (some q)) h = elim (Bool-cases (misses_limit order q)) [
  | inl missed ↦ rw missed h
  | inr clear ↦ elim (Bool-cases (is_better order q best)) [
    | inl better ↦ rw (clear, better) clear
    | inr worse ↦ rw (clear, worse) h
  ]
]

pub best_offer-Meets :
    (order : Order) (req : SwapRequest) (sources : List LiquiditySource) (best : Option Offer)
    → Meets order best
    → Meets order (best_offer order req best sources)
unfolding best_offer
best_offer-Meets order req [] best h = h
best_offer-Meets order req (source ∷ sources) best h =
    best_offer-Meets order req sources _ (offer-Meets order best source (source.quote req 800) h)

module _ (settlement : String) (orders : List Order) where
  abbrev Good : Draft → Type 0
  Good d = AllSettled orders d.prices d.trades

  module _ (o : Order) (listed : In o orders) (distinct : o.sell_token ≢ o.buy_token) where
    emit_offer-Good :
        (d d' : Draft) (executed executed_buy executed_sell : ℕ) (best : Offer)
        → emit_offer settlement d o executed executed_buy executed_sell best ≡ ok d'
        → Clears o executed executed_sell executed_buy
        → Good d
        → Good d'
    unfolding emit_offer
    emit_offer-Good d d' executed executed_buy executed_sell (q, source) h c g =
        by_prices (register_prices d.prices o executed_buy executed_sell) refl
      where
        by_prices :
            (p : Option _) → register_prices d.prices o executed_buy executed_sell ≡ p → Good d'
        by_prices none e = subst Good (ok-injective (rw (e, emit_offer) at h)) g
        by_prices (some prices) e =
            let (call, encoded, kept) =
              >>=-eq-ok (source.encode_interaction q settlement) _ (rw (e, emit_offer) at h) in
            subst Good (ok-injective kept) (
              register_prices-Settled orders o listed distinct d.prices prices executed
                executed_sell executed_buy d.trades e c g)

    take_offer-Good :
        (d d' : Draft) (best : Option Offer)
        → take_offer settlement d o best ≡ ok d'
        → Meets o best
        → Good d
        → Good d'
    unfolding take_offer misses_limit
    take_offer-Good d d' none h m g = subst Good (ok-injective h) g
    take_offer-Good d d' (some (q, source)) h m g = by_kind o.kind refl
      where
        by_kind : (k : Kind) → o.kind ≡ k → Good d'
        by_kind sell k =
            emit_offer-Good d d' o.sell_amount q.buy_amount o.sell_amount (q, source)
              (rw (k, take_offer) at h)
              (inl (
                k,
                refl,
                inl (refl, ltb_false→le q.buy_amount o.buy_amount (rw (k, misses_limit) at m)),
              ))
              g
        by_kind buy k =
            emit_offer-Good d d' o.buy_amount o.buy_amount q.sell_amount (q, source)
              (rw (k, take_offer) at h)
              (inr (
                k,
                refl,
                refl,
                ltb_false→le o.sell_amount q.sell_amount (rw (k, misses_limit) at m),
              ))
              g

    with_request-Good :
        (sources : List LiquiditySource) (d d' : Draft) (req : Result SwapRequest)
        → with_request settlement sources d o req ≡ ok d'
        → Good d
        → Good d'
    unfolding with_request
    with_request-Good sources d d' (ok req) h g =
        take_offer-Good d d' (best_offer o req none sources) h
          (best_offer-Meets o req sources none tt) g
    with_request-Good sources d d' (err (value_error m)) h g = subst Good (ok-injective h) g
    with_request-Good sources d d' (err zero_division) h g = absurd (err-ne-ok h)
    with_request-Good sources d d' (err (other_error m)) h g = absurd (err-ne-ok h)

    fallback_order-Good :
        (sources : List LiquiditySource) (d d' : Draft)
        → fallback_order settlement sources d o ≡ ok d'
        → Good d
        → Good d'
    unfolding fallback_order
    fallback_order-Good sources d d' h g = elim (Bool-cases (text_mem o.uid d.filled)) [
      | inl done ↦ subst Good (ok-injective (rw done at h)) g
      | inr open_order ↦
          with_request-Good sources d d' (make_request (request_of o)) (rw open_order at h) g
    ]

  pub fill_v2_fallback-Good :
      (sources : List LiquiditySource) (d d' : Draft) (os : List Order)
      → All (λ o. In o orders × (o.sell_token ≢ o.buy_token)) os
      → fill_v2_fallback settlement sources d os ≡ ok d'
      → Good d
      → Good d'
  unfolding fill_v2_fallback
  fill_v2_fallback-Good sources d d' [] a h g = subst Good (ok-injective h) g
  fill_v2_fallback-Good sources d d' (o ∷ os) a h g =
      let (d₁, first, rest) = >>=-eq-ok (fallback_order settlement sources d o) _ h in
      fill_v2_fallback-Good sources d₁ d' os a.1 rest
        (fallback_order-Good o a.0.0 a.0.1 sources d d₁ first g)
