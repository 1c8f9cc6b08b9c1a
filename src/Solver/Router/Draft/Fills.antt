-- ===== src/Solver/Router/Draft/Fills.antt =====
-- About the loop of `_solve_v3_batched` in src/solver/router.py.
use cow_solver_skeleton.Prelude.{
  ℕ, ◌*◌, ◌/◌, ◌≤◌, ◌≡◌, ◌≢◌, refl, sym, subst, ◌⊎◌, inl, inr, Bool, true, false, Option, none,
  some, List, [], ◌∷◌, ◌++◌, All, In, arith, ltb, ◌==◌, Bool-cases, Option-cases, ok, ◌>>=◌,
  >>=-eq-ok, ok-injective, err-ne-ok, ltb_false→le, none-ne-some,
}
use cow_solver_skeleton.Dict.{get}
use cow_solver_skeleton.Model.{Kind, sell, buy, Order}
use cow_solver_skeleton.Solver.Prices.{register_prices}
use cow_solver_skeleton.Solver.Quotes.{RouteQuote, select_best_quote_per_order}
use cow_solver_skeleton.Solver.Route.{Settlement}
use cow_solver_skeleton.Solver.Router.Draft.{
  Draft, fill, Fill, emit, or_skip, fill_buy, fill_sell_full, try_fraction, fill_partial,
  partial_fractions, clears, fill_missed, fill_sell, fill_order, fill_orders,
}
use cow_solver_skeleton.Solver.Router.Draft.Settled.{Clears, AllSettled, register_prices-Settled}

module _ (s : Settlement) (deadline : ℕ) where
  -- What a successful emission has done.
  emit_inv :
      (d d' : Draft) (o : Order) (f : Fill)
      → emit s deadline d o f ≡ ok (some d')
      → (register_prices d.prices o f.executed_buy f.executed_sell ≡ some d'.prices)
        × (d'.trades ≡ d.trades ++ fill o f.executed ∷ [])
  unfolding emit
  emit_inv d d' o f h = ground arith

  module _ (orders : List Order) where
    abbrev Good : Draft → Type 0
    Good d = AllSettled orders d.prices d.trades

    module _ (o : Order) (listed : In o orders) (distinct : o.sell_token ≢ o.buy_token) where
      emit-Good :
          (d d' : Draft) (f : Fill)
          → emit s deadline d o f ≡ ok (some d')
          → Clears o f.executed f.executed_sell f.executed_buy
          → Good d
          → Good d'
      emit-Good d d' f h c g =
          let (reg, trades) = emit_inv d d' o f h in
          subst (AllSettled orders d'.prices) (sym trades) (
            register_prices-Settled orders o listed distinct d.prices d'.prices f.executed
              f.executed_sell f.executed_buy d.trades reg c g)

      -- An emission that may be skipped.
      or_skip-Good :
          (d d' : Draft) (f : Fill)
          → (emit s deadline d o f >>= λ e. ok (or_skip s deadline d e)) ≡ ok d'
          → Clears o f.executed f.executed_sell f.executed_buy
          → Good d
          → Good d'
      unfolding or_skip
      or_skip-Good d d' f h c g =
          let (e, emitted, kept) = >>=-eq-ok (emit s deadline d o f) _ h in
          skipped e emitted (ok-injective kept)
        where
          skipped :
              (e : Option Draft)
              → emit s deadline d o f ≡ ok e
              → or_skip s deadline d e ≡ d'
              → Good d'
          skipped none emitted kept = subst Good kept g
          skipped (some d'') emitted kept = subst Good kept (emit-Good d d'' f emitted c g)

      fill_buy-Good :
          (d d' : Draft) (best : Option RouteQuote)
          → o.kind ≡ buy
          → fill_buy s deadline d o best ≡ ok d'
          → Good d
          → Good d'
      unfolding fill_buy
      fill_buy-Good d d' none k h g = subst Good (ok-injective h) g
      fill_buy-Good d d' (some best) k h g = elim (Bool-cases (ltb o.sell_amount best.amount_out)) [
        | inl over ↦ subst Good (ok-injective (rw over at h)) g
        | inr fits ↦
            or_skip-Good d d' _ (rw fits at h)
              (inr (k, refl, refl, ltb_false→le o.sell_amount best.amount_out fits)) g
      ]

      fill_sell_full-Good :
          (d d' : Draft) (best : RouteQuote)
          → o.kind ≡ sell
          → o.buy_amount ≤ best.amount_out
          → fill_sell_full s deadline d o best ≡ ok d'
          → Good d
          → Good d'
      unfolding fill_sell_full
      fill_sell_full-Good d d' best k enough h g =
          or_skip-Good d d' _ h (inl (k, refl, inl (refl, enough))) g

      -- A fraction of the order with the limit that it is tried at.
      abbrev IsFraction : ℕ × ℕ → Type 0
      IsFraction (part, limit) =
          ((part ≡ 3 * o.sell_amount / 4) × (limit ≡ 3 * o.buy_amount / 4))
          ⊎ ((part ≡ o.sell_amount / 2) × (limit ≡ o.buy_amount / 2))

      fraction-Clears :
          (part limit amount : ℕ)
          → o.kind ≡ sell
          → o.partially_fillable ≡ true
          → IsFraction (part, limit)
          → limit ≤ amount
          → Clears o part part amount
      fraction-Clears part limit amount k p (inl (e, f)) le =
          inl (k, refl, inr (p, inl (e, omega arith)))
      fraction-Clears part limit amount k p (inr (e, f)) le =
          inl (k, refl, inr (p, inr (e, omega arith)))

      try_fraction-Good :
          (d d' : Draft) (part limit : ℕ) (q : Option RouteQuote)
          → o.kind ≡ sell
          → o.partially_fillable ≡ true
          → IsFraction (part, limit)
          → try_fraction s deadline d o part limit q ≡ ok (some d')
          → Good d
          → Good d'
      unfolding try_fraction
      try_fraction-Good d d' part limit none k p fr h g = absurd (none-ne-some (ok-injective h))
      try_fraction-Good d d' part limit (some q) k p fr h g =
          elim (Bool-cases (ltb q.amount_out limit)) [
            | inl under ↦ absurd (none-ne-some (ok-injective (rw under at h)))
            | inr clear ↦
                emit-Good d d' _ (rw clear at h)
                  (fraction-Clears part limit q.amount_out k p fr
                    (ltb_false→le q.amount_out limit clear))
                  g
          ]

      fill_partial-Good :
          (quotes : List RouteQuote) (d d' : Draft) (fractions : List (ℕ × ℕ))
          → o.kind ≡ sell
          → o.partially_fillable ≡ true
          → All IsFraction fractions
          → fill_partial s deadline quotes d o fractions ≡ ok d'
          → Good d
          → Good d'
      unfolding fill_partial
      fill_partial-Good quotes d d' [] k p fr h g = subst Good (ok-injective h) g
      fill_partial-Good quotes d d' ((part, limit) ∷ rest) k p fr h g =
          elim (Bool-cases (o.sell_amount == 0)) [
            | inl zero_sell ↦ absurd (err-ne-ok (rw zero_sell at h))
            | inr nonzero ↦
                let (e, tried, went_on) = >>=-eq-ok _ _ (rw nonzero at h) in
                step e tried went_on (λ again. fill_partial-Good quotes d d' rest k p fr.1 again g)
          ]
        where
          step :
              (e : Option Draft)
              → try_fraction s deadline d o part limit
                  (get (select_best_quote_per_order quotes (some part)) o.uid)
                ≡ ok e
              → elim e [ some d'' ↦ ok d'' | none ↦ fill_partial s deadline quotes d o rest ]
                ≡ ok d'
              → (fill_partial s deadline quotes d o rest ≡ ok d' → Good d')
              → Good d'
          step none tried went_on again = again went_on
          step (some d'') tried went_on again =
              subst Good (ok-injective went_on)
                (try_fraction-Good d d'' part limit _ k p fr.0 tried g)

      clears_limit :
          (best : Option RouteQuote) (q : RouteQuote)
          → clears s deadline o best ≡ some q
          → o.buy_amount ≤ q.amount_out
      clears_limit none q h = absurd (none-ne-some h)
      clears_limit (some best) q h = ground arith

      fill_missed-Good :
          (quotes : List RouteQuote) (d d' : Draft) (b : Bool)
          → o.kind ≡ sell
          → o.partially_fillable ≡ b
          → fill_missed s deadline quotes d o b ≡ ok d'
          → Good d
          → Good d'
      unfolding fill_missed
      fill_missed-Good quotes d d' true k p h g =
          fill_partial-Good quotes d d' (partial_fractions s deadline o) k p
            (inl (refl, refl), (inr (refl, refl), tt)) h g
      fill_missed-Good quotes d d' false k p h g = subst Good (ok-injective h) g

      fill_sell-Good :
          (quotes : List RouteQuote) (d d' : Draft) (best : Option RouteQuote)
          → o.kind ≡ sell
          → fill_sell s deadline quotes d o best ≡ ok d'
          → Good d
          → Good d'
      unfolding fill_sell
      fill_sell-Good quotes d d' best k h g = elim (Option-cases (clears s deadline o best)) [
        | inr (q, cleared) ↦
            fill_sell_full-Good d d' q k (clears_limit best q cleared)
              (rw (cleared, fill_sell) at h) g
        | inl missed ↦
            fill_missed-Good quotes d d' o.partially_fillable k refl (rw (missed, fill_sell) at h) g
      ]

      fill_order-Good :
          (quotes : List RouteQuote) (d d' : Draft)
          → fill_order s deadline quotes d o ≡ ok d'
          → Good d
          → Good d'
      unfolding fill_order
      fill_order-Good quotes d d' h g = by_kind o.kind refl
        where
          best : Option RouteQuote
          best = get (select_best_quote_per_order quotes none) o.uid

          by_kind : (k : Kind) → o.kind ≡ k → Good d'
          by_kind sell k = fill_sell-Good quotes d d' best k (rw (k, fill_order) at h) g
          by_kind buy k = fill_buy-Good d d' best k (rw (k, fill_order) at h) g

    pub fill_orders-Good :
        (quotes : List RouteQuote) (d d' : Draft) (os : List Order)
        → All (λ o. In o orders × (o.sell_token ≢ o.buy_token)) os
        → fill_orders s deadline quotes d os ≡ ok d'
        → Good d
        → Good d'
    unfolding fill_orders
    fill_orders-Good quotes d d' [] a h g = subst Good (ok-injective h) g
    fill_orders-Good quotes d d' (o ∷ os) a h g =
        let (d₁, first, rest) = >>=-eq-ok (fill_order s deadline quotes d o) _ h in
        fill_orders-Good quotes d₁ d' os a.1 rest
          (fill_order-Good o a.0.0 a.0.1 quotes d d₁ first g)
