-- ===== src/Solver/Router/Legacy/Booked.antt =====
-- About the legacy mode of src/solver/router.py.
use cow_solver_skeleton.Prelude.{
  ℕ, ◌≡◌, ◌≢◌, refl, inl, inr, Option, none, some, List, [], ◌∷◌, All, In, filter, ltb, arith,
  Bool-cases, Option-cases, ltb_false→le,
}
use cow_solver_skeleton.Model.{Kind, sell, buy, Order}
use cow_solver_skeleton.Solver.Prices.{register_prices}
use cow_solver_skeleton.Solver.Router.Candidates.{is_sell}
use cow_solver_skeleton.Solver.Router.Draft.Settled.{AllSettled, register_prices-Settled}
use cow_solver_skeleton.Solver.Router.Legacy.{Book, legacy_order, legacy_loop, legacy_book}

module _ (orders : List Order) where
  abbrev Good : Book → Type 0
  Good (trades, prices) = AllSettled orders prices trades

  -- The orders that the mode looks at.
  abbrev IsListed : Order → Type 0
  IsListed o = In o orders × (o.sell_token ≢ o.buy_token)

  sells-IsListed :
      (os : List Order)
      → All IsListed os
      → All (λ o. IsListed o × (o.kind ≡ sell)) (filter (λ o. is_sell o.kind) os)
  sells-IsListed [] a = tt
  sells-IsListed (o ∷ os) a = by_kind o.kind refl (sells-IsListed os a.1)
    where
      by_kind :
          (k : Kind)
          → o.kind ≡ k
          → All (λ o. IsListed o × (o.kind ≡ sell)) (filter (λ o. is_sell o.kind) os)
          → All (λ o. IsListed o × (o.kind ≡ sell)) (filter (λ o. is_sell o.kind) (o ∷ os))
      by_kind sell k rest = ground (arith, k, a, rest)
      by_kind buy k rest = ground (arith, k, a, rest)

  legacy_order-Good :
      (book : Book) (o : Order) (found : Option ℕ)
      → IsListed o × (o.kind ≡ sell)
      → Good book
      → Good (legacy_order book o found)
  unfolding legacy_order
  legacy_order-Good (trades, prices) o none l g = g
  legacy_order-Good (trades, prices) o (some amount) l g =
      elim (Bool-cases (ltb amount o.buy_amount)) [
        | inl under ↦ rw under g
        | inr clear ↦ elim (Option-cases (register_prices prices o amount o.sell_amount)) [
          | inl refused ↦ rw (clear, refused) g
          | inr (after, e) ↦
              rw (clear, e)
                (register_prices-Settled orders o l.0.0 l.0.1 prices after o.sell_amount
                  o.sell_amount amount trades e
                  (inl (l.1, refl, inl (refl, ltb_false→le amount o.buy_amount clear))) g)
        ]
      ]

  legacy_loop-Good :
      (find : Order → Option ℕ) (os : List Order) (book : Book)
      → All (λ o. IsListed o × (o.kind ≡ sell)) os
      → Good book
      → Good (legacy_loop find book os)
  unfolding legacy_loop
  legacy_loop-Good find [] book a g = g
  legacy_loop-Good find (o ∷ os) book a g =
      legacy_loop-Good find os _ a.1 (legacy_order-Good book o (find o) a.0 g)

  pub legacy_book-Good :
      (find : Order → Option ℕ) (os : List Order)
      → All (λ o. In o orders × (o.sell_token ≢ o.buy_token)) os
      → Good (legacy_book find os)
  unfolding legacy_book
  legacy_book-Good find os a = legacy_loop-Good find _ ([], []) (sells-IsListed os a) tt
