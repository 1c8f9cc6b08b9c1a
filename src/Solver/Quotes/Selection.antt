-- ===== src/Solver/Quotes/Selection.antt =====
-- The selection of the best quote of each order.
use text.Mathlib.TextEquality.{eq_iff}
use cow_solver_skeleton.Prelude.{
  ℕ, String, ◌≡◌, sym, ◌∙◌, ◌<◌, ◌≤◌, subst, ◌⊎◌, inl, inr, true, false, Option, none, some, List,
  [], ◌∷◌, In, All, arith, Bool-cases, Option-cases, none-ne-some,
}
use cow_solver_skeleton.Dict.{Dict, get, get-put}
use cow_solver_skeleton.Solver.Quotes.{
  RouteQuote, order_uid, exact_output, passes_filter, is_better, choose, consider, select_from,
  select_best_quote_per_order,
}

-- A quote that can be chosen for the order.
abbrev pub Eligible : Option ℕ → String → RouteQuote → Type 0
Eligible filter_amount_in uid q =
    (order_uid q.path ≡ uid) × (0 < q.amount_out) × (passes_filter filter_amount_in q ≡ true)

-- The quote `c` is at least as good as `q`: for an exact output it asks for no more input, for an
-- exact input it pays no less.
abbrev pub NoWorse : RouteQuote → RouteQuote → Type 0
NoWorse c q =
    (exact_output q.path ≡ true → c.amount_out ≤ q.amount_out)
    × (exact_output q.path ≡ false → q.amount_out ≤ c.amount_out)

not_better-NoWorse : (q c : RouteQuote) → is_better q c ≡ false → NoWorse c q
unfolding is_better
not_better-NoWorse q c h = (λ e. ground arith, λ e. ground arith)

not_better_self : (q : RouteQuote) → is_better q q ≡ false
unfolding is_better
not_better_self q = ground arith

-- A quote that does not beat `c` does not beat one that does.
better_trans :
    (p q c : RouteQuote)
    → exact_output p.path ≡ exact_output q.path
    → is_better p c ≡ true
    → is_better q c ≡ false
    → is_better q p ≡ false
unfolding is_better
better_trans p q c same better worse = ground arith

some-injective : {a b : RouteQuote} → Path (Option RouteQuote) (some a) (some b) → a ≡ b
some-injective h = cc

module _ (filter_amount_in : Option ℕ) (uid : String) where
  -- The chosen quote after one more is eligible, and it is the new one or the old one.
  consider-get :
      (best : Dict RouteQuote) (q : RouteQuote)
      → (get (consider filter_amount_in best q) uid ≡ get best uid)
        ⊎ ((get (consider filter_amount_in best q) uid ≡ some q) × Eligible filter_amount_in uid q)
  unfolding consider choose
  consider-get best q =
      ground (arith, eq_iff (order_uid q.path) uid, get-put best (order_uid q.path) uid q)

  module _ (best : Dict RouteQuote) (q : RouteQuote) where
    first :
        Eligible filter_amount_in uid q
        → get best uid ≡ none
        → get (consider filter_amount_in best q) uid ≡ some q
    unfolding consider choose
    first e absent = ground (
      arith,
      eq_iff (order_uid q.path) uid,
      get-put best (order_uid q.path) uid q,
      rw (sym e.0) at absent,
    )

    replaced :
        (c : RouteQuote)
        → Eligible filter_amount_in uid q
        → get best uid ≡ some c
        → is_better q c ≡ true
        → get (consider filter_amount_in best q) uid ≡ some q
    unfolding consider choose
    replaced c e present better = ground (
      arith,
      eq_iff (order_uid q.path) uid,
      get-put best (order_uid q.path) uid q,
      rw (sym e.0) at present,
    )

    kept :
        (c : RouteQuote)
        → Eligible filter_amount_in uid q
        → get best uid ≡ some c
        → is_better q c ≡ false
        → get (consider filter_amount_in best q) uid ≡ some c
    unfolding consider choose
    kept c e present worse = ground (
      arith,
      eq_iff (order_uid q.path) uid,
      get-put best (order_uid q.path) uid q,
      rw (sym e.0) at present,
    )

  select_from-In :
      (quotes : List RouteQuote) (best : Dict RouteQuote) (c : RouteQuote)
      → get (select_from filter_amount_in best quotes) uid ≡ some c
      → (get best uid ≡ some c) ⊎ (In c quotes × Eligible filter_amount_in uid c)
  unfolding select_from
  select_from-In [] best c h = inl h
  select_from-In (q ∷ qs) best c h =
      elim (select_from-In qs (consider filter_amount_in best q) c h) [
        | inr (listed, e) ↦ inr (inr listed, e)
        | inl now ↦ elim (consider-get best q) [
          | inl same ↦ inl (sym same ∙ now)
          | inr (new, e) ↦
              let is_q = some-injective (sym new ∙ now) in
              inr (inl (sym is_q), subst (Eligible filter_amount_in uid) is_q e)
        ]
      ]

  -- The dictionary holds a quote of the order that `q` does not beat.
  abbrev Covers : RouteQuote → Dict RouteQuote → Type 0
  Covers q best = (c : RouteQuote) × (get best uid ≡ some c) × (is_better q c ≡ false)

  consider-Covers :
      (best : Dict RouteQuote) (q : RouteQuote)
      → Eligible filter_amount_in uid q
      → Covers q (consider filter_amount_in best q)
  consider-Covers best q e = elim (Option-cases (get best uid)) [
    | inl absent ↦ (q, first best q e absent, not_better_self q)
    | inr (c, present) ↦ elim (Bool-cases (is_better q c)) [
      | inl better ↦ (q, replaced best q c e present better, not_better_self q)
      | inr worse ↦ (c, kept best q c e present worse, worse)
    ]
  ]

  consider-keeps :
      (best : Dict RouteQuote) (p q : RouteQuote)
      → exact_output p.path ≡ exact_output q.path
      → Covers q best
      → Covers q (consider filter_amount_in best p)
  consider-keeps best p q same (c, present, worse) = elim (consider-get best p) [
    | inl unchanged ↦ (c, unchanged ∙ present, worse)
    | inr (new, e) ↦ elim (Bool-cases (is_better p c)) [
      | inl better ↦ (p, new, better_trans p q c same better worse)
      | inr weaker ↦ (c, kept best p c e present weaker, worse)
    ]
  ]

  select_from-keeps :
      (quotes : List RouteQuote) (best : Dict RouteQuote) (q : RouteQuote)
      → All (λ p. exact_output p.path ≡ exact_output q.path) quotes
      → Covers q best
      → Covers q (select_from filter_amount_in best quotes)
  unfolding select_from
  select_from-keeps [] best q a c = c
  select_from-keeps (p ∷ ps) best q a c =
      select_from-keeps ps (consider filter_amount_in best p) q a.1 (consider-keeps best p q a.0 c)

  select_from-Covers :
      (quotes : List RouteQuote) (best : Dict RouteQuote) (q : RouteQuote)
      → All (λ p. exact_output p.path ≡ exact_output q.path) quotes
      → In q quotes
      → Eligible filter_amount_in uid q
      → Covers q (select_from filter_amount_in best quotes)
  unfolding select_from
  select_from-Covers [] best q a m e = absurd m
  select_from-Covers (p ∷ ps) best q a (inl here) e =
      select_from-keeps ps (consider filter_amount_in best p) q a.1
        (subst (λ x. Covers q (consider filter_amount_in best x)) here (consider-Covers best q e))
  select_from-Covers (p ∷ ps) best q a (inr m) e =
      select_from-Covers ps (consider filter_amount_in best p) q a.1 m e

  -- The quote that is selected for an order is one of the quotes, belongs to the order, is not
  -- zero and passes the filter.
  pub select_best_quote_per_order-In :
      (quotes : List RouteQuote) (c : RouteQuote)
      → get (select_best_quote_per_order quotes filter_amount_in) uid ≡ some c
      → In c quotes × Eligible filter_amount_in uid c
  unfolding select_best_quote_per_order get
  select_best_quote_per_order-In quotes c h = elim (select_from-In quotes [] c h) [
    | inl nowhere ↦ absurd (none-ne-some nowhere)
    | inr found ↦ found
  ]

  -- If all quotes have one direction, an order with an eligible quote (nonzero, of the filtered
  -- amount) has a selected quote, which asks for no more input than the eligible one where the
  -- output is fixed, and pays no less where the input is fixed.
  pub select_best_quote_per_order-best :
      (quotes : List RouteQuote) (q : RouteQuote)
      → All (λ p. exact_output p.path ≡ exact_output q.path) quotes
      → In q quotes
      → Eligible filter_amount_in uid q
      → (c : RouteQuote) × (get (select_best_quote_per_order quotes filter_amount_in) uid ≡ some c)
        × NoWorse c q
  unfolding select_best_quote_per_order
  select_best_quote_per_order-best quotes q a m e =
      let (c, found, worse) = select_from-Covers quotes [] q a m e in
      (c, found, not_better-NoWorse q c worse)
