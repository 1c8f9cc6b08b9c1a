-- ===== src/Shadow/Feasibility/Cached.antt =====
-- About the cache of orders in `settle_trades`.
use cow_solver_skeleton.Prelude.{
  String, ◌≡◌, ◌⊎◌, ◌=ₛ◌, Bool-cases, some-injective, inl, inr, refl, sym, ap, subst, ◌∙◌, Option,
  none, some, List, [], ◌∷◌, lower, Result, ok, err, ok-injective, err-ne-ok, Option-cases,
  none-ne-some,
}
use text.Mathlib.TextEquality.{eq_iff}
use cow_solver_skeleton.Dict.{get, get-put, get-put_self, get-put_new}
use cow_solver_skeleton.Encoder.Settle.{SettleTrade}
use cow_solver_skeleton.Shadow.Feasibility.Orders.{
  RawOrder, Cache, Orderbook, cached, remember, fetched, resolve_order,
}
use cow_solver_skeleton.Shadow.Feasibility.Rows.{
  RawTrade, Step, known, unknown, Settled, row_of, uid_of, after_row, settle_trades,
}

-- Every order of the first cache is in the second.
abbrev pub Keeps : Cache → Cache → Type 0
Keeps c d =
    (uid : String) (order : RawOrder) → cached c uid ≡ some order → cached d uid ≡ some order

Keeps-trans : (b c d : Cache) → Keeps b c → Keeps c d → Keeps b d
Keeps-trans b c d f g uid order h = g uid order (f uid order h)

remember-Keeps :
    (c : Cache) (uid : String) (order : RawOrder)
    → cached c uid ≡ none
    → Keeps c (remember c uid order)
unfolding cached remember
remember-Keeps c uid order missing u o h = get-put_new c (lower uid) (lower u) order o missing h

remember-cached :
    (c : Cache) (uid : String) (order : RawOrder) → cached (remember c uid order) uid ≡ some order
unfolding cached remember
remember-cached c uid order = get-put_self c (lower uid) order

-- Where an order is found, it is the cached one afterwards, and no other is lost.
pub record Found (uid : String) (before after : Cache) (answer : Result (Option RawOrder))
    : Type 0 where
  pub keeps : Keeps before after
  pub holds : (order : RawOrder) → answer ≡ ok (some order) → cached after uid ≡ some order

fetched-Found :
    (c : Cache) (uid : String) (r : Result (Option RawOrder))
    → cached c uid ≡ none
    → Found uid c (fetched c uid r).0 (fetched c uid r).1
unfolding fetched
fetched-Found c uid (err e) missing = record {
  keeps = λ u o h. h;
  holds = λ o h. absurd (err-ne-ok h);
}
fetched-Found c uid (ok none) missing = record {
  keeps = λ u o h. h;
  holds = λ o h. absurd (none-ne-some (ok-injective h));
}
fetched-Found c uid (ok (some order)) missing = record {
  keeps = remember-Keeps c uid order missing;
  holds = λ o h. remember-cached c uid order ∙ ok-injective h;
}

-- Each entry of the later cache was there, or is what the orderbook answers for its key in some
-- spelling.
abbrev pub Traces : Orderbook → Cache → Cache → Type 0
Traces api c d =
    (k : String) (o : RawOrder)
    → get d k ≡ some o
    → (get c k ≡ some o) ⊎ ((uid : String) × (lower uid ≡ k) × (api uid ≡ ok (some o)))

remember-Traces :
    (api : Orderbook) (c : Cache) (uid : String) (order : RawOrder)
    → api uid ≡ ok (some order)
    → Traces api c (remember c uid order)
unfolding remember
remember-Traces api c uid order answers k o h = elim (Bool-cases (lower uid =ₛ k)) [
  | inl same ↦
      let is_o = some-injective (sym (rw (same) at (get-put c (lower uid) k order)) ∙ h) in
      inr (uid, (eq_iff (lower uid) k).0 same, answers ∙ ap (λ x. ok (some x)) is_o)
  | inr other ↦ inl (sym (rw (other) at (get-put c (lower uid) k order)) ∙ h)
]

fetched-Traces :
    (api : Orderbook) (c : Cache) (uid : String) (r : Result (Option RawOrder))
    → api uid ≡ r
    → Traces api c (fetched c uid r).0
unfolding fetched
fetched-Traces api c uid (err e) answers k o h = inl h
fetched-Traces api c uid (ok none) answers k o h = inl h
fetched-Traces api c uid (ok (some order)) answers k o h =
    remember-Traces api c uid order answers k o h

resolve_order-Traces :
    (api : Orderbook) (c : Cache) (uid : String) → Traces api c (resolve_order api c uid).0
unfolding resolve_order
resolve_order-Traces api c uid = elim (Option-cases (cached c uid)) [
  | inl e ↦
      subst (λ x. Traces api c x.0) (sym (unresolved e)) (fetched-Traces api c uid (api uid) refl)
  | inr (order, e) ↦ subst (λ x. Traces api c x.0) (sym (resolved order e)) (λ k o h. inl h)
]
  where
    unresolved : cached c uid ≡ none → resolve_order api c uid ≡ fetched c uid (api uid)
    unresolved e = rw (e, resolve_order) refl

    resolved :
        (order : RawOrder)
        → cached c uid ≡ some order
        → resolve_order api c uid ≡ (c, ok (some order))
    resolved order e = rw (e, resolve_order) refl

pub Traces-trans :
    (api : Orderbook) (a b c : Cache) → Traces api a b → Traces api b c → Traces api a c
Traces-trans api a b c f g k o h = elim (g k o h) [ inl e ↦ f k o e | inr x ↦ inr x ]

resolve_order-Found :
    (api : Orderbook) (c : Cache) (uid : String)
    → Found uid c (resolve_order api c uid).0 (resolve_order api c uid).1
unfolding resolve_order
resolve_order-Found api c uid = elim (Option-cases (cached c uid)) [
  | inl e ↦ rw (e, resolve_order) (fetched-Found c uid (api uid) e)
  | inr (order, e) ↦
      rw (e, resolve_order) (record { keeps = λ u o h. h; holds = λ o h. e ∙ ok-injective h })
]

-- The rows of a loop that knows them all: one of its trade, and those of the trades behind it.
after_row-inv :
    (c d : Cache) (r : Result (Step SettleTrade)) (rest : Settled) (rows : List SettleTrade)
    → after_row c r rest ≡ (d, ok (known rows))
    → (row : SettleTrade) × (others : List SettleTrade) × (r ≡ ok (known row))
      × (rest ≡ (d, ok (known others)))
      × (rows ≡ row ∷ others)
unfolding after_row
after_row-inv c d (err e) rest rows h = cc
after_row-inv c d (ok (unknown reason)) rest rows h = cc
after_row-inv c d (ok (known row)) (c', ok (known others)) rows h = (row, others, refl, cc, cc)
after_row-inv c d (ok (known row)) (c', ok (unknown reason)) rows h = cc
after_row-inv c d (ok (known row)) (c', err e) rows h = cc

pub unknown-ne-known :
    {A : Type 0} {reason : String} {a : A} → Path (Step A) (unknown reason) (known a) → ⊥
unknown-ne-known h = cc

row_of-inv :
    (tokens : List String) (uid : String) (t : RawTrade) (answer : Result (Option RawOrder))
    (row : SettleTrade)
    → row_of tokens uid t answer ≡ ok (known row)
    → (order : RawOrder) × (answer ≡ ok (some order))
      × (row_of tokens uid t (ok (some order)) ≡ ok (known row))
unfolding row_of
row_of-inv tokens uid t (err e) row h = absurd (err-ne-ok h)
row_of-inv tokens uid t (ok none) row h = absurd (unknown-ne-known (ok-injective h))
row_of-inv tokens uid t (ok (some order)) row h = (order, refl, h)

resolve_order-cached :
    (api : Orderbook) (c : Cache) (uid : String) (order : RawOrder)
    → cached c uid ≡ some order
    → resolve_order api c uid ≡ (c, ok (some order))
unfolding resolve_order
resolve_order-cached api c uid order e = rw (e, resolve_order)

module _ (tokens : List String) where
  -- What a loop that knows all its rows leaves behind for its first trade.
  pub record First (api : Orderbook) (c d : Cache) (t : RawTrade) (ts : List RawTrade)
      (rows : List SettleTrade) : Type 0 where
    pub order : RawOrder
    pub row : SettleTrade
    pub others : List SettleTrade
    pub between : Cache
    pub found : Found (uid_of t) c between (ok (some order))
    pub traced : Traces api c between
    pub rowed : row_of tokens (uid_of t) t (ok (some order)) ≡ ok (known row)
    pub behind : settle_trades api tokens between ts ≡ (d, ok (known others))
    pub listed : rows ≡ row ∷ others

  pub settle_trades-First :
      (api : Orderbook) (c d : Cache) (t : RawTrade) (ts : List RawTrade) (rows : List SettleTrade)
      → settle_trades api tokens c (t ∷ ts) ≡ (d, ok (known rows))
      → First api c d t ts rows
  unfolding settle_trades
  settle_trades-First api c d t ts rows h =
      let before = resolve_order api c (uid_of t) in
      let (row, others, rowed, behind, listed) = after_row-inv before.0 d _ _ rows h in
      let (order, answered, known_row) = row_of-inv tokens (uid_of t) t before.1 row rowed in
      record {
        order = order;
        row = row;
        others = others;
        between = before.0;
        found = subst (Found (uid_of t) c before.0) answered (resolve_order-Found api c (uid_of t));
        traced = resolve_order-Traces api c (uid_of t);
        rowed = known_row;
        behind = behind;
        listed = listed;
      }

  settle_trades-Keeps :
      (api : Orderbook) (ts : List RawTrade) (c d : Cache) (rows : List SettleTrade)
      → settle_trades api tokens c ts ≡ (d, ok (known rows))
      → Keeps c d
  unfolding settle_trades
  settle_trades-Keeps api [] c d rows h = subst (Keeps c) (ap (λ p. p.0) h) (λ u o e. e)
  settle_trades-Keeps api (t ∷ ts) c d rows h =
      let f = settle_trades-First api c d t ts rows h in
      Keeps-trans c f.between d f.found.keeps
        (settle_trades-Keeps api ts f.between d f.others f.behind)

  again :
      (api other : Orderbook) (ts : List RawTrade) (c d e : Cache) (rows : List SettleTrade)
      → settle_trades api tokens c ts ≡ (d, ok (known rows))
      → Keeps d e
      → settle_trades other tokens e ts ≡ (e, ok (known rows))
  unfolding settle_trades after_row
  again api other [] c d e rows h keeps = ap (λ r. (e, r)) (ap (λ p. p.1) h)
  again api other (t ∷ ts) c d e rows h keeps =
      let f = settle_trades-First api c d t ts rows h in
      let kept = settle_trades-Keeps api ts f.between d f.others f.behind in
      let stored =
        keeps (uid_of t) f.order (kept (uid_of t) f.order (f.found.holds f.order refl)) in
      ap (λ p. after_row p.0 (row_of tokens (uid_of t) t p.1) (settle_trades other tokens p.0 ts))
        (resolve_order-cached other e (uid_of t) f.order stored)
      ∙ ap (λ r. after_row e r (settle_trades other tokens e ts)) f.rowed
      ∙ ap (after_row e (ok (known f.row)))
          (again api other ts f.between d e f.others f.behind keeps)
      ∙ ap (λ rows. (e, ok (known rows))) (sym f.listed)

  -- Once the rows of all trades are known, the cache has kept its entries, and settling the same
  -- trades from it returns the same rows and the same cache, whatever the orderbook answers.
  pub settle_trades-again :
      (api other : Orderbook) (ts : List RawTrade) (c d : Cache) (rows : List SettleTrade)
      → settle_trades api tokens c ts ≡ (d, ok (known rows))
      → Keeps c d × (settle_trades other tokens d ts ≡ (d, ok (known rows)))
  settle_trades-again api other ts c d rows h =
      (settle_trades-Keeps api ts c d rows h, again api other ts c d d rows h (λ u o k. k))
