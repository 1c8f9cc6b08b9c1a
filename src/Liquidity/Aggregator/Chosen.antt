-- ===== src/Liquidity/Aggregator/Chosen.antt =====
-- About the offer that `LiquidityAggregator.best_quote` returns.
use cow_solver_skeleton.Prelude.{
  ℕ, Bool, true, false, ◌≡◌, ◌⊎◌, inl, inr, refl, sym, ap, ◌∙◌, subst, Option, none, some,
  some-injective, none-ne-some, List, [], ◌∷◌, if◌then◌else◌, All, All-In, In, arith,
}
use cow_solver_skeleton.Model.{Kind, sell, buy}
use cow_solver_skeleton.Liquidity.Source.{SwapRequest, Quote, LiquiditySource, NoWorse}
use cow_solver_skeleton.Liquidity.Aggregator.{
  safe_quote, Offer, add_offer, viable, beats, best_of, pick, best_quote,
}

-- The first offer is not beaten by the second.
abbrev NotBeaten : Kind → Offer → Offer → Type 0
NotBeaten kind best o = beats kind o.0 best.0 ≡ false

beats-chain :
    (kind : Kind) (a b c : Quote)
    → beats kind b a ≡ false
    → beats kind c b ≡ false
    → beats kind c a ≡ false
unfolding beats
beats-chain sell a b c h k = ground arith
beats-chain buy a b c h k = ground arith

beats-turn : (kind : Kind) (a b : Quote) → beats kind a b ≡ true → beats kind b a ≡ false
unfolding beats
beats-turn sell a b h = ground arith
beats-turn buy a b h = ground arith

-- A sale is answered by what it buys, a purchase by what it sells.
abbrev pub NoWorseQuote : Kind → Quote → Quote → Type 0
NoWorseQuote sell best q = NoWorse sell best.buy_amount q.buy_amount
NoWorseQuote buy best q = NoWorse buy best.sell_amount q.sell_amount

not_beaten-NoWorseQuote :
    (kind : Kind) (best q : Quote) → beats kind q best ≡ false → NoWorseQuote kind best q
unfolding beats
not_beaten-NoWorseQuote sell best q h = ground arith
not_beaten-NoWorseQuote buy best q h = ground arith

beats_self : (kind : Kind) (a : Quote) → beats kind a a ≡ false
unfolding beats
beats_self sell a = ground arith
beats_self buy a = ground arith

-- One step of the fold keeps one of the two offers, and neither beats it.
record Keeps (kind : Kind) (best o next : Offer) : Type 0 where
  one : (next ≡ best) ⊎ (next ≡ o)
  over_best : NotBeaten kind next best
  over_new : NotBeaten kind next o

step-Keeps :
    (kind : Kind) (best o : Offer) (b : Bool)
    → beats kind o.0 best.0 ≡ b
    → Keeps kind best o (if b then o else best)
step-Keeps kind best o true wins = record {
  one = inr refl;
  over_best = beats-turn kind o.0 best.0 wins;
  over_new = beats_self kind o.0;
}
step-Keeps kind best o false loses = record {
  one = inl refl;
  over_best = beats_self kind best.0;
  over_new = loses;
}

-- The result of the fold is one of the offers, and beaten by none.
abbrev IsBest : Kind → List Offer → Offer → Type 0
IsBest kind os best = In best os × All (NotBeaten kind best) os

best_of-IsBest :
    (kind : Kind) (best : Offer) (os : List Offer) → IsBest kind (best ∷ os) (best_of kind best os)
unfolding best_of
best_of-IsBest kind best [] = (inl refl, (beats_self kind best.0, tt))
best_of-IsBest kind best (o ∷ os) =
    let next = if beats kind o.0 best.0 then o else best in
    let k = step-Keeps kind best o (beats kind o.0 best.0) refl in
    let (found, (over, rest)) = best_of-IsBest kind next os in
    (
      elim found [
        | inr m ↦ inr (inr m)
        | inl e ↦ elim k.one [ inl f ↦ inl (e ∙ f) | inr f ↦ inr (inl (e ∙ f)) ]
      ],
      (
        beats-chain kind (best_of kind next os).0 next.0 best.0 over k.over_best,
        (beats-chain kind (best_of kind next os).0 next.0 o.0 over k.over_new, rest),
      ),
    )

pick-IsBest :
    (kind : Kind) (os : List Offer) (best : Offer) → pick kind os ≡ some best → IsBest kind os best
unfolding pick
pick-IsBest kind [] best h = absurd (none-ne-some h)
pick-IsBest kind (o ∷ os) best h =
    subst (IsBest kind (o ∷ os)) (some-injective h) (best_of-IsBest kind o os)

module _ (req : SwapRequest) (timeout_ms : ℕ) where
  abbrev offers : List LiquiditySource → List Offer
  offers sources = viable sources req timeout_ms

  viable-quotes :
      (sources : List LiquiditySource) (o : Offer)
      → In o (offers sources)
      → In o.1 sources × (safe_quote o.1 req timeout_ms ≡ some o.0)
  unfolding viable
  viable-quotes [] o m = absurd m
  viable-quotes (s ∷ ss) o m =
      by_quote (safe_quote s req timeout_ms) refl (λ n. viable-quotes ss o n) m
    where
      by_quote :
          (q : Option Quote)
          → safe_quote s req timeout_ms ≡ q
          → (In o (viable ss req timeout_ms)
              → In o.1 ss × (safe_quote o.1 req timeout_ms ≡ some o.0))
          → In o (add_offer q s (viable ss req timeout_ms))
          → In o.1 (s ∷ ss) × (safe_quote o.1 req timeout_ms ≡ some o.0)
      by_quote none e rec m = let (asked, quoted) = rec m in (inr asked, quoted)
      by_quote (some q) e rec (inl f) =
          (inl (ap (λ x. x.1) f), subst (λ x. safe_quote x.1 req timeout_ms ≡ some x.0) (sym f) e)
      by_quote (some q) e rec (inr m) = let (asked, quoted) = rec m in (inr asked, quoted)

  viable-In :
      (sources : List LiquiditySource) (s : LiquiditySource) (q : Quote)
      → In s sources
      → safe_quote s req timeout_ms ≡ some q
      → In (q, s) (offers sources)
  unfolding viable
  viable-In (t ∷ ss) s q (inl f) e =
      subst (λ found. In (q, s) (add_offer found t (viable ss req timeout_ms)))
        (sym (subst (λ x. safe_quote x req timeout_ms ≡ some q) f e)) (inl (ap (λ x. (q, x)) f))
  viable-In (t ∷ ss) s q (inr m) e = behind (safe_quote t req timeout_ms) (viable-In ss s q m e)
    where
      behind :
          (found : Option Quote)
          → In (q, s) (viable ss req timeout_ms)
          → In (q, s) (add_offer found t (viable ss req timeout_ms))
      behind none n = n
      behind (some r) n = inr n
  viable-In [] s q m e = absurd m

-- An offer of one of the sources that no source's quote beats.
pub record Chosen (sources : List LiquiditySource) (req : SwapRequest) (timeout_ms : ℕ)
    (best : Offer) : Type 0 where
  pub asked : In best.1 sources
  pub quoted : safe_quote best.1 req timeout_ms ≡ some best.0
  pub unbeaten :
      (s : LiquiditySource) (q : Quote)
      → In s sources
      → safe_quote s req timeout_ms ≡ some q
      → NoWorseQuote req.kind best.0 q

-- The best quote of the aggregator is the answer of the source that is named with it; no usable
-- answer of a source buys more for a sale, or sells less for a purchase.
pub best_quote-Chosen :
    (sources : List LiquiditySource) (req : SwapRequest) (timeout_ms : ℕ) (best : Offer)
    → best_quote sources req timeout_ms ≡ some best
    → Chosen sources req timeout_ms best
unfolding best_quote
best_quote-Chosen sources req timeout_ms best h =
    let (found, over) = pick-IsBest req.kind (viable sources req timeout_ms) best h in
    let (asked, quoted) = viable-quotes req timeout_ms sources best found in
    record {
      asked = asked;
      quoted = quoted;
      unbeaten = λ s q m e. not_beaten-NoWorseQuote req.kind best.0 q (
          All-In (NotBeaten req.kind best) (q, s) (viable sources req timeout_ms) over
            (viable-In req timeout_ms sources s q m e));
    }
