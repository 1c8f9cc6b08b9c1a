-- ===== src/Liquidity/V2/Chosen.antt =====
-- About the path that a quote of src/liquidity/v2.py takes.
use cow_solver_skeleton.Prelude.{
  ℕ, String, true, false, ◌≡◌, ◌⊎◌, inl, inr, refl, sym, ap, ◌∙◌, subst, Option, none, some,
  some-injective, none-ne-some, List, [], ◌∷◌, Bool-cases, Option-cases, All, All-In, In, ok, ◌>>=◌,
  >>=-eq-ok, ok-injective, arith,
}
use cow_solver_skeleton.Dict.{Dict}
use cow_solver_skeleton.Model.{Kind, sell, buy}
use cow_solver_skeleton.Liquidity.Source.{SwapRequest, Quote, NoWorse}
use cow_solver_skeleton.Routing.AmmV2.Pools.{PoolReserves, fetch_reserves}
use cow_solver_skeleton.Liquidity.V2.Walk.{Pair, hop_reserves}
use cow_solver_skeleton.Liquidity.V2.{
  V2Source, TokenPath, candidate_paths, unique_pairs, lookup_pools, labels_of, compute_path, Scored,
  is_better, improve, best_scored, to_quote, quoted, priced_paths, quote_impl,
}

not_better-NoWorse :
    (kind : Kind) (n kept : ℕ) → is_better kind n kept ≡ false → NoWorse kind kept n
unfolding is_better
not_better-NoWorse sell n kept h = ground arith
not_better-NoWorse buy n kept h = ground arith

is_better_self : (kind : Kind) (n : ℕ) → is_better kind n n ≡ false
unfolding is_better
is_better_self sell n = ground arith
is_better_self buy n = ground arith

-- Where the second is not better than the first, nor the third than the second, neither is the third
-- than the first.
is_better-chain :
    (kind : Kind) (a b c : ℕ)
    → is_better kind b a ≡ false
    → is_better kind c b ≡ false
    → is_better kind c a ≡ false
unfolding is_better
is_better-chain sell a b c h k = ground arith
is_better-chain buy a b c h k = ground arith

is_better-turn : (kind : Kind) (a b : ℕ) → is_better kind a b ≡ true → is_better kind b a ≡ false
unfolding is_better
is_better-turn sell a b h = ground arith
is_better-turn buy a b h = ground arith

module _ (kind : Kind) (score : TokenPath → Option ℕ) where
  -- No path of the list scores better than `amount`.
  abbrev pub NoneBetter : ℕ → List TokenPath → Type 0
  NoneBetter amount = All (λ p. (n : ℕ) → score p ≡ some n → is_better kind n amount ≡ false)

  -- `(p, amount)` is the best so far or a path of the list, and no score seen is better.
  pub record Chosen (best : Option Scored) (ps : List TokenPath) (p : TokenPath) (amount : ℕ)
      : Type 0 where
    pub origin : (best ≡ some (p, amount)) ⊎ (In p ps × (score p ≡ some amount))
    pub older : (b : Scored) → best ≡ some b → is_better kind b.1 amount ≡ false
    pub listed : NoneBetter amount ps

  -- A path that is not taken up: it has no score, or one that the best beats.
  passed :
      (q p : TokenPath) (ps : List TokenPath) (best : Option Scored) (amount : ℕ)
      → ((n : ℕ) → score q ≡ some n → is_better kind n amount ≡ false)
      → Chosen best ps p amount
      → Chosen best (q ∷ ps) p amount
  passed q p ps best amount beaten c = record {
    origin = elim c.origin [ inl e ↦ inl e | inr (m, e) ↦ inr (inr m, e) ];
    older = c.older;
    listed = (beaten, c.listed);
  }

  -- A path that is taken up, in the place of none or of a worse one.
  taken :
      (q p : TokenPath) (ps : List TokenPath) (best : Option Scored) (n amount : ℕ)
      → score q ≡ some n
      → ((b : Scored) → best ≡ some b → is_better kind n b.1 ≡ true)
      → Chosen (some (q, n)) ps p amount
      → Chosen best (q ∷ ps) p amount
  taken q p ps best n amount e better c = record {
    origin = inr (elim c.origin [
      | inl f ↦
          let same = some-injective f in
          (inl (sym (ap (λ s. s.0) same)), subst (λ s. score s.0 ≡ some s.1) same e)
      | inr (m, g) ↦ (inr m, g)
    ]);
    older = λ b g.
        is_better-chain kind amount n b.1 (c.older (q, n) refl)
          (is_better-turn kind n b.1 (better b g));
    listed = (
      λ m g.
          subst (λ x. is_better kind x amount ≡ false) (some-injective (sym e ∙ g))
            (c.older (q, n) refl),
      c.listed,
    );
  }

  best_scored-Chosen :
      (ps : List TokenPath) (best : Option Scored) (p : TokenPath) (amount : ℕ)
      → best_scored kind score best ps ≡ some (p, amount)
      → Chosen best ps p amount
  unfolding best_scored improve
  best_scored-Chosen [] best p amount h = record {
    origin = inl h;
    older = λ b e.
        subst (λ s. is_better kind s.1 amount ≡ false) (some-injective (sym h ∙ e))
          (is_better_self kind amount);
    listed = tt;
  }
  best_scored-Chosen (q ∷ ps) best p amount h = elim (Option-cases (score q)) [
    | inl e ↦
        passed q p ps best amount (λ n f. absurd (none-ne-some (sym e ∙ f)))
          (best_scored-Chosen ps best p amount (rw (e, best_scored) at h))
    | inr (n, e) ↦ elim (Option-cases best) [
      | inl f ↦
          taken q p ps best n amount e (λ b g. absurd (none-ne-some (sym f ∙ g)))
            (best_scored-Chosen ps (some (q, n)) p amount (rw (e, f, best_scored) at h))
      | inr ((p0, b), f) ↦ elim (Bool-cases (is_better kind n b)) [
        | inl g ↦
            taken q p ps best n amount e
              (λ c k. subst (λ s. is_better kind n s.1 ≡ true) (some-injective (sym f ∙ k)) g)
              (best_scored-Chosen ps (some (q, n)) p amount (rw (e, f, g, best_scored) at h))
        | inr g ↦
            let c = best_scored-Chosen ps best p amount (
              sym (ap (λ x. best_scored kind score x ps) (sym f))
              ∙ (rw (e, f, g, best_scored) at h)) in
            passed q p ps best amount
              (λ m k.
                is_better-chain kind amount b m (c.older (p0, b) f)
                  (subst (λ x. is_better kind x b ≡ false) (some-injective (sym e ∙ k)) g))
              c
      ]
    ]
  ]

-- What the source answers: a candidate path with its score, at the reserves that were read.
pub record Quotes (src : V2Source) (now : ℕ) (req : SwapRequest) (q : Quote) : Type 0 where
  pub pools : List (Pair × String)
  pub reserves : Dict PoolReserves
  pub path : TokenPath
  pub amount : ℕ
  pub looked_up :
      lookup_pools src (unique_pairs [] (candidate_paths src.intermediate_tokens req)) ≡ ok pools
  pub read : fetch_reserves src.multicall (labels_of [] pools) ≡ ok reserves
  pub candidate : In path (candidate_paths src.intermediate_tokens req)
  pub scores : compute_path (hop_reserves pools reserves) src.fee_bps req path ≡ some amount
  pub best :
      (p : TokenPath) (n : ℕ)
      → In p (candidate_paths src.intermediate_tokens req)
      → compute_path (hop_reserves pools reserves) src.fee_bps req p ≡ some n
      → NoWorse req.kind amount n
  pub answer : q ≡ to_quote src now req (path, amount)

module _ (src : V2Source) (now : ℕ) (req : SwapRequest) where
  score_at : List (Pair × String) → Dict PoolReserves → TokenPath → Option ℕ
  score_at pools reserves = compute_path (hop_reserves pools reserves) src.fee_bps req

  priced_paths-inv :
      (pools : List (Pair × String)) (best : Scored)
      → priced_paths src req pools ≡ ok (some best)
      → (reserves : Dict PoolReserves) × (fetch_reserves src.multicall (labels_of [] pools)
          ≡ ok reserves)
        × (best_scored req.kind
              (score_at pools reserves)
              none
              (candidate_paths src.intermediate_tokens req)
            ≡ some best)
  unfolding priced_paths score_at
  priced_paths-inv [] best h = absurd (none-ne-some (ok-injective h))
  priced_paths-inv (p ∷ pools) best h =
      let (reserves, read, kept) =
        >>=-eq-ok (fetch_reserves src.multicall (labels_of [] (p ∷ pools)))
          (λ reserves. ok (
            best_scored req.kind (score_at (p ∷ pools) reserves) none
              (candidate_paths src.intermediate_tokens req)))
          h in
      (reserves, read, ok-injective kept)

  quoted-inv :
      (best : Option Scored) (q : Quote)
      → quoted src now req best ≡ some q
      → (b : Scored) × (best ≡ some b) × (q ≡ to_quote src now req b)
  unfolding quoted
  quoted-inv none q h = absurd (none-ne-some h)
  quoted-inv (some b) q h = (b, refl, sym (some-injective h))

  -- The quote of the V2 source is the amount along a candidate path over the pools found and the
  -- reserves read; for a sale no candidate path yields more, and for a purchase none asks for
  -- less.
  pub quote_impl-Quotes : (q : Quote) → quote_impl src now req ≡ ok (some q) → Quotes src now req q
  unfolding quote_impl score_at
  quote_impl-Quotes q h =
      let pairs = unique_pairs [] (candidate_paths src.intermediate_tokens req) in
      let (pools, looked_up, more) =
        >>=-eq-ok (lookup_pools src pairs)
          (λ pools. priced_paths src req pools >>= λ best. ok (quoted src now req best)) h in
      let (best, priced, kept) =
        >>=-eq-ok (priced_paths src req pools) (λ best. ok (quoted src now req best)) more in
      let ((path, amount), found, answer) = quoted-inv best q (ok-injective kept) in
      let (reserves, read, scored) = priced_paths-inv pools (path, amount) (priced ∙ ap ok found) in
      let c =
        best_scored-Chosen req.kind (score_at pools reserves)
          (candidate_paths src.intermediate_tokens req) none path amount scored in
      let (candidate, scores) = from_list c.origin in
      record {
        pools = pools;
        reserves = reserves;
        path = path;
        amount = amount;
        looked_up = looked_up;
        read = read;
        candidate = candidate;
        scores = scores;
        best = λ p n m e. not_better-NoWorse req.kind n amount (
            All-In
              (λ p.
                (n : ℕ)
                → compute_path (hop_reserves pools reserves) src.fee_bps req p ≡ some n
                → is_better req.kind n amount ≡ false)
              p (candidate_paths src.intermediate_tokens req) c.listed m n e);
        answer = answer;
      }
    where
      from_list : {A : Type 0} {b : Scored} → (Path (Option Scored) none (some b)) ⊎ A → A
      from_list (inl e) = absurd (none-ne-some e)
      from_list (inr a) = a
