-- ===== src/Routing/Multihop/Paths.antt =====
-- About the hops and the candidate paths of src/routing/multihop.py.
use cow_solver_skeleton.Prelude.{
  ℕ, String, ◌||◌, ◌≡◌, inl, inr, refl, sym, ◌∙◌, subst, Option, none, some, some-injective, List,
  [], ◌∷◌, ◌++◌, lower, ◌=ₛ◌, ok, ◌>>=◌, >>=-eq-ok, ok-injective, Bool-cases, Option-cases,
  none-ne-some, All, All-In, All-append, max_by-In, arith,
}
use cow_solver_skeleton.Routing.Multicall.{Multicall3}
use cow_solver_skeleton.Dict.{Dict, get}
use cow_solver_skeleton.Routing.AmmV2.Pools.{PoolReserves, find_pool_addresses, fetch_reserves}
use cow_solver_skeleton.Routing.AmmV3.{V3Quote, best_v3_quote}
use cow_solver_skeleton.Routing.Multihop.{
  HopQuote, Hop, HopPath, final_token, hop_candidates, best_hop, quote_best_single_hop, pool_hop,
  paying, v2_hop, v2_hops, v3_hops, joined, second_leg, detour, detours, direct_path,
  path_candidates,
}

-- A hop that sells `amount_in` of one token for the other.
pub record Links (token_in token_out : String) (amount_in : ℕ) (h : HopQuote) : Type 0 where
  pub source : h.token_in ≡ token_in
  pub target : h.token_out ≡ token_out
  pub amount : h.amount_in ≡ amount_in

-- A path of hops, each of which sells what the one before it pays.
pub record Connects (token_in token_out : String) (amount_in : ℕ) (path : HopPath) : Type 0 where
  pub starts : (path.first.token_in ≡ token_in) × (path.first.amount_in ≡ amount_in)
  pub chains :
      (h : HopQuote)
      → path.second ≡ some h
      → (h.token_in ≡ path.first.token_out) × (h.amount_in ≡ path.first.amount_out)
  pub ends : final_token path ≡ token_out

module _ (hop : Hop)
    (links : (a b : String) (n : ℕ) (h : HopQuote) → hop a b n ≡ ok (some h) → Links a b n h)
    (token_in token_out : String) (amount_in : ℕ) where
  abbrev pub Good : List HopPath → Type 0
  Good = All (Connects token_in token_out amount_in)

  append-Good : (ps qs : List HopPath) → Good ps → Good qs → Good (ps ++ qs)
  append-Good = All-append (Connects token_in token_out amount_in)

  joined-Good :
      (mid : String) (h1 : HopQuote) (found : Option HopQuote)
      → Links token_in mid amount_in h1
      → hop mid token_out h1.amount_out ≡ ok found
      → Good (joined hop token_in token_out amount_in h1 found)
  joined-Good mid h1 none l e = tt
  joined-Good mid h1 (some h2) l e =
      let k = links mid token_out h1.amount_out h2 e in
      (
        record {
          starts = (l.source, l.amount);
          chains = λ h s.
              subst (λ x. (x.token_in ≡ h1.token_out) × (x.amount_in ≡ h1.amount_out))
                (some-injective s) (k.source ∙ sym l.target, k.amount);
          ends = k.target;
        },
        tt,
      )

  second_leg-Good :
      (mid : String) (found : Option HopQuote) (ps : List HopPath)
      → hop token_in mid amount_in ≡ ok found
      → second_leg hop token_in token_out amount_in mid found ≡ ok ps
      → Good ps
  unfolding second_leg
  second_leg-Good mid none ps e h = subst Good (ok-injective h) tt
  second_leg-Good mid (some h1) ps e h =
      let (found, hopped, kept) =
        >>=-eq-ok (hop mid token_out h1.amount_out)
          (λ found. ok (joined hop token_in token_out amount_in h1 found)) h in
      subst Good (ok-injective kept)
        (joined-Good mid h1 found (links token_in mid amount_in h1 e) hopped)

  detour-Good :
      (mid : String) (ps : List HopPath)
      → detour hop token_in token_out amount_in mid ≡ ok ps
      → Good ps
  unfolding detour
  detour-Good mid ps h =
      elim (Bool-cases (lower mid =ₛ lower token_in || lower mid =ₛ lower token_out)) [
        | inl e ↦ subst Good (ok-injective (rw (e, detour) at h)) tt
        | inr e ↦
            let (found, hopped, rest) =
              >>=-eq-ok (hop token_in mid amount_in)
                (second_leg hop token_in token_out amount_in mid) (rw (e, detour) at h) in
            second_leg-Good mid found ps hopped rest
      ]

  detours-Good :
      (mids : List String) (ps : List HopPath)
      → detours hop token_in token_out amount_in mids ≡ ok ps
      → Good ps
  unfolding detours
  detours-Good [] ps h = subst Good (ok-injective h) tt
  detours-Good (mid ∷ mids) ps h =
      let (here, first, more) =
        >>=-eq-ok (detour hop token_in token_out amount_in mid)
          (λ here. detours hop token_in token_out amount_in mids >>= λ rest. ok (here ++ rest)) h in
      let (rest, others, kept) =
        >>=-eq-ok (detours hop token_in token_out amount_in mids) (λ rest. ok (here ++ rest))
          more in
      subst Good (ok-injective kept)
        (append-Good here rest (detour-Good mid here first) (detours-Good mids rest others))

  direct_path-Good :
      (found : Option HopQuote)
      → hop token_in token_out amount_in ≡ ok found
      → Good (direct_path hop token_in token_out amount_in found)
  direct_path-Good none e = tt
  direct_path-Good (some h) e =
      let l = links token_in token_out amount_in h e in
      (
        record {
          starts = (l.source, l.amount);
          chains = λ k s. absurd (none-ne-some s);
          ends = l.target;
        },
        tt,
      )

  pub path_candidates-Good :
      (mids : List String) (ps : List HopPath)
      → path_candidates hop token_in token_out amount_in mids ≡ ok ps
      → Good ps
  unfolding path_candidates
  path_candidates-Good mids ps h =
      let (direct, hopped, more) =
        >>=-eq-ok (hop token_in token_out amount_in)
          (λ direct. detours hop token_in token_out amount_in mids >>= λ others.
            ok (direct_path hop token_in token_out amount_in direct ++ others))
          h in
      let (others, detoured, kept) =
        >>=-eq-ok (detours hop token_in token_out amount_in mids)
          (λ others. ok (direct_path hop token_in token_out amount_in direct ++ others)) more in
      subst Good (ok-injective kept)
        (append-Good _ others (direct_path-Good direct hopped) (detours-Good mids others detoured))

-- The candidates of one hop all sell the same amount for the same token.
module _ (token_in token_out : String) (amount_in : ℕ) where
  abbrev pub Linked : List HopQuote → Type 0
  Linked = All (Links token_in token_out amount_in)

  paying-Linked : (h : HopQuote) → Links token_in token_out amount_in h → Linked (paying h)
  paying-Linked h l = ground arith

  v2_hop-Linked :
      (name pool : String) (rsv : PoolReserves)
      → Linked (v2_hop token_in token_out amount_in name pool rsv)
  unfolding v2_hop
  v2_hop-Linked name pool rsv =
      paying-Linked (pool_hop token_in token_out amount_in name pool _)
        (record { source = refl; target = refl; amount = refl })

  v2_hops-Linked :
      (pools : Dict String) (reserves : Dict PoolReserves)
      → Linked (v2_hops token_in token_out amount_in pools reserves)
  unfolding v2_hops
  v2_hops-Linked [] reserves = tt
  v2_hops-Linked ((name, pool) ∷ pools) reserves = elim (Option-cases (get reserves name)) [
    | inl e ↦ rw (e, v2_hops) (v2_hops-Linked pools reserves)
    | inr (rsv, e) ↦
        rw (e, v2_hops)
          (All-append (Links token_in token_out amount_in) _ _ (v2_hop-Linked name pool rsv)
            (v2_hops-Linked pools reserves))
  ]

  v3_hops-Linked : (q : Option V3Quote) → Linked (v3_hops token_in token_out amount_in q)
  unfolding v3_hops
  v3_hops-Linked none = tt
  v3_hops-Linked (some q) = (record { source = refl; target = refl; amount = refl }, tt)

  best_hop-Links :
      (hs : List HopQuote) (h : HopQuote)
      → Linked hs
      → best_hop hs ≡ some h
      → Links token_in token_out amount_in h
  unfolding best_hop
  best_hop-Links [] h all e = absurd (none-ne-some e)
  best_hop-Links (x ∷ xs) h all e = subst (Links token_in token_out amount_in) (some-injective e) (
      All-In (Links token_in token_out amount_in) _ (x ∷ xs) all
        (max_by-In (λ h. h.amount_out) x xs))

  pub quote_best_single_hop-Links :
      (m : Multicall3) (h : HopQuote)
      → quote_best_single_hop m token_in token_out amount_in ≡ ok (some h)
      → Links token_in token_out amount_in h
  unfolding quote_best_single_hop hop_candidates
  quote_best_single_hop-Links m h e =
      let (hs, found, best) =
        >>=-eq-ok (hop_candidates m token_in token_out amount_in) (λ hs. ok (best_hop hs)) e in
      best_hop-Links hs h (candidates hs found) (ok-injective best)
    where
      candidates :
          (hs : List HopQuote) → hop_candidates m token_in token_out amount_in ≡ ok hs → Linked hs
      candidates hs found =
          let (addresses, a, more) = >>=-eq-ok (find_pool_addresses m token_in token_out) _ found in
          let (reserves, r, more2) = >>=-eq-ok (fetch_reserves m addresses) _ more in
          let (v3, q, kept) = >>=-eq-ok (best_v3_quote m token_in token_out amount_in) _ more2 in
          subst Linked (ok-injective kept) (
            All-append (Links token_in token_out amount_in) _ _ (v2_hops-Linked addresses reserves)
              (v3_hops-Linked v3))
