-- ===== src/Routing/Multihop/Best.antt =====
-- About the choice of `quote_best_path` in src/routing/multihop.py.
use cow_solver_skeleton.Prelude.{
  ℕ, ◌≤◌, String, ◌≡◌, subst, some, some-injective, List, [], ◌∷◌, ok, >>=-eq-ok, ok-injective,
  none-ne-some, All, All-In, In, max_by-In, le-max_by,
}
use cow_solver_skeleton.Routing.Multicall.{Multicall3}
use cow_solver_skeleton.Routing.Multihop.{
  HopPath, final_amount, quote_best_single_hop, path_candidates, best_path, quote_best_path,
}
use cow_solver_skeleton.Routing.Multihop.Paths.{
  Connects, path_candidates-Good, quote_best_single_hop-Links,
}

-- One of the candidates, and none of them pays more.
pub record Best (candidates : List HopPath) (path : HopPath) : Type 0 where
  pub candidate : In path candidates
  pub greatest : All (λ p. final_amount p ≤ final_amount path) candidates

best_path-Best : (ps : List HopPath) (path : HopPath) → best_path ps ≡ some path → Best ps path
unfolding best_path
best_path-Best [] path e = absurd (none-ne-some e)
best_path-Best (p ∷ ps) path e =
    subst (Best (p ∷ ps)) (some-injective e)
      (record { candidate = max_by-In final_amount p ps; greatest = le-max_by final_amount p ps })

-- The path that `quote_best_path` returns leads from the sold token to the bought one, each hop
-- selling what the one before it bought, and pays as much as any candidate.
pub quote_best_path-Best :
    (m : Multicall3) (token_in token_out : String) (amount_in : ℕ) (intermediates : List String)
    (path : HopPath)
    → quote_best_path m token_in token_out amount_in intermediates ≡ ok (some path)
    → Connects token_in token_out amount_in path
      × (candidates : List HopPath) × (path_candidates
            (quote_best_single_hop m)
            token_in
            token_out
            amount_in
            intermediates
          ≡ ok candidates)
      × Best candidates path
unfolding quote_best_path
quote_best_path-Best m token_in token_out amount_in intermediates path h =
    let hop = quote_best_single_hop m in
    let (ps, found, chosen) =
      >>=-eq-ok (path_candidates hop token_in token_out amount_in intermediates)
        (λ ps. ok (best_path ps)) h in
    let best = best_path-Best ps path (ok-injective chosen) in
    (
      All-In (Connects token_in token_out amount_in) path ps
          (path_candidates-Good hop (λ a b n h e. quote_best_single_hop-Links a b n m h e) token_in
            token_out amount_in intermediates ps found)
          best.candidate,
      ps,
      found,
      best,
    )
