-- ===== src/Routing/Batch/Alignment.antt =====
-- About the quotes and the paths of a batched quoter.
use cow_solver_skeleton.Prelude.{
  ◌≡◌, refl, List, [], ◌∷◌, map, Result, ok, >>=-eq-ok, ok-injective, err-ne-ok, map_m, subst,
}
use cow_solver_skeleton.Routing.Multicall.{Call, CallResult, Multicall3}
use cow_solver_skeleton.Routing.Batch.{zip_strict, batched_quote}

module _ {P Q : Type 0} (read : P → CallResult → Q) (path_of : Q → P)
    (keeps : (p : P) (r : CallResult) → path_of (read p r) ≡ p) where
  zip_strict-paths :
      (paths : List P) (rs : List CallResult) (qs : List Q)
      → zip_strict read paths rs ≡ ok qs
      → map path_of qs ≡ paths
  unfolding zip_strict
  zip_strict-paths [] [] qs h = subst (λ x. map path_of x ≡ []) (ok-injective h) refl
  zip_strict-paths (p ∷ ps) (r ∷ rs) qs h =
      let (rest, zipped, kept) = >>=-eq-ok (zip_strict read ps rs) _ h in
      subst (λ x. map path_of x ≡ p ∷ ps) (ok-injective kept)
        (rw (keeps p r, zip_strict-paths ps rs rest zipped) refl)
  zip_strict-paths [] (r ∷ rs) qs h = absurd (err-ne-ok h)
  zip_strict-paths (p ∷ ps) [] qs h = absurd (err-ne-ok h)

  pub batched_quote-paths :
      (m : Multicall3) (build : P → Result Call) (paths : List P) (qs : List Q)
      → batched_quote m build read paths ≡ ok qs
      → map path_of qs ≡ paths
  unfolding batched_quote
  batched_quote-paths m build paths qs h =
      let (calls, built, zipped) = >>=-eq-ok (map_m build paths) _ h in
      zip_strict-paths paths _ qs zipped
