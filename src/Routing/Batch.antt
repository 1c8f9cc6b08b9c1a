-- ===== src/Routing/Batch.antt =====
-- The shape that `batched_v3_quote`, `batched_v4_quote` and `batched_curve_quote` share: one call
-- for each path, sent in chunks of eight, and one quote for each path. A chunk that fails for
-- another reason than the gas cap is dropped in place.
pub mod Alignment
use cow_solver_skeleton.Prelude.{
  ℕ, zero, suc, List, [], ◌∷◌, ◌++◌, map, take, drop, length, Result, ok, err, value_error, ◌>>=◌,
  map_m,
}
use cow_solver_skeleton.Routing.Multicall.{
  Call, CallResult, dropped, Multicall3, aggregate_resilient,
}

abbrev pub max_calls_per_batch : ℕ
max_calls_per_batch = 8

or_dropped : List Call → Result (List CallResult) → List CallResult
or_dropped chunk (ok rs) = rs
or_dropped chunk (err e) = map (λ _. dropped) chunk

-- The loop over the chunks; each round takes at least one call, so their number is fuel enough.
chunk_results : (List Call → Result (List CallResult)) → ℕ → List Call → List CallResult
unfolding or_dropped
chunk_results send fuel [] = []
chunk_results send zero (c ∷ cs) = []
chunk_results send (suc fuel) (c ∷ cs) =
    let chunk = take max_calls_per_batch (c ∷ cs) in
    or_dropped chunk (send chunk) ++ chunk_results send fuel (drop max_calls_per_batch (c ∷ cs))

module _ {P Q : Type 0} (read : P → CallResult → Q) where
  -- `for path, result in zip(paths, results, strict=True)`
  zip_strict : List P → List CallResult → Result (List Q)
  zip_strict [] [] = ok []
  zip_strict (p ∷ ps) (r ∷ rs) = do qs ← zip_strict ps rs; ok (read p r ∷ qs)
  zip_strict [] (r ∷ rs) = err (value_error "zip() argument 2 is longer than argument 1")
  zip_strict (p ∷ ps) [] = err (value_error "zip() argument 2 is shorter than argument 1")

unfoldable pub batched_quote :
    {P Q : Type 0}
    → Multicall3
    → (P → Result Call)
    → (P → CallResult → Q)
    → List P
    → Result (List Q)
unfolding chunk_results zip_strict
batched_quote m build read paths = do
  calls ← map_m build paths
  zip_strict read paths (chunk_results (aggregate_resilient m "latest") (length calls) calls)
