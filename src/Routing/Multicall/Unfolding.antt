-- ===== src/Routing/Multicall/Unfolding.antt =====
-- About the recursion of `aggregate_resilient` in src/routing/multicall.py.
use cow_solver_skeleton.Prelude.{
  ℕ, zero, suc, ◌/◌, ◌≤◌, String, ◌≡◌, refl, inl, inr, List, [], ◌∷◌, take, drop, length,
  length-take, length-drop, Bool-cases, arith, Error, Result, ok, err,
}
use cow_solver_skeleton.Routing.Multicall.{
  Call, CallResult, is_gas_overflow, Multicall3, aggregate, aggregate_resilient, bisect,
  settle_batch, resilient,
}

module _ (c d : Call) (cs : List Call) where
  abbrev whole : List Call
  whole = c ∷ d ∷ cs

  left_short : (n : ℕ) → length whole ≤ suc n → length (take (length whole / 2) whole) ≤ n
  left_short n h = omega (arith, length-take (length whole / 2) whole)

  right_short : (n : ℕ) → length whole ≤ suc n → length (drop (length whole / 2) whole) ≤ n
  right_short n h = omega (arith, length-drop (length whole / 2) whole)

module _ (send : List Call → Result (List CallResult)) where
  bisect-eq :
      (f g : List Call → Result (List CallResult)) (n : ℕ) (c : Call) (cs : List Call) (e : Error)
      → ((calls : List Call) → length calls ≤ n → f calls ≡ g calls)
      → length (c ∷ cs) ≤ suc n
      → bisect f (c ∷ cs) e ≡ bisect g (c ∷ cs) e
  unfolding bisect
  bisect-eq f g n c [] e same short = refl
  bisect-eq f g n c (d ∷ cs) e same short =
      rw (same (take (length (c ∷ d ∷ cs) / 2) (c ∷ d ∷ cs)) (left_short c d cs n short))
        (rw (same (drop (length (c ∷ d ∷ cs) / 2) (c ∷ d ∷ cs)) (right_short c d cs n short)))

  settle_batch-eq :
      (f g : List Call → Result (List CallResult)) (n : ℕ) (c : Call) (cs : List Call)
      → ((calls : List Call) → length calls ≤ n → f calls ≡ g calls)
      → length (c ∷ cs) ≤ suc n
      → (r : Result (List CallResult)) → settle_batch f (c ∷ cs) r ≡ settle_batch g (c ∷ cs) r
  unfolding settle_batch
  settle_batch-eq f g n c cs same short (ok qs) = refl
  settle_batch-eq f g n c cs same short (err e) = elim (Bool-cases (is_gas_overflow e)) [
    | inl over ↦ rw (over, settle_batch) (bisect-eq f g n c cs e same short)
    | inr other ↦ rw (other, settle_batch)
  ]

  -- More fuel than calls changes nothing.
  resilient_fuel :
      (n k : ℕ) (calls : List Call)
      → length calls ≤ n
      → length calls ≤ k
      → resilient send n calls ≡ resilient send k calls
  unfolding resilient
  resilient_fuel n k [] h h' = refl
  resilient_fuel zero k (c ∷ cs) h h' = absurd (omega arith)
  resilient_fuel (suc n) zero (c ∷ cs) h h' = absurd (omega arith)
  resilient_fuel (suc n) (suc k) (c ∷ cs) h h' =
      settle_batch-eq (λ calls. resilient send n calls) (λ calls. resilient send k calls)
        (length cs) c cs (λ calls s. resilient_fuel n k calls (omega arith) (omega arith))
        (omega arith) (send (c ∷ cs))

-- The fuel of the bisection never runs out: a nonempty batch is sent whole, and on a gas overflow
-- both halves go through `aggregate_resilient` again.
pub aggregate_resilient_unfold :
    (m : Multicall3) (block : String) (c : Call) (cs : List Call)
    → aggregate_resilient m block (c ∷ cs)
      ≡ settle_batch (aggregate_resilient m block) (c ∷ cs) (aggregate m block (c ∷ cs))
unfolding aggregate_resilient resilient
aggregate_resilient_unfold m block c cs =
    settle_batch-eq (aggregate m block) (λ calls. resilient (aggregate m block) (length cs) calls)
      (λ calls. resilient (aggregate m block) (length calls) calls) (length cs) c cs
      (λ calls s.
        resilient_fuel (aggregate m block) (length cs) (length calls) calls s (omega arith))
      (omega arith) (aggregate m block (c ∷ cs))
