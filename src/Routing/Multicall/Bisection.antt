-- ===== src/Routing/Multicall/Bisection.antt =====
-- About the results of `aggregate_resilient` in src/routing/multicall.py.
use cow_solver_skeleton.Prelude.{
  ℕ, zero, suc, ◌/◌, String, ◌≡◌, refl, ◌⊎◌, inl, inr, true, List, [], ◌∷◌, ◌++◌, map, subst, sym,
  ◌∙◌, ok-injective, err-ne-ok, take, drop, length, take-append-drop, Bool-cases, arith, Error,
  Result, ok, err, >>=-eq-ok,
}
use cow_solver_skeleton.Routing.Multicall.{
  Call, CallResult, dropped, is_gas_overflow, Multicall3, aggregate, aggregate_resilient, bisect,
  settle_batch, resilient,
}

module _ (send : List Call → Result (List CallResult)) (answer : Call → CallResult) where
  -- The call's own answer, or the dropped mark of a call that alone exceeds the gas cap.
  abbrev pub Settled : Call → CallResult → Type 0
  Settled c r =
      (r ≡ answer c)
      ⊎ ((r ≡ dropped) × ((e : Error) × (send (c ∷ []) ≡ err e) × (is_gas_overflow e ≡ true)))

  abbrev pub Aligned : List Call → List CallResult → Type 0
  Aligned [] [] = Unit
  Aligned (c ∷ cs) (r ∷ rs) = Settled c r × Aligned cs rs
  Aligned _ _ = ⊥

  Aligned-append :
      (cs ds : List Call) (rs qs : List CallResult)
      → Aligned cs rs
      → Aligned ds qs
      → Aligned (cs ++ ds) (rs ++ qs)
  Aligned-append [] ds [] qs h k = k
  Aligned-append (c ∷ cs) ds (r ∷ rs) qs h k = (h.0, Aligned-append cs ds rs qs h.1 k)
  Aligned-append [] ds (r ∷ rs) qs h k = absurd h
  Aligned-append (c ∷ cs) ds [] qs h k = absurd h

  Aligned-map : (cs : List Call) → Aligned cs (map answer cs)
  Aligned-map [] = tt
  Aligned-map (c ∷ cs) = (inl refl, Aligned-map cs)

  pub Aligned-length :
      (cs : List Call) (rs : List CallResult) → Aligned cs rs → length rs ≡ length cs
  Aligned-length [] [] h = refl
  Aligned-length (c ∷ cs) (r ∷ rs) h = omega (arith, Aligned-length cs rs h.1)
  Aligned-length [] (r ∷ rs) h = absurd h
  Aligned-length (c ∷ cs) [] h = absurd h

  Aligned-halves :
      (n : ℕ) (calls : List Call) (ls rs : List CallResult)
      → Aligned (take n calls) ls
      → Aligned (drop n calls) rs
      → Aligned calls (ls ++ rs)
  Aligned-halves n calls ls rs h k =
      rw (take-append-drop n calls) at (Aligned-append (take n calls) (drop n calls) ls rs h k)

  module _
      (faithful : (cs : List Call) (rs : List CallResult)
        → send cs ≡ ok rs
        → rs ≡ map answer cs) where
    bisect-Aligned :
        (again : List Call → Result (List CallResult)) (calls : List Call) (e : Error)
        → ((cs : List Call) (rs : List CallResult) → again cs ≡ ok rs → Aligned cs rs)
        → send calls ≡ err e
        → is_gas_overflow e ≡ true
        → (rs : List CallResult) → bisect again calls e ≡ ok rs
        → Aligned calls rs
    unfolding bisect
    bisect-Aligned again [] e step failed gas rs h = cc
    bisect-Aligned again (c ∷ []) e step failed gas rs h =
        subst (Aligned (c ∷ [])) (ok-injective h) (inr (refl, (e, failed, gas)), tt)
    bisect-Aligned again (c ∷ d ∷ cs) e step failed gas rs h =
        let calls = c ∷ d ∷ cs in
        let n = length calls / 2 in
        let (ls, eq₁, h₁) = >>=-eq-ok (again (take n calls)) _ h in
        let (qs, eq₂, h₂) = >>=-eq-ok (again (drop n calls)) _ h₁ in
        subst (Aligned calls) (ok-injective h₂)
          (Aligned-halves n calls ls qs (step _ ls eq₁) (step _ qs eq₂))

    settle_batch-Aligned :
        (again : List Call → Result (List CallResult)) (calls : List Call)
        → ((cs : List Call) (rs : List CallResult) → again cs ≡ ok rs → Aligned cs rs)
        → (r : Result (List CallResult)) → send calls ≡ r
        → (rs : List CallResult) → settle_batch again calls r ≡ ok rs
        → Aligned calls rs
    unfolding settle_batch
    settle_batch-Aligned again calls step (ok qs) sent rs h =
        subst (Aligned calls) (sym (faithful calls qs sent) ∙ ok-injective h) (Aligned-map calls)
    settle_batch-Aligned again calls step (err e) sent rs h =
        elim (Bool-cases (is_gas_overflow e)) [
          | inl gas ↦ bisect-Aligned again calls e step sent gas rs (rw (gas, settle_batch) at h)
          | inr other ↦ absurd (err-ne-ok (rw (other, settle_batch) at h))
        ]

    resilient-Aligned :
        (fuel : ℕ) (calls : List Call) (rs : List CallResult)
        → resilient send fuel calls ≡ ok rs
        → Aligned calls rs
    unfolding resilient
    resilient-Aligned fuel [] rs h = subst (Aligned []) (ok-injective h) tt
    resilient-Aligned zero (c ∷ cs) rs h = cc
    resilient-Aligned (suc fuel) (c ∷ cs) rs h =
        settle_batch-Aligned (λ calls. resilient send fuel calls) (c ∷ cs) (resilient-Aligned fuel)
          (send (c ∷ cs)) refl rs h

-- If an answered batch gives every call its own answer, whatever `aggregate_resilient` returns is
-- aligned with the calls: each result is the call's own answer, or the dropped mark of a call that
-- alone exceeds the gas cap.
pub aggregate_resilient-Aligned :
    (m : Multicall3) (block : String) (answer : Call → CallResult)
    → ((cs : List Call) (rs : List CallResult) → aggregate m block cs ≡ ok rs → rs ≡ map answer cs)
    → (calls : List Call) (rs : List CallResult) → aggregate_resilient m block calls ≡ ok rs
    → Aligned (aggregate m block) answer calls rs
unfolding aggregate_resilient
aggregate_resilient-Aligned m block answer faithful calls rs h =
    resilient-Aligned (aggregate m block) answer faithful (length calls) calls rs h
