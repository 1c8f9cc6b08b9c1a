-- ===== src/Solver/Orchestrator/Gates.antt =====
-- About what leaves `SolverOrchestrator.solve` of src/solver/orchestrator.py.
use text.Mathlib.TextEquality.{eq_iff}
use cow_solver_skeleton.Prelude.{
  Result, String, ◌≡◌, ◌≢◌, refl, sym, ap, ◌∙◌, subst, ◌⊎◌, inl, inr, true, false, Option, none,
  some, List, [], ◌∷◌, ◌++◌, In, arith, ok, >>=-eq-ok, ok-injective, err-ne-ok, none-ne-some,
  Option-cases,
}
use cow_solver_skeleton.Model.{Auction, Solution, Outcome, solution, no_solution}
use cow_solver_skeleton.Solver.Ebbo.{Market, validate_solution_ebbo}
use cow_solver_skeleton.Solver.Orchestrator.{
  Orchestrator, Verdict, verdict, gate_timeout, gate_error, Attempts, Winner, run_strategies,
  composable, ebbo_validate, judged, feasibility_validate, rejected_by, first_accepted,
  after_compose, composed, solve,
}

append_nil : (xs : Attempts) → xs ++ [] ≡ xs
append_nil [] = refl
append_nil (x ∷ xs) = rw (append_nil xs)

append_assoc : (xs ys zs : Attempts) → (xs ++ ys) ++ zs ≡ xs ++ (ys ++ zs)
append_assoc [] ys zs = refl
append_assoc (x ∷ xs) ys zs = rw (append_assoc xs ys zs)

solution-injective : {a b : Solution} → Path Outcome (solution a) (solution b) → a ≡ b
solution-injective h = cc

no_solution-ne-solution : {a : Solution} → Path Outcome no_solution (solution a) → ⊥
no_solution-ne-solution h = cc

judged-none :
    (sol : Solution) (v : Verdict)
    → judged sol v ≡ none
    → (reason : Option String) × (v ≡ verdict (some true) reason)
unfolding judged
judged-none sol (verdict (some true) reason) h = (reason, refl)
judged-none sol (verdict (some false) reason) h = absurd (none-ne-some (sym h))
judged-none sol (verdict none reason) h = absurd (none-ne-some (sym h))
judged-none sol gate_timeout h = absurd (none-ne-some (sym h))
judged-none sol (gate_error text) h = absurd (none-ne-some (sym h))

module _ (o : Orchestrator) (auction : Auction) where
  rejected_by-none-ebbo :
      (sol : Solution) (market : Market)
      → rejected_by o auction sol ≡ none
      → o.ebbo ≡ some market
      → (validate_solution_ebbo market o.ebbo_tolerance_bps sol auction).passes ≡ true
  unfolding rejected_by ebbo_validate
  rejected_by-none-ebbo sol market h e = ground (arith, h, e)

  rejected_by-none-gate :
      (sol : Solution) (check : Solution → Verdict)
      → rejected_by o auction sol ≡ none
      → o.feasibility_gate ≡ some check
      → (reason : Option String) × (check sol ≡ verdict (some true) reason)
  unfolding rejected_by feasibility_validate
  rejected_by-none-gate sol check h e = elim (Option-cases (ebbo_validate o auction sol)) [
    | inl passed ↦
        judged-none sol (check sol) (rw (passed, e, rejected_by, feasibility_validate) at h)
    | inr (r, failed) ↦ absurd (none-ne-some (sym (rw (failed, rejected_by) at h)))
  ]

  -- What the chain of gates lets through is one of the candidates, and no gate rejects it.
  first_accepted-inv :
      (ws : List Winner) (attempts : Attempts) (sol : Solution)
      → (first_accepted o auction attempts ws).0 ≡ solution sol
      → (rejected_by o auction sol ≡ none) × (name : String) × In (name, sol) ws
  unfolding first_accepted
  first_accepted-inv [] attempts sol h = absurd (no_solution-ne-solution h)
  first_accepted-inv (w ∷ ws) attempts sol h = elim (Option-cases (rejected_by o auction w.1)) [
    | inl e ↦
        let same = solution-injective (rw (e, first_accepted) at h) in
        (
          subst (λ x. rejected_by o auction x ≡ none) same e,
          w.0,
          inl (ap (λ x. (w.0, x)) (sym same)),
        )
    | inr (r, e) ↦
        let (accepted, name, listed) =
          first_accepted-inv ws (attempts ++ r ∷ []) sol (rw (e, first_accepted) at h) in
        (accepted, name, inr listed)
  ]

  after_compose-inv :
      (ws : List Winner) (attempts : Attempts) (merged : Option Solution) (sol : Solution)
      → (after_compose o auction attempts ws merged).0 ≡ solution sol
      → (rejected_by o auction sol ≡ none)
        × (((name : String) × In (name, sol) ws) ⊎ (merged ≡ some sol))
  unfolding after_compose
  after_compose-inv ws attempts none sol h =
      let (accepted, name, listed) = first_accepted-inv ws attempts sol h in
      (accepted, inl (name, listed))
  after_compose-inv ws attempts (some m) sol h =
      let (accepted, name, listed) = first_accepted-inv (("composer", m) ∷ ws) _ sol h in
      (accepted, from_head name listed)
    where
      from_head :
          (name : String)
          → In (name, sol) (("composer", m) ∷ ws)
          → ((name : String) × In (name, sol) ws) ⊎ Path (Option Solution) (some m) (some sol)
      from_head name (inl e) = inr (ap (λ x. some (x.1)) (sym e))
      from_head name (inr listed) = inl (name, listed)

  -- The records that the gates append.
  first_accepted-appends :
      (ws : List Winner) (attempts : Attempts)
      → (more : Attempts) × ((first_accepted o auction attempts ws).1 ≡ attempts ++ more)
  unfolding first_accepted
  first_accepted-appends [] attempts = ([], sym (append_nil attempts))
  first_accepted-appends (w ∷ ws) attempts = elim (Option-cases (rejected_by o auction w.1)) [
    | inl e ↦ ([], rw (e, first_accepted, append_nil attempts) refl)
    | inr (r, e) ↦
        let (more, eq) = first_accepted-appends ws (attempts ++ r ∷ []) in
        (r ∷ more, rw (e, first_accepted) (eq ∙ append_assoc attempts (r ∷ []) more))
  ]

  after_compose-appends :
      (ws : List Winner) (attempts : Attempts) (merged : Option Solution)
      → (more : Attempts) × ((after_compose o auction attempts ws merged).1 ≡ attempts ++ more)
  unfolding after_compose
  after_compose-appends ws attempts none = first_accepted-appends ws attempts
  after_compose-appends ws attempts (some m) =
      let (more, eq) = first_accepted-appends (("composer", m) ∷ ws) _ in
      (_, eq ∙ append_assoc attempts (_ ∷ []) more)

-- The candidates that may be submitted: never those of the naive strategy.
composable-not_naive :
    (ws : List Winner) (name : String) (sol : Solution)
    → In (name, sol) (composable ws)
    → (name ≢ "naive") × In (name, sol) ws
unfolding composable
composable-not_naive (w ∷ ws) name sol m =
    ground (arith, composable-not_naive ws name sol, eq_iff name "naive")
composable-not_naive [] name sol m = absurd m

-- A solution that leaves the orchestrator.
pub record Released (o : Orchestrator) (auction : Auction) (sol : Solution) : Type 0 where
  pub accepted : rejected_by o auction sol ≡ none
  pub origin :
      ((name : String) × (name ≢ "naive")
        × In (name, sol) (run_strategies o.run_all auction o.strategies).1)
      ⊎ (composed o auction (composable (run_strategies o.run_all auction o.strategies).1)
          ≡ ok (some sol))

module _ (o : Orchestrator) (auction : Auction) (attempts : Attempts) (out : Outcome)
    (after : Attempts) (solved : solve o auction attempts ≡ ok (out, after)) where
  solve-inv :
      (merged : Option Solution) × (composed o auction
          (composable (run_strategies o.run_all auction o.strategies).1)
        ≡ ok merged)
      × (after_compose o auction
            (attempts ++ (run_strategies o.run_all auction o.strategies).0)
            (composable (run_strategies o.run_all auction o.strategies).1)
            merged
          ≡ (out, after))
  unfolding solve
  solve-inv = elim (Option-cases auction.id) [
    | inl e ↦ absurd (err-ne-ok (rw (e, solve) at solved))
    | inr (i, e) ↦
        let (merged, merge, kept) = >>=-eq-ok _ _ (rw (e, solve) at solved) in
        (merged, merge, ok-injective kept)
  ]

  -- A solution that leaves `SolverOrchestrator.solve` is rejected by neither gate, and is the
  -- answer of a strategy with another name than naive or the composition of such answers.
  pub solve-Released : (sol : Solution) → out ≡ solution sol → Released o auction sol
  solve-Released sol same =
      let (merged, merge, kept) = solve-inv in
      let (accepted, from) =
        after_compose-inv o auction _ _ merged sol (ap (λ x. x.0) kept ∙ same) in
      record {
        accepted = accepted;
        origin = elim from [
          | inl (name, listed) ↦
              (let c = composable-not_naive _ name sol listed in inl (name, c.0, c.1))
          | inr e ↦ inr (
              subst
                (λ x.
                  composed o auction (composable (run_strategies o.run_all auction o.strategies).1)
                  ≡ ok x)
                e merge)
        ];
      }

  -- `SolverOrchestrator.solve` only appends to the list of attempts that it is given.
  pub solve-appends : (more : Attempts) × (after ≡ attempts ++ more)
  solve-appends =
      let (merged, merge, kept) = solve-inv in
      let (more, eq) = after_compose-appends o auction _ _ merged in
      (_, sym (ap (λ x. x.1) kept) ∙ (eq ∙ append_assoc attempts _ more))

  -- Where a feasibility gate is set, a solution leaves `SolverOrchestrator.solve` only on the
  -- verdict True of the gate for that solution.
  pub solve-feasible :
      (sol : Solution) (check : Solution → Verdict)
      → out ≡ solution sol
      → o.feasibility_gate ≡ some check
      → (reason : Option String) × (check sol ≡ verdict (some true) reason)
  solve-feasible sol check same gate =
      rejected_by-none-gate o auction sol check (solve-Released sol same).accepted gate

  -- Where the EBBO validator is plumbed, a solution that leaves `SolverOrchestrator.solve` passes
  -- it.
  pub solve-ebbo :
      (sol : Solution) (market : Market)
      → out ≡ solution sol
      → o.ebbo ≡ some market
      → (validate_solution_ebbo market o.ebbo_tolerance_bps sol auction).passes ≡ true
  solve-ebbo sol market same checked =
      rejected_by-none-ebbo o auction sol market (solve-Released sol same).accepted checked

pub composed-none :
    (o : Orchestrator) (auction : Auction) (ws : List Winner)
    → o.edge ≡ none
    → composed o auction ws ≡ ok none
unfolding composed
composed-none o auction ws edge = ground arith

pub on_id :
    {A : Type 0} (i : Option String) (id : String)
    → i ≡ some id
    → (x y : Result A) → elim i [ none ↦ x | some _ ↦ y ] ≡ y
on_id none id h x y = absurd (none-ne-some h)
on_id (some i) id h x y = refl
