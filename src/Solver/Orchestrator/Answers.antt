-- ===== src/Solver/Orchestrator/Answers.antt =====
-- About the solutions that `SolverOrchestrator.solve` collects.
use cow_solver_skeleton.Prelude.{
  String, Bool, not, ◌&&◌, ◌≡◌, ◌⊎◌, inl, inr, refl, sym, ap, List, [], ◌∷◌, ◌++◌, In, Bool-cases,
}
use cow_solver_skeleton.Model.{Auction, Solution, solution, no_solution}
use cow_solver_skeleton.Solver.Orchestrator.{
  Answer, answered, timed_out, raised, Strategy, winners_of, has_won, run_strategies,
}

-- The strategy that answered with the solution.
abbrev pub Answers : Auction → List Strategy → String → Solution → Type 0
Answers auction ss name sol =
    (s : Strategy) × In s ss × (s.name ≡ name) × (s.run auction ≡ answered (solution sol))

In-append : {A : Type 0} (x : A) (xs ys : List A) → In x (xs ++ ys) → In x xs ⊎ In x ys
In-append x [] ys m = inr m
In-append x (y ∷ xs) ys (inl e) = inl (inl e)
In-append x (y ∷ xs) ys (inr m) = elim (In-append x xs ys m) [ inl n ↦ inl (inr n) | inr n ↦ inr n ]

winners_of-In :
    (name n : String) (a : Answer) (sol : Solution)
    → In (n, sol) (winners_of name a)
    → (name ≡ n) × (a ≡ answered (solution sol))
unfolding winners_of
winners_of-In name n (answered (solution s)) sol (inl e) =
    (ap (λ p. p.0) (sym e), ap (λ p. answered (solution p.1)) (sym e))
winners_of-In name n (answered (solution s)) sol (inr m) = absurd m
winners_of-In name n (answered no_solution) sol m = absurd m
winners_of-In name n (timed_out text) sol m = absurd m
winners_of-In name n (raised text) sol m = absurd m

answered_first :
    (s : Strategy) (ss : List Strategy) (auction : Auction) (name : String) (sol : Solution)
    → In (name, sol) (winners_of s.name (s.run auction))
    → Answers auction (s ∷ ss) name sol
answered_first s ss auction name sol h =
    let (n, a) = winners_of-In s.name name (s.run auction) sol h in (s, inl refl, n, a)

pub run_strategies-Answers :
    (run_all : Bool) (auction : Auction) (ss : List Strategy) (name : String) (sol : Solution)
    → In (name, sol) (run_strategies run_all auction ss).1
    → Answers auction ss name sol
unfolding run_strategies
run_strategies-Answers run_all auction [] name sol m = absurd m
run_strategies-Answers run_all auction (s ∷ ss) name sol m =
    let won = winners_of s.name (s.run auction) in
    elim (Bool-cases (not run_all && has_won won)) [
      | inl stop ↦ answered_first s ss auction name sol (rw (stop, run_strategies) at m)
      | inr go ↦
          elim (In-append (name, sol) won (run_strategies run_all auction ss).1
            (rw (go, run_strategies) at m)) [
              | inl h ↦ answered_first s ss auction name sol h
              | inr rest ↦
                  let (t, n, e, a) = run_strategies-Answers run_all auction ss name sol rest in
                  (t, inr n, e, a)
            ]
    ]
