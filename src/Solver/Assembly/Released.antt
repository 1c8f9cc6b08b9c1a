-- ===== src/Solver/Assembly/Released.antt =====
-- About what leaves the orchestrator that `load_default_orchestrator` builds, without the private
-- submodule.
use cow_solver_skeleton.Prelude.{
  ◌<◌, String, Bool, true, false, ◌≡◌, ◌≢◌, ◌⊎◌, inl, inr, refl, sym, ap, ◌∙◌, subst, none,
  none-ne-some, [], ◌∷◌, lower, if◌then◌else◌, All, All-impl, In, Result, ok, err, Option-cases,
  ok-injective,
}
use cow_solver_skeleton.Model.{Auction, Solution, Outcome, solution}
use cow_solver_skeleton.Solver.Router.Draft.Settled.{AllSettled}
use cow_solver_skeleton.Solver.Router.Batched.Settles.{Publishes, OutcomeSettled}
use cow_solver_skeleton.Solver.JointClearing.Solved.{solve-Paid}
use cow_solver_skeleton.Solver.JointClearing.Settled.{AllPaid}
use cow_solver_skeleton.Solver.Orchestrator.{
  Attempts, Answer, answered, timed_out, Strategy, run_strategies, composable, solve,
}
use cow_solver_skeleton.Solver.Orchestrator.Gates.{solve-Released, composed-none}
use cow_solver_skeleton.Solver.Orchestrator.Answers.{Answers, run_strategies-Answers}
use cow_solver_skeleton.Solver.Assembly.{
  Settings, Parts, answer_of, strategy_of, router_with, joint_with, router_strategy, joint_strategy,
  composer, load_strategies, load_orchestrator,
}
use cow_solver_skeleton.Solver.Router.Batched
use cow_solver_skeleton.Solver.Router.Batched.Settles
use cow_solver_skeleton.Solver.JointClearing

module _ (parts : Parts) (auction : Auction) where
  -- A strategy's answer is that of its solver.
  strategy_of-answered :
      (name : String) (run : Auction → Result Outcome) (sol : Solution)
      → (strategy_of parts name run).run auction ≡ answered (solution sol)
      → run auction ≡ ok (solution sol)
  unfolding strategy_of
  strategy_of-answered name run sol h = elim (Option-cases (parts.timeout name auction)) [
    | inl e ↦ answer_of-inv (run auction) (rw e at h)
    | inr (text, e) ↦ absurd (timed_out-ne (rw e at h))
  ]
    where
      timed_out-ne : {text : String} → Path Answer (timed_out text) (answered (solution sol)) → ⊥
      timed_out-ne e = cc

      answer_of-inv :
          (r : Result Outcome) → answer_of r ≡ answered (solution sol) → r ≡ ok (solution sol)
      answer_of-inv (ok out) e = cc
      answer_of-inv (err x) e = cc

-- The trades of the solution execute orders of the auction: as the router settles them, or as the
-- joint solver does.
abbrev pub Fulfils : Auction → Solution → Type 0
Fulfils auction sol =
    AllSettled auction.orders sol.prices sol.trades ⊎ AllPaid auction.orders sol.prices sol.trades

module _ (parts : Parts) (settings : Settings) (auction : Auction) (sol : Solution)
    (sound : All
      (λ o. (lower o.sell_token ≢ lower o.buy_token) × (0 < o.sell_amount))
      auction.orders) where
  router-Fulfils :
      (router_strategy parts none).run auction ≡ answered (solution sol) → Fulfils auction sol
  router-Fulfils a = inl (
      Settles.solve-Settled (router_with parts none) parts.now auction (solution sol)
        (All-impl (λ o. (lower o.sell_token ≢ lower o.buy_token) × (0 < o.sell_amount))
          (λ o. o.sell_token ≢ o.buy_token) (λ o h e. h.0 (ap lower e)) auction.orders sound)
        (strategy_of-answered parts auction "router-v2"
          (Batched.solve (router_with parts none) parts.now) sol a))

  joint-Fulfils :
      (joint_strategy parts none).run auction ≡ answered (solution sol) → Fulfils auction sol
  joint-Fulfils a = inr (
      solve-Paid (joint_with parts none) parts.now auction (solution sol) sound (
        strategy_of-answered parts auction "joint-clearing"
          (JointClearing.solve (joint_with parts none) parts.now) sol a))

  joint-In :
      (s : Strategy) (b : Bool)
      → In s (if b then joint_strategy parts none ∷ [] else [])
      → s ≡ joint_strategy parts none
  joint-In s true (inl e) = e
  joint-In s true (inr m) = absurd m
  joint-In s false m = absurd m

  by_strategy :
      (name : String)
      → name ≢ "naive"
      → Answers auction (load_strategies parts settings none) name sol
      → Fulfils auction sol
  unfolding load_strategies strategy_of
  by_strategy name other (s, inl e, n, a) =
      router-Fulfils (subst (λ x. x.run auction ≡ answered (solution sol)) e a)
  by_strategy name other (s, inr (inl e), n, a) = absurd (other (sym n ∙ ap (λ x. x.name) e))
  by_strategy name other (s, inr (inr m), n, a) = joint-Fulfils (
      subst (λ x. x.run auction ≡ answered (solution sol))
        (joint-In s settings.joint_clearing_enabled m) a)

-- Without the private submodule, if every order of the auction sells a positive amount and its two
-- tokens differ when lower-cased, the trades of a solution that leaves the default orchestrator
-- execute orders of the auction as the router settles them or as the joint solver does, whatever
-- the settings are.
pub load_orchestrator-Fulfils :
    (parts : Parts) (settings : Settings) (auction : Auction) (sol : Solution) (after : Attempts)
    → All (λ o. (lower o.sell_token ≢ lower o.buy_token) × (0 < o.sell_amount)) auction.orders
    → solve (load_orchestrator parts settings none) auction [] ≡ ok (solution sol, after)
    → Fulfils auction sol
unfolding load_orchestrator composer
load_orchestrator-Fulfils parts settings auction sol after sound h =
    let o = load_orchestrator parts settings none in
    elim (solve-Released o auction [] (solution sol) after h sol refl).origin [
      | inl (name, other, m) ↦
          by_strategy parts settings auction sol sound name other
            (run_strategies-Answers true auction (load_strategies parts settings none) name sol m)
      | inr merged ↦ absurd (
          none-ne-some (
            ok-injective (
              sym (
                composed-none o auction (composable (run_strategies true auction o.strategies).1)
                  refl)
              ∙ merged)))
    ]
