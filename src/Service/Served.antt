-- ===== src/Service/Served.antt =====
-- About the solutions that the handler of /solve replies with.
use text.Mathlib.TextEquality.{eq_iff}
use cow_solver_skeleton.Prelude.{
  ℕ, String, ◌≡◌, ◌⊎◌, inl, inr, refl, true, false, sym, ap, ◌∙◌, subst, some, List, [], ◌∷◌, In,
  Result, ok, err, none, take, none-ne-some, Option-cases, arith, Bool-cases, ◌=ₛ◌,
}
use cow_solver_skeleton.Dict.{Dict, get, put, get-put}
use cow_solver_skeleton.Model.{Auction, Solution, Outcome, solution, no_solution}
use cow_solver_skeleton.Solver.Orchestrator.{
  Status, solved, nothing, error, timeout, rejected, AttemptRecord, Attempts, solve,
}
use cow_solver_skeleton.Service.{
  auction, Reply, http_error, solutions, Server, completed, by_strategy, first_valid, salvage_order,
  best_completed_solution, salvaged, attempts_of, reply_of, run_within, solve_budget, answer, serve,
}

-- An attempt of the list that solved with `raw` under the name.
pub record Completed (attempts : Attempts) (name : String) (raw : Solution) : Type 0 where
  pub attempt : AttemptRecord
  pub listed : In attempt attempts
  pub named : attempt.strategy ≡ name
  pub solves : attempt.status ≡ solved
  pub holds : attempt.solution ≡ some raw

completed-inv :
    (a : AttemptRecord) (raw : Solution)
    → completed a ≡ some raw
    → (a.status ≡ solved) × (a.solution ≡ some raw)
unfolding completed
completed-inv a raw h = by_status a.status refl h
  where
    by_status :
        (st : Status)
        → a.status ≡ st
        → elim st [ solved ↦ a.solution | _ ↦ none ] ≡ some raw
        → (a.status ≡ solved) × (a.solution ≡ some raw)
    by_status solved e k = (e, k)
    by_status nothing e k = absurd (none-ne-some k)
    by_status error e k = absurd (none-ne-some k)
    by_status timeout e k = absurd (none-ne-some k)
    by_status rejected e k = absurd (none-ne-some k)

completed-put :
    (acc : Dict Solution) (a : AttemptRecord) (name : String) (sol raw : Solution)
    → completed a ≡ some sol
    → get (put acc a.strategy sol) name ≡ some raw
    → (a.strategy =ₛ name) ≡ true
    → completed a ≡ some raw
completed-put acc a name sol raw e k same =
    ground (arith, get-put acc a.strategy name sol, e, k, same)

by_strategy-Completed :
    (acc : Dict Solution) (attempts : Attempts) (name : String) (raw : Solution)
    → get (by_strategy acc attempts) name ≡ some raw
    → (get acc name ≡ some raw) ⊎ Completed attempts name raw
unfolding by_strategy
by_strategy-Completed acc [] name raw h = inl h
by_strategy-Completed acc (a ∷ attempts) name raw h = elim (Option-cases (completed a)) [
  | inl e ↦ elim (by_strategy-Completed acc attempts name raw (rw (e, by_strategy) at h)) [
    | inl k ↦ inl k
    | inr c ↦ inr (later c)
  ]
  | inr (sol, e) ↦
      elim (by_strategy-Completed (put acc a.strategy sol) attempts name raw
        (rw (e, by_strategy) at h)) [
          | inl k ↦ elim (Bool-cases (a.strategy =ₛ name)) [
            | inl same ↦ inr (record {
              attempt = a;
              listed = inl refl;
              named = (eq_iff a.strategy name).0 same;
              solves = (completed-inv a raw (completed-put acc a name sol raw e k same)).0;
              holds = (completed-inv a raw (completed-put acc a name sol raw e k same)).1;
            })
            | inr other ↦ inl (ground (arith, get-put acc a.strategy name sol, k, other))
          ]
          | inr c ↦ inr (later c)
        ]
]
  where
    later : Completed attempts name raw → Completed (a ∷ attempts) name raw
    later c = record {
      attempt = c.attempt;
      listed = inr c.listed;
      named = c.named;
      solves = c.solves;
      holds = c.holds;
    }

-- A solution that is salvaged: the dump of an attempt under one of the names, read back.
pub record Salvaged (s : Server) (attempts : Attempts) (names : List String) (sol : Solution)
    : Type 0 where
  pub name : String
  pub raw : Solution
  pub preferred : In name names
  pub completes : Completed attempts name raw
  pub reads : s.model_validate raw ≡ some sol

first_valid-Salvaged :
    (s : Server) (attempts : Attempts) (names : List String) (sol : Solution)
    → first_valid s.model_validate (by_strategy [] attempts) names ≡ some sol
    → Salvaged s attempts names sol
unfolding first_valid get
first_valid-Salvaged s attempts [] sol h = absurd (none-ne-some h)
first_valid-Salvaged s attempts (name ∷ names) sol h =
    elim (Option-cases (get (by_strategy [] attempts) name)) [
      | inl e ↦ later (first_valid-Salvaged s attempts names sol (rw (e, first_valid) at h))
      | inr (raw, e) ↦ elim (Option-cases (s.model_validate raw)) [
        | inl f ↦ later (first_valid-Salvaged s attempts names sol (rw (e, f, first_valid) at h))
        | inr (better, f) ↦ elim (by_strategy-Completed [] attempts name raw e) [
          | inl k ↦ absurd (none-ne-some k)
          | inr c ↦ record {
            name = name;
            raw = raw;
            preferred = inl refl;
            completes = c;
            reads = f ∙ rw (e, f, first_valid) at h;
          }
        ]
      ]
    ]
  where
    later : Salvaged s attempts names sol → Salvaged s attempts (name ∷ names) sol
    later x = record {
      name = x.name;
      raw = x.raw;
      preferred = inr x.preferred;
      completes = x.completes;
      reads = x.reads;
    }

preferred-not_naive : (name : String) → In name salvage_order → (name =ₛ "naive") ≡ false
preferred-not_naive name (inl e) = ap (λ n. n =ₛ "naive") e
preferred-not_naive name (inr (inl e)) = ap (λ n. n =ₛ "naive") e
preferred-not_naive name (inr (inr (inl e))) = ap (λ n. n =ₛ "naive") e
preferred-not_naive name (inr (inr (inr m))) = absurd m

-- Where a solution of a reply comes from.
pub data Origin (s : Server) (a : Auction) (sol : Solution) : Type 0 where
  released :
      (after : Attempts) → solve s.orchestrator a [] ≡ ok (solution sol, after) → Origin s a sol
  rescued :
      (limit made : ℕ)
      → solve_budget s a ≡ some limit
      → s.cancelled a limit ≡ some made
      → (x : Salvaged s (take made (attempts_of s.orchestrator a)) salvage_order sol)
      → (x.name =ₛ "naive") ≡ false
      → Origin s a sol

module _ (s : Server) (a : Auction) (sol : Solution) where
  -- The solutions of a reply.
  Replies : Reply → Type 0
  Replies (http_error code detail) = ⊥
  Replies (solutions sols) = In sol sols

  salvaged-Origin :
      (limit made : ℕ)
      → solve_budget s a ≡ some limit
      → s.cancelled a limit ≡ some made
      → Replies (salvaged s (take made (attempts_of s.orchestrator a)))
      → Origin s a sol
  unfolding salvaged best_completed_solution Replies
  salvaged-Origin limit made within cut h =
      let attempts = take made (attempts_of s.orchestrator a) in
      elim (Option-cases (best_completed_solution s attempts)) [
        | inl e ↦ absurd (rw (e, salvaged) at h)
        | inr (found, e) ↦ elim (rw (e, salvaged) at h) [
          | inl same ↦
              let x = first_valid-Salvaged s attempts salvage_order sol (e ∙ ap some (sym same)) in
              rescued limit made within cut x (preferred-not_naive x.name x.preferred)
          | inr m ↦ absurd m
        ]
      ]

  reply_of-Origin :
      (r : Result (Outcome × Attempts))
      → solve s.orchestrator a [] ≡ r
      → Replies (reply_of r)
      → Origin s a sol
  unfolding reply_of Replies
  reply_of-Origin (err e) h m = absurd m
  reply_of-Origin (ok (no_solution, after)) h m = absurd m
  reply_of-Origin (ok (solution found, after)) h (inl same) =
      released after (h ∙ ap (λ x. ok (solution x, after)) (sym same))
  reply_of-Origin (ok (solution found, after)) h (inr m) = absurd m

  run_within-Origin :
      (limit : ℕ) → solve_budget s a ≡ some limit → Replies (run_within s a limit) → Origin s a sol
  unfolding run_within
  run_within-Origin limit within h = elim (Option-cases (s.cancelled a limit)) [
    | inl e ↦ reply_of-Origin (solve s.orchestrator a []) refl (rw (e, run_within) at h)
    | inr (made, e) ↦ salvaged-Origin limit made within e (rw (e, run_within) at h)
  ]

  answer-Origin : Replies (answer s a) → Origin s a sol
  unfolding answer Replies
  answer-Origin h = elim (Option-cases a.id) [
    | inl e ↦ absurd (rw (e, answer) at h)
    | inr (id, e) ↦ elim (Option-cases (solve_budget s a)) [
      | inl f ↦ absurd (rw (e, f, answer) at h)
      | inr (limit, f) ↦ run_within-Origin limit f (rw (e, f, answer) at h)
    ]
  ]

-- A solution that the handler of /solve replies with is the one that the orchestrator returns for
-- the auction, or, where the solve was cancelled, is read back from an attempt of status solved
-- among the first attempts that the orchestrator records for the auction (as many as were made
-- when its time ran out), under one of the names of the salvage order, which naive is not.
pub serve-Origin :
    (s : Server) (a : Auction) (sols : List Solution) (sol : Solution)
    → serve s (auction a) ≡ solutions sols
    → In sol sols
    → Origin s a sol
unfolding serve Replies
serve-Origin s a sols sol h m = answer-Origin s a sol (subst (Replies s a sol) (sym h) m)
