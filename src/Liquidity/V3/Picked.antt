-- ===== src/Liquidity/V3/Picked.antt =====
-- About the quote that src/liquidity/v3.py picks.
use cow_solver_skeleton.Prelude.{
  ◌≤◌, ◌<◌, ◌≡◌, subst, some, some-injective, none-ne-some, List, [], ◌∷◌, filter, ltb→lt,
  max_by-In, le-max_by, min_by-In, min_by-le, All, All-In, In, In-filter, filter-In, filter-holds,
  arith,
}
use cow_solver_skeleton.Model.{Kind, sell, buy}
use cow_solver_skeleton.Routing.V3Batched.{V3BatchedQuote}
use cow_solver_skeleton.Liquidity.V3.{is_viable, extreme, pick_best}

-- The side that the kind leaves open is at its best.
unfoldable pub NoBetter : Kind → V3BatchedQuote → V3BatchedQuote → Type 0
NoBetter sell best q = q.amount_out ≤ best.amount_out
NoBetter buy best q = best.amount_out ≤ q.amount_out

pub record Picked (quotes : List V3BatchedQuote) (kind : Kind) (best : V3BatchedQuote)
    : Type 0 where
  pub listed : In best quotes
  pub pays : 0 < best.amount_out
  pub no_better : (q : V3BatchedQuote) → In q quotes → 0 < q.amount_out → NoBetter kind best q

extreme-Extreme :
    (kind : Kind) (qs : List V3BatchedQuote) (best : V3BatchedQuote)
    → extreme kind qs ≡ some best
    → In best qs × All (NoBetter kind best) qs
unfolding extreme NoBetter
extreme-Extreme sell [] best h = absurd (none-ne-some h)
extreme-Extreme buy [] best h = absurd (none-ne-some h)
extreme-Extreme sell (q ∷ qs) best h =
    subst (λ b. In b (q ∷ qs) × All (NoBetter sell b) (q ∷ qs)) (some-injective h)
      (max_by-In (λ q. q.amount_out) q qs, le-max_by (λ q. q.amount_out) q qs)
extreme-Extreme buy (q ∷ qs) best h =
    subst (λ b. In b (q ∷ qs) × All (NoBetter buy b) (q ∷ qs)) (some-injective h)
      (min_by-In (λ q. q.amount_out) q qs, min_by-le (λ q. q.amount_out) q qs)

-- The quote that is picked is one of the quotes, pays something, and no paying quote is better.
pub pick_best-Picked :
    (quotes : List V3BatchedQuote) (kind : Kind) (best : V3BatchedQuote)
    → pick_best quotes kind ≡ some best
    → Picked quotes kind best
unfolding pick_best
pick_best-Picked quotes kind best h =
    let (found, over) = extreme-Extreme kind (filter is_viable quotes) best h in
    record {
      listed = In-filter best is_viable quotes found;
      pays = ltb→lt 0 best.amount_out (filter-holds best is_viable quotes found);
      no_better = λ q m pos.
          All-In (NoBetter kind best) q (filter is_viable quotes) over
            (filter-In q is_viable quotes m (ground (arith, pos)));
    }
