-- ===== src/Solver/Quotes.antt =====
-- The quotes of all venues, and `RouterSolver._select_best_quote_per_order` of
-- src/solver/router.py.
pub mod Selection
use cow_solver_skeleton.Prelude.{
  ℕ, String, Bool, true, false, not, Option, none, some, List, [], ◌∷◌, ltb, ◌==◌, if◌then◌else◌,
}
use cow_solver_skeleton.Dict.{Dict, get, put}
use cow_solver_skeleton.Routing.V3Batched.{V3Path}
use cow_solver_skeleton.Routing.V4Quoter.{V4Path}
use cow_solver_skeleton.Routing.CurveQuoter.{CurvePath}

-- A path of any venue. `RouteQuote` is the part of the three quote classes that the selection and
-- the encoding read.
pub data RoutePath : Type 0 where
  v3 : V3Path → RoutePath
  v4 : V4Path → RoutePath
  curve : CurvePath → RoutePath

abbrev pub order_uid : RoutePath → String
order_uid (v3 p) = p.order_uid
order_uid (v4 p) = p.order_uid
order_uid (curve p) = p.order_uid

abbrev pub amount_in : RoutePath → ℕ
amount_in (v3 p) = p.amount_in
amount_in (v4 p) = p.amount_in
amount_in (curve p) = p.amount_in

abbrev pub exact_output : RoutePath → Bool
exact_output (v3 p) = p.exact_output
exact_output (v4 p) = p.exact_output
exact_output (curve p) = p.exact_output

pub record RouteQuote : Type 0 where
  pub path : RoutePath
  pub amount_out : ℕ

-- `filter_amount_in is not None and q.path.amount_in != filter_amount_in`, negated
unfoldable pub passes_filter : Option ℕ → RouteQuote → Bool
passes_filter none q = true
passes_filter (some amount) q = amount_in q.path == amount

-- Whether `q` replaces `current`: less input for an exact output, more output for an exact input.
unfoldable pub is_better : RouteQuote → RouteQuote → Bool
is_better q current =
    if exact_output q.path
    then ltb q.amount_out current.amount_out
    else ltb current.amount_out q.amount_out

-- The first quote of an order is kept, later ones replace it where they are strictly better.
choose : Dict RouteQuote → RouteQuote → Option RouteQuote → Dict RouteQuote
unfolding is_better
choose best q none = put best (order_uid q.path) q
choose best q (some current) = if is_better q current then put best (order_uid q.path) q else best

-- One round of the loop.
unfoldable pub consider : Option ℕ → Dict RouteQuote → RouteQuote → Dict RouteQuote
unfolding choose passes_filter
consider filter_amount_in best q =
    if q.amount_out == 0
    then best
    else if not (passes_filter filter_amount_in q)
    then best
    else choose best q (get best (order_uid q.path))

select_from : Option ℕ → Dict RouteQuote → List RouteQuote → Dict RouteQuote
unfolding consider
select_from filter_amount_in best [] = best
select_from filter_amount_in best (q ∷ qs) =
    select_from filter_amount_in (consider filter_amount_in best q) qs

unfoldable pub select_best_quote_per_order : List RouteQuote → Option ℕ → Dict RouteQuote
unfolding select_from
select_best_quote_per_order quotes filter_amount_in = select_from filter_amount_in [] quotes
