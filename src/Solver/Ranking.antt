-- ===== src/Solver/Ranking.antt =====
-- The sort keys of src/solver/router.py, and the ranking of the candidates by them.
pub mod Sorted
use cow_solver_skeleton.Prelude.{
  ℕ, ◌-◌, ◌*◌, ◌/◌, ◌^◌, Bool, true, false, ◌||◌, ◌&&◌, Option, none, some, List, [], ◌∷◌, ltb, leb,
  ◌==◌, if◌then◌else◌,
}
use cow_solver_skeleton.Dict.{get}
use cow_solver_skeleton.Model.{Order, Token, Auction}

abbrev pub wad : ℕ
wad = 10 ^ 18

-- `token_info.reference_price` of a known token, where it is set and not 0
unfoldable pub positive_price : Option Token → Option ℕ
positive_price none = none
positive_price (some t) = elim t.reference_price [
  | none ↦ none
  | some p ↦ if p == 0 then none else some p
]

unfoldable pub eth_value_sort_key : Order → Auction → ℕ
unfolding positive_price
eth_value_sort_key order auction = elim (positive_price (get auction.tokens order.sell_token)) [
  | none ↦ order.sell_amount
  | some price ↦ order.sell_amount * price / wad
]

-- `reference_price` of a known token, where it is set
set_price : Option Token → Option ℕ
set_price none = none
set_price (some t) = t.reference_price

-- `max(0, (sell_value - buy_value) // 10**18)`: a negative difference gives 0, as `-` on ℕ does
headroom_key : Order → Auction → Option ℕ → Option ℕ → ℕ × ℕ
unfolding eth_value_sort_key
headroom_key order auction (some sell_price) (some buy_price) = (
  (order.sell_amount * sell_price - order.buy_amount * buy_price) / wad,
  order.sell_amount * sell_price / wad,
)
headroom_key order auction _ _ =
    (eth_value_sort_key order auction, eth_value_sort_key order auction)

unfoldable pub expected_surplus_sort_key : Order → Auction → ℕ × ℕ
unfolding headroom_key set_price
expected_surplus_sort_key order auction =
    headroom_key order auction (set_price (get auction.tokens order.sell_token))
      (set_price (get auction.tokens order.buy_token))

-- `a <= b` on pairs of ints
abbrev pub key_leb : ℕ × ℕ → ℕ × ℕ → Bool
key_leb (a, b) (c, d) = ltb a c || (a == c && leb b d)

module _ {A : Type 0} (key : A → ℕ × ℕ) where
  insert_ranked : A → List A → List A
  insert_ranked x [] = x ∷ []
  insert_ranked x (y ∷ ys) = if key_leb (key y) (key x) then x ∷ y ∷ ys else y ∷ insert_ranked x ys

  -- `sorted(xs, key=key, reverse=True)`: descending, and stable in the order of the input
  unfoldable pub sorted_desc : List A → List A
  unfolding insert_ranked
  sorted_desc [] = []
  sorted_desc (x ∷ xs) = insert_ranked x (sorted_desc xs)

unfoldable pub rank : Auction → List Order → List Order
unfolding sorted_desc
rank auction = sorted_desc (λ o. expected_surplus_sort_key o auction)
