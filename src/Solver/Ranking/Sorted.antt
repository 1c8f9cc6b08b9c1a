-- ===== src/Solver/Ranking/Sorted.antt =====
-- About the ranking of the candidates in src/solver/router.py.
use cow_solver_skeleton.Prelude.{
  ℕ, ◌*◌, ◌-◌, ◌/◌, ◌^◌, ◌≤◌, ◌++◌, some, In, All-In, sym, ap, subst, ◌≡◌, true, false, List, [],
  ◌∷◌, All, All-impl, arith, Bool-cases, inl, inr, ◌∙◌,
}
use cow_solver_skeleton.Solver.Ranking.{
  key_leb, insert_ranked, sorted_desc, rank, expected_surplus_sort_key, headroom_key, set_price,
}
use cow_solver_skeleton.Dict.{get}
use cow_solver_skeleton.Model.{Order, Token, Auction}

key_leb-total : (j k : ℕ × ℕ) → key_leb j k ≡ false → key_leb k j ≡ true
key_leb-total (a, b) (c, d) h = ground arith

key_leb_trans : (i j k : ℕ × ℕ) → key_leb i j ≡ true → key_leb j k ≡ true → key_leb i k ≡ true
key_leb_trans (a, b) (c, d) (e, f) h g = ground arith

module _ {A : Type 0} (key : A → ℕ × ℕ) where
  -- Every element is at least as large as those after it.
  abbrev pub IsDescending : List A → Type 0
  IsDescending [] = Unit
  IsDescending (x ∷ xs) = All (λ y. key_leb (key y) (key x) ≡ true) xs × IsDescending xs

  module _ {κ} (P : A → Type κ) where
    insert_ranked-All : (x : A) (xs : List A) → P x → All P xs → All P (insert_ranked key x xs)
    unfolding insert_ranked
    insert_ranked-All x [] p h = (p, tt)
    insert_ranked-All x (y ∷ ys) p h = ground (arith, p, h, insert_ranked-All x ys p h.1)

    pub sorted_desc-All : (xs : List A) → All P xs → All P (sorted_desc key xs)
    unfolding sorted_desc
    sorted_desc-All [] h = tt
    sorted_desc-All (x ∷ xs) h = insert_ranked-All x _ h.0 (sorted_desc-All xs h.1)

  insert_ranked-IsDescending :
      (x : A) (xs : List A) → IsDescending xs → IsDescending (insert_ranked key x xs)
  unfolding insert_ranked
  insert_ranked-IsDescending x [] h = (tt, tt)
  insert_ranked-IsDescending x (y ∷ ys) h = elim (Bool-cases (key_leb (key y) (key x))) [
    | inl first ↦
        rw first
          ((first, All-impl _ _ (λ z le. key_leb_trans (key z) (key y) (key x) le first) ys h.0), h)
    | inr later ↦ rw later (
      insert_ranked-All (λ z. key_leb (key z) (key y) ≡ true) x ys
          (key_leb-total (key y) (key x) later) h.0,
      insert_ranked-IsDescending x ys h.1,
    )
  ]

  -- The ranked list is descending in its key.
  pub sorted_desc-IsDescending : (xs : List A) → IsDescending (sorted_desc key xs)
  unfolding sorted_desc
  sorted_desc-IsDescending [] = tt
  sorted_desc-IsDescending (x ∷ xs) = insert_ranked-IsDescending x _ (sorted_desc-IsDescending xs)

  -- An element is at least as large as one after it.
  IsDescending-later :
      (before after : List A) (x y : A)
      → IsDescending (before ++ x ∷ after)
      → In y after
      → key_leb (key y) (key x) ≡ true
  IsDescending-later [] after x y d m = All-In (λ z. key_leb (key z) (key x) ≡ true) y after d.0 m
  IsDescending-later (b ∷ before) after x y d m = IsDescending-later before after x y d.1 m

-- The reference prices of the order's two tokens.
pub record Priced (auction : Auction) (o : Order) (sell_price buy_price : ℕ) : Type 0 where
  pub sell_info : Token
  pub buy_info : Token
  pub sell_known : get auction.tokens o.sell_token ≡ some sell_info
  pub buy_known : get auction.tokens o.buy_token ≡ some buy_info
  pub sell_priced : sell_info.reference_price ≡ some sell_price
  pub buy_priced : buy_info.reference_price ≡ some buy_price

key_leb-first : (a b c d : ℕ) → key_leb (a, b) (c, d) ≡ true → a ≤ c
key_leb-first a b c d h = ground (arith, h)

Priced-key :
    (auction : Auction) (o : Order) (sell_price buy_price : ℕ)
    → Priced auction o sell_price buy_price
    → expected_surplus_sort_key o auction ≡ (
      (o.sell_amount * sell_price - o.buy_amount * buy_price) / 10 ^ 18,
      o.sell_amount * sell_price / 10 ^ 18,
    )
unfolding expected_surplus_sort_key headroom_key set_price
Priced-key auction o s b p =
    ap (λ x. headroom_key o auction (set_price x) (set_price (get auction.tokens o.buy_token)))
      p.sell_known
    ∙ ap (λ x. headroom_key o auction x (set_price (get auction.tokens o.buy_token))) p.sell_priced
    ∙ ap (λ x. headroom_key o auction (some s) (set_price x)) p.buy_known
    ∙ ap (λ x. headroom_key o auction (some s) x) p.buy_priced

-- Of two orders whose tokens have reference prices, the one that is ranked later has at most the
-- expected surplus of the earlier: the value sold less the value asked for, not below 0, in whole
-- units of 10^18.
pub rank-surplus :
    (auction : Auction) (orders before after : List Order) (o later : Order)
    (sell_price buy_price later_sell_price later_buy_price : ℕ)
    → rank auction orders ≡ before ++ o ∷ after
    → In later after
    → Priced auction o sell_price buy_price
    → Priced auction later later_sell_price later_buy_price
    → (later.sell_amount * later_sell_price - later.buy_amount * later_buy_price) / 10 ^ 18
      ≤ (o.sell_amount * sell_price - o.buy_amount * buy_price) / 10 ^ 18
unfolding rank
rank-surplus auction orders before after o later s b ls lb ranked m p q = key_leb-first _ _ _ _ (
    sym (
      ap (λ k. key_leb k (expected_surplus_sort_key o auction)) (Priced-key auction later ls lb q)
      ∙ ap (key_leb _) (Priced-key auction o s b p))
    ∙ IsDescending-later (λ x. expected_surplus_sort_key x auction) before after o later
        (subst (IsDescending (λ x. expected_surplus_sort_key x auction)) ranked
          (sorted_desc-IsDescending (λ x. expected_surplus_sort_key x auction) orders))
        m)
