-- ===== src/Solver/OrderValidity/Partition.antt =====
-- About the verdict of src/solver/order_validity.py.
use cow_solver_skeleton.Prelude.{
  String, ◌≡◌, refl, subst, ◌⊎◌, inl, inr, Bool, true, false, not, List, [], ◌∷◌, In, All,
  All-of_All, All-of_In, All-impl, filter, arith, Bool-cases, Result, ok, err, >>=-eq-ok,
  ok-injective,
}
use cow_solver_skeleton.Dict.{Dict, contains, get}
use cow_solver_skeleton.Model.{Order}
use cow_solver_skeleton.Routing.Multicall.{Multicall3}
use cow_solver_skeleton.Solver.OrderValidity.{
  filter_valid_orders, read_orders, check_orders, or_keep, judge, Verdict, Reason,
}

-- The two parts of a verdict on the orders.
abbrev pub Splits : List Order → Verdict → Type 0
Splits orders v =
    All (λ o. contains v.1 o.uid ≡ false) v.0
    × All (λ o. In o v.0 ⊎ (contains v.1 o.uid ≡ true)) orders

module _ (p : Order → Bool) where
  filter_tests : (orders : List Order) → All (λ o. p o ≡ true) (filter p orders)
  filter_tests [] = tt
  filter_tests (o ∷ os) = ground (arith, filter_tests os)

  In-filter_of :
      (o : Order) (orders : List Order) → In o orders → p o ≡ true → In o (filter p orders)
  In-filter_of o [] m h = m
  In-filter_of o (x ∷ xs) (inl e) h =
      let here = subst (λ y. p y ≡ true) e h in ground (arith, here, e)
  In-filter_of o (x ∷ xs) (inr m) h = ground (arith, In-filter_of o xs m h)

not-true : (b : Bool) → not b ≡ true → b ≡ false
not-true b h = ground arith

filtered-Splits :
    (orders : List Order) (gone : Dict Reason)
    → Splits orders (filter (λ o. not (contains gone o.uid)) orders, gone)
filtered-Splits orders gone = (
  All-impl (λ o. not (contains gone o.uid) ≡ true) (λ o. contains gone o.uid ≡ false)
      (λ o h. not-true (contains gone o.uid) h) _
      (filter_tests (λ o. not (contains gone o.uid)) orders),
  All-of_In
      (λ o. In o (filter (λ o. not (contains gone o.uid)) orders) ⊎ (contains gone o.uid ≡ true))
      orders
      (λ o m. elim (Bool-cases (contains gone o.uid)) [
        | inl dropped ↦ inr dropped
        | inr kept ↦ inl (In-filter_of (λ o. not (contains gone o.uid)) o orders m (rw kept refl))
      ]),
)

all_kept-Splits : (orders : List Order) → Splits orders (orders, [])
unfolding get
all_kept-Splits orders = (
  All-of_All (λ o. contains {V = Reason} [] o.uid ≡ false) (λ o. refl) orders,
  All-of_In (λ o. In o orders ⊎ (contains {V = Reason} [] o.uid ≡ true)) orders (λ o m. inl m),
)

or_keep-Splits :
    (orders : List Order) (v : Result Verdict)
    → ((w : Verdict) → v ≡ ok w → Splits orders w)
    → Splits orders (or_keep orders v)
unfolding or_keep
or_keep-Splits orders (ok v) f = f v refl
or_keep-Splits orders (err e) f = all_kept-Splits orders

check_orders-Splits :
    (m : Multicall3) (settlement_addr vault_relayer block : String) (orders : List Order)
    (v : Verdict)
    → check_orders m settlement_addr vault_relayer block orders ≡ ok v
    → Splits orders v
unfolding check_orders judge
check_orders-Splits m settlement_addr vault_relayer block orders v h =
    let (readings, read, h₃) =
      >>=-eq-ok (read_orders m settlement_addr vault_relayer block orders) _ h in
    subst (Splits orders) (ok-injective h₃) (filtered-Splits orders _)

-- The uid of a kept order is not among the dropped ones, and every order is kept or has a dropped
-- uid, whatever the node answers.
pub filter_valid_orders-Splits :
    (m : Multicall3) (settlement_addr vault_relayer block : String) (orders : List Order)
    → Splits orders (filter_valid_orders m settlement_addr vault_relayer block orders)
unfolding filter_valid_orders
filter_valid_orders-Splits m settlement_addr vault_relayer block [] = (tt, tt)
filter_valid_orders-Splits m settlement_addr vault_relayer block (o ∷ os) =
    or_keep-Splits (o ∷ os) _
      (λ v e. check_orders-Splits m settlement_addr vault_relayer block (o ∷ os) v e)
