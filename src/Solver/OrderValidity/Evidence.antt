-- ===== src/Solver/OrderValidity/Evidence.antt =====
-- About the orders that src/solver/order_validity.py drops.
use text.Mathlib.TextEquality.{eq_iff}
use cow_solver_skeleton.Prelude.{
  ℕ, ◌≤◌, ◌<◌, ltb, ◌&&◌, ◌||◌, String, ◌=ₛ◌, ◌≡◌, refl, subst, sym, ap, ◌∙◌, ◌⊎◌, inl, inr, Bool,
  true, false, Option, none, some, none-ne-some, some-injective, ◌>>=◌, List, [], ◌∷◌, In, All-In,
  Option-cases, Bool-cases, arith, ok, false-ne-true,
}
use cow_solver_skeleton.Dict.{Dict, contains, get, put, get-put}
use cow_solver_skeleton.Model.{Order}
use cow_solver_skeleton.Routing.Multicall.{Multicall3}
use cow_solver_skeleton.Solver.OrderValidity.{
  Reading, Reason, already_filled, presignature_missing, insufficient_balance,
  insufficient_allowance, target_amount, required_funding, is_filled, is_short, is_absent,
  drop_reason, note_drop, dropped_from, judge, index_by_uid, read_orders, check_orders, or_keep,
  filter_valid_orders, Verdict,
}
use cow_solver_skeleton.Solver.OrderValidity.Partition.{filter_valid_orders-Splits}

-- A reading of less than what the order needs.
abbrev Lacks : Option ℕ → ℕ → Type 0
Lacks reading required = (v : ℕ) × (reading ≡ some v) × (v < required)

-- The readings speak against the order: it is filled, its presignature is missing, or the owner's
-- balance or allowance is less than the funding that it requires.
abbrev pub Evidence : Order → Reading → Type 0
Evidence o r =
    ((f : ℕ) × (r.filled ≡ some f)
      × (0 < f)
      × ((o.partially_fillable ≡ false) ⊎ (target_amount o ≤ f)))
    ⊎ ((r.presig ≡ some 0)
        ⊎ (Lacks r.balance (required_funding o r.filled)
            ⊎ Lacks r.allowance (required_funding o r.filled)))

is_filled-inv :
    (o : Order) (v : Option ℕ)
    → is_filled o v ≡ true
    → (f : ℕ) × (v ≡ some f) × (0 < f) × ((o.partially_fillable ≡ false) ⊎ (target_amount o ≤ f))
unfolding is_filled
is_filled-inv o none h = absurd (false-ne-true h)
is_filled-inv o (some f) h = elim (Bool-cases o.partially_fillable) [
  | inl e ↦ (f, refl, ground (arith, h), inr (ground (arith, h, e)))
  | inr e ↦ (f, refl, ground (arith, h), inl e)
]

is_absent-inv : (v : Option ℕ) → is_absent v ≡ true → v ≡ some 0
unfolding is_absent
is_absent-inv none h = absurd (false-ne-true h)
is_absent-inv (some n) h = ap some (ground (arith, h))

is_short-inv : (v : Option ℕ) (n : ℕ) → (ltb 0 n && is_short v n) ≡ true → Lacks v n
unfolding is_short
is_short-inv none n h = absurd (ground (arith, h))
is_short-inv (some v) n h = (v, refl, ground (arith, h))

filled-is_filled :
    (o : Order) (v : Option ℕ) (f : ℕ)
    → v ≡ some f
    → 0 < f
    → (o.partially_fillable ≡ false) ⊎ (target_amount o ≤ f)
    → is_filled o v ≡ true
unfolding is_filled
filled-is_filled o v f e pos (inl whole) = rw (e, is_filled) (ground (arith, pos, whole))
filled-is_filled o v f e pos (inr most) = rw (e, is_filled) (ground (arith, pos, most))

Lacks-is_short : (v : Option ℕ) (n : ℕ) → Lacks v n → (ltb 0 n && is_short v n) ≡ true
unfolding is_short
Lacks-is_short v n (w, e, lt) = rw (e, is_short) (ground (arith, lt))

module _ (o : Order) (r : Reading) where
  abbrev short : Option ℕ → Bool
  short v = ltb 0 (required_funding o r.filled) && is_short v (required_funding o r.filled)

  drop_reason-Evidence : (why : Reason) → drop_reason o r ≡ some why → Evidence o r
  unfolding drop_reason
  drop_reason-Evidence why h = elim (Bool-cases (is_filled o r.filled)) [
    | inl a ↦ inl (is_filled-inv o r.filled a)
    | inr a ↦ elim (Bool-cases (is_absent r.presig)) [
      | inl b ↦ inr (inl (is_absent-inv r.presig b))
      | inr b ↦ elim (Bool-cases (short r.balance)) [
        | inl c ↦ inr (inr (inl (is_short-inv r.balance _ c)))
        | inr c ↦ elim (Bool-cases (short r.allowance)) [
          | inl d ↦ inr (inr (inr (is_short-inv r.allowance _ d)))
          | inr d ↦ absurd (none-ne-some (rw (a, b, c, d, drop_reason) at h))
        ]
      ]
    ]
  ]

  Evidence-tests :
      is_filled o r.filled ≡ false
      → is_absent r.presig ≡ false
      → short r.balance ≡ false
      → short r.allowance ≡ false
      → Evidence o r
      → ⊥
  unfolding is_absent
  Evidence-tests a b c d (inl (f, e, pos, lim)) =
      false-ne-true (sym a ∙ filled-is_filled o r.filled f e pos lim)
  Evidence-tests a b c d (inr (inl e)) = false-ne-true (sym b ∙ ap is_absent e)
  Evidence-tests a b c d (inr (inr (inl l))) = false-ne-true (sym c ∙ Lacks-is_short r.balance _ l)
  Evidence-tests a b c d (inr (inr (inr l))) =
      false-ne-true (sym d ∙ Lacks-is_short r.allowance _ l)

  Evidence-drop_reason : Evidence o r → (why : Reason) × (drop_reason o r ≡ some why)
  unfolding drop_reason
  Evidence-drop_reason h = elim (Bool-cases (is_filled o r.filled)) [
    | inl a ↦ (already_filled, rw (a, drop_reason) refl)
    | inr a ↦ elim (Bool-cases (is_absent r.presig)) [
      | inl b ↦ (presignature_missing, rw (a, b, drop_reason) refl)
      | inr b ↦ elim (Bool-cases (short r.balance)) [
        | inl c ↦ (insufficient_balance, rw (a, b, c, drop_reason) refl)
        | inr c ↦ elim (Bool-cases (short r.allowance)) [
          | inl d ↦ (insufficient_allowance, rw (a, b, c, d, drop_reason) refl)
          | inr d ↦ absurd (Evidence-tests a b c d h)
        ]
      ]
    ]
  ]

contains-put :
    (d : Dict Reason) (k j : String) (v : Reason)
    → contains (put d k v) j ≡ ((k =ₛ j) || contains d j)
contains-put d k j v = ground (arith, get-put d k j v)

-- The reading of the uid that the loop drops an order for.
record Drops (by_uid : Dict Order) (readings : List (String × Reading)) (uid : String)
    : Type 0 where
  reading : Reading
  order : Order
  why : Reason
  listed : In (uid, reading) readings
  known : get by_uid uid ≡ some order
  drops : drop_reason order reading ≡ some why

module _ (by_uid : Dict Order) where
  Drops-later :
      (x : String × Reading) (readings : List (String × Reading)) (uid : String)
      → Drops by_uid readings uid
      → Drops by_uid (x ∷ readings) uid
  Drops-later x readings uid d = record {
    reading = d.reading;
    order = d.order;
    why = d.why;
    listed = inr d.listed;
    known = d.known;
    drops = d.drops;
  }

  -- A round of the loop drops the uid of a reading that speaks against its order, and keeps what was
  -- dropped before.
  note_drop-cases :
      (gone : Dict Reason) (uid : String) (r : Reading)
      → (note_drop gone uid r (get by_uid uid) ≡ gone)
        ⊎ ((o : Order) × (why : Reason) × (get by_uid uid ≡ some o)
            × (drop_reason o r ≡ some why)
            × (note_drop gone uid r (get by_uid uid) ≡ put gone uid why))
  unfolding note_drop
  note_drop-cases gone uid r = elim (Option-cases (get by_uid uid)) [
    | inl e ↦ inl (rw (e, note_drop) refl)
    | inr (o, e) ↦ elim (Option-cases (drop_reason o r)) [
      | inl f ↦ inl (rw (e, f, note_drop) refl)
      | inr (why, f) ↦ inr (o, why, e, f, rw (e, f, note_drop) refl)
    ]
  ]

  or-true : (b c : Bool) → (b || c) ≡ true → (b ≡ true) ⊎ (c ≡ true)
  or-true true c h = inl refl
  or-true false c h = inr h

  true-or : (b c : Bool) → c ≡ true → (b || c) ≡ true
  true-or true c h = refl
  true-or false c h = h

  dropped_from-Drops :
      (readings : List (String × Reading)) (gone : Dict Reason) (uid : String)
      → contains (dropped_from by_uid readings gone) uid ≡ true
      → (contains gone uid ≡ true) ⊎ Drops by_uid readings uid
  unfolding dropped_from
  dropped_from-Drops [] gone uid h = inl h
  dropped_from-Drops ((k, r) ∷ readings) gone uid h =
      elim (dropped_from-Drops readings (note_drop gone k r (get by_uid k)) uid h) [
        | inr d ↦ inr (Drops-later (k, r) readings uid d)
        | inl now ↦ elim (note_drop-cases gone k r) [
          | inl same ↦ inl (sym (ap (λ d. contains d uid) same) ∙ now)
          | inr (o, why, known, drops, new) ↦
              elim (or-true (k =ₛ uid) (contains gone uid)
                (sym (contains-put gone k uid why) ∙ sym (ap (λ d. contains d uid) new) ∙ now)) [
                  | inr old ↦ inl old
                  | inl here ↦ inr (
                      subst (Drops by_uid ((k, r) ∷ readings)) ((eq_iff k uid).0 here) (record {
                        reading = r;
                        order = o;
                        why = why;
                        listed = inl refl;
                        known = known;
                        drops = drops;
                      }))
                ]
        ]
      ]

  dropped_from-keeps :
      (readings : List (String × Reading)) (gone : Dict Reason) (uid : String)
      → contains gone uid ≡ true
      → contains (dropped_from by_uid readings gone) uid ≡ true
  unfolding dropped_from
  dropped_from-keeps [] gone uid h = h
  dropped_from-keeps ((k, r) ∷ readings) gone uid h =
      dropped_from-keeps readings (note_drop gone k r (get by_uid k)) uid
        (elim (note_drop-cases gone k r) [
          | inl same ↦ ap (λ d. contains d uid) same ∙ h
          | inr (o, why, known, drops, new) ↦
              ap (λ d. contains d uid) new
              ∙ contains-put gone k uid why
              ∙ true-or (k =ₛ uid) (contains gone uid) h
        ])

  Drops-dropped_from :
      (readings : List (String × Reading)) (gone : Dict Reason) (uid : String) (r : Reading)
      (o : Order) (why : Reason)
      → In (uid, r) readings
      → get by_uid uid ≡ some o
      → drop_reason o r ≡ some why
      → contains (dropped_from by_uid readings gone) uid ≡ true
  unfolding dropped_from note_drop
  Drops-dropped_from [] gone uid r o why m known drops = absurd m
  Drops-dropped_from ((k, q) ∷ readings) gone uid r o why (inr m) known drops =
      Drops-dropped_from readings (note_drop gone k q (get by_uid k)) uid r o why m known drops
  Drops-dropped_from ((k, q) ∷ readings) gone uid r o why (inl e) known drops =
      subst (λ x. contains (dropped_from by_uid (x ∷ readings) gone) uid ≡ true) e
        (dropped_from-keeps readings (note_drop gone uid r (get by_uid uid)) uid (
          ap (λ d. contains d uid) (noted known drops)
          ∙ contains-put gone uid uid why
          ∙ ap (λ b. b || contains gone uid) ((eq_iff uid uid).1 refl)))
    where
      noted :
          get by_uid uid ≡ some o
          → drop_reason o r ≡ some why
          → note_drop gone uid r (get by_uid uid) ≡ put gone uid why
      noted e f = rw (e, f, note_drop) refl

-- The verdict on the order: dropped exactly where one of its readings speaks against it, and kept
-- otherwise.
pub record Judged (readings : Dict Reading) (o : Order) (v : Verdict) : Type 0 where
  pub justified : contains v.1 o.uid ≡ true → (r : Reading) × In (o.uid, r) readings × Evidence o r
  pub complete : (r : Reading) → In (o.uid, r) readings → Evidence o r → contains v.1 o.uid ≡ true
  pub kept : contains v.1 o.uid ≡ false → In o v.0
  pub gone : contains v.1 o.uid ≡ true → In o v.0 → ⊥

-- Where the checks of the orders could be read, an order that is the last one of its uid has a
-- dropped uid exactly where a reading of the uid says that it is filled, its presignature is
-- missing, or its owner's balance or allowance is less than the funding that it requires; it is
-- kept exactly where its uid is not dropped.
pub filter_valid_orders-Judged :
    (m : Multicall3) (settlement_addr vault_relayer block : String) (orders : List Order)
    (readings : Dict Reading) (o : Order)
    → read_orders m settlement_addr vault_relayer block orders ≡ ok readings
    → In o orders
    → get (index_by_uid [] orders) o.uid ≡ some o
    → Judged readings o (filter_valid_orders m settlement_addr vault_relayer block orders)
unfolding filter_valid_orders check_orders or_keep judge get
filter_valid_orders-Judged m s v block [] readings o read listed known = absurd listed
filter_valid_orders-Judged m s v block (first ∷ rest) readings o read listed known =
    let split = filter_valid_orders-Splits m s v block (first ∷ rest) in
    record {
      justified = λ h. justify (
          dropped_from-Drops (index_by_uid [] (first ∷ rest)) readings [] o.uid
            (sym (ap (λ d. contains d o.uid) verdict) ∙ h));
      complete = λ r m e.
          let (why, drops) = Evidence-drop_reason o r e in
          ap (λ d. contains d o.uid) verdict
          ∙ Drops-dropped_from (index_by_uid [] (first ∷ rest)) readings [] o.uid r o why m known
              drops;
      kept = λ h. unless_dropped h (
          All-In
            (λ x.
              In x (filter_valid_orders m s v block (first ∷ rest)).0
              ⊎ (contains (filter_valid_orders m s v block (first ∷ rest)).1 x.uid ≡ true))
            o (first ∷ rest) split.1 listed);
      gone = λ h k. false-ne-true (
          sym (
            All-In (λ x. contains (filter_valid_orders m s v block (first ∷ rest)).1 x.uid ≡ false)
              o (filter_valid_orders m s v block (first ∷ rest)).0 split.0 k)
          ∙ h);
    }
  where
    verdict :
        (filter_valid_orders m s v block (first ∷ rest)).1
        ≡ dropped_from (index_by_uid [] (first ∷ rest)) readings []
    verdict = ap (λ x. (or_keep (first ∷ rest) (x >>= λ q. ok (judge (first ∷ rest) q))).1) read

    justify :
        (contains {V = Reason} [] o.uid ≡ true)
          ⊎ Drops (index_by_uid [] (first ∷ rest)) readings o.uid
        → (r : Reading) × In (o.uid, r) readings × Evidence o r
    justify (inl h) = absurd (false-ne-true h)
    justify (inr d) = (
      d.reading,
      d.listed,
      drop_reason-Evidence o d.reading d.why
          (ap (λ x. drop_reason x d.reading) (some-injective (sym known ∙ d.known)) ∙ d.drops),
    )

    unless_dropped : {A : Type 0} {b : Bool} → b ≡ false → A ⊎ (b ≡ true) → A
    unless_dropped e (inl a) = a
    unless_dropped e (inr t) = absurd (false-ne-true (sym e ∙ t))
