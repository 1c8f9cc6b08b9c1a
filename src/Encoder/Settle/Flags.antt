-- ===== src/Encoder/Settle/Flags.antt =====
-- About the bits of `encode_trade_flags`.
use cow_solver_skeleton.Prelude.{
  ℕ, sym, ◌*◌, ◌/◌, ◌%◌, ◌<◌, ltb, String, Bool, true, false, ◌&&◌, ◌≡◌, refl, Option, none, some,
  some-injective, List, [], ◌∷◌, map, In, subst, lower, ◌=ₛ◌, ◌==◌, if◌then◌else◌, inl, inr, arith,
  ok, Bool-cases, Option-cases, ok-injective, err-ne-ok,
}
use cow_solver_skeleton.Dict.{Dict, get}
use cow_solver_skeleton.Encoder.Settle.{
  scheme_index, sell_balance, buy_balance, get_or_0, pack_flags, encode_trade_flags,
}

-- `p` holds of every element.
all_in : {A : Type 0} → (A → Bool) → List A → Bool
all_in p [] = true
all_in p (x ∷ xs) = p x && all_in p xs

all_in_sound :
    {A : Type 0} (p : A → Bool) (xs : List A) → all_in p xs ≡ true → (x : A) → In x xs → p x ≡ true
unfolding all_in
all_in_sound p [] h x m = absurd m
all_in_sound p (y ∷ ys) h x (inl e) = ground arith
all_in_sound p (y ∷ ys) h x (inr m) = all_in_sound p ys (ground arith) x m

-- The flags hold the kind in bit 0, partiallyFillable in bit 1, the balances in bits 2-3 and 4 and
-- the index of the scheme from bit 5 on, and nothing above bit 6. The first four fields are given in
-- place.
abbrev pub FieldsOf : ℕ → ℕ → ℕ → ℕ → ℕ → ℕ → Type 0
FieldsOf kind partial sell_from buy_to scheme flags =
    (flags % 2 ≡ kind)
    × (flags / 2 % 2 * 2 ≡ partial)
    × (flags / 4 % 4 * 4 ≡ sell_from)
    × (flags / 16 % 2 * 16 ≡ buy_to)
    × (flags / 32 ≡ scheme)
    × (flags < 128)

-- The same as a test, on the flags that are packed.
fields_agree : ℕ → ℕ → ℕ → ℕ → ℕ → Bool
unfolding pack_flags
fields_agree kind partial sell_from buy_to scheme =
    let flags = pack_flags kind partial sell_from buy_to scheme in
    (flags % 2 == kind)
    && (flags / 2 % 2 * 2 == partial)
    && (flags / 4 % 4 * 4 == sell_from)
    && (flags / 16 % 2 * 16 == buy_to)
    && (flags / 32 == scheme)
    && ltb flags 128

abbrev kinds : List ℕ
kinds = 0 ∷ 1 ∷ []

abbrev partials : List ℕ
partials = 2 ∷ 0 ∷ []

abbrev indices : Dict ℕ → List ℕ
indices d = map (λ p. p.1) d

abbrev fields_on_schemes : ℕ → ℕ → ℕ → ℕ → Bool
fields_on_schemes k p s b = all_in (fields_agree k p s b) (indices scheme_index)

abbrev fields_on_buys : ℕ → ℕ → ℕ → Bool
fields_on_buys k p s = all_in (fields_on_schemes k p s) (0 ∷ indices buy_balance)

abbrev fields_on_sells : ℕ → ℕ → Bool
fields_on_sells k p = all_in (fields_on_buys k p) (0 ∷ indices sell_balance)

fields_table : all_in (λ k. all_in (fields_on_sells k) partials) kinds ≡ true
unfolding all_in fields_agree
fields_table = refl

fields_agree_lem :
    (k p s b i : ℕ)
    → In k kinds
    → In p partials
    → In s (0 ∷ indices sell_balance)
    → In b (0 ∷ indices buy_balance)
    → In i (indices scheme_index)
    → fields_agree k p s b i ≡ true
fields_agree_lem k p s b i hk hp hs hb hi =
    all_in_sound (fields_agree k p s b) _
      (all_in_sound (fields_on_schemes k p s) _
        (all_in_sound (fields_on_buys k p) _
          (all_in_sound (fields_on_sells k) _
            (all_in_sound (λ k. all_in (fields_on_sells k) partials) _ fields_table k hk) p hp)
          s hs)
        b hb)
      i hi

get-In : (d : Dict ℕ) (k : String) (n : ℕ) → get d k ≡ some n → In n (map (λ p. p.1) d)
unfolding get
get-In [] k n h = cc
get-In ((j, m) ∷ d) k n h = elim (Bool-cases (j =ₛ k)) [
  | inl e ↦ inl (sym (some-injective (rw (e, get) at h)))
  | inr e ↦ inr (get-In d k n (rw (e, get) at h))
]

value_or_0 : Option ℕ → ℕ
value_or_0 o = elim o [ none ↦ 0 | some n ↦ n ]

value_or_0-In :
    (o : Option ℕ) (ns : List ℕ) → ((n : ℕ) → o ≡ some n → In n ns) → In (value_or_0 o) (0 ∷ ns)
unfolding value_or_0
value_or_0-In none ns f = inl refl
value_or_0-In (some n) ns f = inr (f n refl)

get_or_0-In : (d : Dict ℕ) (k : String) → In (get_or_0 d k) (0 ∷ map (λ p. p.1) d)
unfolding get_or_0 value_or_0
get_or_0-In d k = value_or_0-In (get d k) _ (get-In d k)

choice-In : (b : Bool) (m n : ℕ) → In (if b then m else n) (m ∷ n ∷ [])
choice-In true m n = inl refl
choice-In false m n = inr (inl refl)

agreed : (k p s b i : ℕ) → fields_agree k p s b i ≡ true → FieldsOf k p s b i (pack_flags k p s b i)
unfolding fields_agree
agreed k p s b i h = ground arith

-- The flags that `encode_trade_flags` packs give back the kind, the fill mode, the two balances
-- and the signing scheme at their bit positions.
pub encode_trade_flags-fields :
    (kind : String) (partially_fillable : Bool) (scheme sell_from buy_to : String) (flags : ℕ)
    → encode_trade_flags kind partially_fillable scheme sell_from buy_to ≡ ok flags
    → (index : ℕ) × (get scheme_index (lower scheme) ≡ some index)
      × FieldsOf
          (if lower kind =ₛ "sell" then 0 else 1)
          (if partially_fillable then 2 else 0)
          (get_or_0 sell_balance (lower sell_from))
          (get_or_0 buy_balance (lower buy_to))
          index
          flags
unfolding encode_trade_flags
encode_trade_flags-fields kind partially_fillable scheme sell_from buy_to flags h =
    elim (Option-cases (get scheme_index (lower scheme))) [
      | inl e ↦ absurd (err-ne-ok (rw (e, encode_trade_flags) at h))
      | inr (index, e) ↦ (
        index,
        e,
        subst (FieldsOf _ _ _ _ index) (ok-injective (rw (e, encode_trade_flags) at h)) (
            agreed _ _ _ _ index (
              fields_agree_lem _ _ _ _ index (choice-In _ 0 1) (choice-In _ 2 0)
                (get_or_0-In sell_balance _) (get_or_0-In buy_balance _)
                (get-In scheme_index _ index e))),
      )
    ]
