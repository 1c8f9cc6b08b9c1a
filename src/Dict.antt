-- ===== src/Dict.antt =====
-- Python's `dict` with text keys, in insertion order: an assignment to a known key keeps its place.
use text.Mathlib.TextEquality.{eq_iff}
use cow_solver_skeleton.Prelude.{
  String, ◌≡◌, refl, Bool, true, false, Option, none, some, List, [], ◌∷◌, arith, ◌=ₛ◌,
  if◌then◌else◌,
}

abbrev pub Dict {ℓ} : Type ℓ → Type ℓ
Dict V = List (String × V)

module _ {ℓ} {V : Type ℓ} where
  -- `d.get(k)`
  unfoldable pub get : Dict V → String → Option V
  get [] k = none
  get ((j, v) ∷ d) k = if j =ₛ k then some v else get d k

  -- `d[k] = v`
  unfoldable pub put : Dict V → String → V → Dict V
  put [] k v = (k, v) ∷ []
  put ((j, w) ∷ d) k v = if j =ₛ k then (j, v) ∷ d else (j, w) ∷ put d k v

  -- `d.setdefault(k, v)`
  unfoldable pub set_default : Dict V → String → V → Dict V
  set_default d k v = elim (get d k) [ none ↦ put d k v | some _ ↦ d ]

  -- `k in d`
  abbrev pub contains : Dict V → String → Bool
  contains d k = elim (get d k) [ none ↦ false | some _ ↦ true ]

  pub get-put :
      (d : Dict V) (k j : String) (v : V) → get (put d k v) j ≡ (if k =ₛ j then some v else get d j)
  unfolding get put
  get-put [] k j v = refl
  get-put ((i, w) ∷ d) k j v = ground (arith, eq_iff k j, eq_iff i k, eq_iff i j, get-put d k j v)

  pub get-put_self : (d : Dict V) (k : String) (v : V) → get (put d k v) k ≡ some v
  get-put_self d k v = ground (arith, get-put d k k v, eq_iff k k)

  -- A new key leaves the others as they are.
  pub get-put_new :
      (d : Dict V) (k j : String) (v w : V)
      → get d k ≡ none
      → get d j ≡ some w
      → get (put d k v) j ≡ some w
  get-put_new d k j v w new old = ground (arith, get-put d k j v, eq_iff k j)
