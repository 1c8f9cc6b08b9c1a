-- ===== src/Prelude/Errors.antt =====
-- Python's exceptions as values. An exception that the program only logs, or whose text it
-- inspects, carries its message.
use mathlib.Core.Path.{◌≡◌, refl}
use Prim.Native.String.{String}
use mathlib.Core.Bool.{Bool}
use cow_solver_skeleton.Prelude.Tests.{if◌then◌else◌}
use mathlib.Core.List.{List, [], ◌∷◌}

pub data Error : Type 0 where
  value_error : String → Error
  zero_division : Error
  other_error : String → Error

-- What a call ends with: the exception that it raises, or the value that it returns.
pub data Result {ℓ} (Value : Type ℓ) : Type ℓ where
  err : (raised : Error) → Result Value
  ok : (value : Value) → Result Value

-- `try: … except Exception: …`
abbrev pub catch {ℓ} : {A : Type ℓ} → Result A → (Error → Result A) → Result A
catch (ok a) f = ok a
catch (err e) f = f e

-- Statements in sequence: an exception skips the rest.
infixl 5 ◌>>=◌
abbrev pub ◌>>=◌ {ℓ κ} :
    {Value : Type ℓ} {Next : Type κ}
    → (first : Result Value) → (rest : Value → Result Next) → Result Next
err raised >>= rest = err raised
ok value >>= rest = rest value

infixl 5 ◌>>◌
abbrev pub ◌>>◌ {κ} :
    {Next : Type κ} → (first : Result (Unit {0})) → (rest : Result Next) → Result Next
err raised >> rest = err raised
ok _ >> rest = rest

-- `if not test: raise ValueError(message)`
abbrev pub require : Bool → String → Result (Unit {0})
require test message = if test then ok tt else err (value_error message)

-- Where a sequence returns, its first statement did, and so did the rest on that value.
pub >>=-eq-ok {ℓ κ} :
    {Value : Type ℓ} {Next : Type κ} (first : Result Value) (rest : Value → Result Next)
    → {last : Next} (returned : (first >>= rest) ≡ ok last)
    → (value : Value) × (first ≡ ok value) × (rest value ≡ ok last)
>>=-eq-ok (err raised) rest returned = cc
>>=-eq-ok (ok value) rest returned = (value, refl, returned)

-- A list comprehension whose elements may raise: the first exception ends it.
unfoldable pub map_m {ℓ κ} : {A : Type ℓ} {B : Type κ} → (A → Result B) → List A → Result (List B)
map_m f [] = ok []
map_m f (x ∷ xs) = do y ← f x; ys ← map_m f xs; ok (y ∷ ys)

pub ok-injective {ℓ} : {A : Type ℓ} {a b : A} → Path (Result A) (ok a) (ok b) → a ≡ b
ok-injective h = cc

pub err-ne-ok {ℓ} : {A : Type ℓ} {a : A} {e : Error} → Path (Result A) (err e) (ok a) → ⊥
err-ne-ok h = cc
