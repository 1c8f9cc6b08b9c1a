-- ===== src/Prelude/Text.antt =====
-- Text: Python's `str.lower` and `in` on the ASCII texts of the program (addresses, uids, kinds), and
-- equality of texts.
use Prim.Native.Char.{Char, code}
use Prim.Native.String.{String}
use mathlib.Core.Path.{◌≡◌, refl}
use mathlib.Core.Bool.{Bool, true, false}
use mathlib.Core.Option.{none, some}
use mathlib.Core.List.{List, [], ◌∷◌}
use text.Mathlib.Text.{find?, ◌==◌ as str_eq}
use cow_solver_skeleton.Prelude.Tests.{◌==◌, if◌then◌else◌}

-- The capital letters of ASCII with their small letters. Other characters are left alone: the
-- program lowers hexadecimal addresses, uids and keywords.
abbrev letters : List (Char × Char)
letters =
    ("A", "a")
    ∷ ("B", "b")
    ∷ ("C", "c")
    ∷ ("D", "d")
    ∷ ("E", "e")
    ∷ ("F", "f")
    ∷ ("G", "g")
    ∷ ("H", "h")
    ∷ ("I", "i")
    ∷ ("J", "j")
    ∷ ("K", "k")
    ∷ ("L", "l")
    ∷ ("M", "m")
    ∷ ("N", "n")
    ∷ ("O", "o")
    ∷ ("P", "p")
    ∷ ("Q", "q")
    ∷ ("R", "r")
    ∷ ("S", "s")
    ∷ ("T", "t")
    ∷ ("U", "u")
    ∷ ("V", "v")
    ∷ ("W", "w")
    ∷ ("X", "x")
    ∷ ("Y", "y")
    ∷ ("Z", "z")
    ∷ []

lower_in : List (Char × Char) → Char → Char
lower_in [] c = c
lower_in ((big, small) ∷ rest) c = if code c == code big then small else lower_in rest c

-- `s.lower()`
unfoldable pub lower : String → String
unfolding lower_in
lower String.[] = String.[]
lower (String.◌∷◌ c s) = String.◌∷◌ (lower_in letters c) (lower s)

-- `marker in s`
abbrev pub occurs : String → String → Bool
occurs marker s = elim (find? s marker) [ none ↦ false | some _ ↦ true ]

-- `t in ts`
abbrev pub text_mem : String → List String → Bool
text_mem t [] = false
text_mem t (u ∷ ts) = if str_eq t u then true else text_mem t ts

lower_address : lower "0xC92E8bdf79" ≡ "0xc92e8bdf79"
unfolding lower
lower_address = refl
