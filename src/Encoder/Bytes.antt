-- ===== src/Encoder/Bytes.antt =====
-- Python's byte strings and texts as far as the encoders use them: `bytes.fromhex`, `bytes.hex`,
-- `int.to_bytes`, `int(s, 16)`, `str(n)`, slices and `rjust`. A byte string is a list of numbers
-- below 256.
use Prim.Native.Char.{Char, code}
use Prim.Native.String.{count, ◌++◌ as ◌++ₛ◌}
use cow_solver_skeleton.Prelude.{
  ℕ, zero, suc, ◌≡◌, refl, arith, ◌+◌, ◌-◌, ◌*◌, ◌/◌, ◌%◌, ◌^◌, String, Bool, true, false, ◌&&◌,
  ◌||◌, Option, none, some, List, [], ◌∷◌, ltb, leb, ◌==◌, if◌then◌else◌, Result, ok, err,
  value_error, other_error, ◌>>=◌,
}

abbrev pub Bytes : Type 0
Bytes = List ℕ

-- `a == b` on byte strings
unfoldable pub same_bytes : Bytes → Bytes → Bool
same_bytes [] [] = true
same_bytes (x ∷ xs) (y ∷ ys) = x == y && same_bytes xs ys
same_bytes _ _ = false

pub same_bytes_refl : (b : Bytes) → same_bytes b b ≡ true
unfolding same_bytes
same_bytes_refl [] = refl
same_bytes_refl (x ∷ xs) = ground (arith, same_bytes_refl xs)

pub same_bytes_sound : (a b : Bytes) → same_bytes a b ≡ true → a ≡ b
unfolding same_bytes
same_bytes_sound [] [] h = refl
same_bytes_sound [] (y ∷ ys) h = cc
same_bytes_sound (x ∷ xs) [] h = cc
same_bytes_sound (x ∷ xs) (y ∷ ys) h = ground (arith, same_bytes_sound xs ys)

-- `s.startswith("0x")`
unfoldable pub starts_0x : String → Bool
starts_0x (String.◌∷◌ c (String.◌∷◌ d s)) = code c == b'0' && code d == b'x'
starts_0x _ = false

-- `s.startswith("0X")`
unfoldable pub starts_0X : String → Bool
starts_0X (String.◌∷◌ c (String.◌∷◌ d s)) = code c == b'0' && code d == b'X'
starts_0X _ = false

-- `s[n:]`
unfoldable pub drop_text : ℕ → String → String
drop_text zero s = s
drop_text (suc n) String.[] = String.[]
drop_text (suc n) (String.◌∷◌ c s) = drop_text n s

-- `s[:n]`
unfoldable pub take_text : ℕ → String → String
take_text zero s = String.[]
take_text (suc n) String.[] = String.[]
take_text (suc n) (String.◌∷◌ c s) = String.◌∷◌ c (take_text n s)

-- `"0" * n + s`
unfoldable pub pad_zeros : ℕ → String → String
pad_zeros zero s = s
pad_zeros (suc n) s = String.◌∷◌ "0" (pad_zeros n s)

-- `s.rjust(n, "0")`
unfoldable pub rjust : String → ℕ → String
unfolding pad_zeros
rjust s n = pad_zeros (n - count s) s

unfoldable pub nibble : Char → Option ℕ
nibble c =
    if leb b'0' (code c) && leb (code c) b'9'
    then some (code c - 48)
    else if leb b'a' (code c) && leb (code c) b'f'
    then some (code c - 87)
    else if leb b'A' (code c) && leb (code c) b'F'
    then some (code c - 55)
    else none

is_space : Char → Bool
is_space c = code c == 32 || leb 9 (code c) && leb (code c) 13

hex_byte : Option ℕ → Option ℕ → Result ℕ
hex_byte (some a) (some b) = ok (16 * a + b)
hex_byte _ _ = err (value_error "non-hexadecimal number found in fromhex() arg")

-- `bytes.fromhex(s)`, which skips white space between bytes
unfoldable pub from_hex : String → Result Bytes
unfolding nibble is_space hex_byte
from_hex String.[] = ok []
from_hex (String.◌∷◌ c String.[]) = elim (is_space c) [
  | true ↦ ok []
  | false ↦ err (value_error "non-hexadecimal number found in fromhex() arg")
]
from_hex (String.◌∷◌ c (String.◌∷◌ d s)) = elim (is_space c) [
  | true ↦ from_hex (String.◌∷◌ d s)
  | false ↦ hex_byte (nibble c) (nibble d) >>= λ b. from_hex s >>= λ bs. ok (b ∷ bs)
]

digit_of : ℕ → List Char → Char
digit_of n [] = "f"
digit_of zero (c ∷ cs) = c
digit_of (suc n) (c ∷ cs) = digit_of n cs

abbrev digit_chars : List Char
digit_chars =
    "0" ∷ "1" ∷ "2" ∷ "3" ∷ "4" ∷ "5" ∷ "6" ∷ "7" ∷ "8" ∷ "9" ∷ "a" ∷ "b" ∷ "c" ∷ "d" ∷ "e" ∷ []

unfoldable pub hex_digit : ℕ → Char
unfolding digit_of
hex_digit n = digit_of n digit_chars

-- `b.hex()`
unfoldable pub to_hex : Bytes → String
unfolding hex_digit
to_hex [] = String.[]
to_hex (b ∷ bs) = String.◌∷◌ (hex_digit (b / 16)) (String.◌∷◌ (hex_digit (b % 16)) (to_hex bs))

-- `int.from_bytes(data, "big")`
unfoldable pub big_endian : ℕ → Bytes → ℕ
big_endian acc [] = acc
big_endian acc (b ∷ bs) = big_endian (acc * 256 + b) bs

-- `n.to_bytes(3, "big")`
unfoldable pub to_bytes_3 : ℕ → Result Bytes
to_bytes_3 n =
    if ltb n (2 ^ 24)
    then ok (n / 65536 ∷ n / 256 % 256 ∷ n % 256 ∷ [])
    else err (other_error "int too big to convert")

hex_value : ℕ → String → Result ℕ
unfolding nibble
hex_value acc String.[] = ok acc
hex_value acc (String.◌∷◌ c s) = elim (nibble c) [
  | none ↦ err (value_error "invalid literal for int() with base 16")
  | some d ↦ hex_value (16 * acc + d) s
]

hex_digits : String → Result ℕ
unfolding hex_value
hex_digits String.[] = err (value_error "invalid literal for int() with base 16")
hex_digits (String.◌∷◌ c s) = hex_value 0 (String.◌∷◌ c s)

-- `int(s, 16)` on an unsigned text with no blanks or underscores, with or without its `0x`
unfoldable pub int_of_hex : String → Result ℕ
unfolding starts_0x starts_0X drop_text hex_digits
int_of_hex s = if starts_0x s || starts_0X s then hex_digits (drop_text 2 s) else hex_digits s

digits_value : ℕ → String → Result ℕ
digits_value acc String.[] = ok acc
digits_value acc (String.◌∷◌ c s) =
    let rest = digits_value (10 * acc + (code c - 48)) s in
    if leb b'0' (code c) && leb (code c) b'9'
    then rest
    else err (value_error "invalid literal for int() with base 10")

-- `int(s)` on an unsigned text with no blanks or underscores
unfoldable pub int_of_text : String → Result ℕ
unfolding digits_value
int_of_text String.[] = err (value_error "invalid literal for int() with base 10")
int_of_text (String.◌∷◌ c s) = digits_value 0 (String.◌∷◌ c s)

decimal : ℕ → ℕ → String → String
unfolding hex_digit
decimal zero n acc = acc
decimal (suc f) n acc =
    let acc' = String.◌∷◌ (hex_digit (n % 10)) acc in
    elim (ltb n 10) [ true ↦ acc' | false ↦ decimal f (n / 10) acc' ]

-- `str(n)`; a number has fewer digits than its successor counts
unfoldable pub str : ℕ → String
unfolding decimal
str n = decimal (suc n) n String.[]

hexadecimal : ℕ → ℕ → String → String
unfolding hex_digit
hexadecimal zero n acc = acc
hexadecimal (suc f) n acc =
    let acc' = String.◌∷◌ (hex_digit (n % 16)) acc in
    elim (ltb n 16) [ true ↦ acc' | false ↦ hexadecimal f (n / 16) acc' ]

-- `hex(n)`
unfoldable pub hex : ℕ → String
unfolding hexadecimal
hex n = "0x" ++ₛ hexadecimal (suc n) n String.[]
