-- ===== src/Encoder/V3/Path.antt =====
-- `pack_v3_path` of src/encoder/v3_path.py: tokens of 20 bytes and fees of 3 bytes in turn.
use Prim.Native.String.{count}
use cow_solver_skeleton.Prelude.{
  ℕ, suc, String, ◌&&◌, not, List, [], ◌∷◌, ◌++◌, ltb, ◌==◌, length, if◌then◌else◌, Result, ok, err,
  value_error, ◌>>=◌,
}
use cow_solver_skeleton.Encoder.Bytes.{Bytes, starts_0x, drop_text, from_hex, to_bytes_3}

unfoldable pub pack_token : String → Result Bytes
unfolding starts_0x drop_text
pack_token token =
    if starts_0x token && count token == 42
    then from_hex (drop_text 2 token)
    else err (value_error "not a 0x-prefixed 20-byte address")

-- The loop over the tokens, with the fees that are left: after a token comes the next fee, if any.
unfoldable pub pack_rest : List String → List ℕ → Result Bytes
unfolding pack_token
pack_rest [] fees = ok []
pack_rest (token ∷ tokens) [] = do
  here ← pack_token token
  rest ← pack_rest tokens []
  ok (here ++ rest)
pack_rest (token ∷ tokens) (fee ∷ fees) = do
  here ← pack_token token
  tier ← to_bytes_3 fee
  rest ← pack_rest tokens fees
  ok (here ++ (tier ++ rest))

unfoldable pub pack_v3_path : List String → List ℕ → Result Bytes
unfolding pack_rest
pack_v3_path tokens fees =
    if ltb (length tokens) 2
    then err (value_error "need at least 2 tokens for a path")
    else if not (suc (length fees) == length tokens)
    then err (value_error "need exactly one fee per hop")
    else pack_rest tokens fees
