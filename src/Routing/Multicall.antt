-- ===== src/Routing/Multicall.antt =====
-- src/routing/multicall.py: many calls in one round trip, and the bisection that survives a node's
-- gas cap. The node (src/routing/rpc.py, an HTTP client) is the parameter `eth_call`.
pub mod Bisection
pub mod Unfolding
use Prim.Native.String.{◌++◌ as ◌++ₛ◌}
use cow_solver_skeleton.Prelude.{
  ℕ, zero, suc, ◌/◌, String, Bool, true, false, ◌||◌, List, [], ◌∷◌, ◌++◌, occurs, lower, take,
  drop, length, if◌then◌else◌, Error, value_error, zero_division, other_error, Result, ok, err,
  ◌>>=◌, map_m,
}
use cow_solver_skeleton.Encoder.Bytes.{Bytes, from_hex, to_hex, starts_0x, drop_text}
use cow_solver_skeleton.Encoder.Abi.{Abi, AbiValue, AbiValues, nil, cons, values}

pub record Call : Type 0 where
  pub target : String
  pub call_data : String
  pub allow_failure : Bool

pub record CallResult : Type 0 where
  pub success : Bool
  pub return_data : Bytes

abbrev pub dropped : CallResult
dropped = record { success = false; return_data = [] }

-- `str(exc)`
abbrev pub message : Error → String
message (value_error m) = m
message zero_division = "integer division or modulo by zero"
message (other_error m) = m

unfoldable pub is_gas_overflow : Error → Bool
unfolding lower
is_gas_overflow e =
    let s = lower (message e) in
    occurs "out of gas" s
    || (occurs "gas required exceeds" s || (occurs "intrinsic gas" s || occurs "gas limit" s))

abbrev pub strip_0x : String → String
strip_0x s = if starts_0x s then drop_text 2 s else s

unfoldable pub call_value : Call → Result AbiValue
unfolding lower
call_value c = do
  data_bytes ← from_hex (strip_0x c.call_data)
  ok (
      AbiValue.tuple (
        values (
          AbiValue.address (lower c.target)
          ∷ AbiValue.boolean c.allow_failure
          ∷ AbiValue.bytes data_bytes
          ∷ [])))

-- One `(bool, bytes)` row of the decoded answer.
result_of : AbiValue → Result CallResult
result_of (AbiValue.tuple (cons (AbiValue.boolean success) (cons (AbiValue.bytes bs) nil))) =
    ok (record { success = success; return_data = bs })
result_of _ = err (value_error "not enough values to unpack")

results_of : AbiValues → Result (List CallResult)
results_of nil = ok []
results_of (cons v vs) = do r ← result_of v; rs ← results_of vs; ok (r ∷ rs)

rows_of : List AbiValue → Result (List CallResult)
rows_of (AbiValue.array vs ∷ []) = results_of vs
rows_of _ = err (value_error "not enough values to unpack")

pub record Multicall3 : Type 0 where
  -- `rpc.eth_call(address, data, block=block)`
  pub eth_call : String → String → String → Result String
  pub address : String
  pub abi : Abi

unfoldable pub aggregate : Multicall3 → String → List Call → Result (List CallResult)
unfolding call_value rows_of result_of results_of
aggregate m block [] = ok []
aggregate m block (c ∷ cs) = do
  tuples ← map_m call_value (c ∷ cs)
  args ← m.abi.encode ("(address,bool,bytes)[]" ∷ []) (AbiValue.array (values tuples) ∷ [])
  answer ← m.eth_call m.address ("0x82ad56cb" ++ₛ to_hex args) block
  raw ← from_hex (strip_0x answer)
  decoded ← m.abi.decode ("(bool,bytes)[]" ∷ []) raw
  rows_of decoded

-- The bisection, over any way to send a batch. The halves of a batch of two or more are shorter
-- than the batch, so its length is fuel enough.
bisect : (List Call → Result (List CallResult)) → List Call → Error → Result (List CallResult)
bisect again [] e = err e
bisect again (c ∷ []) e = ok (dropped ∷ [])
bisect again (c ∷ d ∷ cs) e =
    let calls = c ∷ d ∷ cs in
    do
      left ← again (take (length calls / 2) calls)
      right ← again (drop (length calls / 2) calls)
      ok (left ++ right)

pub settle_batch :
    (List Call → Result (List CallResult))
    → List Call
    → Result (List CallResult)
    → Result (List CallResult)
unfolding bisect
settle_batch again calls (ok rs) = ok rs
settle_batch again calls (err e) = elim (is_gas_overflow e) [
  | true ↦ bisect again calls e
  | false ↦ err e
]

resilient : (List Call → Result (List CallResult)) → ℕ → List Call → Result (List CallResult)
unfolding settle_batch
resilient send fuel [] = ok []
resilient send zero (c ∷ cs) = err (other_error "recursion limit")
resilient send (suc fuel) (c ∷ cs) =
    settle_batch (λ calls. resilient send fuel calls) (c ∷ cs) (send (c ∷ cs))

unfoldable pub aggregate_resilient : Multicall3 → String → List Call → Result (List CallResult)
unfolding resilient aggregate
aggregate_resilient m block calls = resilient (aggregate m block) (length calls) calls
