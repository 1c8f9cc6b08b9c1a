-- ===== src/Encoder/Interaction.antt =====
-- src/encoder/interactions.py and src/encoder/erc20.py.
use Prim.Native.String.{count, ◌++◌ as ◌++ₛ◌}
use cow_solver_skeleton.Prelude.{
  ℕ, String, ◌&&◌, [], ◌∷◌, List, ◌++◌, map, ◌==◌, if◌then◌else◌, Result, ok, err, value_error,
  ◌>>=◌,
}
use cow_solver_skeleton.Model.{WireInteraction}
use cow_solver_skeleton.Encoder.Bytes.{Bytes, starts_0x, to_hex, str}
use cow_solver_skeleton.Encoder.Abi.{Abi, AbiValue, selector}

pub record Interaction : Type 0 where
  pub target : String
  pub value : ℕ
  pub call_data : Bytes
  pub inputs : List (String × ℕ)
  pub outputs : List (String × ℕ)

-- The constructor with `__post_init__`: the checks that a typed value can still fail.
unfoldable pub make_interaction : Interaction → Result Interaction
unfolding starts_0x
make_interaction i =
    if starts_0x i.target && count i.target == 42
    then ok i
    else err (value_error "target must be a 0x-prefixed 20-byte address")

abbrev wire_flow : String × ℕ → String × String
wire_flow (token, amount) = (token, str amount)

unfoldable pub to_gpv2_dict : Interaction → WireInteraction
unfolding to_hex str
to_gpv2_dict i = record {
  kind = "custom";
  target = i.target;
  value = str i.value;
  call_data = "0x" ++ₛ to_hex i.call_data;
  inputs = map wire_flow i.inputs;
  outputs = map wire_flow i.outputs;
}

unfoldable pub encode_approve : Abi → String → ℕ → Result Bytes
encode_approve abi spender amount = do
  params ←
      abi.encode ("address" ∷ "uint256" ∷ []) (AbiValue.address spender ∷ AbiValue.uint amount ∷ [])
  ok (selector abi "approve(address,uint256)" ++ params)
