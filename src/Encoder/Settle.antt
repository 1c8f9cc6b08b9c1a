-- ===== src/Encoder/Settle.antt =====
-- src/encoder/settle.py: the call of `GPv2Settlement.settle`, its decoding, and the flags of a trade.
pub mod Decoding
pub mod Flags
use Prim.Native.Nat.{bit_or}
use cow_solver_skeleton.Prelude.{
  ℕ, String, Bool, Option, none, some, List, [], ◌∷◌, ◌++◌, ◌*◌, map, take, drop, lower, ◌=ₛ◌,
  if◌then◌else◌, Result, ok, err, value_error, other_error, ◌>>=◌, map_m,
}
use cow_solver_skeleton.Dict.{Dict, get}
use cow_solver_skeleton.Encoder.Bytes.{Bytes, same_bytes}
use cow_solver_skeleton.Encoder.Abi.{Abi, AbiValue, AbiValues, values, list_of, selector}

pub record SettleTrade : Type 0 where
  pub sell_token_index : ℕ
  pub buy_token_index : ℕ
  pub receiver : String
  pub sell_amount : ℕ
  pub buy_amount : ℕ
  pub valid_to : ℕ
  pub app_data : Bytes
  pub fee_amount : ℕ
  pub flags : ℕ
  pub executed_amount : ℕ
  pub signature : Bytes

-- `(target, value, callData)`
abbrev pub Call : Type 0
Call = String × ℕ × Bytes

unfoldable pub as_tuple : SettleTrade → AbiValue
as_tuple t = AbiValue.tuple (
    values (
      AbiValue.uint t.sell_token_index
      ∷ AbiValue.uint t.buy_token_index
      ∷ AbiValue.address t.receiver
      ∷ AbiValue.uint t.sell_amount
      ∷ AbiValue.uint t.buy_amount
      ∷ AbiValue.uint t.valid_to
      ∷ AbiValue.bytes t.app_data
      ∷ AbiValue.uint t.fee_amount
      ∷ AbiValue.uint t.flags
      ∷ AbiValue.uint t.executed_amount
      ∷ AbiValue.bytes t.signature
      ∷ []))

abbrev pub settle_sig : String
settle_sig =
    "settle(address[],uint256[],(uint256,uint256,address,uint256,uint256,uint32,bytes32,uint256,uint256,uint256,bytes)[],(address,uint256,bytes)[][3])"

abbrev pub settle_arg_types : List String
settle_arg_types =
    "address[]" ∷ "uint256[]"
    ∷ "(uint256,uint256,address,uint256,uint256,uint32,bytes32,uint256,uint256,uint256,bytes)[]"
    ∷ "(address,uint256,bytes)[][3]" ∷ []

-- `list(i)`
abbrev pub call_value : Call → AbiValue
call_value (target, value, payload) =
    AbiValue.tuple
      (values (AbiValue.address target ∷ AbiValue.uint value ∷ AbiValue.bytes payload ∷ []))

abbrev array_of : List AbiValue → AbiValue
array_of vs = AbiValue.array (values vs)

-- The four arguments of the call; the pre and post slots stay empty.
unfoldable pub settle_args : List String → List ℕ → List SettleTrade → List Call → List AbiValue
unfolding as_tuple
settle_args tokens clearing_prices trades intra =
    array_of (map AbiValue.address tokens)
    ∷ array_of (map AbiValue.uint clearing_prices)
    ∷ array_of (map as_tuple trades)
    ∷ array_of (array_of [] ∷ array_of (map call_value intra) ∷ array_of [] ∷ [])
    ∷ []

abbrev pub read_address : AbiValue → Result String
read_address (AbiValue.address a) = ok a
read_address _ = err (other_error "a value of another type")

abbrev pub read_uint : AbiValue → Result ℕ
read_uint (AbiValue.uint n) = ok n
read_uint _ = err (other_error "a value of another type")

abbrev pub read_array : AbiValue → Result (List AbiValue)
read_array (AbiValue.array vs) = ok (list_of vs)
read_array _ = err (other_error "a value of another type")

-- `SettleTrade(sell_token_index=t[0], …)`
unfoldable pub read_trade : AbiValue → Result SettleTrade
read_trade (AbiValue.tuple vs) = elim (list_of vs) [
  | AbiValue.uint sell_index ∷ AbiValue.uint buy_index ∷ AbiValue.address receiver ∷ AbiValue.uint
        sell_amount ∷ AbiValue.uint buy_amount ∷ AbiValue.uint valid_to ∷ AbiValue.bytes app_data ∷
        AbiValue.uint fee_amount ∷ AbiValue.uint flags ∷ AbiValue.uint executed ∷ AbiValue.bytes
        signature ∷ [] ↦
      ok record {
        sell_token_index = sell_index;
        buy_token_index = buy_index;
        receiver = receiver;
        sell_amount = sell_amount;
        buy_amount = buy_amount;
        valid_to = valid_to;
        app_data = app_data;
        fee_amount = fee_amount;
        flags = flags;
        executed_amount = executed;
        signature = signature;
      }
  | _ ↦ err (other_error "a value of another type")
]
read_trade _ = err (other_error "a value of another type")

-- `(i[0], i[1], i[2])`
unfoldable pub read_call : AbiValue → Result Call
read_call (AbiValue.tuple vs) = elim (list_of vs) [
  | AbiValue.address target ∷ AbiValue.uint value ∷ AbiValue.bytes payload ∷ [] ↦
      ok (target, value, payload)
  | _ ↦ err (other_error "a value of another type")
]
read_call _ = err (other_error "a value of another type")

pub record DecodedSettle : Type 0 where
  pub tokens : List String
  pub clearing_prices : List ℕ
  pub trades : List SettleTrade
  pub pre_interactions : List Call
  pub intra_interactions : List Call
  pub post_interactions : List Call

-- `[… for i in slot]`
read_slot : AbiValue → Result (List Call)
unfolding map_m read_call
read_slot v = read_array v >>= λ vs. map_m read_call vs

-- `pre, intra, post = …`, and the fields of the answer
decoded_settle : List String → List ℕ → List SettleTrade → List (List Call) → Result DecodedSettle
decoded_settle tokens prices trades (pre ∷ intra ∷ post ∷ []) = ok record {
  tokens = tokens;
  clearing_prices = prices;
  trades = trades;
  pre_interactions = pre;
  intra_interactions = intra;
  post_interactions = post;
}
decoded_settle tokens prices trades _ = err (value_error "not three slots of interactions")

-- The fields behind `decode(…)`.
unfoldable pub read_settle : List AbiValue → Result DecodedSettle
unfolding map_m read_slot read_trade decoded_settle
read_settle (tokens ∷ prices ∷ trades ∷ interactions ∷ []) = do
  token_values ← read_array tokens
  token_list ← map_m read_address token_values
  price_values ← read_array prices
  price_list ← map_m read_uint price_values
  trade_values ← read_array trades
  trade_list ← map_m read_trade trade_values
  slot_values ← read_array interactions
  slots ← map_m read_slot slot_values
  decoded_settle token_list price_list trade_list slots
read_settle _ = err (value_error "not four arguments")

module _ (abi : Abi) where
  unfoldable pub encode_settle : List String → List ℕ → List SettleTrade → List Call → Result Bytes
  unfolding settle_args
  encode_settle tokens clearing_prices trades intra = do
    args ← abi.encode settle_arg_types (settle_args tokens clearing_prices trades intra)
    ok (selector abi settle_sig ++ args)

  unfoldable pub decode_settle : Bytes → Result DecodedSettle
  unfolding same_bytes read_settle
  decode_settle calldata =
      if same_bytes (take 4 calldata) (selector abi settle_sig)
      then abi.decode settle_arg_types (drop 4 calldata) >>= read_settle
      else err (value_error "selector mismatch")

-- Signing scheme -> bits 5-6 of the flags, sell balance -> bits 2-3, buy balance -> bit 4.
abbrev pub scheme_index : Dict ℕ
scheme_index = ("eip712", 0) ∷ ("ethsign", 1) ∷ ("eip1271", 2) ∷ ("presign", 3) ∷ []

abbrev pub sell_balance : Dict ℕ
sell_balance = ("erc20", 0) ∷ ("external", 8) ∷ ("internal", 12) ∷ []

abbrev pub buy_balance : Dict ℕ
buy_balance = ("erc20", 0) ∷ ("internal", 16) ∷ []

-- `d.get(k, 0)`
unfoldable pub get_or_0 : Dict ℕ → String → ℕ
get_or_0 d k = elim (get d k) [ none ↦ 0 | some n ↦ n ]

-- `flags |= …` for each field in turn
unfoldable pub pack_flags : ℕ → ℕ → ℕ → ℕ → ℕ → ℕ
pack_flags kind partial sell_from buy_to scheme =
    bit_or (bit_or (bit_or (bit_or (bit_or 0 kind) partial) sell_from) buy_to) (scheme * 32)

unfoldable pub encode_trade_flags : String → Bool → String → String → String → Result ℕ
unfolding lower get_or_0 pack_flags
encode_trade_flags kind partially_fillable signing_scheme sell_token_balance buy_token_balance =
    elim (get scheme_index (lower signing_scheme)) [
      | none ↦ err (value_error "unknown signing scheme")
      | some index ↦ ok (
          pack_flags (if lower kind =ₛ "sell" then 0 else 1) (if partially_fillable then 2 else 0)
            (get_or_0 sell_balance (lower sell_token_balance))
            (get_or_0 buy_balance (lower buy_token_balance)) index)
    ]
