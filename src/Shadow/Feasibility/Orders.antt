-- ===== src/Shadow/Feasibility/Orders.antt =====
-- The orders of the orderbook in src/shadow/feasibility.py: their fields as bytes, and the cache of
-- src/shadow/order_cache.py in front of the API.
use cow_solver_skeleton.Prelude.{
  ℕ, zero, suc, ◌-◌, String, Bool, not, ◌&&◌, Option, none, some, List, [], ◌∷◌, ◌++◌, take, length,
  lower, text_mem, ◌==◌, ◌=ₛ◌, if◌then◌else◌, value_error, Result, ok, err, ◌>>=◌,
}
use cow_solver_skeleton.Dict.{Dict, get, put}
use cow_solver_skeleton.Encoder.Bytes.{
  Bytes, same_bytes, starts_0x, drop_text, from_hex, int_of_text,
}
use cow_solver_skeleton.Routing.Multicall.{strip_0x}

-- The JSON object of an order; a number is its text.
pub record RawOrder : Type 0 where
  pub sell_token : Option String
  pub buy_token : Option String
  pub kind : Option String
  pub partially_fillable : Bool
  pub signing_scheme : Option String
  pub receiver : Option String
  pub sell_amount : Option String
  pub buy_amount : Option String
  pub valid_to : Option String
  pub fee_amount : Option String
  pub app_data : Option String
  pub app_data_hash : Option String
  pub signature : Option String
  pub owner : Option String

-- `d.get(…) or default`
unfoldable pub or_else : Option String → String → String
or_else none default = default
or_else (some String.[]) default = default
or_else (some (String.◌∷◌ c s)) default = String.◌∷◌ c s

-- `_to_int(v)`
unfoldable pub to_int : Option String → ℕ
unfolding int_of_text
to_int none = 0
to_int (some s) = elim (int_of_text s) [ err e ↦ 0 | ok n ↦ n ]

abbrev pub zero_address : String
zero_address = "0x0000000000000000000000000000000000000000"

abbrev zero_app_data : String
zero_app_data = "0x0000000000000000000000000000000000000000000000000000000000000000"

pad_bytes : ℕ → Bytes → Bytes
pad_bytes zero b = b
pad_bytes (suc n) b = 0 ∷ pad_bytes n b

-- `b.rjust(32, b"\x00")[:32]`
unfoldable pub app_data_bytes : RawOrder → Result Bytes
unfolding or_else from_hex pad_bytes
app_data_bytes order = do
  b ← from_hex (strip_0x (or_else order.app_data (or_else order.app_data_hash zero_app_data)))
  ok (take 32 (pad_bytes (32 - length b) b))

abbrev pub framed_schemes : List String
framed_schemes = "eip1271" ∷ "erc1271" ∷ "presign" ∷ []

abbrev pub contract_schemes : List String
contract_schemes = "eip1271" ∷ "erc1271" ∷ []

-- `bytes.fromhex(owner_hex[2:]) if owner_hex.startswith("0x") else b""`
unfoldable pub owner_bytes : RawOrder → Result Bytes
unfolding or_else starts_0x drop_text from_hex
owner_bytes order =
    let owner_hex = or_else order.owner "" in
    if starts_0x owner_hex then from_hex (drop_text 2 owner_hex) else ok []

-- The branches on the scheme.
unfoldable pub frame : String → Bytes → Bytes → Result Bytes
unfolding same_bytes
frame scheme owner raw =
    if text_mem scheme framed_schemes && not (length owner == 20)
    then err (value_error "order without usable owner")
    else if text_mem scheme contract_schemes
    then (if same_bytes (take 20 raw) owner then ok raw else ok (owner ++ raw))
    else if scheme =ₛ "presign"
    then ok owner
    else ok raw

unfoldable pub sig_bytes : RawOrder → Result Bytes
unfolding or_else from_hex owner_bytes frame lower
sig_bytes order = do
  raw ← from_hex (strip_0x (or_else order.signature "0x"))
  owner ← owner_bytes order
  frame (lower (or_else order.signing_scheme "eip712")) owner raw

abbrev pub Cache : Type 0
Cache = Dict RawOrder

-- `api.fetch_order`
abbrev pub Orderbook : Type 0
Orderbook = String → Result (Option RawOrder)

-- `OrderCache.get`: the key holds the lower-cased uid
unfoldable pub cached : Cache → String → Option RawOrder
unfolding lower
cached cache uid = get cache (lower uid)

-- `OrderCache.set`
unfoldable pub remember : Cache → String → RawOrder → Cache
unfolding lower
remember cache uid order = put cache (lower uid) order

unfoldable pub fetched :
    Cache → String → Result (Option RawOrder) → Cache × Result (Option RawOrder)
unfolding remember
fetched cache uid (ok (some order)) = (remember cache uid order, ok (some order))
fetched cache uid answer = (cache, answer)

-- The cache behind the call, and its answer.
unfoldable pub resolve_order : Orderbook → Cache → String → Cache × Result (Option RawOrder)
unfolding cached fetched
resolve_order api cache uid = elim (cached cache uid) [
  | some order ↦ (cache, ok (some order))
  | none ↦ fetched cache uid (api uid)
]
