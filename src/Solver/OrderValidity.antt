-- ===== src/Solver/OrderValidity.antt =====
-- src/solver/order_validity.py: dropping the candidates that provably cannot settle.
pub mod Kept
pub mod Partition
pub mod Evidence
use Prim.Native.String.{◌++◌ as ◌++ₛ◌}
use cow_solver_skeleton.Prelude.{
  ℕ, ◌+◌, ◌-◌, ◌*◌, ◌/◌, min, String, Bool, true, false, not, ◌&&◌, ◌||◌, Option, none, some, List,
  [], ◌∷◌, ◌++◌, map, take, filter, length, lower, ltb, leb, ◌==◌, ◌=ₛ◌, if◌then◌else◌, Result, ok,
  err, value_error, ◌>>=◌,
}
use cow_solver_skeleton.Dict.{Dict, get, put, contains}
use cow_solver_skeleton.Model.{Kind, sell, buy, Order}
use cow_solver_skeleton.Encoder.Bytes.{Bytes, big_endian, starts_0x, drop_text, from_hex, to_hex}
use cow_solver_skeleton.Encoder.Abi.{Abi, AbiValue}
use cow_solver_skeleton.Routing.Multicall.{
  Call, CallResult, Multicall3, aggregate_resilient, strip_0x,
}

abbrev pub gpv2_vault_relayer : String
gpv2_vault_relayer = "0xC92E8bdf79f0507f65a392b0ab4667716BFE0110"

pub data CheckKind : Type 0 where
  filled presig balance allowance : CheckKind

pub record Check : Type 0 where
  pub uid : String
  pub kind : CheckKind

unfoldable pub decode_uint : Bytes → Option ℕ
unfolding big_endian
decode_uint bs = if ltb (length bs) 32 then none else some (big_endian 0 (take 32 bs))

abbrev filled_amount_selector : String
filled_amount_selector = "2479fb6e"

abbrev pre_signature_selector : String
pre_signature_selector = "d08d33d1"

module _ (abi : Abi) where
  encode_uid_call : String → String → Result String
  encode_uid_call selector uid = do
    uid_bytes ← from_hex (strip_0x uid)
    args ← abi.encode ("bytes" ∷ []) (AbiValue.bytes uid_bytes ∷ [])
    ok ("0x" ++ₛ (selector ++ₛ to_hex args))

  encode_balance_of : String → Result String
  encode_balance_of owner = do
    args ← abi.encode ("address" ∷ []) (AbiValue.address (lower owner) ∷ [])
    ok ("0x" ++ₛ ("70a08231" ++ₛ to_hex args))

  encode_allowance : String → String → Result String
  encode_allowance owner spender = do
    args ←
        abi.encode ("address" ∷ "address" ∷ [])
          (AbiValue.address (lower owner) ∷ AbiValue.address (lower spender) ∷ [])
    ok ("0x" ++ₛ ("dd62ed3e" ++ₛ to_hex args))

  abbrev tagged : Order → CheckKind → String → Result String → Result (Call × Check)
  tagged o kind target encoded = do
    call_data ← encoded
    ok (
      record { target = target; call_data = call_data; allow_failure = true },
      record { uid = o.uid; kind = kind },
    )

  is_presign : Option String → Bool
  unfolding lower
  is_presign none = false
  is_presign (some scheme) = lower scheme =ₛ "presign"

  presig_checks : String → Order → Result (List (Call × Check))
  unfolding is_presign encode_uid_call
  presig_checks settlement_addr o =
      if is_presign o.signing_scheme
      then (do
        c ← tagged o presig settlement_addr (encode_uid_call pre_signature_selector o.uid)
        ok (c ∷ []))
      else ok []

  allowance_checks : String → Order → List String → Result (List (Call × Check))
  unfolding encode_allowance
  allowance_checks vault_relayer o (hook ∷ hooks) = ok []
  allowance_checks vault_relayer o [] = do
    c ← tagged o allowance o.sell_token (encode_allowance o.owner vault_relayer)
    ok (c ∷ [])

  funding_checks : String → Order → Result (List (Call × Check))
  unfolding encode_balance_of allowance_checks lower
  funding_checks vault_relayer o =
      if lower o.sell_token_balance =ₛ "erc20"
      then (do
        c ← tagged o balance o.sell_token (encode_balance_of o.owner)
        cs ← allowance_checks vault_relayer o o.pre_interactions
        ok (c ∷ cs))
      else ok []

  -- One call for each check, with its tag.
  unfoldable pub build_checks : String → String → List Order → Result (List (Call × Check))
  unfolding presig_checks funding_checks encode_uid_call
  build_checks settlement_addr vault_relayer [] = ok []
  build_checks settlement_addr vault_relayer (o ∷ os) = do
    c ← tagged o filled settlement_addr (encode_uid_call filled_amount_selector o.uid)
    signed ← presig_checks settlement_addr o
    funded ← funding_checks vault_relayer o
    rest ← build_checks settlement_addr vault_relayer os
    ok (c ∷ (signed ++ (funded ++ rest)))

-- What was read for one uid. A check that was not made, failed or was undecodable reads `none`,
-- as `dict.get` and the stored None do.
pub record Reading : Type 0 where
  pub filled : Option ℕ
  pub presig : Option ℕ
  pub balance : Option ℕ
  pub allowance : Option ℕ

abbrev pub no_reading : Reading
no_reading = record { filled = none; presig = none; balance = none; allowance = none }

store : Reading → CheckKind → Option ℕ → Reading
store r filled v = record r { filled = v }
store r presig v = record r { presig = v }
store r balance v = record r { balance = v }
store r allowance v = record r { allowance = v }

abbrev reading_of : Dict Reading → String → Reading
reading_of readings uid = elim (get readings uid) [ none ↦ no_reading | some r ↦ r ]

-- `readings[check.uid][check.kind] = value`, over `zip(checks, results, strict=True)`
collect : Dict Reading → List (Call × Check) → List CallResult → Result (Dict Reading)
unfolding store
collect readings [] [] = ok readings
collect readings ((call, check) ∷ checks) (r ∷ rs) =
    let value = if r.success then decode_uint r.return_data else none in
    collect (put readings check.uid (store (reading_of readings check.uid) check.kind value)) checks
      rs
collect readings [] (r ∷ rs) = err (value_error "zip() argument 2 is longer than argument 1")
collect readings (c ∷ cs) [] = err (value_error "zip() argument 2 is shorter than argument 1")

blank_readings : Dict Reading → List Order → Dict Reading
blank_readings d [] = d
blank_readings d (o ∷ os) = blank_readings (put d o.uid no_reading) os

-- `{o.uid: o for o in orders}`
unfoldable pub index_by_uid : Dict Order → List Order → Dict Order
index_by_uid d [] = d
index_by_uid d (o ∷ os) = index_by_uid (put d o.uid o) os

abbrev or_zero : Option ℕ → ℕ
or_zero none = 0
or_zero (some n) = n

unfoldable pub required_funding : Order → Option ℕ → ℕ
required_funding order already = elim order.kind [
  | sell ↦
      let remaining = order.sell_amount - min (or_zero already) order.sell_amount in
      if order.partially_fillable then min remaining (order.sell_amount / 2) else remaining
  | buy ↦ if not order.partially_fillable then order.sell_amount else 0
]

pub data Reason : Type 0 where
  already_filled presignature_missing insufficient_balance insufficient_allowance : Reason

abbrev target_amount : Order → ℕ
target_amount order = elim order.kind [ sell ↦ order.sell_amount | buy ↦ order.buy_amount ]

-- `filled is not None and filled > 0 and (not order.partially_fillable or filled >= target)`
is_filled : Order → Option ℕ → Bool
is_filled order none = false
is_filled order (some f) = ltb 0 f && (not order.partially_fillable || leb (target_amount order) f)

-- `value is not None and value < required`
is_short : Option ℕ → ℕ → Bool
is_short none required = false
is_short (some v) required = ltb v required

-- `presig is not None and presig == 0`
is_absent : Option ℕ → Bool
is_absent none = false
is_absent (some v) = v == 0

-- The body of the loop over the readings: why an order is dropped, if it is.
unfoldable pub drop_reason : Order → Reading → Option Reason
unfolding required_funding is_filled is_absent is_short
drop_reason order r =
    let required = required_funding order r.filled in
    if is_filled order r.filled
    then some already_filled
    else if is_absent r.presig
    then some presignature_missing
    else if ltb 0 required && is_short r.balance required
    then some insufficient_balance
    else if ltb 0 required && is_short r.allowance required
    then some insufficient_allowance
    else none

-- The uids of the readings are those of the orders, so `by_uid[uid]` is always there.
note_drop : Dict Reason → String → Reading → Option Order → Dict Reason
unfolding drop_reason
note_drop dropped uid r none = dropped
note_drop dropped uid r (some order) = elim (drop_reason order r) [
  | none ↦ dropped
  | some reason ↦ put dropped uid reason
]

dropped_from : Dict Order → Dict Reading → Dict Reason → Dict Reason
unfolding note_drop
dropped_from by_uid [] dropped = dropped
dropped_from by_uid ((uid, r) ∷ readings) dropped =
    dropped_from by_uid readings (note_drop dropped uid r (get by_uid uid))

abbrev pub Verdict : Type 0
Verdict = List Order × Dict Reason

judge : List Order → Dict Reading → Verdict
unfolding dropped_from
judge orders readings =
    let gone = dropped_from (index_by_uid [] orders) readings [] in
    (filter (λ o. not (contains gone o.uid)) orders, gone)

-- The checks of the orders, read from the node.
unfoldable pub read_orders :
    Multicall3 → String → String → String → List Order → Result (Dict Reading)
unfolding build_checks blank_readings collect
read_orders m settlement_addr vault_relayer block orders = do
  checks ← build_checks m.abi settlement_addr vault_relayer orders
  results ← aggregate_resilient m block (map (λ c. c.0) checks)
  collect (blank_readings [] orders) checks results

-- The body of the `try`.
check_orders : Multicall3 → String → String → String → List Order → Result Verdict
unfolding read_orders judge
check_orders m settlement_addr vault_relayer block orders = do
  readings ← read_orders m settlement_addr vault_relayer block orders
  ok (judge orders readings)

-- `except Exception`: every order is kept.
or_keep : List Order → Result Verdict → Verdict
or_keep orders (ok v) = v
or_keep orders (err e) = (orders, [])

unfoldable pub filter_valid_orders : Multicall3 → String → String → String → List Order → Verdict
unfolding check_orders or_keep
filter_valid_orders m settlement_addr vault_relayer block [] = ([], [])
filter_valid_orders m settlement_addr vault_relayer block (o ∷ os) =
    or_keep (o ∷ os) (check_orders m settlement_addr vault_relayer block (o ∷ os))
