-- ===== src/Encoder/Settle/Decoding.antt =====
-- About `decode_settle` on what `encode_settle` returns.
use cow_solver_skeleton.Prelude.{
  ℕ, ◌≤◌, String, ◌≡◌, refl, ap, sym, List, [], ◌∷◌, ◌++◌, map, length, length-take, take-append,
  drop-append, arith, Result, ok, ◌>>=◌, map_m, >>=-eq-ok, ok-injective, ◌∙◌,
}
use cow_solver_skeleton.Encoder.Bytes.{Bytes, same_bytes_refl}
use cow_solver_skeleton.Encoder.Abi.{Abi, AbiValue, AbiValues, nil, cons, values, list_of, selector}
use cow_solver_skeleton.Encoder.Settle.{
  SettleTrade, Call, DecodedSettle, as_tuple, call_value, settle_sig, settle_arg_types, settle_args,
  read_address, read_uint, read_trade, read_call, read_slot, decoded_settle, read_settle,
  encode_settle, decode_settle,
}

-- A value with every address in the form in which `eth_abi.decode` returns it.
module _ (normal : String → String) where
  mutual
    pub normalised : AbiValue → AbiValue
    normalised (AbiValue.address a) = AbiValue.address (normal a)
    normalised (AbiValue.uint n) = AbiValue.uint n
    normalised (AbiValue.boolean b) = AbiValue.boolean b
    normalised (AbiValue.bytes b) = AbiValue.bytes b
    normalised (AbiValue.tuple vs) = AbiValue.tuple (all_normalised vs)
    normalised (AbiValue.array vs) = AbiValue.array (all_normalised vs)

    pub all_normalised : AbiValues → AbiValues
    all_normalised nil = nil
    all_normalised (cons v vs) = cons (normalised v) (all_normalised vs)

  abbrev pub normal_trade : SettleTrade → SettleTrade
  normal_trade t = record {
    sell_token_index = t.sell_token_index;
    buy_token_index = t.buy_token_index;
    receiver = normal t.receiver;
    sell_amount = t.sell_amount;
    buy_amount = t.buy_amount;
    valid_to = t.valid_to;
    app_data = t.app_data;
    fee_amount = t.fee_amount;
    flags = t.flags;
    executed_amount = t.executed_amount;
    signature = t.signature;
  }

  abbrev pub normal_call : Call → Call
  normal_call (target, value, payload) = (normal target, value, payload)

  -- The fields that were encoded, with their addresses in that form.
  abbrev pub decoded_fields : List String → List ℕ → List SettleTrade → List Call → DecodedSettle
  decoded_fields tokens clearing_prices trades intra = record {
    tokens = map normal tokens;
    clearing_prices = clearing_prices;
    trades = map normal_trade trades;
    pre_interactions = [];
    intra_interactions = map normal_call intra;
    post_interactions = [];
  }

  normal_array :
      {A : Type 0} (g : A → AbiValue) (xs : List A)
      → list_of (all_normalised (values (map g xs))) ≡ map (λ x. normalised (g x)) xs
  unfolding all_normalised
  normal_array g [] = refl
  normal_array g (x ∷ xs) = rw (normal_array g xs)

map_m-collects :
    {A B C : Type 0} (read : B → Result C) (g : A → B) (h : A → C)
    → ((x : A) → read (g x) ≡ ok (h x))
    → (xs : List A) → map_m read (map g xs) ≡ ok (map h xs)
unfolding map_m
map_m-collects read g h f [] = refl
map_m-collects read g h f (x ∷ xs) = rw (f x, map_m-collects read g h f xs)

map-id : {A : Type 0} (xs : List A) → map (λ x. x) xs ≡ xs
map-id [] = refl
map-id (x ∷ xs) = rw (map-id xs)

read_settle-settle_args :
    (normal : String → String) (tokens : List String) (prices : List ℕ) (trades : List SettleTrade)
    (intra : List Call)
    → read_settle (map (normalised normal) (settle_args tokens prices trades intra))
      ≡ ok (decoded_fields normal tokens prices trades intra)
unfolding read_settle settle_args normalised all_normalised read_slot decoded_settle map_m
read_settle-settle_args normal tokens prices trades intra = rw (
  normal_array normal AbiValue.address tokens,
  map_m-collects read_address (λ a. AbiValue.address (normal a)) normal (λ a. refl) tokens,
  normal_array normal AbiValue.uint prices,
  map_m-collects read_uint AbiValue.uint (λ n. n) (λ n. refl) prices,
  normal_array normal as_tuple trades,
  map_m-collects read_trade (λ t. normalised normal (as_tuple t)) (normal_trade normal) (λ t. refl)
      trades,
  normal_array normal call_value intra,
  map_m-collects read_call (λ c. normalised normal (call_value c)) (normal_call normal) (λ c. refl)
      intra,
  map-id prices,
)

length-selector :
    (abi : Abi) → 4 ≤ length (abi.keccak settle_sig) → length (selector abi settle_sig) ≡ 4
length-selector abi long = omega (arith, length-take 4 (abi.keccak settle_sig))

module _ (abi : Abi) (long : 4 ≤ length (abi.keccak settle_sig)) where
  decode_settle-append :
      (args : Bytes)
      → decode_settle abi (selector abi settle_sig ++ args)
        ≡ (abi.decode settle_arg_types args >>= read_settle)
  unfolding decode_settle
  decode_settle-append args = rw (
    take-append 4 (selector abi settle_sig) args (length-selector abi long),
    drop-append 4 (selector abi settle_sig) args (length-selector abi long),
    same_bytes_refl (selector abi settle_sig),
  )

-- If the hash has at least four bytes and decoding inverts the encoding of the arguments up to the
-- spelling of addresses, decoding an encoded settle call returns the fields that it was encoded
-- from.
pub decode_settle-encode_settle :
    (abi : Abi) (normal : String → String) (tokens : List String) (clearing_prices : List ℕ)
    (trades : List SettleTrade) (intra : List Call) (calldata : Bytes)
    → 4 ≤ length (abi.keccak settle_sig)
    → (decodes : (args : Bytes)
        → abi.encode settle_arg_types (settle_args tokens clearing_prices trades intra) ≡ ok args
        → abi.decode settle_arg_types args
          ≡ ok (map (normalised normal) (settle_args tokens clearing_prices trades intra)))
    → encode_settle abi tokens clearing_prices trades intra ≡ ok calldata
    → decode_settle abi calldata ≡ ok (decoded_fields normal tokens clearing_prices trades intra)
unfolding encode_settle
decode_settle-encode_settle abi normal tokens prices trades intra calldata long decodes h =
    let (args, encoded, appended) =
      >>=-eq-ok (abi.encode settle_arg_types (settle_args tokens prices trades intra))
        (λ args. ok (selector abi settle_sig ++ args)) h in
    ap (decode_settle abi) (sym (ok-injective appended))
    ∙ decode_settle-append abi long args
    ∙ ap (λ r. r >>= read_settle) (decodes args encoded)
    ∙ read_settle-settle_args normal tokens prices trades intra
