-- ===== src/Routing/Rpc.antt =====
-- `RpcClient.eth_call` and `eth_call_capture` of src/routing/rpc.py, with their retries on a rate
-- limit. The HTTP client is `post`, from the number of the attempt; the gate on concurrent calls and
-- the pauses between attempts change no answer. `read_string` is `str(eth_abi.decode(["string"], …)[0])`.
pub mod Captured
use Prim.Native.Char.{Char, code as code_of}
use Prim.Native.String.{◌++◌ as ◌++ₛ◌}
use cow_solver_skeleton.Prelude.{
  ℕ, zero, suc, String, Bool, true, false, ◌||◌, ◌&&◌, not, ◌==◌, leb, ◌=ₛ◌, Option, none, some,
  List, [], ◌∷◌, length, occurs, lower, if◌then◌else◌, Error, other_error, Result, ok, err, ◌>>=◌,
  catch,
}
use cow_solver_skeleton.Encoder.Bytes.{Bytes, from_hex, starts_0x, drop_text, take_text, str}

-- A JSON-RPC error code: an integer, or another value, by its text.
pub data Code : Type 0 where
  positive : ℕ → Code
  negative : ℕ → Code
  other : String → Code

abbrev pub code_text : Code → String
code_text (positive n) = str n
code_text (negative n) = "-" ++ₛ str n
code_text (other s) = s

-- The `data` field of an error: missing or null, a text, an object with its own `data` and
-- `message`, or any other value.
pub data RevertData : Type 0 where
  null : RevertData
  text : String → RevertData
  object : RevertData → RevertData → RevertData
  value : RevertData

-- The `error` of a body: an object, or another value by its text.
pub data RpcError : Type 0 where
  fields :
      (code : Option Code)
      → (message : Option String) → (detail : RevertData) → (printed : String) → RpcError
  plain : (printed : String) → RpcError

pub record Body : Type 0 where
  pub error : Option RpcError
  pub result : Option String
  pub printed : String

-- `resp.json()` may raise.
pub record Response : Type 0 where
  pub status_code : ℕ
  pub json : Result Body

pub record Payload : Type 0 where
  pub to : String
  pub call_data : String
  pub from_addr : Option String
  pub block : String

abbrev pub payload : String → String → Option String → String → Payload
payload to call_data from_addr block = record {
  to = to;
  call_data = call_data;
  from_addr = from_addr;
  block = block;
}

pub record RpcClient : Type 0 where
  pub post : Payload → ℕ → Result Response
  pub read_string : Bytes → Result String

-- Whitespace of `str.strip` up to U+00A0.
is_blank : Char → Bool
is_blank c =
    let n = code_of c in (leb 9 n && leb n 13) || ((leb 28 n && leb n 32) || (n == 133 || n == 160))

lstrip : String → String
unfolding is_blank
lstrip String.[] = String.[]
lstrip (String.◌∷◌ c s) = let rest = lstrip s in if is_blank c then rest else String.◌∷◌ c s

-- Drops the spaces behind the last other character.
rstrip : String → String
unfolding is_blank
rstrip String.[] = String.[]
rstrip (String.◌∷◌ c s) =
    let rest = rstrip s in if is_blank c && (rest =ₛ "") then String.[] else String.◌∷◌ c rest

text_length : String → ℕ
text_length String.[] = zero
text_length (String.◌∷◌ c s) = suc (text_length s)

abbrev pub error_string_selector : String
error_string_selector = "08c379a0"

-- The text of an `Error(string)` payload, or the payload itself.
unfoldable pub decode_hex : (Bytes → Result String) → String → Option String
unfolding lower drop_text take_text starts_0x lstrip rstrip text_length from_hex
decode_hex read_string raw =
    let hexs = lower (if starts_0x raw then drop_text 2 raw else raw) in
    if hexs =ₛ ""
    then none
    else if (take_text 8 hexs =ₛ error_string_selector) && leb 72 (text_length hexs)
    then elim (from_hex (drop_text 8 hexs) >>= read_string) [
      | err e ↦ none
      | ok s ↦ if rstrip (lstrip s) =ₛ "" then none else some (rstrip (lstrip s))
    ]
    else some ("0x" ++ₛ hexs)

unfoldable pub decode_revert_data : (Bytes → Result String) → RevertData → Option String
unfolding decode_hex
decode_revert_data read_string null = none
decode_revert_data read_string value = none
decode_revert_data read_string (text raw) = decode_hex read_string raw
decode_revert_data read_string (object null message) = decode_revert_data read_string message
decode_revert_data read_string (object (text raw) message) = decode_hex read_string raw
decode_revert_data read_string (object (object d m) message) =
    decode_revert_data read_string (object d m)
decode_revert_data read_string (object value message) = none

unfoldable pub is_revert : Code → String → Bool
unfolding lower
is_revert (positive n) msg =
    n == 3 || (occurs "revert" (lower msg) || occurs "reverted" (lower msg))
is_revert (negative n) msg = occurs "revert" (lower msg) || occurs "reverted" (lower msg)
is_revert (other s) msg = occurs "revert" (lower msg) || occurs "reverted" (lower msg)

unfoldable pub is_caller_auth_revert : String → Bool
unfolding lower
is_caller_auth_revert msg = occurs "not a solver" (lower msg)

-- `code in _RATE_LIMIT_CODES`
unfoldable pub is_rate_limit : Code → Bool
is_rate_limit (positive n) = n == 429
is_rate_limit (negative n) = n == 32005
is_rate_limit (other s) = false

abbrev pub error_code : RpcError → Code
error_code (fields (some c) message detail printed) = c
error_code (fields none message detail printed) = other "?"
error_code (plain printed) = other "?"

abbrev pub error_message : RpcError → String
error_message (fields code (some m) detail printed) = m
error_message (fields code none detail printed) = printed
error_message (plain printed) = printed

abbrev pub error_data : RpcError → RevertData
error_data (fields code message detail printed) = detail
error_data (plain printed) = null

abbrev pub rpc_error : Code → String → Error
rpc_error code msg = other_error ("RPC error " ++ₛ code_text code ++ₛ ": " ++ₛ msg)

-- The attempts of both calls: `None` in place of a delay marks the last one.
abbrev pub retry_delays : List (Option ℕ)
retry_delays = some 200 ∷ some 600 ∷ some 1_800 ∷ none ∷ []

abbrev pub is_set : Option ℕ → Bool
is_set none = false
is_set (some ms) = true

module _ {A : Type 0} (refused : RpcError → Result A) (answered : String → Result A) where
  unfoldable pub read_result : Body → Result A
  read_result b = elim b.result [
    | none ↦ err (other_error ("RPC response missing 'result': " ++ₛ b.printed))
    | some r ↦ answered r
  ]

  -- A response, with what the attempts behind it end with.
  unfoldable pub on_body : Option ℕ → (Error → Result A) → Body → Result A
  unfolding is_rate_limit read_result
  on_body delay again b = elim b.error [
    | none ↦ read_result b
    | some e ↦ elim (is_rate_limit (error_code e) && is_set delay) [
      | true ↦ again (rpc_error (error_code e) (error_message e))
      | false ↦ refused e
    ]
  ]

  unfoldable pub on_response : Option ℕ → (Error → Result A) → Response → Result A
  unfolding on_body
  on_response delay again resp = elim (resp.status_code == 429) [
    | true ↦ again (other_error "RPC error 429: Too Many Requests")
    | false ↦ resp.json >>= on_body delay again
  ]

  unfoldable pub attempts_from : (ℕ → Result Response) → List (Option ℕ) → ℕ → Error → Result A
  unfolding on_response
  attempts_from post [] n last_exc = err last_exc
  attempts_from post (delay ∷ delays) n last_exc =
      post n >>= on_response delay (attempts_from post delays (suc n))

abbrev pub no_attempts : Error
no_attempts = other_error "eth_call: no attempts made"

unfoldable pub eth_call : RpcClient → String → String → String → Result String
unfolding attempts_from
eth_call client to call_data block =
    attempts_from (λ e. err (rpc_error (error_code e) (error_message e))) ok
      (client.post (payload to call_data none block)) retry_delays 1 no_attempts

-- The reason of a revert, with the decoded detail where the message lacks it.
unfoldable pub revert_reason : (Bytes → Result String) → RpcError → String
unfolding decode_revert_data
revert_reason read_string e = elim (decode_revert_data read_string (error_data e)) [
  | none ↦ error_message e
  | some detail ↦
      if (detail =ₛ "") || occurs detail (error_message e)
      then error_message e
      else error_message e ++ₛ ": " ++ₛ detail
]

unfoldable pub capture_error : (Bytes → Result String) → RpcError → Result (Bool × String)
unfolding is_revert revert_reason is_caller_auth_revert
capture_error read_string e =
    let reason = revert_reason read_string e in
    if is_revert (error_code e) (error_message e)
    then (if is_caller_auth_revert reason
        then err (
            rpc_error (error_code e) (
              reason
              ++ₛ " (eth_call `from` is not an allowlisted solver — config issue, not a phantom solution)"))
        else ok (false, reason))
    else err (rpc_error (error_code e) (error_message e))

unfoldable pub eth_call_capture :
    RpcClient → String → String → Option String → String → Result (Bool × String)
unfolding attempts_from capture_error
eth_call_capture client to call_data from_addr block =
    attempts_from (capture_error client.read_string) (λ r. ok (true, r))
      (client.post (payload to call_data from_addr block)) retry_delays 1 no_attempts
