-- ===== src/Encoder/Abi.antt =====
-- The two packages that the encoders call, eth_abi and eth_utils, as a parameter, and the values
-- that are handed to them.
use cow_solver_skeleton.Prelude.{ℕ, String, Bool, List, Result, take}
use cow_solver_skeleton.Encoder.Bytes.{Bytes}

mutual
  pub data AbiValue : Type 0 where
    address : String → AbiValue
    uint : ℕ → AbiValue
    boolean : Bool → AbiValue
    bytes : Bytes → AbiValue
    tuple : AbiValues → AbiValue
    array : AbiValues → AbiValue

  pub data AbiValues : Type 0 where
    nil : AbiValues
    cons : AbiValue → AbiValues → AbiValues

abbrev pub values : List AbiValue → AbiValues
values List.[] = nil
values (List.◌∷◌ v vs) = cons v (values vs)

-- The values as a Python list.
abbrev pub list_of : AbiValues → List AbiValue
list_of nil = List.[]
list_of (cons v vs) = List.◌∷◌ v (list_of vs)

-- `eth_abi.encode(types, values)`, which may raise on a value that does not fit its type,
-- `eth_abi.decode(types, data)`, and `eth_utils.keccak(text=…)`.
pub record Abi : Type 0 where
  pub encode : List String → List AbiValue → Result Bytes
  pub decode : List String → Bytes → Result (List AbiValue)
  pub keccak : String → Bytes

-- `keccak(text=sig)[:4]`
abbrev pub selector : Abi → String → Bytes
selector abi sig = take 4 (abi.keccak sig)
