-- ===== src/Model.antt =====
-- The data of an auction and of a solution: src/models/order.py, src/models/auction.py and
-- src/models/solution.py. Amounts and prices are base units (uint256 on the wire), so they are
-- natural numbers of any size, as Python's ints are. Payloads that the program only passes on, or
-- tests for emptiness, are texts.
use cow_solver_skeleton.Prelude.{
  ℕ, String, Bool, false, Option, none, some, List, [], ◌∷◌, text_mem, lower,
}
use cow_solver_skeleton.Dict.{Dict}

pub data Kind : Type 0 where
  sell buy : Kind

pub data OrderClass : Type 0 where
  market limit liquidity : OrderClass

pub record Order : Type 0 where
  pub uid : String
  pub sell_token : String
  pub buy_token : String
  pub sell_amount : ℕ
  pub buy_amount : ℕ
  pub fee_policies : List String
  pub valid_to : ℕ
  pub kind : Kind
  pub owner : String
  pub partially_fillable : Bool
  pub class : OrderClass
  pub signing_scheme : Option String
  pub sell_token_balance : String
  pub pre_interactions : List String

abbrev pub smart_wallet_schemes : List String
smart_wallet_schemes = "presign" ∷ "eip1271" ∷ "erc1271" ∷ []

unfoldable pub is_smart_wallet_signed : Order → Bool
unfolding lower
is_smart_wallet_signed o = elim o.signing_scheme [
  | none ↦ false
  | some scheme ↦ text_mem (lower scheme) smart_wallet_schemes
]

pub record Token : Type 0 where
  pub decimals : Option ℕ
  pub symbol : Option String
  pub reference_price : Option ℕ
  pub available_balance : ℕ
  pub trusted : Bool

pub record Auction : Type 0 where
  pub id : Option String
  pub tokens : Dict Token
  pub orders : List Order
  pub effective_gas_price : ℕ
  pub deadline : Option String
  pub simulation_block : Option ℕ

pub data TradeKind : Type 0 where
  fulfillment jit : TradeKind

pub record Trade : Type 0 where
  pub kind : TradeKind
  pub order_uid : String
  pub executed_amount : ℕ

-- The wire form of an interaction, as `Interaction.to_gpv2_dict` builds it.
pub record WireInteraction : Type 0 where
  pub kind : String
  pub target : String
  pub value : String
  pub call_data : String
  pub inputs : List (String × String)
  pub outputs : List (String × String)

pub record Solution : Type 0 where
  pub id : ℕ
  pub prices : Dict ℕ
  pub trades : List Trade
  pub interactions : List WireInteraction

-- src/solver/base.py: a strategy's answer. `NoSolution` is the falsy sentinel.
pub data Outcome : Type 0 where
  solution : Solution → Outcome
  no_solution : Outcome
