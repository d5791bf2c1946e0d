-- ===== src/Processors/Samples.antt =====
-- Small blocks, transactions and events for the tests of examples/linx-indexer/src/processors. A
-- decimal is a natural number, a time the number of its seconds.
use linx_app_backend.Base.{
  ℕ, ◌+◌, true, false, Option, some, none, List, [], ◌∷◌, String, leb, ◌==◌, if◌then◌else◌,
}
use linx_app_backend.Base.Equality.{string_eq, pair_eq, eqb}
use linx_app_backend.Base.HashMap.{HashMap}
use linx_app_backend.Base.Ints.{ℤ, pos}
use linx_app_backend.Base.Outcome.{ok}
use linx_app_backend.Accounts.{Database}
use linx_app_backend.Types.Block.{
  Transaction, RichBlockEntry, BlockAndEvents, RichAssetInput, FixedAssetOutput, ContractInput,
  string, EventField, byte_vec, ContractEventByBlockHash,
}
use linx_app_backend.Types.Libraries.{BigDecimal, NaiveDateTime}
use linx_app_backend.Processors.Records.{NewAccountTransaction}
use linx_app_backend.Processors.Transfer.{
  Key, alph_token_id, dust_amount, sender_record, receiver_record,
}
use linx_app_backend.Processors.Transfer.Sound.{Visits}
use linx_app_backend.Processors.ContractCall.{call_record}
use linx_app_backend.Processors.Lending.{LendingRepository}
use linx_app_backend.Processors.LendingEvents.{Market}

abbrev pub amount_of : String → Option ℕ
amount_of s =
    if eqb s "4"
    then some 4
    else if eqb s "5"
    then some 5
    else if eqb s "9"
    then some 9
    else if eqb s dust_amount
    then some 1
    else none

abbrev pub decimal : BigDecimal ℕ
decimal = record {
  zero_decimal = 0;
  is_zero = λ a. a == 0;
  plus = λ a b. a + b;
  le = leb;
  parse = amount_of;
}

abbrev pub seconds_of : ℤ → ℕ → Option ℕ
seconds_of (pos n) nanos = some n
seconds_of z nanos = none

abbrev pub chrono : NaiveDateTime ℕ
chrono = record { default_time = 0; from_timestamp = seconds_of }

abbrev pub listed : HashMap Key ℕ → List (Key × ℕ)
listed m = m

pub listed-Visits : Visits listed
listed-Visits m x = (λ h. h, λ h. h)

abbrev pub input_of : String → RichAssetInput
input_of address = record {
  hint = pos 0;
  key = "";
  unlock_script = "";
  atto_alph_amount = "9";
  address = address;
  tokens = [];
}

abbrev pub output_to : String → String → FixedAssetOutput
output_to address amount = record {
  hint = pos 0;
  key = "";
  atto_alph_amount = amount;
  address = address;
  tokens = [];
  lock_time = pos 0;
  message = "";
}

abbrev pub tx_of : List RichAssetInput → List FixedAssetOutput → List ContractInput → Transaction
tx_of inputs outputs contracts = record {
  unsigned = record {
    tx_id = "t";
    version = pos 0;
    network_id = pos 0;
    script_opt = none;
    gas_amount = pos 0;
    gas_price = "";
    inputs = inputs;
    fixed_outputs = outputs;
  };
  script_execution_ok = true;
  contract_inputs = contracts;
  generated_outputs = [];
  input_signatures = [];
  script_signatures = [];
}

-- Alice sends 5 of her 9 to Bob.
abbrev pub payment : Transaction
payment = tx_of (input_of "alice" ∷ []) (output_to "bob" "5" ∷ output_to "alice" "4" ∷ []) []

abbrev pub pool : ContractInput
pool = record { hint = pos 0; key = ""; atto_alph_amount = "9"; address = "pool"; tokens = [] }

abbrev pub call : Transaction
call = tx_of (input_of "alice" ∷ []) (output_to "alice" "4" ∷ []) (pool ∷ [])

abbrev pub block : List Transaction → RichBlockEntry
block txs = record {
  hash = "";
  timestamp = pos 7000;
  chain_from = pos 0;
  chain_to = pos 1;
  height = pos 3;
  deps = [];
  transactions = txs;
  nonce = "";
  version = pos 0;
  dep_state_hash = "";
  txs_hash = "";
  target = "";
  ghost_uncles = [];
  parent = none;
  main_chain = none;
}

abbrev pub sample : RichBlockEntry
sample = block (payment ∷ call ∷ [])

abbrev pub bwe : List BlockAndEvents
bwe = record { block = sample; events = [] } ∷ []

abbrev pub alice_sends : NewAccountTransaction ℕ ℕ
alice_sends = sender_record decimal chrono payment sample "alice" "bob" alph_token_id 5

abbrev pub bob_gets : NewAccountTransaction ℕ ℕ
bob_gets = receiver_record decimal chrono payment sample "alice" "bob" alph_token_id 5

abbrev pub called : NewAccountTransaction ℕ ℕ
called = call_record chrono call sample (input_of "alice") pool

-- A market is created, and Alice supplies 5 of its loan token.
abbrev pub text : String → EventField
text s = record { field_type = byte_vec; value = string s }

abbrev pub market_created : ContractEventByBlockHash
market_created = record {
  tx_id = "t";
  contract_address = "linx";
  event_index = pos 4;
  fields = text "m" ∷ text "c" ∷ text "usdt" ∷ text "alph" ∷ text "o" ∷ text "i" ∷ text "9" ∷ [];
}

abbrev pub supplied : ContractEventByBlockHash
supplied = record {
  tx_id = "u";
  contract_address = "linx";
  event_index = pos 10;
  fields = text "m" ∷ text "alice" ∷ text "alice" ∷ text "5" ∷ text "4" ∷ [];
}

abbrev pub lending_bwe : List BlockAndEvents
lending_bwe = record { block = sample; events = supplied ∷ market_created ∷ [] } ∷ []

-- A database without markets.
abbrev pub repository : LendingRepository ℕ ℕ (Unit {0})
repository = record {
  get_all_markets = λ s. ok [];
  insert_markets = λ ms s. (ok tt, s);
  insert_lending_events = λ es s. (ok tt, s);
}

abbrev pub new_market : Market ℕ ℕ
new_market = record {
  id = "m";
  market_contract_id = "c";
  collateral_token = "alph";
  loan_token = "usdt";
  oracle = "o";
  irm = "i";
  ltv = 9;
  created_at = 7;
}

-- A key that tells the rows of these blocks apart.
abbrev pub db : Database ℕ ℕ
db = record {
  connection = ok tt;
  tx_key = λ tx. if eqb tx.tx_type "transfer" then tx.address else tx.tx_type;
  refuses = λ tx. false;
}
