-- ===== src/Blocks.antt =====
-- crates/bento-types/src/repository/mod.rs and block.rs: which blocks and transactions are marked as
-- of the main chain. The two tables are the state of a database in which taking a connection, each
-- statement and the begin and the commit of a transaction may fail (Base/Store).
pub mod Path
pub mod Update
pub mod Stored
pub mod Status
pub mod Settled
pub mod MainChain
mod Tests
use linx_app_backend.Base.{
  zero, suc, Bool, true, false, not, ◌&&◌, ◌||◌, Option, some, none, List, [], ◌∷◌, map, String,
  get_elem?, filter, if◌then◌else◌,
}
use linx_app_backend.Base.Equality.{string_eq, eqb}
use linx_app_backend.Base.HashMap.{unwrap_or}
use linx_app_backend.Base.Ints.{ℤ, pos, negsuc, int_eq}
use linx_app_backend.Base.Outcome.{Outcome, ok, panic, ◌>>=◌}

-- `ghost_uncles` stands for the JSON value of the uncles.
pub record BlockModel (T : Type 0) : Type 0 where
  pub hash : String
  pub timestamp : T
  pub chain_from : ℤ
  pub chain_to : ℤ
  pub height : ℤ
  pub deps : List (Option String)
  pub nonce : String
  pub version : String
  pub dep_state_hash : String
  pub txs_hash : String
  pub tx_number : ℤ
  pub target : String
  pub main_chain : Bool
  pub ghost_uncles : List (String × String)

-- A row of the table `transactions`, as far as the update of the main chain reads and writes it.
pub record TransactionRow : Type 0 where
  pub tx_hash : String
  pub block_hash : Option String
  pub main_chain : Bool

pub record Tables (T : Type 0) : Type 0 where
  pub blocks : List (BlockModel T)
  pub transactions : List TransactionRow

abbrev pub default_group_num : ℤ
default_group_num = pos 4

-- `deps.iter().map(|x| x.clone().unwrap())`
abbrev pub get_deps : List (Option String) → Outcome (List String)
get_deps [] = ok []
get_deps (none ∷ deps) = panic
get_deps (some dep ∷ deps) = get_deps deps >>= λ rest. ok (dep ∷ rest)

-- `list[i as usize]`
abbrev pub index : List String → ℤ → Outcome String
index [] i = panic
index (x ∷ xs) (negsuc n) = panic
index (x ∷ xs) (pos zero) = ok x
index (x ∷ xs) (pos (suc n)) = index xs (pos n)

module _ {T : Type 0} where
  unfoldable pub parent : Option ℤ → BlockModel T → Outcome (Option String)
  parent group_num block =
      if eqb block.height (pos 0)
      then ok none
      else (get_deps block.deps >>= λ deps.
          index deps (unwrap_or default_group_num group_num) >>= λ hash. ok (some hash))

  -- The first row of a hash.
  unfoldable pub find_block : String → List (BlockModel T) → Option (BlockModel T)
  find_block block_hash [] = none
  find_block block_hash (block ∷ blocks) =
      if eqb block_hash block.hash then some block else find_block block_hash blocks

  -- The other blocks of a chain at a height.
  abbrev pub is_rival : BlockModel T → BlockModel T → Bool
  is_rival block other =
      eqb other.chain_from block.chain_from
      && eqb other.chain_to block.chain_to
      && eqb other.height block.height
      && not (eqb other.hash block.hash)

  abbrev pub hashes_of_rivals : BlockModel T → List (BlockModel T) → List String
  hashes_of_rivals block blocks = map (λ other. other.hash) (filter (is_rival block) blocks)

  -- The two updates of one transaction of the database.
  abbrev pub set_block_status : String → Bool → BlockModel T → BlockModel T
  set_block_status block_hash main_chain block =
      if eqb block.hash block_hash then record block { main_chain = main_chain } else block

abbrev is_of_block : String → Option String → Bool
is_of_block block_hash none = false
is_of_block block_hash (some hash) = eqb hash block_hash

abbrev pub set_transaction_status : String → Bool → TransactionRow → TransactionRow
set_transaction_status block_hash main_chain row =
    if is_of_block block_hash row.block_hash then record row { main_chain = main_chain } else row
