-- ===== src/Evm.antt =====
-- The traits and structures of the `evm` crate that the program is written against. The crate
-- is not part of the repository: what it implements is an argument of the definitions.
use ovr.Prelude.{ℕ, Bool, Option, Result, List}
use ovr.Primitives.{H160, H256, U256, Bytes}
use ovr.BTree.{BTreeMap}

-- `evm::backend::Basic`
pub record Basic : Type 0 where
  pub balance : U256
  pub nonce : U256

-- `evm::backend::Log`
pub record Log : Type 0 where
  pub address : H160
  pub topics : List H256
  pub bytes : Bytes

-- `evm::Transfer`
pub record Transfer : Type 0 where
  pub source : H160
  pub target : H160
  pub value : U256

-- `evm::backend::Apply`
pub data Apply : Type 0 where
  modify :
      (address : H160) (basic : Basic) (code : Option Bytes) (storage : BTreeMap H256 H256)
      (reset_storage : Bool)
      → Apply
  delete : (address : H160) → Apply

-- The trait `evm::backend::Backend`
pub record Backend : Type 0 where
  pub gas_price : U256
  pub origin : H160
  -- `none` is a panic.
  pub block_hash : U256 → Option H256
  pub block_number : U256
  pub block_coinbase : H160
  pub block_timestamp : U256
  pub block_difficulty : U256
  pub block_gas_limit : U256
  pub block_base_fee_per_gas : U256
  pub chain_id : U256
  pub exists : H160 → Bool
  pub basic : H160 → Basic
  pub code : H160 → Bytes
  pub storage : H160 → H256 → H256
  pub original_storage : H160 → H256 → Option H256

-- `StackSubstateMetadata` with its gas meter and its sets of accessed addresses. A swallowing
-- call returns the metadata that it leaves behind beside its result.
pub record Metadata : Type 1 where
  pub StackSubstateMetadata : Type 0
  pub ExitError : Type 0
  pub out_of_fund : ExitError
  pub spit_child : StackSubstateMetadata → ℕ → Bool → StackSubstateMetadata
  pub swallow_commit :
      StackSubstateMetadata
      → StackSubstateMetadata
      → StackSubstateMetadata × Result (Unit {0}) ExitError
  pub swallow_revert :
      StackSubstateMetadata
      → StackSubstateMetadata
      → StackSubstateMetadata × Result (Unit {0}) ExitError
  pub swallow_discard :
      StackSubstateMetadata
      → StackSubstateMetadata
      → StackSubstateMetadata × Result (Unit {0}) ExitError
  pub Accessed : Type 0
  pub accessed : StackSubstateMetadata → Option Accessed
  pub accessed_addresses : Accessed → H160 → Bool
  pub accessed_storage : Accessed → H160 → H256 → Bool
