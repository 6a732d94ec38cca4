-- ===== src/Ethvm/Tx.antt =====
-- ethvm/tx/mod.rs: Ethereum transactions of the three formats, and the crates that they are
-- decoded, signed and executed by.
pub mod Checks
pub mod Exec
pub mod Admission
pub mod Effects
pub mod Answers
use ovr.Prelude.{
  ℕ, ◌*◌, ◌+◌, ◌/◌, ◌%◌, ◌^◌, ◌≤◌, ◌≡◌, Bool, true, false, Option, none, some, List, [], ◌∷◌,
  Result, ok, err, leb, ltb, ◌==◌, if◌then◌else◌, unwrap_or, ◌>>=◌,
}
use ovr.Primitives.{
  H160, H256, U256, Bytes, HashValue, BlockHeight, checked_add, checked_mul, saturating_add,
}
use ovr.Evm as Evm
use ovr.Evm.{Metadata}
use ovr.Vsdb.{BranchName, OvrAccount, Operations, MapxOrd}
use ovr.Ethvm.Backend.{OvrBackend, OvrVicinity, default_account}
use ovr.Ethvm.State.{OvrStackState}
use ovr.Ledger.Receipt as Ledger
use ovr.Ledger.Receipt.{Receipt}

pub data TransactionAction : Type 0 where
  call : H160 → TransactionAction
  create : TransactionAction

abbrev pub AccessList : Type 0
AccessList = List (H160 × List H256)

pub record LegacyTransaction : Type 0 where
  pub nonce : U256
  pub gas_price : U256
  pub gas_limit : U256
  pub action : TransactionAction
  pub value : U256
  pub input : Bytes
  pub r : H256
  pub s : H256
  pub standard_v : ℕ

pub record Eip2930Transaction : Type 0 where
  pub nonce : U256
  pub gas_price : U256
  pub gas_limit : U256
  pub action : TransactionAction
  pub value : U256
  pub input : Bytes
  pub access_list : AccessList
  pub odd_y_parity : ℕ
  pub r : H256
  pub s : H256

pub record Eip1559Transaction : Type 0 where
  pub nonce : U256
  pub max_priority_fee_per_gas : U256
  pub max_fee_per_gas : U256
  pub gas_limit : U256
  pub action : TransactionAction
  pub value : U256
  pub input : Bytes
  pub access_list : AccessList
  pub odd_y_parity : ℕ
  pub r : H256
  pub s : H256

-- `ethereum::TransactionAny`
pub data TransactionAny : Type 0 where
  legacy : LegacyTransaction → TransactionAny
  eip2930 : Eip2930Transaction → TransactionAny
  eip1559 : Eip1559Transaction → TransactionAny

-- The message hashes of the ethereum crate, the signature recovery of sp-io, and Keccak-256.
pub record Crypto : Type 0 where
  pub message_hash : TransactionAny → H256
  pub secp256k1_ecdsa_recover : (r s : H256) (v : ℕ) (msg : H256) → Option Bytes
  pub keccak256 : Bytes → H256

-- What a transaction leaves of the executor of the evm crate.
pub record Executed (M ExitReason : Type 0) : Type 0 where
  pub exit_reason : ExitReason
  pub output : Bytes
  pub used_gas : ℕ
  pub state : OvrStackState M

-- `StackExecutor` with the precompiled contracts, under the Istanbul rules; `estimate` is the
-- switch of its configuration. `none` is a panic of the backend that it reads.
pub record Executor (M : Type 0) : Type 1 where
  pub ExitReason : Type 0
  pub is_succeed : ExitReason → Bool
  pub new_metadata : (gas_limit : ℕ) → M
  pub create_address : OvrStackState M → (caller : H160) → H160
  pub transact_call :
      (estimate : Bool)
      → OvrStackState M
      → (caller address : H160) (value : U256) (input : Bytes) (gas_limit : ℕ)
        (access_list : AccessList)
      → Option (Executed M ExitReason)
  pub transact_create :
      (estimate : Bool)
      → OvrStackState M
      → (caller : H160) (value : U256) (init_code : Bytes) (gas_limit : ℕ)
        (access_list : AccessList)
      → Option (Executed M ExitReason)

-- The crates that a transaction depends on.
pub record Crates : Type 1 where
  pub meta : Metadata
  pub db : Operations
  pub hashes : MapxOrd H256
  pub crypto : Crypto
  pub evm : Executor meta.StackSubstateMetadata

-- `GAS_PRICE_MIN`
abbrev pub gas_price_min : U256
gas_price_min = 10

-- The fields that the three formats share, each read by a match in the source.
abbrev pub nonce : TransactionAny → U256
nonce (legacy tx) = tx.nonce
nonce (eip2930 tx) = tx.nonce
nonce (eip1559 tx) = tx.nonce

abbrev pub price : TransactionAny → U256
price (legacy tx) = tx.gas_price
price (eip2930 tx) = tx.gas_price
price (eip1559 tx) = tx.max_fee_per_gas

abbrev pub gas_limit : TransactionAny → U256
gas_limit (legacy tx) = tx.gas_limit
gas_limit (eip2930 tx) = tx.gas_limit
gas_limit (eip1559 tx) = tx.gas_limit

abbrev pub value : TransactionAny → U256
value (legacy tx) = tx.value
value (eip2930 tx) = tx.value
value (eip1559 tx) = tx.value

abbrev pub input : TransactionAny → Bytes
input (legacy tx) = tx.input
input (eip2930 tx) = tx.input
input (eip1559 tx) = tx.input

abbrev pub action : TransactionAny → TransactionAction
action (legacy tx) = tx.action
action (eip2930 tx) = tx.action
action (eip1559 tx) = tx.action

abbrev pub access_list : TransactionAny → AccessList
access_list (legacy tx) = []
access_list (eip2930 tx) = tx.access_list
access_list (eip1559 tx) = tx.access_list

-- `sig` and `msg` of `recover_pubkey`: the two words and the parity of the signature.
abbrev pub signature : TransactionAny → H256 × H256 × ℕ
signature (legacy tx) = (tx.r, tx.s, tx.standard_v)
signature (eip2930 tx) = (tx.r, tx.s, tx.odd_y_parity)
signature (eip1559 tx) = (tx.r, tx.s, tx.odd_y_parity)

abbrev pub to : TransactionAction → Option H160
to (call address) = some address
to create = none

pub record TxCommonProperties : Type 0 where
  pub nonce : U256
  pub gas_limit : U256
  pub gas_price : U256
  pub action : TransactionAction
  pub value : U256
  pub input : Bytes
  pub r : H256
  pub s : H256
  pub v : ℕ

-- The price that is shown: of an EIP-1559 transaction the middle of its two fees.
abbrev pub shown_price : TransactionAny → U256
shown_price (legacy tx) = tx.gas_price
shown_price (eip2930 tx) = tx.gas_price
shown_price (eip1559 tx) = saturating_add tx.max_priority_fee_per_gas tx.max_fee_per_gas / 2

unfoldable pub get_tx_common_properties : TransactionAny → TxCommonProperties
get_tx_common_properties tx = record {
  nonce = nonce tx;
  gas_limit = gas_limit tx;
  gas_price = shown_price tx;
  action = action tx;
  value = value tx;
  input = input tx;
  r = (signature tx).0;
  s = (signature tx).1;
  v = (signature tx).2;
}

-- ethvm/mod.rs: `State`, with the store that its collections share.
pub record EvmState (c : Crates) : Type 0 where
  pub store : c.db.Store
  pub default_branch : BranchName
  pub block_hashes : c.hashes.Map
  pub vicinity : OvrVicinity

pub record ExecRet (ExitReason : Type 0) : Type 0 where
  pub success : Bool
  pub gas_used : U256
  pub fee_used : U256
  pub exit_reason : ExitReason
  pub extra_data : Bytes
  pub caller : H160
  pub contract_addr : H160
  pub logs : List Evm.Log

abbrev pub ledger_logs : HashValue → List Evm.Log → List Ledger.Log
ledger_logs tx_hash [] = []
ledger_logs tx_hash (l ∷ ls) =
    Ledger.new_from_eth_log_and_tx_hash l tx_hash ∷ ledger_logs tx_hash ls

module _ {ExitReason : Type 0} where
  unfoldable pub gen_receipt : ExecRet ExitReason → Option H160 → Option H160 → Receipt
  gen_receipt ret from to' = record {
    tx_hash = [];
    tx_index = 0;
    from = from;
    to = to';
    block_gas_used = 0;
    tx_gas_used = ret.gas_used;
    contract_addr = elim to' [ none ↦ some ret.contract_addr | some _ ↦ none ];
    state_root = none;
    status_code = ret.success;
    logs = [];
  }

  unfoldable pub gen_logs : ExecRet ExitReason → HashValue → List Ledger.Log
  gen_logs ret tx_hash = ledger_logs tx_hash ret.logs
