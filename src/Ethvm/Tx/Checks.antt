-- ===== src/Ethvm/Tx/Checks.antt =====
-- ethvm/tx/mod.rs: `pre_exec` and the checks that it makes before a transaction is executed.
use ovr.Prelude.{
  ◌%◌, ◌^◌, Option, none, some, Result, ok, err, leb, ◌==◌, if◌then◌else◌, unwrap_or, ◌>>=◌,
}
use ovr.Primitives.{H160, U256, Bytes, checked_add, checked_mul}
use ovr.Vsdb.{BranchName, OvrAccount}
use ovr.Ethvm.Backend.{default_account}
use ovr.Ethvm.Tx.{
  TransactionAny, Crates, EvmState, gas_price_min, nonce, price, gas_limit, value, action, to,
  signature,
}

pub data PreExecError : Type 0 where
  low_gas_price no_signer no_gas : PreExecError
  invalid_nonce : (tx_nonce system_nonce : U256) → PreExecError
  insufficient_balance : (needed total : U256) → PreExecError

module _ (c : Crates) where
  open c use {db, crypto}

  unfoldable pub recover_pubkey : TransactionAny → Option Bytes
  recover_pubkey tx =
      let (r, s, v) = signature tx in crypto.secp256k1_ecdsa_recover r s v (crypto.message_hash tx)

  -- The address is the low 20 bytes of the hash of the public key.
  unfoldable pub recover_signer : TransactionAny → Option H160
  unfolding recover_pubkey
  recover_signer tx = do pubkey ← recover_pubkey tx; some (crypto.keccak256 pubkey % 2 ^ 160)

  unfoldable pub get_from_to : TransactionAny → Option H160 × Option H160
  get_from_to tx = (recover_signer tx, to (action tx))

  unfoldable pub check_gas_price : TransactionAny → EvmState c → BranchName → Option U256
  check_gas_price tx st b =
      if leb (unwrap_or gas_price_min (db.gas_price st.store b)) (price tx)
      then some (price tx)
      else none

  -- The two nonces, where they differ, of the transaction and of the account.
  unfoldable pub check_nonce :
      TransactionAny → H160 → EvmState c → BranchName → Result (Unit {0}) (U256 × U256)
  check_nonce tx addr st b =
      let system_nonce = (unwrap_or default_account (db.account st.store b addr)).nonce in
      if nonce tx == system_nonce then ok tt else err (nonce tx, system_nonce)

  -- What the sender must be able to pay: the value and the fee of all its gas.
  abbrev pub needed_amount : TransactionAny → U256 → Option U256
  needed_amount tx gas_price = do
    fee_limit ← checked_mul gas_price (gas_limit tx)
    checked_add (value tx) fee_limit

  abbrev pub afford : OvrAccount → U256 → Result (OvrAccount × U256) (Option (OvrAccount × U256))
  afford account needed =
      if leb needed account.balance then ok (account, needed) else err (some (account, needed))

  unfoldable pub check_balance :
      TransactionAny
      → H160
      → U256
      → EvmState c
      → BranchName
      → Result (OvrAccount × U256) (Option (OvrAccount × U256))
  check_balance tx addr gas_price st b =
      if gas_limit tx == 0 then err none else elim (needed_amount tx gas_price) [
        | none ↦ err none
        | some needed ↦ afford (unwrap_or default_account (db.account st.store b addr)) needed
      ]

  abbrev pub after_balance :
      H160
      → U256
      → Result (OvrAccount × U256) (Option (OvrAccount × U256))
      → Result (H160 × OvrAccount × U256) PreExecError
  after_balance addr gas_price (ok (account, _)) = ok (addr, account, gas_price)
  after_balance addr gas_price (err (some (account, needed))) =
      err (insufficient_balance needed account.balance)
  after_balance addr gas_price (err none) = err no_gas

  abbrev pub after_nonce :
      Result (Unit {0}) (U256 × U256)
      → Result (H160 × OvrAccount × U256) PreExecError
      → Result (H160 × OvrAccount × U256) PreExecError
  after_nonce (err (tx_nonce, system_nonce)) k = err (invalid_nonce tx_nonce system_nonce)
  after_nonce (ok _) k = k

  -- The sender, its account, and the price of its gas; nothing is written.
  unfoldable pub pre_exec :
      TransactionAny → EvmState c → BranchName → Result (H160 × OvrAccount × U256) PreExecError
  unfolding check_gas_price check_nonce check_balance
  pre_exec tx st b = elim (check_gas_price tx st b) [
    | none ↦ err low_gas_price
    | some gas_price ↦ elim (recover_signer tx) [
      | none ↦ err no_signer
      | some addr ↦
          after_nonce (check_nonce tx addr st b)
            (after_balance addr gas_price (check_balance tx addr gas_price st b))
    ]
  ]
