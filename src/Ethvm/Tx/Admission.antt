-- ===== src/Ethvm/Tx/Admission.antt =====
-- ethvm/tx/mod.rs: the conditions under which `pre_exec` accepts a transaction.
use ovr.Prelude.{◌+◌, ◌*◌, ◌≤◌, ◌<◌, ◌≡◌, ◌≢◌, some, ok, arith, unwrap_or}
use ovr.Primitives.{H160, U256, u256_mod}
use ovr.Vsdb.{BranchName, OvrAccount}
use ovr.Ethvm.Backend.{default_account}
use ovr.Ethvm.Tx.{TransactionAny, Crates, EvmState, gas_price_min, nonce, price, gas_limit, value}
use ovr.Ethvm.Tx.Checks.{pre_exec, check_gas_price, check_nonce, check_balance, recover_signer}

module _ (c : Crates) (tx : TransactionAny) (st : EvmState c) (b : BranchName) where
  open c use {db}

  -- What makes a transaction admissible, and what is found out about it.
  pub record Admitted (addr : H160) (account : OvrAccount) (gas_price : U256) : Type 0 where
    pub its_price : gas_price ≡ price tx
    pub min_price : unwrap_or gas_price_min (db.gas_price st.store b) ≤ price tx
    pub signer : recover_signer c tx ≡ some addr
    pub its_account : account ≡ unwrap_or default_account (db.account st.store b addr)
    pub its_nonce : nonce tx ≡ account.nonce
    pub has_gas : gas_limit tx ≢ 0
    pub fits : value tx + price tx * gas_limit tx < u256_mod
    pub funds : value tx + price tx * gas_limit tx ≤ account.balance

  -- A transaction that `pre_exec` accepts is signed, offers at least the gas price of the
  -- branch, carries exactly the nonce of its sender, asks for some gas, and its sender holds
  -- its value and the fee of all that gas, a sum that fits in 256 bits; the answer is the
  -- signer, its account and the price that is offered.
  pub pre_exec-Admitted :
      (addr : H160) (account : OvrAccount) (gas_price : U256)
      → pre_exec c tx st b ≡ ok (addr, account, gas_price)
      → Admitted addr account gas_price
  unfolding pre_exec check_gas_price check_nonce check_balance
  pre_exec-Admitted addr account gas_price h = record {
    its_price = ground arith;
    min_price = ground arith;
    signer = ground arith;
    its_account = ground arith;
    its_nonce = ground arith;
    has_gas = ground arith;
    fits = ground arith;
    funds = ground arith;
  }

  -- A transaction that meets these conditions, of signature, price, nonce, gas and funds, is
  -- accepted by `pre_exec`, with the signer, its account and the price.
  pub Admitted-pre_exec :
      (addr : H160) (account : OvrAccount) (gas_price : U256)
      → Admitted addr account gas_price
      → pre_exec c tx st b ≡ ok (addr, account, gas_price)
  unfolding pre_exec check_gas_price check_nonce check_balance
  Admitted-pre_exec addr account gas_price h = ground (
    arith, h.its_price, h.min_price, h.signer, h.its_account, h.its_nonce, h.has_gas, h.fits,
    h.funds,
  )
