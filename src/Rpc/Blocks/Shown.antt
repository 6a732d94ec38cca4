-- ===== src/Rpc/Blocks/Shown.antt =====
-- rpc/eth.rs, rpc/utils.rs: what a query by number shows of a block.
use mathlib.Core.Path.{subst}
use mathlib.Core.Option.{some-injective}
use ovr.Prelude.{
  ℕ, suc, ◌≡◌, refl, sym, ap, ◌∙◌, Bool, true, false, Option, none, some, List, [], ◌∷◌, Result, ok,
  err, arith, Option-cases, inl, inr, bind_some, codes,
}
use ovr.Primitives.{H256, BlockHeight}
use ovr.Ledger.Block.{
  Tx, evm_tx, native_tx, NativeTx, LedgerCrates, block_hash_to_evm_format,
  tm_proposer_to_evm_format,
}
use ovr.Ledger.Block as Ledger
use ovr.Ethvm.Tx.{TransactionAny}
use ovr.Ledger.Heights.{num, block_number_to_height}
use ovr.Ledger.Rollback.{
  Management, RollbackError, evm_state, rollback_to_height, remove_branch_by_name,
}
use ovr.Vsdb.{BranchName}
use ovr.Rpc.{EthApiImpl, RpcError, finish}
use ovr.Rpc.Web3.{Transaction, tx_to_web3_tx, txs_from, txs_to_web3_txs, push}
use ovr.Rpc.Transactions.First.{IsShownAs, evm-IsShownAs}
use ovr.Rpc.Blocks.{Block, full, hashes, tx_hashes, brief, complete, parent_hash_of, Rich}
use ovr.Rpc.Blocks.Numbered.{
  block_by_number, show_block, block_between, drop_after, show_txs, show_stored,
}

module _ (c : LedgerCrates) where
  open c use {crates, MerkleTreeStore}

  -- The transactions of the EVM among these, from a position on, are shown as those.
  pub data ShownAll (block : Ledger.Block MerkleTreeStore) (height : BlockHeight)
      : ℕ → List Tx → List Transaction → Type 0 where
    no_more : (i : ℕ) → ShownAll block height i [] []
    evm :
        (i : ℕ) (tx : TransactionAny) (t : Transaction) (txs : List Tx) (ts : List Transaction)
        → IsShownAs c block height i tx t
        → ShownAll block height (suc i) txs ts
        → ShownAll block height i (evm_tx tx ∷ txs) (t ∷ ts)
    native :
        (i : ℕ) (tx : NativeTx) (txs : List Tx) (ts : List Transaction)
        → ShownAll block height (suc i) txs ts
        → ShownAll block height i (native_tx tx ∷ txs) ts

  push-ShownAll :
      (block : Ledger.Block MerkleTreeStore) (height : BlockHeight) (i chain_id : ℕ) (tx : Tx)
      (txs : List Tx) (op : Option Transaction) (r : Result (List Transaction) RpcError)
      (ts : List Transaction)
      → tx_to_web3_tx c tx block height i chain_id ≡ some (ok op)
      → ((us : List Transaction) → r ≡ ok us → ShownAll block height (suc i) txs us)
      → push c op r ≡ ok ts
      → ShownAll block height i (tx ∷ txs) ts
  unfolding tx_to_web3_tx
  push-ShownAll block height i chain_id (native_tx tx) txs none r ts h rest e =
      native i tx txs ts (rest ts e)
  push-ShownAll block height i chain_id (native_tx tx) txs (some t) r ts h rest e =
      absurd (ground (arith, h))
  push-ShownAll block height i chain_id (evm_tx tx) txs none r ts h rest e =
      let (t, f, _) = evm-IsShownAs c tx block height i chain_id none h in
      absurd (ground (arith, f))
  push-ShownAll block height i chain_id (evm_tx tx) txs (some t) (err x) ts h rest e =
      absurd (ground (arith, e))
  push-ShownAll block height i chain_id (evm_tx tx) txs (some t) (ok us) ts h rest e =
      let (u, f, s) = evm-IsShownAs c tx block height i chain_id (some t) h in
      let same : t ∷ us ≡ ts = ground (arith, e) in
      subst (ShownAll block height i (evm_tx tx ∷ txs)) same (
        evm i tx t txs us (subst (IsShownAs c block height i tx) (sym (some-injective _ _ f)) s)
          (rest us refl))

  pub txs_from-ShownAll :
      (block : Ledger.Block MerkleTreeStore) (chain_id : ℕ) (height : BlockHeight) (i : ℕ)
      (txs : List Tx) (ts : List Transaction)
      → txs_from c block chain_id height i txs ≡ some (ok ts)
      → ShownAll block height i txs ts
  unfolding txs_from
  txs_from-ShownAll block chain_id height i [] ts h =
      let e : [] ≡ ts = ground (arith, h) in subst (ShownAll block height i []) e (no_more i)
  txs_from-ShownAll block chain_id height i (tx ∷ txs) ts h =
      elim (Option-cases (tx_to_web3_tx c tx block height i chain_id)) [
        | inl panic ↦ absurd (ground (arith, panic))
        | inr (err e, f) ↦ absurd (ground (arith, f))
        | inr (ok op, f) ↦
            let (r, g, k) =
              bind_some (txs_from c block chain_id height (suc i) txs) (λ r. some (push c op r))
                (ok ts) (ground (arith, f)) in
            push-ShownAll block height i chain_id tx txs op r ts f
              (λ us e. txs_from-ShownAll block chain_id height (suc i) txs us (g ∙ ap some e))
              (some-injective _ _ k)
      ]

  -- The hashes of the transactions, in order.
  pub data HashesOf : List Transaction → List H256 → Type 0 where
    no_hashes : HashesOf [] []
    its_hash :
        (t : Transaction) (ts : List Transaction) (hs : List H256)
        → HashesOf ts hs
        → HashesOf (t ∷ ts) (t.hash ∷ hs)

  tx_hashes-HashesOf : (ts : List Transaction) → HashesOf ts (tx_hashes ts)
  tx_hashes-HashesOf [] = no_hashes
  tx_hashes-HashesOf (t ∷ ts) = its_hash t ts (tx_hashes ts) (tx_hashes-HashesOf ts)

  -- What is shown of the block of a height: nothing where none is stored.
  pub data IsShownBlock (api : EthApiImpl c) (height : BlockHeight)
      : Bool → Option (Block c.Bloom) → Type 0 where
    missing :
        (is_complete : Bool)
        → c.blocks.get api.shared.blocks height ≡ none
        → IsShownBlock api height is_complete none
    whole :
        (block : Ledger.Block MerkleTreeStore) (b : Block c.Bloom) (ts : List Transaction)
        → c.blocks.get api.shared.blocks height ≡ some block
        → ShownAll block height 0 block.txs ts
        → b.transactions ≡ full ts
        → b.number ≡ some height
        → block_hash_to_evm_format block.header_hash ≡ b.hash
        → tm_proposer_to_evm_format block.header.proposer ≡ some b.author
        → b.timestamp ≡ block.header.timestamp
        → IsShownBlock api height true (some b)
    only_hashes :
        (block : Ledger.Block MerkleTreeStore) (b : Block c.Bloom) (ts : List Transaction)
        (hs : List H256)
        → c.blocks.get api.shared.blocks height ≡ some block
        → ShownAll block height 0 block.txs ts
        → HashesOf ts hs
        → b.transactions ≡ hashes hs
        → b.number ≡ none
        → b.hash ≡ none
        → IsShownBlock api height false (some b)

module _ (c : LedgerCrates) (evm ledger : Management c.crates.db.Store) where
  open c use {crates, MerkleTreeStore, blocks}
  open crates use {db}

  -- The parts of a complete block, where none of them panics.
  complete_lem :
      (block : Ledger.Block MerkleTreeStore) (height : BlockHeight) (ts : List Transaction)
      (api : EthApiImpl c) (b : Block c.Bloom)
      → complete c block height 0 none ts api ≡ some b
      → (b.transactions ≡ full ts)
        × (b.number ≡ some height)
        × (block_hash_to_evm_format block.header_hash ≡ b.hash)
        × (tm_proposer_to_evm_format block.header.proposer ≡ some b.author)
        × (b.timestamp ≡ block.header.timestamp)
  complete_lem block height ts api b h =
      let (proposer, e1, h1) = bind_some (tm_proposer_to_evm_format block.header.proposer) _ b h in
      let (parent, e2, h2) = bind_some (parent_hash_of c block) _ b h1 in
      let (hash, e3, h3) = bind_some (block_hash_to_evm_format block.header_hash) _ b h2 in
      let (root, e4, h4) =
        bind_some (block_hash_to_evm_format block.header.tx_merkle.root_hash) _ b h3 in
      let (limit, e5, h5) =
        bind_some (db.block_gas_limit api.shared.store api.default_branch) _ b h4 in
      let e = some-injective _ _ h5 in
      (
        sym (ap (λ x. x.transactions) e),
        sym (ap (λ x. x.number) e),
        e3 ∙ ap (λ x. x.hash) e,
        e1 ∙ ap (λ x. some x.author) e,
        sym (ap (λ x. x.timestamp) e),
      )

  show_txs-IsShownBlock :
      (api api' : EthApiImpl c) (height : BlockHeight) (block : Ledger.Block MerkleTreeStore)
      (id : ℕ) (is_complete : Bool) (r : Result (List Transaction) RpcError)
      (op : Option (Block c.Bloom))
      → blocks.get api.shared.blocks height ≡ some block
      → txs_to_web3_txs c block id height ≡ some r
      → show_txs c evm ledger block height is_complete api' r ≡ some (ok op)
      → IsShownBlock c api height is_complete op
  show_txs-IsShownBlock api api' height block id is_complete (err e) op stored h k =
      absurd (ground (arith, k))
  show_txs-IsShownBlock api api' height block id false (ok ts) op stored h k =
      let e : some (brief ts) ≡ op = ground (arith, k) in
      subst (IsShownBlock c api height false) e (
        only_hashes block (brief ts) ts (tx_hashes ts) stored
          (txs_from-ShownAll c block id height 0 block.txs ts h) (tx_hashes-HashesOf c ts) refl refl
          refl)
  show_txs-IsShownBlock api api' height block id true (ok ts) op stored h k =
      let (b, e, k1) = bind_some (complete c block height 0 none ts api') _ (ok op) k in
      let (txs, number, hash, author, timestamp) = complete_lem block height ts api' b e in
      let f : some b ≡ op = ground (arith, k1) in
      subst (IsShownBlock c api height true) f (
        whole block b ts stored (txs_from-ShownAll c block id height 0 block.txs ts h) txs number
          hash author timestamp)

  show_block-IsShownBlock :
      (api api' : EthApiImpl c) (height : BlockHeight) (block : Ledger.Block MerkleTreeStore)
      (is_complete : Bool) (op : Option (Block c.Bloom))
      → blocks.get api.shared.blocks height ≡ some block
      → show_block c evm ledger block height is_complete api' ≡ some (ok op)
      → IsShownBlock c api height is_complete op
  show_block-IsShownBlock api api' height block is_complete op stored h =
      let (_, _, h1) = bind_some (tm_proposer_to_evm_format block.header.proposer) _ (ok op) h in
      let (_, _, h2) = bind_some (parent_hash_of c block) _ (ok op) h1 in
      let (id, _, h3) =
        bind_some (db.chain_id api'.shared.store api'.default_branch) _ (ok op) h2 in
      let (r, e, h4) = bind_some (txs_to_web3_txs c block id height) _ (ok op) h3 in
      show_txs-IsShownBlock api api' height block id is_complete r op stored e h4

  finish_ok :
      {A : Type 0} (name : BranchName) (a b : A) (s t : db.Store)
      → finish c evm ledger name evm_state a s ≡ (ok b, t)
      → a ≡ b
  unfolding finish remove_branch_by_name
  finish_ok name a b s t h = elim (Option-cases (evm.branch_remove name s)) [
    | inl e ↦ absurd (ground (arith, e))
    | inr (u, e) ↦ ground (arith, e)
  ]

  drop_after_ok :
      (name : BranchName) (s t : db.Store) (r : Result (Rich c) RpcError)
      (op : Option (Block c.Bloom))
      → drop_after c evm ledger name s r ≡ (ok op, t)
      → r ≡ ok op
  drop_after_ok name s t (ok b) op h = ap ok (finish_ok name b op s t h)
  drop_after_ok name s t (err e) op h = elim (Option-cases (evm.branch_remove name s)) [
    | inl f ↦ absurd (ground (arith, f))
    | inr (u, f) ↦ absurd (ground (arith, f))
  ]

  block_between_ok :
      (o : Result BranchName RollbackError) (s t : db.Store)
      (show : db.Store → Option (Result (Rich c) RpcError)) (op : Option (Block c.Bloom))
      → block_between c evm ledger (o, s) show ≡ some (ok op, t)
      → show s ≡ some (ok op)
  block_between_ok (err e) s t show op h = absurd (ground arith)
  block_between_ok (ok name) s t show op h =
      let (r, e, h1) = bind_some (show s) _ (ok op, t) h in
      e ∙ ap some (drop_after_ok name s t r op (some-injective _ _ h1))

  -- Where a query by the number of a block answers, it shows the block that is stored under this
  -- height, with its number, hash, proposer and time if it is asked for completely: all its
  -- transactions of the EVM, in order, each with its own position; otherwise it shows their
  -- hashes, but neither number nor hash of the block. Nothing is shown where no block is stored.
  pub block_by_number-IsShownBlock :
      (n : BlockHeight) (is_complete : Bool) (api : EthApiImpl c) (op : Option (Block c.Bloom))
      (t : db.Store)
      → block_by_number c evm ledger (num n) is_complete api ≡ some (ok op, t)
      → IsShownBlock c api n is_complete op
  unfolding block_by_number block_number_to_height
  block_by_number-IsShownBlock n is_complete api op t h =
      let made =
        rollback_to_height c evm ledger n evm_state (codes "block_by_number") api.shared.store in
      let e = block_between_ok made.0 made.1 t (show_stored c evm ledger n is_complete api) op h in
      elim (Option-cases (blocks.get api.shared.blocks n)) [
        | inl none' ↦
            let f : none ≡ op = ground (arith, e, none') in
            subst (IsShownBlock c api n is_complete) f (missing is_complete none')
        | inr (block, stored) ↦
            show_block-IsShownBlock api
              (record api { shared = record api.shared { store = made.1 } }) n block is_complete op
              stored (ground (arith, e, stored))
      ]
