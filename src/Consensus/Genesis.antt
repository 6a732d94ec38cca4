-- ===== src/Consensus/Genesis.antt =====
-- consensus/mod.rs: `init_chain`, the accounts of the genesis.
use ovr.Prelude.{◌≡◌, Option, none, some, [], ◌∷◌, ◌==◌, if◌then◌else◌}
use ovr.Primitives.{H160, H256, U256}
use ovr.BTree.{BTreeMap}
use ovr.BTree.Keys.{bytes_key}
use ovr.Vsdb.{BranchName, WriteLaws, OvrAccount}
use ovr.Ethvm.Backend.{from_balance}
use ovr.Ledger.Block.{LedgerCrates}
use ovr.Ledger.Chain.{Ledger}
use ovr.Consensus.{AppCrates}

-- The amount that a list gives an address, by its last entry.
abbrev pub amount_of : H160 → BTreeMap H160 U256 → Option U256
amount_of q [] = none
amount_of q ((addr, am) ∷ rest) = elim (amount_of q rest) [
  | some x ↦ some x
  | none ↦ if q == addr then some am else none
]

abbrev pub funded : Option U256 → Option OvrAccount → Option OvrAccount
funded none before = before
funded (some am) before = some (from_balance am)

module _ (c : LedgerCrates) (a : AppCrates c) (laws : WriteLaws c.crates.db) where
  open c use {crates}
  open crates use {db}

  -- What the genesis leaves: each address that it names has its amount, without nonce and code, on
  -- the main branch; the other accounts, and all slots, are as before.
  pub record Funded (m : BTreeMap H160 U256) (l l' : Ledger c) : Type 0 where
    pub accounts :
        (q : H160)
        → db.account l'.shared.store l.main.default_branch q
          ≡ funded (amount_of q m) (db.account l.shared.store l.main.default_branch q)
    pub slots :
        (d : BranchName) (q : H160) (k : H256)
        → db.slot l'.shared.store d q k ≡ db.slot l.shared.store d q k
    pub blocks : l'.shared.blocks ≡ l.shared.blocks
