-- ===== src/Rpc/Logs/Matched.antt =====
-- rpc/eth.rs, rpc/utils.rs: which logs a query without the hash of a block answers.
use ovr.Prelude.{◌≤◌, ◌<◌, ◌≡◌, ◌⊎◌, Option, none, some}
use ovr.Primitives.{BlockHeight}
use ovr.Ledger.Receipt as Ledger
use ovr.Ledger.Receipt.{Receipt}
use ovr.Ledger.Block.{Block, LedgerCrates}
use ovr.Ledger.Heights.{BlockNumber, block_number_to_height}
use ovr.Rpc.{EthApiImpl}
use ovr.Rpc.Logs.{FilteredParams, Filter}

module _ (c : LedgerCrates) (p : FilteredParams c.Bloom) (filter : Filter p) where
  open c use {MerkleTreeStore, blocks}

  -- The height of the last block, and 0 of none.
  abbrev pub last_height : EthApiImpl c → BlockHeight
  last_height api = elim (blocks.last api.shared.blocks) [ none ↦ 0 | some (h, block) ↦ h ]

  -- A bound of the range: the height that is asked for, or the last one where it is above that.
  abbrev pub Clamped : Option BlockNumber → EthApiImpl c → BlockHeight → Type 0
  Clamped bn api h =
      let asked = block_number_to_height c bn (some api.shared.blocks) none in
      ((asked ≤ last_height api) × (h ≡ asked))
      ⊎ ((last_height api < asked) × (h ≡ last_height api))
