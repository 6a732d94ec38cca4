-- ===== src/Tests/Heights.antt =====
-- Queries of the examples.
use ovr.Prelude.{ℕ, ◌≡◌, false, some, none, List, [], ◌∷◌, ◌⊎◌, All}
use ovr.Ledger.Block.{Block, default_block}
use ovr.Ledger.Heights.{
  First, Fails, hash, is_hash, is_block_of, block_number_to_height, block_number_to_height-First,
}
use ovr.Memory.Machine.{ledger_machine}

abbrev stored : List (ℕ × Block (List (List ℕ)))
stored = (1, default_block ledger_machine) ∷ []

abbrev hashes : List (ℕ × ℕ)
hashes = (1, 11) ∷ (2, 12) ∷ []

block_number_to_height-First_example :
    (First
        (is_hash ledger_machine 12)
        hashes
        (block_number_to_height ledger_machine (some (hash 12 false)) (some stored) (some hashes))
      ⊎ (All (Fails (is_hash ledger_machine 12)) hashes
          × (block_number_to_height ledger_machine
                (some (hash 12 false))
                (some stored)
                (some hashes)
              ≡ 0)))
    × (First
          (is_block_of ledger_machine 12)
          stored
          (block_number_to_height ledger_machine (some (hash 12 false)) (some stored) none)
        ⊎ (All (Fails (is_block_of ledger_machine 12)) stored
            × (block_number_to_height ledger_machine (some (hash 12 false)) (some stored) none
                ≡ 0)))
block_number_to_height-First_example =
    block_number_to_height-First ledger_machine 12 false stored hashes
