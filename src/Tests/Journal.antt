-- ===== src/Tests/Journal.antt =====
-- Journals of the examples, and their changes in the database.
use ovr.Prelude.{◌≡◌, refl, true, false, none, some, List, [], ◌∷◌, arith, is_some, Result, ok, err}
use ovr.BTree as BTree
use ovr.Ethvm.Stack.Frames as Frames
use ovr.BTree.{get, BTreeMap}
use ovr.BTree.Order.{IsSorted}
use ovr.BTree.Keys.{nat_key, pair_key}
use ovr.Primitives.{H160, H256}
use ovr.Evm.{Metadata, Apply, Log, Transfer}
use ovr.Ethvm.Stack.{Frame, root, child, OvrStackAccount}
use ovr.Ethvm.Stack as Stack
use ovr.Ethvm.Backend.{OvrBackend, as_backend, apply}
use ovr.Ethvm.Backend.Flush.{Stored, apply-deconstruct}
use ovr.Ethvm.State as State
use ovr.Ethvm.State.View.{view, spec}
use ovr.Ethvm.State.View.Write.{inc_nonce, transfer, set_storage}
use ovr.Ethvm.State.Refinement.{run, view_of, run-refines}
use ovr.Ethvm.State.CallFrames.{Code, halt, write, charge, call, revert, exec, StackState}
use ovr.Ethvm.State.CallFrames.Balance.{Ends, Below, exec-Below}
use ovr.Ethvm.State.CallFrames.Revert.{exec-exit_revert}
use ovr.Ethvm.State.CallFrames.Commit.{view-exit_commit, view-exit_commit_refused}
use ovr.Ethvm.State.CallFrames.LostReset.{over, beneath, storage-merge_after_reset}
use ovr.Ethvm.State.CallFrames.Sorted.{IsSortedFrame}
use ovr.Ledger.Branch.{deliver_tx_branch_name}
use ovr.Ledger.Chain.{default_vicinity}
use ovr.Memory.Store.{Memory, memory, memory-WriteLaws}
use ovr.Memory.Machine.{no_metadata}
use ovr.Tests.Data.{memory_of_one}

abbrev handles : OvrBackend
handles = record {
  branch = deliver_tx_branch_name;
  default_branch = deliver_tx_branch_name;
  block_hashes = λ h. none;
  vicinity = default_vicinity;
}

-- An account that was reset, with a slot that was written since, and one that was touched.
abbrev journal : Frame (Unit {0})
journal = record {
  metadata = tt;
  accounts =
      (1, record { basic = record { balance = 3; nonce = 1 }; code = none; reset = false })
      ∷ (
        7,
        record { basic = record { balance = 0; nonce = 0 }; code = some (6 ∷ []); reset = true },
      )
      ∷ [];
  storages = ((7, 2), 8) ∷ [];
  deletes = [];
  logs = [];
}

journal-IsSortedFrame : IsSortedFrame journal
journal-IsSortedFrame = record {
  accounts = ground arith;
  storages = ground arith;
  deletes = ground arith;
}

abbrev caller : StackState no_metadata
caller = record { backend = as_backend memory handles memory_of_one; substate = root journal }

abbrev moving : Transfer
moving = record { source = 1; target = 2; value = 3 }

-- A callee that writes, and calls code that is reverted.
abbrev nested : Code (Unit {0})
nested = write (transfer moving) (
    call 5 false (charge (λ m. m) (write (set_storage 7 2 0) halt)) revert
      (write (inc_nonce 1) halt))

no_entry : (a : H160) → is_some (get {V = OvrStackAccount} a []) ≡ true → ⊥
unfolding get
no_entry a h = cc

run-refines_example :
    view_of no_metadata (run no_metadata (transfer moving) caller)
    ≡ spec tt (transfer moving) (view caller)
run-refines_example = run-refines no_metadata (transfer moving) caller

exec-Below_example : Ends no_metadata (exec no_metadata nested caller) (Below no_metadata caller)
exec-Below_example = exec-Below no_metadata nested caller

apply-deconstruct_example :
    (changes : List Apply × List Log) × (State.deconstruct caller ≡ some changes)
    × (s : Memory) × (apply memory handles changes.0 false memory_of_one ≡ some s)
    × Stored memory memory-WriteLaws handles memory_of_one journal s
apply-deconstruct_example =
    apply-deconstruct memory memory-WriteLaws handles memory_of_one journal refl refl
      journal-IsSortedFrame

-- A slot is cleared in a call.
abbrev clearing : Code (Unit {0})
clearing = write (set_storage 7 2 0) halt

abbrev callee : StackState no_metadata
callee = record caller {
  substate =
      child
        (record {
          metadata = tt;
          accounts = [];
          storages = ((7, 2), 0) ∷ [];
          deletes = [];
          logs = [];
        })
        (root journal);
}

cleared : exec no_metadata clearing (State.enter no_metadata 5 false caller) ≡ some (callee, ok tt)
unfolding exec run State.set_storage as_backend State.enter Stack.set_storage Frames.enter
    BTree.insert
cleared = refl

exec-exit_revert_example :
    ((out : StackState no_metadata × Result (Unit {0}) (Unit {0})) × (State.exit_revert no_metadata
          callee
        ≡ some out)
      × (view out.0 ≡ view caller))
    × ((out : StackState no_metadata × Result (Unit {0}) (Unit {0})) × (State.exit_discard
            no_metadata callee
          ≡ some out)
        × (view out.0 ≡ view caller))
exec-exit_revert_example = exec-exit_revert no_metadata clearing 5 false caller callee cleared

view-exit_commit_example :
    (s : StackState no_metadata) × (State.exit_commit no_metadata callee ≡ some (s, ok tt))
    × (view s ≡ view callee)
view-exit_commit_example =
    view-exit_commit no_metadata caller callee tt (refl, refl) tt (λ a h k. absurd (no_entry a h))
      refl

-- A gas meter that refuses every commit.
abbrev refusing : Metadata
refusing = record no_metadata { swallow_commit = λ m n. (tt, err tt) }

view-exit_commit_refused_example :
    (s : StackState refusing) × (State.exit_commit refusing callee ≡ some (s, err tt))
    × (view s ≡ view caller)
view-exit_commit_refused_example =
    view-exit_commit_refused refusing caller callee tt tt (refl, refl) refl

abbrev slots : BTreeMap H256 H256
slots = (2, 8) ∷ (4, 0) ∷ []

slots-IsSorted : IsSorted slots
slots-IsSorted = ground arith

abbrev touched : OvrStackAccount
touched = record { basic = record { balance = 0; nonce = 0 }; code = some (6 ∷ []); reset = false }

-- A call that has touched the account 7, which its caller has reset.
abbrev toucher : Frame (Unit {0})
toucher = record {
  metadata = tt;
  accounts = (7, touched) ∷ [];
  storages = [];
  deletes = [];
  logs = [];
}

toucher-entry : get 7 toucher.accounts ≡ some touched
unfolding get
toucher-entry = refl

journal-entry : get 7 journal.accounts ≡ some (record touched { reset = true })
unfolding get
journal-entry = refl

journal-slot : get (7, 3) journal.storages ≡ none
unfolding get
journal-slot = refl

toucher-slot : get (7, 3) toucher.storages ≡ none
unfolding get
toucher-slot = refl

-- A frame below the caller, with a value of the slot.
abbrev lowest : Frame (Unit {0})
lowest = record toucher { storages = ((7, 3), 5) ∷ [] }

storage-merge_after_reset_example :
    (State.storage
        (record {
          backend = caller.backend;
          substate = child toucher (over no_metadata journal (some (root lowest)));
        })
        7
        3
      ≡ 0)
    × (State.storage
          (record {
            backend = caller.backend;
            substate =
                Frames.merge no_metadata toucher (over no_metadata journal (some (root lowest)));
          })
          7
          3
        ≡ beneath no_metadata caller.backend (some (root lowest)) 7 3)
storage-merge_after_reset_example =
    storage-merge_after_reset no_metadata caller.backend toucher journal (some (root lowest)) 7 3
      touched (record touched { reset = true }) toucher-entry refl journal-entry refl toucher-slot
      journal-slot
