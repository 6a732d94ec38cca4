-- ===== src/Ethvm/State/CallFrames/LostReset.antt =====
-- ethvm/impls/stack.rs: a reset mark of the caller, after the commit of a call that touches the
-- account.
use ovr.Prelude.{◌≡◌, true, false, not, Option, none, some, arith}
use ovr.Primitives.{H160, H256}
use ovr.BTree.{get, contains}
use ovr.BTree.Keys.{nat_key, pair_key}
use ovr.BTree.Laws.{get-append, get-retain}
use ovr.Evm.{Backend, Metadata}
use ovr.Ethvm.Stack.{Frame, OvrStackAccount, OvrStackSubstate, root, child, known_storage}
use ovr.Ethvm.Stack.Frames.{merge, kept_slots, resets}
use ovr.Ethvm.State.{storage}

module _ (meta : Metadata) where
  open meta use {StackSubstateMetadata}

  -- The frame over those below it, of which there may be none.
  abbrev pub over :
      Frame StackSubstateMetadata
      → Option (OvrStackSubstate StackSubstateMetadata)
      → OvrStackSubstate StackSubstateMetadata
  over g none = root g
  over g (some p) = child g p

  -- What is read of a slot below a frame.
  abbrev pub beneath :
      Backend → Option (OvrStackSubstate StackSubstateMetadata) → H160 → H256 → H256
  beneath b none a k = b.storage a k
  beneath b (some p) a k = storage (record { backend = b; substate = p }) a k

  -- Where a caller, at any depth, has reset an account, and a call has an entry for it that is not
  -- reset: a slot that neither has written reads as zero within the call; once the frame of the
  -- call is merged, it reads as before the reset, that is as the frames below the caller have it,
  -- or the backend where the caller is the outermost frame.
  pub storage-merge_after_reset :
      (b : Backend) (f g : Frame StackSubstateMetadata)
      (p : Option (OvrStackSubstate StackSubstateMetadata)) (a : H160) (k : H256)
      (x y : OvrStackAccount)
      → get a f.accounts ≡ some x
      → x.reset ≡ false
      → get a g.accounts ≡ some y
      → y.reset ≡ true
      → get (a, k) f.storages ≡ none
      → get (a, k) g.storages ≡ none
      → (storage (record { backend = b; substate = child f (over g p) }) a k ≡ 0)
        × (storage (record { backend = b; substate = merge meta f (over g p) }) a k
            ≡ beneath b p a k)
  unfolding storage known_storage merge kept_slots
  storage-merge_after_reset b f g none a k x y hx rx hy ry sf sg = (
    ground arith,
    ground (
      arith,
      get-append a g.accounts f.accounts,
      get-append (a, k) (kept_slots (resets f.accounts) g.storages) f.storages,
      get-retain (λ (slot : H160 × H256). not (contains slot.0 (resets f.accounts))) (a, k)
          g.storages,
    ),
  )
  storage-merge_after_reset b f g (some p) a k x y hx rx hy ry sf sg = (
    ground arith,
    ground (
      arith,
      get-append a g.accounts f.accounts,
      get-append (a, k) (kept_slots (resets f.accounts) g.storages) f.storages,
      get-retain (λ (slot : H160 × H256). not (contains slot.0 (resets f.accounts))) (a, k)
          g.storages,
    ),
  )
