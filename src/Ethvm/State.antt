-- ===== src/Ethvm/State.antt =====
-- ethvm/impls/stack.rs: `OvrStackState`, the journal over a backend. It is itself a backend, which
-- reads the journal first, and the state that the executor of the evm crate works on.
pub mod View
pub mod Accounts
pub mod Slots
pub mod Refinement
pub mod CallFrames
use ovr.Prelude.{
  ℕ, Bool, true, false, ◌&&◌, ◌||◌, Option, none, some, List, Result, ok, err, ◌==◌, is_empty,
  is_some, unwrap_or, ◌>>=◌,
}
use ovr.Primitives.{H160, H256, U256, Bytes}
use ovr.Evm.{Basic, Log, Transfer, Apply, Backend, Metadata}
use ovr.Ethvm.Stack.{
  OvrStackSubstate, top, with_top, known_account, known_basic, known_code, known_empty,
  known_storage, known_original_storage,
}
use ovr.Ethvm.Stack as Stack
use ovr.Ethvm.Stack.Frames as Frames
use ovr.Ethvm.Stack.Flush as Flush

pub record OvrStackState (M : Type 0) : Type 0 where
  pub backend : Backend
  pub substate : OvrStackSubstate M

module _ {M : Type 0} where
  unfoldable pub new : M → Backend → OvrStackState M
  new m b = record { backend = b; substate = Stack.new m }

  unfoldable pub exists : OvrStackState M → H160 → Bool
  exists s a = is_some (known_account s.substate a) || s.backend.exists a

  unfoldable pub basic : OvrStackState M → H160 → Basic
  basic s a = unwrap_or (s.backend.basic a) (known_basic s.substate a)

  unfoldable pub code : OvrStackState M → H160 → Bytes
  code s a = unwrap_or (s.backend.code a) (known_code s.substate a)

  unfoldable pub storage : OvrStackState M → H160 → H256 → H256
  storage s a k = unwrap_or (s.backend.storage a k) (known_storage s.substate a k)

  unfoldable pub original_storage : OvrStackState M → H160 → H256 → Option H256
  original_storage s a k = elim (known_original_storage s.substate a k) [
    | some value ↦ some value
    | none ↦ s.backend.original_storage a k
  ]

  -- `impl Backend for OvrStackState`: what the journal does not hold is the backend's.
  unfoldable pub as_backend : OvrStackState M → Backend
  unfolding exists basic code storage original_storage
  as_backend s = record s.backend {
    exists = exists s;
    basic = basic s;
    code = code s;
    storage = storage s;
    original_storage = original_storage s;
  }

  unfoldable pub is_empty_account : OvrStackState M → H160 → Bool
  is_empty_account s a = elim (known_empty s.substate a) [
    | some known ↦ known
    | none ↦
        (s.backend.basic a).balance == 0
        && (s.backend.basic a).nonce == 0
        && is_empty (s.backend.code a)
  ]

  unfoldable pub deleted : OvrStackState M → H160 → Bool
  deleted s a = Stack.deleted s.substate a

  -- A method of the journal, on the journal of the state.
  abbrev pub on_substate :
      (Backend → OvrStackSubstate M → OvrStackSubstate M) → OvrStackState M → OvrStackState M
  on_substate f s = record s { substate = f s.backend s.substate }

  unfoldable pub inc_nonce : H160 → OvrStackState M → Option (OvrStackState M)
  inc_nonce a s = do
    substate ← Stack.inc_nonce s.backend a s.substate
    some (record s { substate = substate })

  unfoldable pub set_storage : H160 → H256 → H256 → OvrStackState M → OvrStackState M
  set_storage a k v = on_substate (λ _. Stack.set_storage a k v)

  unfoldable pub reset_storage : H160 → OvrStackState M → OvrStackState M
  reset_storage a = on_substate (λ b. Stack.reset_storage b a)

  unfoldable pub log : H160 → List H256 → Bytes → OvrStackState M → OvrStackState M
  log a topics bytes = on_substate (λ _. Stack.log a topics bytes)

  unfoldable pub set_deleted : H160 → OvrStackState M → OvrStackState M
  set_deleted a = on_substate (λ _. Stack.set_deleted a)

  unfoldable pub set_code : H160 → Bytes → OvrStackState M → OvrStackState M
  set_code a c = on_substate (λ b. Stack.set_code b a c)

  unfoldable pub reset_balance : H160 → OvrStackState M → OvrStackState M
  reset_balance a = on_substate (λ b. Stack.reset_balance b a)

  unfoldable pub touch : H160 → OvrStackState M → OvrStackState M
  touch a = on_substate (λ b. Stack.touch b a)

  unfoldable pub deconstruct : OvrStackState M → Option (List Apply × List Log)
  deconstruct s = Flush.deconstruct s.backend s.substate

module _ (meta : Metadata) where
  open meta use {StackSubstateMetadata, ExitError, Accessed}

  abbrev pub StackState : Type 0
  StackState = OvrStackState StackSubstateMetadata

  unfoldable pub metadata : StackState → StackSubstateMetadata
  metadata s = (top s.substate).metadata

  -- The metadata is lent to the executor, which changes it: it charges gas and marks accesses.
  unfoldable pub metadata_mut :
      (StackSubstateMetadata → StackSubstateMetadata) → StackState → StackState
  metadata_mut change s = record s {
    substate = with_top (λ f. record f { metadata = change f.metadata }) s.substate;
  }

  -- What a call frame's end leaves behind, put back into the state.
  abbrev pub put_back :
      StackState
      → OvrStackSubstate StackSubstateMetadata × Result (Unit {0}) ExitError
      → StackState × Result (Unit {0}) ExitError
  put_back s (t, r) = (record s { substate = t }, r)

  unfoldable pub enter : ℕ → Bool → StackState → StackState
  enter gas_limit is_static = on_substate (λ _. Frames.enter meta gas_limit is_static)

  unfoldable pub exit_commit : StackState → Option (StackState × Result (Unit {0}) ExitError)
  exit_commit s = do out ← Frames.exit_commit meta s.substate; some (put_back s out)

  unfoldable pub exit_revert : StackState → Option (StackState × Result (Unit {0}) ExitError)
  exit_revert s = do out ← Frames.exit_revert meta s.substate; some (put_back s out)

  unfoldable pub exit_discard : StackState → Option (StackState × Result (Unit {0}) ExitError)
  exit_discard s = do out ← Frames.exit_discard meta s.substate; some (put_back s out)

  unfoldable pub is_cold : StackState → H160 → Bool
  is_cold s a = Frames.is_cold meta a s.substate

  unfoldable pub is_storage_cold : StackState → H160 → H256 → Bool
  is_storage_cold s a k = Frames.is_storage_cold meta a k s.substate

  unfoldable pub transfer : Transfer → StackState → StackState × Result (Unit {0}) ExitError
  transfer t s = put_back s (Frames.transfer meta s.backend t s.substate)
