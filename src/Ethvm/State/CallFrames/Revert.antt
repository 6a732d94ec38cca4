-- ===== src/Ethvm/State/CallFrames/Revert.antt =====
-- ethvm/impls/stack.rs: `exit_revert` and `exit_discard`, after the code of a call.
use ovr.Prelude.{ℕ, ◌≡◌, refl, Bool, some, Result, ok}
use ovr.Evm.{Metadata, Backend}
use ovr.Ethvm.Stack.{
  Frame, OvrStackSubstate, root, child, top, parent, known_account, known_basic, known_code,
  known_storage,
}
use ovr.Ethvm.Stack as Stack
use ovr.Ethvm.Stack.Frames as Frames
use ovr.Ethvm.State.{OvrStackState, exists, basic, code, storage, deleted}
use ovr.Ethvm.State as State
use ovr.Ethvm.State.View.{view}
use ovr.Ethvm.State.CallFrames.{Code, exec, StackState}
use ovr.Ethvm.State.CallFrames.Balance.{Callee, exec-Below, exit_revert_child, exit_discard_child}

module _ (meta : Metadata) where
  open meta use {StackSubstateMetadata, ExitError, swallow_revert, swallow_discard}

  -- The view reads no metadata.
  pub view-with_metadata :
      (b : Backend) (m : StackSubstateMetadata) (t : Frames.Substate meta)
      → view (record { backend = b; substate = Frames.with_metadata meta m t })
        ≡ view (record { backend = b; substate = t })
  unfolding exists basic code storage deleted known_basic known_code known_account known_storage
      Stack.deleted
  view-with_metadata b m (root f) = refl
  view-with_metadata b m (child f p) = refl

  -- The state that a run in a call's frame ends in belongs to a callee of the caller.
  pub exec-enter :
      (c : Code StackSubstateMetadata) (gas_limit : ℕ) (is_static : Bool) (s t : StackState meta)
      → exec meta c (State.enter meta gas_limit is_static s) ≡ some (t, ok tt)
      → Callee meta s t
  unfolding State.enter Frames.enter
  exec-enter c gas_limit is_static s t e =
      rw e at (exec-Below meta c (State.enter meta gas_limit is_static s))

  pub view-put_back :
      (m : StackSubstateMetadata) (s t : StackState meta)
      → t.backend ≡ s.backend
      → view (record t { substate = Frames.with_metadata meta m s.substate }) ≡ view s
  view-put_back m s t e = rw e (view-with_metadata s.backend m s.substate)

  -- Whatever code a call runs, and however deep it nests: if the code ends well, then to revert
  -- the call's frame does not panic, and the view is the one that the caller had, and so it is if
  -- the frame is discarded.
  pub exec-exit_revert :
      (c : Code StackSubstateMetadata) (gas_limit : ℕ) (is_static : Bool) (s t : StackState meta)
      → exec meta c (State.enter meta gas_limit is_static s) ≡ some (t, ok tt)
      → ((out : StackState meta × Result (Unit {0}) ExitError) × (State.exit_revert meta t
            ≡ some out)
          × (view out.0 ≡ view s))
        × ((out : StackState meta × Result (Unit {0}) ExitError) × (State.exit_discard meta t
              ≡ some out)
            × (view out.0 ≡ view s))
  unfolding State.exit_revert State.exit_discard
  exec-exit_revert c gas_limit is_static s t e =
      let h = exec-enter c gas_limit is_static s t e in
      let (m, r) = swallow_revert (top s.substate).metadata (top t.substate).metadata in
      let (n, q) = swallow_discard (top s.substate).metadata (top t.substate).metadata in
      (
        (
          (record t { substate = Frames.with_metadata meta m s.substate }, r),
          rw (exit_revert_child meta t.substate s.substate h.0),
          view-put_back m s t h.1,
        ),
        (
          (record t { substate = Frames.with_metadata meta n s.substate }, q),
          rw (exit_discard_child meta t.substate s.substate h.0),
          view-put_back n s t h.1,
        ),
      )
