-- ===== src/Ethvm/State/CallFrames/Balance.antt =====
-- ethvm/impls/stack.rs: the frames below the top one, and the backend.
use ovr.Prelude.{◌+◌, ◌≡◌, refl, ◌∙◌, none, some, ok, err, ltb, Bool-cases, inl, inr}
use mathlib.Core.Option.{some-injective}
use ovr.Primitives.{u256_mod}
use ovr.Evm.{Metadata}
use ovr.Ethvm.Stack.{
  Frame, OvrStackSubstate, root, child, top, parent, with_top, account_mut, set_account,
}
use ovr.Ethvm.Stack as Stack
use ovr.Ethvm.Stack.Frames as Frames
use ovr.Ethvm.State as State
use ovr.Ethvm.State.View.{Write}
use ovr.Ethvm.State.View.Write.{
  inc_nonce, touch, reset_storage, set_deleted, reset_balance, set_storage, set_code, log, transfer,
}
use ovr.Ethvm.State.Refinement.{Outcome, run}
use ovr.Ethvm.State.CallFrames.{
  Ending, commit, revert, discard, Code, halt, write, charge, call, StackState, leave, go_on,
  after_write, exec,
}

pub parent-with_top :
    {M : Type 0} (g : Frame M → Frame M) (s : OvrStackSubstate M) → parent (with_top g s) ≡ parent s
parent-with_top g (root f) = refl
parent-with_top g (child f p) = refl

module _ (meta : Metadata) where
  open meta use {StackSubstateMetadata, ExitError, swallow_commit, swallow_revert, swallow_discard}

  abbrev pub S : Type 0
  S = StackState meta

  abbrev pub Out : Type 0
  Out = Outcome meta S

  -- The frames below the top one, and the backend, are untouched.
  abbrev pub Below : S → S → Type 0
  Below s s' = (parent s'.substate ≡ parent s.substate) × (s'.backend ≡ s.backend)

  -- Of an outcome that is not a panic.
  abbrev pub Leads : Out → (S → Type 0) → Type 0
  Leads none P = Unit
  Leads (some (s, _)) P = P s

  run-Below : (w : Write) (s : S) → Leads (run meta w s) (Below s)
  unfolding run State.inc_nonce Stack.inc_nonce State.touch Stack.touch State.reset_storage
      Stack.reset_storage Stack.remove_slots State.set_deleted Stack.set_deleted State.reset_balance
      Stack.reset_balance State.set_storage Stack.set_storage State.set_code Stack.set_code
      State.log Stack.log State.transfer Frames.transfer set_account
  run-Below (inc_nonce a) s =
      elim (Bool-cases (ltb ((account_mut s.backend a s.substate).basic.nonce + 1) u256_mod)) [
        | inl fits ↦ rw fits (parent-with_top _ s.substate, refl)
        | inr overflow ↦ rw overflow tt
      ]
  run-Below (touch a) s = (parent-with_top _ s.substate, refl)
  run-Below (reset_storage a) s = (parent-with_top _ _ ∙ parent-with_top _ s.substate, refl)
  run-Below (set_deleted a) s = (parent-with_top _ s.substate, refl)
  run-Below (reset_balance a) s = (parent-with_top _ s.substate, refl)
  run-Below (set_storage a k v) s = (parent-with_top _ s.substate, refl)
  run-Below (set_code a c) s = (parent-with_top _ s.substate, refl)
  run-Below (log a topics bytes) s = (parent-with_top _ s.substate, refl)
  run-Below (transfer t) s =
      elim (Bool-cases (ltb (account_mut s.backend t.source s.substate).basic.balance t.value)) [
        | inl short ↦ rw short (parent-with_top _ s.substate, refl)
        | inr covered ↦ rw covered (parent-with_top _ _ ∙ parent-with_top _ s.substate, refl)
      ]

  -- Of an outcome that went well.
  abbrev pub Ends : Out → (S → Type 0) → Type 0
  Ends (some (s, ok _)) P = P s
  Ends (some (_, err _)) P = Unit
  Ends none P = Unit

  Below-trans : (s t u : S) → Below s t → Below t u → Below s u
  Below-trans s t u h k = (k.0 ∙ h.0, k.1 ∙ h.1)

  Ends-Below : (s t : S) (o : Out) → Below s t → Ends o (Below t) → Ends o (Below s)
  Ends-Below s t (some (u, ok _)) h e = Below-trans s t u h e
  Ends-Below s t (some (u, err _)) h e = tt
  Ends-Below s t none h e = tt

  after_write-Below :
      (s : S) (o : Out) (k : S → Out)
      → Leads o (Below s)
      → ((t : S) → Ends (k t) (Below t))
      → Ends (after_write meta o k) (Below s)
  after_write-Below s none k h e = tt
  after_write-Below s (some (t, r)) k h e = Ends-Below s t (k t) h (e t)

  -- The ends of a frame, where `p` is the journal of the caller.
  pub exit_commit_child :
      (t p : Frames.Substate meta)
      → parent t ≡ some p
      → Frames.exit_commit meta t
        ≡ some
            (Frames.finish_commit meta (top t) p (swallow_commit (top p).metadata (top t).metadata))
  unfolding Frames.exit_commit
  exit_commit_child (root f) p h = cc
  exit_commit_child (child f q) p h = rw (some-injective q p h)

  pub exit_revert_child :
      (t p : Frames.Substate meta)
      → parent t ≡ some p
      → let (m, r) = swallow_revert (top p).metadata (top t).metadata in
        Frames.exit_revert meta t ≡ some (Frames.with_metadata meta m p, r)
  unfolding Frames.exit_revert
  exit_revert_child (root f) p h = cc
  exit_revert_child (child f q) p h = rw (some-injective q p h)

  pub exit_discard_child :
      (t p : Frames.Substate meta)
      → parent t ≡ some p
      → let (m, r) = swallow_discard (top p).metadata (top t).metadata in
        Frames.exit_discard meta t ≡ some (Frames.with_metadata meta m p, r)
  unfolding Frames.exit_discard
  exit_discard_child (root f) p h = cc
  exit_discard_child (child f q) p h = rw (some-injective q p h)

  finish_commit-parent :
      (f : Frame StackSubstateMetadata) (p : Frames.Substate meta) (out : _)
      → parent (Frames.finish_commit meta f p out).0 ≡ parent p
  unfolding Frames.merge
  finish_commit-parent f p (m, ok _) = parent-with_top _ _ ∙ parent-with_top _ p
  finish_commit-parent f p (m, err e) = parent-with_top _ p

  leave-Below :
      (s s' : S) (ending : Ending)
      → parent s'.substate ≡ some s.substate
      → s'.backend ≡ s.backend
      → Leads (leave meta ending s') (Below s)
  unfolding State.exit_commit State.exit_revert State.exit_discard
  leave-Below s s' commit h b =
      rw (exit_commit_child s'.substate s.substate h)
        (finish_commit-parent (top s'.substate) s.substate _, b)
  leave-Below s s' revert h b =
      rw (exit_revert_child s'.substate s.substate h) (parent-with_top _ s.substate, b)
  leave-Below s s' discard h b =
      rw (exit_discard_child s'.substate s.substate h) (parent-with_top _ s.substate, b)

  -- The state of a callee, whose caller is `s`.
  abbrev pub Callee : S → S → Type 0
  Callee s t = (parent t.substate ≡ some s.substate) × (t.backend ≡ s.backend)

  left-Below :
      (s : S) (o : Out) (k : S → Out)
      → Leads o (Below s)
      → ((t : S) → Ends (k t) (Below t))
      → Ends (go_on meta o k) (Below s)
  left-Below s none k h e = tt
  left-Below s (some (t, err _)) k h e = tt
  left-Below s (some (t, ok _)) k h e = Ends-Below s t (k t) h (e t)

  -- After the body and its end, the rest runs from a state over the same frames.
  call-Below :
      (s : S) (o : Out) (ending : Ending) (k : S → Out)
      → Ends o (Callee s)
      → ((t : S) → Ends (k t) (Below t))
      → Ends (go_on meta o (λ s'. go_on meta (leave meta ending s') k)) (Below s)
  call-Below s none ending k h e = tt
  call-Below s (some (t, err _)) ending k h e = tt
  call-Below s (some (t, ok _)) ending k h e =
      left-Below s (leave meta ending t) k (leave-Below s t ending h.0 h.1) e

  -- Whatever code an execution runs, and however deep its calls nest: where it ends well, the
  -- frames below the one that it started in, and the backend, are as they were.
  pub exec-Below : (c : Code StackSubstateMetadata) (s : S) → Ends (exec meta c s) (Below s)
  unfolding exec State.enter State.metadata_mut Frames.enter
  exec-Below halt s = (refl, refl)
  exec-Below (write w rest) s =
      after_write-Below s (run meta w s) (exec meta rest) (run-Below w s) (exec-Below rest)
  exec-Below (charge change rest) s =
      let t = State.metadata_mut meta change s in
      Ends-Below s t (exec meta rest t) (parent-with_top _ s.substate, refl) (exec-Below rest t)
  exec-Below (call gas_limit is_static body ending rest) s =
      call-Below s (exec meta body (State.enter meta gas_limit is_static s)) ending (exec meta rest)
        (exec-Below body (State.enter meta gas_limit is_static s)) (exec-Below rest)
