-- ===== src/Ethvm/State/CallFrames/Commit.antt =====
-- ethvm/impls/stack.rs: `exit_commit`, which merges a frame into its caller's.
use ovr.Prelude.{◌≡◌, refl, ap, sym, ◌∙◌, true, not, some, [], ◌∷◌, ◌++◌, ok, err, arith, is_some}
use mathlib.Core.List.{append_assoc}
use ovr.Primitives.{H160, H256}
use ovr.BTree.{BTreeMap, get, contains}
use ovr.BTree.Keys.{nat_key, pair_key}
use ovr.BTree.Laws.{get-insert, get-append, get-retain}
use ovr.BTree.Order.{IsSorted, get-Above}
use ovr.Evm.{Metadata, Backend}
use ovr.Ethvm.Stack.{
  OvrStackAccount, Frame, OvrStackSubstate, root, child, top, parent, is_reset, known_account,
  known_basic, known_code, known_storage,
}
use ovr.Ethvm.Stack as Stack
use ovr.Ethvm.Stack.Frames as Frames
use ovr.Ethvm.Stack.Frames.{resets, kept_slots, merge}
use ovr.Ethvm.State.{OvrStackState, exists, basic, code, storage, deleted}
use ovr.Ethvm.State as State
use ovr.Ethvm.State.View.{view, view_ext, all_logs}
use ovr.Ethvm.State.CallFrames.{StackState}
use ovr.Ethvm.State.CallFrames.Balance.{Callee, exit_commit_child}
use ovr.Ethvm.State.CallFrames.Revert.{view-with_metadata, view-put_back}
use mathlib.Core.Option.{some-injective}

contains-resets :
    (q : H160) (m : BTreeMap H160 OvrStackAccount)
    → IsSorted m
    → contains q (resets m) ≡ is_reset (get q m)
unfolding resets contains get
contains-resets q [] s = refl
contains-resets q ((a, account) ∷ m) s =
    ground (arith, contains-resets q m s.1, get-insert q a tt (resets m), get-Above a m s.0)

-- No account that the callee's frame holds unreset was reset in the caller's own frame.
abbrev pub KeepsResets : {M : Type 0} → OvrStackSubstate M → OvrStackSubstate M → Type 0
KeepsResets t p =
    (a : H160)
    → is_some (get a (top t).accounts) ≡ true
    → is_reset (get a (top p).accounts) ≡ true
    → is_reset (get a (top t).accounts) ≡ true

module _ (meta : Metadata) where
  open meta use {StackSubstateMetadata, ExitError, swallow_commit}

  known_account-merge :
      (f : Frame StackSubstateMetadata) (p : Frames.Substate meta) (q : H160)
      → known_account (merge meta f p) q ≡ known_account (child f p) q
  unfolding merge known_account
  known_account-merge f (root g) q = ground (arith, get-append q g.accounts f.accounts)
  known_account-merge f (child g p) q = ground (arith, get-append q g.accounts f.accounts)

  known_storage-merge :
      (f : Frame StackSubstateMetadata) (p : Frames.Substate meta) (q : H160) (k : H256)
      → IsSorted f.accounts
      → KeepsResets (child f p) p
      → known_storage (merge meta f p) q k ≡ known_storage (child f p) q k
  unfolding merge known_storage kept_slots
  known_storage-merge f (root g) q k s h = ground (
    arith,
    get-append q g.accounts f.accounts,
    get-append (q, k) (kept_slots (resets f.accounts) g.storages) f.storages,
    get-retain (λ (slot : H160 × H256). not (contains slot.0 (resets f.accounts))) (q, k)
        g.storages,
    contains-resets q f.accounts s,
    h q,
  )
  known_storage-merge f (child g p) q k s h = ground (
    arith,
    get-append q g.accounts f.accounts,
    get-append (q, k) (kept_slots (resets f.accounts) g.storages) f.storages,
    get-retain (λ (slot : H160 × H256). not (contains slot.0 (resets f.accounts))) (q, k)
        g.storages,
    contains-resets q f.accounts s,
    h q,
  )

  deleted-merge :
      (f : Frame StackSubstateMetadata) (p : Frames.Substate meta) (q : H160)
      → Stack.deleted (merge meta f p) q ≡ Stack.deleted (child f p) q
  unfolding merge Stack.deleted contains
  deleted-merge f (root g) q = ground (arith, get-append q g.deletes f.deletes)
  deleted-merge f (child g p) q = ground (arith, get-append q g.deletes f.deletes)

  all_logs-merge :
      (f : Frame StackSubstateMetadata) (p : Frames.Substate meta)
      → all_logs (merge meta f p) ≡ all_logs p ++ f.logs
  unfolding merge
  all_logs-merge f (root g) = refl
  all_logs-merge f (child g p) = sym (append_assoc (all_logs p) g.logs f.logs)

  view-merge :
      (b : Backend) (f : Frame StackSubstateMetadata) (p : Frames.Substate meta)
      → IsSorted f.accounts
      → KeepsResets (child f p) p
      → view (record { backend = b; substate = merge meta f p })
        ≡ view (record { backend = b; substate = child f p })
  unfolding exists basic code storage deleted known_basic known_code
  view-merge b f p s h =
      view_ext _ _ (λ q. rw (known_account-merge f p q))
        (λ q. ground (arith, known_account-merge f p q))
        (λ q. ground (arith, known_account-merge f p q))
        (λ q k. ground (arith, known_storage-merge f p q k s h)) (λ q. deleted-merge f p q)
        (all_logs-merge f p)

  merge-with_metadata :
      (m : StackSubstateMetadata) (f : Frame StackSubstateMetadata) (p : Frames.Substate meta)
      → merge meta f (Frames.with_metadata meta m p) ≡ Frames.with_metadata meta m (merge meta f p)
  unfolding merge
  merge-with_metadata m f (root g) = refl
  merge-with_metadata m f (child g p) = refl

  eq-child : (t p : Frames.Substate meta) → parent t ≡ some p → t ≡ child (top t) p
  eq-child (root f) p h = cc
  eq-child (child f q) p h = rw (some-injective q p h)

  -- A commit that the gas meter accepts does not panic, and keeps the view of the callee,
  -- provided that no reset mark of the caller's frame is covered by an unreset entry of the
  -- callee's, and the callee's map of accounts is sorted.
  pub view-exit_commit :
      (s t : StackState meta) (m : StackSubstateMetadata)
      → Callee meta s t
      → IsSorted (top t.substate).accounts
      → KeepsResets t.substate s.substate
      → swallow_commit (top s.substate).metadata (top t.substate).metadata ≡ (m, ok tt)
      → (s' : StackState meta) × (State.exit_commit meta t ≡ some (s', ok tt)) × (view s' ≡ view t)
  unfolding State.exit_commit
  view-exit_commit s t m c sorted keeps accepted =
      let f = top t.substate in
      let p = s.substate in
      (
        record t { substate = merge meta f (Frames.with_metadata meta m p) },
        rw (exit_commit_child meta t.substate p c.0, accepted),
        rw (merge-with_metadata m f p) (view-with_metadata meta t.backend m (merge meta f p))
            ∙ view-merge t.backend f p sorted keeps
            ∙ ap (λ u. view (record { backend = t.backend; substate = u }))
                (sym (eq-child t.substate p c.0)),
      )

  -- A commit that the gas meter refuses does not panic, gives its error on, and drops the
  -- callee's frame: the view is the one that the caller had.
  pub view-exit_commit_refused :
      (s t : StackState meta) (m : StackSubstateMetadata) (e : ExitError)
      → Callee meta s t
      → swallow_commit (top s.substate).metadata (top t.substate).metadata ≡ (m, err e)
      → (s' : StackState meta) × (State.exit_commit meta t ≡ some (s', err e)) × (view s' ≡ view s)
  unfolding State.exit_commit
  view-exit_commit_refused s t m e c refused = (
    record t { substate = Frames.with_metadata meta m s.substate },
    rw (exit_commit_child meta t.substate s.substate c.0, refused),
    view-put_back meta m s t c.1,
  )
