-- ===== src/Ethvm/State/CallFrames.antt =====
-- Executions with nested calls, over the methods of ethvm/impls/stack.rs: an execution writes in
-- its frame, enters the frame of a call, and leaves it by a commit, a revert or a discard.
pub mod Balance
pub mod Revert
pub mod Commit
pub mod Sorted
pub mod LostReset
use ovr.Prelude.{ℕ, Bool, Option, none, some, Result, ok, err}
use ovr.Evm.{Metadata}
use ovr.Ethvm.State as State
use ovr.Ethvm.State.View.{Write}
use ovr.Ethvm.State.Refinement.{Outcome, run}

-- How a call frame ends.
pub data Ending : Type 0 where
  commit revert discard : Ending

-- What an execution does within a frame, over metadata of the type `M`: writes, changes of the
-- metadata, and calls with their own code and ending.
pub data Code (M : Type 0) : Type 0 where
  halt : Code M
  write : Write → Code M → Code M
  charge : (M → M) → Code M → Code M
  call :
      (gas_limit : ℕ) (is_static : Bool) (body : Code M) (ending : Ending) (rest : Code M) → Code M

module _ (meta : Metadata) where
  open meta use {StackSubstateMetadata, ExitError}

  abbrev pub StackState : Type 0
  StackState = State.StackState meta

  abbrev pub leave : Ending → StackState → Outcome meta StackState
  leave commit s = State.exit_commit meta s
  leave revert s = State.exit_revert meta s
  leave discard s = State.exit_discard meta s

  -- The execution goes on where the step went well; an error of a write, which the frame sees,
  -- does not stop it, and a refused end of a frame does.
  abbrev pub go_on :
      Outcome meta StackState → (StackState → Outcome meta StackState) → Outcome meta StackState
  go_on none k = none
  go_on (some (s, ok _)) k = k s
  go_on (some (s, err e)) k = some (s, err e)

  abbrev pub after_write :
      Outcome meta StackState → (StackState → Outcome meta StackState) → Outcome meta StackState
  after_write none k = none
  after_write (some (s, _)) k = k s

  unfoldable pub exec : Code StackSubstateMetadata → StackState → Outcome meta StackState
  exec halt s = some (s, ok tt)
  exec (write w rest) s = after_write (run meta w s) (exec rest)
  exec (charge change rest) s = exec rest (State.metadata_mut meta change s)
  exec (call gas_limit is_static body ending rest) s =
      go_on (exec body (State.enter meta gas_limit is_static s))
        λ s'. go_on (leave ending s') (exec rest)
