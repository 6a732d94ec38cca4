-- ===== src/Memory/Machine.antt =====
-- Crates for the examples: an executor that moves the value of a call and refuses any input.
use ovr.Prelude.{
  ℕ, zero, suc, ◌≤◌, ◌≡◌, refl, Bool, false, Option, none, some, List, [], ◌∷◌, ok, err, arith, leb,
  if◌then◌else◌, is_empty,
}
use mathlib.Core.Path.{subst}
use mathlib.Core.Option.{some-injective}
use ovr.Primitives.{H160, H256, U256, Bytes, u64_max}
use ovr.Evm.{Metadata}
use ovr.Ethvm.State as State
use ovr.Ethvm.State.View.Write.{inc_nonce, transfer}
use ovr.Ethvm.State.CallFrames.{Code, halt, write, exec}
use ovr.Ethvm.State.Refinement.{Outcome}
use ovr.Ethvm.Tx.{Crates, Executed, Executor, call, create, gas_limit, input, value}
use ovr.Ethvm.Tx.Exec.{clamp_u64}
use ovr.Ethvm.Tx.Effects.{ExecutorLaws, Ran}
use ovr.Ledger.Block.{LedgerCrates}
use ovr.Memory.Store.{memory}
use ovr.Memory.Maps.{list_map}

abbrev pub no_metadata : Metadata
no_metadata = record {
  StackSubstateMetadata = Unit;
  ExitError = Unit;
  out_of_fund = tt;
  spit_child = λ m limit static. tt;
  swallow_commit = λ m n. (tt, ok tt);
  swallow_revert = λ m n. (tt, ok tt);
  swallow_discard = λ m n. (tt, ok tt);
  Accessed = Unit;
  accessed = λ m. none;
  accessed_addresses = λ m a. false;
  accessed_storage = λ m a k. false;
}

abbrev S : Type 0
S = State.StackState no_metadata

-- The state after the code, where it ends well.
abbrev after : S → Outcome no_metadata S → S
after s (some (t, ok _)) = t
after s _ = s

abbrev used : ℕ → ℕ
used limit = if leb 21000 limit then 21000 else limit

abbrev executed : S → Code (Unit {0}) → Bool → ℕ → Executed (Unit {0}) Bool
executed s code good limit = record {
  exit_reason = good;
  output = [];
  used_gas = used limit;
  state = after s (exec no_metadata code s);
}

abbrev call_code : H160 → H160 → U256 → Bytes → Code (Unit {0})
call_code caller address value [] =
    write (inc_nonce caller)
      (write (transfer (record { source = caller; target = address; value = value })) halt)
call_code caller address value (x ∷ xs) = write (inc_nonce caller) halt

abbrev mover : Executor (Unit {0})
mover = record {
  ExitReason = Bool;
  is_succeed = λ r. r;
  new_metadata = λ limit. tt;
  create_address = λ s caller. caller;
  transact_call = λ estimate s caller address value input limit access.
      some (executed s (call_code caller address value input) (is_empty input) limit);
  transact_create = λ estimate s caller value code limit access.
      some (executed s (write (inc_nonce caller) halt) false limit);
}

-- The public key is the list of the first word of the signature, which is the address.
abbrev address_of : Bytes → H256
address_of [] = 0
address_of (x ∷ xs) = x

abbrev pub machine : Crates
machine = record {
  meta = no_metadata;
  db = memory;
  hashes = list_map;
  crypto = record {
    message_hash = λ tx. 0;
    secp256k1_ecdsa_recover = λ r s v msg. some (r ∷ []);
    keccak256 = address_of;
  };
  evm = mover;
}

ran_by :
    (s : S) (code : Code (Unit {0})) (o : Outcome no_metadata S)
    → exec no_metadata code s ≡ o
    → (code' : Code (Unit {0})) × (exec no_metadata code' s ≡ some (after s o, ok tt))
unfolding exec
ran_by s code (some (t, ok u)) h = (code, h)
ran_by s code (some (t, err e)) h = (halt, refl)
ran_by s code none h = (halt, refl)

used-u64 : (limit : ℕ) → used limit ≤ u64_max
used-u64 limit = ground arith

executed-Ran :
    (s : S) (code : Code (Unit {0})) (good : Bool) (limit : ℕ)
    → Ran machine s (executed s code good limit)
executed-Ran s code good limit =
    let (code', ran) = ran_by s code (exec no_metadata code s) refl in
    record { code = code'; ran = ran; used = used-u64 limit }

pub machine-ExecutorLaws : ExecutorLaws machine
machine-ExecutorLaws (call target) estimate s addr tx ran h =
    subst (λ x. Ran machine s x.1) (some-injective _ _ h)
      (executed-Ran s (call_code addr target (value tx) (input tx)) (is_empty (input tx))
        (clamp_u64 (gas_limit tx)))
machine-ExecutorLaws create estimate s addr tx ran h =
    subst (λ x. Ran machine s x.1) (some-injective _ _ h)
      (executed-Ran s (write (inc_nonce addr) halt) false (clamp_u64 (gas_limit tx)))

abbrev pub zeros : ℕ → Bytes
zeros zero = []
zeros (suc n) = 0 ∷ zeros n

abbrev first : List Bytes → Option Bytes
first [] = none
first (h ∷ hs) = some h

abbrev pub ledger_machine : LedgerCrates
ledger_machine = record {
  crates = machine;
  sha3_256 = λ bytes. zeros 32;
  encode_tx = λ tx. [];
  encode_contents = λ contents. [];
  encode_version = λ ver. [];
  MerkleTreeStore = List Bytes;
  empty_tree = [];
  merkle_tree = λ hs. hs;
  get_root = first;
  Bloom = Bytes;
  default_bloom = [];
  from_slice = λ bytes. bytes;
  as_bytes = λ b. b;
  accrue_address = λ a b. a ∷ b;
  accrue_topic = λ t b. t ∷ b;
  blocks = list_map;
}
