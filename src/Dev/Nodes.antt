-- ===== src/Dev/Nodes.antt =====
-- bins/ovr/dev.rs: the nodes of a network, their numbers, and which of them an operation meets.
-- `none` is an error; what Tendermint and the file system do is a test that succeeds or not.
pub mod Numbers
use ovr.Prelude.{
  ℕ, ◌+◌, ◌%◌, ◌^◌, Bool, true, false, not, Option, none, some, List, [], ◌∷◌, ◌++◌, if◌then◌else◌,
  ◌>>=◌,
}
use ovr.Primitives.{Bytes}
use ovr.BTree.{BTreeMap, get, insert, retain}
use ovr.BTree.Keys.{nat_key, same}
use ovr.Ledger.Rollback.{decimal}
use ovr.Dev.{Kind, node, full, seed}
use ovr.Dev.Ports.{CacheFile, Ports, System, alloc_ports, release}

abbrev pub NodeId : Type 0
NodeId = ℕ

pub record Node : Type 0 where
  pub id : NodeId
  pub tm_id : Bytes
  pub home : Bytes
  pub kind : Kind
  pub ports : Ports

-- The fields of `Env` that its operations change, with the name and the home that they read.
pub record Env : Type 0 where
  pub name : Bytes
  pub home : Bytes
  pub seed_nodes : BTreeMap NodeId Node
  pub full_nodes : BTreeMap NodeId Node
  pub validator_nodes : BTreeMap NodeId Node
  pub latest_id : NodeId

-- On 32 bits, which wrap in a release build.
unfoldable pub next_node_id : Env → NodeId × Env
next_node_id env = let id = (env.latest_id + 1) % 2 ^ 32 in (id, record env { latest_id = id })

abbrev pub insert_node : Kind → NodeId → Node → Env → Env
insert_node node id n env = record env { validator_nodes = insert id n env.validator_nodes }
insert_node full id n env = record env { full_nodes = insert id n env.full_nodes }
insert_node seed id n env = record env { seed_nodes = insert id n env.seed_nodes }

-- `alloc_resources`: the node gets its ports, and joins the nodes of its kind, where Tendermint
-- gives it a key.
unfoldable pub alloc_resources :
    System → (tm_id : Option Bytes) → NodeId → Kind → CacheFile × Env → Option (CacheFile × Env)
unfolding alloc_ports decimal insert
alloc_resources sys tm_id id kind (f, env) = do
  (ports, f') ← alloc_ports sys kind env.name f
  key ← tm_id
  let n : Node = record {
    id = id;
    tm_id = key;
    home = env.home ++ (47 ∷ decimal id);
    kind = kind;
    ports = ports;
  }
  some (f', insert_node kind id n env)

abbrev keys : BTreeMap NodeId Node → List NodeId
keys [] = []
keys ((id, n) ∷ rest) = id ∷ keys rest

-- The numbers that `start` and `apply_genesis` go through: the one that is given, or all.
unfoldable pub ids_of : Option NodeId → Env → List NodeId
ids_of (some id) env = id ∷ []
ids_of none env = keys env.seed_nodes ++ (keys env.full_nodes ++ keys env.validator_nodes)

abbrev or_else : Option Node → Option Node → Option Node
or_else none o = o
or_else (some n) o = some n

-- The validators are asked first, then the full nodes, then the seeds.
unfoldable pub find_node : NodeId → Env → Option Node
unfolding get
find_node id env =
    or_else (get id env.validator_nodes) (or_else (get id env.full_nodes) (get id env.seed_nodes))

-- The loop of `start`, which stops at the first node that is not there or does not start.
unfoldable pub start_all : (starts : Node → Bool) → List NodeId → Env → Option (Unit {0})
unfolding find_node
start_all starts [] env = some tt
start_all starts (id ∷ ids) env = do
  n ← find_node id env
  if starts n then start_all starts ids env else none

unfoldable pub start : (starts : Node → Bool) → Option NodeId → Env → Option (Unit {0})
unfolding ids_of start_all
start starts n env = start_all starts (ids_of n env) env

-- `attach_node`: a validator with the next number.
unfoldable pub attach_node :
    System
    → (tm_id : Option Bytes) → (starts : Node → Bool) → CacheFile × Env
    → Option (CacheFile × Env)
unfolding next_node_id alloc_resources start
attach_node sys tm_id starts (f, env) = do
  let (id, env1) = next_node_id env
  (f', env2) ← alloc_resources sys tm_id id node (f, env1)
  _ ← start starts (some id) env2
  some (f', env2)

abbrev last_node : BTreeMap NodeId Node → Option (NodeId × Node)
last_node [] = none
last_node (e ∷ []) = some e
last_node (e ∷ (d ∷ rest)) = last_node (d ∷ rest)

-- `kick_node`: the validator with the largest number leaves, and gives its ports back.
unfoldable pub kick_node : (writable : Bool) → CacheFile × Env → Option (CacheFile × Env)
unfolding retain release
kick_node writable (f, env) = do
  (id, n) ← last_node env.validator_nodes
  f' ← release writable n.ports f
  some (f', record env { validator_nodes = retain (λ k. not (same k id)) env.validator_nodes })
