-- ===== src/Dev/Nodes/Numbers.antt =====
-- bins/ovr/dev.rs: the numbers of the nodes, from the network that is made on.
use mathlib.Core.Path.{subst}
use mathlib.Core.Option.{some-injective}
use ovr.Prelude.{
  ◌+◌, ◌%◌, ◌^◌, [], ◌∷◌, Bool-cases, ◌≤◌, ◌<◌, ◌≡◌, refl, ap, ◌∙◌, Bool, false, not, Option, none,
  some, arith, bind_some, Option-cases, inl, inr, ◌==◌,
}
use ovr.Primitives.{Bytes}
use ovr.BTree.{BTreeMap, get, insert, retain}
use ovr.BTree.Keys.{nat_key, same}
use ovr.BTree.Order.{IsSorted}
use ovr.BTree.Laws.{get-insert, get-retain}
use ovr.Dev.{node}
use ovr.Dev.Ports.{CacheFile, System, alloc_ports, release}
use ovr.Dev.Nodes.{
  NodeId, Node, Env, next_node_id, insert_node, alloc_resources, start, attach_node, kick_node,
  find_node, last_node,
}

-- No number in use is above the latest one, and a node stands under its own number.
pub record AreNumbered (latest : NodeId) (m : BTreeMap NodeId Node) : Type 0 where
  pub below : (id : NodeId) (n : Node) → get id m ≡ some n → id ≤ latest
  pub its_own : (id : NodeId) (n : Node) → get id m ≡ some n → n.id ≡ id

pub record IsNumbered (env : Env) : Type 0 where
  pub seeds : AreNumbered env.latest_id env.seed_nodes
  pub fulls : AreNumbered env.latest_id env.full_nodes
  pub validators : AreNumbered env.latest_id env.validator_nodes

grown :
    (latest next : NodeId) (m : BTreeMap NodeId Node)
    → latest ≤ next
    → AreNumbered latest m
    → AreNumbered next m
grown latest next m h k = record {
  below = λ id n e. omega (arith, h, k.below id n e);
  its_own = k.its_own;
}

insert-AreNumbered :
    (latest : NodeId) (n : Node) (m : BTreeMap NodeId Node)
    → n.id ≤ latest
    → AreNumbered latest m
    → AreNumbered latest (insert n.id n m)
insert-AreNumbered latest n m h k = record {
  below = λ id x e. ground (arith, get-insert id n.id n m, k.below id x);
  its_own = λ id x e. ground (arith, get-insert id n.id n m, k.its_own id x);
}

retain-AreNumbered :
    (latest : NodeId) (p : NodeId → Bool) (m : BTreeMap NodeId Node)
    → AreNumbered latest m
    → AreNumbered latest (retain p m)
retain-AreNumbered latest p m k = record {
  below = λ id x e. ground (arith, get-retain p id m, k.below id x);
  its_own = λ id x e. ground (arith, get-retain p id m, k.its_own id x);
}

-- The node with the next number is new.
next-absent :
    (latest : NodeId) (m : BTreeMap NodeId Node) → AreNumbered latest m → get (latest + 1) m ≡ none
next-absent latest m k = elim (Option-cases (get (latest + 1) m)) [
  | inl e ↦ e
  | inr (n, e) ↦ absurd (omega (arith, k.below (latest + 1) n e))
]

-- What adding a node does: it is the next number's, which no node had, and the others stay.
pub record Attached (env env' : Env) : Type 0 where
  pub numbered : IsNumbered env'
  pub latest : env'.latest_id ≡ env.latest_id + 1
  pub was_free : find_node (env.latest_id + 1) env ≡ none
  pub added : Node
  pub found : find_node (env.latest_id + 1) env' ≡ some added
  pub its_id : added.id ≡ env.latest_id + 1
  pub others :
      (id : NodeId) → (id == env.latest_id + 1) ≡ false → find_node id env' ≡ find_node id env

abbrev with_validator : NodeId → Node → Env → Env
with_validator id n env = insert_node node id n (record env { latest_id = id })

with_validator-Attached :
    (env : Env) (n : Node)
    → IsNumbered env
    → n.id ≡ env.latest_id + 1
    → Attached env (with_validator n.id n env)
unfolding find_node
with_validator-Attached env n k e =
    let free_v = next-absent env.latest_id env.validator_nodes k.validators in
    let free_f = next-absent env.latest_id env.full_nodes k.fulls in
    let free_s = next-absent env.latest_id env.seed_nodes k.seeds in
    let up : env.latest_id ≤ n.id = omega (arith, e) in
    record {
      numbered = record {
        seeds = grown env.latest_id n.id env.seed_nodes up k.seeds;
        fulls = grown env.latest_id n.id env.full_nodes up k.fulls;
        validators =
            insert-AreNumbered n.id n env.validator_nodes (omega arith)
              (grown env.latest_id n.id env.validator_nodes up k.validators);
      };
      latest = e;
      was_free = rw (free_v, free_f, free_s) refl;
      added = n;
      found = ground (arith, get-insert (env.latest_id + 1) n.id n env.validator_nodes, e);
      its_id = e;
      others = λ id other. ground (arith, get-insert id n.id n env.validator_nodes, e);
    }

-- From a network whose nodes stand under their own numbers, none above the latest, and where
-- the next number fits in 32 bits: a validator that is added gets the next number, which no node
-- of any kind had; it is found under it, all other nodes stay, and the network is still such.
pub attach_node-Attached :
    (sys : System) (tm_id : Option Bytes) (starts : Node → Bool) (f f' : CacheFile) (env env' : Env)
    → IsNumbered env
    → env.latest_id + 1 < 2 ^ 32
    → attach_node sys tm_id starts (f, env) ≡ some (f', env')
    → Attached env env'
unfolding attach_node alloc_resources next_node_id
attach_node-Attached sys tm_id starts f f' env env' k room h =
    let id = (env.latest_id + 1) % 2 ^ 32 in
    let (r, e, h1) =
      bind_some (alloc_resources sys tm_id id node (f, record env { latest_id = id })) _ (f', env')
        h in
    let (_, _, h2) = bind_some (start starts (some id) r.1) _ (f', env') h1 in
    let (q, _, e1) = bind_some (alloc_ports sys node env.name f) _ r e in
    let (key, _, e2) = bind_some tm_id _ r e1 in
    let made = ap (λ x. x.1) (some-injective _ _ e2) ∙ ap (λ x. x.1) (some-injective _ _ h2) in
    subst (Attached env) made (with_validator-Attached env _ k (omega (arith, room)))

-- The last node of a map in order.
last_node-Greatest :
    (m : BTreeMap NodeId Node) (id : NodeId) (n : Node)
    → IsSorted m
    → last_node m ≡ some (id, n)
    → (get id m ≡ some n) × ((k : NodeId) (x : Node) → get k m ≡ some x → k ≤ id)
unfolding get
last_node-Greatest [] id n s h = cc
last_node-Greatest ((j, x) ∷ []) id n s h = (ground (arith, h), λ k y e. ground (arith, h))
last_node-Greatest ((j, x) ∷ ((i, y) ∷ m)) id n s h =
    let (found, above) = last_node-Greatest ((i, y) ∷ m) id n s.1 h in
    let up : j < i = ground (arith, s.0.0) in
    let le : i ≤ id = above i y (ground arith) in
    (
      ground (arith, found, up, le),
      λ k z e. elim (Bool-cases (k == j)) [
        | inl its ↦ ground (arith, its, up, le)
        | inr other ↦ above k z (ground (arith, other, e))
      ],
    )

-- What is left when a node is taken away: the number and the ports of the last validator are
-- free, and all other nodes stay.
pub record Kicked (writable : Bool) (f f' : CacheFile) (env env' : Env) : Type 0 where
  pub numbered : IsNumbered env'
  pub latest : env'.latest_id ≡ env.latest_id
  pub id : NodeId
  pub kicked : Node
  pub was_there : get id env.validator_nodes ≡ some kicked
  pub greatest : (k : NodeId) (x : Node) → get k env.validator_nodes ≡ some x → k ≤ id
  pub gone : get id env'.validator_nodes ≡ none
  pub others :
      (k : NodeId) → (k == id) ≡ false → get k env'.validator_nodes ≡ get k env.validator_nodes
  pub fulls : env'.full_nodes ≡ env.full_nodes
  pub seeds : env'.seed_nodes ≡ env.seed_nodes
  pub released : release writable kicked.ports f ≡ some f'

-- From a network whose nodes stand under their own numbers, none above the latest, and whose
-- validators are in the order of their numbers: where a validator is
-- taken away, it is the one with the largest number, which is in use no more, and its ports are
-- released; all other nodes stay, and the network is still such and counts on from the same
-- latest number, so that the number is not given again.
pub kick_node-Kicked :
    (writable : Bool) (f f' : CacheFile) (env env' : Env)
    → IsNumbered env
    → IsSorted env.validator_nodes
    → kick_node writable (f, env) ≡ some (f', env')
    → Kicked writable f f' env env'
unfolding kick_node
kick_node-Kicked writable f f' env env' k sorted h =
    let (e, last, h1) = bind_some (last_node env.validator_nodes) _ (f', env') h in
    let (g, freed, h2) = bind_some (release writable e.1.ports f) _ (f', env') h1 in
    let (found, above) = last_node-Greatest env.validator_nodes e.0 e.1 sorted last in
    subst (λ x. Kicked writable f x.0 env x.1) (some-injective _ _ h2)
      (record {
        numbered = record {
          seeds = k.seeds;
          fulls = k.fulls;
          validators =
              retain-AreNumbered env.latest_id (λ j. not (same j e.0)) env.validator_nodes
                k.validators;
        };
        latest = refl;
        id = e.0;
        kicked = e.1;
        was_there = found;
        greatest = above;
        gone =
            ground (arith, get-retain (λ (j : NodeId). not (same j e.0)) e.0 env.validator_nodes);
        others = λ j other.
            ground (arith, get-retain (λ (j : NodeId). not (same j e.0)) j env.validator_nodes);
        fulls = refl;
        seeds = refl;
        released = freed;
      })
