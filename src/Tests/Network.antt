-- ===== src/Tests/Network.antt =====
-- A local network of the examples.
use ovr.Prelude.{ℕ, ◌≡◌, refl, true, some, [], ◌∷◌, All, unwrap_or, codes, arith}
use ovr.BTree.{get, contains}
use ovr.Dev.{node}
use ovr.Dev.Ports.{
  CacheFile, not_found, holds, System, Ports, alloc_ports, release, cached, insert_all,
}
use ovr.Dev.Ports.Bounds.{IsFresh, list_of, alloc_ports-IsFresh}
use ovr.Dev.Ports.Released.{release-alloc_ports}
use ovr.Dev.Ports.Repeated.{alloc_ports-five}
use ovr.Dev.Nodes.{Env, attach_node, kick_node}
use ovr.BTree.Keys.{nat_key}
use ovr.BTree.Order.{IsSorted}
use ovr.Dev.Nodes.Numbers.{IsNumbered, Attached, attach_node-Attached, Kicked, kick_node-Kicked}

-- The draws count up.
abbrev counting : System
counting = record { random = λ round. round; port_is_free = λ round p. true; writable = true }

abbrev given : Ports
given = record {
  web3_http = 20000;
  web3_ws = 20001;
  tm_p2p = 20002;
  tm_rpc = 20003;
  tm_abci = 20004;
}

abbrev given_file : CacheFile
given_file = holds (insert_all (list_of given) [])

given-some : alloc_ports counting node (codes "test") not_found ≡ some (given, given_file)
unfolding alloc_ports
given-some = refl

alloc_ports-IsFresh_example : All (IsFresh not_found) (list_of given)
alloc_ports-IsFresh_example =
    alloc_ports-IsFresh counting node (codes "test") not_found given_file given refl given-some

release-alloc_ports_example :
    (g : CacheFile) × (release true given given_file ≡ some g)
    × ((q : ℕ) → cached q g ≡ cached q not_found)
release-alloc_ports_example =
    release-alloc_ports counting node (codes "test") not_found given_file given refl refl given-some

abbrev constant : System
constant = record { random = λ round. 7; port_is_free = λ round p. true; writable = true }

alloc_ports-five_example :
    alloc_ports constant node (codes "test") not_found
    ≡ some (
      record {
        web3_http = 20007;
        web3_ws = 20007;
        tm_p2p = 20007;
        tm_rpc = 20007;
        tm_abci = 20007;
      },
      holds (insert_all (20007 ∷ 20007 ∷ 20007 ∷ 20007 ∷ 20007 ∷ []) []),
    )
unfolding contains
alloc_ports-five_example =
    alloc_ports-five constant not_found 20007 [] node (codes "test") (λ round. refl) (λ round. refl)
      refl refl refl refl refl

abbrev empty : Env
empty = record {
  name = codes "test";
  home = codes "/tmp";
  seed_nodes = [];
  full_nodes = [];
  validator_nodes = [];
  latest_id = 0;
}

empty-IsNumbered : IsNumbered empty
unfolding get
empty-IsNumbered = record {
  seeds = record { below = λ id n e. cc; its_own = λ id n e. cc };
  fulls = record { below = λ id n e. cc; its_own = λ id n e. cc };
  validators = record { below = λ id n e. cc; its_own = λ id n e. cc };
}

abbrev attached : CacheFile × Env
attached =
    unwrap_or (not_found, empty) (attach_node counting (some []) (λ n. true) (not_found, empty))

attached-some :
    attach_node counting (some []) (λ n. true) (not_found, empty) ≡ some (attached.0, attached.1)
unfolding attach_node
attached-some = refl

attach_node-Attached_example : Attached empty attached.1
attach_node-Attached_example =
    attach_node-Attached counting (some []) (λ n. true) not_found attached.0 empty attached.1
      empty-IsNumbered (omega arith) attached-some

abbrev kicked : CacheFile × Env
kicked = unwrap_or (not_found, empty) (kick_node true attached)

attached-IsSorted : IsSorted attached.1.validator_nodes
unfolding attach_node
attached-IsSorted = (tt, tt)

kicked-some : kick_node true attached ≡ some (kicked.0, kicked.1)
unfolding kick_node attach_node
kicked-some = refl

kick_node-Kicked_example : Kicked true attached.0 kicked.0 attached.1 kicked.1
kick_node-Kicked_example =
    kick_node-Kicked true attached.0 kicked.0 attached.1 kicked.1
      (Attached.numbered attach_node-Attached_example) attached-IsSorted kicked-some
