-- ===== src/Dev/Ports.antt =====
-- bins/ovr/dev.rs: `PortsCache`, the file of the ports in use, and `alloc_ports`. `none` is an
-- error.
pub mod Bounds
pub mod Released
pub mod Repeated
use ovr.Prelude.{
  ℕ, zero, suc, ◌+◌, ◌-◌, ◌%◌, ◌==◌, Bool, true, false, not, Option, none, some, List, [], ◌∷◌,
  ◌++◌, ◌&&◌, ◌||◌, length, ltb, if◌then◌else◌, ◌>>=◌,
}
use ovr.Primitives.{Bytes}
use ovr.BTree.{BTreeSet, insert, contains, retain}
use ovr.BTree.Keys.{same, nat_key, bytes_key}
use ovr.Dev.{Kind, full, node, seed, env_name_default}

-- The file of the cache: it is not there, can not be read or understood, or holds a set.
pub data CacheFile : Type 0 where
  not_found : CacheFile
  unreadable : CacheFile
  holds : BTreeSet ℕ → CacheFile

-- `PortsCache::load`
abbrev pub load : CacheFile → Option (BTreeSet ℕ)
load not_found = some []
load unreadable = none
load (holds port_set) = some port_set

-- `PortsCache::write`, which succeeds or not
abbrev pub write : (writable : Bool) → BTreeSet ℕ → Option CacheFile
write true port_set = some (holds port_set)
write false port_set = none

abbrev pub cached : ℕ → CacheFile → Option Bool
cached port f = do port_set ← load f; some (contains port port_set)

abbrev pub insert_all : List ℕ → BTreeSet ℕ → BTreeSet ℕ
insert_all [] s = s
insert_all (p ∷ ps) s = insert_all ps (insert p tt s)

-- `PortsCache::set`
unfoldable pub set : (writable : Bool) → List ℕ → CacheFile → Option CacheFile
unfolding insert
set writable ports f = do port_set ← load f; write writable (insert_all ports port_set)

-- `PortsCache::rm`
unfoldable pub rm : (writable : Bool) → ℕ → CacheFile → Option CacheFile
unfolding retain
rm writable port f = do port_set ← load f; write writable (retain (λ k. not (same k port)) port_set)

-- `RESERVED_PORTS`
abbrev pub reserved_ports : List ℕ
reserved_ports = 26654 ∷ 26655 ∷ 26656 ∷ 26657 ∷ 26658 ∷ []

abbrev pub member : ℕ → List ℕ → Bool
member p [] = false
member p (q ∷ qs) = p == q || member p qs

-- `rand::random::<u16>()` at each round, and whether a port can be bound at it
pub record System : Type 0 where
  pub random : ℕ → ℕ
  pub port_is_free : ℕ → ℕ → Bool
  pub writable : Bool

abbrev pub drawn : System → (round : ℕ) → ℕ
drawn sys round = 20000 + sys.random round % (65535 - 20000)

-- What a round does with the port that it draws.
abbrev pub try_port : System → (round port : ℕ) → Bool → List ℕ → List ℕ
try_port sys round p is_cached res =
    if not (member p reserved_ports) && (not is_cached && sys.port_is_free round p)
    then res ++ (p ∷ [])
    else res

-- The loop, with the rounds that `cnter` leaves; it is an error to use up the last one, even if
-- it finds a port.
unfoldable pub alloc_from :
    System → CacheFile → (round cnter : ℕ) → (res : List ℕ) → Option (List ℕ)
unfolding contains
alloc_from sys f round zero res = none
alloc_from sys f round (suc cnter) res =
    let rest = (λ (b : Bool).
      alloc_from sys f (suc round) cnter (try_port sys round (drawn sys round) b res)) in
    if ltb (length res) (length reserved_ports)
    then (do
      b ← if member (drawn sys round) reserved_ports then some true else cached (drawn sys round) f
      if cnter == 0 then none else rest b)
    else some res

pub record Ports : Type 0 where
  pub web3_http : ℕ
  pub web3_ws : ℕ
  pub tm_p2p : ℕ
  pub tm_rpc : ℕ
  pub tm_abci : ℕ

-- `res[0]` to `res[4]`, which panic where the list is shorter.
abbrev pub ports_of : List ℕ → Option Ports
ports_of (a ∷ b ∷ c ∷ d ∷ e ∷ rest) =
    some (record { web3_http = a; web3_ws = b; tm_p2p = c; tm_rpc = d; tm_abci = e })
ports_of _ = none

abbrev pub is_full : Kind → Bool
is_full full = true
is_full node = false
is_full seed = false

-- The full node of the default network gets the reserved ports.
abbrev pub chosen : System → CacheFile → Kind → (env_name : Bytes) → Option (List ℕ)
chosen sys f kind env_name =
    if is_full kind && same env_name_default env_name
    then some reserved_ports
    else alloc_from sys f 0 10000 []

unfoldable pub alloc_ports :
    System → Kind → (env_name : Bytes) → CacheFile → Option (Ports × CacheFile)
unfolding alloc_from set
alloc_ports sys kind env_name f = do
  res ← chosen sys f kind env_name
  f' ← set sys.writable res f
  ports ← ports_of res
  some (ports, f')

abbrev pub rm_all : (writable : Bool) → List ℕ → CacheFile → Option CacheFile
rm_all writable [] f = some f
rm_all writable (p ∷ ps) f = do f' ← rm writable p f; rm_all writable ps f'

-- The end of `Node::stop`: the ports of the node are given back.
unfoldable pub release : (writable : Bool) → Ports → CacheFile → Option CacheFile
unfolding rm
release writable p f =
    rm_all writable (p.web3_http ∷ p.web3_ws ∷ p.tm_rpc ∷ p.tm_p2p ∷ p.tm_abci ∷ []) f
