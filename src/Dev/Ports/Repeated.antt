-- ===== src/Dev/Ports/Repeated.antt =====
-- bins/ovr/dev.rs: what a draw that repeats itself leads to.
use ovr.Prelude.{
  ℕ, suc, ◌≡◌, refl, ap, ◌∙◌, true, false, Option, some, List, [], ◌∷◌, ◌++◌, ◌&&◌, length, arith,
  ltb, ◌==◌, if◌then◌else◌, ◌>>=◌,
}
use ovr.Primitives.{Bytes}
use ovr.BTree.{BTreeSet}
use ovr.BTree.Keys.{same, bytes_key}
use ovr.Dev.{Kind, env_name_default}
use ovr.Dev.Ports.{
  CacheFile, holds, load, cached, System, drawn, alloc_from, alloc_ports, Ports, member,
  reserved_ports, set, insert_all, is_full, chosen, ports_of,
}

module _ (sys : System) (f : CacheFile) (p : ℕ) (always : (round : ℕ) → drawn sys round ≡ p)
    (free : (round : ℕ) → sys.port_is_free round p ≡ true) (other : member p reserved_ports ≡ false)
    (unused : cached p f ≡ some false) where
  again :
      (round n : ℕ) (res : List ℕ) (o : Option (List ℕ))
      → ltb (length res) 5 ≡ true
      → alloc_from sys f (suc round) (suc n) (res ++ (p ∷ [])) ≡ o
      → alloc_from sys f round (suc (suc n)) res ≡ o
  unfolding alloc_from
  again round n res o more h =
      let left : (suc n == 0) ≡ false = ground arith in
      rw (alloc_from, more, always round, other, unused, free round, left) h

  enough :
      (round n : ℕ) (res : List ℕ)
      → ltb (length res) 5 ≡ false
      → alloc_from sys f round (suc n) res ≡ some res
  unfolding alloc_from
  enough round n res full = rw full refl

  abbrev five : List ℕ
  five = p ∷ p ∷ p ∷ p ∷ p ∷ []

  five_drawn : (n : ℕ) → alloc_from sys f 0 (suc (suc (suc (suc (suc (suc n)))))) [] ≡ some five
  five_drawn n = again 0 (suc (suc (suc (suc n)))) [] _ refl (
      again 1 (suc (suc (suc n))) (p ∷ []) _ refl (
        again 2 (suc (suc n)) (p ∷ p ∷ []) _ refl (
          again 3 (suc n) (p ∷ p ∷ p ∷ []) _ refl
            (again 4 n (p ∷ p ∷ p ∷ p ∷ []) _ refl (enough 5 n five refl)))))

  stored_five :
      (port_set : BTreeSet ℕ)
      → load f ≡ some port_set
      → sys.writable ≡ true
      → set sys.writable five f ≡ some (holds (insert_all five port_set))
  unfolding set
  stored_five port_set l w = rw (set, l, w) refl

-- Where the draws give one port again and again, which is free, not reserved and not in use: a
-- node that is not the full node of the default network gets this one port for all its five
-- services, since a draw is not compared with the earlier ones.
pub alloc_ports-five :
    (sys : System) (f : CacheFile) (p : ℕ) (port_set : BTreeSet ℕ) (kind : Kind) (env_name : Bytes)
    → ((round : ℕ) → drawn sys round ≡ p)
    → ((round : ℕ) → sys.port_is_free round p ≡ true)
    → member p reserved_ports ≡ false
    → cached p f ≡ some false
    → load f ≡ some port_set
    → sys.writable ≡ true
    → (is_full kind && same env_name_default env_name) ≡ false
    → alloc_ports sys kind env_name f
      ≡ some (
        record { web3_http = p; web3_ws = p; tm_p2p = p; tm_rpc = p; tm_abci = p },
        holds (insert_all (p ∷ p ∷ p ∷ p ∷ p ∷ []) port_set),
      )
unfolding alloc_ports
alloc_ports-five sys f p port_set kind env_name always free other unused l w plain =
    let five = p ∷ p ∷ p ∷ p ∷ p ∷ [] in
    let chosen_five : chosen sys f kind env_name ≡ some five =
      ap (λ b. if b then some reserved_ports else alloc_from sys f 0 10000 []) plain
      ∙ five_drawn sys f p always free other unused 9994 in
    let stored = stored_five sys f p always free other unused port_set l w in
    let ports : Ports = record {
      web3_http = p;
      web3_ws = p;
      tm_p2p = p;
      tm_rpc = p;
      tm_abci = p;
    } in
    ap (λ r. do res ← r; f' ← set sys.writable res f; ports ← ports_of res; some (ports, f'))
      chosen_five
    ∙ ap (λ r. do f' ← r; some (ports, f')) stored
