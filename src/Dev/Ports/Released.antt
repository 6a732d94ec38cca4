-- ===== src/Dev/Ports/Released.antt =====
-- bins/ovr/dev.rs: the cache of the ports in use, from the allocation for a node to its stop.
use mathlib.Core.Path.{subst}
use mathlib.Core.Option.{some-injective}
use ovr.Prelude.{
  ℕ, ◌≡◌, refl, sym, ap, ◌∙◌, Bool, true, false, not, some, List, [], ◌∷◌, ◌&&◌, ◌||◌, All, arith,
  bind_some, Bool-cases, inl, inr, ◌==◌,
}
use ovr.Primitives.{Bytes}
use ovr.BTree.{BTreeSet, insert, contains, contains_key, retain}
use ovr.BTree.Keys.{same, nat_key, bytes_key}
use ovr.BTree.Laws.{get-insert, get-retain}
use ovr.Dev.{Kind, env_name_default}
use ovr.Dev.Ports.{
  CacheFile, holds, load, write, cached, System, alloc_ports, Ports, member, set, rm, insert_all,
  is_full, rm_all, release,
}
use ovr.Dev.Ports.Bounds.{IsFresh, list_of, alloc_ports_lem}

contains-insert : (q p : ℕ) (s : BTreeSet ℕ) → contains q (insert p tt s) ≡ (q == p || contains q s)
unfolding contains contains_key
contains-insert q p s = ground (arith, get-insert q p tt s)

contains-retain :
    (q p : ℕ) (s : BTreeSet ℕ)
    → contains q (retain (λ k. not (same k p)) s) ≡ (not (q == p) && contains q s)
unfolding contains contains_key
contains-retain q p s = ground (arith, get-retain (λ k. not (same k p)) q s)

contains-insert_all :
    (q : ℕ) (ps : List ℕ) (s : BTreeSet ℕ)
    → contains q (insert_all ps s) ≡ (member q ps || contains q s)
contains-insert_all q [] s = refl
contains-insert_all q (p ∷ ps) s =
    contains-insert_all q ps (insert p tt s)
    ∙ ap (λ b. member q ps || b) (contains-insert q p s)
    ∙ ground arith

abbrev retain_all : List ℕ → BTreeSet ℕ → BTreeSet ℕ
retain_all [] s = s
retain_all (p ∷ ps) s = retain_all ps (retain (λ k. not (same k p)) s)

contains-retain_all :
    (q : ℕ) (ps : List ℕ) (s : BTreeSet ℕ)
    → contains q (retain_all ps s) ≡ (not (member q ps) && contains q s)
contains-retain_all q [] s = refl
contains-retain_all q (p ∷ ps) s =
    contains-retain_all q ps (retain (λ k. not (same k p)) s)
    ∙ ap (λ b. not (member q ps) && b) (contains-retain q p s)
    ∙ ground arith

rm_all-retain_all :
    (ps : List ℕ) (s : BTreeSet ℕ) → rm_all true ps (holds s) ≡ some (holds (retain_all ps s))
unfolding rm
rm_all-retain_all [] s = refl
rm_all-retain_all (p ∷ ps) s = rm_all-retain_all ps (retain (λ k. not (same k p)) s)

-- No fresh port is in the cache.
fresh_out :
    (q : ℕ) (ps : List ℕ) (f : CacheFile) (s : BTreeSet ℕ)
    → load f ≡ some s
    → All (IsFresh f) ps
    → member q ps ≡ true
    → contains q s ≡ false
fresh_out q [] f s l all h = cc
fresh_out q (p ∷ ps) f s l (x, all) h = elim (Bool-cases (q == p)) [
  | inr other ↦ fresh_out q ps f s l all (ground (arith, h, other))
  | inl its ↦
      let e : q ≡ p = ground (arith, its) in
      let (t, seen, out) = bind_some (load f) (λ t. some (contains p t)) false x.not_cached in
      let same-set : t ≡ s = some-injective _ _ (sym seen ∙ l) in
      ap (λ n. contains n s) e ∙ ap (contains p) (sym same-set) ∙ some-injective _ _ out
]

cached-load :
    (q : ℕ) (f : CacheFile) (s : BTreeSet ℕ) → load f ≡ some s → cached q f ≡ some (contains q s)
cached-load q f s l = rw l refl

-- The order in which the ports are given back.
abbrev released : Ports → List ℕ
released p = p.web3_http ∷ p.web3_ws ∷ p.tm_rpc ∷ p.tm_p2p ∷ p.tm_abci ∷ []

member-released : (q : ℕ) (p : Ports) → member q (released p) ≡ member q (list_of p)
member-released q p = ground arith

left_over : (m c : Bool) → (m ≡ true → c ≡ false) → (not m && (m || c)) ≡ c
left_over true c h = sym (h refl)
left_over false c h = refl

-- Where the file of the cache can be written: a node that was given its ports, not as the full
-- node of the default network, gives them all back when it stops, and afterwards the same ports
-- are in use as before it was made.
pub release-alloc_ports :
    (sys : System) (kind : Kind) (env_name : Bytes) (f f' : CacheFile) (ports : Ports)
    → (is_full kind && same env_name_default env_name) ≡ false
    → sys.writable ≡ true
    → alloc_ports sys kind env_name f ≡ some (ports, f')
    → (g : CacheFile) × (release true ports f' ≡ some g) × ((q : ℕ) → cached q g ≡ cached q f)
unfolding set release
release-alloc_ports sys kind env_name f f' ports other w h =
    let (all, stored) = alloc_ports_lem sys kind env_name f f' ports other h in
    let (s, l, e) =
      bind_some (load f) (λ s. write sys.writable (insert_all (list_of ports) s)) f' stored in
    let used = insert_all (list_of ports) s in
    let now : holds used ≡ f' = some-injective _ _ (sym (ap (λ b. write b used) w) ∙ e) in
    let final = retain_all (released ports) used in
    (
      holds final,
      subst (λ x. release true ports x ≡ some (holds final)) now
          (rm_all-retain_all (released ports) used),
      λ q.
          ap some (
            contains-retain_all q (released ports) used
            ∙ ap (λ b. not b && contains q used) (member-released q ports)
            ∙ ap (λ b. not (member q (list_of ports)) && b)
                (contains-insert_all q (list_of ports) s)
            ∙ left_over (member q (list_of ports)) (contains q s)
                (fresh_out q (list_of ports) f s l all))
          ∙ sym (cached-load q f s l),
    )
