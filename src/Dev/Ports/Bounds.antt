-- ===== src/Dev/Ports/Bounds.antt =====
-- bins/ovr/dev.rs: which ports a node gets.
use mathlib.Core.Path.{subst}
use mathlib.Core.Option.{some-injective}
use ovr.Prelude.{
  ℕ, zero, suc, ◌+◌, ◌≤◌, ◌<◌, ◌≡◌, sym, ap, ◌∙◌, Bool, true, false, none, some, List, [], ◌∷◌,
  ◌++◌, ◌&&◌, length, length-append, All, arith, ltb, bind_some, Bool-cases, inl, inr, ◌==◌,
  if◌then◌else◌,
}
use ovr.Primitives.{Bytes}
use ovr.BTree.Keys.{same, bytes_key}
use ovr.Dev.{Kind, env_name_default}
use ovr.Dev.Ports.{
  CacheFile, cached, System, drawn, try_port, alloc_from, alloc_ports, Ports, ports_of, member,
  reserved_ports, set, is_full, chosen,
}

-- A port in the range of the draws, that is not reserved and not in use before.
pub record IsFresh (f : CacheFile) (p : ℕ) : Type 0 where
  pub lower : 20000 ≤ p
  pub upper : p < 65535
  pub not_reserved : member p reserved_ports ≡ false
  pub not_cached : cached p f ≡ some false

All-append : (P : ℕ → Type 0) (xs : List ℕ) (y : ℕ) → All P xs → P y → All P (xs ++ (y ∷ []))
All-append P [] y h k = (k, tt)
All-append P (x ∷ xs) y (hx, h) k = (hx, All-append P xs y h k)

module _ (sys : System) (f : CacheFile) where
  drawn-bounds : (round : ℕ) → (20000 ≤ drawn sys round) × (drawn sys round < 65535)
  drawn-bounds round = (omega arith, omega arith)

  -- A round adds nothing, or a fresh port.
  try_port-IsFresh :
      (round : ℕ) (b : Bool) (res : List ℕ)
      → (if member (drawn sys round) reserved_ports then some true else cached (drawn sys round) f)
        ≡ some b
      → All (IsFresh f) res
      → All (IsFresh f) (try_port sys round (drawn sys round) b res)
        × (length (try_port sys round (drawn sys round) b res) ≤ length res + 1)
  try_port-IsFresh round true res h all =
      elim (Bool-cases (member (drawn sys round) reserved_ports)) [
        | inl reserved ↦ rw reserved (all, omega arith)
        | inr other ↦ rw other (all, omega arith)
      ]
  try_port-IsFresh round false res h all =
      elim (Bool-cases (member (drawn sys round) reserved_ports)) [
        | inl reserved ↦ absurd (ground (arith, h, reserved))
        | inr other ↦ elim (Bool-cases (sys.port_is_free round (drawn sys round))) [
          | inr busy ↦ rw (other, busy) (all, omega arith)
          | inl free ↦
              let (lower, upper) = drawn-bounds round in
              let fresh : IsFresh f (drawn sys round) = record {
                lower = lower;
                upper = upper;
                not_reserved = other;
                not_cached = ground (arith, h, other);
              } in
              rw (other, free)
                (
                  All-append (IsFresh f) res (drawn sys round) all fresh,
                  omega (arith, length-append res (drawn sys round ∷ [])),
                )
        ]
      ]

  alloc_from-IsFresh :
      (round cnter : ℕ) (res out : List ℕ)
      → All (IsFresh f) res
      → length res ≤ 5
      → alloc_from sys f round cnter res ≡ some out
      → All (IsFresh f) out × (length out ≡ 5)
  unfolding alloc_from
  alloc_from-IsFresh round zero res out all small h = absurd (ground (arith, h))
  alloc_from-IsFresh round (suc cnter) res out all small h =
      elim (Bool-cases (ltb (length res) 5)) [
        | inr enough ↦
            let e : res ≡ out = ground (arith, h, enough) in
            (subst (All (IsFresh f)) e all, sym (ap length e) ∙ ground (arith, enough))
        | inl more ↦
            let (b, seen, h1) =
              bind_some
                (if member (drawn sys round) reserved_ports
                  then some true
                  else cached (drawn sys round) f)
                (λ (b : Bool).
                  if cnter == 0
                  then none
                  else alloc_from sys f (suc round) cnter
                      (try_port sys round (drawn sys round) b res))
                out (ground (arith, h, more)) in
            let (all', small') = try_port-IsFresh round b res seen all in
            elim (Bool-cases (cnter == 0)) [
              | inl last ↦ absurd (ground (arith, h1, last))
              | inr left ↦
                  alloc_from-IsFresh (suc round) cnter (try_port sys round (drawn sys round) b res)
                    out all' (ground (arith, small', more)) (ground (arith, h1, left))
            ]
      ]

-- The five ports of a node.
abbrev pub list_of : Ports → List ℕ
list_of p = p.web3_http ∷ p.web3_ws ∷ p.tm_p2p ∷ p.tm_rpc ∷ p.tm_abci ∷ []

ports_of-list_of :
    (res : List ℕ) (p : Ports) → length res ≡ 5 → ports_of res ≡ some p → res ≡ list_of p
ports_of-list_of (a ∷ b ∷ c ∷ d ∷ e ∷ []) p n h = ap list_of (some-injective _ _ h)
ports_of-list_of (a ∷ b ∷ c ∷ d ∷ e ∷ g ∷ rest) p n h = absurd (omega (arith, n))
ports_of-list_of [] p n h = absurd (omega (arith, n))
ports_of-list_of (a ∷ []) p n h = absurd (omega (arith, n))
ports_of-list_of (a ∷ b ∷ []) p n h = absurd (omega (arith, n))
ports_of-list_of (a ∷ b ∷ c ∷ []) p n h = absurd (omega (arith, n))
ports_of-list_of (a ∷ b ∷ c ∷ d ∷ []) p n h = absurd (omega (arith, n))

-- An allocation, taken apart.
pub alloc_ports_lem :
    (sys : System) (kind : Kind) (env_name : Bytes) (f f' : CacheFile) (ports : Ports)
    → (is_full kind && same env_name_default env_name) ≡ false
    → alloc_ports sys kind env_name f ≡ some (ports, f')
    → All (IsFresh f) (list_of ports) × (set sys.writable (list_of ports) f ≡ some f')
unfolding alloc_ports
alloc_ports_lem sys kind env_name f f' ports other h =
    let (res, e, h1) = bind_some (chosen sys f kind env_name) _ (ports, f') h in
    let (g, e2, h2) = bind_some (set sys.writable res f) _ (ports, f') h1 in
    let (ps, e3, h3) = bind_some (ports_of res) _ (ports, f') h2 in
    let (all, five) =
      alloc_from-IsFresh sys f 0 10000 [] res tt (omega arith) (
        sym (ap (λ b. if b then some reserved_ports else alloc_from sys f 0 10000 []) other) ∙ e) in
    let same-list =
      ports_of-list_of res ports five (e3 ∙ ap (λ x. some x.0) (some-injective _ _ h3)) in
    (
      subst (All (IsFresh f)) same-list all,
      subst (λ x. set sys.writable x f ≡ some f') same-list
          (e2 ∙ ap (λ x. some x.1) (some-injective _ _ h3)),
    )

-- The five ports that a node gets, unless it is the full node of the default network: where it
-- gets them, they lie in [20000, 65535), are not reserved, and were in use by no node before.
pub alloc_ports-IsFresh :
    (sys : System) (kind : Kind) (env_name : Bytes) (f f' : CacheFile) (ports : Ports)
    → (is_full kind && same env_name_default env_name) ≡ false
    → alloc_ports sys kind env_name f ≡ some (ports, f')
    → All (IsFresh f) (list_of ports)
alloc_ports-IsFresh sys kind env_name f f' ports other h =
    (alloc_ports_lem sys kind env_name f f' ports other h).0
