-- ===== src/Memory/Maps.antt =====
-- The ordered map in memory: its insertions, the last one first.
use ovr.Prelude.{
  ℕ, ◌<◌, ◌≡◌, refl, Option, none, some, List, [], ◌∷◌, arith, ltb, ◌==◌, if◌then◌else◌,
}
use ovr.Vsdb.{MapxOrd, MapxOrdLaws}

module _ {V : Type 0} where
  abbrev lookup : List (ℕ × V) → ℕ → Option V
  lookup [] k = none
  lookup ((h, x) ∷ t) k = if k == h then some x else lookup t k

  abbrev later : ℕ × V → Option (ℕ × V) → Option (ℕ × V)
  later e none = some e
  later (h, x) (some (k, y)) = if ltb h k then some (k, y) else some (h, x)

  abbrev greatest : List (ℕ × V) → Option (ℕ × V)
  greatest [] = none
  greatest (e ∷ t) = later e (greatest t)

  abbrev pub list_map : MapxOrd V
  list_map = record {
    Map = List (ℕ × V);
    get = lookup;
    last = greatest;
    insert = λ h x t. (h, x) ∷ t;
    entries = λ t. t;
  }

  later_lem :
      (h : ℕ) (x : V) (o : Option (ℕ × V))
      → ((k : ℕ) (y : V) → o ≡ some (k, y) → k < h)
      → later (h, x) o ≡ some (h, x)
  later_lem h x none above = refl
  later_lem h x (some (k, y)) above = ground (arith, above k y refl)

  pub list_map-MapxOrdLaws : MapxOrdLaws list_map
  list_map-MapxOrdLaws = record {
    get-insert = λ h k x t. refl;
    last-insert = λ h x t above. later_lem h x (greatest t) above;
  }
