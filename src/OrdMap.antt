-- ===== src/OrdMap.antt =====
-- std::map with string keys: a list of entries in the order of the keys.
pub mod Laws
pub mod Ext
pub mod Window
use zenith_db.Prelude.{
  ℕ, List, [], ◌∷◌, map, Option, none, some, Bool, true, false, Ordering, if◌then◌else◌, ◌≡◌, All,
}
use zenith_db.Bytes.{Bytes, cmp, eq_bytes, Before}

abbrev pub OrdMap {ℓ} : Type ℓ → Type ℓ
OrdMap V = List (Bytes × V)

module _ {ℓ} {V : Type ℓ} where
  -- `m.find(k)`, as an option.
  unfoldable pub find : Bytes → OrdMap V → Option V
  find k [] = none
  find k ((j, v) ∷ m) = if eq_bytes k j then some v else find k m

  -- `m[k] = v`: in place if the key is there, else where the order puts it.
  unfoldable pub insert : Bytes → V → OrdMap V → OrdMap V
  insert k v [] = (k, v) ∷ []
  insert k v ((j, w) ∷ m) =
      let rest = insert k v m in
      elim (cmp k j) [
        | Ordering.lt ↦ (k, v) ∷ (j, w) ∷ m
        | Ordering.eq ↦ (k, v) ∷ m
        | Ordering.gt ↦ (j, w) ∷ rest
      ]

  -- `m.erase(k)`.
  unfoldable pub erase : Bytes → OrdMap V → OrdMap V
  erase k [] = []
  erase k ((j, v) ∷ m) = let rest = erase k m in if eq_bytes k j then rest else (j, v) ∷ rest

  abbrev pub keys : OrdMap V → List Bytes
  keys m = map (λ e. e.0) m

  -- All keys stand behind `k`.
  abbrev pub AllAfter : Bytes → OrdMap V → Type 0
  AllAfter k m = All (λ (e : Bytes × V). Before k e.0) m

  -- The order of std::map: keys strictly ascend, so each occurs once.
  abbrev pub IsSorted : OrdMap V → Type 0
  IsSorted [] = Unit
  IsSorted ((k, v) ∷ m) = AllAfter k m × IsSorted m
