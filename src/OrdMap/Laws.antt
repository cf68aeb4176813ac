-- ===== src/OrdMap/Laws.antt =====
-- Reads after writes, the order of the keys, and equality of maps by their reads.
use zenith_db.Prelude.{
  suc, ◌≤◌, length, [], ◌∷◌, ◌++◌, none, some, if◌then◌else◌, ◌≡◌, refl, arith, All,
}
use zenith_db.Bytes.{Bytes, eq_bytes, Before, cmp_refl, eq_of_cmp, cmp_swap, Before-trans}
use zenith_db.OrdMap.{OrdMap, find, insert, erase, AllAfter, IsSorted}

module _ {ℓ} {V : Type ℓ} where
  pub find-insert :
      (q k : Bytes) (v : V) (m : OrdMap V)
      → find q (insert k v m) ≡ (if eq_bytes q k then some v else find q m)
  unfolding find insert
  find-insert q k v [] = refl
  find-insert q k v ((j, w) ∷ m) =
      ground (arith, find-insert q k v m, eq_of_cmp k j, eq_of_cmp q k, eq_of_cmp q j, cmp_refl q)

  pub find-insert_self : (k : Bytes) (v : V) (m : OrdMap V) → find k (insert k v m) ≡ some v
  find-insert_self k v m = rw find-insert (ground (arith, cmp_refl k))

  pub find-erase :
      (q k : Bytes) (m : OrdMap V) → find q (erase k m) ≡ (if eq_bytes q k then none else find q m)
  unfolding find erase
  find-erase q k [] = ground arith
  find-erase q k ((j, w) ∷ m) =
      ground (arith, find-erase q k m, eq_of_cmp k j, eq_of_cmp q k, eq_of_cmp q j, cmp_refl k)

  pub AllAfter-trans : (k j : Bytes) (m : OrdMap V) → Before k j → AllAfter j m → AllAfter k m
  AllAfter-trans k j [] h a = tt
  AllAfter-trans k j (e ∷ m) h a = (Before-trans k j e.0 h a.0, AllAfter-trans k j m h a.1)

  pub AllAfter-insert :
      (j k : Bytes) (v : V) (m : OrdMap V) → Before j k → AllAfter j m → AllAfter j (insert k v m)
  unfolding insert
  AllAfter-insert j k v [] h a = (h, tt)
  AllAfter-insert j k v ((i, w) ∷ m) h a = ground (arith, AllAfter-insert j k v m h a.1)

  -- A write keeps the order.
  pub insert-IsSorted : (k : Bytes) (v : V) (m : OrdMap V) → IsSorted m → IsSorted (insert k v m)
  unfolding insert
  insert-IsSorted k v [] s = (tt, tt)
  insert-IsSorted k v ((j, w) ∷ m) s = ground (
    arith,
    cmp_swap k j,
    insert-IsSorted k v m s.1,
    AllAfter-insert j k v m,
    AllAfter-trans k j m,
    eq_of_cmp k j,
  )

  -- A key in front of all keys is not found.
  pub find-AllAfter : (k : Bytes) (m : OrdMap V) → AllAfter k m → find k m ≡ none
  unfolding find
  find-AllAfter k [] a = refl
  find-AllAfter k ((j, v) ∷ m) a = ground (arith, find-AllAfter k m a.1)

  -- A key behind all keys is added at the end.
  pub insert_last :
      (k : Bytes) (v : V) (m : OrdMap V)
      → All (λ (e : Bytes × V). Before e.0 k) m
      → insert k v m ≡ m ++ (k, v) ∷ []
  unfolding insert
  insert_last k v [] a = refl
  insert_last k v ((j, w) ∷ m) a = ground (arith, cmp_swap k j, insert_last k v m a.1)

  -- What holds of all entries and of the new one holds after a write.
  pub All-insert {κ} :
      (P : Bytes × V → Type κ) (k : Bytes) (v : V) (m : OrdMap V)
      → P (k, v)
      → All P m
      → All P (insert k v m)
  unfolding insert
  All-insert P k v [] h a = (h, tt)
  All-insert P k v ((j, w) ∷ m) h a = ground (arith, All-insert P k v m h a.1)

  pub length-insert : (k : Bytes) (v : V) (m : OrdMap V) → length (insert k v m) ≤ suc (length m)
  unfolding insert
  length-insert k v [] = omega arith
  length-insert k v ((j, w) ∷ m) = ground (arith, length-insert k v m)
