-- ===== src/VectorClock/Normal.antt =====
-- Clocks without zero entries, on which equal counters mean equal maps. `increment` and `merge`
-- keep them so.
use zenith_db.Prelude.{
  ℕ, ◌+◌, ◌^◌, ◌%◌, ◌<◌, [], ◌∷◌, Option, none, some, ◌≡◌, refl, ap, max, arith, All, if◌then◌else◌,
}
use zenith_db.Bytes.{Bytes, eq_bytes}
use zenith_db.OrdMap.{find, insert, IsSorted}
use zenith_db.OrdMap.Laws.{find-insert, insert-IsSorted}
use zenith_db.OrdMap.Ext.{eq_of_find}
use zenith_db.VectorClock.{VectorClock, counter, or_zero, increment, merge}
use zenith_db.VectorClock.Compare.{Below}
use zenith_db.VectorClock.Join.{counter-merge, merge-IsSorted}

abbrev pub IsPositive : Bytes × ℕ → Type 0
IsPositive e = 0 < e.1

pub record IsNormal (c : VectorClock) : Type 0 where
  pub sorted : IsSorted c
  pub positive : All IsPositive c

insert-IsPositive :
    (k : Bytes) (n : ℕ) (c : VectorClock) → 0 < n → All IsPositive c → All IsPositive (insert k n c)
unfolding insert
insert-IsPositive k n [] h a = (h, tt)
insert-IsPositive k n (e ∷ c) h a = ground (arith, insert-IsPositive k n c)

-- A local write keeps a clock normal, until the counter of the node reaches 2^64 - 1.
pub increment-IsNormal :
    (node : Bytes) (c : VectorClock)
    → counter c node + 1 < 2 ^ 64
    → IsNormal c
    → IsNormal (increment node c)
unfolding increment
increment-IsNormal node c room h = record {
  sorted = insert-IsSorted node _ c h.sorted;
  positive = insert-IsPositive node _ c (omega arith) h.positive;
}

-- A local write raises its node's counter by one and leaves all others, until the counter reaches
-- 2^64 - 1.
pub counter-increment :
    (node : Bytes) (c : VectorClock) (q : Bytes)
    → counter c node + 1 < 2 ^ 64
    → counter (increment node c) q ≡ (if eq_bytes q node then counter c node + 1 else counter c q)
unfolding increment
counter-increment node c q room =
    ground (arith, find-insert q node ((counter c node + 1) % 2 ^ 64) c)

merge-IsPositive :
    (a b : VectorClock) → All IsPositive a → All IsPositive b → All IsPositive (merge a b)
unfolding merge
merge-IsPositive a [] ha hb = ha
merge-IsPositive a ((k, n) ∷ b) ha hb =
    merge-IsPositive (insert k (max (counter a k) n) a) b
      (insert-IsPositive k (max (counter a k) n) a (omega (arith, hb.0)) ha) hb.1

pub merge-IsNormal : (a b : VectorClock) → IsNormal a → IsNormal b → IsNormal (merge a b)
merge-IsNormal a b ha hb = record {
  sorted = merge-IsSorted a b ha.sorted;
  positive = merge-IsPositive a b ha.positive hb.positive;
}

abbrev PositiveEntry : Option ℕ → Type 0
PositiveEntry none = Unit
PositiveEntry (some n) = 0 < n

find_positive : (c : VectorClock) (q : Bytes) → All IsPositive c → PositiveEntry (find q c)
unfolding find
find_positive [] q h = tt
find_positive ((k, m) ∷ c) q h = ground (arith, find_positive c q h.1)

same_entry : (o p : Option ℕ) → PositiveEntry o → PositiveEntry p → or_zero o ≡ or_zero p → o ≡ p
same_entry none none ho hp e = refl
same_entry none (some n) ho hp e = absurd (omega arith)
same_entry (some n) none ho hp e = absurd (omega arith)
same_entry (some n) (some m) ho hp e = ap some e

-- Normal clocks with the same counters are the same map.
pub eq_of_counters :
    (a b : VectorClock)
    → IsNormal a
    → IsNormal b
    → ((q : Bytes) → counter a q ≡ counter b q)
    → a ≡ b
eq_of_counters a b ha hb h = eq_of_find a b ha.sorted hb.sorted λ q.
    same_entry (find q a) (find q b) (find_positive a q ha.positive) (find_positive b q hb.positive)
      (h q)

-- A normal clock absorbs every normal clock below it.
pub merge_absorbs : (a b : VectorClock) → IsNormal a → IsNormal b → Below b a → merge a b ≡ a
merge_absorbs a b ha hb h =
    eq_of_counters _ a (merge-IsNormal a b ha hb) ha
      λ q. omega (arith, counter-merge a b hb.sorted q, h q)
