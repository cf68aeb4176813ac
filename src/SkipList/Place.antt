-- ===== src/SkipList/Place.antt =====
-- Where nodes lie: addresses that the arena has handed out and will not hand out again.
use zenith_db.Prelude.{
  ℕ, ◌+◌, ◌*◌, ◌-◌, ◌≤◌, ◌<◌, List, [], ◌∷◌, ◌≡◌, ◌≢◌, refl, ◌⊎◌, inl, inr, arith, All, length,
}
use zenith_db.Bytes.{Bytes}
use zenith_db.Arena.{Allocator, Arena, allocate, allocate_aligned}
use zenith_db.Arena.Ranges.{Range, Apart}
use zenith_db.Arena.Safety.{IsSound, allocate-IsSound, allocate_aligned-IsSound}
use zenith_db.SkipList.{store_bytes}

-- The address begins a range that was handed out.
abbrev pub Occupied : List Range → ℕ → Type 0
Occupied [] x = ⊥
Occupied (r ∷ rs) x = ((r.0 ≡ x) × (0 < r.1)) ⊎ Occupied rs x

fresh_address :
    (p n x : ℕ) (live : List Range) → 0 < n → All (Apart (p, n)) live → Occupied live x → x ≢ p
fresh_address p n x [] pos a o = absurd o
fresh_address p n x (r ∷ live) pos (inl q, rest) (inl (at, len)) = λ e. absurd (omega arith)
fresh_address p n x (r ∷ live) pos (inr q, rest) (inl (at, len)) = λ e. absurd (omega arith)
fresh_address p n x (r ∷ live) pos (q, rest) (inr o) = fresh_address p n x live pos rest o

-- An arena later on: sound, and with nothing taken back.
pub record Later (live : List Range) (a : Arena) : Type 0 where
  pub live' : List Range
  pub sound : IsSound a live'
  pub kept : (x : ℕ) → Occupied live x → Occupied live' x

module _ (env : Allocator) where
  pub store_bytes-Later :
      (bs : Bytes) (a : Arena) (live : List Range)
      → IsSound a live
      → Later live (store_bytes env bs a)
  unfolding store_bytes
  store_bytes-Later [] a live h = record { live' = live; sound = h; kept = λ x o. o }
  store_bytes-Later (b ∷ bs) a live h = record {
    live' = ((allocate env (length (b ∷ bs)) a).0, length (b ∷ bs)) ∷ live;
    sound = allocate-IsSound env a live h (length (b ∷ bs)) (omega arith);
    kept = λ x o. inr o;
  }

  -- A new node gets an address of its own.
  pub record Placed (live : List Range) (p : ℕ) (a : Arena) : Type 0 where
    pub later : Later live a
    pub at : Occupied later.live' p
    pub apart : (x : ℕ) → Occupied live x → x ≢ p

  pub node-Placed :
      (key value : Bytes) (height : ℕ) (a : Arena) (live : List Range)
      → height ≤ 12
      → IsSound a live
      → Placed live
          (allocate_aligned env
            (40 + 8 * (height - 1))
            (store_bytes env value (store_bytes env key a))).0
          (allocate_aligned env
            (40 + 8 * (height - 1))
            (store_bytes env value (store_bytes env key a))).1
  node-Placed key value height a live small h =
      let k = store_bytes-Later key a live h in
      let v = store_bytes-Later value (store_bytes env key a) k.live' k.sound in
      let size = 40 + 8 * (height - 1) in
      let b = store_bytes env value (store_bytes env key a) in
      let placed =
        allocate_aligned-IsSound env b v.live' v.sound size (omega arith) (omega arith) in
      let p = (allocate_aligned env size b).0 in
      record {
        later = record {
          live' = (p, size) ∷ v.live';
          sound = placed.0;
          kept = λ x o. inr (v.kept x (k.kept x o));
        };
        at = inl (refl, omega arith);
        apart = λ x o.
            fresh_address p size x v.live' (omega arith) placed.0.disjoint.0
              (v.kept x (k.kept x o));
      }
