-- ===== src/Bloom/Bits.antt =====
-- Bits of a byte and of the filter: setting one sets it, and clears none.
use zenith_db.Prelude.{
  ℕ, zero, suc, ◌+◌, ◌*◌, ◌%◌, ◌/◌, ◌<◌, [], ◌∷◌, some, Bool, true, false, ◌≡◌, refl, ap, arith,
  length, get_elem?,
}
use zenith_db.Bytes.{Bytes}
use zenith_db.Bloom.{or_bit, bit_of, set_bit}

pub bit_of-or_bit : (k b : ℕ) → bit_of k (or_bit k b) ≡ true
unfolding or_bit bit_of
bit_of-or_bit zero b = ground arith
bit_of-or_bit (suc k) b =
    let e : (b % 2 + 2 * or_bit k (b / 2)) / 2 ≡ or_bit k (b / 2) = omega arith in
    rw e (bit_of-or_bit k (b / 2))

pub or_bit-keeps : (j k b : ℕ) → bit_of j b ≡ true → bit_of j (or_bit k b) ≡ true
unfolding or_bit bit_of
or_bit-keeps zero zero b h = ground arith
or_bit-keeps zero (suc k) b h = ground (arith, h)
or_bit-keeps (suc j) zero b h = let e : (b / 2 * 2 + 1) / 2 ≡ b / 2 = omega arith in rw e h
or_bit-keeps (suc j) (suc k) b h =
    let e : (b % 2 + 2 * or_bit k (b / 2)) / 2 ≡ or_bit k (b / 2) = omega arith in
    rw e (or_bit-keeps j k (b / 2) h)

-- Whether a bit of the filter is there, and set.
abbrev pub lit : Bytes → ℕ → ℕ → Bool
lit [] i k = false
lit (b ∷ bs) zero k = bit_of k b
lit (b ∷ bs) (suc i) k = lit bs i k

pub lit-set_bit : (i k : ℕ) (bs : Bytes) → i < length bs → lit (set_bit i k bs) i k ≡ true
unfolding set_bit
lit-set_bit i k [] h = absurd (omega arith)
lit-set_bit zero k (b ∷ bs) h = bit_of-or_bit k b
lit-set_bit (suc i) k (b ∷ bs) h = lit-set_bit i k bs (omega arith)

pub set_bit-keeps : (i k j l : ℕ) (bs : Bytes) → lit bs j l ≡ true → lit (set_bit i k bs) j l ≡ true
unfolding set_bit
set_bit-keeps i k j l [] h = h
set_bit-keeps zero k zero l (b ∷ bs) h = or_bit-keeps l k b h
set_bit-keeps zero k (suc j) l (b ∷ bs) h = h
set_bit-keeps (suc i) k zero l (b ∷ bs) h = h
set_bit-keeps (suc i) k (suc j) l (b ∷ bs) h = set_bit-keeps i k j l bs h

pub length-set_bit : (i k : ℕ) (bs : Bytes) → length (set_bit i k bs) ≡ length bs
unfolding set_bit
length-set_bit i k [] = refl
length-set_bit zero k (b ∷ bs) = refl
length-set_bit (suc i) k (b ∷ bs) = ap suc (length-set_bit i k bs)

-- A bit that is set is in a byte that is there.
pub record LitByte (bs : Bytes) (i k : ℕ) : Type 0 where
  pub byte : ℕ
  pub found : get_elem? bs i ≡ some byte
  pub set : bit_of k byte ≡ true

pub lit_byte : (bs : Bytes) (i k : ℕ) → lit bs i k ≡ true → LitByte bs i k
lit_byte [] i k h = absurd (ground arith)
lit_byte (b ∷ bs) zero k h = record { byte = b; found = refl; set = h }
lit_byte (b ∷ bs) (suc i) k h =
    let r = lit_byte bs i k h in record { byte = r.byte; found = r.found; set = r.set }
