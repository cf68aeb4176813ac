-- ===== src/Bytes/Words.antt =====
-- Little-endian words: `append(reinterpret_cast<const char*>(&x), k)` and the read back.
use native.Mathlib.Nat.{pow-suc}
use zenith_db.Prelude.{
  ℕ, zero, suc, ◌+◌, ◌*◌, ◌/◌, ◌%◌, ◌^◌, ◌<◌, [], ◌∷◌, ◌++◌, ◌≡◌, refl, arith, length, take, drop,
  All, length-append, take-append, drop-append,
}
use zenith_db.Bytes.Order.{Bytes}

unfoldable pub le_bytes : ℕ → ℕ → Bytes
le_bytes zero n = []
le_bytes (suc k) n = (n % 256) ∷ le_bytes k (n / 256)

unfoldable pub le_value : Bytes → ℕ
le_value [] = 0
le_value (b ∷ bs) = b + 256 * le_value bs

pub length-le_bytes : (k n : ℕ) → length (le_bytes k n) ≡ k
unfolding le_bytes
length-le_bytes zero n = refl
length-le_bytes (suc k) n = omega (arith, length-le_bytes k (n / 256))

-- What was written is read back, if it fits the width.
pub le_value-le_bytes : (k n : ℕ) → n < 256 ^ k → le_value (le_bytes k n) ≡ n
unfolding le_bytes le_value
le_value-le_bytes zero n h = omega arith
le_value-le_bytes (suc k) n h =
    omega (arith, le_value-le_bytes k (n / 256) (omega (arith, pow-suc 256 k)))

pub le_value-lt : (bs : Bytes) → All (λ b. b < 256) bs → le_value bs < 256 ^ length bs
unfolding le_value
le_value-lt [] h = omega arith
le_value-lt (b ∷ bs) h = omega (arith, pow-suc 256 (length bs), le_value-lt bs h.1, h.0)

-- A word in front of other bytes: its bytes, what is behind it, and its value.
pub take-le_bytes : (k n : ℕ) (rest : Bytes) → take k (le_bytes k n ++ rest) ≡ le_bytes k n
take-le_bytes k n rest = take-append k (le_bytes k n) rest (length-le_bytes k n)

pub drop-le_bytes : (k n : ℕ) (rest : Bytes) → drop k (le_bytes k n ++ rest) ≡ rest
drop-le_bytes k n rest = drop-append k (le_bytes k n) rest (length-le_bytes k n)

pub read_word :
    (k n : ℕ) (rest : Bytes) → n < 256 ^ k → le_value (take k (le_bytes k n ++ rest)) ≡ n
read_word k n rest h = rw (take-le_bytes k n rest) (le_value-le_bytes k n h)

pub length_word : (k n : ℕ) (rest : Bytes) → length (le_bytes k n ++ rest) ≡ k + length rest
length_word k n rest = omega (arith, length-append (le_bytes k n) rest, length-le_bytes k n)
