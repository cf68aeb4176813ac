-- ===== src/Bytes/Slices.antt =====
-- Reads through a pointer into a buffer: a pointer is the offset from its start, and a read that
-- leaves the buffer is `none`.
use zenith_db.Prelude.{
  ℕ, ◌+◌, ◌^◌, ◌<◌, ◌++◌, Option, none, some, ◌≡◌, refl, sym, ap, ◌∙◌, arith, length, take, drop,
  length-append, take-append, drop-append, drop-drop, leb, le→leb, if◌then◌else◌, ◌>>=◌,
}
use mathlib.Core.Path.{subst}
use zenith_db.Bytes.Order.{Bytes}
use zenith_db.Bytes.Words.{le_bytes, le_value, le_value-le_bytes, length-le_bytes}

-- The `n` bytes behind the pointer.
unfoldable pub slice : ℕ → ℕ → Bytes → Option Bytes
slice p n buffer = if leb (p + n) (length buffer) then some (take n (drop p buffer)) else none

-- A word of `k` bytes.
unfoldable pub word_at : ℕ → ℕ → Bytes → Option ℕ
word_at k p buffer = slice p k buffer >>= λ bytes. some (le_value bytes)

-- What stands behind a pointer that has not left the buffer.
pub record At (buffer : Bytes) (p : ℕ) (suffix : Bytes) : Type 0 where
  pub behind : drop p buffer ≡ suffix
  pub size : p + length suffix ≡ length buffer

pub At-append : (before after : Bytes) (p : ℕ) → p ≡ length before → At (before ++ after) p after
At-append before after p e = record {
  behind = drop-append p before after (sym e);
  size = omega (arith, e, length-append before after);
}

-- A pointer moves over bytes in front of others.
pub At-step :
    (buffer x rest : Bytes) (p q : ℕ)
    → At buffer p (x ++ rest)
    → q ≡ p + length x
    → At buffer q rest
At-step buffer x rest p q h e = record {
  behind =
      sym (drop-drop p (length x) q buffer e)
      ∙ ap (drop (length x)) h.behind
      ∙ drop-append (length x) x rest refl;
  size = omega (arith, e, h.size, length-append x rest);
}

pub At-eq : (buffer x y : Bytes) (p : ℕ) → At buffer p x → x ≡ y → At buffer p y
At-eq buffer x y p h e = subst (At buffer p) e h

pub At-slice :
    (buffer x rest : Bytes) (p n : ℕ)
    → At buffer p (x ++ rest)
    → n ≡ length x
    → slice p n buffer ≡ some x
unfolding slice
At-slice buffer x rest p n h e =
    rw
      (
        le→leb (p + n) (length buffer) (omega (arith, e, h.size, length-append x rest)),
        h.behind,
        take-append n x rest (sym e),
      )
      refl

pub At-word :
    (k v : ℕ) (buffer rest : Bytes) (p : ℕ)
    → At buffer p (le_bytes k v ++ rest)
    → v < 256 ^ k
    → word_at k p buffer ≡ some v
unfolding word_at
At-word k v buffer rest p h small =
    rw
      (
        At-slice buffer (le_bytes k v) rest p k h (sym (length-le_bytes k v)),
        le_value-le_bytes k v small,
      )
      refl
