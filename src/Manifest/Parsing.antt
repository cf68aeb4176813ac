-- ===== src/Manifest/Parsing.antt =====
-- What `load` makes of a line that was written.
use zenith_db.Prelude.{
  ℕ, ◌+◌, ◌-◌, ◌^◌, ◌<◌, ◌≤◌, ◌%◌, List, [], ◌∷◌, ◌++◌, Option, none, some, true, false, ◌≡◌, refl,
  ap, arith, length, All, ◌==◌, if◌then◌else◌, ◌>>=◌,
}
use zenith_db.Bytes.{Bytes, cmp}
use zenith_db.Compaction.{change_at}
use zenith_db.Manifest.{digits, to_string}
use zenith_db.Manifest.Load.{
  is_space, is_digit, skip_space, span, read_word, number, read_digits, read_level, word_add,
  parse_add, load_line,
}

-- A name that `>>` reads as a whole.
pub record IsName (f : Bytes) : Type 0 where
  pub some_bytes : 0 < length f
  pub no_space : All (λ c. is_space c ≡ false) f

span-All :
    (f : Bytes)
    → All (λ c. is_space c ≡ false) f
    → span (λ b. if is_space b then false else true) f ≡ (f, [])
unfolding span
span-All [] h = refl
span-All (c ∷ f) h = rw (h.0, span-All f h.1) refl

skip_one : (c : ℕ) (rest : Bytes) → is_space c ≡ false → skip_space (b' ' ∷ c ∷ rest) ≡ c ∷ rest
unfolding skip_space is_space
skip_one c rest h = ground (arith, h)

read_word_name : (f : Bytes) → IsName f → read_word (b' ' ∷ f) ≡ some (f, [])
unfolding read_word
read_word_name [] h = absurd (omega (arith, h.some_bytes))
read_word_name (c ∷ f) h =
    rw (skip_one c f h.no_space.0, read_word) (ap some (span-All (c ∷ f) h.no_space))

digit_space : (level : ℕ) → level < 10 → is_space (b'0' + level) ≡ false
unfolding is_space
digit_space level h = ground arith

read_one_digit :
    (level limit : ℕ) (rest : Bytes)
    → level < 10
    → 10 ≤ limit
    → read_digits limit ((b'0' + level) ∷ b' ' ∷ rest) ≡ some (level, b' ' ∷ rest)
unfolding read_digits span is_digit number
read_one_digit level limit rest h big = ground (arith, h, big)

read_level_digit :
    (level : ℕ) (rest : Bytes)
    → level < 10
    → read_level (b' ' ∷ (b'0' + level) ∷ b' ' ∷ rest) ≡ some (some level, b' ' ∷ rest)
unfolding read_level
read_level_digit level rest h =
    let minus : ((b'0' + level) == b'-') ≡ false = ground arith in
    let plus : ((b'0' + level) == b'+') ≡ false = ground arith in
    rw
      (
        skip_one (b'0' + level) (b' ' ∷ rest) (digit_space level h),
        minus,
        plus,
        read_one_digit level (2 ^ 31 - 1) rest h (omega arith),
        read_level,
      )
      refl

pub to_string_digit : (n : ℕ) → n < 10 → to_string n ≡ (b'0' + n) ∷ []
unfolding to_string digits
to_string_digit n h = let small : n % 10 ≡ n = omega arith in rw (small) (ground (arith, h))

-- The line that adds a file.
abbrev pub add_line : ℕ → Bytes → Bytes
add_line level f = word_add ++ b' ' ∷ (b'0' + level) ∷ b' ' ∷ f

parse_add_lem :
    (level : ℕ) (f : Bytes) → level < 10 → IsName f → parse_add (add_line level f) ≡ some (level, f)
unfolding parse_add cmp
parse_add_lem level f h name =
    rw (read_level_digit level f h, read_word_name f name, parse_add) refl

pub load_line_add :
    (level : ℕ) (f : Bytes) (levels : List (List Bytes))
    → level < 10
    → IsName f
    → load_line (add_line level f) levels ≡ change_at level (λ files. files ++ f ∷ []) levels
unfolding load_line
load_line_add level f levels h name = rw (parse_add_lem level f h name, load_line) refl

-- The line that takes a file away.
abbrev pub del_line : ℕ → Bytes → Bytes
del_line level f = b'D' ∷ b'E' ∷ b'L' ∷ b' ' ∷ (to_string level ++ b' ' ∷ f)

nothing :
    {A B : Type 0} (r : Option A) (f : A → Option B) → ((a : A) → f a ≡ none) → (r >>= f) ≡ none
nothing none f h = refl
nothing (some a) f h = h a

parse_add_del : (level : ℕ) (f : Bytes) → parse_add (del_line level f) ≡ none
unfolding parse_add cmp
parse_add_del level f = nothing (read_level (b' ' ∷ (to_string level ++ b' ' ∷ f))) _ (λ a. refl)

-- It is passed over.
pub load_line_del :
    (level : ℕ) (f : Bytes) (levels : List (List Bytes))
    → load_line (del_line level f) levels ≡ levels
unfolding load_line
load_line_del level f levels = rw (parse_add_del level f, load_line) refl
