-- ===== src/Wal/Lines.antt =====
-- The lines of a text, in the order of the bytes, whatever pieces it is read in.
use zenith_db.Prelude.{
  ℕ, List, [], ◌∷◌, ◌++◌, none, some, ◌≡◌, ◌⊎◌, refl, ap, ◌∙◌, ◌==◌, false, if◌then◌else◌, arith,
  All, inl, inr, Bool-cases, ==_iff,
}
use zenith_db.Bytes.{Bytes}
use zenith_db.Wal.{newline, cut}

-- A byte in front of a text, by the lines of the text.
abbrev add_byte : ℕ → List Bytes × Bytes → List Bytes × Bytes
add_byte c ([], partial) = ([], c ∷ partial)
add_byte c (l ∷ ls, partial) = ((c ∷ l) ∷ ls, partial)

-- The whole lines, and the bytes behind the last newline.
unfoldable pub lines_of : Bytes → List Bytes × Bytes
lines_of [] = ([], [])
lines_of (c ∷ cs) =
    let rest = lines_of cs in if c == newline then ([] ∷ rest.0, rest.1) else add_byte c rest

-- The byte does not occur.
abbrev pub Without : ℕ → Bytes → Type 0
Without d text = All (λ c. (c == d) ≡ false) text

-- What `cut` finds.
pub record CutAt (d : ℕ) (text : Bytes) : Type 0 where
  pub item : Bytes
  pub rest : Bytes
  pub returns : cut d text ≡ some (item, rest)
  pub text_eq : text ≡ item ++ d ∷ rest
  pub clean : Without d item

pub cut_cases : (d : ℕ) (text : Bytes) → ((cut d text ≡ none) × Without d text) ⊎ CutAt d text
unfolding cut
cut_cases d [] = inl (refl, tt)
cut_cases d (c ∷ cs) = elim (Bool-cases (c == d)) [
  | inl here ↦ inr (record {
    item = [];
    rest = cs;
    returns = rw here refl;
    text_eq = ap (λ x. x ∷ cs) ((==_iff c d).0 here);
    clean = tt;
  })
  | inr there ↦ elim (cut_cases d cs) [
    | inl absent ↦ inl (rw (there, absent.0) refl, (there, absent.1))
    | inr r ↦ inr (record {
      item = c ∷ r.item;
      rest = r.rest;
      returns = rw (there, r.returns) refl;
      text_eq = ap (λ x. c ∷ x) r.text_eq;
      clean = (there, r.clean);
    })
  ]
]

pub cut_clean : (d : ℕ) (text : Bytes) → Without d text → cut d text ≡ none
unfolding cut
cut_clean d [] h = refl
cut_clean d (c ∷ cs) h = rw (h.0, cut_clean d cs h.1) refl

pub cut-append :
    (d : ℕ) (text rest : Bytes) → Without d text → cut d (text ++ d ∷ rest) ≡ some (text, rest)
unfolding cut
cut-append d [] rest h = ground arith
cut-append d (c ∷ cs) rest h = rw (h.0, cut-append d cs rest h.1) refl

-- A text without a newline has no whole line.
pub lines_of_clean : (text : Bytes) → Without newline text → lines_of text ≡ ([], text)
unfolding lines_of
lines_of_clean [] h = refl
lines_of_clean (c ∷ cs) h = rw h.0 (ap (add_byte c) (lines_of_clean cs h.1))

pub lines_of_line :
    (line rest : Bytes)
    → Without newline line
    → lines_of (line ++ newline ∷ rest) ≡ (line ∷ (lines_of rest).0, (lines_of rest).1)
unfolding lines_of
lines_of_line [] rest h = refl
lines_of_line (c ∷ cs) rest h = rw h.0 (ap (add_byte c) (lines_of_line cs rest h.1))

-- Lines in front of the lines of a text.
abbrev pub in_front : List Bytes → List Bytes × Bytes → List Bytes × Bytes
in_front ls r = (ls ++ r.0, r.1)

add_byte-in_front :
    (c : ℕ) (ls : List Bytes) (partial ys : Bytes)
    → (c == newline) ≡ false
    → add_byte c (in_front ls (lines_of (partial ++ ys)))
      ≡ in_front (add_byte c (ls, partial)).0 (lines_of ((add_byte c (ls, partial)).1 ++ ys))
unfolding lines_of
add_byte-in_front c [] partial ys h = rw h refl
add_byte-in_front c (l ∷ ls) partial ys h = refl

-- The lines of a text that is read in two pieces.
pub lines_of-append :
    (xs ys : Bytes)
    → lines_of (xs ++ ys) ≡ in_front (lines_of xs).0 (lines_of ((lines_of xs).1 ++ ys))
unfolding lines_of
lines_of-append [] ys = refl
lines_of-append (c ∷ cs) ys = elim (Bool-cases (c == newline)) [
  | inl here ↦ rw here (ap (in_front ([] ∷ [])) (lines_of-append cs ys))
  | inr there ↦ rw there (
      ap (add_byte c) (lines_of-append cs ys)
      ∙ add_byte-in_front c (lines_of cs).0 (lines_of cs).1 ys there)
]

add_byte_partial :
    (c : ℕ) (r : List Bytes × Bytes)
    → (c == newline) ≡ false
    → Without newline r.1
    → Without newline (add_byte c r).1
add_byte_partial c ([], partial) h clean = (h, clean)
add_byte_partial c (l ∷ ls, partial) h clean = clean

-- What is behind the last newline holds none.
pub partial_clean : (text : Bytes) → Without newline (lines_of text).1
unfolding lines_of
partial_clean [] = tt
partial_clean (c ∷ cs) = elim (Bool-cases (c == newline)) [
  | inl here ↦ rw here (partial_clean cs)
  | inr there ↦ rw there (add_byte_partial c (lines_of cs) there (partial_clean cs))
]
