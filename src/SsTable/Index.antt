-- ===== src/SsTable/Index.antt =====
-- The index and the footer of a file are read as they were written.
use zenith_db.Prelude.{
  ℕ, ◌+◌, ◌^◌, ◌<◌, List, [], ◌∷◌, ◌++◌, some, ◌≡◌, refl, sym, ap, ◌∙◌, arith, length,
  length-append, append_assoc, append-nil, All,
}
use zenith_db.Bytes.{Bytes}
use zenith_db.Bytes.Words.{le_bytes, length-le_bytes}
use zenith_db.Bytes.Slices.{word_at, At, At-append, At-step, At-eq, At-slice, At-word}
use zenith_db.SsTable.{IndexEntry, magic}
use zenith_db.SsTable.Create.{index_entries_bytes, footer_bytes}
use zenith_db.SsTable.Open.{read_index}

-- The words of an entry of the index fit.
abbrev pub IndexFits : IndexEntry → Type 0
IndexFits ie = (length ie.min_key < 2 ^ 32) × (ie.offset < 2 ^ 64)

pub read_index_lem :
    (index : List IndexEntry) (p : ℕ) (buffer rest : Bytes)
    → At buffer p (index_entries_bytes index ++ rest)
    → All IndexFits index
    → read_index (length index) p buffer ≡ some index
unfolding read_index index_entries_bytes
read_index_lem [] p buffer rest at fits = refl
read_index_lem (ie ∷ index) p buffer rest at fits =
    let tail = index_entries_bytes index ++ rest in
    let at0 =
      At-eq buffer _
        (le_bytes 4 (length ie.min_key) ++ (ie.min_key ++ (le_bytes 8 ie.offset ++ tail))) p at
        (append_assoc (le_bytes 4 (length ie.min_key)) _ rest
          ∙ ap (λ x. le_bytes 4 (length ie.min_key) ++ x)
              (append_assoc ie.min_key _ rest
                ∙ ap (λ x. ie.min_key ++ x)
                    (append_assoc (le_bytes 8 ie.offset) (index_entries_bytes index) rest))) in
    let at1 =
      At-step buffer (le_bytes 4 (length ie.min_key)) _ p (p + 4) at0
        (omega (arith, length-le_bytes 4 (length ie.min_key))) in
    let at2 = At-step buffer ie.min_key _ (p + 4) (p + 4 + length ie.min_key) at1 refl in
    let at3 =
      At-step buffer (le_bytes 8 ie.offset) tail (p + 4 + length ie.min_key)
        (p + 4 + length ie.min_key + 8) at2 (omega (arith, length-le_bytes 8 ie.offset)) in
    rw
      (
        At-word 4 (length ie.min_key) buffer _ p at0 fits.0.0,
        At-slice buffer ie.min_key _ (p + 4) (length ie.min_key) at1 refl,
        At-word 8 ie.offset buffer tail (p + 4 + length ie.min_key) at2 fits.0.1,
        read_index_lem index (p + 4 + length ie.min_key + 8) buffer rest at3 fits.1,
      )
      refl

-- The words of a footer.
pub record Footer (footer : Bytes) (data_end bloom_offset index_offset : ℕ) : Type 0 where
  pub size : length footer ≡ 32
  pub end_word : word_at 8 0 footer ≡ some data_end
  pub bloom_word : word_at 8 8 footer ≡ some bloom_offset
  pub index_word : word_at 8 16 footer ≡ some index_offset
  pub magic_word : word_at 8 24 footer ≡ some magic

pub footer_bytes_lem :
    (data_end bloom_offset index_offset : ℕ)
    → data_end < 2 ^ 64
    → bloom_offset < 2 ^ 64
    → index_offset < 2 ^ 64
    → Footer (footer_bytes data_end bloom_offset index_offset) data_end bloom_offset index_offset
unfolding footer_bytes
footer_bytes_lem a b c a_small b_small c_small =
    let w3 = le_bytes 8 magic in
    let w2 = le_bytes 8 c ++ w3 in
    let w1 = le_bytes 8 b ++ w2 in
    let footer = le_bytes 8 a ++ w1 in
    let at0 = At-append [] footer 0 refl in
    let at1 = At-step footer (le_bytes 8 a) w1 0 8 at0 (omega (arith, length-le_bytes 8 a)) in
    let at2 = At-step footer (le_bytes 8 b) w2 8 16 at1 (omega (arith, length-le_bytes 8 b)) in
    let at3 = At-step footer (le_bytes 8 c) w3 16 24 at2 (omega (arith, length-le_bytes 8 c)) in
    record {
      size = omega (
        arith,
        length-append (le_bytes 8 a) w1,
        length-append (le_bytes 8 b) w2,
        length-append (le_bytes 8 c) w3,
        length-le_bytes 8 a,
        length-le_bytes 8 b,
        length-le_bytes 8 c,
        length-le_bytes 8 magic,
      );
      end_word = At-word 8 a footer w1 0 at0 a_small;
      bloom_word = At-word 8 b footer w2 8 at1 b_small;
      index_word = At-word 8 c footer w3 16 at2 c_small;
      magic_word =
          At-word 8 magic footer [] 24 (At-eq footer _ _ 24 at3 (sym (append-nil w3)))
            (omega arith);
    }
