-- ===== src/SsTable/Opening.antt =====
-- Which files the constructor of a table refuses.
use zenith_db.Prelude.{
  ◌-◌, ◌≤◌, ◌<◌, [], Option, none, some, ◌≡◌, ◌≢◌, ◌↔◌, inl, inr, refl, sym, ap, ◌∙◌, arith, length,
  drop, length-drop, append-nil, ltb, ltb→lt, ltb→le, drop-drop, Bool-cases, ◌==◌, ◌>>=◌,
}
use zenith_db.Bytes.{Bytes}
use zenith_db.Bytes.Words.{le_value}
use zenith_db.Bytes.Slices.{word_at, At-slice}
use zenith_db.MockEnv.{read_at}
use zenith_db.SsTable.{magic, footer_size}
use zenith_db.SsTable.Read.{SsTable}
use zenith_db.SsTable.Open.{too_small, bad_magic, or_fault, open_table}
use zenith_db.SsTable.Blocks.{At-read_at}

-- The last word of the footer.
last_word :
    (file : Bytes)
    → footer_size ≤ length file
    → word_at 8 24 (read_at (length file - footer_size) footer_size file)
      ≡ some (le_value (drop (length file - 8) file))
unfolding word_at
last_word file long =
    let p = length file - footer_size in
    let footer = drop p file in
    let size = length-drop p file in
    let read =
      At-read_at file footer [] p footer_size
        (record {
          behind = sym (append-nil footer);
          size = omega (arith, size, ap length (append-nil footer));
        })
        (omega (arith, size)) (omega arith) in
    let last = drop 24 footer in
    let cut = length-drop 24 footer in
    rw read (
      ap (λ (r : Option Bytes). r >>= λ bytes. some (le_value bytes))
        (At-slice footer last [] 24 8
          (record {
            behind = sym (append-nil last);
            size = omega (arith, size, cut, ap length (append-nil last));
          })
          (omega (arith, size, cut)))
      ∙ ap (λ x. some (le_value x)) (drop-drop p 24 (length file - 8) file (omega (arith, long))))

or_fault_other : (r : Option SsTable) → (or_fault r ≢ too_small) × (or_fault r ≢ bad_magic)
or_fault_other none = (λ e. absurd (cc), λ e. absurd (cc))
or_fault_other (some t) = (λ e. absurd (cc), λ e. absurd (cc))

-- The constructor reports a file as too small exactly when it is shorter than a footer, and
-- reports bad magic exactly when it is at least as long and its last 8 bytes are not the magic
-- number.
pub open_table-errors :
    (file : Bytes)
    → ((open_table file ≡ too_small) ↔ (length file < 32))
      × ((open_table file ≡ bad_magic)
          ↔ ((32 ≤ length file) × (le_value (drop (length file - 8) file) ≢ 0xDB55CA1E)))
unfolding open_table
open_table-errors file = elim (Bool-cases (ltb (length file) footer_size)) [
  | inl short ↦
      let small = ltb→lt (length file) footer_size short in
      rw short
        ((λ e. small, λ h. refl), (λ e. absurd (cc), λ h. absurd (omega (arith, h.0, small))))
  | inr long ↦
      let large = ltb→le (length file) footer_size long in
      let w = last_word file large in
      elim (Bool-cases (le_value (drop (length file - 8) file) == magic)) [
        | inl fine ↦
            rw (long, w, fine)
              (
                (λ e. absurd ((or_fault_other _).0 e), λ h. absurd (omega (arith, h, large))),
                (λ e. absurd ((or_fault_other _).1 e), λ h. absurd (h.1 (ground (arith, fine)))),
              )
        | inr other ↦
            rw (long, w, other)
              (
                (λ e. absurd (cc), λ h. absurd (omega (arith, h, large))),
                (λ e. (large, λ same. absurd (ground (arith, other, same))), λ h. refl),
              )
      ]
]
