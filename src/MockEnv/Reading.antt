-- ===== src/MockEnv/Reading.antt =====
-- Reading a file to its end gives its bytes.
use zenith_db.Prelude.{
  ℕ, zero, suc, ◌+◌, ◌-◌, ◌≤◌, ◌<◌, min, List, [], ◌∷◌, ◌++◌, Option, some, ◌≡◌, refl, sym, ap, ◌∙◌,
  le→leb, length, take, drop, arith, All, length-take, length-drop, take-append-drop, drop-drop,
}
use zenith_db.Bytes.{Bytes}
use zenith_db.Wal.Replay.{joined, NonEmpty}
use zenith_db.MockEnv.{SequentialFile, read, read_loop}

nil_of_length : (xs : Bytes) → length xs ≡ 0 → [] ≡ xs
nil_of_length [] h = refl
nil_of_length (x ∷ xs) h = absurd (omega arith)

-- The reads of a whole file.
pub record ReadOut (content : Bytes) (result : Option (List Bytes)) : Type 0 where
  pub reads : List Bytes
  pub returns : result ≡ some reads
  pub some_bytes : All NonEmpty reads
  pub whole : joined reads ≡ content

-- A read within the file.
read-some :
    (n : ℕ) (f : SequentialFile)
    → f.pos ≤ length f.content
    → read n f
      ≡ some (
        take (min n (length f.content - f.pos)) (drop f.pos f.content),
        record f { pos = f.pos + min n (length f.content - f.pos) },
      )
unfolding read
read-some n f le = rw (le→leb _ _ le) refl

-- An empty read is at the end; one that is not empty goes on.
read_step :
    (fuel n : ℕ) (f f' : SequentialFile) (chunk : Bytes)
    → read n f ≡ some (chunk, f')
    → chunk ++ drop f'.pos f'.content ≡ drop f.pos f.content
    → (length chunk ≡ 0 → length (drop f.pos f.content) ≡ 0)
    → (0 < length chunk → ReadOut (drop f'.pos f'.content) (read_loop fuel n f'))
    → ReadOut (drop f.pos f.content) (read_loop (suc fuel) n f)
unfolding read_loop
read_step fuel n f f' [] e parts at_end later = record {
  reads = [];
  returns = rw (e, read_loop) refl;
  some_bytes = tt;
  whole = nil_of_length (drop f.pos f.content) (at_end refl);
}
read_step fuel n f f' (b ∷ bs) e parts at_end later =
    let r = later (omega arith) in
    record {
      reads = (b ∷ bs) ∷ r.reads;
      returns = rw (e, r.returns, read_loop) refl;
      some_bytes = (omega arith, r.some_bytes);
      whole = ap (λ x. b ∷ (bs ++ x)) r.whole ∙ parts;
    }

-- A loop of reads of at least one byte each, from a position within the file and with fuel for
-- the bytes that are left, reaches the end of the file: its reads together are the bytes from the
-- position on, and none of them is empty.
pub read_loop_lem :
    (fuel n : ℕ) (f : SequentialFile)
    → 0 < n
    → f.pos ≤ length f.content
    → length f.content - f.pos < fuel
    → ReadOut (drop f.pos f.content) (read_loop fuel n f)
read_loop_lem zero n f pos le q = absurd (omega arith)
read_loop_lem (suc fuel) n f pos le q =
    let size = min n (length f.content - f.pos) in
    let rest = drop f.pos f.content in
    let count = length-take size rest in
    let left = length-drop f.pos f.content in
    read_step fuel n f (record f { pos = f.pos + size }) (take size rest) (read-some n f le)
      (ap (λ x. take size rest ++ x) (sym (drop-drop f.pos size (f.pos + size) f.content refl))
        ∙ take-append-drop size rest)
      (λ none_read. omega (arith, count, left))
      (λ some_read.
        read_loop_lem fuel n (record f { pos = f.pos + size }) pos (omega arith)
          (omega (arith, count, left)))
