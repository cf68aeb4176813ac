-- ===== src/Manifest.antt =====
-- The manifest: src/manifest.cpp. Here is what it writes, with `add_sstable` and `replace`, to a file
-- that is open for appending; Load reads it, and Lines,
-- Parsing and Recovery show what is read.
pub mod Load
pub mod Lines
pub mod Parsing
pub mod Recovery
use zenith_db.Prelude.{ℕ, zero, suc, ◌+◌, ◌%◌, ◌/◌, List, [], ◌∷◌, ◌++◌, ltb, if◌then◌else◌}
use zenith_db.Bytes.{Bytes}

-- `std::to_string` of a number, whose digits are at most as many as the number and one.
unfoldable pub digits : ℕ → ℕ → Bytes
digits zero n = []
digits (suc fuel) n =
    let front = digits fuel (n / 10) in (if ltb n 10 then [] else front) ++ (b'0' + n % 10) ∷ []

unfoldable pub to_string : ℕ → Bytes
unfolding digits
to_string n = digits (suc n) n

unfoldable pub add_record : ℕ → Bytes → Bytes
unfolding to_string
add_record level f = b'A' ∷ b'D' ∷ b'D' ∷ b' ' ∷ (to_string level ++ b' ' ∷ (f ++ b'\n' ∷ []))

unfoldable pub del_record : ℕ → Bytes → Bytes
unfolding to_string
del_record level f = b'D' ∷ b'E' ∷ b'L' ∷ b' ' ∷ (to_string level ++ b' ' ∷ (f ++ b'\n' ∷ []))

-- `add_sstable`, on the bytes of the file.
unfoldable pub add_sstable : ℕ → Bytes → Bytes → Bytes
unfolding add_record
add_sstable level filename file = file ++ add_record level filename

-- The loops of `replace`.
unfoldable pub add_files : ℕ → List Bytes → Bytes → Bytes
unfolding add_record
add_files level [] file = file
add_files level (f ∷ fs) file = add_files level fs (file ++ add_record level f)

unfoldable pub del_files : ℕ → List Bytes → Bytes → Bytes
unfolding del_record
del_files level [] file = file
del_files level (f ∷ fs) file = del_files level fs (file ++ del_record level f)

-- `replace`.
unfoldable pub replace : ℕ → List Bytes → List Bytes → Bytes → Bytes
unfolding add_files del_files
replace level old_files new_files file = add_files level new_files (del_files level old_files file)
