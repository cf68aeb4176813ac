-- ===== src/MockEnv.antt =====
-- The files in memory: src/mock_env.h. The calls hold the mutex for their whole length, so each is
-- one step on the map of the files. `Flush`, `Sync`, `Close` and `CreateDir` do nothing.
pub mod Reading
pub mod Logging
use zenith_db.Prelude.{
  ℕ, zero, suc, ◌+◌, ◌-◌, ◌^◌, ◌%◌, min, List, [], ◌∷◌, ◌++◌, Option, none, some, Bool, true, false,
  ltb, leb, length, take, drop, if◌then◌else◌,
}
use zenith_db.Bytes.{Bytes}
use zenith_db.OrdMap
use zenith_db.OrdMap.{OrdMap, find}

-- `file_map_`.
abbrev pub Files : Type 0
Files = OrdMap Bytes

pub record SequentialFile : Type 0 where
  pub content : Bytes
  pub pos : ℕ

-- `SequentialFile::Read`; `none` is a read behind the end, where `Skip` may have gone.
unfoldable pub read : ℕ → SequentialFile → Option (Bytes × SequentialFile)
read n f =
    let to_read = min n (length f.content - f.pos) in
    if leb f.pos (length f.content)
    then some (take to_read (drop f.pos f.content), record f { pos = f.pos + to_read })
    else none

-- `SequentialFile::Skip`.
unfoldable pub skip : ℕ → SequentialFile → SequentialFile
skip n f = record f { pos = (f.pos + n) % 2 ^ 64 }

-- `RandomAccessFile::Read`.
unfoldable pub read_at : ℕ → ℕ → Bytes → Bytes
read_at offset n content =
    if leb (length content) offset
    then []
    else take (min n (length content - offset)) (drop offset content)

-- `file_map_[fname]`, which adds an empty file where there is none.
unfoldable pub file_at : Bytes → Files → Bytes × Files
file_at fname files = elim (find fname files) [
  | none ↦ ([], OrdMap.insert fname [] files)
  | some content ↦ (content, files)
]

-- `NewSequentialFile`.
unfoldable pub new_sequential_file : Bytes → Files → SequentialFile × Files
unfolding file_at
new_sequential_file fname files =
    let (content, files') = file_at fname files in (record { content = content; pos = 0 }, files')

-- `NewRandomAccessFile`; `none` is the error "File not found".
unfoldable pub new_random_access_file : Bytes → Files → Option Bytes
new_random_access_file fname files = find fname files

-- `NewWritableFile` and `NewAppendableFile`. The file that they return points at the content of
-- `fname`.
unfoldable pub new_writable_file : Bytes → Files → Files
new_writable_file fname files = OrdMap.insert fname [] files

unfoldable pub new_appendable_file : Bytes → Files → Files
unfolding file_at
new_appendable_file fname files = (file_at fname files).1

-- `WritableFile::Append`, on the content of `fname`; `none` once the file is deleted, where the pointer
-- points at nothing.
unfoldable pub append_to : Bytes → Bytes → Files → Option Files
append_to fname content files = elim (find fname files) [
  | none ↦ none
  | some old ↦ some (OrdMap.insert fname (old ++ content) files)
]

-- `FileExists`.
unfoldable pub file_exists : Bytes → Files → Bool
file_exists fname files = elim (find fname files) [ none ↦ false | some _ ↦ true ]

-- `GetChildren`: all files, whatever the directory.
unfoldable pub get_children : Bytes → Files → List Bytes
get_children dir files = OrdMap.keys files

-- `DeleteFile`.
unfoldable pub delete_file : Bytes → Files → Files
delete_file fname files = OrdMap.erase fname files

-- `GetFileSize`.
unfoldable pub get_file_size : Bytes → Files → ℕ × Files
unfolding file_at
get_file_size fname files = let (content, files') = file_at fname files in (length content, files')

-- The reads that a loop makes which ends at an empty read.
unfoldable pub read_loop : ℕ → ℕ → SequentialFile → Option (List Bytes)
unfolding read
read_loop zero n f = none
read_loop (suc fuel) n f = elim (read n f) [
  | none ↦ none
  | some ([], f') ↦ some []
  | some (b ∷ bs, f') ↦ elim (read_loop fuel n f') [
    | none ↦ none
    | some rest ↦ some ((b ∷ bs) ∷ rest)
  ]
]
