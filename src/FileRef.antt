-- ===== src/FileRef.antt =====
-- `FileRef` of src/infrastructure/file_ref.py: what identifies a file, and its sampled hash. A
-- file's content is the list of its bytes; MD5 is a parameter, as is the printing of a size.
pub mod Sampling
use tdcs.Prelude.{
  ℕ, ◌+◌, ◌-◌, ◌/◌, String, ◌≡◌, Option, none, some, List, [], ◌∷◌, ◌++◌, length, take, drop, ltb,
  if◌then◌else◌,
}

-- task_id, file_path and file_mtime are the business key
pub record FileRef : Type 0 where
  pub task_id : String
  pub file_path : String
  pub file_mtime : ℕ
  pub file_size : ℕ
  pub file_hash : String

-- `os.stat_result`: st_mtime as a number of microseconds
pub record StatResult : Type 0 where
  pub st_mtime : ℕ
  pub st_size : ℕ

-- `hashlib.md5` of some bytes as `hexdigest()[:16]`, and `str(n).encode()`
pub record Hashing : Type 0 where
  pub digest16 : List ℕ → String
  pub encode_size : ℕ → List ℕ

-- `f.read(4096)` from the start
unfoldable pub read_head : List ℕ → List ℕ
read_head content = take 4096 content

-- `f.seek(-4096, 2)` raises OSError in a shorter file, which `none` stands for
unfoldable pub read_tail : List ℕ → Option (List ℕ)
read_tail content =
    if ltb (length content) 4096 then none else some (drop (length content - 4096) content)

-- the bytes that reach the hash
unfoldable pub sample : Hashing → List ℕ → ℕ → Option (List ℕ)
sample h content size =
    if ltb 8192 size
    then (elim (read_tail content) [
      | none ↦ none
      | some tail ↦ some (read_head content ++ tail ++ h.encode_size size)
    ])
    else some (read_head content ++ h.encode_size size)

unfoldable pub from_stat : Hashing → String → String → List ℕ → StatResult → Option FileRef
from_stat h task_id file_path content stat = elim (sample h content stat.st_size) [
  | none ↦ none
  | some bytes ↦ some (record {
    task_id = task_id;
    file_path = file_path;
    file_mtime = stat.st_mtime / 1000;
    file_size = stat.st_size;
    file_hash = h.digest16 bytes;
  })
]
