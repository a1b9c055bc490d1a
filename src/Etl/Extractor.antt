-- ===== src/Etl/Extractor.antt =====
-- `StreamingExtractor` of src/etl/extractor.py: the choice of a format, the encoding and the batches.
-- What the parsers of the formats and chardet read from the bytes comes from outside.
use tdcs.Prelude.{
  ℕ, ◌+◌, ◌/◌, ◌≤◌, ◌<◌, ◌≡◌, refl, ap, ◌∙◌, String, Option, none, some, List, [], ◌∷◌, ◌++◌,
  length, length-append, take, drop, All, Bool, false, ◌||◌, ltb, leb, ◌==◌, text_eq, number_eq,
  if◌then◌else◌, arith, Bool-cases, inl, inr,
}
use mathlib.Core.List.{append_assoc}
use tdcs.Prelude.Dict.{put}
use tdcs.Etl.{Error, skip_file, Row, Value}

-- `batch` up to a bound, each row appended; what is left is flushed, unless the parser has raised
unfoldable pub batches {ℓ} : {A : Type ℓ} → ℕ → Bool → List A → List A → List (List A)
batches n raised [] [] = []
batches n raised (b ∷ batch) [] = if raised then [] else (b ∷ batch) ∷ []
batches n raised batch (row ∷ rows) =
    let full = batches n raised [] rows in
    let more = batches n raised (batch ++ row ∷ []) rows in
    if leb n (length (batch ++ row ∷ [])) then (batch ++ row ∷ []) ∷ full else more

abbrev pub concat {ℓ} : {A : Type ℓ} → List (List A) → List A
concat [] = []
concat (b ∷ bs) = b ++ concat bs

-- the batches that a generator yields, and the exception that ends it, if one does
pub record Streamed : Type 0 where
  pub yielded : List (List Row)
  pub error : Option Error

abbrev skip : String → Error
skip message = record { kind = skip_file; message = message }

abbrev skipped : String → Streamed
skipped message = record { yielded = []; error = some (skip message) }

-- what the file is: its size, its bytes, and its suffix in lower case
pub record Source : Type 0 where
  pub bytes : List ℕ
  pub suffix : String

-- the cells of a sheet's row; None is `none`
abbrev pub Cells : Type 0
Cells = List (Option Value)

-- how `load_workbook` ends
pub data Workbook : Type 0 where
  not_installed locked broken no_sheet : Workbook
  sheet : List Cells → Workbook

-- ijson: the items up to its end, and whether it ends by an exception
pub data Items : Type 0 where
  no_ijson : Items
  items : List Row → Bool → Items

pub record Detected : Type 0 where
  pub encoding : Option String
  pub is_confident : Bool

-- the parsers; `csv` reads with an encoding, and replaces what it cannot decode
pub record Parsers : Type 0 where
  pub csv : String → List ℕ → List Row
  pub json : String → List ℕ → Items
  pub excel : List ℕ → Workbook
  pub chardet : Option (List ℕ → Detected)
  pub show_cell : Value → String
  pub show_column : ℕ → String
  pub none_cell : Value

-- `_FORMAT_REGISTRY`
pub data Format : Type 0 where
  csv_format json_format excel_format : Format

abbrev pub format_of : String → Option Format
format_of suffix =
    if suffix == ".csv"
    then some csv_format
    else if suffix == ".json"
    then some json_format
    else if suffix == ".xlsx" || suffix == ".xls"
    then some excel_format
    else none

-- 32 KB from the head and, of a file of more than 64 KB, from the middle
unfoldable pub sample_of : List ℕ → List ℕ
sample_of bytes =
    take 32768 bytes
    ++ (if ltb 65536 (length bytes) then take 32768 (drop (length bytes / 2) bytes) else [])

abbrev pub detected_or_utf8 : Option String → Bool → String
detected_or_utf8 none confident = "utf-8"
detected_or_utf8 (some encoding) confident =
    if encoding == "" then "utf-8" else if confident then encoding else "utf-8"

abbrev pub detect_by : Option (List ℕ → Detected) → List ℕ → String
detect_by none bytes = "utf-8"
detect_by (some detect) bytes =
    let d = detect (sample_of bytes) in detected_or_utf8 d.encoding d.is_confident

-- `_detect_encoding`
unfoldable pub detect_encoding : Parsers → List ℕ → String → String
detect_encoding ps bytes hint = if hint == "auto" then detect_by ps.chardet bytes else hint

abbrev header : Parsers → ℕ → Option Value → String
header ps i none = ps.show_column i
header ps i (some c) = ps.show_cell c

abbrev headers_of : Parsers → ℕ → Cells → List String
headers_of ps i [] = []
headers_of ps i (c ∷ cs) = header ps i c ∷ headers_of ps (i + 1) cs

abbrev cell : Parsers → Option Value → Value
cell ps none = ps.none_cell
cell ps (some c) = c

-- `dict(zip(headers, row))`, from the pairs that are left
abbrev zip_row : Parsers → List String → Cells → Row → Row
zip_row ps [] cells row = row
zip_row ps (h ∷ hs) [] row = row
zip_row ps (h ∷ hs) (c ∷ cs) row = zip_row ps hs cs (put h (cell ps c) row)

abbrev rows_under : Parsers → List String → List Cells → List Row
rows_under ps headers [] = []
rows_under ps headers (cells ∷ rest) = zip_row ps headers cells [] ∷ rows_under ps headers rest

abbrev rows_of_sheet : Parsers → List Cells → List Row
rows_of_sheet ps [] = []
rows_of_sheet ps (first ∷ rest) = rows_under ps (headers_of ps 0 first) rest

abbrev pub stream_excel : Parsers → ℕ → Workbook → Streamed
stream_excel ps n not_installed = skipped "openpyxl not installed"
stream_excel ps n locked = skipped "locked"
stream_excel ps n broken = skipped "failed to open"
stream_excel ps n no_sheet = skipped "no active sheet"
stream_excel ps n (sheet rows) = record {
  yielded = batches n false [] (rows_of_sheet ps rows);
  error = none;
}

abbrev pub stream_json : ℕ → Items → Streamed
stream_json n no_ijson = skipped "ijson not installed"
stream_json n (items rows raised) = record {
  yielded = batches n raised [] rows;
  error = if raised then some (skip "JSON parse error") else none;
}

abbrev pub stream_format : Parsers → ℕ → String → String → List ℕ → Option Format → Streamed
stream_format ps n hint path bytes none = skipped "unsupported format"
stream_format ps n hint path bytes (some csv_format) = record {
  yielded = batches n false [] (ps.csv (detect_encoding ps bytes hint) bytes);
  error = none;
}
stream_format ps n hint path bytes (some json_format) = stream_json n (ps.json path bytes)
stream_format ps n hint path bytes (some excel_format) = stream_excel ps n (ps.excel bytes)

-- `stream`, on the file if it is there
unfoldable pub stream : Parsers → ℕ → String → String → Option Source → Streamed
unfolding batches detect_encoding
stream ps n hint path none = skipped "file not found"
stream ps n hint path (some src) =
    if length src.bytes == 0
    then skipped "empty file"
    else stream_format ps n hint path src.bytes (format_of src.suffix)

module _ {ℓ} {A : Type ℓ} (n : ℕ) (positive : 1 ≤ n) where
  -- A batch is not empty and has at most `n` rows.
  abbrev pub IsBatch : List A → Type 0
  IsBatch b = (1 ≤ length b) × (length b ≤ n)

  IsBatch-step :
      (batch rows : List A) (row : A) (full more : List (List A))
      → length batch < n
      → (concat full ≡ rows) × All IsBatch full
      → (length (batch ++ row ∷ []) < n
          → (concat more ≡ (batch ++ row ∷ []) ++ rows) × All IsBatch more)
      → let bs = if leb n (length (batch ++ row ∷ [])) then (batch ++ row ∷ []) ∷ full else more in
        (concat bs ≡ batch ++ row ∷ rows) × All IsBatch bs
  IsBatch-step batch rows row full more h (joined, sized) rest =
      elim (Bool-cases (leb n (length (batch ++ row ∷ [])))) [
        | inl filled ↦ rw filled (
          ap (λ t. (batch ++ row ∷ []) ++ t) joined ∙ append_assoc batch (row ∷ []) rows,
          (
            (
              ground (arith, length-append batch (row ∷ [])),
              ground (arith, h, length-append batch (row ∷ [])),
            ),
            sized,
          ),
        )
        | inr open_still ↦
            let r = rest (ground (arith, open_still)) in
            rw open_still (r.0 ∙ append_assoc batch (row ∷ []) rows, r.1)
      ]

  -- The batches that a parser's rows are cut into hold exactly its rows, in their order, and each has
  -- 1 to `n` of them, for a batch size of at least 1, where the parser ends without an exception.
  pub concat-batches :
      (batch rows : List A)
      → length batch < n
      → (concat (batches n false batch rows) ≡ batch ++ rows)
        × All IsBatch (batches n false batch rows)
  unfolding batches
  concat-batches [] [] h = (refl, tt)
  concat-batches (b ∷ batch) [] h = (refl, ((omega arith, omega (arith, h)), tt))
  concat-batches batch (row ∷ rows) h =
      IsBatch-step batch rows row (batches n false [] rows)
        (batches n false (batch ++ row ∷ []) rows) h (concat-batches [] rows positive)
        (λ small. concat-batches (batch ++ row ∷ []) rows small)
