-- ===== src/Planner/Parsing.antt =====
-- One file parsed for a plan, `parse_file` of crates/cognis-indexer/src/planner.rs.
use Prim.Native.String.{String}
use cognis.Base.{
  ℕ, ◌≡◌, refl, Bool, true, false, List, [], map, Option, none, some, if◌then◌else◌, arith,
}
use cognis.Sqlite.{Result, ok, err}
use cognis.Publish.{ParseStatus, failed, FileCacheRow, none_in}
use cognis.Planner.Scan.{PlannedFile, ◌>>=◌}
use cognis.Planner.Detection.{err-ne-ok}

-- What a parser returns.
pub record Parsed (S : Type 0) : Type 0 where
  pub language : Option String
  pub status : ParseStatus
  pub symbols : List S

-- The parsers, the enricher, the clock and the readings of the standard library; `A` is the kind of an
-- artifact, `T` a text, `B` the bytes of a file.
pub record Parsers (K S A T B : Type 0) : Type 0 where
  pub relativize : K → Result K
  pub size : B → Result ℕ
  pub unix_timestamp : Result ℕ
  pub from_utf8 : B → Option T
  pub detect_language : K → Option String
  pub detect_artifact : K → Option A
  pub artifact_label : A → String
  pub parse_source : K → T → Parsed S
  pub extract_artifact : A → K → T → Parsed S
  pub enrich : S → S

abbrev pub is_failed : ParseStatus → Bool
is_failed ParseStatus.parsed = false
is_failed ParseStatus.partial = false
is_failed ParseStatus.failed = true

module _ {K S A T B : Type 0} (parsers : Parsers K S A T B) where
  abbrev pub artifact_language : Option A → String
  artifact_language none = "text"
  artifact_language (some kind) = parsers.artifact_label kind

  abbrev pub label_or : Option String → K → String
  label_or (some label) p = label
  label_or none p = artifact_language (parsers.detect_artifact p)

  unfoldable pub admitted_language : K → String
  admitted_language p = label_or (parsers.detect_language p) p

  abbrev pub parse_kind : Option A → K → T → Parsed S
  parse_kind none rel source = parsers.parse_source rel source
  parse_kind (some kind) rel source = parsers.extract_artifact kind rel source

  abbrev pub parse_text : Option String → K → K → T → Parsed S
  parse_text (some label) p rel source = parsers.parse_source rel source
  parse_text none p rel source = parse_kind (parsers.detect_artifact p) rel source

  abbrev pub language_or : Option String → K → String
  language_or (some language) p = language
  language_or none p = admitted_language p

  abbrev pub file_row : K → String → ℕ → String → ℕ → ParseStatus → FileCacheRow K
  file_row rel language size_bytes hash parsed_at parse_status = record {
    path = rel;
    language = language;
    size_bytes = size_bytes;
    content_hash = hash;
    parsed_at = parsed_at;
    parse_status = parse_status;
  }

  -- The file with its text, or without one where the bytes are not UTF-8.
  abbrev pub planned : K → K → ℕ → String → ℕ → List S → Option T → PlannedFile K S
  planned p rel size_bytes hash parsed_at old_symbols none = record {
    row = file_row rel (admitted_language p) size_bytes hash parsed_at failed;
    symbols = [];
    old_symbols = old_symbols;
  }
  planned p rel size_bytes hash parsed_at old_symbols (some source) =
      let parsed = parse_text (parsers.detect_language p) p rel source in
      record {
        row = file_row rel (language_or parsed.language p) size_bytes hash parsed_at parsed.status;
        symbols = if is_failed parsed.status then [] else map parsers.enrich parsed.symbols;
        old_symbols = old_symbols;
      }

  unfoldable pub parse_file : K → B → String → List S → Result (PlannedFile K S)
  unfolding admitted_language
  parse_file p bytes hash old_symbols = do
    rel ← parsers.relativize p
    size_bytes ← parsers.size bytes
    parsed_at ← parsers.unix_timestamp
    ok (planned p rel size_bytes hash parsed_at old_symbols (parsers.from_utf8 bytes))

  planned-failed :
      (p rel : K) (n t : ℕ) (hash : String) (old : List S) (source : Option T)
      → let f = planned p rel n hash t old source in
        (f.row.content_hash ≡ hash)
        × (f.old_symbols ≡ old)
        × ((if is_failed f.row.parse_status then none_in f.symbols else true) ≡ true)
  planned-failed p rel n t hash old none = (refl, refl, refl)
  planned-failed p rel n t hash old (some source) = (refl, refl, ground arith)

  -- A file that is planned has the given hash in its row and passes its old symbols on, and a failed
  -- parse leaves it no symbol, so that every old one counts as stale.
  pub parse_file-failed :
      (p : K) (bytes : B) (hash : String) (old : List S) (f : PlannedFile K S)
      → parse_file p bytes hash old ≡ ok f
      → (f.row.content_hash ≡ hash)
        × (f.old_symbols ≡ old)
        × ((if is_failed f.row.parse_status then none_in f.symbols else true) ≡ true)
  unfolding parse_file
  parse_file-failed p bytes hash old f e =
      chained (parsers.relativize p) (parsers.size bytes) parsers.unix_timestamp e
    where
      chained :
          (r : Result K) (n : Result ℕ) (t : Result ℕ)
          → (do
            rel ← r
            size_bytes ← n
            parsed_at ← t
            ok (planned p rel size_bytes hash parsed_at old (parsers.from_utf8 bytes)))
            ≡ ok f
          → (f.row.content_hash ≡ hash)
            × (f.old_symbols ≡ old)
            × ((if is_failed f.row.parse_status then none_in f.symbols else true) ≡ true)
      chained (err m) n t e = absurd (err-ne-ok m f e)
      chained (ok rel) (err m) t e = absurd (err-ne-ok m f e)
      chained (ok rel) (ok n) (err m) e = absurd (err-ne-ok m f e)
      chained (ok rel) (ok n) (ok t) e =
          ground (arith, e, planned-failed p rel n t hash old (parsers.from_utf8 bytes))
