-- ===== src/Rag/FileLoader.antt =====
-- src/eset_incident_ai/rag/file_loader.py: a knowledge file as a document. What `pathlib` says of the
-- file is a field of `KnowledgeFile`; `str.title` and SHA-256 are parameters.
use Prim.Native.Char.{Char, code}
use eset_incident_ai.Prelude.{
  ℕ, String, Bool, false, ◌&&◌, ◌||◌, Option, none, some, List, [], ◌∷◌, leb, ltb, ◌==◌, str_len,
  strip, is_empty, if◌then◌else◌,
}
use eset_incident_ai.Rag.Indexer.{KnowledgeDocument}

pub record KnowledgeFile : Type 0 where
  -- `path.relative_to(root).as_posix()`.
  pub relative_path : String
  -- `path.stem`.
  pub stem : String
  -- `path.read_text(encoding="utf-8")`.
  pub content : String

-- The characters at which `str.splitlines` ends a line.
abbrev pub is_break : ℕ → Bool
is_break c = (leb 10 c && leb c 13) || (leb 28 c && leb c 30) || c == 133 || c == 8232 || c == 8233

abbrev starts_with_newline : String → Bool
starts_with_newline String.[] = false
starts_with_newline (String.◌∷◌ c s) = code c == 10

-- A character put before the first of the lines.
abbrev pub longer : Char → List String → List String
longer c [] = String.◌∷◌ c "" ∷ []
longer c (l ∷ ls) = String.◌∷◌ c l ∷ ls

-- `s.splitlines()`; `\r\n` ends one line.
unfoldable pub splitlines : String → List String
splitlines String.[] = []
splitlines (String.◌∷◌ c s) =
    let rest = splitlines s in
    if is_break (code c)
    then (if code c == 13 && starts_with_newline s then rest else "" ∷ rest)
    else longer c rest

abbrev pub starts_with_hash : String → Bool
starts_with_hash String.[] = false
starts_with_hash (String.◌∷◌ c s) = code c == b'#'

-- `s.lstrip("#")`.
abbrev pub lstrip_hashes : String → String
lstrip_hashes String.[] = ""
lstrip_hashes (String.◌∷◌ c s) = if code c == b'#' then lstrip_hashes s else String.◌∷◌ c s

-- `s or None`.
abbrev pub none_if_empty : String → Option String
none_if_empty s = if is_empty s then none else some s

-- The loop of `first_heading`.
unfoldable pub heading_of : List String → Option String
heading_of [] = none
heading_of (line ∷ lines) =
    let rest = heading_of lines in
    let stripped = strip line in
    if starts_with_hash stripped then none_if_empty (strip (lstrip_hashes stripped)) else rest

unfoldable pub first_heading : String → Option String
unfolding heading_of splitlines
first_heading content = heading_of (splitlines content)

-- `s.replace("_", " ").replace("-", " ")`.
abbrev pub spaced : String → String
spaced String.[] = ""
spaced (String.◌∷◌ c s) =
    String.◌∷◌ (if code c == b'_' || code c == b'-' then " " else c) (spaced s)

-- `parts[0]`.
abbrev pub first_part : String → String
first_part String.[] = ""
first_part (String.◌∷◌ c s) = if code c == b'/' then "" else String.◌∷◌ c (first_part s)

-- `first_heading(content) or …`.
abbrev pub heading_or : Option String → String → String
heading_or none fallback = fallback
heading_or (some heading) fallback = heading

module _ (sha256 : String → String) (title_case : String → String) where
  abbrev pub source_id_of : String → String
  source_id_of relative_path =
      if ltb 128 (str_len relative_path) then sha256 relative_path else relative_path

  unfoldable pub document_from_file : KnowledgeFile → KnowledgeDocument
  unfolding first_heading
  document_from_file f = record {
    source_type = "knowledge";
    source_id = source_id_of f.relative_path;
    title = heading_or (first_heading f.content) (title_case (spaced f.stem));
    content = f.content;
    metadata = ("path", f.relative_path) ∷ ("category", first_part f.relative_path) ∷ [];
  }
