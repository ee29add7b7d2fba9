-- ===== src/Ingest/Deploys.antt =====
-- ingest/sources.py: a deploy log, as JSON or as `git log` text, becomes canonical commits.
pub mod RoundTrip
use quellgeist.Base.{
  ℕ, String, Bool, true, false, ◌||◌, Option, none, some, List, [], ◌∷◌, ◌++◌, map, is_blank,
  if◌then◌else◌, strip,
}
use quellgeist.Effects.{Result, ok, raise, type_error, ◌>>=◌}
use quellgeist.Signals.{
  Value, null, bool, int, float, str, list, dict, nil, cons, Row, empty, field, get, to_list,
  of_list,
}
use quellgeist.Ingest.Runtime.{Runtime}
use quellgeist.Ingest.Normalize.{truthy, normalize_commits}
use quellgeist.Ingest.Metrics.{get_or}
use quellgeist.Ingest.Lines.{splitlines, split_on, has_code, starts_with}
use quellgeist.Ingest.Sources.{Source, missing, file, directory, ReadResult}

-- A commit of a `git log` text.
pub record GitCommit : Type 0 where
  pub sha : String
  pub ts : String
  pub msg : String
  pub files : List String

unfoldable pub commit_row : GitCommit → Row
commit_row c = field "sha" (str c.sha) (
    field "ts" (str c.ts)
      (field "msg" (str c.msg) (field "files" (list (of_list (map str c.files))) empty)))

-- The commit that a header line begins: three parts or more between unit separators.
header_of : String → Option GitCommit
header_of line =
    if has_code 0x1f line
    then elim (split_on 0x1f line) [
      | (sha ∷ ts ∷ msg ∷ _) ↦
          some (record { sha = strip sha; ts = strip ts; msg = strip msg; files = [] })
      | _ ↦ none
    ]
    else none

-- `current["files"].append(name)`, if there is a current commit.
add_file : String → Option GitCommit → Option GitCommit
add_file name none = none
add_file name (some c) =
    some (record { sha = c.sha; ts = c.ts; msg = c.msg; files = c.files ++ name ∷ [] })

-- The current commit, which nothing will be appended to any more.
pub closed : Option GitCommit → List GitCommit
closed none = []
closed (some c) = c ∷ []

-- The loop over the lines, with the current commit.
read_git_lines : Option GitCommit → List String → List GitCommit
read_git_lines current [] = closed current
read_git_lines current (line ∷ lines) = elim (header_of line) [
  | some c ↦ closed current ++ read_git_lines (some c) lines
  | none ↦ elim (is_blank (strip line)) [
    | true ↦ closed current ++ read_git_lines none lines
    | false ↦ read_git_lines (add_file (strip line) current) lines
  ]
]

pub from_git_log_text : String → List Row
from_git_log_text text = map commit_row (read_git_lines none (splitlines text))

-- `a or b`.
unfoldable or_else : Value → Value → Value
or_else a b = if truthy a then a else b

-- `[f.get("filename") for f in files if isinstance(f, dict)]`; the keys of a dict and the characters
-- of a text are no dicts.
unfoldable file_names : List Value → List Value
file_names [] = []
file_names (dict f ∷ fs) = get_or "filename" null f ∷ file_names fs
file_names (_ ∷ fs) = file_names fs

unfoldable file_names_of : Option Value → Result (List Value)
file_names_of none = ok []
file_names_of (some (list vs)) = ok (file_names (to_list vs))
file_names_of (some (dict _)) = ok []
file_names_of (some (str _)) = ok []
file_names_of (some _) = raise (type_error "object is not iterable")

-- `author.get("date") if isinstance(author, dict) else ""`.
unfoldable author_date : Value → Value
author_date (dict author) = get_or "date" null author
author_date _ = str ""

unfoldable flatten_nested : Row → Row → Result Row
flatten_nested item inner = do
  let author =
      or_else (get_or "author" null inner) (or_else (get_or "committer" null inner) (dict empty))
  files ← file_names_of (get "files" item)
  ok (
      field "sha" (or_else (get_or "sha" null item) (or_else (get_or "id" null item) (str ""))) (
        field "ts" (or_else (get_or "date" null inner) (author_date author)) (
          field "msg" (get_or "message" (str "") inner)
            (field "files" (list (of_list files)) empty))))

unfoldable flatten_item : Row → Result Row
flatten_item item = elim (get "commit" item) [
  | some (dict inner) ↦ flatten_nested item inner
  | _ ↦ ok item
]

unfoldable flatten_commit_dicts : List Value → Result (List Row)
flatten_commit_dicts [] = ok []
flatten_commit_dicts (dict item ∷ items) = do
  row ← flatten_item item
  rest ← flatten_commit_dicts items
  ok (row ∷ rest)
flatten_commit_dicts (_ ∷ items) = flatten_commit_dicts items

-- `data.get("commits") or data.get("data") or [data]` for a dict.
unfoldable payload_items : Value → Value
payload_items (dict d) =
    or_else (get_or "commits" null d) (or_else (get_or "data" null d) (list (cons (dict d) nil)))
payload_items v = v

unfoldable json_commits : Option Value → Result (List Row)
json_commits none = ok []
json_commits (some v) = elim (payload_items v) [
  | list items ↦ flatten_commit_dicts (to_list items)
  | _ ↦ ok []
]

module _ (rt : Runtime) where
  -- The raw commits of a text; white space in front of a bracket does not count.
  unfoldable raw_commits : String → Result (List Row)
  raw_commits text =
      if starts_with b'[' (strip text) || starts_with b'{' (strip text)
      then json_commits (rt.loads text)
      else ok (from_git_log_text text)

  -- A path that is a directory cannot be read as a text, and is not given here.
  unfoldable read_deploy_text : Option String → Result ReadResult
  read_deploy_text none = ok (record { rows = []; skipped = 0; coerced = 0; files = 0 })
  read_deploy_text (some text) = do
    raw ← raw_commits text
    rows ← normalize_commits rt raw
    ok (record { rows = rows; skipped = 0; coerced = 0; files = 1 })
