-- ===== src/Ingest/Deploys/RoundTrip.antt =====
-- ingest/sources.py: a printed git log reads back.
use Prim.Native.Char.{code}
use mathlib.Core.List.{append_assoc, append-nil}
use quellgeist.Base.{
  String, nat_beq, Bool-cases, ◌≡◌, refl, sym, ap, ◌∙◌, true, false, none, some, List, [], ◌∷◌,
  ◌++◌, map, is_blank, strip, flat_map, inl, inr, In, In-append, arith,
}
use quellgeist.Ingest.Lines.{is_break, split_on, has_code}
use quellgeist.Ingest.Lines.Printed.{append, is_one_line, print_lines, splitlines-print_lines}
use quellgeist.Ingest.Deploys.{
  GitCommit, commit_row, header_of, add_file, closed, read_git_lines, from_git_log_text,
}

-- The lines that `git log --pretty=format:%H%x1f%cI%x1f%s --name-only` prints for a commit, with the
-- blank line after them.
pub header_text : GitCommit → String
unfolding append
header_text c = append c.sha (String.◌∷◌ "\u{1f}" (append c.ts (String.◌∷◌ "\u{1f}" c.msg)))

abbrev pub print_log : List GitCommit → String
print_log cs = print_lines (flat_map (λ c. header_text c ∷ c.files ++ "" ∷ []) cs)

-- A text that git prints within a line: no line ends in it, it holds no unit separator, and no white
-- space surrounds it.
abbrev IsPlain : String → Type 0
IsPlain s = (is_one_line s ≡ true) × (has_code 0x1f s ≡ false) × (strip s ≡ s)

abbrev pub IsPrintable : GitCommit → Type 0
IsPrintable c =
    IsPlain c.sha
    × IsPlain c.ts
    × IsPlain c.msg
    × ((name : String) → In name c.files → IsPlain name × (is_blank name ≡ false))

split_on-append :
    (s t : String)
    → has_code 0x1f s ≡ false
    → split_on 0x1f (append s (String.◌∷◌ "\u{1f}" t)) ≡ s ∷ split_on 0x1f t
unfolding split_on append has_code
split_on-append String.[] t h = refl
split_on-append (String.◌∷◌ c s) t h = elim (Bool-cases (nat_beq (code c) 0x1f)) [
  | inl e ↦ absurd (cc (rw e at h))
  | inr e ↦ rw (e, split_on-append s t (rw e at h)) refl
]

split_on-whole : (s : String) → has_code 0x1f s ≡ false → split_on 0x1f s ≡ s ∷ []
unfolding split_on has_code
split_on-whole String.[] h = refl
split_on-whole (String.◌∷◌ c s) h = ground (arith, split_on-whole s)

has_code-append : (s t : String) → has_code 0x1f (append s (String.◌∷◌ "\u{1f}" t)) ≡ true
unfolding has_code append
has_code-append String.[] t = refl
has_code-append (String.◌∷◌ c s) t = ground (arith, has_code-append s t)

is_one_line-append :
    (s t : String)
    → is_one_line s ≡ true
    → is_one_line t ≡ true
    → is_one_line (append s (String.◌∷◌ "\u{1f}" t)) ≡ true
unfolding is_one_line append is_break
is_one_line-append String.[] t h k = k
is_one_line-append (String.◌∷◌ c s) t h k = ground (arith, is_one_line-append s t)

-- A commit before its files are read.
abbrev unfiled : GitCommit → List String → GitCommit
unfiled c files = record { sha = c.sha; ts = c.ts; msg = c.msg; files = files }

header_of-header_text :
    (c : GitCommit) → IsPrintable c → header_of (header_text c) ≡ some (unfiled c [])
unfolding header_of header_text
header_of-header_text c h =
    let sha = h.0 in
    let ts = h.1 in
    let msg = h.2 in
    rw
      (
        has_code-append c.sha (append c.ts (String.◌∷◌ "\u{1f}" c.msg)),
        split_on-append c.sha (append c.ts (String.◌∷◌ "\u{1f}" c.msg)) sha.1,
        split_on-append c.ts c.msg ts.1,
        split_on-whole c.msg msg.1,
        sha.2,
        ts.2,
        msg.2,
      )
      refl

header_of-file : (name : String) → has_code 0x1f name ≡ false → header_of name ≡ none
unfolding header_of
header_of-file name h = rw h refl

-- The lines of the files join the current commit, until the blank line.
read_git_lines-files :
    (c : GitCommit) (before files rest : List String)
    → ((name : String) → In name files → IsPlain name × (is_blank name ≡ false))
    → read_git_lines (some (unfiled c before)) (files ++ "" ∷ rest)
      ≡ unfiled c (before ++ files) ∷ read_git_lines none rest
unfolding read_git_lines header_of has_code split_on add_file closed strip
read_git_lines-files c before [] rest h =
    ap (λ l. unfiled c l ∷ read_git_lines none rest) (sym (append-nil before))
read_git_lines-files c before (name ∷ files) rest h =
    let here = h name (inl refl) in
    rw (read_git_lines, header_of-file name here.0.1, here.0.2, here.1)
      (ap (λ n. read_git_lines (add_file n (some (unfiled c before))) (files ++ "" ∷ rest)) here.0.2
        ∙ read_git_lines-files c (before ++ name ∷ []) files rest (λ other k. h other (inr k))
        ∙ ap (λ l. unfiled c l ∷ read_git_lines none rest) (append_assoc before (name ∷ []) files))

log_lines : List GitCommit → List String
log_lines cs = flat_map (λ c. header_text c ∷ c.files ++ "" ∷ []) cs

read_git_lines-log :
    (cs : List GitCommit)
    → ((c : GitCommit) → In c cs → IsPrintable c)
    → read_git_lines none (log_lines cs) ≡ cs
unfolding log_lines flat_map read_git_lines closed
read_git_lines-log [] h = refl
read_git_lines-log (c ∷ cs) h =
    let here = h c (inl refl) in
    rw (read_git_lines, header_of-header_text c here)
      (ap (read_git_lines (some (unfiled c []))) (append_assoc c.files ("" ∷ []) (log_lines cs))
        ∙ read_git_lines-files c [] c.files (log_lines cs) here.3
        ∙ ap (λ l. c ∷ l) (read_git_lines-log cs (λ d k. h d (inr k))))

one_line-lines :
    (c : GitCommit)
    → IsPrintable c
    → (line : String) → In line (header_text c ∷ c.files ++ "" ∷ [])
    → is_one_line line ≡ true
unfolding header_text is_one_line
one_line-lines c h line = elim [
  | inl e ↦ rw e (
      is_one_line-append c.sha (append c.ts (String.◌∷◌ "\u{1f}" c.msg)) h.0.0
        (is_one_line-append c.ts c.msg h.1.0 h.2.0))
  | inr k ↦ elim ((In-append line c.files ("" ∷ [])).0 k) [
    | inl m ↦ (h.3 line m).0.0
    | inr m ↦ elim m [ inl e ↦ rw e refl | inr n ↦ absurd n ]
  ]
]

-- A printed git log of commits whose fields are plain reads back as those commits, in order.
pub from_git_log_text-print_log :
    (cs : List GitCommit)
    → ((c : GitCommit) → In c cs → IsPrintable c)
    → from_git_log_text (print_log cs) ≡ map commit_row cs
unfolding from_git_log_text log_lines flat_map
from_git_log_text-print_log cs h =
    ap (λ lines. map commit_row (read_git_lines none lines))
      (splitlines-print_lines (log_lines cs) (all_one_line cs h))
    ∙ ap (map commit_row) (read_git_lines-log cs h)
  where
    all_one_line :
        (ds : List GitCommit)
        → ((c : GitCommit) → In c ds → IsPrintable c)
        → (line : String) → In line (log_lines ds)
        → is_one_line line ≡ true
    all_one_line [] k line m = absurd m
    all_one_line (d ∷ ds) k line m =
        elim ((In-append line (header_text d ∷ d.files ++ "" ∷ []) (log_lines ds)).0 m) [
          | inl n ↦ one_line-lines d (k d (inl refl)) line n
          | inr n ↦ all_one_line ds (λ c p. k c (inr p)) line n
        ]
