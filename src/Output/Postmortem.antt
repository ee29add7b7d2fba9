-- ===== src/Output/Postmortem.antt =====
-- output/postmortem.py: a diagnosis as Markdown and as HTML, without writing the file. A page is given
-- as the pieces of its text: those of the template, and those that are escaped.
pub mod Escaped
pub mod Shape
use Prim.Native.Char.{code}
use quellgeist.Base.{
  ℕ, suc, ◌+◌, String, Bool, true, false, not, ◌==◌, string_eq, Option, none, some, List, [], ◌∷◌,
  ◌++◌, map, flat_map, ℤ, pos, nat_beq, is_blank, is_space, rstrip, if◌then◌else◌,
}
use quellgeist.Signals.{Number}
use quellgeist.Agent.Schema.{
  EvidenceRef, log_ref, commit_ref, metric_ref, Hypothesis, Diagnosis, is_empty,
}
use quellgeist.Ingest.Lines.{cons_first}
use quellgeist.Ingest.Lines.Printed.{append}

-- How Python prints an int and a float with two digits after the point.
pub record Numerals : Type 0 where
  pub show_int : ℤ → String
  pub two_digits : Number → String

-- `"".join(texts)` and `"\n".join(lines)`.
unfoldable pub concat : List String → String
concat [] = ""
concat (s ∷ ss) = append s (concat ss)

unfoldable pub join_lines : List String → String
join_lines [] = ""
join_lines (s ∷ []) = s
join_lines (s ∷ t ∷ ss) = append s (append "\n" (join_lines (t ∷ ss)))

abbrev starts_word : String → Bool
starts_word String.[] = false
starts_word (String.◌∷◌ c s) = not (is_space (code c))

-- `text.split()`.
unfoldable pub words : String → List String
words String.[] = []
words (String.◌∷◌ c s) =
    let rest = words s in
    if is_space (code c)
    then rest
    else if starts_word s
    then cons_first c rest
    else String.◌∷◌ c "" ∷ rest

-- `" ".join(words)`.
unfoldable pub join_words : List String → String
join_words [] = ""
join_words (s ∷ []) = s
join_words (s ∷ t ∷ ss) = append s (append " " (join_words (t ∷ ss)))

-- `html.escape(text, quote=False)`.
esc : String → String
esc String.[] = ""
esc (String.◌∷◌ c s) =
    let rest = esc s in
    if nat_beq (code c) b'&'
    then append "&amp;" rest
    else if nat_beq (code c) b'<'
    then append "&lt;" rest
    else if nat_beq (code c) b'>'
    then append "&gt;" rest
    else String.◌∷◌ c rest

abbrev style_lines : List String
style_lines =
    ":root { color-scheme: light dark; }" ∷ "* { box-sizing: border-box; }" ∷ "body {"
    ∷ "  font: 16px/1.6 -apple-system, BlinkMacSystemFont, \"Segoe UI\", Roboto, sans-serif;"
    ∷ "  max-width: 46rem; margin: 2rem auto; padding: 0 1rem;"
    ∷ "  color: #1a1a1a; background: #fff;" ∷ "}" ∷ "h1 { font-size: 1.6rem; margin: 0 0 1rem; }"
    ∷ "h2 { font-size: 1.2rem; margin: 2rem 0 .5rem; border-bottom: 1px solid #e5e5e5; padding-bottom: .25rem; }"
    ∷ "h3 { font-size: 1.05rem; margin: 1.5rem 0 .25rem; }"
    ∷ ".confidence { font-weight: 400; color: #666; font-size: .9em; }"
    ∷ ".evidence-label { margin: .25rem 0; color: #444; }"
    ∷ "ul { margin: .25rem 0 1rem; padding-left: 1.5rem; }" ∷ "li { margin: .15rem 0; }"
    ∷ "code, .handle { font-family: ui-monospace, SFMono-Regular, Menlo, monospace; }"
    ∷ ".abstain { border-left: 4px solid #c99a00; padding-left: 1rem; }"
    ∷ "@media (prefers-color-scheme: dark) {" ∷ "  body { color: #e6e6e6; background: #16181c; }"
    ∷ "  h2 { border-bottom-color: #2c2f36; }" ∷ "  .confidence { color: #9aa0aa; }"
    ∷ "  .evidence-label { color: #b8bcc4; }" ∷ "}" ∷ "" ∷ []

-- A piece of a page: text of the template, or dynamic text, which is escaped.
pub data Piece : Type 0 where
  markup : String → Piece
  escaped : String → Piece

piece_text : Piece → String
piece_text (markup m) = m
piece_text (escaped t) = esc t

pub page_text : List Piece → String
page_text [] = ""
page_text (p ∷ ps) = append (piece_text p) (page_text ps)

-- The pieces of lines, with a line feed between them.
lines_joined : List (List Piece) → List Piece
lines_joined [] = []
lines_joined (line ∷ []) = line
lines_joined (line ∷ next ∷ rest) = line ++ markup "\n" ∷ lines_joined (next ∷ rest)

abbrev around : String → String → String → List Piece
around open_tag text close_tag = markup open_tag ∷ escaped text ∷ markup close_tag ∷ []

abbrev tag : String → List Piece
tag text = markup text ∷ []

abbrev pub or_blank : Option String → String
or_blank none = ""
or_blank (some s) = s

-- `f"{diagnosis.abstention_reason}"`.
abbrev or_none : Option String → String
or_none none = "None"
or_none (some s) = s

module _ (n : Numerals) where
  unfoldable pub with_note : String → String → String
  with_note head note = if note == "" then head else concat (head ∷ " — " ∷ note ∷ [])

  unfoldable pub render_evidence : EvidenceRef → String
  render_evidence (commit_ref sha note) = with_note (append "commit " sha) note
  render_evidence (metric_ref id note) = with_note (append "metric " id) note
  render_evidence (log_ref id note) = with_note (append "log #" (n.show_int id)) note

  unfoldable summary_lines : Diagnosis → List String
  summary_lines d = if d.summary == "" then [] else "## Summary" ∷ d.summary ∷ "" ∷ []

  unfoldable hypothesis_lines : ℕ → List Hypothesis → List String
  hypothesis_lines i [] = []
  hypothesis_lines i (h ∷ hs) =
      concat (
          "### "
          ∷ n.show_int (pos i)
          ∷ ". "
          ∷ join_words (words h.cause)
          ∷ "  (confidence: "
          ∷ n.two_digits h.confidence
          ∷ ")"
          ∷ [])
        ∷ ""
        ∷ "Evidence:"
        ∷ map (λ ref. append "- " (render_evidence ref)) h.evidence
      ++ "" ∷ hypothesis_lines (suc i) hs

  unfoldable action_lines : List String → List String
  action_lines [] = []
  action_lines (a ∷ as') =
      "## Suggested actions" ∷ "" ∷ map (λ x. append "- " x) (a ∷ as') ++ "" ∷ []

  -- The lines of the Markdown, before they are joined.
  unfoldable markdown_lines : String → Diagnosis → List String
  markdown_lines title d =
      append "# " title ∷ "" ∷ summary_lines d
      ++ (if d.abstained
          then "## Insufficient evidence"
            ∷ "The agent did not find enough evidence to name a confident root cause."
            ∷ ""
            ∷ append "Reason: " (or_none d.abstention_reason)
            ∷ ""
            ∷ []
          else "## Root-cause hypotheses" ∷ "" ∷ hypothesis_lines 1 d.hypotheses
            ++ action_lines d.suggested_actions)

  unfoldable pub render_postmortem : Diagnosis → String → String
  unfolding markdown_lines summary_lines hypothesis_lines action_lines
  render_postmortem d title = append (rstrip (join_lines (markdown_lines title d))) "\n"

  hypothesis_html : ℕ → List Hypothesis → List (List Piece)
  hypothesis_html i [] = []
  hypothesis_html i (h ∷ hs) =
      (markup "<h3>"
          ∷ markup (n.show_int (pos i))
          ∷ markup ". "
          ∷ escaped h.cause
          ∷ markup " <span class=\"confidence\">(confidence: "
          ∷ markup (n.two_digits h.confidence)
          ∷ markup ")</span></h3>"
          ∷ [])
        ∷ tag "<p class=\"evidence-label\">Evidence:</p>"
        ∷ tag "<ul>"
        ∷ map (λ ref. around "<li class=\"handle\">" (render_evidence ref) "</li>") h.evidence
      ++ tag "</ul>" ∷ hypothesis_html (suc i) hs

  action_html : List String → List (List Piece)
  action_html [] = []
  action_html (a ∷ as') =
      tag "<h2>Suggested actions</h2>" ∷ tag "<ul>" ∷ map (λ x. around "<li>" x "</li>") (a ∷ as')
      ++ tag "</ul>" ∷ []

  html_body : String → Diagnosis → List (List Piece)
  html_body title d =
      around "<h1>" title "</h1>"
        ∷ (if d.summary == ""
            then []
            else tag "<h2>Summary</h2>" ∷ around "<p>" d.summary "</p>" ∷ [])
      ++ (if d.abstained
          then tag "<h2>Insufficient evidence</h2>"
            ∷ tag "<div class=\"abstain\">"
            ∷ tag "<p>The agent did not find enough evidence to name a confident root cause.</p>"
            ∷ around "<p>Reason: " (or_blank d.abstention_reason) "</p>"
            ∷ tag "</div>"
            ∷ []
          else tag "<h2>Root-cause hypotheses</h2>" ∷ hypothesis_html 1 d.hypotheses
            ++ action_html d.suggested_actions)

  pub html_pieces : Diagnosis → String → List Piece
  html_pieces d title =
      markup "<!doctype html>\n"
        ∷ markup "<html lang=\"en\">\n<head>\n<meta charset=\"utf-8\">\n"
        ∷ markup "<meta name=\"viewport\" content=\"width=device-width, initial-scale=1\">\n"
        ∷ markup "<title>"
        ∷ escaped title
        ∷ markup "</title>\n"
        ∷ markup "<style>\n"
        ∷ markup (join_lines style_lines)
        ∷ markup "</style>\n</head>\n<body>\n"
        ∷ lines_joined (html_body title d)
      ++ markup "\n</body>\n</html>\n" ∷ []

  pub render_postmortem_html : Diagnosis → String → String
  render_postmortem_html d title = page_text (html_pieces d title)
