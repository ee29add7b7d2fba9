-- ===== src/Tests/Output.antt =====
-- Tests of the output package's theorems, and of the package on a small diagnosis.
use quellgeist.Base.{String, ◌≡◌, refl, false, none, some, [], ◌∷◌, pos}
use quellgeist.Signals.{finite}
use quellgeist.Agent.Schema.{Diagnosis, log_ref, commit_ref}
use quellgeist.Output.Postmortem.{
  Numerals, html_pieces, render_postmortem_html, words, join_words, render_evidence,
}
use quellgeist.Output.Postmortem.Escaped.{angles}
use quellgeist.Output.Postmortem.Shape.{SameShape, render_postmortem_html_shape}
use quellgeist.Output.Files.{Paths, resolve_format, md, html}
use quellgeist.Output.Slack.{post_slack, build_payload, headline, detail, page_line}
use quellgeist.Tests.Samples.{diagnosis, silent}

abbrev numerals : Numerals
numerals = record { show_int = λ z. "7"; two_digits = λ f. "0.50" }

words_of : join_words (words " a \n b  c") ≡ "a b c"
unfolding words join_words quellgeist.Base.is_space quellgeist.Ingest.Lines.Printed.append
words_of = refl

cited : render_evidence numerals (commit_ref "abc" "the deploy") ≡ "commit abc — the deploy"
unfolding render_evidence quellgeist.Output.Postmortem.with_note quellgeist.Output.Postmortem.concat
    quellgeist.Ingest.Lines.Printed.append
cited = refl

abbrev hostile : Diagnosis
hostile = record {
  summary = "</p><script>";
  abstained = false;
  abstention_reason = none;
  hypotheses =
      record {
        cause = "<b>";
        confidence = finite (record { mantissa = pos 1; scale = 0 });
        evidence = log_ref (pos 1) "<i>" ∷ commit_ref "&lt;" "" ∷ [];
      }
      ∷ [];
  suggested_actions = [];
}

render_postmortem_html_shape_example :
    angles (render_postmortem_html numerals diagnosis "Incident")
    ≡ angles (render_postmortem_html numerals hostile "<script>")
unfolding SameShape quellgeist.Base.keep quellgeist.Output.Postmortem.Shape.evidence_count
render_postmortem_html_shape_example =
    render_postmortem_html_shape numerals (λ z. refl, λ f. refl) diagnosis hostile "Incident"
      "<script>" (refl, refl, refl, refl)

posted :
    (post_slack numerals (λ url p. p.text) silent "i1" "hook" (some "http://x"))
    ≡ ":rotating_light: Incident `i1` — *abstained* — insufficient verified evidence\nno\n<http://x|Open the postmortem>"
unfolding post_slack build_payload headline detail page_line quellgeist.Output.Postmortem.concat
    quellgeist.Output.Postmortem.join_lines quellgeist.Ingest.Lines.Printed.append
posted = refl

-- A file system that keeps the last text written.
abbrev disk : Paths String String
disk = record {
  lower_suffix = λ path. ".htm";
  write_text = λ path text w. (path, text);
  make_parents = λ path w. (path, w);
  failed = λ o. false;
}

asked_for_html : resolve_format numerals disk "a.HTM" none ≡ html
unfolding resolve_format
asked_for_html = refl

told_markdown : resolve_format numerals disk "a.HTM" (some md) ≡ md
unfolding resolve_format
told_markdown = refl
