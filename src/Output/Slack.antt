-- ===== src/Output/Slack.antt =====
-- notify/slack.py: the message that is posted for a diagnosis. The call of the web hook is the poster's.
use quellgeist.Base.{
  String, ◌==◌, string_eq, Option, none, some, List, [], ◌∷◌, ◌++◌, if◌then◌else◌,
}
use quellgeist.Agent.Schema.{Hypothesis, Diagnosis}
use quellgeist.Output.Postmortem.{Numerals, concat, join_lines, words, join_words, or_blank}

-- The Slack message of `build_payload`, whose only field is its text.
pub record Payload : Type 0 where
  pub text : String

module _ (n : Numerals) where
  unfoldable pub cause_headline : List Hypothesis → String
  cause_headline [] = "*diagnosed*"
  cause_headline (top ∷ _) = concat (
      "*root cause* — "
      ∷ join_words (words top.cause)
      ∷ " (confidence "
      ∷ n.two_digits top.confidence
      ∷ ")"
      ∷ [])

  unfoldable pub headline : Diagnosis → String
  headline d =
      if d.abstained
      then "*abstained* — insufficient verified evidence"
      else cause_headline d.hypotheses

  -- The reason of an abstention, or the summary.
  unfoldable pub detail : Diagnosis → String
  detail d = if d.abstained then or_blank d.abstention_reason else d.summary

  unfoldable pub page_line : Option String → List String
  page_line none = []
  page_line (some url) =
      if url == "" then [] else concat ("<" ∷ url ∷ "|Open the postmortem>" ∷ []) ∷ []

  unfoldable pub build_payload : Diagnosis → String → Option String → Payload
  build_payload d incident_id page_url = record {
    text = join_lines (
        concat (":rotating_light: Incident `" ∷ incident_id ∷ "` — " ∷ headline d ∷ [])
          ∷ (if detail d == "" then [] else detail d ∷ [])
        ++ page_line page_url);
  }

  -- `post_slack`: the poster is called once, with the web hook and the payload.
  module _ {ℓ} {A : Type ℓ} (poster : String → Payload → A) where
    unfoldable pub post_slack : Diagnosis → String → String → Option String → A
    post_slack d incident_id webhook_url page_url =
        poster webhook_url (build_payload d incident_id page_url)
