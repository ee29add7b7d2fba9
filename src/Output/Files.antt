-- ===== src/Output/Files.antt =====
-- output/postmortem.py and notify/html.py: which format a postmortem is written in, and the writing.
-- pathlib is a parameter: the lower-case suffix of a path, `mkdir` of its parent, and `write_text`.
use quellgeist.Base.{String, Bool, ◌||◌, ◌==◌, string_eq, Option, none, some, if◌then◌else◌}
use quellgeist.Agent.Schema.{Diagnosis}
use quellgeist.Output.Postmortem.{Numerals, render_postmortem, render_postmortem_html}

pub data Format : Type 0 where
  md html : Format

-- What pathlib does to a file system whose states are `World`; a failure is part of the outcome.
pub record Paths (World Outcome : Type 0) : Type 0 where
  pub lower_suffix : String → String
  pub write_text : String → String → World → Outcome × World
  pub make_parents : String → World → Outcome × World
  pub failed : Outcome → Bool

module _ {World Outcome : Type 0} (n : Numerals) (p : Paths World Outcome) where
  unfoldable pub resolve_format : String → Option Format → Format
  resolve_format path (some fmt) = fmt
  resolve_format path none =
      if p.lower_suffix path == ".html" || p.lower_suffix path == ".htm" then html else md

  unfoldable render_as : Format → Diagnosis → String → String
  render_as md d title = render_postmortem n d title
  render_as html d title = render_postmortem_html n d title

  unfoldable write_postmortem :
      Diagnosis → String → String → Option Format → World → Outcome × World
  write_postmortem d path title fmt w =
      p.write_text path (render_as (resolve_format path fmt) d title) w

  unfoldable pub write_html : Diagnosis → String → String → World → Outcome × World
  write_html d path title w =
      let (made, w') = p.make_parents path w in
      if p.failed made then (made, w') else p.write_text path (render_postmortem_html n d title) w'
