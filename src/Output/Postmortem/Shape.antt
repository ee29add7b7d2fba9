-- ===== src/Output/Postmortem/Shape.antt =====
-- output/postmortem.py: the tags of a page follow from the shape of its diagnosis.
use mathlib.Core.List.{append_assoc}
use quellgeist.Base.{
  ℕ, zero, suc, String, ◌≡◌, refl, sym, ap, ◌∙◌, Bool, ◌==◌, string_eq, List, [], ◌∷◌, ◌++◌, map,
  length, Bool-cases, inl, inr, ℤ, pos, if◌then◌else◌, keep,
}
use quellgeist.Signals.{Number}
use quellgeist.Agent.Schema.{Hypothesis, Diagnosis}
use quellgeist.Output.Postmortem.{
  Numerals, Piece, markup, escaped, lines_joined, hypothesis_html, action_html, html_body,
  html_pieces, render_postmortem_html, render_evidence,
}
use quellgeist.Output.Postmortem.Escaped.{angles, template_angles, angles-page_text}

-- A number is printed without an angle bracket.
abbrev PrintsPlain : Numerals → Type 0
PrintsPlain n =
    ((z : ℤ) → angles (n.show_int z) ≡ []) × ((f : Number) → angles (n.two_digits f) ≡ [])

unfoldable pub evidence_count : Hypothesis → ℕ
evidence_count h = length h.evidence

-- Two diagnoses with the same parts: both with or without a summary, both abstained or not, with as many
-- hypotheses that have as many handles each, and as many actions.
unfoldable pub SameShape : Diagnosis → Diagnosis → Type 0
SameShape d e =
    ((d.summary == "") ≡ (e.summary == ""))
    × (d.abstained ≡ e.abstained)
    × (map evidence_count d.hypotheses ≡ map evidence_count e.hypotheses)
    × (length d.suggested_actions ≡ length e.suggested_actions)

line_angles : List (List Piece) → List ℕ
line_angles [] = []
line_angles (l ∷ ls) = template_angles l ++ line_angles ls

template_angles-append :
    (ps qs : List Piece) → template_angles (ps ++ qs) ≡ template_angles ps ++ template_angles qs
template_angles-append [] qs = refl
template_angles-append (markup m ∷ ps) qs =
    ap (λ l. angles m ++ l) (template_angles-append ps qs)
    ∙ sym (append_assoc (angles m) (template_angles ps) (template_angles qs))
template_angles-append (escaped t ∷ ps) qs = template_angles-append ps qs

append_nil : (xs : List ℕ) → xs ++ [] ≡ xs
append_nil [] = refl
append_nil (x ∷ xs) = ap (λ l. x ∷ l) (append_nil xs)

lines_joined-angles : (ls : List (List Piece)) → template_angles (lines_joined ls) ≡ line_angles ls
unfolding lines_joined line_angles keep
lines_joined-angles [] = refl
lines_joined-angles (l ∷ []) = sym (append_nil (template_angles l))
lines_joined-angles (l ∷ m ∷ ls) =
    template_angles-append l (markup "\n" ∷ lines_joined (m ∷ ls))
    ∙ ap (λ r. template_angles l ++ r) (lines_joined-angles (m ∷ ls))

line_angles-append :
    (ks ls : List (List Piece)) → line_angles (ks ++ ls) ≡ line_angles ks ++ line_angles ls
unfolding line_angles
line_angles-append [] ls = refl
line_angles-append (k ∷ ks) ls =
    ap (λ r. template_angles k ++ r) (line_angles-append ks ls)
    ∙ sym (append_assoc (template_angles k) (line_angles ks) (line_angles ls))

-- As many times the angle brackets of an item of a list.
items : ℕ → List ℕ → List ℕ
items zero tags = []
items (suc k) tags = tags ++ items k tags

item_lines :
    {X : Type 0} (open_tag close_tag : String) (f : X → String) (xs : List X)
    → line_angles (map (λ x. markup open_tag ∷ escaped (f x) ∷ markup close_tag ∷ []) xs)
      ≡ items (length xs) (angles open_tag ++ (angles close_tag ++ []))
unfolding line_angles items
item_lines open_tag close_tag f [] = refl
item_lines open_tag close_tag f (x ∷ xs) =
    ap (λ r. angles open_tag ++ (angles close_tag ++ []) ++ r) (item_lines open_tag close_tag f xs)

-- The angle brackets of the hypotheses, by how many handles each has.
hypothesis_angles : List ℕ → List ℕ
hypothesis_angles [] = []
hypothesis_angles (k ∷ ks) =
    angles "<h3><span></span></h3><p></p><ul>"
    ++ (items k (angles "<li></li>") ++ (angles "</ul>" ++ hypothesis_angles ks))

module _ (n : Numerals) (plain : PrintsPlain n) where
  hypothesis_html-angles :
      (i : ℕ) (hs : List Hypothesis)
      → line_angles (hypothesis_html n i hs) ≡ hypothesis_angles (map evidence_count hs)
  unfolding hypothesis_html line_angles hypothesis_angles evidence_count keep
  hypothesis_html-angles i [] = refl
  hypothesis_html-angles i (h ∷ hs) =
      let lines =
        map
          (λ ref.
            markup "<li class=\"handle\">" ∷ escaped (render_evidence n ref) ∷ markup "</li>" ∷ [])
          h.evidence in
      rw (plain.0 (pos i), plain.1 h.confidence)
        (ap (λ r. angles "<h3><span></span></h3><p></p><ul>" ++ r)
          (line_angles-append lines ((markup "</ul>" ∷ []) ∷ hypothesis_html n (suc i) hs)
            ∙ ap (λ r. r ++ line_angles ((markup "</ul>" ∷ []) ∷ hypothesis_html n (suc i) hs))
                (item_lines "<li class=\"handle\">" "</li>" (render_evidence n) h.evidence)
            ∙ ap (λ r. items (evidence_count h) (angles "<li></li>") ++ (angles "</ul>" ++ r))
                (hypothesis_html-angles (suc i) hs)))

  action_angles : ℕ → List ℕ
  action_angles zero = []
  action_angles (suc k) =
      angles "<h2></h2><ul>" ++ (items (suc k) (angles "<li></li>") ++ angles "</ul>")

  action_html-angles :
      (as' : List String) → line_angles (action_html n as') ≡ action_angles (length as')
  unfolding action_html action_angles line_angles keep
  action_html-angles [] = refl
  action_html-angles (a ∷ as') =
      ap (λ r. angles "<h2></h2><ul>" ++ r)
        (line_angles-append (map (λ x. markup "<li>" ∷ escaped x ∷ markup "</li>" ∷ []) (a ∷ as'))
            ((markup "</ul>" ∷ []) ∷ [])
          ∙ ap (λ r. r ++ angles "</ul>") (item_lines "<li>" "</li>" (λ x. x) (a ∷ as')))

  -- The angle brackets of the body, by the shape of the diagnosis.
  body_angles : Bool → Bool → List ℕ → ℕ → List ℕ
  body_angles blank abstained counts actions =
      angles "<h1></h1>"
      ++ ((if blank then [] else angles "<h2></h2><p></p>")
          ++ (if abstained
              then angles "<h2></h2><div><p></p><p></p></div>"
              else angles "<h2></h2>" ++ (hypothesis_angles counts ++ action_angles actions)))

  html_body-angles :
      (title : String) (d : Diagnosis)
      → line_angles (html_body n title d)
        ≡ body_angles
            (d.summary == "")
            d.abstained
            (map evidence_count d.hypotheses)
            (length d.suggested_actions)
  unfolding html_body body_angles line_angles keep
  html_body-angles title d = elim (Bool-cases (d.summary == "")) [
    | inl s ↦ elim (Bool-cases d.abstained) [
      | inl a ↦ rw (s, a) refl
      | inr a ↦ rw (s, a) (ap (λ r. angles "<h1></h1><h2></h2>" ++ r) parts)
    ]
    | inr s ↦ elim (Bool-cases d.abstained) [
      | inl a ↦ rw (s, a) refl
      | inr a ↦ rw (s, a) (ap (λ r. angles "<h1></h1><h2></h2><p></p><h2></h2>" ++ r) parts)
    ]
  ]
    where
      parts :
          line_angles (hypothesis_html n 1 d.hypotheses ++ action_html n d.suggested_actions)
          ≡ hypothesis_angles (map evidence_count d.hypotheses)
            ++ action_angles (length d.suggested_actions)
      parts =
          line_angles-append (hypothesis_html n 1 d.hypotheses) (action_html n d.suggested_actions)
          ∙ ap (λ r. r ++ line_angles (action_html n d.suggested_actions))
              (hypothesis_html-angles 1 d.hypotheses)
          ∙ ap (λ r. hypothesis_angles (map evidence_count d.hypotheses) ++ r)
              (action_html-angles d.suggested_actions)

  -- Two pages whose diagnoses have one shape have the same angle brackets in the same order, whatever
  -- the causes, notes, actions, summaries, reasons and titles say: no such text opens or closes a tag.
  pub render_postmortem_html_shape :
      (d e : Diagnosis) (title other : String)
      → SameShape d e
      → angles (render_postmortem_html n d title) ≡ angles (render_postmortem_html n e other)
  unfolding render_postmortem_html html_pieces SameShape
  render_postmortem_html_shape d e title other same =
      angles-page_text (html_pieces n d title)
      ∙ whole
      ∙ sym (angles-page_text (html_pieces n e other))
    where
      bodies : line_angles (html_body n title d) ≡ line_angles (html_body n other e)
      bodies =
          html_body-angles title d
          ∙ ap
              (λ b.
                body_angles b d.abstained (map evidence_count d.hypotheses)
                  (length d.suggested_actions))
              same.0
          ∙ ap
              (λ b.
                body_angles (e.summary == "") b (map evidence_count d.hypotheses)
                  (length d.suggested_actions))
              same.1
          ∙ ap
              (λ counts.
                body_angles (e.summary == "") e.abstained counts (length d.suggested_actions))
              same.2
          ∙ ap (body_angles (e.summary == "") e.abstained (map evidence_count e.hypotheses)) same.3
          ∙ sym (html_body-angles other e)

      tails :
          template_angles (lines_joined (html_body n title d) ++ markup "\n</body>\n</html>\n" ∷ [])
          ≡ template_angles
              (lines_joined (html_body n other e) ++ markup "\n</body>\n</html>\n" ∷ [])
      tails =
          template_angles-append (lines_joined (html_body n title d)) _
          ∙ ap (λ r. r ++ template_angles (markup "\n</body>\n</html>\n" ∷ []))
              (lines_joined-angles (html_body n title d)
                ∙ bodies
                ∙ sym (lines_joined-angles (html_body n other e)))
          ∙ sym (template_angles-append (lines_joined (html_body n other e)) _)

      whole : template_angles (html_pieces n d title) ≡ template_angles (html_pieces n e other)
      whole = rw tails refl
