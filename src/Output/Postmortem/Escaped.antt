-- ===== src/Output/Postmortem/Escaped.antt =====
-- output/postmortem.py: what the dynamic text of a page can do to it.
use Prim.Native.Char.{Char, code}
use quellgeist.Base.{
  ℕ, String, ◌≡◌, refl, ap, ◌∙◌, Bool, false, ◌||◌, List, [], ◌∷◌, ◌++◌, keep, codes, nat_beq,
  Bool-cases, inl, inr,
}
use quellgeist.Ingest.Lines.Printed.{append}
use quellgeist.Output.Postmortem.{Piece, markup, escaped, esc, piece_text, page_text}

-- The angle brackets of a text, in order.
abbrev is_angle : ℕ → Bool
is_angle c = nat_beq c b'<' || nat_beq c b'>'

abbrev pub angles : String → List ℕ
angles s = keep is_angle (codes s)

-- The angle brackets of the template's pieces, in order.
abbrev pub template_angles : List Piece → List ℕ
template_angles [] = []
template_angles (markup m ∷ ps) = angles m ++ template_angles ps
template_angles (escaped t ∷ ps) = template_angles ps

angles-append : (s t : String) → angles (append s t) ≡ angles s ++ angles t
unfolding append keep
angles-append String.[] t = refl
angles-append (String.◌∷◌ c s) t = elim (Bool-cases (is_angle (code c))) [
  | inl e ↦ rw e (ap (λ l. code c ∷ l) (angles-append s t))
  | inr e ↦ rw e (angles-append s t)
]

angles-other :
    (c : Char) (s : String) → is_angle (code c) ≡ false → angles (String.◌∷◌ c s) ≡ angles s
unfolding keep
angles-other c s h = rw h refl

angles-esc : (s : String) → angles (esc s) ≡ []
unfolding esc append keep
angles-esc String.[] = refl
angles-esc (String.◌∷◌ c s) = elim (Bool-cases (nat_beq (code c) b'&')) [
  | inl e ↦ rw e (angles-esc s)
  | inr e ↦ elim (Bool-cases (nat_beq (code c) b'<')) [
    | inl f ↦ rw (e, f) (angles-esc s)
    | inr f ↦ elim (Bool-cases (nat_beq (code c) b'>')) [
      | inl g ↦ rw (e, f, g) (angles-esc s)
      | inr g ↦ rw (e, f, g) (angles-other c (esc s) (rw (f, g) refl) ∙ angles-esc s)
    ]
  ]
]

pub angles-page_text : (ps : List Piece) → angles (page_text ps) ≡ template_angles ps
unfolding page_text piece_text
angles-page_text [] = unfold keep in refl
angles-page_text (markup m ∷ ps) =
    angles-append m (page_text ps) ∙ ap (λ l. angles m ++ l) (angles-page_text ps)
angles-page_text (escaped t ∷ ps) =
    angles-append (esc t) (page_text ps)
    ∙ ap (λ l. l ++ angles (page_text ps)) (angles-esc t)
    ∙ angles-page_text ps
