-- ===== src/Ingest/Lines/Printed.antt =====
-- The lines of a printed text are what was printed.
use Prim.Native.Char.{code}
use quellgeist.Base.{
  String, ◌≡◌, refl, ap, ◌∙◌, Bool, true, not, ◌&&◌, List, [], ◌∷◌, inl, inr, In, Bool-cases,
}
use quellgeist.Ingest.Lines.{is_break, splitlines}

-- Texts one after the other.
unfoldable pub append : String → String → String
append String.[] t = t
append (String.◌∷◌ c s) t = String.◌∷◌ c (append s t)

-- No line ends within the text.
unfoldable pub is_one_line : String → Bool
unfolding is_break
is_one_line String.[] = true
is_one_line (String.◌∷◌ c s) = not (is_break (code c)) && is_one_line s

-- Each text on a line of its own.
unfoldable pub print_lines : List String → String
unfolding append
print_lines [] = String.[]
print_lines (s ∷ ss) = append s (String.◌∷◌ "\n" (print_lines ss))

splitlines-line :
    (s t : String)
    → is_one_line s ≡ true
    → splitlines (append s (String.◌∷◌ "\n" t)) ≡ s ∷ splitlines t
unfolding splitlines append is_one_line
splitlines-line String.[] t h = refl
splitlines-line (String.◌∷◌ c s) t h = elim (Bool-cases (is_break (code c))) [
  | inl e ↦ absurd (cc (rw e at h))
  | inr e ↦ rw (e, splitlines-line s t (rw e at h)) refl
]

pub splitlines-print_lines :
    (lines : List String)
    → ((line : String) → In line lines → is_one_line line ≡ true)
    → splitlines (print_lines lines) ≡ lines
unfolding print_lines splitlines
splitlines-print_lines [] h = refl
splitlines-print_lines (line ∷ lines) h =
    splitlines-line line (print_lines lines) (h line (inl refl))
    ∙ ap (λ l. line ∷ l) (splitlines-print_lines lines (λ other k. h other (inr k)))
