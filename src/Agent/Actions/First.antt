-- ===== src/Agent/Actions/First.antt =====
-- `extract_json` returns the object at the first brace where one can be read.
use Prim.Native.Char.{Char, code}
use quellgeist.Base.{
  ℕ, ◌<◌, String, ◌≡◌, ◌↔◌, ◌⊎◌, refl, ap, inl, inr, true, some, none, nat_beq, Bool-cases,
  Option-cases, arith, codes, length, sym, ◌∙◌, subst,
}
use quellgeist.Effects.{ok, raise, json_action_error}
use quellgeist.Signals.{Row}
use quellgeist.Agent.Codec.{Codec}
use quellgeist.Agent.Actions.{object_of, scan, or_action_error, extract_json}
use quellgeist.Ingest.Lines.Printed.{append}

-- An object can be read at the start of the text, which is an opening brace.
abbrev ReadsAt : Codec → String → Row → Type 0
ReadsAt codec String.[] row = ⊥
ReadsAt codec (String.◌∷◌ c s) row =
    (nat_beq (code c) b'{' ≡ true) × (object_of (codec.raw_decode (String.◌∷◌ c s)) ≡ some row)

-- No object can be read in the text, wherever it is cut.
abbrev pub NoObject : Codec → String → Type 0
NoObject codec text =
    (before rest : String) (row : Row) → append before rest ≡ text → ¬ ReadsAt codec rest row

abbrev size : String → ℕ
size s = length (codes s)

-- The object is read where the text is cut, and none can be read at an earlier cut.
abbrev pub FirstObject : Codec → String → Row → Type 0
FirstObject codec text row =
    (before : String) × (rest : String) × (append before rest ≡ text)
    × ReadsAt codec rest row
    × ((before' rest' : String) (row' : Row)
        → append before' rest' ≡ text
        → size before' < size before
        → ¬ ReadsAt codec rest' row')

cut-nothing : (rest t : String) → append "" rest ≡ t → rest ≡ t
unfolding append
cut-nothing rest t e = e

-- A text that begins with `c` is cut before it or in what follows.
cut-tail :
    (c d : Char) (before rest s : String)
    → append (String.◌∷◌ d before) rest ≡ String.◌∷◌ c s
    → append before rest ≡ s
unfolding append
cut-tail c d before rest s e = cc

cut-cons :
    (c : Char) (before rest s : String)
    → append before rest ≡ s
    → append (String.◌∷◌ c before) rest ≡ String.◌∷◌ c s
unfolding append
cut-cons c before rest s e = ap (λ u. String.◌∷◌ c u) e

-- What `scan` does at the first character: it reads there, or goes on as nothing reads there.
scan-step :
    (codec : Codec) (c : Char) (s : String)
    → ((row : Row) × ReadsAt codec (String.◌∷◌ c s) row × (scan codec (String.◌∷◌ c s) ≡ some row))
      ⊎ (((row : Row) → ¬ ReadsAt codec (String.◌∷◌ c s) row)
          × (scan codec (String.◌∷◌ c s) ≡ scan codec s))
unfolding scan
scan-step codec c s = elim (Bool-cases (nat_beq (code c) b'{')) [
  | inl brace ↦ elim (Option-cases (object_of (codec.raw_decode (String.◌∷◌ c s)))) [
    | inl nothing ↦ inr (λ r k. ground (arith, nothing, k.1), rw (brace, nothing) refl)
    | inr (r, e) ↦ inl (r, (brace, e), rw (brace, e) refl)
  ]
  | inr plain ↦ inr (λ r k. ground (arith, plain, k.0), rw plain refl)
]

scan-first :
    (codec : Codec) (t : String) (row : Row) → scan codec t ≡ some row → FirstObject codec t row
scan-first codec String.[] row h = unfold scan in absurd (cc)
scan-first codec (String.◌∷◌ c s) row h = elim (scan-step codec c s) [
  | inl (r, reads, e) ↦
      let same : r ≡ row = cc in
      (
        "",
        String.◌∷◌ c s,
        unfold append in refl,
        subst (ReadsAt codec (String.◌∷◌ c s)) same reads,
        λ before' rest' row' cut short. absurd (omega (arith, short)),
      )
  | inr (silent, e) ↦
      let (before, rest, cut, reads, earliest) = scan-first codec s row (sym e ∙ h) in
      (
        String.◌∷◌ c before,
        rest,
        cut-cons c before rest s cut,
        reads,
        earlier before silent earliest,
      )
]
  where
    earlier :
        (before : String)
        → ((r : Row) → ¬ ReadsAt codec (String.◌∷◌ c s) r)
        → ((before' rest' : String) (row' : Row)
            → append before' rest' ≡ s
            → size before' < size before
            → ¬ ReadsAt codec rest' row')
        → (before' rest' : String) (row' : Row) → append before' rest' ≡ String.◌∷◌ c s
        → size before' < size (String.◌∷◌ c before)
        → ¬ ReadsAt codec rest' row'
    earlier before silent earliest String.[] rest' row' cut short k =
        silent row' (subst (λ u. ReadsAt codec u row') (cut-nothing rest' (String.◌∷◌ c s) cut) k)
    earlier before silent earliest (String.◌∷◌ d before') rest' row' cut short k =
        earliest before' rest' row' (cut-tail c d before' rest' s cut) (omega (arith, short)) k

first-scan :
    (codec : Codec) (t before rest : String) (row : Row)
    → append before rest ≡ t
    → ReadsAt codec rest row
    → ((before' rest' : String) (row' : Row)
        → append before' rest' ≡ t
        → size before' < size before
        → ¬ ReadsAt codec rest' row')
    → scan codec t ≡ some row
first-scan codec String.[] String.[] rest row cut reads earliest =
    absurd (subst (λ u. ReadsAt codec u row) (cut-nothing rest "" cut) reads)
first-scan codec String.[] (String.◌∷◌ d before) rest row cut reads earliest =
    absurd (unfold append in cc (cut))
first-scan codec (String.◌∷◌ c s) String.[] rest row cut reads earliest =
    let here = subst (λ u. ReadsAt codec u row) (cut-nothing rest (String.◌∷◌ c s) cut) reads in
    elim (scan-step codec c s) [
      | inl (r, again, e) ↦ e ∙ sym again.1 ∙ here.1
      | inr (silent, e) ↦ absurd (silent row here)
    ]
first-scan codec (String.◌∷◌ c s) (String.◌∷◌ d before) rest row cut reads earliest =
    elim (scan-step codec c s) [
      | inl (r, sooner, e) ↦
          absurd (earliest "" (String.◌∷◌ c s) r (unfold append in refl) (omega arith) sooner)
      | inr (silent, e) ↦
          e
          ∙ first-scan codec s before rest row (cut-tail c d before rest s cut) reads
              (λ before' rest' row' cut' short.
                earliest (String.◌∷◌ c before') rest' row' (cut-cons c before' rest' s cut')
                  (omega (arith, short)))
    ]

scan-NoObject : (codec : Codec) (t : String) → scan codec t ≡ none → NoObject codec t
scan-NoObject codec String.[] e String.[] rest row cut k =
    subst (λ u. ReadsAt codec u row) (cut-nothing rest "" cut) k
scan-NoObject codec String.[] e (String.◌∷◌ d before) rest row cut k =
    unfold append in absurd (cc cut)
scan-NoObject codec (String.◌∷◌ c s) e before rest row cut k = elim (scan-step codec c s) [
  | inl (r, reads, f) ↦ absurd (cc (e, f))
  | inr (silent, f) ↦ below before silent (scan-NoObject codec s (sym f ∙ e)) cut
]
  where
    below :
        (before : String)
        → ((r : Row) → ¬ ReadsAt codec (String.◌∷◌ c s) r)
        → NoObject codec s
        → append before rest ≡ String.◌∷◌ c s
        → ⊥
    below String.[] silent later cut' =
        silent row (subst (λ u. ReadsAt codec u row) (cut-nothing rest (String.◌∷◌ c s) cut') k)
    below (String.◌∷◌ d before') silent later cut' =
        later before' rest row (cut-tail c d before' rest s cut') k

scan_iff :
    (codec : Codec) (t : String) (row : Row) → (scan codec t ≡ some row) ↔ FirstObject codec t row
scan_iff codec t row = (
  scan-first codec t row,
  λ (before, rest, cut, reads, earliest). first-scan codec t before rest row cut reads earliest,
)

-- A reply yields an object exactly if one can be read at some brace of it, and then the one at the first
-- such brace, whatever stands before it, also braces at which none can be read. If none can be read
-- anywhere in the reply, and only then, a JSONActionError is raised.
pub extract_json-first :
    (codec : Codec) (text : String)
    → ((row : Row) → (extract_json codec text ≡ ok row) ↔ FirstObject codec text row)
      × ((extract_json codec text
            ≡ raise (json_action_error "no JSON object found in model output"))
          ↔ NoObject codec text)
unfolding extract_json or_action_error
extract_json-first codec text = elim (Option-cases (scan codec text)) [
  | inl nothing ↦ (
    λ row. (
      λ e. absurd (ground (arith, nothing, e)),
      λ f. absurd (cc (nothing, (scan_iff codec text row).1 f)),
    ),
    (λ _. scan-NoObject codec text nothing, λ _. rw nothing refl),
  )
  | inr (r, found) ↦ (
    λ row. (
      λ e. (scan_iff codec text row).0 (ground (arith, found, e)),
      λ f. rw ((scan_iff codec text row).1 f) refl,
    ),
    (
      λ e. absurd (ground (arith, found, e)),
      λ silent.
          let (before, rest, cut, reads, earliest) = (scan_iff codec text r).0 found in
          absurd (silent before rest r cut reads),
    ),
  )
]
