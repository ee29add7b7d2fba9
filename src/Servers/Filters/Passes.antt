-- ===== src/Servers/Filters/Passes.antt =====
-- What the filters of a log query ask of a row, as a test and as a predicate.
use quellgeist.Base.{
  ℕ, String, ◌≡◌, ap, ◌∙◌, Bool, true, false, not, ◌&&◌, Option, none, some, List, arith,
  Bool-cases, and_iff, codes, codes_are_iff, upper, ◌↔◌, ◌⊎◌, ◌==◌, refl, eq_iff, inl, inr,
  string_eq, str_lt,
}
use quellgeist.Signals.{Value, null, bool, int, float, str, list, dict, Row, get}
use quellgeist.Servers.Filters.{value_is, level_is, normal_level, route_is}

-- The time stamp of a row is not before `since`; a row without one counts as the empty text.
abbrev pub stamped_since : String → Option Value → Bool
stamped_since since none = not (str_lt "" since)
stamped_since since (some (str t)) = not (str_lt t since)
stamped_since since (some _) = false

abbrev pub in_window : Option String → Row → Bool
in_window none row = true
in_window (some since) row = stamped_since since (get "ts" row)

abbrev pub passes : Option String → Option String → Option String → Row → Bool
passes since level route row =
    in_window since row
    && (level_is (get "level" row) (normal_level level) && route_is (get "route" row) route)

-- The time stamp is a text that does not come before `since`; a missing one counts as the empty text.
abbrev StampedSince : String → Option Value → Type 0
StampedSince since none = str_lt "" since ≡ false
StampedSince since (some v) = (t : String) × (v ≡ str t) × (str_lt t since ≡ false)

abbrev InWindow : Option String → Row → Type 0
InWindow none row = Unit
InWindow (some since) row = StampedSince since (get "ts" row)

-- An empty level asks for nothing; any other is compared in upper case, by code points.
abbrev AtLevel : Option String → Option Value → Type 0
AtLevel none o = Unit
AtLevel (some level) o =
    (level ≡ "") ⊎ ((t : String) × (o ≡ some (str t)) × (codes t ≡ upper level))

abbrev OnRoute : Option String → Option Value → Type 0
OnRoute none o = Unit
OnRoute (some route) o = o ≡ some (str route)

-- The row is what the three filters ask for.
abbrev pub Passes : Option String → Option String → Option String → Row → Type 0
Passes since level route row =
    InWindow since row × AtLevel level (get "level" row) × OnRoute route (get "route" row)

stamped_since_iff :
    (since : String) (o : Option Value) → (stamped_since since o ≡ true) ↔ StampedSince since o
stamped_since_iff since none = (λ e. ground (arith, e), λ e. ground (arith, e))
stamped_since_iff since (some (str t)) = (
  λ e. (t, refl, ground (arith, e)),
  λ (u, q, e). let same : t ≡ u = cc in ground (arith, same, e),
)
stamped_since_iff since (some null) = (λ e. absurd (cc), λ (u, q, e). absurd (cc))
stamped_since_iff since (some (bool _)) = (λ e. absurd (cc), λ (u, q, e). absurd (cc))
stamped_since_iff since (some (int _)) = (λ e. absurd (cc), λ (u, q, e). absurd (cc))
stamped_since_iff since (some (float _)) = (λ e. absurd (cc), λ (u, q, e). absurd (cc))
stamped_since_iff since (some (list _)) = (λ e. absurd (cc), λ (u, q, e). absurd (cc))
stamped_since_iff since (some (dict _)) = (λ e. absurd (cc), λ (u, q, e). absurd (cc))

in_window_iff :
    (since : Option String) (row : Row) → (in_window since row ≡ true) ↔ InWindow since row
in_window_iff none row = (λ _. tt, λ _. refl)
in_window_iff (some since) row = stamped_since_iff since (get "ts" row)

level_text_iff :
    (o : Option Value) (u : List ℕ)
    → (level_is o (some u) ≡ true) ↔ ((t : String) × (o ≡ some (str t)) × (codes t ≡ u))
unfolding level_is
level_text_iff (some (str s)) u = (
  λ e. (s, refl, (codes_are_iff s u).0 e),
  λ (t, q, e). let same : s ≡ t = cc in (codes_are_iff s u).1 (ap codes same ∙ e),
)
level_text_iff none u = (λ e. absurd (cc), λ (t, q, e). absurd (cc))
level_text_iff (some null) u = (λ e. absurd (cc), λ (t, q, e). absurd (cc))
level_text_iff (some (bool _)) u = (λ e. absurd (cc), λ (t, q, e). absurd (cc))
level_text_iff (some (int _)) u = (λ e. absurd (cc), λ (t, q, e). absurd (cc))
level_text_iff (some (float _)) u = (λ e. absurd (cc), λ (t, q, e). absurd (cc))
level_text_iff (some (list _)) u = (λ e. absurd (cc), λ (t, q, e). absurd (cc))
level_text_iff (some (dict _)) u = (λ e. absurd (cc), λ (t, q, e). absurd (cc))

level_iff :
    (level : Option String) (o : Option Value)
    → (level_is o (normal_level level) ≡ true) ↔ AtLevel level o
unfolding normal_level
level_iff none o = (λ _. tt, λ _. unfold level_is in refl)
level_iff (some level) o = elim (Bool-cases (level == "")) [
  | inl e ↦ rw e (λ _. inl ((eq_iff level "").0 e), λ _. unfold level_is in refl)
  | inr e ↦
      let text = level_text_iff o (upper level) in
      rw e (
        λ h. inr (text.0 h),
        elim [ inl q ↦ absurd (cc (e, (eq_iff level "").1 q)) | inr t ↦ text.1 t ],
      )
]

route_iff : (route : Option String) (o : Option Value) → (route_is o route ≡ true) ↔ OnRoute route o
unfolding route_is value_is
route_iff none o = (λ _. tt, λ _. refl)
route_iff (some route) (some (str s)) = (
  λ e. ap (λ t. some (str t)) ((eq_iff s route).0 e),
  λ q. let same : s ≡ route = cc in (eq_iff s route).1 same,
)
route_iff (some route) none = (λ e. absurd (cc), λ q. absurd (cc))
route_iff (some route) (some null) = (λ e. absurd (cc), λ q. absurd (cc))
route_iff (some route) (some (bool _)) = (λ e. absurd (cc), λ q. absurd (cc))
route_iff (some route) (some (int _)) = (λ e. absurd (cc), λ q. absurd (cc))
route_iff (some route) (some (float _)) = (λ e. absurd (cc), λ q. absurd (cc))
route_iff (some route) (some (list _)) = (λ e. absurd (cc), λ q. absurd (cc))
route_iff (some route) (some (dict _)) = (λ e. absurd (cc), λ q. absurd (cc))

pub passes_iff :
    (since level route : Option String) (row : Row)
    → (passes since level route row ≡ true) ↔ Passes since level route row
passes_iff since level route row =
    let w = in_window_iff since row in
    let l = level_iff level (get "level" row) in
    let r = route_iff route (get "route" row) in
    let outer = and_iff (in_window since row) _ in
    let inner =
      and_iff (level_is (get "level" row) (normal_level level))
        (route_is (get "route" row) route) in
    (
      λ e. let t = outer.0 e in let u = inner.0 t.1 in (w.0 t.0, l.0 u.0, r.0 u.1),
      λ (a, b, c). outer.1 (w.1 a, inner.1 (l.1 b, r.1 c)),
    )
