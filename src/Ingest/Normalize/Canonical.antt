-- ===== src/Ingest/Normalize/Canonical.antt =====
-- ingest/normalize.py: a log that is canonical already comes back as it was.
use quellgeist.Base.{
  String, ◌≡◌, refl, sym, ap, ℕ, Bool-cases, ◌∙◌, true, ◌==◌, string_eq, Option, none, some, List,
  [], ◌∷◌, map, if◌then◌else◌, ℤ, inl, inr, In, is_blank, strip, ◌⊎◌,
}
use quellgeist.Effects.{ok}
use quellgeist.Signals.{Value, int, str, Row, empty, field, get}
use quellgeist.Servers.Filters.Timestamp.{is_canonical_ts}
use quellgeist.Ingest.Runtime.{Runtime}
use quellgeist.Ingest.Normalize.{
  pick, lowered_key, text_of, ts_of_text, normalize_ts, normalize_level, level_of_text,
  level_synonym, coerce_status, with_route, with_status, msg_text, row_id, next_after, ts_field,
  normalize_log_row, normalize_log_rows, ts_aliases, level_aliases, route_aliases, status_aliases,
  msg_aliases,
}

-- The fields of a canonical log row; a log that is no HTTP log has no route and no status.
pub record LogFields : Type 0 where
  pub id : ℤ
  pub ts : String
  pub level : String
  pub route : Option String
  pub status : Option ℤ
  pub msg : String

abbrev with_text : Option String → Row → Row
with_text none row = row
with_text (some route) row = field "route" (str route) row

abbrev with_number : Option ℤ → Row → Row
with_number none row = row
with_number (some status) row = field "status" (int status) row

abbrev pub canonical_row : LogFields → Row
canonical_row f = field "id" (int f.id) (
    field "ts" (str f.ts) (
      field "level" (str f.level)
        (with_text f.route (with_number f.status (field "msg" (str f.msg) empty)))))

-- `str.lower` on the canonical keys and levels.
abbrev pub LowersAscii : Runtime → Type 0
LowersAscii rt =
    (rt.lower "id" ≡ "id")
    × (rt.lower "ts" ≡ "ts")
    × (rt.lower "level" ≡ "level")
    × (rt.lower "route" ≡ "route")
    × (rt.lower "status" ≡ "status")
    × (rt.lower "msg" ≡ "msg")
    × (rt.lower "ERROR" ≡ "error")
    × (rt.lower "WARNING" ≡ "warning")
    × (rt.lower "INFO" ≡ "info")
    × (rt.lower "DEBUG" ≡ "debug")

-- A time stamp that is canonical, or missing; a level of the four that the prompts use.
abbrev pub IsCanonicalLog : LogFields → Type 0
IsCanonicalLog f =
    (strip f.ts ≡ f.ts)
    × ((is_blank f.ts ≡ true) ⊎ (is_canonical_ts f.ts ≡ true))
    × In f.level ("ERROR" ∷ "WARNING" ∷ "INFO" ∷ "DEBUG" ∷ [])

blank-eq : (s : String) → is_blank s ≡ true → s ≡ ""
blank-eq String.[] h = refl
blank-eq (String.◌∷◌ c s) h = absurd (cc)

-- The lookups without `str.lower`.
plain_key : String → Row → Option String
plain_key want empty = none
plain_key want (field k v row) =
    let later = plain_key want row in
    elim later [ some j ↦ some j | none ↦ if k == want then some k else none ]

plain_pick : Row → List String → Option Value
unfolding plain_key
plain_pick row [] = none
plain_pick row (want ∷ keys) =
    let later = plain_pick row keys in
    elim (plain_key want row) [ some actual ↦ get actual row | none ↦ later ]

-- Every key of the row is in lower case.
abbrev HasLowerKeys : Runtime → Row → Type 0
HasLowerKeys rt empty = Unit
HasLowerKeys rt (field k v row) = (rt.lower k ≡ k) × HasLowerKeys rt row

lowered_key-plain :
    (rt : Runtime) (row : Row) (want : String)
    → HasLowerKeys rt row
    → lowered_key rt want row ≡ plain_key want row
unfolding lowered_key plain_key
lowered_key-plain rt empty want h = refl
lowered_key-plain rt (field k v row) want h =
    ap (λ o. elim o [ some j ↦ some j | none ↦ if rt.lower k == want then some k else none ])
      (lowered_key-plain rt row want h.1)
    ∙ ap
        (λ l. elim (plain_key want row) [
          | some j ↦ some j
          | none ↦ if l == want then some k else none
        ])
        h.0

pick-plain :
    (rt : Runtime) (row : Row)
    → HasLowerKeys rt row
    → (keys : List String) → pick rt row keys ≡ plain_pick row keys
unfolding pick plain_pick
pick-plain rt row h [] = refl
pick-plain rt row h (want ∷ keys) =
    ap (λ o. elim o [ some actual ↦ get actual row | none ↦ pick rt row keys ])
      (lowered_key-plain rt row want h)
    ∙ ap (λ o. elim (plain_key want row) [ some actual ↦ get actual row | none ↦ o ])
        (pick-plain rt row h keys)

module _ (rt : Runtime) (lowers : LowersAscii rt) where
  level_kept :
      (l : String)
      → In l ("ERROR" ∷ "WARNING" ∷ "INFO" ∷ "DEBUG" ∷ [])
      → normalize_level rt (some (str l)) ≡ l
  unfolding normalize_level text_of level_of_text level_synonym strip
  level_kept l = elim [
    | inl e ↦ rw (e, lowers.6) refl
    | inr h ↦ elim h [
      | inl e ↦ rw (e, lowers.7) refl
      | inr h ↦ elim h [
        | inl e ↦ rw (e, lowers.8) refl
        | inr h ↦ elim h [ inl e ↦ rw (e, lowers.9) refl | inr h ↦ absurd h ]
      ]
    ]
  ]

  -- What the lookups find in a canonical row.
  module _ (i : ℤ) (ts level msg : String) where
    abbrev parts : Option String → Option ℤ → Row
    parts r z =
        canonical_row (record { id = i; ts = ts; level = level; route = r; status = z; msg = msg })

    parts-lowered : (r : Option String) (z : Option ℤ) → HasLowerKeys rt (parts r z)
    parts-lowered none none = (lowers.0, (lowers.1, (lowers.2, (lowers.5, tt))))
    parts-lowered none (some n) = (lowers.0, (lowers.1, (lowers.2, (lowers.4, (lowers.5, tt)))))
    parts-lowered (some t) none = (lowers.0, (lowers.1, (lowers.2, (lowers.3, (lowers.5, tt)))))
    parts-lowered (some t) (some n) =
        (lowers.0, (lowers.1, (lowers.2, (lowers.3, (lowers.4, (lowers.5, tt))))))

    plain_picks :
        (r : Option String) (z : Option ℤ)
        → (plain_pick (parts r z) ts_aliases ≡ some (str ts))
          × (plain_pick (parts r z) level_aliases ≡ some (str level))
          × (plain_pick (parts r z) msg_aliases ≡ some (str msg))
          × (plain_pick (parts r z) route_aliases ≡ elim r [ some t ↦ some (str t) | none ↦ none ])
          × (plain_pick (parts r z) status_aliases ≡ elim z [ some n ↦ some (int n) | none ↦ none ])
    unfolding plain_pick plain_key get
    plain_picks none none = (refl, refl, refl, refl, refl)
    plain_picks none (some n) = (refl, refl, refl, refl, refl)
    plain_picks (some t) none = (refl, refl, refl, refl, refl)
    plain_picks (some t) (some n) = (refl, refl, refl, refl, refl)

    pick_part :
        (r : Option String) (z : Option ℤ) (keys : List String)
        → pick rt (parts r z) keys ≡ plain_pick (parts r z) keys
    pick_part r z = pick-plain rt (parts r z) (parts-lowered r z)

  with_route-kept :
      (r : Option String) (row : Row)
      → with_route rt (elim r [ some t ↦ some (str t) | none ↦ none ]) row ≡ with_text r row
  unfolding with_route text_of
  with_route-kept none row = refl
  with_route-kept (some t) row = refl

  with_status-kept :
      (z : Option ℤ) (row : Row)
      → with_status rt (elim z [ some n ↦ some (int n) | none ↦ none ]) row ≡ with_number z row
  unfolding with_status coerce_status
  with_status-kept none row = refl
  with_status-kept (some n) row = refl

  ts_kept : (f : LogFields) → IsCanonicalLog f → ts_field rt (some (str f.ts)) ≡ ok f.ts
  unfolding ts_field normalize_ts text_of ts_of_text
  ts_kept f c = elim c.1 [
    | inl b ↦ rw (c.0, b) (ap ok (sym (blank-eq f.ts b)))
    | inr t ↦ elim (Bool-cases (is_blank f.ts)) [
      | inl b ↦ rw (c.0, b) (ap ok (sym (blank-eq f.ts b)))
      | inr b ↦ rw (c.0, b, t) refl
    ]
  ]

  log_row_kept :
      (f : LogFields) (next : ℕ)
      → IsCanonicalLog f
      → normalize_log_row rt next (canonical_row f) ≡ ok (canonical_row f)
  unfolding normalize_log_row get row_id msg_text text_of
  log_row_kept f next c =
      let p = plain_picks f.id f.ts f.level f.msg f.route f.status in
      let same = pick_part f.id f.ts f.level f.msg f.route f.status in
      rw
        (
          same ts_aliases,
          same level_aliases,
          same msg_aliases,
          same route_aliases,
          same status_aliases,
          p.0,
          p.1,
          p.2,
          p.3,
          p.4,
          ts_kept f c,
          level_kept f.level c.2,
          with_route-kept f.route,
          with_status-kept f.status,
        )
        refl

  -- A log that is canonical already is returned as it is, whatever ids it carries.
  pub normalize_log_rows_canonical :
      (next : ℕ) (fs : List LogFields)
      → ((f : LogFields) → In f fs → IsCanonicalLog f)
      → normalize_log_rows rt next (map canonical_row fs) ≡ ok (map canonical_row fs)
  unfolding normalize_log_rows
  normalize_log_rows_canonical next [] c = refl
  normalize_log_rows_canonical next (f ∷ fs) c =
      rw
        (
          log_row_kept f next (c f (inl refl)),
          normalize_log_rows_canonical (next_after next (get "id" (canonical_row f))) fs
              (λ g h. c g (inr h)),
        )
        refl
