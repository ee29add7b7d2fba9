-- ===== src/Orchestrator/ToolsFactory/Real.antt =====
-- orchestrator/tools_factory.py: what the tools of an incident show is what its citation check reads.
use Prim.Native.Nat.{zero, suc}
use quellgeist.Base.{
  ℕ, String, ◌≡◌, refl, sym, ap, ◌∙◌, subst, ◌⊎◌, ◌-◌, Bool, Option, none, some, List, [], ◌∷◌, map,
  keep, take, drop, last_n, length, ltb, nat_beq, not, ◌&&◌, ℤ, pos, negsuc, Bool-cases,
  if◌then◌else◌, inl, inr, In, In-keep,
}
use quellgeist.Effects.{Result, ok, >>=-eq-ok, ok-injective}
use quellgeist.Signals.{Value, Row, get, Key}
use quellgeist.Agent.Schema.{Kind, log, commit, metric}
use quellgeist.Agent.Citations.Exact.{Offers, IsReal}
use quellgeist.Ingest.Runtime.{Runtime}
use quellgeist.Servers.Filters.{
  select, insert_row, newest_first, take_limit, recent_commits, is_recent, check_since, check_limit,
  filter_log_rows, filter_metric_rows, route_is, value_lt, sort_key,
}
use quellgeist.Servers.Filters.Exact.{filter_log_rows-keep, filter_series_names}
use quellgeist.Servers.Filters.Passes.{passes}
use quellgeist.Servers.Tools.{Host, cap_points}
use quellgeist.Servers.Tools.Bounds.{cap_points_lem}
use quellgeist.Orchestrator.Investigate.{Signals}
use quellgeist.Orchestrator.ToolsFactory.Agree.{shorten-cap_each}
use quellgeist.Orchestrator.ToolsFactory.{
  snapshot_deploy, snapshot_metrics, shorten, snapshot_rows, read_json_array, read_signals,
  logs_closure, commits_closure, metrics_closure, only_keys, text_arg, int_arg,
}

-- The field of a row that holds a handle.
abbrev handle_field : Kind → String
handle_field log = "id"
handle_field commit = "sha"
handle_field metric = "metric"

-- Each row of a list is a row of another.
abbrev Within : List Row → List Row → Type 0
Within xs ys = (row : Row) → In row xs → In row ys

Offers-Within :
    (name : String) (xs ys : List Row) (k : Key)
    → Within xs ys
    → Offers name xs k
    → Offers name ys k
Offers-Within name xs ys k w o = (o.0, w o.0 o.1, o.2)

In-drop : (n : ℕ) (xs : List Row) → Within (drop n xs) xs
In-drop zero xs row h = h
In-drop (suc n) [] row h = h
In-drop (suc n) (x ∷ xs) row h = inr (In-drop n xs row h)

In-take : (n : ℕ) (xs : List Row) → Within (take n xs) xs
In-take zero xs row h = absurd h
In-take (suc n) [] row h = h
In-take (suc n) (x ∷ xs) row h = elim h [ inl e ↦ inl e | inr k ↦ inr (In-take n xs row k) ]

In-take_limit : (limit : Option ℤ) (xs : List Row) → Within (take_limit limit xs) xs
unfolding take_limit
In-take_limit none xs row h = h
In-take_limit (some (pos n)) xs row h = In-take n xs row h
In-take_limit (some (negsuc n)) xs row h = h

In-select : (test : Row → Result Bool) (xs out : List Row) → select test xs ≡ ok out → Within out xs
unfolding select
In-select test [] out e row h = subst (In row) (sym (ok-injective e)) h
In-select test (x ∷ xs) out e row h =
    let b = >>=-eq-ok (test x) _ e in
    let r = >>=-eq-ok (select test xs) _ b.2 in
    let k : In row (if b.0 then x ∷ r.0 else r.0) = subst (In row) (sym (ok-injective r.2)) h in
    elim (Bool-cases b.0) [
      | inl t ↦ elim (rw t at k) [ inl q ↦ inl q | inr m ↦ inr (In-select test xs r.0 r.1 row m) ]
      | inr t ↦ inr (In-select test xs r.0 r.1 row (rw t at k))
    ]

In-insert_row :
    (x : Row) (xs out : List Row)
    → insert_row x xs ≡ ok out
    → (row : Row) → In row out
    → (row ≡ x) ⊎ In row xs
unfolding insert_row
In-insert_row x [] out e row h = subst (In row) (sym (ok-injective e)) h
In-insert_row x (y ∷ ys) out e row h =
    let b = >>=-eq-ok (value_lt (sort_key x) (sort_key y)) _ e in
    elim (Bool-cases b.0) [
      | inl t ↦
          let r = >>=-eq-ok (insert_row x ys) _ (rw t at b.2) in
          elim (subst (In row) (sym (ok-injective r.2)) h) [
            | inl q ↦ inr (inl q)
            | inr m ↦ elim (In-insert_row x ys r.0 r.1 row m) [
              | inl q ↦ inl q
              | inr k ↦ inr (inr k)
            ]
          ]
      | inr t ↦ subst (In row) (sym (ok-injective (rw t at b.2))) h
    ]

In-newest_first : (xs out : List Row) → newest_first xs ≡ ok out → Within out xs
unfolding newest_first
In-newest_first [] out e row h = subst (In row) (sym (ok-injective e)) h
In-newest_first (x ∷ xs) out e row h =
    let r = >>=-eq-ok (newest_first xs) _ e in
    elim (In-insert_row x r.0 out r.2 row h) [
      | inl q ↦ inl q
      | inr m ↦ inr (In-newest_first xs r.0 r.1 row m)
    ]

In-recent_commits :
    (xs : List Row) (since : Option String) (limit : Option ℤ) (out : List Row)
    → recent_commits xs since limit ≡ ok out
    → Within out xs
unfolding recent_commits
In-recent_commits xs since limit out e row h =
    let a = >>=-eq-ok (check_since since) _ e in
    let b = >>=-eq-ok (check_limit limit) _ a.2 in
    let c = >>=-eq-ok (select (is_recent since) xs) _ b.2 in
    let d = >>=-eq-ok (newest_first c.0) _ c.2 in
    In-select (is_recent since) xs c.0 c.1 row (
      In-newest_first c.0 d.0 d.1 row
        (In-take_limit limit d.0 row (subst (In row) (sym (ok-injective d.2)) h)))

Offers-map :
    (name : String) (xs ys : List Row) (k : Key)
    → ((v : Value) → In (some v) (map (get name) xs) → In (some v) (map (get name) ys))
    → Offers name xs k
    → Offers name ys k
Offers-map name xs ys k w o =
    let v = o.2.0 in
    let at_row = found ys v (w v (listed xs o.0 v o.1 o.2.1)) in
    (at_row.0, at_row.1, (v, at_row.2, o.2.2))
  where
    listed :
        (zs : List Row) (row : Row) (v : Value)
        → In row zs
        → get name row ≡ some v
        → In (some v) (map (get name) zs)
    listed [] row v h e = absurd h
    listed (z ∷ zs) row v h e = elim h [
      | inl q ↦ inl (sym e ∙ ap (get name) q)
      | inr m ↦ inr (listed zs row v m e)
    ]

    found :
        (zs : List Row) (v : Value)
        → In (some v) (map (get name) zs)
        → (row : Row) × In row zs × (get name row ≡ some v)
    found [] v h = absurd h
    found (z ∷ zs) v h = elim h [
      | inl q ↦ (z, inl refl, sym q)
      | inr m ↦ let t = found zs v m in (t.0, inr t.1, t.2)
    ]

module _ (rt : Runtime) (host : Host) (within : String → String → String) where
  logs_real :
      (dir : String) (cap : ℕ) (args : Row) (all_rows rows : List Row)
      → snapshot_rows rt host within dir ≡ ok all_rows
      → logs_closure rt host within dir cap args ≡ ok rows
      → Within rows all_rows
  unfolding logs_closure
  logs_real dir cap args all_rows rows s e row h =
      let a = >>=-eq-ok (only_keys ("since" ∷ "level" ∷ "route" ∷ []) args) _ e in
      let b = >>=-eq-ok (text_arg "since" args) _ a.2 in
      let c = >>=-eq-ok (text_arg "level" args) _ b.2 in
      let d = >>=-eq-ok (text_arg "route" args) _ c.2 in
      let r = >>=-eq-ok (snapshot_rows rt host within dir) _ d.2 in
      let f = >>=-eq-ok (filter_log_rows r.0 b.0 c.0 d.0) _ r.2 in
      let exact = filter_log_rows-keep r.0 b.0 c.0 d.0 f.0 f.1 in
      let kept : In row (keep (passes b.0 c.0 d.0) r.0) =
        subst (In row) exact.0 (capped f.0 (subst (In row) (sym (ok-injective f.2)) h)) in
      subst (In row) (ok-injective (sym r.1 ∙ s)) ((In-keep row _ r.0).0 kept).0
    where
      capped :
          (xs : List Row)
          → In row (if not (nat_beq cap 0) && ltb cap (length xs) then last_n cap xs else xs)
          → In row xs
      capped xs k = elim (Bool-cases (not (nat_beq cap 0) && ltb cap (length xs))) [
        | inl t ↦ In-drop (length xs - cap) xs row (rw t at k)
        | inr t ↦ rw t at k
      ]

  commits_real :
      (dir : String) (args : Row) (commits rows : List Row)
      → read_json_array rt host within (host.disk (within dir snapshot_deploy)) ≡ ok commits
      → commits_closure rt host within dir args ≡ ok rows
      → Within rows commits
  unfolding commits_closure
  commits_real dir args commits rows s e row h =
      let a = >>=-eq-ok (only_keys ("since" ∷ "limit" ∷ []) args) _ e in
      let b = >>=-eq-ok (text_arg "since" args) _ a.2 in
      let c = >>=-eq-ok (int_arg "limit" args) _ b.2 in
      let r =
        >>=-eq-ok (read_json_array rt host within (host.disk (within dir snapshot_deploy))) _ c.2 in
      subst (In row) (ok-injective (sym r.1 ∙ s)) (In-recent_commits r.0 b.0 c.0 rows r.2 row h)

  metrics_real :
      (dir : String) (cap : ℕ) (args : Row) (metrics rows : List Row)
      → read_json_array rt host within (host.disk (within dir snapshot_metrics)) ≡ ok metrics
      → metrics_closure rt host within dir cap args ≡ ok rows
      → (k : Key) → Offers "metric" rows k
      → Offers "metric" metrics k
  unfolding metrics_closure filter_metric_rows
  metrics_real dir cap args metrics rows s e k offers =
      let a = >>=-eq-ok (only_keys ("name" ∷ "since" ∷ []) args) _ e in
      let b = >>=-eq-ok (text_arg "name" args) _ a.2 in
      let c = >>=-eq-ok (text_arg "since" args) _ b.2 in
      let r =
        >>=-eq-ok (read_json_array rt host within (host.disk (within dir snapshot_metrics))) _
          c.2 in
      let f = >>=-eq-ok (filter_metric_rows r.0 b.0 c.0) _ r.2 in
      let g = >>=-eq-ok (check_since c.0) _ f.1 in
      let names : map (get "metric") rows
          ≡ map (get "metric") (keep (λ s. route_is (get "metric" s) b.0) r.0) =
        (shortened f.0 f.2) ∙ filter_series_names b.0 c.0 r.0 f.0 g.2 in
      subst (λ l. Offers "metric" l k) (ok-injective (sym r.1 ∙ s))
        (Offers-Within "metric" (keep (λ s. route_is (get "metric" s) b.0) r.0) r.0 k
          (λ row h. ((In-keep row _ r.0).0 h).0)
          (Offers-map "metric" rows (keep (λ s. route_is (get "metric" s) b.0) r.0) k
            (λ v h. subst (In (some v)) names h) offers))
    where
      shortened :
          (series : List Row)
          → (if nat_beq cap 0 then ok series else shorten cap series) ≡ ok rows
          → map (get "metric") rows ≡ map (get "metric") series
      shortened series h =
          unfold cap_points in
          (cap_points_lem cap series rows (
            ap (λ l. if nat_beq cap 0 then ok series else l) (sym (shorten-cap_each cap series))
            ∙ h)).0

  -- What the tool for a kind of handle answers.
  abbrev answer_of : Kind → String → ℕ → Row → Result (List Row)
  answer_of log dir cap args = logs_closure rt host within dir cap args
  answer_of commit dir cap args = commits_closure rt host within dir args
  answer_of metric dir cap args = metrics_closure rt host within dir cap args

  -- A handle read off a row that a tool of the incident shows is a signal to the citation check: the id
  -- of a log row, the sha of a commit, the name of a metric series, whatever the arguments and the cap.
  pub incident_tools-IsReal :
      (kind : Kind) (dir : String) (cap : ℕ) (args : Row) (rows : List Row) (s : Signals) (k : Key)
      → read_signals rt host within dir ≡ ok s
      → answer_of kind dir cap args ≡ ok rows
      → Offers (handle_field kind) rows k
      → IsReal s.logs s.commits (some s.metrics) (kind, k)
  unfolding read_signals
  incident_tools-IsReal kind dir cap args rows s k e t o =
      let l = >>=-eq-ok (snapshot_rows rt host within dir) _ e in
      let c =
        >>=-eq-ok (read_json_array rt host within (host.disk (within dir snapshot_deploy))) _ l.2 in
      let m =
        >>=-eq-ok (read_json_array rt host within (host.disk (within dir snapshot_metrics))) _
          c.2 in
      subst (λ (x : Signals). IsReal x.logs x.commits (some x.metrics) (kind, k)) (ok-injective m.2)
        (by_kind kind l.0 c.0 m.0 l.1 c.1 m.1 t o)
    where
      by_kind :
          (kind : Kind) (logs commits metrics : List Row)
          → snapshot_rows rt host within dir ≡ ok logs
          → read_json_array rt host within (host.disk (within dir snapshot_deploy)) ≡ ok commits
          → read_json_array rt host within (host.disk (within dir snapshot_metrics)) ≡ ok metrics
          → answer_of kind dir cap args ≡ ok rows
          → Offers (handle_field kind) rows k
          → IsReal logs commits (some metrics) (kind, k)
      by_kind log logs commits metrics p q r t o =
          Offers-Within "id" rows logs k (logs_real dir cap args logs rows p t) o
      by_kind commit logs commits metrics p q r t o =
          Offers-Within "sha" rows commits k (commits_real dir args commits rows q t) o
      by_kind metric logs commits metrics p q r t o = metrics_real dir cap args metrics rows r t k o
