-- ===== src/Store/Dao/Registry.antt =====
-- store/dao.py: the table of incidents keeps what a registry by id promises.
use quellgeist.Base.{
  String, ◌≡◌, refl, sym, ap, ◌∙◌, ◌⊎◌, inl, inr, Bool, true, false, not, ◌&&◌, ◌==◌, string_eq,
  Option, none, some, List, [], ◌∷◌, ◌++◌, map, keep, any, find_first, Bool-cases, if◌then◌else◌,
  eq_iff, is_some, beq_refl,
}
use quellgeist.Effects.{Exn, Result, ok, raise}
use quellgeist.Store.Models.{Status, Incident}
use quellgeist.Store.World.{World, Action, transaction}
use quellgeist.Store.Dao.{
  has_incident, find_incident, create_incident, with_status, set_incident_status, delete_incident,
}

-- What the callers of the table know of it: which incident an id has.
abbrev pub Registry : Type 0
Registry = String → Option Incident

abbrev relabelled : Status → Option Incident → Option Incident
relabelled status none = none
relabelled status (some i) = some (record i { status = status })

-- The writes of the table.
pub data Command : Type 0 where
  create : Incident → Command
  relabel : String → Status → Command
  delete : String → Command

abbrev pub execute : Command → Action (Unit {0})
execute (create i) = create_incident i
execute (relabel id status) = set_incident_status id status
execute (delete id) = delete_incident id

-- What a registry makes of a command: an id is given once, a command for one id leaves the others.
abbrev specified : Command → Registry → Option Registry
specified (create i) r =
    if is_some (r i.id) then none else some (λ id. if id == i.id then some i else r id)
specified (relabel id status) r = some (λ j. if j == id then relabelled status (r j) else r j)
specified (delete id) r = some (λ j. if j == id then none else r j)

abbrev registry_of : World → Registry
registry_of w = λ id. find_incident id w

any-find_first : {A : Type 0} (p : A → Bool) (xs : List A) → any p xs ≡ is_some (find_first p xs)
unfolding any find_first
any-find_first p [] = refl
any-find_first p (x ∷ xs) = elim (Bool-cases (p x)) [
  | inl t ↦ rw t refl
  | inr t ↦ rw t (any-find_first p xs)
]

same_eq : (a b : String) → (a == b) ≡ true → a ≡ b
same_eq a b h = (eq_iff a b).0 h

beq_sym : (a b : String) → (a == b) ≡ (b == a)
beq_sym a b = elim (Bool-cases (a == b)) [
  | inl t ↦ t ∙ sym (ap (λ x. x == a) (sym (same_eq a b t)) ∙ beq_refl a)
  | inr f ↦ elim (Bool-cases (b == a)) [
    | inl t ↦ ap (λ x. a == x) (same_eq b a t) ∙ beq_refl a ∙ sym t
    | inr g ↦ f ∙ sym g
  ]
]

module _ (j : String) where
  found : List Incident → Option Incident
  found xs = find_first (λ k. k.id == j) xs

  find-added :
      (xs : List Incident) (i : Incident)
      → is_some (find_first (λ k. k.id == i.id) xs) ≡ false
      → found (xs ++ i ∷ []) ≡ (if j == i.id then some i else found xs)
  unfolding found find_first
  find-added [] i h = rw (beq_sym i.id j) refl
  find-added (x ∷ xs) i h = elim (Bool-cases (x.id == i.id)) [
    | inl t ↦ absurd (cc (rw t at h))
    | inr f ↦ elim (Bool-cases (x.id == j)) [
      | inl t ↦ rw (t, sym (ap (λ y. y == i.id) (same_eq x.id j t)) ∙ f) refl
      | inr g ↦ rw g (find-added xs i (rw f at h))
    ]
  ]

  find-relabelled :
      (id : String) (status : Status) (xs : List Incident)
      → found (map (with_status id status) xs)
        ≡ (if j == id then relabelled status (found xs) else found xs)
  unfolding found find_first
  find-relabelled id status [] = elim (Bool-cases (j == id)) [
    | inl t ↦ rw t refl
    | inr f ↦ rw f refl
  ]
  find-relabelled id status (x ∷ xs) =
      let ih = find-relabelled id status xs in
      elim (Bool-cases (x.id == j)) [
        | inl t ↦
            let same = ap (λ y. y == id) (same_eq x.id j t) in
            elim (Bool-cases (j == id)) [
              | inl u ↦ rw (same ∙ u, t, u) refl
              | inr g ↦ rw (same ∙ g, t, g) refl
            ]
        | inr f ↦ elim (Bool-cases (x.id == id)) [ inl u ↦ rw (u, f) ih | inr g ↦ rw (g, f) ih ]
      ]

  find-kept :
      (id : String) (xs : List Incident)
      → found (keep (λ k. not (k.id == id)) xs) ≡ (if j == id then none else found xs)
  unfolding found find_first keep
  find-kept id [] = elim (Bool-cases (j == id)) [ inl t ↦ rw t refl | inr f ↦ rw f refl ]
  find-kept id (x ∷ xs) =
      let ih = find-kept id xs in
      elim (Bool-cases (x.id == j)) [
        | inl t ↦
            let same = ap (λ y. y == id) (same_eq x.id j t) in
            elim (Bool-cases (j == id)) [
              | inl u ↦ rw (same ∙ u, u) (rw u at ih)
              | inr g ↦ rw (same ∙ g, t, g) refl
            ]
        | inr f ↦ elim (Bool-cases (x.id == id)) [ inl u ↦ rw (u, f) ih | inr g ↦ rw (g, f) ih ]
      ]

-- A refused command leaves the registry as it was; an executed one makes of it what is specified, and
-- is one that the specification accepts.
abbrev pub Refines : Command → World → Result (Unit {0}) × World → Type 0
Refines c w (r, after) =
    ((e : Exn) × (r ≡ raise e) × ((j : String) → registry_of after j ≡ registry_of w j))
    ⊎ ((r ≡ ok tt)
        × ((next : Registry) × (specified c (registry_of w) ≡ some next)
            × ((j : String) → registry_of after j ≡ next j)))

-- Every write of the table of incidents refines the registry: it raises and leaves it alone, or does
-- what the registry specifies for it, which accepts it.
pub execute-Refines : (c : Command) (w : World) → Refines c w (execute c w)
unfolding create_incident set_incident_status delete_incident transaction has_incident find_incident
    found
execute-Refines (create i) w = elim (Bool-cases (w.faults w.transactions)) [
  | inl v ↦ rw v (inl (_, refl, λ j. refl))
  | inr v ↦ elim (Bool-cases (any (λ k. k.id == i.id) w.incidents)) [
    | inl t ↦ rw (v, t) (inl (_, refl, λ j. refl))
    | inr f ↦
        let fresh = sym (any-find_first (λ k. k.id == i.id) w.incidents) ∙ f in
        rw (v, f) (inr (refl, (_, rw fresh refl, λ j. find-added j w.incidents i fresh)))
  ]
]
execute-Refines (relabel id status) w = elim (Bool-cases (w.faults w.transactions)) [
  | inl v ↦ rw v (inl (_, refl, λ j. refl))
  | inr v ↦ rw v (inr (refl, (_, refl, λ j. find-relabelled j id status w.incidents)))
]
execute-Refines (delete id) w = elim (Bool-cases (w.faults w.transactions)) [
  | inl v ↦ rw v (inl (_, refl, λ j. refl))
  | inr v ↦ elim (Bool-cases (has_incident id w && any (λ r. r.incident_id == id) w.runs)) [
    | inl t ↦ rw (v, t) (inl (_, refl, λ j. refl))
    | inr f ↦ rw (v, f) (inr (refl, (_, refl, λ j. find-kept j id w.incidents)))
  ]
]
