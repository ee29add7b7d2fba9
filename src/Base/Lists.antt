-- ===== src/Base/Lists.antt =====
-- Lists as Python lists and as finite sets: membership, comprehensions, the set operations.
use Prim.Native.Nat.{ℕ, zero, suc, ◌+◌, ◌-◌, ◌≤◌}
use mathlib.Core.Path.{◌≡◌, refl, ap, sym, ◌∙◌}
use mathlib.Core.Logic.{◌↔◌, ◌⊎◌, inl, inr}
use mathlib.Core.Bool.{Bool, true, false, not, ◌&&◌, ◌||◌}
use mathlib.Core.Option.{Option, none, some}
use mathlib.Core.List.{List, [], ◌∷◌, ◌++◌}
use native.Mathlib.Omega.{arith}
use quellgeist.Base.Tests.{Eq, ◌==◌, if◌then◌else◌, Bool-cases}

module _ {ℓ} {A : Type ℓ} where
  abbrev pub length : List A → ℕ
  length [] = 0
  length (x ∷ xs) = suc (length xs)

  -- `xs[-n:]` for a positive `n`, with `xs[:n]` and `xs[n:]`.
  abbrev pub take : ℕ → List A → List A
  take zero xs = []
  take (suc n) [] = []
  take (suc n) (x ∷ xs) = x ∷ take n xs

  abbrev pub drop : ℕ → List A → List A
  drop zero xs = xs
  drop (suc n) [] = []
  drop (suc n) (x ∷ xs) = drop n xs

  abbrev pub last_n : ℕ → List A → List A
  last_n n xs = drop (length xs - n) xs

  -- `xs[-1] if xs else None`.
  abbrev pub get_last? : List A → Option A
  get_last? [] = none
  get_last? (x ∷ []) = some x
  get_last? (x ∷ y ∷ ys) = get_last? (y ∷ ys)

  -- `[x for x in xs if p(x)]`.
  unfoldable pub keep : (A → Bool) → List A → List A
  keep p [] = []
  keep p (x ∷ xs) = let rest = keep p xs in if p x then x ∷ rest else rest

  unfoldable pub any : (A → Bool) → List A → Bool
  any p [] = false
  any p (x ∷ xs) = p x || any p xs

  unfoldable pub all : (A → Bool) → List A → Bool
  all p [] = true
  all p (x ∷ xs) = p x && all p xs

  unfoldable pub find_first : (A → Bool) → List A → Option A
  find_first p [] = none
  find_first p (x ∷ xs) = let rest = find_first p xs in if p x then some x else rest

module _ {A : Type 0} where
  -- Membership as a statement, by recursion.
  abbrev pub In : A → List A → Type 0
  In a [] = ⊥
  In a (x ∷ xs) = (a ≡ x) ⊎ In a xs

  pub In-append : (a : A) (xs ys : List A) → In a (xs ++ ys) ↔ (In a xs ⊎ In a ys)
  In-append a [] ys = (λ h. inr h, elim [ inl e ↦ absurd e | inr h ↦ h ])
  In-append a (x ∷ xs) ys = (
    elim [
      | inl e ↦ inl (inl e)
      | inr h ↦ elim ((In-append a xs ys).0 h) [ inl k ↦ inl (inr k) | inr k ↦ inr k ]
    ],
    elim [
      | inl h ↦ elim h [ inl e ↦ inl e | inr k ↦ inr ((In-append a xs ys).1 (inl k)) ]
      | inr k ↦ inr ((In-append a xs ys).1 (inr k))
    ],
  )

  pub In-keep : (a : A) (p : A → Bool) (xs : List A) → In a (keep p xs) ↔ (In a xs × (p a ≡ true))
  unfolding keep
  In-keep a p [] = (λ h. absurd h, λ h. h.0)
  In-keep a p (x ∷ xs) = elim (Bool-cases (p x)) [
    | inl e ↦ rw e (
      elim [ inl q ↦ (inl q, ap p q ∙ e) | inr h ↦ let k = (In-keep a p xs).0 h in (inr k.0, k.1) ],
      λ h. elim h.0 [ inl q ↦ inl q | inr k ↦ inr ((In-keep a p xs).1 (k, h.1)) ],
    )
    | inr e ↦ rw e (
      λ h. let k = (In-keep a p xs).0 h in (inr k.0, k.1),
      λ h. elim h.0 [
        | inl q ↦ absurd (clash (p x) e (sym (ap p q) ∙ h.1))
        | inr k ↦ (In-keep a p xs).1 (k, h.1)
      ],
    )
  ]
    where
      clash : (b : Bool) → b ≡ false → b ≡ true → ⊥
      clash b e f = cc

  pub any_iff :
      (p : A → Bool) (xs : List A) → (any p xs ≡ true) ↔ ((x : A) × In x xs × (p x ≡ true))
  unfolding any
  any_iff p [] = (λ h. cc, λ h. absurd h.1)
  any_iff p (x ∷ xs) = elim (Bool-cases (p x)) [
    | inl e ↦ rw e (λ h. (x, inl refl, e), λ h. refl)
    | inr e ↦ rw e (
      λ h. let k = (any_iff p xs).0 h in (k.0, inr k.1, k.2),
      λ h. elim h.1 [
        | inl q ↦ absurd (clash (p x) e (sym (ap p q) ∙ h.2))
        | inr k ↦ (any_iff p xs).1 (h.0, k, h.2)
      ],
    )
  ]
    where
      clash : (b : Bool) → b ≡ false → b ≡ true → ⊥
      clash b e f = cc

  pub all_iff : (p : A → Bool) (xs : List A) → (all p xs ≡ true) ↔ ((x : A) → In x xs → p x ≡ true)
  unfolding all
  all_iff p [] = (λ h x k. absurd k, λ h. refl)
  all_iff p (x ∷ xs) = elim (Bool-cases (p x)) [
    | inl e ↦ rw e (
      λ h y. elim [ inl q ↦ ap p q ∙ e | inr k ↦ (all_iff p xs).0 h y k ],
      λ h. (all_iff p xs).1 (λ y k. h y (inr k)),
    )
    | inr e ↦ rw e (λ h. cc, λ h. sym e ∙ h x (inl refl))
  ]

  pub any-append : (p : A → Bool) (xs ys : List A) → any p (xs ++ ys) ≡ (any p xs || any p ys)
  unfolding any
  any-append p [] ys = refl
  any-append p (x ∷ xs) ys = ground (arith, any-append p xs ys)

  pub length-keep-le : (p : A → Bool) (xs : List A) → length (keep p xs) ≤ length xs
  unfolding keep
  length-keep-le p [] = omega arith
  length-keep-le p (x ∷ xs) = ground (arith, length-keep-le p xs)

  pub length-append : (xs ys : List A) → length (xs ++ ys) ≡ length xs + length ys
  length-append [] ys = omega arith
  length-append (x ∷ xs) ys = omega (arith, length-append xs ys)

  pub get_last?-append : (xs : List A) (y : A) → get_last? (xs ++ y ∷ []) ≡ some y
  get_last?-append [] y = refl
  get_last?-append (x ∷ []) y = refl
  get_last?-append (x ∷ z ∷ zs) y = get_last?-append (z ∷ zs) y

-- Finite sets as lists: `x in s`, `a - b`, `a & b`.
module _ {A : Type 0} ⦃e : Eq A⦄ where
  unfoldable pub contains : List A → A → Bool
  contains [] a = false
  contains (x ∷ xs) a = a == x || contains xs a

  unfoldable pub diff : List A → List A → List A
  diff xs ys = keep (λ x. not (contains ys x)) xs

  unfoldable pub inter : List A → List A → List A
  inter xs ys = keep (λ x. contains ys x) xs

  pub contains_iff : (xs : List A) (a : A) → (contains xs a ≡ true) ↔ In a xs
  unfolding contains
  contains_iff [] a = (λ h. cc, λ h. absurd h)
  contains_iff (x ∷ xs) a = elim (Bool-cases (a == x)) [
    | inl t ↦ rw t (λ _. inl ((e.beq_iff a x).0 t), λ _. refl)
    | inr t ↦ rw t (
      λ h. inr ((contains_iff xs a).0 h),
      elim [
        | inl q ↦ absurd (clash (e.beq a x) t ((e.beq_iff a x).1 q))
        | inr k ↦ (contains_iff xs a).1 k
      ],
    )
  ]
    where
      clash : (b : Bool) → b ≡ false → b ≡ true → ⊥
      clash b e f = cc

  pub not-contains_iff : (xs : List A) (a : A) → (not (contains xs a) ≡ true) ↔ ¬ In a xs
  not-contains_iff xs a = elim (Bool-cases (contains xs a)) [
    | inl t ↦ (λ h. absurd (cc), λ h. absurd (h ((contains_iff xs a).0 t)))
    | inr t ↦ (λ h k. cc ((contains_iff xs a).1 k), λ h. rw t)
  ]

  pub In-diff : (a : A) (xs ys : List A) → In a (diff xs ys) ↔ (In a xs × ¬ In a ys)
  unfolding diff
  In-diff a xs ys = (
    λ h. let k = (In-keep a _ xs).0 h in (k.0, (not-contains_iff ys a).0 k.1),
    λ h. (In-keep a _ xs).1 (h.0, (not-contains_iff ys a).1 h.1),
  )

  pub In-inter : (a : A) (xs ys : List A) → In a (inter xs ys) ↔ (In a xs × In a ys)
  unfolding inter
  In-inter a xs ys = (
    λ h. let k = (In-keep a _ xs).0 h in (k.0, (contains_iff ys a).0 k.1),
    λ h. (In-keep a _ xs).1 (h.0, (contains_iff ys a).1 h.1),
  )
