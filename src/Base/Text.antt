-- ===== src/Base/Text.antt =====
-- Text as the program uses it: the code-point order of Python strings, `upper` on ASCII, sorting.
use Prim.Native.Nat.{ℕ, ◌-◌}
use Prim.Native.Char.{code}
use Prim.Native.String.{String, ◌++◌ as join}
use mathlib.Core.Path.{◌≡◌, refl, sym, ap, ◌∙◌}
use mathlib.Core.Logic.{◌⊎◌, ◌↔◌, inl, inr}
use mathlib.Core.Bool.{Bool, true, false, not, ◌&&◌, ◌||◌}
use mathlib.Core.List.{List, [], ◌∷◌, map}
use native.Mathlib.Omega.{arith}
use text.Mathlib.Text.{◌==◌ as str_eq}
use text.Mathlib.TextEquality.{eq_iff}
use text.Mathlib.TextLemmas.{cons-append}
use quellgeist.Base.Tests.{leb, ltb, nat_beq, if◌then◌else◌, string_eq, Bool-cases}
use quellgeist.Base.Lists.{In, contains}

abbrev pub codes : String → List ℕ
codes String.[] = []
codes (String.◌∷◌ c s) = code c ∷ codes s

-- Lexicographic order of code points, which is `<` on Python strings.
codes_lt : List ℕ → List ℕ → Bool
codes_lt [] [] = false
codes_lt [] (b ∷ bs) = true
codes_lt (a ∷ as') [] = false
codes_lt (a ∷ as') (b ∷ bs) =
    let rest = codes_lt as' bs in if ltb a b then true else if ltb b a then false else rest

unfoldable pub str_lt : String → String → Bool
unfolding codes_lt
str_lt s t = codes_lt (codes s) (codes t)

-- `s <= t` on strings.
unfoldable pub str_le : String → String → Bool
str_le s t = not (str_lt t s)

upper_code : ℕ → ℕ
upper_code c = if leb b'a' c && leb c b'z' then c - 32 else c

-- The code points of `s.upper()`, for ASCII text.
unfoldable pub upper : String → List ℕ
unfolding upper_code
upper s = map upper_code (codes s)

codes_lt_irrefl : (a : List ℕ) → codes_lt a a ≡ false
unfolding codes_lt
codes_lt_irrefl [] = refl
codes_lt_irrefl (a ∷ as') = ground (arith, codes_lt_irrefl as')

codes_lt_trans : (a b c : List ℕ) → codes_lt a b ≡ true → codes_lt b c ≡ true → codes_lt a c ≡ true
unfolding codes_lt
codes_lt_trans [] [] c h k = ground arith
codes_lt_trans [] (y ∷ b) [] h k = ground arith
codes_lt_trans [] (y ∷ b) (z ∷ c) h k = refl
codes_lt_trans (x ∷ a) [] c h k = ground arith
codes_lt_trans (x ∷ a) (y ∷ b) [] h k = ground arith
codes_lt_trans (x ∷ a) (y ∷ b) (z ∷ c) h k = ground (arith, codes_lt_trans a b c)

-- If neither is smaller, what is below one is below the other.
codes_lt-cotrans :
    (a b c : List ℕ) → codes_lt a c ≡ true → (codes_lt a b ≡ true) ⊎ (codes_lt b c ≡ true)
unfolding codes_lt
codes_lt-cotrans [] [] [] h = ground arith
codes_lt-cotrans [] [] (z ∷ c) h = inr refl
codes_lt-cotrans [] (y ∷ b) c h = inl refl
codes_lt-cotrans (x ∷ a) b [] h = ground arith
codes_lt-cotrans (x ∷ a) [] (z ∷ c) h = inr refl
codes_lt-cotrans (x ∷ a) (y ∷ b) (z ∷ c) h = ground (arith, codes_lt-cotrans a b c)

pub str_lt_irrefl : (s : String) → str_lt s s ≡ false
unfolding str_lt
str_lt_irrefl s = codes_lt_irrefl (codes s)

pub str_lt_trans : (s t u : String) → str_lt s t ≡ true → str_lt t u ≡ true → str_lt s u ≡ true
unfolding str_lt
str_lt_trans s t u = codes_lt_trans (codes s) (codes t) (codes u)

pub str_lt-cotrans :
    (s t u : String) → str_lt s u ≡ true → (str_lt s t ≡ true) ⊎ (str_lt t u ≡ true)
unfolding str_lt
str_lt-cotrans s t u = codes_lt-cotrans (codes s) (codes t) (codes u)

-- `set(xs)`, as a list without repetition.
unfoldable pub dedupe : List String → List String
dedupe [] = []
dedupe (x ∷ xs) = let rest = dedupe xs in if contains rest x then rest else x ∷ rest

-- `sorted(xs)` on strings.
insert_text : String → List String → List String
insert_text x [] = x ∷ []
insert_text x (y ∷ ys) = let rest = insert_text x ys in if str_lt y x then y ∷ rest else x ∷ y ∷ ys

unfoldable pub sort_texts : List String → List String
unfolding insert_text
sort_texts [] = []
sort_texts (x ∷ xs) = insert_text x (sort_texts xs)

In-insert_text : (a x : String) (ys : List String) → In a (insert_text x ys) ↔ ((a ≡ x) ⊎ In a ys)
unfolding insert_text
In-insert_text a x [] = (λ h. h, λ h. h)
In-insert_text a x (y ∷ ys) = elim (Bool-cases (str_lt y x)) [
  | inl e ↦ rw e (
    elim [
      | inl q ↦ inr (inl q)
      | inr h ↦ elim ((In-insert_text a x ys).0 h) [ inl q ↦ inl q | inr k ↦ inr (inr k) ]
    ],
    elim [
      | inl q ↦ inr ((In-insert_text a x ys).1 (inl q))
      | inr h ↦ elim h [ inl q ↦ inl q | inr k ↦ inr ((In-insert_text a x ys).1 (inr k)) ]
    ],
  )
  | inr e ↦ rw e (λ h. h, λ h. h)
]

pub In-sort_texts : (a : String) (xs : List String) → In a (sort_texts xs) ↔ In a xs
unfolding sort_texts
In-sort_texts a [] = (λ h. h, λ h. h)
In-sort_texts a (x ∷ xs) = (
  λ h. elim ((In-insert_text a x (sort_texts xs)).0 h) [
    | inl q ↦ inl q
    | inr k ↦ inr ((In-sort_texts a xs).0 k)
  ],
  elim [
    | inl q ↦ (In-insert_text a x (sort_texts xs)).1 (inl q)
    | inr k ↦ (In-insert_text a x (sort_texts xs)).1 (inr ((In-sort_texts a xs).1 k))
  ],
)

-- The white space of `str.strip`.
unfoldable pub is_space : ℕ → Bool
is_space c =
    (leb 9 c && leb c 13)
    || (leb 28 c && leb c 32)
    || nat_beq c 0x85
    || nat_beq c 0xa0
    || nat_beq c 0x1680
    || (leb 0x2000 c && leb c 0x200a)
    || nat_beq c 0x2028
    || nat_beq c 0x2029
    || nat_beq c 0x202f
    || nat_beq c 0x205f
    || nat_beq c 0x3000

abbrev pub is_blank : String → Bool
is_blank String.[] = true
is_blank (String.◌∷◌ _ _) = false

lstrip : String → String
lstrip String.[] = String.[]
lstrip (String.◌∷◌ c s) = let rest = lstrip s in if is_space (code c) then rest else String.◌∷◌ c s

unfoldable pub rstrip : String → String
rstrip String.[] = String.[]
rstrip (String.◌∷◌ c s) =
    let rest = rstrip s in
    if is_space (code c) && is_blank rest then String.[] else String.◌∷◌ c rest

-- `s.strip()`.
unfoldable pub strip : String → String
unfolding lstrip rstrip is_space
strip s = rstrip (lstrip s)

-- `s[:-1] if s.endswith(("Z", "z")) else s`.
unfoldable pub drop_z : String → String
drop_z String.[] = String.[]
drop_z (String.◌∷◌ c s) =
    let rest = drop_z s in
    if is_blank s && (nat_beq (code c) b'Z' || nat_beq (code c) b'z')
    then String.[]
    else String.◌∷◌ c rest

codes_beq : List ℕ → List ℕ → Bool
codes_beq [] [] = true
codes_beq (a ∷ as') (b ∷ bs) = nat_beq a b && codes_beq as' bs
codes_beq _ _ = false

-- `s.upper() == t`.
unfoldable pub upper_is : String → String → Bool
unfolding upper codes_beq
upper_is s t = codes_beq (upper s) (codes t)

-- Equality of a text with a list of code points.
unfoldable pub codes_are : String → List ℕ → Bool
unfolding codes_beq
codes_are s u = codes_beq (codes s) u

codes_beq_iff : (a b : List ℕ) → (codes_beq a b ≡ true) ↔ (a ≡ b)
unfolding codes_beq
codes_beq_iff [] [] = (λ _. refl, λ _. refl)
codes_beq_iff [] (b ∷ bs) = (λ e. absurd (cc), λ e. absurd (cc))
codes_beq_iff (a ∷ as') [] = (λ e. absurd (cc), λ e. absurd (cc))
codes_beq_iff (a ∷ as') (b ∷ bs) =
    let rest = codes_beq_iff as' bs in
    (
      λ e.
          let same : a ≡ b = ground (arith, e) in
          let tail : as' ≡ bs = rest.0 (ground (arith, e)) in cc,
      λ e.
          let same : a ≡ b = cc in
          let tail : codes_beq as' bs ≡ true = rest.1 (cc) in ground (arith, same, tail),
    )

pub codes_are_iff : (s : String) (u : List ℕ) → (codes_are s u ≡ true) ↔ (codes s ≡ u)
unfolding codes_are
codes_are_iff s u = codes_beq_iff (codes s) u

-- `ORDER BY key`: a stable sort, least key first.
module _ {A : Type 0} (sort_on : A → String) where
  unfoldable pub insert_by : A → List A → List A
  insert_by x [] = x ∷ []
  insert_by x (y ∷ ys) =
      let rest = insert_by x ys in if str_lt (sort_on y) (sort_on x) then y ∷ rest else x ∷ y ∷ ys

  unfoldable pub order_by : List A → List A
  unfolding insert_by
  order_by [] = []
  order_by (x ∷ xs) = insert_by x (order_by xs)

  In-insert_by : (a x : A) (ys : List A) → In a (insert_by x ys) ↔ ((a ≡ x) ⊎ In a ys)
  unfolding insert_by
  In-insert_by a x [] = (λ h. h, λ h. h)
  In-insert_by a x (y ∷ ys) = elim (Bool-cases (str_lt (sort_on y) (sort_on x))) [
    | inl e ↦ rw e (
      elim [
        | inl q ↦ inr (inl q)
        | inr h ↦ elim ((In-insert_by a x ys).0 h) [ inl q ↦ inl q | inr k ↦ inr (inr k) ]
      ],
      elim [
        | inl q ↦ inr ((In-insert_by a x ys).1 (inl q))
        | inr h ↦ elim h [ inl q ↦ inl q | inr k ↦ inr ((In-insert_by a x ys).1 (inr k)) ]
      ],
    )
    | inr e ↦ rw e (λ h. h, λ h. h)
  ]

  pub In-order_by : (a : A) (xs : List A) → In a (order_by xs) ↔ In a xs
  unfolding order_by
  In-order_by a [] = (λ h. h, λ h. h)
  In-order_by a (x ∷ xs) = (
    λ h. elim ((In-insert_by a x (order_by xs)).0 h) [
      | inl q ↦ inl q
      | inr k ↦ inr ((In-order_by a xs).0 k)
    ],
    elim [
      | inl q ↦ (In-insert_by a x (order_by xs)).1 (inl q)
      | inr k ↦ (In-insert_by a x (order_by xs)).1 (inr ((In-order_by a xs).1 k))
    ],
  )

-- What begins with a text that is not blank is not blank.
pub join-nonblank : (s t : String) → is_blank s ≡ false → not (str_eq (join s t) "") ≡ true
join-nonblank String.[] t h = absurd (cc)
join-nonblank (String.◌∷◌ c s) t h = elim (Bool-cases (str_eq (join (String.◌∷◌ c s) t) "")) [
  | inl e ↦ absurd (clash (ap is_blank (sym (cons-append c s t) ∙ (eq_iff _ _).0 e)))
  | inr e ↦ ap not e
]
  where
    clash : false ≡ true → ⊥
    clash e = cc
