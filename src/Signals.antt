-- ===== src/Signals.antt =====
-- The values that decoded JSON has in Python, and the rows (`dict[str, Any]`) of logs, commits and
-- metric series. A float is the exact number mantissa / 2 ^ scale, as a finite double is.
use quellgeist.Base.{
  ℕ, ◌^◌, String, Bool, true, false, ◌==◌, string_eq, Option, none, some, List, [], ◌∷◌,
  if◌then◌else◌, ℤ, pos, eqz, mulz,
}

pub record Float : Type 0 where
  pub mantissa : ℤ
  pub scale : ℕ

-- The value of a Python float that may be no number or infinite, as that of `float(text)`.
pub data Number : Type 0 where
  finite : Float → Number
  infinite not_a_number : Number

mutual
  pub data Value : Type 0 where
    null : Value
    bool : Bool → Value
    int : ℤ → Value
    float : Float → Value
    str : String → Value
    list : Values → Value
    dict : Row → Value

  pub data Values : Type 0 where
    nil : Values
    cons : Value → Values → Values

  pub data Row : Type 0 where
    empty : Row
    field : String → Value → Row → Row

-- `row.get(k)`, with `none` for a key that is not there.
unfoldable pub get : String → Row → Option Value
get k empty = none
get k (field j v r) = let rest = get k r in if j == k then some v else rest

-- `k in row`.
unfoldable pub has : String → Row → Bool
has k empty = false
has k (field j v r) = let rest = has k r in if j == k then true else rest

-- `{**row, k: v}`.
unfoldable pub put : String → Value → Row → Row
put k v empty = field k v empty
put k v (field j w r) = let rest = put k v r in if j == k then field j v r else field j w rest

-- What Python can hash, and so put into a set or use as a key.
unfoldable pub is_hashable : Value → Bool
is_hashable (list _) = false
is_hashable (dict _) = false
is_hashable _ = true

unfoldable pub to_list : Values → List Value
to_list nil = []
to_list (cons v vs) = v ∷ to_list vs

unfoldable pub of_list : List Value → Values
of_list [] = nil
of_list (v ∷ vs) = cons v (of_list vs)

-- What a handle of a diagnosis names: a log row's int, or the text of a commit or a series.
pub data Key : Type 0 where
  int_key : ℤ → Key
  str_key : String → Key

-- `key == value` in Python, where True is 1 and a float equals the int of its value.
unfoldable pub key_eq : Key → Value → Bool
unfolding eqz mulz
key_eq (int_key z) (int w) = eqz z w
key_eq (int_key z) (bool true) = eqz z (pos 1)
key_eq (int_key z) (bool false) = eqz z (pos 0)
key_eq (int_key z) (float f) = eqz (mulz z (2 ^ f.scale)) f.mantissa
key_eq (str_key s) (str t) = s == t
key_eq _ _ = false
