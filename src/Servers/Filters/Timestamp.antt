-- ===== src/Servers/Filters/Timestamp.antt =====
-- `_require_canonical_ts`: the form `%Y-%m-%dT%H:%M:%SZ` with zero padding, of a date that exists.
-- `strftime("%Y")` does not pad years below 1000 on Linux, so those are refused.
use quellgeist.Base.{
  ℕ, ◌+◌, ◌-◌, ◌*◌, String, Bool, false, not, ◌&&◌, ◌||◌, List, [], ◌∷◌, nat_beq, leb, codes, all,
  if◌then◌else◌,
}
use Prim.Native.Nat.{◌%◌}
use quellgeist.Effects.{Result, ok, raise, value_error}

is_digit : ℕ → Bool
is_digit c = leb b'0' c && leb c b'9'

-- The value of a list of digits.
decimal : ℕ → List ℕ → ℕ
decimal acc [] = acc
decimal acc (c ∷ cs) = decimal (acc * 10 + (c - 48)) cs

is_leap : ℕ → Bool
is_leap y = nat_beq (y % 4) 0 && (not (nat_beq (y % 100) 0) || nat_beq (y % 400) 0)

days_in_month : ℕ → ℕ → ℕ
unfolding is_leap
days_in_month y m =
    if nat_beq m 2
    then (if is_leap y then 29 else 28)
    else if nat_beq m 4 || (nat_beq m 6 || (nat_beq m 9 || nat_beq m 11))
    then 30
    else 31

is_date : ℕ → ℕ → ℕ → Bool
unfolding days_in_month
is_date y m d = leb 1000 y && (leb 1 m && (leb m 12 && (leb 1 d && leb d (days_in_month y m))))

is_time : ℕ → ℕ → ℕ → Bool
is_time h n s = leb h 23 && (leb n 59 && leb s 59)

canonical_codes : List ℕ → Bool
unfolding is_digit decimal is_date is_time all
canonical_codes
      (y1 ∷ y2 ∷ y3 ∷ y4 ∷ p ∷ m1 ∷ m2 ∷ q ∷ d1 ∷ d2 ∷ t ∷ h1 ∷ h2 ∷ c ∷ n1 ∷ n2 ∷ e ∷ s1 ∷ s2 ∷ z
        ∷ []) =
    all is_digit (y1 ∷ y2 ∷ y3 ∷ y4 ∷ m1 ∷ m2 ∷ d1 ∷ d2 ∷ h1 ∷ h2 ∷ n1 ∷ n2 ∷ s1 ∷ s2 ∷ [])
    && (nat_beq p b'-'
        && (nat_beq q b'-'
            && (nat_beq t b'T' && (nat_beq c b':' && (nat_beq e b':' && nat_beq z b'Z')))))
    && is_date (decimal 0 (y1 ∷ y2 ∷ y3 ∷ y4 ∷ [])) (decimal 0 (m1 ∷ m2 ∷ []))
        (decimal 0 (d1 ∷ d2 ∷ []))
    && is_time (decimal 0 (h1 ∷ h2 ∷ [])) (decimal 0 (n1 ∷ n2 ∷ [])) (decimal 0 (s1 ∷ s2 ∷ []))
canonical_codes _ = false

unfoldable pub is_canonical_ts : String → Bool
unfolding canonical_codes
is_canonical_ts s = canonical_codes (codes s)

unfoldable pub require_canonical_ts : String → Result (Unit {0})
require_canonical_ts since =
    if is_canonical_ts since
    then ok tt
    else raise (value_error "since must be a canonical UTC timestamp")
