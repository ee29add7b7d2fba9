-- ===== src/Ingest/Lines.antt =====
-- The methods of Python strings by which the ingest code takes text apart.
pub mod Printed
use Prim.Native.Char.{code}
use quellgeist.Base.{
  ℕ, String, Bool, true, false, ◌&&◌, ◌||◌, List, [], ◌∷◌, nat_beq, leb, if◌then◌else◌,
}

-- The characters at which `str.splitlines` breaks a text.
unfoldable pub is_break : ℕ → Bool
is_break c =
    (leb 10 c && leb c 13)
    || ((leb 28 c && leb c 30) || (nat_beq c 0x85 || (nat_beq c 0x2028 || nat_beq c 0x2029)))

-- A character in front of the first of some texts.
abbrev pub cons_first : Prim.Native.Char.Char → List String → List String
cons_first c [] = String.◌∷◌ c String.[] ∷ []
cons_first c (s ∷ ss) = String.◌∷◌ c s ∷ ss

-- A line feed, which ends the same line as a carriage return before it.
abbrev starts_feed : String → Bool
starts_feed String.[] = false
starts_feed (String.◌∷◌ c s) = nat_beq (code c) 10

-- `text.splitlines()`.
unfoldable pub splitlines : String → List String
splitlines String.[] = []
splitlines (String.◌∷◌ c s) =
    let rest = splitlines s in
    if is_break (code c)
    then (if nat_beq (code c) 13 && starts_feed s then rest else String.[] ∷ rest)
    else cons_first c rest

-- `line.split(sep)` for a separator of one character.
unfoldable pub split_on : ℕ → String → List String
split_on sep String.[] = String.[] ∷ []
split_on sep (String.◌∷◌ c s) =
    let rest = split_on sep s in
    if nat_beq (code c) sep then String.[] ∷ rest else cons_first c rest

-- `sep in line`.
unfoldable pub has_code : ℕ → String → Bool
has_code sep String.[] = false
has_code sep (String.◌∷◌ c s) = nat_beq (code c) sep || has_code sep s

-- `s.startswith(mark)` for a mark of one character.
unfoldable pub starts_with : ℕ → String → Bool
starts_with mark String.[] = false
starts_with mark (String.◌∷◌ c s) = nat_beq (code c) mark
