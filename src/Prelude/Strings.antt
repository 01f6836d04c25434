-- ===== src/Prelude/Strings.antt =====
-- Functions of the standard library on `str`, over its UTF-8 bytes: `trim`, `split_once`, `split`.
pub mod Trim
use Prim.Native.Nat.{ℕ}
use mathlib.Core.Bool.{Bool, false, ◌&&◌, ◌||◌}
use mathlib.Core.Option.{Option, none, some}
use mathlib.Core.List.{List, [], ◌∷◌, reverse}
use factum.Prelude.Tests.{leb, eqb, if◌then◌else◌}
use factum.Prelude.Bytes.{Text}

-- The characters with the Unicode property White_Space that take one, two and three bytes.
abbrev white1 : ℕ → Bool
white1 a = (leb 9 a && leb a 13) || eqb a 32

abbrev white2 : ℕ → ℕ → Bool
white2 a b = eqb a 0xC2 && (eqb b 0x85 || eqb b 0xA0)

abbrev white3 : ℕ → ℕ → ℕ → Bool
white3 a b c =
    (eqb a 0xE1 && eqb b 0x9A && eqb c 0x80)
    || (eqb a 0xE2
        && eqb b 0x80
        && ((leb 0x80 c && leb c 0x8A) || eqb c 0xA8 || eqb c 0xA9 || eqb c 0xAF))
    || (eqb a 0xE2 && eqb b 0x81 && eqb c 0x9F)
    || (eqb a 0xE3 && eqb b 0x80 && eqb c 0x80)

-- `trim_start`
unfoldable pub trim_start : Text → Text
trim_start [] = []
trim_start (a ∷ []) = if white1 a then [] else a ∷ []
trim_start (a ∷ b ∷ []) =
    let rest = trim_start (b ∷ []) in
    if white1 a then rest else if white2 a b then [] else a ∷ b ∷ []
trim_start (a ∷ b ∷ c ∷ r) =
    let rest1 = trim_start (b ∷ c ∷ r) in
    let rest2 = trim_start (c ∷ r) in
    let rest3 = trim_start r in
    if white1 a
    then rest1
    else if white2 a b
    then rest2
    else if white3 a b c
    then rest3
    else a ∷ b ∷ c ∷ r

-- `trim_start` on the bytes from the last to the first
unfoldable pub trim_back : Text → Text
trim_back [] = []
trim_back (a ∷ []) = if white1 a then [] else a ∷ []
trim_back (a ∷ b ∷ []) =
    let rest = trim_back (b ∷ []) in
    if white1 a then rest else if white2 b a then [] else a ∷ b ∷ []
trim_back (a ∷ b ∷ c ∷ r) =
    let rest1 = trim_back (b ∷ c ∷ r) in
    let rest2 = trim_back (c ∷ r) in
    let rest3 = trim_back r in
    if white1 a
    then rest1
    else if white2 b a
    then rest2
    else if white3 c b a
    then rest3
    else a ∷ b ∷ c ∷ r

-- `trim`
unfoldable pub trim : Text → Text
unfolding trim_start trim_back
trim s = reverse (trim_back (reverse (trim_start s)))

abbrev onto : ℕ → Text × Text → Text × Text
onto c (a, b) = (c ∷ a, b)

abbrev map_onto : ℕ → Option (Text × Text) → Option (Text × Text)
map_onto c none = none
map_onto c (some r) = some (onto c r)

-- `split_once(c)` for an ASCII character
unfoldable pub split_once : ℕ → Text → Option (Text × Text)
split_once d [] = none
split_once d (c ∷ cs) =
    let rest = split_once d cs in if eqb c d then some ([], cs) else map_onto c rest

-- `split_once` at a pair of ASCII characters
unfoldable pub split_once2 : ℕ → ℕ → Text → Option (Text × Text)
split_once2 d e [] = none
split_once2 d e (c ∷ []) = none
split_once2 d e (c ∷ c' ∷ cs) =
    let rest = split_once2 d e (c' ∷ cs) in
    if eqb c d && eqb c' e then some ([], cs) else map_onto c rest

abbrev onto_first : ℕ → List Text → List Text
onto_first c [] = (c ∷ []) ∷ []
onto_first c (s ∷ ss) = (c ∷ s) ∷ ss

-- `split(c)`: at least one piece
unfoldable pub split : ℕ → Text → List Text
split d [] = [] ∷ []
split d (c ∷ cs) = let rest = split d cs in if eqb c d then [] ∷ rest else onto_first c rest

-- `ends_with(c)` for an ASCII character
unfoldable pub ends_with : ℕ → Text → Bool
ends_with d [] = false
ends_with d (c ∷ []) = eqb c d
ends_with d (c ∷ c' ∷ cs) = ends_with d (c' ∷ cs)
