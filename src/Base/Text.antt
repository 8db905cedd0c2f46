-- ===== src/Base/Text.antt =====
-- Texts as the lists of their code points, where the program reads into them.
use Prim.Native.Char.{code}
use Prim.Native.String.{String}
use Prim.Native.Nat.{ℕ, ◌+◌}
use mathlib.Core.Bool.{Bool, true, false, ◌&&◌, ◌||◌}
use mathlib.Core.Option.{Option, none, some}
use mathlib.Core.List.{List, [], ◌∷◌, map}
use eventmesh.Base.Tests.{leb, ◌==◌, if◌then◌else◌}

abbrev pub codes : String → List ℕ
codes String.[] = []
codes (String.◌∷◌ c s) = code c ∷ codes s

-- `s == t` on code points
abbrev pub codes_eq : List ℕ → List ℕ → Bool
codes_eq [] [] = true
codes_eq [] (d ∷ t) = false
codes_eq (c ∷ s) [] = false
codes_eq (c ∷ s) (d ∷ t) = c == d && codes_eq s t

-- `lower` on ASCII. No other character has a lower case within the one host name that the result is
-- compared with.
abbrev pub lower_code : ℕ → ℕ
lower_code c = if leb 65 c && leb c 90 then c + 32 else c

abbrev pub lower : List ℕ → List ℕ
lower = map lower_code

-- The whitespace that `str.strip` takes away, among the characters of a header (Latin-1).
abbrev pub is_space : ℕ → Bool
is_space c = (leb 9 c && leb c 13) || (leb 28 c && leb c 32) || c == 133 || c == 160

abbrev pub strip_left : List ℕ → List ℕ
strip_left [] = []
strip_left (c ∷ cs) = let rest = strip_left cs in if is_space c then rest else c ∷ cs

abbrev pub keep_right : ℕ → List ℕ → List ℕ
keep_right c [] = if is_space c then [] else c ∷ []
keep_right c (x ∷ xs) = c ∷ x ∷ xs

abbrev pub strip_right : List ℕ → List ℕ
strip_right [] = []
strip_right (c ∷ cs) = keep_right c (strip_right cs)

-- `text.strip()`
abbrev pub strip : List ℕ → List ℕ
strip text = strip_right (strip_left text)

-- `text.split(c)`
abbrev pub onto_head : ℕ → List (List ℕ) → List (List ℕ)
onto_head x [] = (x ∷ []) ∷ []
onto_head x (p ∷ ps) = (x ∷ p) ∷ ps

abbrev pub split_on : ℕ → List ℕ → List (List ℕ)
split_on c [] = [] ∷ []
split_on c (x ∷ xs) = let rest = split_on c xs in if x == c then [] ∷ rest else onto_head x rest

-- `text.split(c, 1)`, if `c` is in the text
abbrev pub onto_key : ℕ → Option (List ℕ × List ℕ) → Option (List ℕ × List ℕ)
onto_key x none = none
onto_key x (some (k, v)) = some (x ∷ k, v)

abbrev pub cut : ℕ → List ℕ → Option (List ℕ × List ℕ)
cut c [] = none
cut c (x ∷ xs) = let rest = cut c xs in if x == c then some ([], xs) else onto_key x rest
