-- ===== src/Regex.antt =====
-- Go's package regexp, as far as the source's patterns need it: literal bytes, byte classes, greedy
-- repetition, one capture group, and `^` under the flag `(?m)`. Matching prefers the longest run of
-- a repetition and gives bytes back one at a time, which is the leftmost-first rule of the package.
pub mod Laws
pub mod Lines
use qnapexporter.Base.{
  ℕ, zero, suc, ◌-◌, ◌++◌, ◌||◌, ◌==◌, Bool, true, false, not, Option, none, some, List, [], ◌∷◌,
  map, Text, codes, newline, is_digit, length, ◌≡◌, refl,
}
use Prim.Native.String.{String}

-- `\s`, which leaves out the vertical tab.
abbrev pub is_blank : ℕ → Bool
is_blank c = c == 9 || c == 10 || c == 12 || c == 13 || c == 32

pub data Class : Type 0 where
  -- the byte itself; any byte but it; `.`; `\s`; `\d`; `[\d,]`
  byte not_byte : ℕ → Class
  any space digit digit_or_comma : Class

unfoldable pub test : Class → ℕ → Bool
test (byte b) c = c == b
test (not_byte b) c = not (c == b)
test any c = not (c == newline)
test space c = is_blank c
test digit c = is_digit c
test digit_or_comma c = is_digit c || c == b','

-- A pattern is a list of pieces. `many` stands for `*`; `+` is one byte and then `many`.
pub data Piece : Type 0 where
  one many : Class → Piece
  open_group close_group line_start : Piece

abbrev pub lit : String → List Piece
lit s = map (λ b. one (byte b)) (codes s)

abbrev pub plus : Class → List Piece
plus c = one c ∷ many c ∷ []

-- The group's text grows only inside the group.
abbrev pub note : Bool → Text → ℕ → Text
note true g x = g ++ x ∷ []
note false g x = g

-- A match at the front of the text: what the group holds, and the text behind the match. The first
-- two flags say whether the text begins a line, and whether the group is open.
unfoldable pub match_front : List Piece → Bool → Bool → Text → Text → Option (Text × Text)
unfolding test
match_front [] start inside g s = some (g, s)
match_front (open_group ∷ ps) start inside g s = match_front ps start true [] s
match_front (close_group ∷ ps) start inside g s = match_front ps start false g s
match_front (line_start ∷ ps) start inside g s = elim start [
  | true ↦ match_front ps true inside g s
  | false ↦ none
]
match_front (one c ∷ ps) start inside g [] = none
match_front (one c ∷ ps) start inside g (x ∷ s) = elim (test c x) [
  | true ↦ match_front ps (x == newline) inside (note inside g x) s
  | false ↦ none
]
match_front (many c ∷ ps) start inside g [] = match_front ps start inside g []
match_front (many c ∷ ps) start inside g (x ∷ s) = elim (test c x) [
  | false ↦ match_front ps start inside g (x ∷ s)
  | true ↦ elim (match_front (many c ∷ ps) (x == newline) inside (note inside g x) s) [
    | some r ↦ some r
    | none ↦ match_front ps start inside g (x ∷ s)
  ]
]

find_from : List Piece → Bool → Text → Option Text
unfolding match_front
find_from ps start [] = elim (match_front ps start false [] []) [
  | none ↦ none
  | some (g, _) ↦ some g
]
find_from ps start (x ∷ s) = elim (match_front ps start false [] (x ∷ s)) [
  | some (g, _) ↦ some g
  | none ↦ find_from ps (x == newline) s
]

-- `FindStringSubmatch(s)`: the text of the group in the leftmost match.
unfoldable pub find_submatch : List Piece → Text → Option Text
unfolding find_from
find_submatch ps s = find_from ps true s

-- A substitution: fixed text, and `$1`.
pub data Part : Type 0 where
  fixed : String → Part
  group_one : Part

abbrev pub expand : List Part → Text → Text
expand [] g = []
expand (fixed s ∷ parts) g = codes s ++ expand parts g
expand (group_one ∷ parts) g = g ++ expand parts g

-- `ReplaceAllString`, for patterns that match no empty text: `skip` bytes of the last match are
-- still to be passed over.
unfoldable pub replace_from : List Piece → List Part → Bool → ℕ → Text → Text
unfolding match_front
replace_from ps sub start skip [] = []
replace_from ps sub start (suc skip) (x ∷ s) = replace_from ps sub (x == newline) skip s
replace_from ps sub start zero (x ∷ s) = elim (match_front ps start false [] (x ∷ s)) [
  | none ↦ x ∷ replace_from ps sub (x == newline) zero s
  | some (g, rest) ↦ expand sub g ++ replace_from ps sub (x == newline) (length s - length rest) s
]

unfoldable pub replace_all : List Piece → List Part → Text → Text
unfolding replace_from
replace_all ps sub s = replace_from ps sub true zero s

backtracks :
    find_submatch (open_group ∷ plus any ++ close_group ∷ lit " b") (codes "a b b c")
    ≡ some (codes "a b")
unfolding find_submatch
backtracks = refl

second_line :
    find_submatch
      (line_start ∷ lit "n: " ++ open_group ∷ plus digit ++ close_group ∷ [])
      (codes "xn: 1\nn: 27%")
    ≡ some (codes "27")
unfolding find_submatch
second_line = refl
