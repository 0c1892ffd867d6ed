-- ===== src/Base/Strings.antt =====
-- Go strings as lists of bytes, and the functions of package strings and strconv that the source
-- calls: HasPrefix, Index, Contains, Split, SplitN, TrimSpace, Fields, Itoa and Atoi. The spaces of
-- TrimSpace and Fields are the ASCII ones.
use Prim.Native.Char.{code}
use Prim.Native.Nat.{ℕ, zero, suc, ◌+◌, ◌-◌, ◌*◌, ◌/◌, ◌%◌, ◌^◌}
use Prim.Native.String.{String}
use mathlib.Core.Path.{◌≡◌, refl}
use mathlib.Core.Logic.{◌↔◌, ◌≢◌, inl, inr}
use mathlib.Core.Bool.{Bool, true, false, ◌&&◌, ◌||◌}
use mathlib.Core.List.{List, [], ◌∷◌, ◌++◌, reverse}
use mathlib.Core.Option.{Option, none, some}
use native.Mathlib.Omega.{arith}
use qnapexporter.Base.Int.{ℤ, pos, negsuc}
use qnapexporter.Base.Tests.{ltb, leb, ◌==◌, if◌then◌else◌, Bool-cases}
use qnapexporter.Base.Lists.{All}

abbrev pub Text : Type 0
Text = List ℕ

-- The bytes of an ASCII literal.
abbrev pub codes : String → Text
codes String.[] = []
codes (String.◌∷◌ c s) = code c ∷ codes s

abbrev pub newline : ℕ
newline = 10

-- `s == t`
abbrev pub same : Text → Text → Bool
same [] [] = true
same (x ∷ xs) (y ∷ ys) = (x == y) && same xs ys
same _ _ = false

pub same_iff : (s t : Text) → (same s t ≡ true) ↔ (s ≡ t)
same_iff [] [] = ground arith
same_iff [] (y ∷ ys) = ground arith
same_iff (x ∷ xs) [] = ground arith
same_iff (x ∷ xs) (y ∷ ys) = ground (arith, same_iff xs ys)

pub same_refl : (s : Text) → same s s ≡ true
same_refl s = (same_iff s s).1 refl

abbrev pub is_empty : Text → Bool
is_empty [] = true
is_empty (x ∷ xs) = false

-- `strings.HasPrefix(s, p)`
abbrev pub has_prefix : Text → Text → Bool
has_prefix s [] = true
has_prefix [] (y ∷ p) = false
has_prefix (x ∷ s) (y ∷ p) = (x == y) && has_prefix s p

-- `strings.Contains(s, p)`
unfoldable pub contains : Text → Text → Bool
contains [] p = is_empty p
contains (x ∷ s) p = has_prefix (x ∷ s) p || contains s p

-- `strings.Index(s, p)`: `none` is -1.
unfoldable pub index : Text → Text → Option ℕ
index [] p = if is_empty p then some 0 else none
index (x ∷ s) p = elim (has_prefix (x ∷ s) p) [
  | true ↦ some 0
  | false ↦ elim (index s p) [ none ↦ none | some k ↦ some (suc k) ]
]

-- `strings.SplitN(s, sep, 2)` for a separator of one byte: the part before it, and the part after
-- it if the separator occurs.
unfoldable pub cut : ℕ → Text → Text × Option Text
cut sep [] = ([], none)
cut sep (x ∷ s) = let (a, rest) = cut sep s in if x == sep then ([], some s) else (x ∷ a, rest)

-- `strings.Split(s, sep)` for a separator of one byte: the first part, and the others.
unfoldable pub split : ℕ → Text → Text × List Text
split sep [] = ([], [])
split sep (x ∷ s) =
    let (a, parts) = split sep s in if x == sep then ([], a ∷ parts) else (x ∷ a, parts)

abbrev pub split_lines : Text → List Text
split_lines s = (split newline s).0 ∷ (split newline s).1

abbrev pub is_space : ℕ → Bool
is_space c = (leb 9 c && leb c 13) || c == 32

unfoldable pub trim_left : Text → Text
trim_left [] = []
trim_left (x ∷ s) = let rest = trim_left s in if is_space x then rest else x ∷ s

-- `strings.TrimSpace`
unfoldable pub trim_space : Text → Text
unfolding trim_left
trim_space s = reverse (trim_left (reverse (trim_left s)))

-- `strings.Fields`: `word` is the field being read, reversed.
fields_from : Text → Text → List Text
fields_from word [] = if is_empty word then [] else reverse word ∷ []
fields_from word (x ∷ s) = elim (is_space x) [
  | true ↦ if is_empty word then fields_from [] s else reverse word ∷ fields_from [] s
  | false ↦ fields_from (x ∷ word) s
]

unfoldable pub fields : Text → List Text
unfolding fields_from
fields s = fields_from [] s

-- The digits of `n`, with `n` rounds as fuel: each round divides by ten.
digits : ℕ → ℕ → Text → Text
digits zero n out = out
digits (suc fuel) n out =
    let d = b'0' + n % 10 in
    let more = digits fuel (n / 10) (d ∷ out) in if ltb n 10 then d ∷ out else more

-- `strconv.FormatUint(n, 10)`
unfoldable pub format_nat : ℕ → Text
unfolding digits
format_nat n = digits (suc n) n []

-- No newline.
abbrev pub IsOneLine : Text → Type 0
IsOneLine = All (λ c. c ≢ newline)

digits-line : (fuel n : ℕ) (out : Text) → IsOneLine out → IsOneLine (digits fuel n out)
unfolding digits
digits-line zero n out h = h
digits-line (suc fuel) n out h =
    let here : IsOneLine ((b'0' + n % 10) ∷ out) = (omega arith, h) in
    elim (Bool-cases (ltb n 10)) [
      | inl last ↦ rw (last, digits) here
      | inr more ↦ rw (more, digits) (digits-line fuel (n / 10) _ here)
    ]

pub format_nat-IsOneLine : (n : ℕ) → IsOneLine (format_nat n)
unfolding format_nat
format_nat-IsOneLine n = digits-line (suc n) n [] tt

pub split-line :
    (t rest : Text) → IsOneLine t → split newline (t ++ newline ∷ rest) ≡ (t, split_lines rest)
unfolding split
split-line [] rest h = refl
split-line (c ∷ t) rest (not_newline, h) =
    let other : (c == newline) ≡ false = ground (arith, not_newline) in
    rw (split-line t rest h, split) (rw other refl)

-- `strconv.Itoa`
unfoldable pub itoa : ℤ → Text
unfolding format_nat
itoa (pos n) = format_nat n
itoa (negsuc n) = b'-' ∷ format_nat (suc n)

abbrev pub is_digit : ℕ → Bool
is_digit c = leb b'0' c && leb c b'9'

scan_digits : ℕ → Text → Option ℕ
scan_digits acc [] = some acc
scan_digits acc (c ∷ s) =
    let rest = scan_digits (acc * 10 + (c - b'0')) s in if is_digit c then rest else none

unfoldable pub parse_nat : Text → Option ℕ
unfolding scan_digits
parse_nat [] = none
parse_nat (c ∷ s) = scan_digits 0 (c ∷ s)

negate : ℕ → ℤ
negate zero = pos 0
negate (suc n) = negsuc n

-- The whole number that a text shows, however large.
unfoldable pub parse_int : Text → Option ℤ
unfolding parse_nat negate
parse_int [] = none
parse_int (c ∷ s) =
    if c == b'-'
    then (elim (parse_nat s) [ none ↦ none | some n ↦ some (negate n) ])
    else if c == b'+'
    then (elim (parse_nat s) [ none ↦ none | some n ↦ some (pos n) ])
    else (elim (parse_nat (c ∷ s)) [ none ↦ none | some n ↦ some (pos n) ])

-- The values of an `int` on a machine of 64 bits, and the one that is nearest.
abbrev pub is_int : ℤ → Bool
is_int (pos n) = ltb n (2 ^ 63)
is_int (negsuc n) = ltb n (2 ^ 63)

abbrev pub nearest_int : ℤ → ℤ
nearest_int (pos n) = if ltb n (2 ^ 63) then pos n else pos 9_223_372_036_854_775_807
nearest_int (negsuc n) = if ltb n (2 ^ 63) then negsuc n else negsuc 9_223_372_036_854_775_807

-- `strconv.Atoi`: `none` is an error. Next to an error it returns 0, or the nearest value where the
-- number is out of range.
unfoldable pub atoi : Text → Option ℤ
unfolding parse_int
atoi s = elim (parse_int s) [ none ↦ none | some n ↦ if is_int n then some n else none ]

itoa_large : itoa (pos 1_577_880_000_000) ≡ codes "1577880000000"
unfolding itoa
itoa_large = refl

atoi_negative : atoi (codes "-12") ≡ some (negsuc 11)
unfolding atoi
atoi_negative = refl

atoi_large : atoi (codes "9223372036854775808") ≡ none
unfolding atoi
atoi_large = refl

atoi_bad : atoi (codes "4x") ≡ none
unfolding atoi
atoi_bad = refl

fields_example : fields (codes " 1.5  TB ") ≡ codes "1.5" ∷ codes "TB" ∷ []
unfolding fields
fields_example = refl

trim_example : trim_space (codes " a b ") ≡ codes "a b"
unfolding trim_space
trim_example = refl

split_example : split_lines (codes "a\n\nb") ≡ codes "a" ∷ [] ∷ codes "b" ∷ []
unfolding split
split_example = refl
