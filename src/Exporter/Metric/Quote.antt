-- ===== src/Exporter/Metric/Quote.antt =====
-- `%q` of package fmt, for text whose bytes from 128 on are printable UTF-8: these stay as they are.
pub mod Line
pub mod Prometheus
use qnapexporter.Base.{
  ℕ, ◌++◌, ◌/◌, ◌%◌, ◌+◌, ◌-◌, ◌||◌, ◌==◌, Option, none, some, [], ◌∷◌, ltb, if◌then◌else◌, Text,
  codes, ◌≡◌, refl,
}

hex_digit : ℕ → ℕ
hex_digit d = if ltb d 10 then b'0' + d else b'a' + (d - 10)

-- The letter behind the backslash for the control bytes that have one.
short_escape : ℕ → Option ℕ
short_escape c =
    if c == 7
    then some b'a'
    else if c == 8
    then some b'b'
    else if c == 12
    then some b'f'
    else if c == 10
    then some b'n'
    else if c == 13
    then some b'r'
    else if c == 9
    then some b't'
    else if c == 11
    then some b'v'
    else none

quote_byte : ℕ → Text
unfolding hex_digit short_escape
quote_byte c = if c == b'"' || c == b'\\' then b'\\' ∷ c ∷ [] else (elim (short_escape c) [
  | some letter ↦ b'\\' ∷ letter ∷ []
  | none ↦
      if ltb c 32 || c == 127
      then b'\\' ∷ b'x' ∷ hex_digit (c / 16) ∷ hex_digit (c % 16) ∷ []
      else c ∷ []
])

quote_bytes : Text → Text
quote_bytes [] = []
quote_bytes (c ∷ s) = quote_byte c ++ quote_bytes s

unfoldable pub quote : Text → Text
unfolding quote_bytes quote_byte
quote s = b'"' ∷ (quote_bytes s ++ b'"' ∷ [])

quote_example : quote (codes "a\"b\n") ≡ codes "\"a\\\"b\\n\""
unfolding quote
quote_example = refl
