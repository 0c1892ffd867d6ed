-- ===== src/Exporter/Metric/Quote/Line.antt =====
-- A quoted text stays on its line.
use qnapexporter.Base.{
  ℕ, ◌/◌, ◌%◌, ◌||◌, ◌==◌, Option-cases, none, some, [], ◌∷◌, ltb, Bool-cases, inl, inr, Text,
  All-append, IsOneLine, ◌≡◌, ◌≢◌, arith,
}
use qnapexporter.Exporter.Metric.Quote.{hex_digit, short_escape, quote_byte, quote_bytes, quote}

hex_digit-line : (d : ℕ) → hex_digit d ≢ 10
unfolding hex_digit
hex_digit-line d = ground arith

short_escape-line : (c l : ℕ) → short_escape c ≡ some l → l ≢ 10
unfolding short_escape
short_escape-line c l h = ground arith

plain-line : (c : ℕ) → short_escape c ≡ none → c ≢ 10
unfolding short_escape
plain-line c h = ground arith

quote_byte-line : (c : ℕ) → IsOneLine (quote_byte c)
unfolding quote_byte
quote_byte-line c = elim (Bool-cases (c == b'"' || c == b'\\')) [
  | inl special ↦ rw special (ground arith)
  | inr other ↦ elim (Option-cases (short_escape c)) [
    | inr (l, e) ↦ rw (other, e) (ground (arith, short_escape-line c l e))
    | inl e ↦ elim (Bool-cases (ltb c 32 || c == 127)) [
      | inl control ↦
          rw (other, e, control) (ground (arith, hex_digit-line (c / 16), hex_digit-line (c % 16)))
      | inr printable ↦ rw (other, e, printable) (plain-line c e, tt)
    ]
  ]
]

quote_bytes-line : (s : Text) → IsOneLine (quote_bytes s)
unfolding quote_bytes
quote_bytes-line [] = tt
quote_bytes-line (c ∷ s) =
    All-append _ (quote_byte c) (quote_bytes s) (quote_byte-line c) (quote_bytes-line s)

pub quote-IsOneLine : (s : Text) → IsOneLine (quote s)
unfolding quote
quote-IsOneLine s =
    (ground arith, All-append _ (quote_bytes s) (b'"' ∷ []) (quote_bytes-line s) (ground arith, tt))
