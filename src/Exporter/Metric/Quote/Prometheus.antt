-- ===== src/Exporter/Metric/Quote/Prometheus.antt =====
-- Quoted texts as Prometheus reads the value of a label: it knows the escapes \\, \" and \n alone.
use qnapexporter.Base.{
  ℕ, ◌++◌, ◌<◌, ◌||◌, ◌&&◌, ◌==◌, Bool, true, false, Option, none, some, [], ◌∷◌, ltb, leb,
  if◌then◌else◌, Text, All, Bool-cases, Option-cases, inl, inr, newline, ◌⊎◌, ◌≡◌, refl, ◌∙◌, arith,
  append_assoc,
}
use qnapexporter.Exporter.Metric.Quote.{short_escape, quote_byte, quote_bytes, quote}

-- What an escape stands for.
label_escape : ℕ → Option ℕ
label_escape c =
    if c == b'\\'
    then some b'\\'
    else if c == b'"'
    then some b'"'
    else if c == b'n'
    then some newline
    else none

abbrev consed : ℕ → Option (Text × Text) → Option (Text × Text)
consed c none = none
consed c (some (s, rest)) = some (c ∷ s, rest)

-- A value up to its closing quote, and what is behind it; the flag says that a backslash was read.
read_value : Bool → Text → Option (Text × Text)
unfolding label_escape
read_value escaped [] = none
read_value false (c ∷ s) = elim (c == b'"') [
  | true ↦ some ([], s)
  | false ↦ elim (c == b'\\') [
    | true ↦ read_value true s
    | false ↦ elim (c == newline) [ true ↦ none | false ↦ consed c (read_value false s) ]
  ]
]
read_value true (c ∷ s) = elim (label_escape c) [
  | none ↦ none
  | some b ↦ consed b (read_value false s)
]

unfoldable pub label_value : Text → Option (Text × Text)
unfolding read_value
label_value [] = none
label_value (c ∷ s) = if c == b'"' then read_value false s else none

-- ASCII without the control bytes, but for the newline.
abbrev pub is_plain : ℕ → Bool
is_plain c = (leb 32 c && ltb c 127) || c == newline

abbrev pub all_plain : Text → Bool
all_plain [] = true
all_plain (c ∷ s) = is_plain c && all_plain s

special-read :
    (c : ℕ) (t : Text)
    → (c == b'"' || c == b'\\') ≡ true
    → (label_escape c ≡ some c) × (is_plain c ≡ true)
unfolding label_escape
special-read c t h = ground arith

short-read :
    (c l : ℕ)
    → short_escape c ≡ some l
    → ((is_plain c ≡ true) × (c ≡ newline) × (label_escape l ≡ some newline))
      ⊎ ((is_plain c ≡ false) × (label_escape l ≡ none))
unfolding short_escape label_escape
short-read c l h = ground arith

control-read : (c : ℕ) → short_escape c ≡ none → (ltb c 32 || c == 127) ≡ true → is_plain c ≡ false
unfolding short_escape
control-read c h k = ground arith

printable-read :
    (c : ℕ)
    → c < 128
    → short_escape c ≡ none
    → (c == b'"' || c == b'\\') ≡ false
    → (ltb c 32 || c == 127) ≡ false
    → (is_plain c ≡ true)
      × ((c == b'"') ≡ false)
      × ((c == b'\\') ≡ false)
      × ((c == newline) ≡ false)
unfolding short_escape
printable-read c small h k l = ground arith

read-byte :
    (c : ℕ) (t : Text)
    → c < 128
    → read_value false (quote_byte c ++ t)
      ≡ (if is_plain c then consed c (read_value false t) else none)
unfolding read_value quote_byte
read-byte c t small = elim (Bool-cases (c == b'"' || c == b'\\')) [
  | inl special ↦
      let (escape, plain) = special-read c t special in
      rw (special, quote_byte) (rw (escape, read_value) (rw plain refl))
  | inr other ↦ elim (Option-cases (short_escape c)) [
    | inr (l, e) ↦ elim (short-read c l e) [
      | inl (plain, same, escape) ↦
          rw (other, quote_byte)
            (rw (e, quote_byte) (rw (escape, read_value) (rw plain (rw same refl))))
      | inr (hidden, escape) ↦
          rw (other, quote_byte) (rw (e, quote_byte) (rw (escape, read_value) (rw hidden refl)))
    ]
    | inl e ↦ elim (Bool-cases (ltb c 32 || c == 127)) [
      | inl control ↦
          rw (other, quote_byte)
            (rw (e, quote_byte) (rw (control, quote_byte) (rw (control-read c e control) refl)))
      | inr printable ↦
          let (plain, no_quote, no_escape, no_line) = printable-read c small e other printable in
          rw (other, quote_byte)
            (rw (e, quote_byte)
              (rw (printable, quote_byte)
                (rw plain (
                  rw (no_quote, read_value)
                    (rw (no_escape, read_value) (rw (no_line, read_value) refl))))))
    ]
  ]
]

bytes-read :
    (s rest : Text)
    → All (λ c. c < 128) s
    → read_value false (quote_bytes s ++ b'"' ∷ rest)
      ≡ (if all_plain s then some (s, rest) else none)
unfolding quote_bytes read_value
bytes-read [] rest h = refl
bytes-read (c ∷ s) rest (small, h) =
    let split_up = append_assoc (quote_byte c) (quote_bytes s) (b'"' ∷ rest) in
    rw split_up
      (rw (read-byte c (quote_bytes s ++ b'"' ∷ rest) small) (rw (bytes-read s rest h) (cases c)))
  where
    cases :
        (d : ℕ)
        → (if is_plain d then consed d (if all_plain s then some (s, rest) else none) else none)
          ≡ (if all_plain (d ∷ s) then some (d ∷ s, rest) else none)
    cases d = elim (Bool-cases (is_plain d)) [
      | inl shown ↦ elim (Bool-cases (all_plain s)) [
        | inl every ↦ rw shown (rw every refl)
        | inr missing ↦ rw shown (rw missing refl)
      ]
      | inr hidden ↦ rw hidden refl
    ]

-- A text of ASCII that was quoted reads back as itself if none of its bytes is a control byte other than
-- the newline; and with such a byte it is no value of a label.
pub label_value-quote :
    (s rest : Text)
    → All (λ c. c < 128) s
    → label_value (quote s ++ rest) ≡ (if all_plain s then some (s, rest) else none)
unfolding label_value quote
label_value-quote s rest h =
    rw (append_assoc (quote_bytes s) (b'"' ∷ []) rest) (bytes-read s rest h)

small_bytes : (s : Text) → all_plain s ≡ true → All (λ c. c < 128) s
small_bytes [] h = tt
small_bytes (c ∷ s) h = (ground (arith, h), small_bytes s (ground (arith, h)))

pub label_value-plain :
    (s rest : Text) → all_plain s ≡ true → label_value (quote s ++ rest) ≡ some (s, rest)
label_value-plain s rest h = label_value-quote s rest (small_bytes s h) ∙ rw h refl
