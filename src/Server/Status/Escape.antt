-- ===== src/Server/Status/Escape.antt =====
-- How package html/template escapes what the template of lib/status/status.go shows: in text, and as the
-- value of the attribute href. Bytes from 128 on stand for themselves.
use mathlib.Core.Path.{subst}
use qnapexporter.Base.{
  ℕ, ◌+◌, ◌-◌, ◌/◌, ◌%◌, ◌++◌, ◌||◌, ◌&&◌, ◌==◌, Bool, true, false, none, some, Option, [], ◌∷◌,
  ltb, leb, same, contains, cut, is_digit, if◌then◌else◌, Text, codes, All, All-append, arith, ◌≡◌,
  refl, sym, Bool-cases, inl, inr,
}

-- `htmlReplacementTable`
unfoldable pub escape_byte : ℕ → Text
escape_byte c =
    if c == 0
    then 0xef ∷ 0xbf ∷ 0xbd ∷ []
    else if c == b'"'
    then codes "&#34;"
    else if c == b'&'
    then codes "&amp;"
    else if c == b'\''
    then codes "&#39;"
    else if c == b'+'
    then codes "&#43;"
    else if c == b'<'
    then codes "&lt;"
    else if c == b'>'
    then codes "&gt;"
    else c ∷ []

unfoldable pub html_escape : Text → Text
html_escape [] = []
html_escape (c ∷ s) = escape_byte c ++ html_escape s

-- Lower case, as `strings.EqualFold` compares texts without a k: U+017F is an s.
abbrev lower : ℕ → ℕ
lower c = if leb b'A' c && leb c b'Z' then c + 32 else c

abbrev fold_case : Text → Text
fold_case [] = []
fold_case (c ∷ []) = lower c ∷ []
fold_case (c ∷ d ∷ s) =
    let rest = fold_case (d ∷ s) in
    let others = fold_case s in if c == 0xc5 && d == 0xbf then b's' ∷ others else lower c ∷ rest

-- `isSafeURL`
unfoldable pub is_safe_url : Text → Bool
is_safe_url s =
    let (protocol, rest) = cut b':' s in
    let name = fold_case protocol in
    elim rest [
      | none ↦ true
      | some _ ↦
          contains protocol (codes "/")
          || same name (codes "http")
          || same name (codes "https")
          || same name (codes "mailto")
    ]

abbrev is_hex : ℕ → Bool
is_hex c = is_digit c || (leb b'a' c && leb c b'f') || (leb b'A' c && leb c b'F')

abbrev hex_pair : Text → Bool
hex_pair [] = false
hex_pair (c ∷ []) = false
hex_pair (c ∷ d ∷ s) = is_hex c && is_hex d

abbrev one_of : Text → ℕ → Bool
one_of [] c = false
one_of (d ∷ ds) c = c == d || one_of ds c

-- The bytes that `urlnormalizer` keeps.
abbrev is_kept : ℕ → Bool
is_kept c =
    is_digit c
    || (leb b'a' c && leb c b'z')
    || (leb b'A' c && leb c b'Z')
    || one_of (codes "!#$&*+,/:;=?@[]-._~") c

abbrev lower_hex : ℕ → ℕ
lower_hex d = if ltb d 10 then b'0' + d else b'a' + (d - 10)

unfoldable pub normalize_url : Text → Text
normalize_url [] = []
normalize_url (c ∷ s) =
    let rest = normalize_url s in
    if is_kept c || (c == b'%' && hex_pair s)
    then c ∷ rest
    else b'%' ∷ lower_hex (c / 16) ∷ lower_hex (c % 16) ∷ rest

-- What stands for a text in `href="…"`.
unfoldable pub href : Text → Text
href s = html_escape (normalize_url (if is_safe_url s then s else codes "#ZgotmplZ"))

-- No byte of the text opens or closes a tag.
abbrev pub NoTag : Text → Type 0
NoTag = All (λ c. ((c == b'<') ≡ false) × ((c == b'>') ≡ false))

escape_byte-NoTag : (c : ℕ) → NoTag (escape_byte c)
unfolding escape_byte
escape_byte-NoTag c = ground arith

pub html_escape-NoTag : (s : Text) → NoTag (html_escape s)
unfolding html_escape
html_escape-NoTag [] = tt
html_escape-NoTag (c ∷ s) =
    All-append _ (escape_byte c) (html_escape s) (escape_byte-NoTag c) (html_escape-NoTag s)

pub href-NoTag : (s : Text) → NoTag (href s)
unfolding href
href-NoTag s = html_escape-NoTag (normalize_url (if is_safe_url s then s else codes "#ZgotmplZ"))

-- The byte that an entity of the table stands for.
decode : Text → Option ℕ
decode name =
    if same name (codes "#34")
    then some b'"'
    else if same name (codes "amp")
    then some b'&'
    else if same name (codes "#39")
    then some b'\''
    else if same name (codes "#43")
    then some b'+'
    else if same name (codes "lt")
    then some b'<'
    else if same name (codes "gt")
    then some b'>'
    else none

abbrev put : Text → Option Text → Option Text
put t none = none
put t (some s) = some (t ++ s)

-- Reading a text with entities: what has been read of one, if any.
reading : Option Text → Text → Option Text
unfolding decode
reading none [] = some []
reading (some name) [] = none
reading none (c ∷ s) = elim (c == b'&') [
  | true ↦ reading (some []) s
  | false ↦ put (c ∷ []) (reading none s)
]
reading (some name) (c ∷ s) = elim (c == b';') [
  | true ↦ elim (decode name) [ none ↦ none | some d ↦ put (d ∷ []) (reading none s) ]
  | false ↦ reading (some (name ++ c ∷ [])) s
]

pub html_unescape : Text → Option Text
unfolding reading
html_unescape s = reading none s

abbrev pub visible : ℕ → Text
visible c = if c == 0 then 0xef ∷ 0xbf ∷ 0xbd ∷ [] else c ∷ []

-- The text with U+FFFD for each zero byte.
abbrev pub without_nul : Text → Text
without_nul [] = []
without_nul (c ∷ s) = visible c ++ without_nul s

put-nul :
    (r : Option Text) → put (0xef ∷ []) (put (0xbf ∷ []) (put (0xbd ∷ []) r)) ≡ put (visible 0) r
put-nul none = refl
put-nul (some s) = refl

-- A byte is one of the table's, or stands for itself.
data ByteCase : ℕ → Type 0 where
  nul : ByteCase 0
  quote_mark : ByteCase b'"'
  ampersand : ByteCase b'&'
  apostrophe : ByteCase b'\''
  plus_sign : ByteCase b'+'
  less : ByteCase b'<'
  greater : ByteCase b'>'
  plain : (c : ℕ) → escape_byte c ≡ c ∷ [] → visible c ≡ c ∷ [] → (c == b'&') ≡ false → ByteCase c

at : (c d : ℕ) → (c == d) ≡ true → ByteCase d → ByteCase c
at c d e h = subst ByteCase (sym (ground (arith, e))) h

shown_cases : (c : ℕ) → ByteCase c
unfolding escape_byte
shown_cases c = elim (Bool-cases (c == 0)) [
  | inl e ↦ at c 0 e nul
  | inr n0 ↦ elim (Bool-cases (c == b'"')) [
    | inl e ↦ at c b'"' e quote_mark
    | inr n1 ↦ elim (Bool-cases (c == b'&')) [
      | inl e ↦ at c b'&' e ampersand
      | inr n2 ↦ elim (Bool-cases (c == b'\'')) [
        | inl e ↦ at c b'\'' e apostrophe
        | inr n3 ↦ elim (Bool-cases (c == b'+')) [
          | inl e ↦ at c b'+' e plus_sign
          | inr n4 ↦ elim (Bool-cases (c == b'<')) [
            | inl e ↦ at c b'<' e less
            | inr n5 ↦ elim (Bool-cases (c == b'>')) [
              | inl e ↦ at c b'>' e greater
              | inr n6 ↦ plain c (rw (n0, n1, n2, n3, n4, n5, n6) refl) (rw n0 refl) n2
            ]
          ]
        ]
      ]
    ]
  ]
]

reading-shown :
    (c : ℕ) (t : Text)
    → ByteCase c
    → reading none (escape_byte c ++ t) ≡ put (visible c) (reading none t)
unfolding reading escape_byte
reading-shown _ t nul = put-nul (reading none t)
reading-shown _ t quote_mark = refl
reading-shown _ t ampersand = refl
reading-shown _ t apostrophe = refl
reading-shown _ t plus_sign = refl
reading-shown _ t less = refl
reading-shown _ t greater = refl
reading-shown _ t (plain c self seen no_entity) = rw self (rw seen (rw (no_entity, reading) refl))

reading-byte :
    (c : ℕ) (t : Text) → reading none (escape_byte c ++ t) ≡ put (visible c) (reading none t)
reading-byte c t = reading-shown c t (shown_cases c)

-- Reading what was escaped gives back the text, but for zero bytes.
pub html_unescape-html_escape : (s : Text) → html_unescape (html_escape s) ≡ some (without_nul s)
unfolding html_unescape html_escape
html_unescape-html_escape s = go s
  where
    go : (s : Text) → reading none (html_escape s) ≡ some (without_nul s)
    go [] = refl
    go (c ∷ s) = rw (reading-byte c (html_escape s)) (rw (go s) refl)
