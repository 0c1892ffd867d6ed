-- ===== src/Regex/Laws.antt =====
-- Laws of matching and of replacing.
use qnapexporter.Base.{
  ℕ, zero, suc, ◌++◌, ◌-◌, ◌==◌, ==_refl, map, Bool, true, false, none, some, List, [], ◌∷◌, Text,
  newline, length, All, ◌≡◌, ◌≢◌, refl, ap, ◌∙◌, arith, append-nil, append_assoc,
}
use qnapexporter.Regex.{
  is_blank, Piece, one, many, open_group, close_group, byte, any, space, Part, expand, match_front,
  replace_from,
}

abbrev pub OneLine : Text → Type 0
OneLine = All (λ c. c ≢ newline)

-- `.*` up to the end of a group takes the whole line.
pub match_front-rest :
    (start : Bool) (g s : Text)
    → OneLine s
    → match_front (many any ∷ close_group ∷ []) start true g s ≡ some (g ++ s, [])
unfolding match_front
match_front-rest start g [] h = rw append-nil
match_front-rest start g (x ∷ s) (hx, hs) =
    ground (arith, match_front-rest (x == newline) (g ++ x ∷ []) s hs, append_assoc g (x ∷ []) s)

-- Bytes that belong to a match already made leave nothing.
replace_from-skip :
    (ps : List Piece) (sub : List Part) (start : Bool) (s : Text) (skip : ℕ)
    → skip ≡ length s
    → replace_from ps sub start skip s ≡ []
unfolding replace_from
replace_from-skip ps sub start [] skip h = refl
replace_from-skip ps sub start (x ∷ s) zero h = absurd (omega arith)
replace_from-skip ps sub start (x ∷ s) (suc skip) h =
    replace_from-skip ps sub (x == newline) s skip (omega arith)

-- A match of the whole text leaves the expanded substitution.
replace_from-whole :
    (ps : List Piece) (sub : List Part) (start : Bool) (x : ℕ) (s g : Text)
    → match_front ps start false [] (x ∷ s) ≡ some (g, [])
    → replace_from ps sub start zero (x ∷ s) ≡ expand sub g
unfolding replace_from
replace_from-whole ps sub start x s g found =
    let passed =
      replace_from-skip ps sub (x == newline) s (length s - length {A = ℕ} []) (omega arith) in
    rw (found, replace_from) (ap (λ r. expand sub g ++ r) passed ∙ append-nil (expand sub g))

-- Whether a text begins a line, behind another.
abbrev pub line_after : Bool → Text → Bool
line_after start [] = start
line_after start (x ∷ s) = line_after (x == newline) s

abbrev pub lits : Text → List Piece
lits w = map (λ b. one (byte b)) w

-- Fixed bytes match themselves, outside the group.
pub match_front-lits :
    (w : Text) (ps : List Piece) (start : Bool) (g s : Text)
    → match_front (lits w ++ ps) start false g (w ++ s)
      ≡ match_front ps (line_after start w) false g s
unfolding match_front
match_front-lits [] ps start g s = refl
match_front-lits (x ∷ w) ps start g s =
    rw (==_refl x, match_front) (match_front-lits w ps (x == newline) g s)

-- The group `(\s.*)` at the end of a pattern.
abbrev pub line_group : List Piece
line_group = open_group ∷ one space ∷ many any ∷ close_group ∷ []

match_front-line_group :
    (start : Bool) (c : ℕ) (s : Text)
    → is_blank c ≡ true
    → OneLine s
    → match_front line_group start false [] (c ∷ s) ≡ some (c ∷ s, [])
unfolding match_front
match_front-line_group start c s hc hs =
    rw (hc, match_front) (match_front-rest (c == newline) (c ∷ []) s hs)

-- Fixed bytes and then the rest of the line, captured: the whole of it is replaced.
pub replace_from-line_group :
    (b : ℕ) (w : Text) (sub : List Part) (start : Bool) (c : ℕ) (s : Text)
    → is_blank c ≡ true
    → OneLine s
    → replace_from (lits (b ∷ w) ++ line_group) sub start zero (b ∷ (w ++ c ∷ s))
      ≡ expand sub (c ∷ s)
replace_from-line_group b w sub start c s hc hs =
    replace_from-whole (lits (b ∷ w) ++ line_group) sub start b (w ++ c ∷ s) (c ∷ s) (
      match_front-lits (b ∷ w) line_group start [] (c ∷ s)
      ∙ match_front-line_group (line_after start (b ∷ w)) c s hc hs)

-- The two bytes never stand side by side.
abbrev pub LacksPair : ℕ → ℕ → Text → Type 0
LacksPair b c [] = Unit
LacksPair b c (x ∷ []) = Unit
LacksPair b c (x ∷ y ∷ s) = (x ≡ b → y ≢ c) × LacksPair b c (y ∷ s)

match_front-pair :
    (b c : ℕ) (ps : List Piece) (start inside : Bool) (g : Text) (x y : ℕ) (s : Text)
    → (x ≡ b → y ≢ c)
    → match_front (one (byte b) ∷ one (byte c) ∷ ps) start inside g (x ∷ y ∷ s) ≡ none
unfolding match_front
match_front-pair b c ps start inside g x y s h = ground arith

-- A pattern that begins with two fixed bytes is looked for behind a text that lacks this pair.
pub replace_from-behind :
    (b c : ℕ) (ps : List Piece) (sub : List Part) (start : Bool) (pre s : Text)
    → LacksPair b c pre
    → b ≢ c
    → replace_from (one (byte b) ∷ one (byte c) ∷ ps) sub start zero (pre ++ b ∷ s)
      ≡ pre
        ++ replace_from (one (byte b) ∷ one (byte c) ∷ ps) sub (line_after start pre) zero (b ∷ s)
unfolding replace_from
replace_from-behind b c ps sub start [] s h ne = refl
replace_from-behind b c ps sub start (x ∷ []) s h ne =
    let miss = match_front-pair b c ps start false [] x b s (λ _. ne) in rw (miss, replace_from)
replace_from-behind b c ps sub start (x ∷ y ∷ pre) s (hx, h) ne =
    let miss = match_front-pair b c ps start false [] x y (pre ++ b ∷ s) hx in
    let rest = replace_from-behind b c ps sub (x == newline) (y ∷ pre) s h ne in
    rw (miss, replace_from) (ap (◌∷◌ x) rest)
