-- ===== src/Regex/Lines.antt =====
-- Patterns that begin with `^` in a text of several lines.
use qnapexporter.Base.{
  ℕ, zero, suc, ◌++◌, ◌==◌, Bool, true, false, none, some, List, [], ◌∷◌, newline, All, Text, ◌≡◌,
  refl, arith, append_assoc, append-nil, ◌∙◌,
}
use qnapexporter.Regex.{
  Class, test, space, Piece, one, many, byte, open_group, close_group, line_start, match_front,
  find_from, find_submatch,
}
use qnapexporter.Regex.Laws.{OneLine, lits, line_after, match_front-lits}

-- Lines, each with its newline.
abbrev pub joined : List Text → Text
joined [] = []
joined (l ∷ ls) = l ++ newline ∷ joined ls

-- The pattern does not match at the front of the line, whatever follows it.
abbrev pub Misses : List Piece → Text → Type 0
Misses ps line = (t : Text) → match_front ps true false [] (line ++ newline ∷ t) ≡ none

find_from-rest_of_line :
    (ps : List Piece) (line t : Text)
    → OneLine line
    → find_from (line_start ∷ ps) false (line ++ newline ∷ t) ≡ find_from (line_start ∷ ps) true t
unfolding find_from match_front
find_from-rest_of_line ps [] t h = refl
find_from-rest_of_line ps (x ∷ line) t (hx, h) =
    let other : (x == newline) ≡ false = ground arith in
    rw other (find_from-rest_of_line ps line t h)

find_from-line :
    (ps : List Piece) (line t : Text)
    → OneLine line
    → Misses ps line
    → find_from (line_start ∷ ps) true (line ++ newline ∷ t) ≡ find_from (line_start ∷ ps) true t
unfolding find_from match_front
find_from-line ps [] t h miss =
    let m : match_front ps true false [] (newline ∷ t) ≡ none = miss t in
    rw (m, find_from, match_front) refl
find_from-line ps (x ∷ line) t (hx, h) miss =
    let other : (x == newline) ≡ false = ground arith in
    let m : match_front ps true false [] (x ∷ (line ++ newline ∷ t)) ≡ none = miss t in
    rw (m, find_from, match_front) (rw other (find_from-rest_of_line ps line t h))

-- Lines at whose front the pattern does not match are passed over.
pub find_submatch-joined :
    (ps : List Piece) (before : List Text) (t : Text)
    → All OneLine before
    → All (Misses ps) before
    → find_submatch (line_start ∷ ps) (joined before ++ t) ≡ find_submatch (line_start ∷ ps) t
unfolding find_submatch
find_submatch-joined ps [] t h miss = refl
find_submatch-joined ps (l ∷ before) t (hl, h) (ml, miss) =
    rw append_assoc
      (find_from-line ps l (joined before ++ t) hl ml ∙ find_submatch-joined ps before t h miss)

pub find_submatch-front :
    (ps : List Piece) (s g r : Text)
    → match_front ps true false [] s ≡ some (g, r)
    → find_submatch (line_start ∷ ps) s ≡ some g
unfolding find_submatch find_from match_front
find_submatch-front ps [] g r h = rw (h, find_submatch, find_from, match_front) refl
find_submatch-front ps (x ∷ s) g r h = rw (h, find_submatch, find_from, match_front) refl

abbrev pub spaces : ℕ → Text → Text
spaces zero s = s
spaces (suc n) s = b' ' ∷ spaces n s

match_front-spaces :
    (ps : List Piece) (n : ℕ) (s : Text) (r : Text × Text)
    → match_front (many space ∷ ps) false false [] s ≡ some r
    → match_front (many space ∷ ps) false false [] (spaces n s) ≡ some r
unfolding match_front
match_front-spaces ps zero s r h = h
match_front-spaces ps (suc n) s r h = rw (match_front-spaces ps n s r h) refl

-- A run of bytes of a class takes all of them, if what follows it lets the rest match at once.
match_front-run :
    (c : Class) (ps : List Piece) (start : Bool) (g ds after : Text) (rest : Text)
    → All (λ d. test c d ≡ true) ds
    → ((st : Bool) (g' : Text)
        → match_front (many c ∷ close_group ∷ ps) st true g' after ≡ some (g', rest))
    → match_front (many c ∷ close_group ∷ ps) start true g (ds ++ after) ≡ some (g ++ ds, rest)
unfolding match_front
match_front-run c ps start g [] after rest h ends = ends start g ∙ rw append-nil refl
match_front-run c ps start g (d ∷ ds) after rest (hd, h) ends =
    let ih = match_front-run c ps (d == newline) (g ++ d ∷ []) ds after rest h ends in
    rw (hd, match_front) (rw ih (rw append_assoc refl))

-- `name\s*:\s*(c+)` with what follows it.
abbrev pub after_name : Class → List Piece → List Piece
after_name c ps =
    many space ∷ one (byte b':') ∷ many space ∷ open_group ∷ one c ∷ many c ∷ close_group ∷ ps

-- A line: the name, blanks, a colon, a blank, and what follows.
abbrev pub entry : Text → ℕ → Text → Text
entry name pad value = name ++ b' ' ∷ spaces pad (b':' ∷ b' ' ∷ value)

match_front-behind_colon :
    (c : Class) (ps : List Piece) (d : ℕ) (ds after rest : Text)
    → test space d ≡ false
    → test c d ≡ true
    → All (λ x. test c x ≡ true) ds
    → ((st : Bool) (g : Text)
        → match_front (many c ∷ close_group ∷ ps) st true g after ≡ some (g, rest))
    → match_front (after_name c ps) false false [] (b':' ∷ b' ' ∷ d ∷ (ds ++ after))
      ≡ some (d ∷ ds, rest)
unfolding match_front
match_front-behind_colon c ps d ds after rest visible hd hds ends =
    let run = match_front-run c ps (d == newline) (d ∷ []) ds after rest hds ends in
    rw (visible, match_front) (rw (hd, match_front) (rw run refl))

-- The value of a field is the run of bytes behind the colon.
pub match_front-entry :
    (w : Text) (c : Class) (ps : List Piece) (pad d : ℕ) (ds after rest : Text)
    → line_after true w ≡ false
    → test space d ≡ false
    → test c d ≡ true
    → All (λ x. test c x ≡ true) ds
    → ((st : Bool) (g : Text)
        → match_front (many c ∷ close_group ∷ ps) st true g after ≡ some (g, rest))
    → match_front (lits w ++ after_name c ps) true false [] (entry w pad (d ∷ (ds ++ after)))
      ≡ some (d ∷ ds, rest)
match_front-entry w c ps pad d ds after rest inside visible hd hds ends =
    match_front-lits w (after_name c ps) true []
      (b' ' ∷ spaces pad (b':' ∷ b' ' ∷ d ∷ (ds ++ after)))
    ∙ rw inside (
        match_front-spaces
          (one (byte b':') ∷ many space ∷ open_group ∷ one c ∷ many c ∷ close_group ∷ ps) (suc pad)
          (b':' ∷ b' ' ∷ d ∷ (ds ++ after)) (d ∷ ds, rest)
          (match_front-behind_colon c ps d ds after rest visible hd hds ends))
