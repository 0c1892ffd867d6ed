-- ===== src/Exporter/Nvme/Log.antt =====
-- The text of a SMART log as `nvme smart-log` prints it, and how a pattern finds its line.
use Prim.Native.String.{String}
use qnapexporter.Base.{
  ℕ, ◌==◌, has_prefix, none, take, ◌++◌, Bool, true, false, some, List, [], ◌∷◌, newline, All,
  All-append, Text, codes, ◌≡◌, ◌≢◌, refl, ap, sym, zero, suc, ◌∙◌, arith, append_assoc,
}
use qnapexporter.Regex.{
  Class, digit, digit_or_comma, test, space, Piece, many, close_group, match_front, find_submatch,
  line_start,
}
use qnapexporter.Regex.Laws.{OneLine, lits, line_after}
use qnapexporter.Regex.Lines.{
  joined, Misses, spaces, entry, after_name, match_front-entry, find_submatch-joined,
  find_submatch-front,
}

-- A number that is not empty, of digits, or of digits and commas.
abbrev pub IsNumber : Class → Text → Type 0
IsNumber c [] = ⊥
IsNumber c (d ∷ ds) = All (λ x. test c x ≡ true) (d ∷ ds)

-- The texts of the eight numbers.
pub record SmartLog : Type 0 where
  pub temperature : Text
  pub available_spare : Text
  pub available_spare_threshold : Text
  pub percentage_used : Text
  pub power_on_hours : Text
  pub power_cycles : Text
  pub unsafe_shutdowns : Text
  pub media_errors : Text

pub record IsSmartLog (l : SmartLog) : Type 0 where
  pub temperature : IsNumber digit l.temperature
  pub available_spare : IsNumber digit l.available_spare
  pub available_spare_threshold : IsNumber digit l.available_spare_threshold
  pub percentage_used : IsNumber digit l.percentage_used
  pub power_on_hours : IsNumber digit_or_comma l.power_on_hours
  pub power_cycles : IsNumber digit_or_comma l.power_cycles
  pub unsafe_shutdowns : IsNumber digit_or_comma l.unsafe_shutdowns
  pub media_errors : IsNumber digit_or_comma l.media_errors

-- A line of the log, with other lines above it: its name, how many more blanks than one pad it, the number, and what follows.
pub record Row : Type 0 where
  pub above : List Text
  pub name : Text
  pub pad : ℕ
  pub value : Text
  pub suffix : Text

abbrev pub log : List Row → Text → Text
log [] tail = tail
log (r ∷ rows) tail =
    joined r.above ++ entry r.name r.pad (r.value ++ (r.suffix ++ newline ∷ log rows tail))

abbrev pub row : (Text → List Text) → (Text → ℕ) → String → Text → String → Row
row others pad name value suffix = record {
  above = others (codes name);
  name = codes name;
  pad = pad (codes name);
  value = value;
  suffix = codes suffix;
}

-- The lines, each with the lines above it that `others` says, its name padded with one blank and as many
-- more as `pad` says.
abbrev pub log_rows : (Text → List Text) → (Text → ℕ) → SmartLog → List Row
log_rows others pad l =
    row others pad "temperature" l.temperature " C"
    ∷ row others pad "available_spare" l.available_spare "%"
    ∷ row others pad "available_spare_threshold" l.available_spare_threshold "%"
    ∷ row others pad "percentage_used" l.percentage_used "%"
    ∷ row others pad "power_cycles" l.power_cycles ""
    ∷ row others pad "power_on_hours" l.power_on_hours ""
    ∷ row others pad "unsafe_shutdowns" l.unsafe_shutdowns ""
    ∷ row others pad "media_errors" l.media_errors ""
    ∷ []

abbrev pub names : List Text
names =
    codes "temperature"
    ∷ codes "available_spare"
    ∷ codes "available_spare_threshold"
    ∷ codes "percentage_used"
    ∷ codes "power_cycles"
    ∷ codes "power_on_hours"
    ∷ codes "unsafe_shutdowns"
    ∷ codes "media_errors"
    ∷ []

-- A line that starts with none of the names.
abbrev pub IsOther : Text → Type 0
IsOther line = OneLine line × All (λ w. has_prefix line w ≡ false) names

Misses-unlike :
    (w : Text) (ps : List Piece) (start : Bool) (line t : Text)
    → OneLine w
    → has_prefix line w ≡ false
    → match_front (lits w ++ ps) start false [] (line ++ newline ∷ t) ≡ none
unfolding match_front
Misses-unlike [] ps start [] t hw unlike = absurd (cc)
Misses-unlike [] ps start (y ∷ line) t hw unlike = absurd (cc)
Misses-unlike (x ∷ w) ps start [] t (hx, hw) unlike = ground arith
Misses-unlike (x ∷ w) ps start (y ∷ line) t (hx, hw) unlike =
    ground (arith, Misses-unlike w ps (y == newline) line t hw)

-- Lines that do not start with the name.
abbrev pub Unlike : Text → List Text → Type 0
Unlike w lines = All OneLine lines × All (λ line. has_prefix line w ≡ false) lines

pub others-Unlike :
    (w : Text) (lines : List Text)
    → ((line : Text) → IsOther line → has_prefix line w ≡ false)
    → All IsOther lines
    → Unlike w lines
others-Unlike w [] get h = (tt, tt)
others-Unlike w (l ∷ lines) get (hl, h) =
    let (one, unlike) = others-Unlike w lines get h in ((hl.0, one), (get l hl, unlike))

-- A pattern for one of the names passes over such lines.
pub pass_others :
    (w : Text) (ps : List Piece) (lines : List Text) (t : Text)
    → OneLine w
    → Unlike w lines
    → find_submatch (line_start ∷ lits w ++ ps) (joined lines ++ t)
      ≡ find_submatch (line_start ∷ lits w ++ ps) t
pass_others w ps lines t hw (one, unlike) =
    find_submatch-joined (lits w ++ ps) lines t one (missed lines unlike)
  where
    missed :
        (ls : List Text)
        → All (λ line. has_prefix line w ≡ false) ls
        → All (Misses (lits w ++ ps)) ls
    missed [] h = tt
    missed (l ∷ ls) (hl, h) = ((λ t'. Misses-unlike w ps true l t' hw hl), missed ls h)

abbrev pub IsNumeric : Class → Type 0
IsNumeric c = (d : ℕ) → test c d ≡ true → (test space d ≡ false) × (d ≢ newline)

pub digit-IsNumeric : IsNumeric digit
unfolding test
digit-IsNumeric d h = (ground arith, ground arith)

pub comma-IsNumeric : IsNumeric digit_or_comma
unfolding test
comma-IsNumeric d h = (ground arith, ground arith)

number-OneLine : (c : Class) (s : Text) → IsNumeric c → All (λ x. test c x ≡ true) s → OneLine s
number-OneLine c [] n h = tt
number-OneLine c (d ∷ ds) n (hd, h) = ((n d hd).1, number-OneLine c ds n h)

pub number_lines : (c : Class) (s : Text) → IsNumeric c → IsNumber c s → OneLine s
number_lines c [] n h = tt
number_lines c (d ∷ ds) n h = number-OneLine c (d ∷ ds) n h

abbrev pub IsOneLine : Row → Type 0
IsOneLine r = OneLine r.name × OneLine r.value × OneLine r.suffix

abbrev pub Skips : List Piece → Row → Type 0
Skips ps r = (t : Text) → match_front ps true false [] (entry r.name r.pad t) ≡ none

spaces-append : (n : ℕ) (s t : Text) → spaces n (s ++ t) ≡ spaces n s ++ t
spaces-append zero s t = refl
spaces-append (suc n) s t = ap (◌∷◌ b' ') (spaces-append n s t)

spaces-OneLine : (n : ℕ) (s : Text) → OneLine s → OneLine (spaces n s)
spaces-OneLine zero s h = h
spaces-OneLine (suc n) s h = (ground arith, spaces-OneLine n s h)

entry-append : (w : Text) (pad : ℕ) (s t : Text) → entry w pad (s ++ t) ≡ entry w pad s ++ t
entry-append w pad s t = rw (append_assoc, spaces-append pad (b':' ∷ b' ' ∷ s) t) refl

skip_rows :
    (w : Text) (ps : List Piece) (rows : List Row) (tail : Text)
    → OneLine w
    → All IsOneLine rows
    → All (λ r. Unlike w r.above) rows
    → All (Skips (lits w ++ ps)) rows
    → find_submatch (line_start ∷ lits w ++ ps) (log rows tail)
      ≡ find_submatch (line_start ∷ lits w ++ ps) tail
skip_rows w ps [] tail one h above miss = refl
skip_rows w ps (r ∷ rows) tail one ((hw, hv, hs), h) (unlike, above) (m, miss) =
    let t = log rows tail in
    let vs = r.value ++ r.suffix in
    let line = entry r.name r.pad vs in
    let same : entry r.name r.pad (r.value ++ (r.suffix ++ newline ∷ t)) ≡ joined (line ∷ []) ++ t =
      ap (entry r.name r.pad) (sym (append_assoc r.value r.suffix (newline ∷ t)))
      ∙ entry-append r.name r.pad vs (newline ∷ t)
      ∙ sym (append_assoc line (newline ∷ []) t) in
    let one_line : OneLine line =
      All-append (λ c. c ≢ newline) r.name (b' ' ∷ spaces r.pad (b':' ∷ b' ' ∷ vs)) hw
        (spaces-OneLine (suc r.pad) (b':' ∷ b' ' ∷ vs)
          (ground arith, (ground arith, All-append (λ c. c ≢ newline) r.value r.suffix hv hs))) in
    let missed : Misses (lits w ++ ps) line = λ t'.
      ap (match_front (lits w ++ ps) true false [])
        (sym (entry-append r.name r.pad vs (newline ∷ t')))
      ∙ m (vs ++ newline ∷ t') in
    pass_others w ps r.above (entry r.name r.pad (r.value ++ (r.suffix ++ newline ∷ t))) one unlike
    ∙ ap (find_submatch (line_start ∷ lits w ++ ps)) same
    ∙ find_submatch-joined (lits w ++ ps) (line ∷ []) t (one_line, tt) (missed, tt)
    ∙ skip_rows w ps rows tail one h above miss

pub All-take {ℓ κ} :
    {A : Type ℓ} (P : A → Type κ) (n : ℕ) (xs : List A) → All P xs → All P (take n xs)
All-take P zero xs h = tt
All-take P (suc n) [] h = tt
All-take P (suc n) (x ∷ xs) (hx, h) = (hx, All-take P n xs h)

-- A pattern that skips the lines before one reads the number of that line.
pub read_row :
    (w : Text) (c : Class) (ps : List Piece) (before : List Row) (above : List Text) (pad : ℕ)
    (v after rest : Text)
    → line_after true w ≡ false
    → IsNumeric c
    → IsNumber c v
    → ((st : Bool) (g : Text)
        → match_front (many c ∷ close_group ∷ ps) st true g after ≡ some (g, rest))
    → OneLine w
    → All IsOneLine before
    → All (λ r. Unlike w r.above) before
    → Unlike w above
    → All (Skips (lits w ++ after_name c ps)) before
    → find_submatch
        (line_start ∷ lits w ++ after_name c ps)
        (log before (joined above ++ entry w pad (v ++ after)))
      ≡ some v
read_row w c ps before above pad [] after rest inside n h ends one lines unlike here skips =
    absurd h
read_row w c ps before above pad (d ∷ ds) after rest inside n (hd, h) ends one lines unlike here
      skips =
    skip_rows w (after_name c ps) before (joined above ++ entry w pad (d ∷ (ds ++ after))) one lines
      unlike skips
    ∙ pass_others w (after_name c ps) above (entry w pad (d ∷ (ds ++ after))) one here
    ∙ find_submatch-front (lits w ++ after_name c ps) (entry w pad (d ∷ (ds ++ after))) (d ∷ ds)
        rest (match_front-entry w c ps pad d ds after rest inside (n d hd).0 hd h ends)
