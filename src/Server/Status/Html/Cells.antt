-- ===== src/Server/Status/Html/Cells.antt =====
-- The rows of the status page.
use mathlib.Core.Path.{subst}
use qnapexporter.Base.{
  ℕ, ◌++◌, ◌==◌, Option, none, some, List, [], ◌∷◌, map, is_empty, same, if◌then◌else◌, Bool-cases,
  inl, inr, Text, codes, append-nil, append_assoc, ◌≡◌, refl, ap, ◌∙◌,
}
use qnapexporter.Server.Status.{Humanize, Status, EndpointStatus, endpoints, sections}
use qnapexporter.Server.Status.Escape.{
  html_escape, href, NoTag, html_escape-NoTag, href-NoTag, html_unescape, without_nul,
  html_unescape-html_escape,
}
use qnapexporter.Server.Status.Html.{
  head, entry_front, section_front, anchor_text, table_front, row_front, row_middle, row_back,
  table_back, entry_back, page_back, render_row, render_rows, render_properties, render_section,
  render_entries, render, write_html,
}
use qnapexporter.Server.Status.Html.Reader.{run, Reads, seq}

-- Where the reader stands: behind a tag that matters not, in a tag, in the text of a `th`, or in that of the `td`
-- behind it; with the text of the last `th` that no `td` has followed.
data Place : Type 0 where
  between : Option Text → Place
  in_tag : Option Text → Text → Place
  in_key : Text → Place
  in_value : Text → Text → Place

abbrev behind : Option Text → Text → Place
behind key t =
    if same t (codes "th")
    then in_key []
    else if same t (codes "td")
    then (elim key [ none ↦ between none | some k ↦ in_value k [] ])
    else between key

abbrev cell_step : Place → ℕ → Place × List (Text × Text)
cell_step (between key) c = if c == b'<' then (in_tag key [], []) else (between key, [])
cell_step (in_tag key t) c =
    if c == b'>' then (behind key t, []) else (in_tag key (t ++ c ∷ []), [])
cell_step (in_key k) c = if c == b'<' then (in_tag (some k) [], []) else (in_key (k ++ c ∷ []), [])
cell_step (in_value k v) c =
    if c == b'<' then (in_tag none [], (k, v) ∷ []) else (in_value k (v ++ c ∷ []), [])

-- The text of each `th` with that of the `td` that follows it.
pub cells : Text → List (Text × Text)
cells s = (run cell_step (between none) s).1

-- What a row reads as, without the entities.
abbrev pub unescaped : Text × Text → Option Text × Option Text
unescaped (k, v) = (html_unescape k, html_unescape v)

abbrev pub visible_row : Text × Text → Option Text × Option Text
visible_row (k, v) = (some (without_nul k), some (without_nul v))

-- The properties of all endpoints.
pub all_properties : List EndpointStatus → List (Text × Text)
all_properties [] = []
all_properties (e ∷ es) = e.properties ++ all_properties es

abbrev escaped : Text × Text → Text × Text
escaped (k, v) = (html_escape k, html_escape v)

abbrev Read : Place → Text → Place → List (Text × Text) → Type 0
Read = Reads cell_step

key-read : (k x : Text) → NoTag x → run cell_step (in_key k) x ≡ (in_key (k ++ x), [])
unfolding run
key-read k [] h = rw append-nil refl
key-read k (c ∷ x) ((no_open, no_close), h) =
    rw no_open (rw (key-read (k ++ c ∷ []) x h) (rw append_assoc refl))

value-read : (k v x : Text) → NoTag x → run cell_step (in_value k v) x ≡ (in_value k (v ++ x), [])
unfolding run
value-read k v [] h = rw append-nil refl
value-read k v (c ∷ x) ((no_open, no_close), h) =
    rw no_open (rw (value-read k (v ++ c ∷ []) x h) (rw append_assoc refl))

between-read :
    (key : Option Text) (x : Text) → NoTag x → run cell_step (between key) x ≡ (between key, [])
unfolding run
between-read key [] h = refl
between-read key (c ∷ x) ((no_open, no_close), h) = rw no_open (rw (between-read key x h) refl)

link-read :
    (key : Option Text) (t x : Text)
    → NoTag x
    → run cell_step (in_tag key t) x ≡ (in_tag key (t ++ x), [])
unfolding run
link-read key t [] h = rw append-nil refl
link-read key t (c ∷ x) ((no_open, no_close), h) =
    rw no_close (rw (link-read key (t ++ c ∷ []) x h) (rw append_assoc refl))

row_read : (p : Text × Text) → Read (between none) (render_row p) (between none) (escaped p ∷ [])
unfolding run render_row
row_read (key, value) =
    let k = html_escape key in
    let v = html_escape value in
    let front : Read (between none) row_front (in_key []) [] = record { read = refl } in
    let name : Read (in_key []) k (in_key k) [] = record {
      read = key-read [] k (html_escape-NoTag key);
    } in
    let middle : Read (in_key k) row_middle (in_value k []) [] = record { read = refl } in
    let content : Read (in_value k []) v (in_value k v) [] = record {
      read = value-read k [] v (html_escape-NoTag value);
    } in
    let back : Read (in_value k v) row_back (between none) ((k, v) ∷ []) = record { read = refl } in
    seq cell_step front (seq cell_step name (seq cell_step middle (seq cell_step content back)))

rows_read :
    (ps : List (Text × Text)) → Read (between none) (render_rows ps) (between none) (map escaped ps)
unfolding run render_rows
rows_read [] = record { read = refl }
rows_read (p ∷ ps) = seq cell_step (row_read p) (rows_read ps)

table_read :
    (ps : List (Text × Text))
    → Read (between none) (render_properties ps) (between none) (map escaped ps)
unfolding run render_properties
table_read [] = record { read = refl }
table_read (p ∷ ps) = rows_read (p ∷ ps)

section_read :
    (e : EndpointStatus)
    → Read (between none) (render_section e) (between none) (map escaped e.properties)
unfolding run render_section
section_read e =
    let front : Read (between none) section_front (in_tag none (codes "a href=\"")) [] = record {
      read = refl;
    } in
    let opened = codes "a href=\"" ++ href e.path in
    let link : Read (in_tag none (codes "a href=\"")) (href e.path) (in_tag none opened) [] =
      record { read = link-read none (codes "a href=\"") (href e.path) (href-NoTag e.path) } in
    let closed : Read (in_tag none opened) anchor_text (between none) [] = record { read = refl } in
    let path : Read (between none) (html_escape e.path) (between none) [] = record {
      read = between-read none (html_escape e.path) (html_escape-NoTag e.path);
    } in
    let table : Read (between none) table_front (between none) [] = record { read = refl } in
    let back : Read (between none) table_back (between none) [] = record { read = refl } in
    subst (Read (between none) (render_section e) (between none))
      (append-nil (map escaped e.properties))
      (seq cell_step front (
        seq cell_step link (
          seq cell_step closed (
            seq cell_step path
              (seq cell_step table (seq cell_step (table_read e.properties) back))))))

map-append :
    (xs ys : List (Text × Text)) → map escaped (xs ++ ys) ≡ map escaped xs ++ map escaped ys
map-append [] ys = refl
map-append (x ∷ xs) ys = ap (◌∷◌ (escaped x)) (map-append xs ys)

entries_read :
    (es : List EndpointStatus)
    → Read
        (between none)
        (render_entries es)
        (between none)
        (map escaped (all_properties (sections es)))
unfolding run render_entries all_properties sections
entries_read [] = record { read = refl }
entries_read (e ∷ es) =
    let front : Read (between none) entry_front (between none) [] = record { read = refl } in
    let back : Read (between none) entry_back (between none) [] = record { read = refl } in
    elim (Bool-cases (is_empty e.path)) [
      | inl hidden ↦ rw hidden (seq cell_step front (seq cell_step back (entries_read es)))
      | inr shown ↦ rw shown (
          rw (map-append e.properties (all_properties (sections es))) (
            seq cell_step front
              (seq cell_step (section_read e) (seq cell_step back (entries_read es)))))
    ]

unescaped-escaped : (ps : List (Text × Text)) → map unescaped (map escaped ps) ≡ map visible_row ps
unescaped-escaped [] = refl
unescaped-escaped ((k, v) ∷ ps) =
    rw (html_unescape-html_escape k)
      (rw (html_unescape-html_escape v) (ap (◌∷◌ (visible_row (k, v))) (unescaped-escaped ps)))

-- The rows of the status page read back, with their entities resolved, as the properties of the endpoints that
-- have a path, all of them and in order, whatever texts they are; only zero bytes are shown as U+FFFD.
pub cells-write_html :
    (h : Humanize) (version revision : Text) (s : Status)
    → map unescaped (cells (write_html h version revision s))
      ≡ map visible_row (all_properties (sections (endpoints h version revision s)))
unfolding cells write_html render run
cells-write_html h version revision s =
    let es = endpoints h version revision s in
    let front : Read (between none) head (between none) [] = record { read = refl } in
    let back : Read (between none) page_back (between none) [] = record { read = refl } in
    let page = seq cell_step front (seq cell_step (entries_read es) back) in
    ap (λ r. map unescaped r.1) page.read
    ∙ ap (map unescaped) (append-nil (map escaped (all_properties (sections es))))
    ∙ unescaped-escaped (all_properties (sections es))
