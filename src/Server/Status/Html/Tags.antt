-- ===== src/Server/Status/Html/Tags.antt =====
-- The tags of the status page.
use qnapexporter.Base.{
  ℕ, ◌++◌, ◌==◌, Option, none, some, List, [], ◌∷◌, is_empty, if◌then◌else◌, Bool-cases, inl, inr,
  Text, codes, append-nil, append_assoc, ◌≡◌, refl, ap,
}
use qnapexporter.Server.Status.{Humanize, Status, EndpointStatus, endpoints, sections}
use qnapexporter.Server.Status.Escape.{html_escape, href, NoTag, html_escape-NoTag, href-NoTag}
use qnapexporter.Server.Status.Html.{
  head, entry_front, section_front, anchor_text, table_front, row_front, row_middle, row_back,
  table_back, entry_back, page_back, render_row, render_rows, render_properties, render_section,
  render_entries, render, write_html,
}
use qnapexporter.Server.Status.Html.Reader.{run, Reads, seq}

-- The state is what has been read of a tag, if any.
abbrev tag_step : Option Text → ℕ → Option Text × List Text
tag_step none c = if c == b'<' then (some [], []) else (none, [])
tag_step (some t) c = if c == b'>' then (none, t ∷ []) else (some (t ++ c ∷ []), [])

-- The texts between `<` and `>`, in order.
pub tags : Text → List Text
tags s = (run tag_step none s).1

abbrev row_tags : List Text
row_tags = codes "tr" ∷ codes "th" ∷ codes "/th" ∷ codes "td" ∷ codes "/td" ∷ codes "/tr" ∷ []

-- The tags of a row for each property.
pub rows_tags : List (Text × Text) → List Text
rows_tags [] = []
rows_tags (p ∷ ps) = row_tags ++ rows_tags ps

-- Or of the row that says that there is none.
pub table_tags : List (Text × Text) → List Text
unfolding rows_tags
table_tags [] = codes "tr" ∷ codes "th colspan=\"2\"" ∷ codes "/th" ∷ codes "/tr" ∷ []
table_tags (p ∷ ps) = rows_tags (p ∷ ps)

-- The tags of a section: its path stands in one of them alone, as the value of the link.
pub section_tags : EndpointStatus → List Text
section_tags e =
    (codes "tr" ∷ codes "td" ∷ codes "hr/" ∷ [])
    ++ (((codes "a href=\"" ++ href e.path) ++ codes "\"")
        ∷ codes "/a"
        ∷ codes "/td"
        ∷ codes "/tr"
        ∷ codes "tr"
        ∷ codes "td"
        ∷ codes "table style=\"margin-left: 2em; margin-top: 1em\""
        ∷ codes "tbody"
        ∷ (table_tags e.properties
            ++ codes "/tbody" ∷ codes "/table" ∷ codes "/td" ∷ codes "/tr" ∷ []))

pub sections_tags : List EndpointStatus → List Text
sections_tags [] = []
sections_tags (e ∷ es) = section_tags e ++ sections_tags es

abbrev pub head_tags : List Text
head_tags =
    codes "head"
    ∷ codes
        "meta name=\"viewport\" content=\"width=device-width, initial-scale=1, maximum-scale=1, user-scalable=no\""
    ∷ codes "style"
    ∷ codes "/style"
    ∷ codes "title"
    ∷ codes "/title"
    ∷ codes "/head"
    ∷ codes "body"
    ∷ codes "h1"
    ∷ codes "/h1"
    ∷ codes "table"
    ∷ codes "tbody"
    ∷ []

abbrev pub back_tags : List Text
back_tags = codes "/tbody" ∷ codes "/table" ∷ codes "/body" ∷ []

abbrev Read : Option Text → Text → Option Text → List Text → Type 0
Read = Reads tag_step

text-read : (x : Text) → NoTag x → run tag_step none x ≡ (none, [])
unfolding run
text-read [] h = refl
text-read (c ∷ x) ((no_open, no_close), h) = rw no_open (rw (text-read x h) refl)

value-read : (t x : Text) → NoTag x → run tag_step (some t) x ≡ (some (t ++ x), [])
unfolding run
value-read t [] h = rw append-nil refl
value-read t (c ∷ x) ((no_open, no_close), h) =
    rw no_close (rw (value-read (t ++ c ∷ []) x h) (rw append_assoc refl))

text : (s : Text) → Read none (html_escape s) none []
text s = record { read = text-read (html_escape s) (html_escape-NoTag s) }

row_read : (p : Text × Text) → Read none (render_row p) none row_tags
unfolding run render_row
row_read (key, value) =
    let front : Read none row_front none (codes "tr" ∷ codes "th" ∷ []) = record { read = refl } in
    let middle : Read none row_middle none (codes "/th" ∷ codes "td" ∷ []) = record {
      read = refl;
    } in
    let back : Read none row_back none (codes "/td" ∷ codes "/tr" ∷ []) = record { read = refl } in
    seq tag_step front
      (seq tag_step (text key) (seq tag_step middle (seq tag_step (text value) back)))

rows_read : (ps : List (Text × Text)) → Read none (render_rows ps) none (rows_tags ps)
unfolding run render_rows rows_tags
rows_read [] = record { read = refl }
rows_read (p ∷ ps) = seq tag_step (row_read p) (rows_read ps)

table_read : (ps : List (Text × Text)) → Read none (render_properties ps) none (table_tags ps)
unfolding run render_properties table_tags
table_read [] = record { read = refl }
table_read (p ∷ ps) = rows_read (p ∷ ps)

section_read : (e : EndpointStatus) → Read none (render_section e) none (section_tags e)
unfolding run render_section section_tags
section_read e =
    let front : Read none section_front (some (codes "a href=\""))
        (codes "tr" ∷ codes "td" ∷ codes "hr/" ∷ []) =
      record { read = refl } in
    let opened = codes "a href=\"" ++ href e.path in
    let link : Read (some (codes "a href=\"")) (href e.path) (some opened) [] = record {
      read = value-read (codes "a href=\"") (href e.path) (href-NoTag e.path);
    } in
    let closed : Read (some opened) anchor_text none ((opened ++ codes "\"") ∷ []) = record {
      read = refl;
    } in
    let table : Read none table_front none (
        codes "/a"
        ∷ codes "/td"
        ∷ codes "/tr"
        ∷ codes "tr"
        ∷ codes "td"
        ∷ codes "table style=\"margin-left: 2em; margin-top: 1em\""
        ∷ codes "tbody"
        ∷ []) =
      record { read = refl } in
    let back : Read none table_back none
        (codes "/tbody" ∷ codes "/table" ∷ codes "/td" ∷ codes "/tr" ∷ []) =
      record { read = refl } in
    seq tag_step front (
      seq tag_step link (
        seq tag_step closed (
          seq tag_step (text e.path)
            (seq tag_step table (seq tag_step (table_read e.properties) back)))))

entries_read :
    (es : List EndpointStatus) → Read none (render_entries es) none (sections_tags (sections es))
unfolding run render_entries sections_tags sections
entries_read [] = record { read = refl }
entries_read (e ∷ es) =
    let front : Read none entry_front none [] = record { read = refl } in
    let back : Read none entry_back none [] = record { read = refl } in
    elim (Bool-cases (is_empty e.path)) [
      | inl hidden ↦ rw hidden (seq tag_step front (seq tag_step back (entries_read es)))
      | inr shown ↦
          rw shown (
            seq tag_step front
              (seq tag_step (section_read e) (seq tag_step back (entries_read es))))
    ]

-- The tags of the status page, whatever the texts that it shows, are those of the template, with a section for
-- each endpoint that has a path and a row for each of its properties: no text that is shown opens, closes or
-- changes a tag, but for the path as the value of its link, where it is escaped.
pub tags-write_html :
    (h : Humanize) (version revision : Text) (s : Status)
    → tags (write_html h version revision s)
      ≡ head_tags ++ (sections_tags (sections (endpoints h version revision s)) ++ back_tags)
unfolding tags write_html render run
tags-write_html h version revision s =
    let front : Read none head none head_tags = record { read = refl } in
    let back : Read none page_back none back_tags = record { read = refl } in
    let page =
      seq tag_step front (seq tag_step (entries_read (endpoints h version revision s)) back) in
    ap (λ r. r.1) page.read
