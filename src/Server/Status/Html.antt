-- ===== src/Server/Status/Html.antt =====
-- lib/status/status.go: `statusHTMLTemplate`, and the page that `WriteHTML` makes of it. The texts of the
-- template stand line by line, in its order; the escaping is that of package html/template.
pub mod Reader
pub mod Tags
pub mod Cells
use Prim.Native.String.{String}
use qnapexporter.Base.{◌++◌, List, [], ◌∷◌, is_empty, newline, if◌then◌else◌, Text, codes}
use qnapexporter.Server.Status.{Humanize, Status, EndpointStatus, endpoints}
use qnapexporter.Server.Status.Escape.{html_escape, href}

abbrev pub text_lines : List String → Text
text_lines [] = []
text_lines (l ∷ []) = codes l
text_lines (l ∷ m ∷ ls) = codes l ++ newline ∷ text_lines (m ∷ ls)

-- In front of `{{ range . }}`
abbrev pub head : Text
head = text_lines (
    "" ∷ "<head>"
    ∷ "\t<meta name=\"viewport\" content=\"width=device-width, initial-scale=1, maximum-scale=1, user-scalable=no\">"
    ∷ "\t<style>" ∷ "\t\tbody { font-family: helvetica; }" ∷ "\t\tth   {"
    ∷ "\t\t\tbackground: lightgrey;" ∷ "\t\t\tpadding-left: 1em;" ∷ "\t\t\tpadding-right: 1em;"
    ∷ "\t\t}" ∷ "\t\ttd   {" ∷ "\t\t\tpadding-left: 1em;" ∷ "\t\t\tpadding-right: 1em;" ∷ "\t\t}"
    ∷ "\t</style>" ∷ "\t<title>qnapexporter status</title>" ∷ "</head>" ∷ "" ∷ "<body>"
    ∷ "\t<h1>Active endpoints</h1>" ∷ "\t<table>" ∷ "\t\t<tbody>" ∷ "\t\t\t" ∷ [])

-- In front of `{{ if .Path }}`
abbrev pub entry_front : Text
entry_front = text_lines ("" ∷ "\t\t\t" ∷ [])

-- In front of the first `{{ .Path }}`
abbrev pub section_front : Text
section_front =
    text_lines
      ("" ∷ "\t\t\t<tr>" ∷ "\t\t\t\t<td>" ∷ "\t\t\t\t\t<hr/>" ∷ "\t\t\t\t\t<a href=\"" ∷ [])

-- Between the two
abbrev pub anchor_text : Text
anchor_text = text_lines ("\">" ∷ [])

-- In front of the range over the properties
abbrev pub table_front : Text
table_front = text_lines (
    "</a>" ∷ "\t\t\t\t</td>" ∷ "\t\t\t</tr>" ∷ "\t\t\t<tr>" ∷ "\t\t\t\t<td>"
    ∷ "\t\t\t\t\t<table style=\"margin-left: 2em; margin-top: 1em\">" ∷ "\t\t\t\t\t\t<tbody>"
    ∷ "\t\t\t\t\t\t\t" ∷ [])

-- In front of `{{ $key }}`
abbrev pub row_front : Text
row_front = text_lines ("" ∷ "\t\t\t\t\t\t\t<tr>" ∷ "\t\t\t\t\t\t\t\t<th>" ∷ [])

-- In front of `{{ $value }}`
abbrev pub row_middle : Text
row_middle = text_lines ("</th>" ∷ "\t\t\t\t\t\t\t\t<td>" ∷ [])

-- In front of `{{ else }}`
abbrev pub row_back : Text
row_back = text_lines ("</td>" ∷ "\t\t\t\t\t\t\t</tr>" ∷ "\t\t\t\t\t\t\t" ∷ [])

-- Behind `{{ else }}`
abbrev pub no_properties : Text
no_properties = text_lines (
    "" ∷ "\t\t\t\t\t\t\t<tr>" ∷ "\t\t\t\t\t\t\t\t<th colspan=\"2\">No properties</th>"
    ∷ "\t\t\t\t\t\t\t</tr>" ∷ "\t\t\t\t\t\t\t" ∷ [])

-- Behind the range over the properties
abbrev pub table_back : Text
table_back = text_lines (
    "" ∷ "\t\t\t\t\t\t</tbody>" ∷ "\t\t\t\t\t</table>" ∷ "\t\t\t\t</td>" ∷ "\t\t\t</tr>" ∷ "\t\t\t"
    ∷ [])

-- Behind the end of `{{ if .Path }}`
abbrev pub entry_back : Text
entry_back = text_lines ("" ∷ "\t\t\t" ∷ [])

-- Behind the range over the endpoints
abbrev pub page_back : Text
page_back = text_lines ("" ∷ "\t\t</tbody>" ∷ "\t</table>" ∷ "</body>" ∷ "" ∷ [])

-- A row of a section's table
unfoldable pub render_row : Text × Text → Text
render_row (key, value) =
    row_front ++ (html_escape key ++ (row_middle ++ (html_escape value ++ row_back)))

unfoldable pub render_rows : List (Text × Text) → Text
render_rows [] = []
render_rows (p ∷ ps) = render_row p ++ render_rows ps

-- `{{ range $key, $value := .Properties }}` with its `{{ else }}`
unfoldable pub render_properties : List (Text × Text) → Text
render_properties [] = no_properties
render_properties (p ∷ ps) = render_rows (p ∷ ps)

unfoldable pub render_section : EndpointStatus → Text
render_section e =
    section_front
    ++ (href e.path
        ++ (anchor_text
            ++ (html_escape e.path
                ++ (table_front ++ (render_properties e.properties ++ table_back)))))

-- `{{ range . }}`
unfoldable pub render_entries : List EndpointStatus → Text
render_entries [] = []
render_entries (e ∷ es) =
    entry_front
    ++ ((if is_empty e.path then [] else render_section e) ++ (entry_back ++ render_entries es))

unfoldable pub render : List EndpointStatus → Text
render es = head ++ (render_entries es ++ page_back)

-- `WriteHTML`: the page for a version and a revision. The template parses, so that the only error is
-- that of the writer, which is not part of the page.
unfoldable pub write_html : Humanize → Text → Text → Status → Text
write_html h version revision s = render (endpoints h version revision s)
