-- ===== src/Server/Tests/Pages.antt =====
-- The theorems about the status page and about the process at concrete inputs.
use qnapexporter.Base.{◌++◌, map, codes, ◌≡◌}
use qnapexporter.Server.App.Setup.{page_status}
use qnapexporter.Server.Status.{Status, endpoints, sections}
use qnapexporter.Server.Status.Html.{write_html}
use qnapexporter.Server.Status.Html.Tags.{
  tags, sections_tags, head_tags, back_tags, tags-write_html,
}
use qnapexporter.Server.Status.Html.Cells.{
  cells, unescaped, visible_row, all_properties, cells-write_html,
}
use qnapexporter.Server.Tests.Programs.{humanize, notified_app}

-- The text about Docker is markup.
abbrev marked_status : Status
marked_status =
    let s = page_status notified_app in
    record s { exporter_status = record s.exporter_status { docker = codes "<b>&\"" } }

tags-write_html_example :
    tags (write_html humanize (codes "1.0") (codes "1f") marked_status)
    ≡ head_tags
      ++ (sections_tags (sections (endpoints humanize (codes "1.0") (codes "1f") marked_status))
          ++ back_tags)
tags-write_html_example = tags-write_html humanize (codes "1.0") (codes "1f") marked_status

cells-write_html_example :
    map unescaped (cells (write_html humanize (codes "1.0") (codes "1f") marked_status))
    ≡ map visible_row
        (all_properties (sections (endpoints humanize (codes "1.0") (codes "1f") marked_status)))
cells-write_html_example = cells-write_html humanize (codes "1.0") (codes "1f") marked_status
