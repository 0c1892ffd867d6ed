-- ===== src/Server/Handlers/Root.antt =====
-- The status of the answer with the status page.
use qnapexporter.Base.{ℕ, zero, suc, Option, none, some, Text, ◌≡◌, refl}
use qnapexporter.Server.Status.{Humanize, Status}
use qnapexporter.Server.Status.Html.{render, write_html}
use qnapexporter.Server.Handlers.{write, write_header, final_status, handle_root_http_request}

-- The status 500 reaches the client only if the connection broke in front of the first byte.
abbrev status_of : Option ℕ → ℕ
status_of none = 200
status_of (some zero) = 500
status_of (some (suc n)) = 200

handle_root_http_request-status :
    (h : Humanize) (version revision : Text) (s : Status) (broken : Option ℕ)
    → final_status (handle_root_http_request h version revision s broken) ≡ status_of broken
unfolding handle_root_http_request final_status write write_header write_html render
handle_root_http_request-status h version revision s none = refl
handle_root_http_request-status h version revision s (some zero) = refl
handle_root_http_request-status h version revision s (some (suc n)) = refl
