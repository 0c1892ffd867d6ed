-- ===== src/Server/Handlers.antt =====
-- The HTTP handlers of main.go. Of package net/http the response's status is
-- modelled: it is fixed by the first write or the first `WriteHeader`, and is 200 where nothing set it.
pub mod Metrics
pub mod Notifications
pub mod Root
use qnapexporter.Base.{
  ℕ, ◌++◌, Option, none, some, List, if◌then◌else◌, is_empty, Text, codes, take, Run, out_of_fuel,
  panicked, returned,
}
use qnapexporter.Exporter.Errors.{Error}
use qnapexporter.Exporter.Metric.{FloatOps}
use qnapexporter.Exporter.Write.{Message, write_messages}
use qnapexporter.Notifications.Annotator.{Annotator, Backend, Posting, post}
use qnapexporter.Server.Status.{Humanize, Status}
use qnapexporter.Server.Status.Html.{write_html}
use qnapexporter.Server.Healthcheck.{Ping, handle_healthcheck_start, handle_healthcheck_end}

pub record Response : Type 0 where
  pub status : Option ℕ
  pub body : Text

abbrev pub new_response : Response
new_response = record { status = none; body = codes "" }

abbrev pub or_status : Option ℕ → ℕ → Option ℕ
or_status none code = some code
or_status (some old) code = some old

unfoldable pub write_header : Response → ℕ → Response
write_header r code = record r { status = or_status r.status code }

-- The writes of a text, none where it is empty.
unfoldable pub write : Response → Text → Response
write r text =
    if is_empty text then r else record r { status = or_status r.status 200; body = r.body ++ text }

unfoldable pub final_status : Response → ℕ
final_status r = elim r.status [ none ↦ 200 | some code ↦ code ]

-- What a scrape leaves: the response, the expiry of the healthcheck, and its pings.
pub record Scraped : Type 0 where
  pub response : Response
  pub expiry : ℕ
  pub start_ping : Option Ping
  pub end_ping : Option Ping

-- `handleMetricsHTTPRequest`, for one order of the collectors' messages.
unfoldable pub handle_metrics_http_request :
    {F : Type 0}
    → FloatOps F
    → (Error → Text)
    → Text
    → Text
    → ℕ
    → ℕ
    → ℕ
    → List (Message F)
    → Scraped
handle_metrics_http_request ops show hostname healthcheck started ended expiry messages =
    let (expiry1, start_ping) = handle_healthcheck_start started expiry healthcheck in
    let written = write_messages ops show hostname messages in
    let response = write new_response written.output in
    let failure : Option Text = elim written.error [ none ↦ none | some e ↦ some (show e) ] in
    let (expiry2, end_ping) = handle_healthcheck_end ended expiry1 healthcheck failure in
    record {
      response = elim written.error [ none ↦ response | some e ↦ write_header response 500 ];
      expiry = expiry2;
      start_ping = start_ping;
      end_ping = end_ping;
    }

-- `handleNotificationHTTPRequest`: the response, and what `Post` left if it was called.
unfoldable pub handle_notification_http_request :
    Backend → Annotator → Text → ℕ → Run (Response × Option Posting)
handle_notification_http_request b annotator notification now =
    if is_empty notification
    then returned (write_header new_response 400, none)
    else (elim (post b annotator notification now) [
      | out_of_fuel ↦ out_of_fuel
      | panicked ↦ panicked
      | returned p ↦ returned (new_response, some p)
    ])

-- `handleRootHTTPRequest`: the response for a version and a revision, where the connection may break
-- behind some bytes of the page, which is the error that `WriteHTML` returns.
unfoldable pub handle_root_http_request : Humanize → Text → Text → Status → Option ℕ → Response
handle_root_http_request h version revision s broken =
    let page = write_html h version revision s in
    elim broken [
      | none ↦ write new_response page
      | some sent ↦ write_header (write new_response (take sent page)) 500
    ]
