-- ===== src/Server/Tests.antt =====
-- The theorems about the server at concrete inputs.
pub mod Programs
pub mod Pages
use qnapexporter.Base.{
  ℕ, ◌+◌, ◌++◌, cut, none, some, List, [], ◌∷◌, Text, codes, All, panicked, ◌≡◌, ◌≢◌, refl, arith,
}
use qnapexporter.Exporter.Errors.{message}
use qnapexporter.Exporter.Tests.{natural}
use qnapexporter.Exporter.Write.{Message, failure}
use qnapexporter.Notifications.TagExtractor.Laws.{bracketed}
use qnapexporter.Notifications.Tests.{grafana, nas_annotator}
use qnapexporter.Server.Healthcheck.{head_ping, post_ping, validity}
use qnapexporter.Server.Healthcheck.Window.{
  Visit, visit, visit_all, IsService, visit-late, visit_all-after_pause,
}
use qnapexporter.Server.Handlers.{
  final_status, handle_metrics_http_request, handle_notification_http_request,
}
use qnapexporter.Server.Handlers.Metrics.{handle_metrics_http_request-status}
use qnapexporter.Server.Handlers.Notifications.{handle_notification_http_request-panicked}

abbrev service : Text
service = codes "healthchecks.io:abc"

service_IsService : IsService service (codes "abc")
unfolding cut
service_IsService = record { set = refl; service = refl; check = refl }

-- Two scrapes of a second each, one second apart, an hour after the expiry.
abbrev late_visit : Visit
late_visit = record {
  started = 3_600_000_000_000;
  ended = 3_601_000_000_000;
  failure = some (codes "no disk");
}

abbrev next_visit : Visit
next_visit = record { started = 3_602_000_000_000; ended = 3_603_000_000_000; failure = none }

visit-late_example : visit service 7 late_visit ≡ (
  7 + validity,
  some (head_ping (codes "https://hc-ping.com/" ++ codes "abc" ++ codes "/start")),
  some (post_ping (codes "https://hc-ping.com/" ++ codes "abc" ++ codes "/fail") (codes "no disk")),
)
visit-late_example =
    visit-late service (codes "abc") 7 late_visit service_IsService (omega arith) (omega arith)

visit_all-after_pause_example :
    All (λ p. (p.0 ≢ none) × (p.1 ≢ none)) (visit_all service 7 (late_visit ∷ next_visit ∷ []))
visit_all-after_pause_example =
    visit_all-after_pause service (codes "abc") 7 (late_visit ∷ next_visit ∷ []) service_IsService
      ((omega arith, omega arith), ((omega arith, omega arith), tt))

abbrev one_failure : List (Message ℕ)
one_failure = failure (message (codes "no disk")) ∷ []

handle_metrics_http_request-status_example :
    final_status
      (handle_metrics_http_request natural
        (λ e. codes "no disk")
        (codes "nas")
        service
        10
        20
        5
        one_failure).response
    ≡ 200
handle_metrics_http_request-status_example =
    handle_metrics_http_request-status natural (λ e. codes "no disk") (codes "nas") service 10 20 5
      one_failure

handle_notification_http_request-panicked_example :
    handle_notification_http_request grafana nas_annotator (bracketed (codes "nas" ∷ [])) 7
    ≡ panicked
handle_notification_http_request-panicked_example =
    handle_notification_http_request-panicked grafana nas_annotator (codes "nas") [] 7 refl
      (ground arith)
