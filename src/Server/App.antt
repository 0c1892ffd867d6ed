-- ===== src/Server/App.antt =====
-- main.go: what `run` sets up and `serveHTTP` serves, as one state. Each request, and each arrival at the
-- loop over Docker's events, is a step; a request's handler runs as a whole. A panic in a handler, also of the
-- prologue of `WriteMetrics`, ends its request alone, as package net/http recovers it; a panic in a
-- collector ends the program and is no step. Paths are those that package net/http leaves as they are.
pub mod Serving
pub mod Setup
use mathlib.Core.List.{Perm}
use qnapexporter.Base.{
  ℕ, ◌++◌, ◌&&◌, not, Option, some, List, [], ◌∷◌, is_empty, same, split, if◌then◌else◌, Text,
  codes, Run, returned, ◌≡◌,
}
use qnapexporter.Exporter.Errors.{Error}
use qnapexporter.Exporter.Metric.{FloatOps}
use qnapexporter.Exporter.Scrape.{
  Surroundings, Exporter, recovered, gathered, new_exporter, write_metrics,
}
use qnapexporter.Server.Healthcheck.{handle_healthcheck_start}
use qnapexporter.Exporter.Write.{Build, Message, write_messages}
use qnapexporter.Notifications.TagExtractor
use qnapexporter.Notifications.RegionMatcher.{region, new_region_matcher}
use qnapexporter.Notifications.Annotator.{
  Annotator, Backend, Posting, new_simple_annotator, new_region_matching_annotator,
}
use qnapexporter.Server.Docker.{Loop, Arrival, connect, step}
use qnapexporter.Server.Handlers.{
  Response, handle_metrics_http_request, handle_notification_http_request,
}

abbrev pub metrics_endpoint : Text
metrics_endpoint = codes "/metrics"

abbrev pub notification_endpoint : Text
notification_endpoint = codes "/notification"

-- The flags, but for the port and the log file.
pub record Flags : Type 0 where
  pub ping_target : Text
  pub healthcheck : Text
  pub grafana_url : Text
  pub grafana_auth_token : Text
  pub grafana_tags : Text

-- `append(strings.Split(*grafanaTags, ","), name)`
abbrev pub annotator_tags : Flags → Text → List Text
annotator_tags flags name =
    ((split b',' flags.grafana_tags).0 ∷ (split b',' flags.grafana_tags).1) ++ name ∷ []

unfoldable pub notification_annotator : Flags → Annotator
notification_annotator flags =
    new_region_matching_annotator flags.grafana_url flags.grafana_auth_token
      (annotator_tags flags (codes "notification-center")) TagExtractor.notification_center
      (region (new_region_matcher 20))

unfoldable pub docker_annotator : Flags → Annotator
docker_annotator flags =
    new_simple_annotator flags.grafana_url flags.grafana_auth_token
      (annotator_tags flags (codes "docker"))

pub record App (F : Type 0) : Type 0 where
  pub exporter : Exporter F
  pub annotator : Annotator
  pub docker : Loop
  pub healthcheck : Text
  -- `healthCheckExpiry`
  pub expiry : ℕ
  -- `serverStatus.NotificationEndpoint` and `.LastNotification`
  pub notification_path : Text
  pub last_notification : ℕ

-- `run` up to `serveHTTP`, with the error of Docker's client where there is one; the time is read once here.
unfoldable pub new_app : {F : Type 0} → Flags → Build → ℕ → Option Text → App F
new_app flags build now docker_error = record {
  exporter = new_exporter flags.ping_target build now;
  annotator = notification_annotator flags;
  docker = connect (docker_annotator flags) docker_error;
  healthcheck = flags.healthcheck;
  expiry = now;
  notification_path = if is_empty flags.grafana_url then [] else notification_endpoint;
  last_notification = 0;
}

pub data Endpoint : Type 0 where
  root metrics notification : Endpoint

-- The handler that `serveHTTP` registers for a path.
unfoldable pub route : {F : Type 0} → App F → Text → Endpoint
route app path =
    if same path metrics_endpoint
    then metrics
    else if not (is_empty app.notification_path) && same path notification_endpoint
    then notification
    else root

-- The answer to a request for notifications, and the annotator afterwards.
unfoldable pub after_notification : Annotator → Run (Response × Option Posting) → Annotator
after_notification annotator (returned (response, some p)) = p.annotator
after_notification annotator _ = annotator

module _ {F : Type 0} (ops : FloatOps F) (show : Error → Text) where
  pub data Step (app : App F) : App F → Type 0 where
    status_page : (path : Text) → route app path ≡ root → Step app app
    scraped :
        (path : Text) (s : Surroundings F) (fuel started ended : ℕ) (e : Exporter F)
        (sent arrived : List (Message F))
        → route app path ≡ metrics
        → write_metrics ops s fuel app.exporter ≡ gathered e sent
        → Perm sent arrived
        → Step app (record app {
          exporter = record e {
            status_metric_count =
                (write_messages ops show e.environment.hostname arrived).metric_count;
          };
          expiry =
              (handle_metrics_http_request ops show e.environment.hostname app.healthcheck started
                ended app.expiry arrived).expiry;
        })
    -- the reading of the environment panics, and package net/http recovers
    prologue_panicked :
        (path : Text) (s : Surroundings F) (fuel started : ℕ) (e : Exporter F)
        → route app path ≡ metrics
        → write_metrics ops s fuel app.exporter ≡ recovered e
        → Step app (record app {
          exporter = e;
          expiry = (handle_healthcheck_start started app.expiry app.healthcheck).0;
        })
    notified :
        (path : Text) (b : Backend) (text : Text) (now : ℕ)
        → route app path ≡ notification
        → Step app (record app {
          annotator =
              after_notification app.annotator
                (handle_notification_http_request b app.annotator text now);
          last_notification = now;
        })
    docker_event :
        (b : Backend) (x : Arrival) (l : Loop) (p : Option Posting)
        → step b app.docker x ≡ returned (l, p)
        → Step app (record app { docker = l })

  -- The states that the program can come to with the flags.
  pub data Reach (flags : Flags) : App F → Type 0 where
    start :
        (build : Build) (now : ℕ) (docker_error : Option Text)
        → Reach flags (new_app flags build now docker_error)
    next : {app app' : App F} → Reach flags app → Step app app' → Reach flags app'
