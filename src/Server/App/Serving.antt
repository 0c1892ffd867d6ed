-- ===== src/Server/App/Serving.antt =====
-- What holds of the program after any requests and events.
use qnapexporter.Base.{
  ℕ, Bool, sym, true, false, Option, none, some, [], is_empty, Bool-cases, inl, inr, if◌then◌else◌,
  Text, codes, Run, out_of_fuel, panicked, returned, ◌≡◌, refl, ap, ◌∙◌, arith,
}
use qnapexporter.Exporter.Errors.{Error}
use qnapexporter.Exporter.Metric.{FloatOps}
use qnapexporter.Exporter.Write.{Build}
use qnapexporter.Exporter.Scrape.Runs.{
  IsSound, IsSound-IsLimited, IsSound-count, still_complete, new_exporter-IsSound,
  write_metrics-IsSound, write_metrics-recovered,
}
use qnapexporter.Exporter.Ups.Retry.{IsLimited}
use mathlib.Core.Path.{subst}
use qnapexporter.Notifications.RegionMatcher.{new_region_matcher}
use qnapexporter.Notifications.Annotator.{
  Annotator, Backend, Posting, post, new_region_matching_annotator,
}
use qnapexporter.Notifications.Annotator.Bounded.{bounded, Keeps, post-Keeps}
use qnapexporter.Server.Docker.{connect}
use qnapexporter.Server.Docker.Paths.{step-annotator}
use qnapexporter.Server.Handlers.{handle_notification_http_request}
use qnapexporter.Server.App.{
  Flags, App, notification_endpoint, notification_annotator, docker_annotator, annotator_tags,
  new_app, route, notification, after_notification, Step, status_page, scraped, prologue_panicked,
  notified, docker_event, Reach, start, next,
}

-- The exporter's invariants hold, for a last reading of the environment that was complete or not, the annotators are those that were set up but for the cache of one,
-- which is within its size, and the path for notifications is that of the flags.
pub record IsServing {F : Type 0} (flags : Flags) (complete : Bool) (app : App F) : Type 0 where
  pub exporter : IsSound complete app.exporter
  pub annotator : Keeps 20 (notification_annotator flags) app.annotator
  pub docker : app.docker.annotator ≡ docker_annotator flags
  pub path :
      app.notification_path ≡ (if is_empty flags.grafana_url then [] else notification_endpoint)

-- No notification has been handled.
abbrev pub Unused : {F : Type 0} → Flags → App F → Type 0
Unused flags app = (app.annotator ≡ notification_annotator flags) × (app.last_notification ≡ 0)

Keeps-after_notification :
    (fresh a : Annotator) (b : Backend) (text : Text) (now : ℕ)
    → Keeps 20 fresh a
    → Keeps 20 fresh (after_notification a (handle_notification_http_request b a text now))
unfolding after_notification handle_notification_http_request
Keeps-after_notification fresh a b text now k = elim (Bool-cases (is_empty text)) [
  | inl nothing ↦ rw (nothing, handle_notification_http_request) k
  | inr something ↦
      rw (something, handle_notification_http_request) (by_post (post b a text now) refl)
]
  where
    by_post :
        (r : Run Posting)
        → post b a text now ≡ r
        → Keeps 20 fresh (
            after_notification a (elim r [
              | out_of_fuel ↦ out_of_fuel
              | panicked ↦ panicked
              | returned p ↦ returned (record { status = none; body = codes "" }, some p)
            ]))
    by_post out_of_fuel q = k
    by_post panicked q = k
    by_post (returned p) q =
        let more = post-Keeps 20 b a text now p k.size q in
        record {
          rest =
              more.rest ∙ ap {A = Annotator} (λ x. record x { cache = p.annotator.cache }) k.rest;
          size = more.size;
        }

route-notification :
    {F : Type 0} (app : App F) (path : Text)
    → route app path ≡ notification
    → is_empty app.notification_path ≡ false
unfolding route
route-notification app path h = ground arith

module _ {F : Type 0} (ops : FloatOps F) (show : Error → Text) (flags : Flags) where
  -- Whether the last reading of the environment, if there was one, came to its end.
  unfoldable pub complete_after : {app app' : App F} → Bool → Step ops show app app' → Bool
  complete_after complete (status_page path routed) = complete
  complete_after {app} complete (scraped path s fuel started ended e sent arrived routed ran p) =
      still_complete ops s complete app.exporter
  complete_after complete (prologue_panicked path s fuel started e routed ran) = false
  complete_after complete (notified path b text now routed) = complete
  complete_after complete (docker_event b x l p ran) = complete

  unfoldable pub is_complete : {app : App F} → Reach ops show flags app → Bool
  is_complete (start build now docker_error) = true
  is_complete (next r step) = complete_after (is_complete r) step

  new_app-IsServing :
      (build : Build) (now : ℕ) (docker_error : Option Text)
      → IsServing flags true (new_app {F = F} flags build now docker_error)
  unfolding new_app connect notification_annotator new_region_matching_annotator new_region_matcher
  new_app-IsServing build now docker_error = record {
    exporter = new_exporter-IsSound ops flags.ping_target build now;
    annotator = record { rest = refl; size = bounded (new_region_matcher 20) (omega arith) refl };
    docker = by_error docker_error;
    path = refl;
  }
    where
      by_error :
          (e : Option Text)
          → (connect (docker_annotator flags) e).annotator ≡ docker_annotator flags
      by_error none = refl
      by_error (some e) = refl

  Step-IsServing :
      {app app' : App F} (complete : Bool)
      → IsServing flags complete app
      → (step : Step ops show app app') → IsServing flags (complete_after complete step) app'
  unfolding docker_annotator route complete_after
  Step-IsServing complete h (status_page path routed) = h
  Step-IsServing {app} complete h (scraped path s fuel started ended e sent arrived routed ran p) =
      record {
        exporter =
            IsSound-count (still_complete ops s complete app.exporter) e _
              (write_metrics-IsSound ops s fuel complete app.exporter e sent h.exporter ran);
        annotator = h.annotator;
        docker = h.docker;
        path = h.path;
      }
  Step-IsServing {app} complete h (prologue_panicked path s fuel started e routed ran) = record {
    exporter =
        subst IsLimited (sym (write_metrics-recovered ops s fuel app.exporter e ran))
          (IsSound-IsLimited complete app.exporter h.exporter);
    annotator = h.annotator;
    docker = h.docker;
    path = h.path;
  }
  Step-IsServing {app} complete h (notified path b text now routed) = record {
    exporter = h.exporter;
    annotator =
        Keeps-after_notification (notification_annotator flags) app.annotator b text now
          h.annotator;
    docker = h.docker;
    path = h.path;
  }
  Step-IsServing {app} complete h (docker_event b x l p ran) = record {
    exporter = h.exporter;
    annotator = h.annotator;
    docker =
        step-annotator b flags.grafana_url flags.grafana_auth_token
          (annotator_tags flags (codes "docker")) app.docker l x p h.docker ran;
    path = h.path;
  }

  -- After any requests and events, in any order, if the last reading of the environment did not
  -- panic, the exporter's status agrees with its environment; and in any case its attempts to
  -- connect are limited, the annotators are those that were set up but for the cache of the
  -- notifications' one, which has at most 20 entries, and the path for notifications is the one
  -- that the flags call for.
  pub Reach-IsServing :
      {app : App F} (r : Reach ops show flags app) → IsServing flags (is_complete r) app
  unfolding is_complete
  Reach-IsServing (start build now docker_error) = new_app-IsServing build now docker_error
  Reach-IsServing (next r step) = Step-IsServing (is_complete r) (Reach-IsServing r) step

  Step-Unused :
      {app app' : App F}
      → is_empty flags.grafana_url ≡ true
      → (complete : Bool) → IsServing flags complete app
      → Unused flags app
      → Step ops show app app'
      → Unused flags app'
  Step-Unused q complete h u (status_page path routed) = u
  Step-Unused q complete h u (prologue_panicked path s fuel started e routed ran) = u
  Step-Unused q complete h u (scraped path s fuel started ended e sent arrived routed ran p) = u
  Step-Unused q complete h u (docker_event b x l p ran) = u
  Step-Unused {app} q complete h u (notified path b text now routed) =
      let closed : app.notification_path ≡ [] = h.path ∙ rw q refl in
      let open_path = route-notification app path routed in
      let empty : is_empty app.notification_path ≡ true = rw closed refl in absurd (cc)

  -- Without a URL of Grafana, no request ever reaches the handler of notifications: after any requests
  -- and events the annotator for notifications is as it was set up, and no notification was noted.
  pub Reach-Unused :
      {app : App F}
      → is_empty flags.grafana_url ≡ true
      → Reach ops show flags app
      → Unused flags app
  unfolding new_app
  Reach-Unused q (start build now docker_error) = (refl, refl)
  Reach-Unused q (next r step) =
      Step-Unused q (is_complete r) (Reach-IsServing r) (Reach-Unused q r) step
