-- ===== src/Server/Tests/Programs.antt =====
-- The theorems about the loop over Docker's events and about the whole program at concrete inputs.
use qnapexporter.Base.{
  ℕ, suc, ◌++◌, none, some, List, [], ◌∷◌, map, Text, codes, All, returned, ◌≡◌, ◌≢◌, refl,
}
use qnapexporter.Exporter.Errors.{Error}
use qnapexporter.Exporter.Tests.{natural}
use qnapexporter.Exporter.Tests.Scrapes.{
  build, quiet_surroundings, scraped_exporter, scrape_returned, same_order,
}
use qnapexporter.Notifications.Annotator.{Posting, new_simple_annotator}
use qnapexporter.Notifications.Tests.{grafana}
use qnapexporter.Exporter.Write.{write_messages}
use qnapexporter.Server.Docker.{
  Arrival, ten_seconds, cancelled, docker_events, Loop, selecting, waiting, ended, start_loop, step,
  format_docker_actor_attributes,
}
use qnapexporter.Server.Docker
use qnapexporter.Server.Docker.Attributes.{
  shown, comma_separated, format_docker_actor_attributes-shown,
}
use qnapexporter.Server.Docker.Arrivals.{taken, reconnections, repeated}
use qnapexporter.Server.Docker.Paths.{request_for, run_loop-taken}
use qnapexporter.Server.Docker.Runs.{run_loop, run_loop-cancelled}
use qnapexporter.Server.Handlers.{handle_metrics_http_request, handle_notification_http_request}
use qnapexporter.Server.Status.{Humanize, endpoints, sections}
use qnapexporter.Server.App.{
  Flags, App, notification_annotator, docker_annotator, new_app, after_notification, root, route,
  Step, scraped, notified, Reach, start, next,
}
use qnapexporter.Server.App.Serving.{is_complete, IsServing, Unused, Reach-IsServing, Reach-Unused}
use qnapexporter.Server.App.Setup.{
  with_commas, NoComma, annotators-tags, page_status, sections-routed,
}

abbrev started_container : Docker.Message
started_container = record {
  type = codes "container";
  action = codes "start";
  actor_id = codes "1f";
  attributes = (codes "image", codes "nginx") ∷ (codes "com.docker.id", codes "7") ∷ [];
  time_nano = 5_000_000;
}

-- The message that comes while the loop waits is not taken.
abbrev arrivals : List Arrival
arrivals =
    Docker.message started_container
    ∷ Docker.error (some (codes "EOF"))
    ∷ Docker.message started_container
    ∷ ten_seconds
    ∷ Docker.error none
    ∷ Docker.message started_container
    ∷ cancelled
    ∷ []

run_loop-taken_example :
    (loop : Loop) × (postings : List Posting) × (run_loop grafana
        (start_loop (new_simple_annotator (codes "http://g") (codes "t") (codes "nas" ∷ [])))
        arrivals
      ≡ returned (loop, postings))
    × (map (λ p. p.sent) postings
        ≡ map
            (request_for grafana (codes "http://g") (codes "t") (codes "nas" ∷ []))
            (taken selecting arrivals))
    × (loop.annotator ≡ new_simple_annotator (codes "http://g") (codes "t") (codes "nas" ∷ []))
    × (loop.streams ≡ repeated (suc (reconnections selecting arrivals)) [])
    × (docker_events.since ≡ codes "1h")
run_loop-taken_example =
    run_loop-taken grafana (codes "http://g") (codes "t") (codes "nas" ∷ []) arrivals

abbrev selecting_loop : Loop
selecting_loop = start_loop (new_simple_annotator (codes "http://g") (codes "t") (codes "nas" ∷ []))

error_arrived :
    run_loop grafana selecting_loop (Docker.error (some (codes "EOF")) ∷ [])
    ≡ returned (record selecting_loop { phase = waiting; docker = codes "EOF" }, [])
unfolding run_loop step start_loop
error_arrived = refl

run_loop-cancelled_example :
    (l' : Loop) × (run_loop grafana selecting_loop (
        (Docker.error (some (codes "EOF")) ∷ [])
        ++ cancelled ∷ cancelled ∷ Docker.message started_container ∷ [])
      ≡ returned (l', []))
    × (l'.phase ≡ ended)
run_loop-cancelled_example =
    run_loop-cancelled grafana (Docker.error (some (codes "EOF")) ∷ [])
      (Docker.message started_container ∷ []) selecting_loop
      (record selecting_loop { phase = waiting; docker = codes "EOF" }) [] error_arrived

format_docker_actor_attributes-shown_example :
    format_docker_actor_attributes started_container.attributes
    ≡ codes "(" ++ (comma_separated (shown started_container.attributes) ++ codes ")")
format_docker_actor_attributes-shown_example =
    format_docker_actor_attributes-shown started_container.attributes

abbrev pub flags : Flags
flags = record {
  ping_target = [];
  healthcheck = [];
  grafana_url = codes "http://g";
  grafana_auth_token = codes "t";
  grafana_tags = codes "nas,home";
}

abbrev no_grafana : Flags
no_grafana = record flags { grafana_url = [] }

annotators-tags_example :
    (first : Text) × (others : List Text) × (with_commas (first ∷ others) ≡ codes "nas,home")
    × All NoComma (first ∷ others)
    × ((notification_annotator flags).tags ≡ first ∷ (others ++ codes "notification-center" ∷ []))
    × ((docker_annotator flags).tags ≡ first ∷ (others ++ codes "docker" ∷ []))
annotators-tags_example = annotators-tags flags

abbrev pub show : Error → Text
show e = codes "error"

abbrev pub fresh_app : Flags → App ℕ
fresh_app f = new_app f build 5 none

abbrev pub scraped_app : Flags → App ℕ
scraped_app f = record (fresh_app f) {
  exporter = record scraped_exporter.0 {
    status_metric_count =
        (write_messages natural show scraped_exporter.0.environment.hostname
          scraped_exporter.1).metric_count;
  };
  expiry =
      (handle_metrics_http_request natural show scraped_exporter.0.environment.hostname
        f.healthcheck 6 7 5 scraped_exporter.1).expiry;
}

-- The program after a scrape, and after a notification behind it.
scraped_Reach : Reach natural show no_grafana (scraped_app no_grafana)
unfolding new_app route
scraped_Reach = next (start build 5 none) (
    scraped (codes "/metrics") quiet_surroundings 9 6 7 scraped_exporter.0 scraped_exporter.1
      scraped_exporter.1 refl scrape_returned same_order)

abbrev pub notified_app : App ℕ
notified_app =
    let app = scraped_app flags in
    record app {
      annotator =
          after_notification app.annotator
            (handle_notification_http_request grafana app.annotator (codes "Drive 1 is hot") 8);
      last_notification = 8;
    }

pub scraped-Step : Step natural show (fresh_app flags) (scraped_app flags)
unfolding new_app route
scraped-Step =
    scraped (codes "/metrics") quiet_surroundings 9 6 7 scraped_exporter.0 scraped_exporter.1
      scraped_exporter.1 refl scrape_returned same_order

pub notified-Step : Step natural show (scraped_app flags) notified_app
unfolding new_app route
notified-Step = notified (codes "/notification") grafana (codes "Drive 1 is hot") 8 refl

notified_Reach : Reach natural show flags notified_app
notified_Reach = next (next (start build 5 none) scraped-Step) notified-Step

Reach-IsServing_example :
    IsServing flags (is_complete natural show flags notified_Reach) notified_app
Reach-IsServing_example = Reach-IsServing natural show flags notified_Reach

Reach-Unused_example : Unused no_grafana (scraped_app no_grafana)
Reach-Unused_example = Reach-Unused natural show no_grafana refl scraped_Reach

abbrev pub humanize : Humanize
humanize = record {
  time = λ t. codes "now";
  comma = λ n. codes "1";
  word_series = λ ws. codes "a";
  duration = λ d. codes "1s";
}

sections-routed_example :
    All
      (λ s. route notified_app s.path ≢ root)
      (sections (endpoints humanize (codes "1.0") (codes "1f") (page_status notified_app)))
sections-routed_example =
    sections-routed natural show flags humanize (codes "1.0") (codes "1f") notified_Reach
