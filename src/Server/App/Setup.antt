-- ===== src/Server/App/Setup.antt =====
-- The tags that main.go gives the annotators, and the paths that the status page shows.
use qnapexporter.Base.{
  ℕ, ◌==◌, arith, none, some, same, Option, ap, ◌++◌, List, [], ◌∷◌, is_empty, split, Bool-cases,
  inl, inr, if◌then◌else◌, Text, codes, All, ◌≡◌, ◌≢◌, refl, ◌∙◌,
}
use qnapexporter.Notifications.Annotator.{
  clean_tags, new_region_matching_annotator, new_simple_annotator,
}
use qnapexporter.Exporter.Errors.{Error}
use qnapexporter.Exporter.Metric.{FloatOps}
use qnapexporter.Server.App.Serving.{Reach-IsServing}
use qnapexporter.Server.Status.{
  EndpointStatus, Humanize, ExporterStatus, Status, endpoints, sections,
}
use qnapexporter.Server.App.{
  Flags, App, Reach, notification_annotator, docker_annotator, route, root, metrics_endpoint,
  notification_endpoint,
}

clean_tags-longer :
    (t : Text) (ts : List Text) (name : Text)
    → clean_tags ((t ∷ ts) ++ name ∷ []) ≡ (t ∷ ts) ++ name ∷ []
unfolding clean_tags
clean_tags-longer [] [] name = refl
clean_tags-longer [] (u ∷ ts) name = refl
clean_tags-longer (c ∷ t) [] name = refl
clean_tags-longer (c ∷ t) (u ∷ ts) name = refl

-- The texts with a comma between any two.
pub with_commas : List Text → Text
with_commas [] = []
with_commas (t ∷ []) = t
with_commas (t ∷ u ∷ ts) = t ++ (b',' ∷ with_commas (u ∷ ts))

abbrev pub NoComma : Text → Type 0
NoComma = All (λ c. c ≢ b',')

abbrev Pieces : Text → Text × List Text → Type 0
Pieces s r = (with_commas (r.0 ∷ r.1) ≡ s) × All NoComma (r.0 ∷ r.1)

with_commas-cons :
    (c : ℕ) (t : Text) (ts : List Text) → with_commas ((c ∷ t) ∷ ts) ≡ c ∷ with_commas (t ∷ ts)
unfolding with_commas
with_commas-cons c t [] = refl
with_commas-cons c t (u ∷ ts) = refl

split-Pieces : (s : Text) → Pieces s (split b',' s)
unfolding split with_commas
split-Pieces [] = (refl, (tt, tt))
split-Pieces (c ∷ s) =
    let (joined, (first, others)) = split-Pieces s in
    elim (Bool-cases (c == b',')) [
      | inl comma ↦
          let is_comma : c ≡ b',' = ground (arith, comma) in
          rw (comma, split) (rw is_comma (ap (◌∷◌ b',') joined), (tt, (first, others)))
      | inr other ↦
          let no_comma : c ≢ b',' = ground (arith, other) in
          rw (other, split)
            (
              with_commas-cons c (split b',' s).0 (split b',' s).1 ∙ ap (◌∷◌ c) joined,
              ((no_comma, first), others),
            )
    ]

-- The annotators have all the tags that commas separate in the text of the flag, in order, and behind
-- them one of their own: joined with commas, those before the last are the text of the flag, and none of
-- them has a comma.
pub annotators-tags :
    (flags : Flags)
    → (first : Text) × (others : List Text) × (with_commas (first ∷ others) ≡ flags.grafana_tags)
      × All NoComma (first ∷ others)
      × ((notification_annotator flags).tags ≡ first ∷ (others ++ codes "notification-center" ∷ []))
      × ((docker_annotator flags).tags ≡ first ∷ (others ++ codes "docker" ∷ []))
unfolding notification_annotator docker_annotator new_region_matching_annotator new_simple_annotator
annotators-tags flags =
    let (first, others) = split b',' flags.grafana_tags in
    let (joined, pieces) = split-Pieces flags.grafana_tags in
    (
      first,
      others,
      joined,
      pieces,
      clean_tags-longer first others (codes "notification-center"),
      clean_tags-longer first others (codes "docker"),
    )

-- The exporter's status that the page shows.
abbrev pub shown_status : {F : Type 0} → App F → ExporterStatus
shown_status app =
    let e = app.exporter in
    let env = e.environment.status in
    record {
      uptime = e.status_uptime;
      last_fetch = e.status_last_fetch;
      last_fetch_duration = e.status_last_fetch_duration;
      metric_count = e.status_metric_count;
      ups = elim e.ups.status_ups [ none ↦ [] | some names ↦ names ];
      devices = env.devices;
      volumes = e.status_volumes;
      interfaces = env.interfaces;
      enclosures = env.enclosures;
      dm_caches = env.dm_caches;
      dm_cache_device = env.dm_cache_device;
      docker = app.docker.docker;
    }

-- What the status page shows.
abbrev pub page_status : {F : Type 0} → App F → Status
page_status app = record {
  metrics_endpoint = metrics_endpoint;
  notification_endpoint = app.notification_path;
  exporter_status = shown_status app;
  last_notification = app.last_notification;
}

shown_paths :
    {F : Type 0} (h : Humanize) (version revision : Text) (app : App F) (url : Text)
    → app.notification_path ≡ (if is_empty url then [] else notification_endpoint)
    → All (λ s. route app s.path ≢ root) (sections (endpoints h version revision (page_status app)))
unfolding sections endpoints route
shown_paths h version revision app url path = elim (Bool-cases (is_empty url)) [
  | inl closed ↦
      let none_there : app.notification_path ≡ [] = path ∙ rw closed refl in
      rw none_there ((λ q. cc), tt)
  | inr there ↦
      let shown : app.notification_path ≡ notification_endpoint = path ∙ rw there refl in
      rw shown ((λ q. cc), ((λ q. cc), tt))
]

-- After any requests and events, every section that the status page shows has a path whose requests
-- are answered by a handler of its own, and not by the status page again.
pub sections-routed :
    {F : Type 0} (ops : FloatOps F) (show : Error → Text) (flags : Flags) {app : App F}
    (h : Humanize) (version revision : Text)
    → Reach ops show flags app
    → All (λ s. route app s.path ≢ root) (sections (endpoints h version revision (page_status app)))
sections-routed ops show flags {app} h version revision r =
    shown_paths h version revision app flags.grafana_url (Reach-IsServing ops show flags r).path

-- The value in a row of the first section that the page shows.
abbrev row_value : Text → List (Text × Text) → Option Text
row_value key [] = none
row_value key ((k, v) ∷ rows) = let rest = row_value key rows in if same k key then some v else rest

abbrev pub first_section : Text → List EndpointStatus → Option Text
first_section key [] = none
first_section key (s ∷ ss) = row_value key s.properties
