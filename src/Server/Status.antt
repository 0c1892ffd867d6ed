-- ===== src/Server/Status.antt =====
-- lib/status/status.go: what the page shows. Package go-humanize is the parameter `Humanize`. The page is
-- the list of the template's sections, one for each endpoint with a path, with the rows sorted by key as
-- html/template ranges over a map; the module Html is the page itself.
pub mod Escape
pub mod Html
use qnapexporter.Base.{ℕ, ◌==◌, List, [], ◌∷◌, is_empty, if◌then◌else◌, Text, codes}

pub record Humanize : Type 0 where
  -- `humanize.Time`, `humanize.Comma`, `english.OxfordWordSeries(_, "and")`
  pub time : ℕ → Text
  pub comma : ℕ → Text
  pub word_series : List Text → Text
  -- `String` of `time.Duration`
  pub duration : ℕ → Text

-- The fields of `exporter.Status` that the page shows. Times are 0 for Go's zero time.
pub record ExporterStatus : Type 0 where
  pub uptime : ℕ
  pub last_fetch : ℕ
  pub last_fetch_duration : ℕ
  pub metric_count : ℕ
  pub ups : List Text
  pub devices : List Text
  pub volumes : List Text
  pub interfaces : List Text
  pub enclosures : List Text
  pub dm_caches : List Text
  pub dm_cache_device : Text
  pub docker : Text

pub record Status : Type 0 where
  pub metrics_endpoint : Text
  pub notification_endpoint : Text
  pub exporter_status : ExporterStatus
  pub last_notification : ℕ

pub record EndpointStatus : Type 0 where
  pub path : Text
  pub properties : List (Text × Text)

module _ (h : Humanize) where
  unfoldable pub humanize_list : List Text → Text
  humanize_list [] = codes "N/A"
  humanize_list (a ∷ rest) = h.word_series (a ∷ rest)

  unfoldable pub humanize_time : ℕ → Text
  humanize_time t = if t == 0 then codes "N/A" else h.time t

  -- The endpoints that `WriteHTML` hands to the template, for a version and a revision.
  unfoldable pub endpoints : Text → Text → Status → List EndpointStatus
  endpoints version revision s =
      let e = s.exporter_status in
      record {
        path = s.metrics_endpoint;
        properties =
            (codes "Devices", humanize_list e.devices)
            ∷ (codes "Docker", e.docker)
            ∷ (codes "Enclosures", humanize_list e.enclosures)
            ∷ (codes "Interfaces", humanize_list e.interfaces)
            ∷ (codes "Last duration", h.duration e.last_fetch_duration)
            ∷ (codes "Last fetch", humanize_time e.last_fetch)
            ∷ (codes "Metrics", h.comma e.metric_count)
            ∷ (codes "Revision", revision)
            ∷ (codes "UPS", humanize_list e.ups)
            ∷ (codes "Uptime", humanize_time e.uptime)
            ∷ (codes "Version", version)
            ∷ (codes "Volumes", humanize_list e.volumes)
            ∷ (codes "dm-caches", humanize_list e.dm_caches)
            ∷ (codes "dm-volume", e.dm_cache_device)
            ∷ [];
      }
      ∷ record {
        path = s.notification_endpoint;
        properties = (codes "Last notification", humanize_time s.last_notification) ∷ [];
      }
      ∷ []

-- `{{ range . }}{{ if .Path }}`
unfoldable pub sections : List EndpointStatus → List EndpointStatus
sections [] = []
sections (e ∷ es) = if is_empty e.path then sections es else e ∷ sections es
