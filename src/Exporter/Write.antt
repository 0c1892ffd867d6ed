-- ===== src/Exporter/Write.antt =====
-- The workers of `WriteMetrics` and the loop that receives from the channel and prints,
-- lib/exporter/prometheus/prometheus.go, and the version metric, version.go. The channel delivers the
-- workers' messages in any order: a run is a list of messages. How an error reads is the parameter
-- `show`.
pub mod Orders
pub mod Lines
use qnapexporter.Base.{ℕ, ◌+◌, ◌++◌, Option, none, some, List, [], ◌∷◌, Text, codes, length}
use qnapexporter.Exporter.Errors.{Error, wrapped, Fetch, ok, err, panic}
use qnapexporter.Exporter.Metric.{FloatOps, Metric, metric, write_metric}
use qnapexporter.Exporter.Metric.Quote.{quote}

-- What a worker sends.
pub data Message (F : Type 0) : Type 0 where
  metrics : List (Metric F) → Message F
  failure : Error → Message F

-- `fetchMetricsWorker`: `none` is a panic of the collector, which ends the program.
unfoldable pub fetch_metrics_worker :
    {F : Type 0} → Text → Fetch (List (Metric F)) → Option (Message F)
fetch_metrics_worker name (ok ms) = some (metrics ms)
fetch_metrics_worker name (err e) =
    some (failure (wrapped (codes "retrieve '#" ++ (name ++ codes "' metric: ")) e))
fetch_metrics_worker name panic = none

-- The build metadata of `exporter.Status`.
pub record Build : Type 0 where
  pub branch : Text
  pub revision : Text
  pub built : Text
  pub version : Text

-- `getVersionMetrics`: with no status it dereferences a nil pointer.
unfoldable pub get_version_metrics :
    {F : Type 0} → FloatOps F → Option Build → Fetch (List (Metric F))
get_version_metrics ops none = panic
get_version_metrics ops (some b) = ok (
    metric (codes "go_program")
      (codes "branch="
        ++ (quote b.branch
            ++ (codes ",revision="
                ++ (quote b.revision
                    ++ (codes ",built="
                        ++ (quote b.built ++ (codes ",version=" ++ quote b.version)))))))
      (ops.of_nat 1) (codes "Information about qnapexporter") []
    ∷ [])

-- The variables of the receiving loop: what was printed, `err`, and the status's `MetricCount`.
pub record Written : Type 0 where
  pub output : Text
  pub error : Option Error
  pub metric_count : ℕ

abbrev pub nothing_written : Written
nothing_written = record { output = []; error = none; metric_count = 0 }

module _ {F : Type 0} (ops : FloatOps F) (show : Error → Text) (hostname : Text) where
  unfoldable pub write_all : List (Metric F) → Text
  unfolding write_metric
  write_all [] = []
  write_all (m ∷ ms) = write_metric ops hostname m ++ write_all ms

  unfoldable pub receive : Written → Message F → Written
  receive r (metrics ms) = record r {
    output = r.output ++ write_all ms;
    metric_count = r.metric_count + length ms;
  }
  receive r (failure e) = record r {
    output = r.output ++ (codes "## " ++ (show e ++ codes "\n"));
    error = some e;
  }

  unfoldable pub receive_all : Written → List (Message F) → Written
  receive_all r [] = r
  receive_all r (m ∷ ms) = receive_all (receive r m) ms

  -- `WriteMetrics` from the channel on, for one order of the messages.
  abbrev pub write_messages : List (Message F) → Written
  write_messages = receive_all nothing_written
