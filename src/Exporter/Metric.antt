-- ===== src/Exporter/Metric.antt =====
-- lib/exporter/prometheus/metric.go and the printing of a metric, prometheus.go. Go's `float64` is a
-- type `F` with the operations that the source uses, a parameter of all that computes with values.
pub mod Quote
use qnapexporter.Base.{
  ℕ, ◌++◌, ◌/◌, ◌==◌, Bool, Option, [], if◌then◌else◌, is_empty, Text, codes, ℤ, format_nat,
}
use qnapexporter.Exporter.Metric.Quote.{quote}

pub record FloatOps (F : Type 0) : Type 0 where
  -- `strconv.ParseFloat(s, 64)`, `none` for an error
  pub parse_float : Text → Option F
  pub of_nat : ℕ → F
  pub of_int : ℤ → F
  pub mul : F → F → F
  pub div : F → F → F
  -- `x > 0` and `x == 0`
  pub is_positive : F → Bool
  pub is_zero : F → Bool
  pub nan : F
  -- `%g`
  pub format_g : F → Text

pub record Metric (F : Type 0) : Type 0 where
  pub name : Text
  pub attr : Text
  -- nanoseconds since 1970, 0 for the zero time
  pub timestamp : ℕ
  pub value : F
  pub help : Text
  pub metric_type : Text

module _ {F : Type 0} where
  -- A metric literal that leaves the timestamp out.
  abbrev pub metric : Text → Text → F → Text → Text → Metric F
  metric name attr value help metric_type = record {
    name = name;
    attr = attr;
    timestamp = 0;
    value = value;
    help = help;
    metric_type = metric_type;
  }

  -- `getMetricFullName`, for a host name; of its bytes from 128 on only printable UTF-8 is modelled
  unfoldable pub get_metric_full_name : Text → Metric F → Text
  get_metric_full_name hostname m =
      if is_empty m.attr
      then m.name ++ (codes "{node=" ++ (quote hostname ++ codes "}"))
      else m.name ++ (codes "{node=" ++ (quote hostname ++ (codes "," ++ (m.attr ++ codes "}"))))

  -- `writeMetricMetadata`
  unfoldable pub write_metric_metadata : Metric F → Text
  write_metric_metadata m =
      (if is_empty m.help
        then []
        else codes "# HELP " ++ (m.name ++ (codes " " ++ (m.help ++ codes "\n"))))
      ++ (if is_empty m.metric_type
          then []
          else codes "# TYPE " ++ (m.name ++ (codes " " ++ (m.metric_type ++ codes "\n"))))

  -- What the loop of `WriteMetrics` prints for a metric.
  unfoldable pub write_metric : FloatOps F → Text → Metric F → Text
  unfolding write_metric_metadata get_metric_full_name
  write_metric ops hostname m =
      let timestamp = if m.timestamp == 0 then [] else format_nat (m.timestamp / 1_000_000) in
      write_metric_metadata m
      ++ (get_metric_full_name hostname m
          ++ (codes " " ++ (ops.format_g m.value ++ (codes " " ++ (timestamp ++ codes "\n")))))
