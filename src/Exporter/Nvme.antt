-- ===== src/Exporter/Nvme.antt =====
-- lib/exporter/prometheus/nvme.go: the SMART logs of the NVMe devices. The patterns are matched by the
-- module Regex. What is logged is left out.
pub mod Log
pub mod RoundTrip
pub mod Devices
use Prim.Native.String.{String}
use qnapexporter.Base.{
  length, ◌++◌, ◌||◌, ◌==◌, Option, none, some, List, [], ◌∷◌, is_empty, if◌then◌else◌, Text, codes,
}
use qnapexporter.Exporter.Errors.{Fetch, ok, err, panic}
use qnapexporter.Exporter.Metric.{FloatOps, Metric, metric}
use qnapexporter.Exporter.Metric.Quote.{quote}
use qnapexporter.Exporter.World.{World, exec_command}
use qnapexporter.Regex.{
  Class, digit, digit_or_comma, space, Piece, many, open_group, close_group, line_start, lit, plus,
  find_submatch,
}

-- `(?m)^name\s*:\s*(c+)`
abbrev pub field : String → Class → List Piece
field name c =
    line_start ∷ lit name
    ++ many space ∷ lit ":"
    ++ many space ∷ open_group ∷ plus c
    ++ close_group ∷ []

abbrev pub temperature_re : List Piece
temperature_re = field "temperature" digit ++ many space ∷ lit "C"

abbrev pub percentage_re : String → List Piece
percentage_re name = field name digit ++ lit "%"

abbrev pub count_re : String → List Piece
count_re name = field name digit_or_comma

pub record NvmeSmartData (F : Type 0) : Type 0 where
  pub temperature : F
  pub available_spare : F
  pub available_spare_threshold : F
  pub percentage_used : F
  pub power_on_hours : F
  pub power_cycles : F
  pub unsafe_shutdowns : F
  pub media_errors : F

-- `strings.ReplaceAll(s, ",", "")`
abbrev pub without_commas : Text → Text
without_commas [] = []
without_commas (c ∷ s) = let rest = without_commas s in if c == b',' then rest else c ∷ rest

module _ {F : Type 0} (ops : FloatOps F) where
  unfoldable pub parse_number_with_commas : Text → Option F
  parse_number_with_commas s = ops.parse_float (without_commas s)

  -- The value of a field that may be missing or no number: then the field stays 0.
  abbrev pub or_zero : Option F → F
  or_zero none = ops.of_nat 0
  or_zero (some value) = value

  -- A number, a percentage as a ratio, and a number with commas.
  unfoldable pub plain_value : Option Text → F
  plain_value none = ops.of_nat 0
  plain_value (some group) = or_zero (ops.parse_float group)

  unfoldable pub ratio_value : Option Text → F
  ratio_value none = ops.of_nat 0
  ratio_value (some group) = elim (ops.parse_float group) [
    | none ↦ ops.of_nat 0
    | some value ↦ ops.div value (ops.of_nat 100)
  ]

  unfoldable pub count_value : Option Text → F
  unfolding parse_number_with_commas
  count_value none = ops.of_nat 0
  count_value (some group) = or_zero (parse_number_with_commas group)

  -- `parseNvmeSmartLog`, whose error is always nil.
  unfoldable pub parse_nvme_smart_log : Text → NvmeSmartData F
  parse_nvme_smart_log output = record {
    temperature = plain_value (find_submatch temperature_re output);
    available_spare = ratio_value (find_submatch (percentage_re "available_spare") output);
    available_spare_threshold =
        ratio_value (find_submatch (percentage_re "available_spare_threshold") output);
    percentage_used = ratio_value (find_submatch (percentage_re "percentage_used") output);
    power_on_hours = count_value (find_submatch (count_re "power_on_hours") output);
    power_cycles = count_value (find_submatch (count_re "power_cycles") output);
    unsafe_shutdowns = count_value (find_submatch (count_re "unsafe_shutdowns") output);
    media_errors = count_value (find_submatch (count_re "media_errors") output);
  }

  -- The metrics of a device.
  unfoldable pub device_metrics : Text → NvmeSmartData F → List (Metric F)
  device_metrics device smart =
      let attr = codes "device=" ++ quote device in
      let gauge = codes "gauge" in
      let counter = codes "counter" in
      metric (codes "node_nvme_temperature_celsius") attr smart.temperature
        (codes "Current temperature of the NVMe device in Celsius") gauge
      ∷ metric (codes "node_nvme_available_spare_ratio") attr smart.available_spare
          (codes "Normalized percentage of remaining spare capacity available") gauge
      ∷ metric (codes "node_nvme_available_spare_threshold_ratio") attr
          smart.available_spare_threshold
          (codes "Threshold at which spare capacity is considered critically low") gauge
      ∷ metric (codes "node_nvme_percentage_used_ratio") attr smart.percentage_used
          (codes "Vendor-specific estimate of the percentage of NVMe subsystem life used") gauge
      ∷ metric (codes "node_nvme_power_on_hours_total") attr smart.power_on_hours
          (codes "Total number of power-on hours") counter
      ∷ metric (codes "node_nvme_power_cycles_total") attr smart.power_cycles
          (codes "Total number of power cycles") counter
      ∷ metric (codes "node_nvme_unsafe_shutdowns_total") attr smart.unsafe_shutdowns
          (codes "Total number of unsafe shutdowns") counter
      ∷ metric (codes "node_nvme_media_errors_total") attr smart.media_errors
          (codes "Total number of unrecovered data integrity errors") counter
      ∷ []

  -- The loop over the devices. A device whose command fails is left out.
  unfoldable pub nvme_loop : World → Text → List Text → List (Metric F) → Fetch (List (Metric F))
  nvme_loop w nvme_path [] metrics = ok metrics
  nvme_loop w nvme_path (device ∷ devices) metrics =
      elim (exec_command w nvme_path (codes "smart-log" ∷ (codes "/dev/" ++ device) ∷ [])) [
        | err e ↦ nvme_loop w nvme_path devices metrics
        | panic ↦ panic
        | ok output ↦
            nvme_loop w nvme_path devices
              (metrics ++ device_metrics device (parse_nvme_smart_log output))
      ]

  -- `getNvmeSmartMetrics`
  unfoldable pub get_nvme_smart_metrics : World → Text → List Text → Fetch (List (Metric F))
  get_nvme_smart_metrics w nvme_path nvme_devices =
      if is_empty nvme_path || length nvme_devices == 0
      then ok []
      else nvme_loop w nvme_path nvme_devices []
