-- ===== src/Exporter/Labels.antt =====
-- The labels of the metrics of the volumes and of the NVMe devices, as `getMetricFullName` of
-- lib/exporter/prometheus/prometheus.go prints them.
use qnapexporter.Base.{
  true, ◌++◌, ◌==◌, Option, none, some, List, [], ◌∷◌, same, if◌then◌else◌, All, append_assoc, Text,
  codes, ◌≡◌, refl, ap, sym, ◌∙◌, ==_refl,
}
use qnapexporter.Exporter.Metric.{FloatOps, Metric, get_metric_full_name}
use qnapexporter.Exporter.Metric.Quote.{quote}
use qnapexporter.Exporter.Metric.Quote.Prometheus.{label_value, all_plain, label_value-plain}
use qnapexporter.Exporter.Volume.{VolumeInfo, volume_metrics}
use qnapexporter.Exporter.Nvme.{NvmeSmartData, device_metrics}

-- What is behind a prefix.
abbrev pub strip : Text → Text → Option Text
strip [] t = some t
strip (c ∷ p) [] = none
strip (c ∷ p) (d ∷ t) = let rest = strip p t in if c == d then rest else none

-- The quoted values behind the given texts, up to the closing brace.
pub read_labels : List Text → Text → Option (List Text)
read_labels [] t = if same t (codes "}") then some [] else none
read_labels (n ∷ ns) t = elim (strip n t) [
  | none ↦ none
  | some quoted ↦ elim (label_value quoted) [
    | none ↦ none
    | some (v, rest) ↦ elim (read_labels ns rest) [ none ↦ none | some vs ↦ some (v ∷ vs) ]
  ]
]

read_one :
    (n : Text) (ns : List Text) (t v rest : Text) (vs : List Text)
    → all_plain v ≡ true
    → strip n t ≡ some (quote v ++ rest)
    → read_labels ns rest ≡ some vs
    → read_labels (n ∷ ns) t ≡ some (v ∷ vs)
unfolding read_labels
read_one n ns t v rest vs plain stripped more =
    rw (stripped, read_labels) (rw (label_value-plain v rest plain, read_labels) (rw more refl))

no_more : read_labels [] (codes "}") ≡ some []
unfolding read_labels
no_more = refl

strip-append : (n t : Text) → strip n (n ++ t) ≡ some t
strip-append [] t = refl
strip-append (c ∷ n) t = rw (==_refl c) (strip-append n t)

-- The name and the host in front of the labels.
host-read :
    (name hostname labels : Text) (ns vs : List Text)
    → all_plain hostname ≡ true
    → read_labels ns labels ≡ some vs
    → read_labels
        ((name ++ codes "{node=") ∷ ns)
        (name ++ (codes "{node=" ++ (quote hostname ++ labels)))
      ≡ some (hostname ∷ vs)
host-read name hostname labels ns vs plain more =
    read_one (name ++ codes "{node=") ns _ hostname labels vs plain
      (ap (strip (name ++ codes "{node="))
          (sym (append_assoc name (codes "{node=") (quote hostname ++ labels)))
        ∙ strip-append (name ++ codes "{node=") (quote hostname ++ labels))
      more

device-read :
    (device : Text)
    → all_plain device ≡ true
    → read_labels
        (codes ",device=" ∷ [])
        (codes "," ++ ((codes "device=" ++ quote device) ++ codes "}"))
      ≡ some (device ∷ [])
device-read device plain = read_one (codes ",device=") [] _ device (codes "}") [] plain refl no_more

volume-read :
    (description file_system status : Text)
    → all_plain description ≡ true
    → all_plain file_system ≡ true
    → all_plain status ≡ true
    → read_labels (codes ",volume=" ∷ codes ",filesystem=" ∷ codes ",status=" ∷ []) (
        codes ","
        ++ ((codes "volume="
              ++ (quote description
                  ++ (codes ",filesystem="
                      ++ (quote file_system ++ (codes ",status=" ++ quote status)))))
            ++ codes "}"))
      ≡ some (description ∷ file_system ∷ status ∷ [])
volume-read description file_system status d f t =
    let last = codes ",status=" ++ quote status in
    let rest = codes ",filesystem=" ++ (quote file_system ++ last) in
    read_one (codes ",volume=") _ _ description (rest ++ codes "}") _ d
      (ap some (append_assoc (quote description) rest (codes "}")))
      (read_one (codes ",filesystem=") _ _ file_system (last ++ codes "}") _ f
        (ap some (append_assoc (quote file_system) last (codes "}")))
        (read_one (codes ",status=") [] _ status (codes "}") [] t refl no_more))

module _ {F : Type 0} (ops : FloatOps F) (hostname : Text) where
  -- A metric's name with its labels reads back as the values.
  abbrev pub Reads : List Text → List Text → Metric F → Type 0
  Reads names values m =
      read_labels ((m.name ++ codes "{node=") ∷ names) (get_metric_full_name hostname m)
      ≡ some (hostname ∷ values)

  -- What Prometheus is sent for a volume carries the volume's description, file system and status, and
  -- what it is sent for an NVMe device carries the device, next to the host: the labels, read with the
  -- escapes that Prometheus knows, are these texts, byte by byte, whatever quotes, backslashes, commas,
  -- braces or newlines they have, if all of them are ASCII without other control bytes.
  pub labels-Reads :
      (v : VolumeInfo F) (device : Text) (smart : NvmeSmartData F)
      → all_plain hostname ≡ true
      → all_plain v.description ≡ true
      → all_plain v.file_system ≡ true
      → all_plain v.status ≡ true
      → all_plain device ≡ true
      → All
          (Reads
            (codes ",volume=" ∷ codes ",filesystem=" ∷ codes ",status=" ∷ [])
            (v.description ∷ v.file_system ∷ v.status ∷ []))
          (volume_metrics ops v)
        × All (Reads (codes ",device=" ∷ []) (device ∷ [])) (device_metrics ops device smart)
  unfolding volume_metrics device_metrics get_metric_full_name
  labels-Reads v device smart host d f t plain =
      let of_volume = volume-read v.description v.file_system v.status d f t in
      let of_device = device-read device plain in
      (
        (
          host-read (codes "node_volume_avail_bytes") hostname _ _ _ host of_volume,
          (host-read (codes "node_volume_size_bytes") hostname _ _ _ host of_volume, tt),
        ),
        (
          host-read (codes "node_nvme_temperature_celsius") hostname _ _ _ host of_device,
          (
            host-read (codes "node_nvme_available_spare_ratio") hostname _ _ _ host of_device,
            (
              host-read (codes "node_nvme_available_spare_threshold_ratio") hostname _ _ _ host
                  of_device,
              (
                host-read (codes "node_nvme_percentage_used_ratio") hostname _ _ _ host of_device,
                (
                  host-read (codes "node_nvme_power_on_hours_total") hostname _ _ _ host of_device,
                  (
                    host-read (codes "node_nvme_power_cycles_total") hostname _ _ _ host of_device,
                    (
                      host-read (codes "node_nvme_unsafe_shutdowns_total") hostname _ _ _ host
                          of_device,
                      (
                        host-read (codes "node_nvme_media_errors_total") hostname _ _ _ host
                            of_device,
                        tt,
                      ),
                    ),
                  ),
                ),
              ),
            ),
          ),
        ),
      )
