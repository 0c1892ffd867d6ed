-- ===== src/Exporter/Nvme/Devices.antt =====
-- Which devices give metrics.
use qnapexporter.Base.{
  ◌++◌, ◌==◌, length, arith, false, Option, none, some, List, [], ◌∷◌, is_empty, Option-cases, inl,
  inr, trim_space, Text, codes, ◌≡◌, refl, ◌∙◌, append-nil, append_assoc,
}
use qnapexporter.Exporter.Errors.{ok}
use qnapexporter.Exporter.Metric.{FloatOps, Metric}
use qnapexporter.Exporter.World.{World, exec_command}
use qnapexporter.Exporter.Nvme.{
  parse_nvme_smart_log, device_metrics, nvme_loop, get_nvme_smart_metrics,
}

module _ {F : Type 0} (ops : FloatOps F) (w : World) (nvme_path : Text) where
  -- What `nvme smart-log` prints for a device.
  abbrev pub smart_log_of : Text → Option Text
  smart_log_of device = w.exec nvme_path (codes "smart-log" ∷ (codes "/dev/" ++ device) ∷ [])

  -- The metrics of the devices for which the command succeeds, one device behind the other.
  unfoldable pub answering_metrics : List Text → List (Metric F)
  answering_metrics [] = []
  answering_metrics (device ∷ devices) = elim (smart_log_of device) [
    | none ↦ answering_metrics devices
    | some output ↦
        device_metrics ops device (parse_nvme_smart_log ops (trim_space output))
        ++ answering_metrics devices
  ]

  nvme_loop-answering :
      (devices : List Text) (metrics : List (Metric F))
      → nvme_loop ops w nvme_path devices metrics ≡ ok (metrics ++ answering_metrics devices)
  unfolding nvme_loop answering_metrics exec_command
  nvme_loop-answering [] metrics = rw append-nil
  nvme_loop-answering (device ∷ devices) metrics = elim (Option-cases (smart_log_of device)) [
    | inl silent ↦
        rw (silent, nvme_loop, answering_metrics, exec_command)
          (nvme_loop-answering devices metrics)
    | inr (output, printed) ↦
        rw (printed, nvme_loop, answering_metrics, exec_command)
          (nvme_loop-answering devices
              (metrics ++ device_metrics ops device (parse_nvme_smart_log ops (trim_space output)))
            ∙ rw append_assoc refl)
  ]

  -- Where the path of the command is known, the NVMe collector neither fails nor panics, whatever the
  -- commands print: its metrics are those of the devices for which the command succeeds, in order,
  -- and a device for which it fails hides no other.
  pub get_nvme_smart_metrics-answering :
      (devices : List Text)
      → is_empty nvme_path ≡ false
      → get_nvme_smart_metrics ops w nvme_path devices ≡ ok (answering_metrics devices)
  unfolding get_nvme_smart_metrics answering_metrics
  get_nvme_smart_metrics-answering [] found = rw found refl
  get_nvme_smart_metrics-answering (device ∷ devices) found =
      let some_there : (length (device ∷ devices) == 0) ≡ false = ground arith in
      rw found (rw some_there (nvme_loop-answering (device ∷ devices) []))
