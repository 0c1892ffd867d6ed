-- ===== src/Exporter/Shapes.antt =====
-- The types that the collectors of lib/exporter/prometheus declare for their metrics, against the naming rule
-- of Prometheus that a counter's name ends in `_total`.
use qnapexporter.Base.{
  ℕ, ◌||◌, Bool, true, false, List, [], ◌∷◌, is_empty, get_elem?, same, Bool-cases, Option-cases,
  inl, inr, All, All-append, trim_space, Text, codes, ◌≡◌, refl,
}
use qnapexporter.Exporter.Errors.{Fetch, ok, err, panic, or_panic, ◌>>=◌, Yields}
use qnapexporter.Exporter.Metric.{FloatOps, Metric, metric}
use qnapexporter.Exporter.World.{World}
use qnapexporter.Exporter.Machine.{
  Os, linux, other_os, Cpu, logical, CpuTimes, VirtualMemory, PingStatistics, cpu_mode, cpu_modes,
  memory_metric, get_cpu_ratio_metrics, get_mem_info_metrics, get_ping_metrics,
}
use qnapexporter.Exporter.Nvme.{
  NvmeSmartData, device_metrics, get_nvme_smart_metrics, parse_nvme_smart_log,
}
use qnapexporter.Exporter.Nvme.Devices.{
  smart_log_of, answering_metrics, get_nvme_smart_metrics-answering,
}

-- A type of a metric, or none.
pub data MetricType : Text → Type 0 where
  untyped : MetricType []
  gauge : MetricType (codes "gauge")
  counter : MetricType (codes "counter")

abbrev pub has_suffix : Text → Text → Bool
has_suffix [] p = is_empty p
has_suffix (c ∷ s) p = same (c ∷ s) p || has_suffix s p

-- The type is one that Prometheus knows, and it is that of a counter exactly if the name ends in `_total`.
pub record IsTyped {F : Type 0} (m : Metric F) : Type 0 where
  pub known : MetricType m.metric_type
  pub named : has_suffix m.name (codes "_total") ≡ same m.metric_type (codes "counter")

-- A collector that succeeds gives metrics with the property.
abbrev pub Gives : {F : Type 0} → (Metric F → Type 0) → Fetch (List (Metric F)) → Type 0
Gives P x = Yields (All P) x

Gives-bind :
    {F A : Type 0} (P : Metric F → Type 0) (x : Fetch A) (f : A → Fetch (List (Metric F)))
    → ((a : A) → Gives P (f a))
    → Gives P (x >>= f)
Gives-bind P (ok a) f h = h a
Gives-bind P (err e) f h = tt
Gives-bind P panic f h = tt

module _ {F : Type 0} (ops : FloatOps F) where
  plain_gauge :
      {name attr help : Text} {value : F}
      → has_suffix name (codes "_total") ≡ false
      → IsTyped (metric name attr value help (codes "gauge"))
  plain_gauge h = record { known = gauge; named = h }

  total_counter :
      {name attr help : Text} {value : F}
      → has_suffix name (codes "_total") ≡ true
      → IsTyped (metric name attr value help (codes "counter"))
  total_counter h = record { known = counter; named = h }

  device_metrics-IsTyped :
      (device : Text) (smart : NvmeSmartData F) → All IsTyped (device_metrics ops device smart)
  unfolding device_metrics
  device_metrics-IsTyped device smart = (
    plain_gauge refl,
    (
      plain_gauge refl,
      (
        plain_gauge refl,
        (
          plain_gauge refl,
          (
            total_counter refl,
            (total_counter refl, (total_counter refl, (total_counter refl, tt))),
          ),
        ),
      ),
    ),
  )

  answering_metrics-IsTyped :
      (w : World) (nvme_path : Text) (devices : List Text)
      → All IsTyped (answering_metrics ops w nvme_path devices)
  unfolding answering_metrics
  answering_metrics-IsTyped w nvme_path [] = tt
  answering_metrics-IsTyped w nvme_path (device ∷ devices) =
      elim (Option-cases (smart_log_of ops w nvme_path device)) [
        | inl silent ↦
            rw (silent, answering_metrics) (answering_metrics-IsTyped w nvme_path devices)
        | inr (output, printed) ↦
            rw (printed, answering_metrics)
              (All-append IsTyped
                (device_metrics ops device (parse_nvme_smart_log ops (trim_space output)))
                (answering_metrics ops w nvme_path devices)
                (device_metrics-IsTyped device (parse_nvme_smart_log ops (trim_space output)))
                (answering_metrics-IsTyped w nvme_path devices))
      ]

  get_nvme_smart_metrics-IsTyped :
      (w : World) (nvme_path : Text) (devices : List Text)
      → Gives IsTyped (get_nvme_smart_metrics ops w nvme_path devices)
  unfolding get_nvme_smart_metrics
  get_nvme_smart_metrics-IsTyped w nvme_path devices = elim (Bool-cases (is_empty nvme_path)) [
    | inl unknown ↦ rw (unknown, get_nvme_smart_metrics) tt
    | inr found ↦
        rw (get_nvme_smart_metrics-answering ops w nvme_path devices found)
          (answering_metrics-IsTyped w nvme_path devices)
  ]

  cpu_modes-IsTyped : (os : Os) (s : CpuTimes F) → All IsTyped (cpu_modes ops os s)
  unfolding cpu_modes cpu_mode
  cpu_modes-IsTyped linux s = (
    total_counter refl,
    (
      total_counter refl,
      (
        total_counter refl,
        (total_counter refl, (total_counter refl, (total_counter refl, (total_counter refl, tt)))),
      ),
    ),
  )
  cpu_modes-IsTyped other_os s =
      (total_counter refl, (total_counter refl, (total_counter refl, (total_counter refl, tt))))

  get_cpu_ratio_metrics-IsTyped :
      (os : Os) (cpu : Cpu F) → Gives IsTyped (get_cpu_ratio_metrics ops os cpu)
  unfolding get_cpu_ratio_metrics
  get_cpu_ratio_metrics-IsTyped os cpu = Gives-bind IsTyped cpu.times _ (λ times.
      Gives-bind IsTyped (or_panic (get_elem? times 0)) _ (λ s.
        Gives-bind IsTyped (cpu.counts (logical ops os)) _ (λ counts.
          All-append IsTyped (cpu_modes ops os s) _ (cpu_modes-IsTyped os s)
            (record { known = untyped; named = refl }, tt))))

  plain :
      {name attr help : Text} {timestamp : ℕ} {value : F}
      → has_suffix name (codes "_total") ≡ false
      → IsTyped (record {
        name = name;
        attr = attr;
        timestamp = timestamp;
        value = value;
        help = help;
        metric_type = [];
      })
  plain h = record { known = untyped; named = h }

  get_mem_info_metrics-IsTyped :
      (os : Os) (m : Fetch VirtualMemory) → Gives IsTyped (get_mem_info_metrics ops os m)
  unfolding get_mem_info_metrics memory_metric
  get_mem_info_metrics-IsTyped os (err e) = tt
  get_mem_info_metrics-IsTyped os panic = tt
  get_mem_info_metrics-IsTyped linux (ok s) = (
    plain refl,
    (
      plain refl,
      (
        plain refl,
        (
          plain refl,
          (
            plain refl,
            (plain refl, (plain refl, (plain refl, (plain refl, (plain refl, (plain refl, tt)))))),
          ),
        ),
      ),
    ),
  )
  get_mem_info_metrics-IsTyped other_os (ok s) = (
    plain refl,
    (
      plain refl,
      (plain refl, (plain refl, (plain refl, (plain refl, (plain refl, (plain refl, tt)))))),
    ),
  )

  get_ping_metrics-IsTyped :
      (run : Text → Fetch (PingStatistics F)) (ping_target : Text) (now : ℕ)
      → Gives IsTyped (get_ping_metrics ops run ping_target now)
  unfolding get_ping_metrics
  get_ping_metrics-IsTyped run [] now = tt
  get_ping_metrics-IsTyped run (c ∷ target) now =
      Gives-bind IsTyped (run (c ∷ target)) _ (λ stats. (plain refl, tt))

  -- The metrics of the NVMe devices, the CPU, the memory and the ping are typed as Prometheus asks: where
  -- one of these collectors succeeds, each metric has no type, or it is a gauge or a counter, and it is a
  -- counter exactly if its name ends in `_total`, on every operating system.
  pub machine-IsTyped :
      (w : World) (os : Os) (nvme_path ping_target : Text) (devices : List Text) (cpu : Cpu F)
      (memory : Fetch VirtualMemory) (ping : Text → Fetch (PingStatistics F)) (now : ℕ)
      → Gives IsTyped (get_nvme_smart_metrics ops w nvme_path devices)
        × Gives IsTyped (get_cpu_ratio_metrics ops os cpu)
        × Gives IsTyped (get_mem_info_metrics ops os memory)
        × Gives IsTyped (get_ping_metrics ops ping ping_target now)
  machine-IsTyped w os nvme_path ping_target devices cpu memory ping now = (
    get_nvme_smart_metrics-IsTyped w nvme_path devices,
    get_cpu_ratio_metrics-IsTyped os cpu,
    get_mem_info_metrics-IsTyped os memory,
    get_ping_metrics-IsTyped ping ping_target now,
  )
