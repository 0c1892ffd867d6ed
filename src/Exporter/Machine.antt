-- ===== src/Exporter/Machine.antt =====
-- lib/exporter/prometheus: cpu_linux.go, cpu_others.go, memory_linux.go, memory_others.go, and the ping of
-- network.go. Packages gopsutil and pro-bing are parameters: what their calls return.
use Prim.Native.String.{String}
use qnapexporter.Base.{
  ℕ, ◌++◌, Bool, true, false, List, [], ◌∷◌, is_empty, if◌then◌else◌, get_elem?, Text, codes,
}
use qnapexporter.Exporter.Errors.{Fetch, ok, ◌>>=◌, or_panic}
use qnapexporter.Exporter.Metric.{FloatOps, Metric, metric}
use qnapexporter.Exporter.Metric.Quote.{quote}

-- The operating system that the program is built for.
pub data Os : Type 0 where
  linux other_os : Os

pub record CpuTimes (F : Type 0) : Type 0 where
  pub user : F
  pub nice : F
  pub system : F
  pub idle : F
  pub iowait : F
  pub irq : F
  pub softirq : F

-- `cpu.Times(false)`, and `cpu.Counts` for the logical CPUs and for the physical ones.
pub record Cpu (F : Type 0) : Type 0 where
  pub times : Fetch (List (CpuTimes F))
  pub counts : Bool → Fetch ℕ

pub record VirtualMemory : Type 0 where
  pub total : ℕ
  pub free : ℕ
  pub cached : ℕ
  pub active : ℕ
  pub inactive : ℕ
  pub swap_total : ℕ
  pub swap_free : ℕ
  pub available : ℕ
  pub swap_cached : ℕ
  pub sreclaimable : ℕ
  pub page_tables : ℕ

-- What the pinger reports after its run; the mean round trip is `stats.AvgRtt.Seconds()`.
pub record PingStatistics (F : Type 0) : Type 0 where
  pub avg_rtt_seconds : F
  pub packet_loss : F
  pub ip_addr : Text

module _ {F : Type 0} (ops : FloatOps F) where
  unfoldable pub cpu_mode : String → F → Metric F
  cpu_mode mode value =
      metric (codes "node_cpu_seconds_total") (codes "mode=\"" ++ (codes mode ++ codes "\"")) value
        [] (codes "counter")

  abbrev pub logical : Os → Bool
  logical linux = true
  logical other_os = false

  -- The modes of cpu_linux.go, and those of cpu_others.go.
  abbrev pub linux_cpu_modes : CpuTimes F → List (Metric F)
  linux_cpu_modes s =
      cpu_mode "user" s.user
      ∷ cpu_mode "nice" s.nice
      ∷ cpu_mode "system" s.system
      ∷ cpu_mode "idle" s.idle
      ∷ cpu_mode "iowait" s.iowait
      ∷ cpu_mode "irq" s.irq
      ∷ cpu_mode "softirq" s.softirq
      ∷ []

  abbrev pub other_cpu_modes : CpuTimes F → List (Metric F)
  other_cpu_modes s =
      cpu_mode "user" s.user
      ∷ cpu_mode "nice" s.nice
      ∷ cpu_mode "system" s.system
      ∷ cpu_mode "idle" s.idle
      ∷ []

  abbrev pub cpu_modes : Os → CpuTimes F → List (Metric F)
  cpu_modes linux s = linux_cpu_modes s
  cpu_modes other_os s = other_cpu_modes s

  -- `getCPURatioMetrics`. A list of times that is empty is a panic.
  unfoldable pub get_cpu_ratio_metrics : Os → Cpu F → Fetch (List (Metric F))
  get_cpu_ratio_metrics os cpu = do
    a ← cpu.times
    s ← or_panic (get_elem? a 0)
    counts ← cpu.counts (logical os)
    ok (cpu_modes os s ++ metric (codes "node_cpu_count") [] (ops.of_nat counts) [] [] ∷ [])

  unfoldable pub memory_metric : String → ℕ → Metric F
  memory_metric name value =
      metric (codes "node_memory_" ++ (codes name ++ codes "_bytes")) [] (ops.of_nat value) [] []

  -- The list of memory_linux.go, and that of memory_others.go.
  abbrev pub linux_memory : VirtualMemory → List (Metric F)
  linux_memory s =
      memory_metric "MemTotal" s.total
      ∷ memory_metric "MemFree" s.free
      ∷ memory_metric "Cached" s.cached
      ∷ memory_metric "Active" s.active
      ∷ memory_metric "Inactive" s.inactive
      ∷ memory_metric "SwapTotal" s.swap_total
      ∷ memory_metric "SwapFree" s.swap_free
      ∷ memory_metric "MemAvailable" s.available
      ∷ memory_metric "SwapCached" s.swap_cached
      ∷ memory_metric "SReclaimable" s.sreclaimable
      ∷ memory_metric "PageTables" s.page_tables
      ∷ []

  abbrev pub other_memory : VirtualMemory → List (Metric F)
  other_memory s =
      memory_metric "MemTotal" s.total
      ∷ memory_metric "MemFree" s.free
      ∷ memory_metric "Cached" s.cached
      ∷ memory_metric "Active" s.active
      ∷ memory_metric "Inactive" s.inactive
      ∷ memory_metric "SwapTotal" s.swap_total
      ∷ memory_metric "SwapFree" s.swap_free
      ∷ memory_metric "MemAvailable" s.available
      ∷ []

  -- `getMemInfoMetrics`
  unfoldable pub get_mem_info_metrics : Os → Fetch VirtualMemory → Fetch (List (Metric F))
  get_mem_info_metrics os virtual_memory = do
    s ← virtual_memory
    ok (elim os [ linux ↦ linux_memory s | other_os ↦ other_memory s ])

  -- `getPingMetrics`: `run` is the pinger's creation and run for the target.
  unfoldable pub get_ping_metrics :
      (Text → Fetch (PingStatistics F)) → Text → ℕ → Fetch (List (Metric F))
  get_ping_metrics run ping_target now = if is_empty ping_target then ok [] else (do
    stats ← run ping_target
    let value = ops.mul stats.avg_rtt_seconds (ops.of_nat 1_000)
    ok (
        record {
          name = codes "node_network_external_roundtrip_time_ms";
          attr = codes "target=" ++ quote stats.ip_addr;
          timestamp = now;
          value = if ops.is_positive stats.packet_loss then ops.nan else value;
          help = [];
          metric_type = [];
        }
        ∷ []))
