-- ===== src/Exporter/Disk.antt =====
-- lib/exporter/prometheus/disk.go: the temperatures of the disks, the counters of the devices, and
-- flashcache. What the source returns beside an error is left out: the worker drops it. Package
-- gopsutil is the parameter `io_counters`.
pub mod Numbers
pub mod DmCache
use qnapexporter.Base.{
  ℕ, zero, suc, ◌+◌, ◌++◌, Option, none, some, List, [], ◌∷◌, is_empty, has_prefix, cut, trim_space,
  Text, codes, ℤ, pos, negsuc, int_leb, format_nat, if◌then◌else◌,
}
use qnapexporter.Exporter.Errors.{
  message, is_not_exist, Fetch, ok, err, panic, ◌>>=◌, or_panic, or_error,
}
use qnapexporter.Exporter.Metric.{FloatOps, Metric, metric}
use qnapexporter.Exporter.Metric.Quote.{quote}
use qnapexporter.Exporter.World.{World, exec_command, read_file_lines}

-- The counters of a device in gopsutil.
pub record IoCounters : Type 0 where
  pub name : Text
  pub read_bytes : ℕ
  pub write_bytes : ℕ
  pub read_count : ℕ
  pub write_count : ℕ
  pub read_time : ℕ
  pub write_time : ℕ
  pub iops_in_progress : ℕ
  pub io_time : ℕ

module _ {F : Type 0} (ops : FloatOps F) where
  -- One round of the loop over the disks: `none` for a disk that reports no temperature.
  unfoldable pub hd_round : World → Text → ℕ → Fetch (Option (Metric F))
  hd_round w getsysinfo hdnum = do
    let hdnum_str = format_nat hdnum
    temp_str ← exec_command w getsysinfo (codes "hdtmp" ∷ hdnum_str ∷ [])
    (if has_prefix temp_str (codes "--") then ok none else (do
      smart ← exec_command w getsysinfo (codes "hdsmart" ∷ hdnum_str ∷ [])
      temp ← or_error (message temp_str) (ops.parse_float (cut b' ' temp_str).0)
      ok (
          some (
            metric (codes "node_hdtmp_C")
              (codes "hd=" ++ (quote hdnum_str ++ (codes ",smart=" ++ quote smart))) temp [] []))))

  -- The loop: the rounds left, the disk, `highestAvailable`, and the metrics so far.
  unfoldable pub hd_loop : World → Text → ℕ → ℕ → ℕ → List (Metric F) → Fetch (ℕ × List (Metric F))
  hd_loop w g zero hdnum highest metrics = ok (highest, metrics)
  hd_loop w g (suc n) hdnum highest metrics = elim (hd_round w g hdnum) [
    | err e ↦ err e
    | panic ↦ panic
    | ok r ↦ elim r [
      | none ↦ hd_loop w g n (hdnum + 1) highest metrics
      | some m ↦ hd_loop w g n (hdnum + 1) hdnum (metrics ++ m ∷ [])
    ]
  ]

  -- `getSysInfoHdMetrics`, with the new `syshdnum`. A negative number makes `make` panic.
  unfoldable pub get_sys_info_hd_metrics : World → Text → ℤ → ℤ × Fetch (List (Metric F))
  get_sys_info_hd_metrics w getsysinfo syshdnum =
      if is_empty getsysinfo then (syshdnum, ok []) else (elim syshdnum [
        | negsuc m ↦ (negsuc m, panic)
        | pos n ↦ elim (hd_loop w getsysinfo n 1 0 []) [
          | err e ↦ (pos n, err e)
          | panic ↦ (pos n, panic)
          | ok (highest, metrics) ↦ (pos highest, ok metrics)
        ]
      ])

  -- The metric of a line of flashcache's statistics. A line without a colon is a panic.
  unfoldable pub flash_cache_metric : Text → Fetch (Metric F)
  flash_cache_metric line = do
    after ← or_panic (cut b':' line).1
    value ← or_error (message after) (ops.parse_float (trim_space after))
    ok (metric (codes "node_flashcache_" ++ (cut b':' line).0) [] value [] [])

  unfoldable pub flash_cache_loop : List Text → List (Metric F) → Fetch (List (Metric F))
  flash_cache_loop [] metrics = ok metrics
  flash_cache_loop (line ∷ lines) metrics = do
    m ← flash_cache_metric line
    flash_cache_loop lines (metrics ++ m ∷ [])

  unfoldable pub get_flash_cache_stats_metrics : World → ℤ → Fetch (List (Metric F))
  get_flash_cache_stats_metrics w kernel_version =
      if int_leb (pos 5) kernel_version
      then ok []
      else (elim (read_file_lines w (codes "/proc/flashcache/CG0/flashcache_stats")) [
        | err e ↦ if is_not_exist e then ok [] else err e
        | panic ↦ panic
        | ok lines ↦ flash_cache_loop lines []
      ])

  abbrev disk_metric : Text → Text → ℕ → Text → Text → Metric F
  disk_metric attr name value help metric_type =
      metric name attr (ops.of_nat value) help metric_type

  unfoldable pub disk_metrics : IoCounters → List (Metric F)
  disk_metrics s =
      let attr = codes "device=" ++ quote s.name in
      let counter = codes "counter" in
      disk_metric attr (codes "node_disk_read_bytes_total") s.read_bytes
        (codes "Total number of bytes read") counter
      ∷ disk_metric attr (codes "node_disk_written_bytes_total") s.write_bytes
          (codes "Total number of bytes written") counter
      ∷ disk_metric attr (codes "node_disk_read_ops_total") s.read_count
          (codes "Total number of read operations") counter
      ∷ disk_metric attr (codes "node_disk_write_ops_total") s.write_count
          (codes "Total number of write operations") counter
      ∷ disk_metric attr (codes "node_disk_read_time_msec") s.read_time
          (codes "# of milliseconds spent reading") counter
      ∷ disk_metric attr (codes "node_disk_write_time_msec") s.write_time
          (codes "# of milliseconds spent writing") counter
      ∷ disk_metric attr (codes "node_disk_iops_in_progress") s.iops_in_progress
          (codes "# of I/Os currently in progress") (codes "gauge")
      ∷ disk_metric attr (codes "node_disk_iotime_msec") s.io_time
          (codes "# of milliseconds spent doing I/Os") counter
      ∷ []

  unfoldable pub all_disk_metrics : List IoCounters → List (Metric F)
  all_disk_metrics [] = []
  all_disk_metrics (s ∷ stats) = disk_metrics s ++ all_disk_metrics stats

  -- `getDiskStatsMetrics`, for one order of the devices in gopsutil's map.
  unfoldable pub get_disk_stats_metrics :
      (List Text → Fetch (List IoCounters)) → List Text → Fetch (List (Metric F))
  get_disk_stats_metrics io_counters devices = do
    stats ← io_counters devices
    ok (all_disk_metrics stats)
