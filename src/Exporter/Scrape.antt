-- ===== src/Exporter/Scrape.antt =====
-- A whole scrape: `WriteMetrics` of lib/exporter/prometheus/prometheus.go with all collectors that
-- `NewExporter` registers, and `Close`. The collectors run side by side; each writes fields of its own,
-- so that a run is the collectors' results and the order in which their messages arrive.
pub mod Complete
pub mod Runs
use qnapexporter.Base.{
  ℕ, ◌-◌, Bool, not, Option, none, some, List, [], ◌∷◌, is_empty, Text, codes, pos,
}
use qnapexporter.Exporter.Errors.{Fetch}
use qnapexporter.Exporter.Metric.{FloatOps, Metric}
use qnapexporter.Exporter.World.{World}
use qnapexporter.Exporter.Ups.{Daemon, UpsState, get_ups_stats_metrics_with_retry}
use qnapexporter.Exporter.Volume.{VolumeState, get_sys_info_vol_metrics}
use qnapexporter.Exporter.Disk.{
  IoCounters, get_sys_info_hd_metrics, get_flash_cache_stats_metrics, get_disk_stats_metrics,
}
use qnapexporter.Exporter.Disk.DmCache.{get_dm_cache_stats_metrics}
use qnapexporter.Exporter.Environment.Read.{Environment, cut_short, crashed, read, refresh}
use qnapexporter.Exporter.System.{
  get_uptime_metrics, get_load_avg_metrics, get_sys_info_temp_metrics, get_sys_info_fan_metrics,
  get_enclosure_fan_metrics, get_network_stats_metrics,
}
use qnapexporter.Exporter.Machine.{
  Os, Cpu, VirtualMemory, PingStatistics, get_cpu_ratio_metrics, get_mem_info_metrics,
  get_ping_metrics,
}
use qnapexporter.Exporter.Nvme.{get_nvme_smart_metrics}
use qnapexporter.Exporter.Write.{Build, Message, fetch_metrics_worker, get_version_metrics}

-- What a scrape meets: the machine, the UPS daemon at the two calls, gopsutil, the pinger, and the
-- time, which is read once at the start and once at the end.
pub record Surroundings (F : Type 0) : Type 0 where
  pub world : World
  pub os : Os
  pub daemon : Daemon F
  pub daemon_again : Daemon F
  pub io_counters : List Text → Fetch (List IoCounters)
  pub cpu : Cpu F
  pub memory : Fetch VirtualMemory
  pub uptime : Fetch ℕ
  pub load : Fetch (F × F × F)
  pub ping : Text → Fetch (PingStatistics F)
  pub now : ℕ
  pub ended : ℕ

-- `promExporter`, with what its collectors note in the status.
pub record Exporter (F : Type 0) : Type 0 where
  pub ping_target : Text
  pub build : Build
  pub environment : Environment F
  pub ups : UpsState
  pub volume_last_fetch : ℕ
  pub status_volumes : List Text
  pub status_uptime : ℕ
  pub status_last_fetch : ℕ
  pub status_last_fetch_duration : ℕ
  pub status_metric_count : ℕ

-- `NewExporter`, with a status.
unfoldable pub new_exporter : {F : Type 0} → Text → Build → ℕ → Exporter F
new_exporter ping_target build now = record {
  ping_target = ping_target;
  build = build;
  environment = record {
    hostname = [];
    kernel_version = pos 0;
    getsysinfo = [];
    syshdnum = pos 0;
    sysfannum = pos 0;
    volumes = [];
    hal_app = [];
    enclosures = [];
    ifaces = [];
    devices = [];
    nvme_devices = [];
    nvme_path = [];
    dm_cache_clients = [];
    dm_cache_device_minor_number = [];
    env_expiry = now;
    status = record {
      enclosures = [];
      devices = [];
      nvme_devices = [];
      interfaces = [];
      dm_caches = [];
      dm_cache_device = [];
    };
  };
  ups = record {
    protocol_version = [];
    conn_err = none;
    conn_err_timestamp = 0;
    conn_attempts = 0;
    ups_list = none;
    status_ups = some [];
  };
  volume_last_fetch = 0;
  status_volumes = [];
  status_uptime = now;
  status_last_fetch = 0;
  status_last_fetch_duration = 0;
  status_metric_count = 0;
}

-- The exporter that the collectors meet: behind the prologue of `WriteMetrics`.
abbrev pub begin_scrape : {F : Type 0} → ℕ → Exporter F → Environment F → Exporter F
begin_scrape now e env = record e {
  environment = env;
  status_last_fetch = now;
  status_metric_count = 0;
}

-- How a scrape ends: not within the rounds of its loops; with a panic of the prologue, in the goroutine of
-- the request, which package net/http recovers, so that the exporter stays as it is by then; with a panic
-- of a collector, in a goroutine of its own, which ends the program; or with the exporter afterwards and
-- what was sent.
pub data Scraping (F : Type 0) : Type 0 where
  unfinished : Scraping F
  recovered : Exporter F → Scraping F
  fatal : Scraping F
  gathered : Exporter F → List (Message F) → Scraping F

module _ {F : Type 0} (ops : FloatOps F) (s : Surroundings F) where
  -- The fields that the volumes' collector uses.
  abbrev pub volume_state : Exporter F → VolumeState F
  volume_state e = record {
    getsysinfo = e.environment.getsysinfo;
    volumes = e.environment.volumes;
    volume_last_fetch = e.volume_last_fetch;
    status_volumes = some e.status_volumes;
  }

  -- The collectors' results, under their names.
  unfoldable pub collect : Exporter F → List (Text × Fetch (List (Metric F)))
  collect e =
      let env = e.environment in
      let w = s.world in
      (codes "version", get_version_metrics ops (some e.build))
      ∷ (codes "uptime", get_uptime_metrics ops s.uptime)
      ∷ (codes "loadAvg", get_load_avg_metrics ops s.load)
      ∷ (codes "CpuRatio", get_cpu_ratio_metrics ops s.os s.cpu)
      ∷ (codes "MemInfo", get_mem_info_metrics ops s.os s.memory)
      ∷ (
        codes "UpsStats",
        (get_ups_stats_metrics_with_retry ops s.daemon s.daemon_again s.now s.now e.ups).1,
      )
      ∷ (codes "SysInfoTemp", get_sys_info_temp_metrics ops w env.getsysinfo)
      ∷ (codes "SysInfoFan", get_sys_info_fan_metrics ops w env.getsysinfo env.sysfannum)
      ∷ (codes "EnclosureFan", get_enclosure_fan_metrics ops w env.hal_app env.enclosures)
      ∷ (codes "SysInfoHd", (get_sys_info_hd_metrics ops w env.getsysinfo env.syshdnum).1)
      ∷ (codes "SysInfoVol", (get_sys_info_vol_metrics ops w s.now (volume_state e)).1)
      ∷ (codes "DiskStats", get_disk_stats_metrics ops s.io_counters env.devices)
      ∷ (codes "FlashCacheStats", get_flash_cache_stats_metrics ops w env.kernel_version)
      ∷ (
        codes "DmCacheStats",
        get_dm_cache_stats_metrics ops w env.dm_cache_clients env.dm_cache_device_minor_number,
      )
      ∷ (codes "NetworkStats", get_network_stats_metrics ops w env.ifaces)
      ∷ (codes "Ping", get_ping_metrics ops s.ping e.ping_target s.now)
      ∷ (codes "NvmeSmart", get_nvme_smart_metrics ops w env.nvme_path env.nvme_devices)
      ∷ []

  -- The exporter's fields afterwards.
  unfoldable pub after_collect : Exporter F → Exporter F
  after_collect e =
      let env = e.environment in
      let volume = (get_sys_info_vol_metrics ops s.world s.now (volume_state e)).0 in
      record e {
        environment = record env {
          syshdnum = (get_sys_info_hd_metrics ops s.world env.getsysinfo env.syshdnum).0;
          volumes = volume.volumes;
        };
        ups = (get_ups_stats_metrics_with_retry ops s.daemon s.daemon_again s.now s.now e.ups).0;
        volume_last_fetch = volume.volume_last_fetch;
        status_volumes = elim volume.status_volumes [ none ↦ [] | some names ↦ names ];
        status_last_fetch_duration = s.ended - s.now;
      }

  -- The messages of the workers; a panic of any of them ends the program.
  unfoldable pub send_all : List (Text × Fetch (List (Metric F))) → Option (List (Message F))
  send_all [] = some []
  send_all ((name, result) ∷ results) = elim (fetch_metrics_worker name result) [
    | none ↦ none
    | some m ↦ elim (send_all results) [ none ↦ none | some ms ↦ some (m ∷ ms) ]
  ]

  -- `WriteMetrics` up to the arrival of the messages.
  unfoldable pub write_metrics : ℕ → Exporter F → Scraping F
  write_metrics fuel e = elim (refresh ops s.world fuel s.now e.environment) [
    | cut_short ↦ unfinished
    | crashed env ↦
        recovered
          (record (begin_scrape s.now e env) { status_last_fetch_duration = s.ended - s.now })
    | read env ↦
        let e1 = begin_scrape s.now e env in
        elim (send_all (collect e1)) [
          | none ↦ fatal
          | some messages ↦ gathered (after_collect e1) messages
        ]
  ]

-- `Close`: whether the connection to the UPS daemon is closed.
unfoldable pub close : {F : Type 0} → Exporter F → Bool
close e = not (is_empty e.ups.protocol_version)
