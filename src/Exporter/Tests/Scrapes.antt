-- ===== src/Exporter/Tests/Scrapes.antt =====
-- The theorems about the reading of the environment and whole scrapes at concrete inputs.
use mathlib.Core.List.{Perm}
use mathlib.Core.List.Permᴰ
use qnapexporter.Base.{ℕ, List, [], codes, length, ◌≡◌, refl}
use qnapexporter.Exporter.Errors.{message, ok, err}
use qnapexporter.Exporter.World.{World}
use qnapexporter.Exporter.Nvme.{get_nvme_smart_metrics}
use qnapexporter.Exporter.Machine.{
  linux, get_cpu_ratio_metrics, get_mem_info_metrics, get_ping_metrics,
}
use qnapexporter.Exporter.Write.{Build, Message, write_messages}
use qnapexporter.Exporter.Write.Orders.{has_error}
use qnapexporter.Exporter.Environment.Read.{
  Environment, Reading, cut_short, crashed, read, read_environment, refresh,
}
use qnapexporter.Exporter.Environment.Read.Agreement.{Agrees, read_environment-Agrees}
use qnapexporter.Exporter.Scrape.{
  Surroundings, Exporter, Scraping, unfinished, recovered, fatal, gathered, new_exporter,
  begin_scrape, collect, write_metrics,
}
use qnapexporter.Exporter.Scrape.Complete.{collected, one_fails, write_metrics_complete}
use qnapexporter.Exporter.Tests.Devices.{nvme_world}
use qnapexporter.Exporter.Tests.{natural, up}

abbrev pub build : Build
build = record { branch = []; revision = []; built = []; version = codes "1.0" }

abbrev pub fresh_exporter : Exporter ℕ
fresh_exporter = new_exporter [] build 5

abbrev or_fresh : Reading ℕ → Environment ℕ
or_fresh cut_short = fresh_exporter.environment
or_fresh (crashed e) = fresh_exporter.environment
or_fresh (read e) = e

abbrev known_environment : Environment ℕ
known_environment = or_fresh (read_environment natural nvme_world 9 fresh_exporter.environment)

environment_read :
    read_environment natural nvme_world 9 fresh_exporter.environment ≡ read known_environment
unfolding read_environment qnapexporter.Exporter.Environment.Read.read_sys_info new_exporter
    qnapexporter.Exporter.Environment.read_enclosures
    qnapexporter.Exporter.Environment.read_dm_cache_devices
    qnapexporter.Exporter.Environment.read_host_info qnapexporter.Exporter.World.exec_command
environment_read = refl

read_environment-Agrees_example : Agrees known_environment
read_environment-Agrees_example =
    read_environment-Agrees natural nvme_world 9 fresh_exporter.environment known_environment
      environment_read

abbrev pub quiet_surroundings : Surroundings ℕ
quiet_surroundings = record {
  world = nvme_world;
  os = linux;
  daemon = up;
  daemon_again = up;
  io_counters = λ names. ok [];
  cpu = record { times = err (message (codes "no times")); counts = λ all. ok 4 };
  memory = err (message (codes "no memory"));
  uptime = ok 10;
  load = ok (1, 2, 3);
  ping = λ target. err (message (codes "no route"));
  now = 9;
  ended = 12;
}

abbrev or_none : Scraping ℕ → Exporter ℕ × List (Message ℕ)
or_none unfinished = (fresh_exporter, [])
or_none (recovered e) = (e, [])
or_none fatal = (fresh_exporter, [])
or_none (gathered e messages) = (e, messages)

abbrev pub scraped_exporter : Exporter ℕ × List (Message ℕ)
scraped_exporter = or_none (write_metrics natural quiet_surroundings 9 fresh_exporter)

pub scrape_returned :
    write_metrics natural quiet_surroundings 9 fresh_exporter
    ≡ gathered scraped_exporter.0 scraped_exporter.1
unfolding write_metrics refresh new_exporter read_environment
    qnapexporter.Exporter.Environment.Read.read_sys_info
    qnapexporter.Exporter.Environment.read_enclosures
    qnapexporter.Exporter.Environment.read_dm_cache_devices
    qnapexporter.Exporter.Environment.read_host_info qnapexporter.Exporter.World.exec_command
    qnapexporter.Exporter.Scrape.send_all collect qnapexporter.Exporter.Write.fetch_metrics_worker
    qnapexporter.Exporter.Write.get_version_metrics qnapexporter.Exporter.System.get_uptime_metrics
    qnapexporter.Exporter.System.get_load_avg_metrics
    qnapexporter.Exporter.Machine.get_cpu_ratio_metrics
    qnapexporter.Exporter.Machine.get_mem_info_metrics
    qnapexporter.Exporter.Ups.get_ups_stats_metrics_with_retry
    qnapexporter.Exporter.Ups.get_ups_stats_metrics qnapexporter.Exporter.Ups.close_on_reset
    qnapexporter.Exporter.Ups.ensure_connected qnapexporter.Exporter.Ups.try_connect
    qnapexporter.Exporter.Ups.read_stats qnapexporter.Exporter.Ups.ensure_list
    qnapexporter.Exporter.System.get_sys_info_temp_metrics
    qnapexporter.Exporter.Environment.Read.update_status_environment
    qnapexporter.Exporter.Environment.Read.read_rest
    qnapexporter.Exporter.Environment.Read.store_enclosures
    qnapexporter.Exporter.System.get_sys_info_fan_metrics
    qnapexporter.Exporter.System.get_enclosure_fan_metrics
    qnapexporter.Exporter.Disk.get_sys_info_hd_metrics
    qnapexporter.Exporter.Volume.get_sys_info_vol_metrics
    qnapexporter.Exporter.Disk.get_disk_stats_metrics
    qnapexporter.Exporter.Disk.get_flash_cache_stats_metrics
    qnapexporter.Exporter.World.read_file_lines qnapexporter.Exporter.Machine.get_ping_metrics
    get_nvme_smart_metrics qnapexporter.Exporter.Disk.DmCache.get_dm_cache_stats_metrics
    qnapexporter.Exporter.System.get_network_stats_metrics qnapexporter.Exporter.Nvme.nvme_loop
    qnapexporter.Exporter.Environment.read_devices qnapexporter.Exporter.Environment.devices_loop
    qnapexporter.Exporter.Environment.is_device qnapexporter.Exporter.Environment.read_nvme_path
    qnapexporter.Exporter.Environment.network_interfaces qnapexporter.Exporter.World.read_file
    qnapexporter.Exporter.System.network_loop
scrape_returned = refl

pub same_order : Perm scraped_exporter.1 scraped_exporter.1
same_order = ∣ Permᴰ.refl scraped_exporter.1 ∣₁

write_metrics_complete_example :
    (env : Environment ℕ) × (refresh natural nvme_world 9 9 fresh_exporter.environment ≡ read env)
    × (let results = collect natural quiet_surroundings (begin_scrape 9 fresh_exporter env) in
        let r = write_messages natural (λ e. codes "error") env.hostname scraped_exporter.1 in
        (length scraped_exporter.1 ≡ 17)
        × (r.metric_count ≡ collected results)
        × (has_error r ≡ one_fails results))
write_metrics_complete_example =
    write_metrics_complete natural quiet_surroundings (λ e. codes "error") 9 fresh_exporter
      scraped_exporter.0 scraped_exporter.1 scraped_exporter.1 scrape_returned same_order
