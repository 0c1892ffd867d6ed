-- ===== src/Exporter/Tests/Panics.antt =====
-- A reading of the environment that panics, at a concrete input.
use qnapexporter.Base.{
  ℕ, true, none, some, List, [], ◌∷◌, codes, same, if◌then◌else◌, Text, ◌≡◌, refl,
}
use qnapexporter.Exporter.World.{World}
use qnapexporter.Exporter.Environment.Read.{
  Environment, cut_short, crashed, read, read_environment, refresh,
}
use qnapexporter.Exporter.Scrape.{
  Exporter, Scraping, unfinished, recovered, fatal, gathered, write_metrics,
}
use qnapexporter.Exporter.Tests.{natural, silent_world}
use qnapexporter.Exporter.Tests.Scrapes.{fresh_exporter, quiet_surroundings}

-- A kernel of version 5, a network interface, and a cache volume without a colon.
abbrev broken_world : World
broken_world = record silent_world {
  exec = λ cmd args.
      if same cmd (codes "uname")
      then some (codes "5.10")
      else if same cmd (codes "dmsetup")
      then some (codes "vg256-lv256\t(253)")
      else none;
  read_dir = λ f.
      if same f (codes "/sys/class/net")
      then record { name = codes "eth0"; is_dir = true } ∷ []
      else [];
}

abbrev interfaces_after : Scraping ℕ → List Text × List Text
interfaces_after unfinished = ([], [])
interfaces_after (recovered e) = (e.environment.ifaces, e.environment.status.interfaces)
interfaces_after fatal = ([], [])
interfaces_after (gathered e messages) = ([], [])

-- The request's handler panics: the exporter has the new interface, and its status has none.
scrape_recovered :
    interfaces_after
      (write_metrics natural (record quiet_surroundings { world = broken_world }) 9 fresh_exporter)
    ≡ (codes "eth0" ∷ [], [])
unfolding write_metrics refresh read_environment qnapexporter.Exporter.Scrape.new_exporter
    qnapexporter.Exporter.Environment.Read.read_sys_info
    qnapexporter.Exporter.Environment.Read.rest_left
    qnapexporter.Exporter.Environment.Read.read_rest
    qnapexporter.Exporter.Environment.Read.store_enclosures
    qnapexporter.Exporter.Environment.read_host_info
    qnapexporter.Exporter.Environment.read_enclosures
    qnapexporter.Exporter.Environment.read_dm_cache_devices
    qnapexporter.Exporter.Environment.network_interfaces qnapexporter.Exporter.World.exec_command
    qnapexporter.Exporter.World.find_matching_lines qnapexporter.Base.atoi
    qnapexporter.Base.trim_space qnapexporter.Base.cut qnapexporter.Base.split
    qnapexporter.Base.contains
scrape_recovered = refl
