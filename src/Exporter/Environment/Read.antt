-- ===== src/Exporter/Environment/Read.antt =====
-- `readEnvironment` as a whole, `updateStatusEnvironment`, and the prologue of `WriteMetrics`, over the
-- exporter's fields that they set, for an exporter with a status.
pub mod Agreement
use qnapexporter.Base.{
  ℕ, zero, suc, ◌+◌, ◌++◌, true, false, none, some, List, [], is_empty, ltb, if◌then◌else◌, Text,
  codes, ℤ, out_of_fuel, panicked, returned,
}
use qnapexporter.Exporter.Errors.{ok, err, panic}
use qnapexporter.Exporter.Metric.{FloatOps}
use qnapexporter.Exporter.World.{World}
use qnapexporter.Exporter.Volume.{
  VolumeInfo, not_counted, counted, next_index, with_volume, volume_round, volume_count,
  read_sys_vol_info,
}
use qnapexporter.Exporter.Environment.{
  QnapEnclosure, read_host_info, sys_number, look_up_once, read_enclosures, enclosures_left,
  dm_cache_clients, network_interfaces, read_devices, read_nvme_path, read_dm_cache_devices,
  env_validity,
}

-- The fields of `exporter.Status` that describe the environment.
pub record EnvironmentStatus : Type 0 where
  pub enclosures : List Text
  pub devices : List Text
  pub nvme_devices : List Text
  pub interfaces : List Text
  pub dm_caches : List Text
  pub dm_cache_device : Text

pub record Environment (F : Type 0) : Type 0 where
  pub hostname : Text
  pub kernel_version : ℤ
  pub getsysinfo : Text
  pub syshdnum : ℤ
  pub sysfannum : ℤ
  pub volumes : List (VolumeInfo F)
  pub hal_app : Text
  pub enclosures : List QnapEnclosure
  pub ifaces : List Text
  pub devices : List Text
  pub nvme_devices : List Text
  pub nvme_path : Text
  pub dm_cache_clients : List Text
  pub dm_cache_device_minor_number : Text
  pub env_expiry : ℕ
  pub status : EnvironmentStatus

-- How a reading ends: cut short where a loop runs out of rounds, with a panic, which leaves the fields as
-- they are by then, or done.
pub data Reading (F : Type 0) : Type 0 where
  cut_short : Reading F
  crashed : Environment F → Reading F
  read : Environment F → Reading F

-- `updateStatusEnvironment`
unfoldable pub update_status_environment : {F : Type 0} → Environment F → Environment F
update_status_environment e = record e {
  status = record e.status {
    devices = e.devices;
    nvme_devices = e.nvme_devices;
    interfaces = e.ifaces;
    dm_caches = e.dm_cache_clients;
    dm_cache_device =
        if is_empty e.dm_cache_device_minor_number
        then codes ""
        else codes "dm-" ++ e.dm_cache_device_minor_number;
  };
}

module _ {F : Type 0} (ops : FloatOps F) (w : World) (fuel : ℕ) where
  -- The volumes that the loop of `readSysVolInfo` has read when it panics.
  unfoldable pub volumes_read : Text → ℕ → ℕ → ℕ → ℕ → List (VolumeInfo F) → List (VolumeInfo F)
  volumes_read getsysinfo zero vol_count parsed idx volumes = volumes
  volumes_read getsysinfo (suc rounds) vol_count parsed idx volumes = elim (ltb parsed vol_count) [
    | false ↦ volumes
    | true ↦ elim (volume_round ops w getsysinfo idx) [
      | panic ↦ volumes
      | err e ↦ volumes
      | ok round ↦ elim round [
        | not_counted ↦ volumes_read getsysinfo rounds vol_count parsed (next_index idx) volumes
        | counted v ↦
            volumes_read getsysinfo rounds vol_count (parsed + 1) (next_index idx)
              (with_volume volumes v)
      ]
    ]
  ]

  -- The field of the volumes behind a `readSysVolInfo` that panics: as it was where `make` does.
  unfoldable pub volumes_left : Text → List (VolumeInfo F) → List (VolumeInfo F)
  volumes_left getsysinfo old = elim (volume_count ops w getsysinfo) [
    | none ↦ old
    | some count ↦ volumes_read getsysinfo fuel count 0 0 []
  ]

  -- `readSysInfo`
  unfoldable pub read_sys_info : Environment F → Reading F
  read_sys_info e =
      let getsysinfo = look_up_once w (codes "getsysinfo") e.getsysinfo in
      let numbered : Environment F = record e {
        getsysinfo = getsysinfo;
        syshdnum = sys_number w getsysinfo (codes "hdnum");
        sysfannum = sys_number w getsysinfo (codes "sysfannum");
      } in
      if is_empty getsysinfo
      then read (record e { getsysinfo = getsysinfo })
      else (elim (read_sys_vol_info ops w getsysinfo fuel) [
        | out_of_fuel ↦ cut_short
        | panicked ↦ crashed (record numbered { volumes = volumes_left getsysinfo e.volumes })
        | returned volumes ↦ read (record numbered { volumes = volumes })
      ])

  -- What `readEnvironment` does behind `readEnclosures`, but for the status.
  unfoldable pub read_rest : Environment F → List Text × Text → Environment F
  read_rest e (clients, minor) =
      let (devices, nvme_devices) = read_devices w in
      record e {
        ifaces = network_interfaces (w.read_dir (codes "/sys/class/net"));
        devices = devices;
        nvme_devices = nvme_devices;
        nvme_path = read_nvme_path w nvme_devices e.nvme_path;
        dm_cache_clients = clients;
        dm_cache_device_minor_number = minor;
        env_expiry = e.env_expiry + env_validity;
      }

  -- `readEnclosures`, with the status
  unfoldable pub store_enclosures : Environment F → List QnapEnclosure × List Text → Environment F
  store_enclosures e (enclosures, names) = record e {
    hal_app = look_up_once w (codes "hal_app") e.hal_app;
    enclosures = enclosures;
    status = record e.status { enclosures = names };
  }

  -- The fields behind a `readDmCacheDevices` that panics: nothing of what follows has happened.
  unfoldable pub rest_left : Environment F → Environment F
  rest_left e =
      let minor = e.dm_cache_device_minor_number in
      record (read_rest e (dm_cache_clients w, minor)) { env_expiry = e.env_expiry }

  -- `readEnvironment`
  unfoldable pub read_environment : Environment F → Reading F
  read_environment e0 =
      let (hostname, kernel_version) = read_host_info w in
      elim (read_sys_info (record e0 { hostname = hostname; kernel_version = kernel_version })) [
        | cut_short ↦ cut_short
        | crashed e ↦ crashed e
        | read e ↦
            let hal_app = look_up_once w (codes "hal_app") e.hal_app in
            elim (read_enclosures w hal_app) [
              | err _ ↦ crashed (store_enclosures e (enclosures_left w hal_app))
              | panic ↦ crashed (store_enclosures e (enclosures_left w hal_app))
              | ok found ↦
                  elim (read_dm_cache_devices w e.kernel_version e.dm_cache_device_minor_number) [
                    | err _ ↦ crashed (rest_left (store_enclosures e found))
                    | panic ↦ crashed (rest_left (store_enclosures e found))
                    | ok caches ↦
                        read
                          (update_status_environment (read_rest (store_enclosures e found) caches))
                  ]
            ]
      ]

  -- The environment that a scrape at `now` works with.
  unfoldable pub refresh : ℕ → Environment F → Reading F
  refresh now e = elim (ltb e.env_expiry now) [ true ↦ read_environment e | false ↦ read e ]
