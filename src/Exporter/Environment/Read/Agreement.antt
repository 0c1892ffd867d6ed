-- ===== src/Exporter/Environment/Read/Agreement.antt =====
-- That the status says what the exporter works with.
use mathlib.Core.Path.{subst}
use qnapexporter.Base.{
  ℕ, ◌++◌, List, is_empty, Bool-cases, ltb, inl, inr, if◌then◌else◌, Text, codes, true, false, ◌⊎◌,
  ◌≡◌, refl, sym, ◌∙◌,
}
use qnapexporter.Exporter.Errors.{Fetch, ok, err, panic}
use qnapexporter.Exporter.Metric.{FloatOps}
use qnapexporter.Exporter.World.{World}
use qnapexporter.Exporter.Environment.{
  QnapEnclosure, look_up_once, read_enclosures, enclosures_left, read_dm_cache_devices,
  read_host_info,
}
use qnapexporter.Exporter.Environment.Devices.{
  IsNoted, read_enclosures-IsNoted, nvme_names, read_devices-names,
}
use qnapexporter.Exporter.Environment.Read.{
  Environment, Reading, cut_short, crashed, read, rest_left, update_status_environment,
  read_sys_info, read_rest, store_enclosures, read_environment, refresh,
}

-- The status has the exporter's devices, interfaces and caches, the enclosures' names, and the
-- device of the cache volume where there is one.
pub record Agrees {F : Type 0} (e : Environment F) : Type 0 where
  pub devices : e.status.devices ≡ e.devices
  pub nvme_devices : e.status.nvme_devices ≡ e.nvme_devices
  pub are_nvme : e.nvme_devices ≡ nvme_names e.devices
  pub interfaces : e.status.interfaces ≡ e.ifaces
  pub dm_caches : e.status.dm_caches ≡ e.dm_cache_clients
  pub dm_cache_device : e.status.dm_cache_device ≡ (
      if is_empty e.dm_cache_device_minor_number
      then codes ""
      else codes "dm-" ++ e.dm_cache_device_minor_number)
  pub enclosures : IsNoted e.enclosures e.status.enclosures

module _ {F : Type 0} (ops : FloatOps F) (w : World) (fuel : ℕ) where
  updated-Agrees :
      (e : Environment F) (hal_app : Text) (found : List QnapEnclosure × List Text)
      (caches : List Text × Text)
      → read_enclosures w hal_app ≡ ok found
      → Agrees (
          update_status_environment
            (read_rest ops w fuel (store_enclosures ops w fuel e found) caches))
  unfolding update_status_environment read_rest store_enclosures
  updated-Agrees e hal_app (enclosures, names) (clients, minor) q = record {
    devices = refl;
    nvme_devices = refl;
    are_nvme = (read_devices-names w).1;
    interfaces = refl;
    dm_caches = refl;
    dm_cache_device = refl;
    enclosures = read_enclosures-IsNoted w hal_app enclosures names q;
  }

  -- `readEnvironment` behind what `readEnclosures` found.
  abbrev behind_enclosures : Environment F → Fetch (List QnapEnclosure × List Text) → Reading F
  behind_enclosures e found =
      let hal_app = look_up_once w (codes "hal_app") e.hal_app in
      elim found [
        | err _ ↦ crashed (store_enclosures ops w fuel e (enclosures_left w hal_app))
        | panic ↦ crashed (store_enclosures ops w fuel e (enclosures_left w hal_app))
        | ok found ↦
            elim (read_dm_cache_devices w e.kernel_version e.dm_cache_device_minor_number) [
              | err _ ↦ crashed (rest_left ops w fuel (store_enclosures ops w fuel e found))
              | panic ↦ crashed (rest_left ops w fuel (store_enclosures ops w fuel e found))
              | ok caches ↦ read (
                  update_status_environment
                    (read_rest ops w fuel (store_enclosures ops w fuel e found) caches))
            ]
      ]

  by_caches :
      (e e' : Environment F) (hal_app : Text) (found : List QnapEnclosure × List Text)
      (caches : Fetch (List Text × Text))
      → read_enclosures w hal_app ≡ ok found
      → ◌≡◌ {A = Reading F}
          (elim caches [
            | err _ ↦ crashed (rest_left ops w fuel (store_enclosures ops w fuel e found))
            | panic ↦ crashed (rest_left ops w fuel (store_enclosures ops w fuel e found))
            | ok caches ↦ read (
                update_status_environment
                  (read_rest ops w fuel (store_enclosures ops w fuel e found) caches))
          ])
          (read e')
      → Agrees e'
  by_caches e e' hal_app found (err _) q ran = absurd (cc)
  by_caches e e' hal_app found panic q ran = absurd (cc)
  by_caches e e' hal_app found (ok caches) q ran =
      let same : update_status_environment
            (read_rest ops w fuel (store_enclosures ops w fuel e found) caches)
          ≡ e' =
        cc in
      subst Agrees same (updated-Agrees e hal_app found caches q)

  by_enclosures :
      (e e' : Environment F) (found : Fetch (List QnapEnclosure × List Text))
      → read_enclosures w (look_up_once w (codes "hal_app") e.hal_app) ≡ found
      → ◌≡◌ {A = Reading F} (behind_enclosures e found) (read e')
      → Agrees e'
  by_enclosures e e' (err _) q ran = absurd (cc)
  by_enclosures e e' panic q ran = absurd (cc)
  by_enclosures e e' (ok found) q ran =
      by_caches e e' (look_up_once w (codes "hal_app") e.hal_app) found
        (read_dm_cache_devices w e.kernel_version e.dm_cache_device_minor_number) q ran

  -- Whenever the reading of the environment returns, the status has the exporter's devices, interfaces
  -- and cache clients, the names of its enclosures, each of which has fans, and the device of the cache
  -- volume where there is one, and the NVMe devices are those of the devices that are NVMe.
  pub read_environment-Agrees :
      (e e' : Environment F) → read_environment ops w fuel e ≡ read e' → Agrees e'
  unfolding read_environment
  read_environment-Agrees e e' ran =
      let start = record e {
        hostname = (read_host_info w).0;
        kernel_version = (read_host_info w).1;
      } in
      by_info (read_sys_info ops w fuel start) ran
    where
      by_info :
          (r : Reading F)
          → ◌≡◌ {A = Reading F}
              (elim r [
                | cut_short ↦ cut_short
                | crashed e ↦ crashed e
                | read e1 ↦
                    behind_enclosures e1
                      (read_enclosures w (look_up_once w (codes "hal_app") e1.hal_app))
              ])
              (read e')
          → Agrees e'
      by_info cut_short ran' = absurd (cc)
      by_info (crashed e1) ran' = absurd (cc)
      by_info (read e1) ran' = by_enclosures e1 e' _ refl ran'

  -- A scrape that gets past its prologue works with an environment that the status agrees with, if it
  -- was read anew, or if the one before did.
  pub refresh-Agrees :
      (now : ℕ) (e e' : Environment F)
      → (ltb e.env_expiry now ≡ true) ⊎ Agrees e
      → refresh ops w fuel now e ≡ read e'
      → Agrees e'
  unfolding refresh
  refresh-Agrees now e e' h ran = elim (Bool-cases (ltb e.env_expiry now)) [
    | inl expired ↦
        let step : refresh ops w fuel now e ≡ read_environment ops w fuel e =
          rw (expired, refresh) refl in
        read_environment-Agrees e e' (sym step ∙ ran)
    | inr fresh ↦
        let step : refresh ops w fuel now e ≡ read e = rw (fresh, refresh) refl in
        let same : e ≡ e' = cc in subst Agrees same (before fresh h)
  ]
    where
      before : ltb e.env_expiry now ≡ false → (ltb e.env_expiry now ≡ true) ⊎ Agrees e → Agrees e
      before fresh (inl expired) = absurd (cc)
      before fresh (inr agrees) = agrees
