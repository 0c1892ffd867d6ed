-- ===== src/Exporter/Environment.antt =====
-- `readEnvironment` and its parts, lib/exporter/prometheus/prometheus.go, and when `WriteMetrics`
-- calls it. Each part is a function of the machine and of the exporter's fields that it keeps.
-- The exporter is taken to have a status, as main.go gives it: readEnclosures panics without one.
-- What is logged is left out.
pub mod Devices
pub mod Expiry
pub mod Read
use qnapexporter.Base.{
  ℕ, ◌+◌, ◌*◌, ◌++◌, ◌==◌, ◌||◌, ◌&&◌, not, Bool, true, false, none, some, List, [], ◌∷◌, is_empty,
  has_prefix, cut, split, fields, get_elem?, length, ltb, Text, codes, ℤ, pos, minus_one, int_eq,
  int_leb, atoi, parse_int, nearest_int, if◌then◌else◌,
}
use qnapexporter.Exporter.Errors.{Fetch, ok, err, panic, ◌>>=◌, or_panic}
use qnapexporter.Exporter.World.{World, DirEntry, exec_command, find_matching_lines}

pub record QnapEnclosure : Type 0 where
  pub id : Text
  pub name : Text
  pub disk_count : ℤ
  pub fan_count : ℤ
  pub temp_count : ℤ

-- `strconv.Atoi` with its error dropped: 0 for what is no number.
abbrev pub atoi_or_zero : Text → ℤ
atoi_or_zero s = elim (parse_int s) [ none ↦ pos 0 | some n ↦ nearest_int n ]

-- `readHostInfo`: the host name and the version of the kernel.
unfoldable pub read_host_info : World → Text × ℤ
read_host_info w =
    let hostname =
      if is_empty (w.getenv (codes "HOSTNAME"))
      then (elim (exec_command w (codes "hostname") []) [ ok s ↦ s | err e ↦ [] | panic ↦ [] ])
      else w.getenv (codes "HOSTNAME") in
    (
      hostname,
      elim (exec_command w (codes "uname") (codes "-r" ∷ [])) [
        | err e ↦ pos 4
        | panic ↦ pos 4
        | ok release ↦ elim (atoi (cut b'.' release).0) [ none ↦ pos 4 | some n ↦ n ]
      ],
    )

-- The number that `getsysinfo` gives, or -1 where it fails.
unfoldable pub sys_number : World → Text → Text → ℤ
sys_number w getsysinfo what = elim (exec_command w getsysinfo (what ∷ [])) [
  | err e ↦ minus_one
  | panic ↦ minus_one
  | ok output ↦ atoi_or_zero output
]

-- A path that is looked up once.
abbrev pub look_up_once : World → Text → Text → Text
look_up_once w name known =
    if is_empty known then (elim (w.look_path name) [ none ↦ [] | some p ↦ p ]) else known

-- The fields of a line of `hal_app --se_enum`. A line of fewer than eleven fields is a panic.
unfoldable pub parse_enclosure : Text → Fetch QnapEnclosure
parse_enclosure line = do
  id ← or_panic (get_elem? (fields line) 2)
  name ← or_panic (get_elem? (fields line) 4)
  disks ← or_panic (get_elem? (fields line) 7)
  fans ← or_panic (get_elem? (fields line) 8)
  temps ← or_panic (get_elem? (fields line) 10)
  ok (record {
    id = id;
    name = name;
    disk_count = atoi_or_zero disks;
    fan_count = atoi_or_zero fans;
    temp_count = atoi_or_zero temps;
  })

-- The loop of `readEnclosures`: the enclosures that have fans, and their names for the status.
unfoldable pub enclosures_loop :
    List Text → List QnapEnclosure → List Text → Fetch (List QnapEnclosure × List Text)
enclosures_loop [] enclosures names = ok (enclosures, names)
enclosures_loop (line ∷ lines) enclosures names = elim (parse_enclosure line) [
  | err e ↦ err e
  | panic ↦ panic
  | ok enc ↦ elim (int_eq enc.fan_count (pos 0)) [
    | true ↦ enclosures_loop lines enclosures names
    | false ↦ enclosures_loop lines (enclosures ++ enc ∷ []) (names ++ enc.name ∷ [])
  ]
]

-- `readEnclosures`, for a path of `hal_app` that may be empty.
unfoldable pub read_enclosures : World → Text → Fetch (List QnapEnclosure × List Text)
read_enclosures w hal_app =
    if is_empty hal_app
    then ok ([], [])
    else (elim (exec_command w hal_app (codes "--se_enum" ∷ [])) [
      | err e ↦ ok ([], [])
      | panic ↦ panic
      | ok output ↦ enclosures_loop (find_matching_lines (codes "qm2_") output) [] []
    ])

-- The enclosures, and their names, that the loop has kept when it panics.
unfoldable pub enclosures_kept :
    List Text → List QnapEnclosure → List Text → List QnapEnclosure × List Text
enclosures_kept [] enclosures names = (enclosures, names)
enclosures_kept (line ∷ lines) enclosures names = elim (parse_enclosure line) [
  | err e ↦ (enclosures, names)
  | panic ↦ (enclosures, names)
  | ok enc ↦ elim (int_eq enc.fan_count (pos 0)) [
    | true ↦ enclosures_kept lines enclosures names
    | false ↦ enclosures_kept lines (enclosures ++ enc ∷ []) (names ++ enc.name ∷ [])
  ]
]

-- What a `readEnclosures` that panics leaves in the two fields.
unfoldable pub enclosures_left : World → Text → List QnapEnclosure × List Text
enclosures_left w hal_app = elim (exec_command w hal_app (codes "--se_enum" ∷ [])) [
  | err e ↦ ([], [])
  | panic ↦ ([], [])
  | ok output ↦ enclosures_kept (find_matching_lines (codes "qm2_") output) [] []
]

-- `readNetworkInterfaces`
unfoldable pub network_interfaces : List DirEntry → List Text
network_interfaces [] = []
network_interfaces (d ∷ info) =
    if has_prefix d.name (codes "eth")
    then d.name ∷ network_interfaces info
    else network_interfaces info

-- The tests of `readDevices`: a device is kept, or not.
unfoldable pub is_device : DirEntry → Bool
is_device d =
    let nvme = has_prefix d.name (codes "nvme") in
    let sd = has_prefix d.name (codes "sd") in
    if d.is_dir || (not nvme && not sd)
    then false
    else if nvme && not (length d.name == 7)
    then false
    else if sd && not (length d.name == 3)
    then false
    else true

-- The loop of `readDevices`: the devices, and those of them that are NVMe.
unfoldable pub devices_loop : List DirEntry → List Text → List Text → List Text × List Text
devices_loop [] devices nvme_devices = (devices, nvme_devices)
devices_loop (d ∷ info) devices nvme_devices = elim (is_device d) [
  | false ↦ devices_loop info devices nvme_devices
  | true ↦
      devices_loop info (devices ++ d.name ∷ [])
        (if has_prefix d.name (codes "nvme") then nvme_devices ++ d.name ∷ [] else nvme_devices)
]

unfoldable pub read_devices : World → List Text × List Text
read_devices w = devices_loop (w.read_dir (codes "/dev")) [] []

-- `readNvmePath`
unfoldable pub read_nvme_path : World → List Text → Text → Text
read_nvme_path w [] known = known
read_nvme_path w (d ∷ devices) known = look_up_once w (codes "nvme") known

-- `strings.TrimRight(s, ")")`
abbrev pub trim_parens : Text → Text
trim_parens [] = []
trim_parens (c ∷ s) =
    let rest = trim_parens s in if is_empty rest && (c == b')') then [] else c ∷ rest

abbrev pub first_parts : List Text → List Text
first_parts [] = []
first_parts (l ∷ ls) = (cut b':' l).0 ∷ first_parts ls

-- The cache clients of a kernel from version 5 on.
unfoldable pub dm_cache_clients : World → List Text
dm_cache_clients w = elim (exec_command w (codes "dmsetup") (codes "table" ∷ [])) [
  | err e ↦ []
  | panic ↦ []
  | ok table ↦ first_parts (find_matching_lines (codes "cache_client") table)
]

-- `readDmCacheDevices`: the clients, and the minor number, which stays where none is found. A line
-- of the volume's without a colon is a panic.
unfoldable pub read_dm_cache_devices : World → ℤ → Text → Fetch (List Text × Text)
read_dm_cache_devices w kernel_version minor =
    if not (int_leb (pos 5) kernel_version)
    then ok ([], minor)
    else (let clients = dm_cache_clients w in
        elim (exec_command w (codes "dmsetup") (codes "ls" ∷ [])) [
          | err e ↦ ok (clients, minor)
          | panic ↦ panic
          | ok table ↦ elim (find_matching_lines (codes "vg256-lv256\t") table) [
            | [] ↦ ok (clients, minor)
            | line ∷ others ↦ elim others [
              | other ∷ more ↦ ok (clients, minor)
              | [] ↦ do
                number ← or_panic (get_elem? (split b':' line).1 0)
                ok (clients, trim_parens number)
            ]
          ]
        ])

abbrev pub env_validity : ℕ
env_validity = 5 * 60 * 1_000_000_000

-- The expiry of the environment after the prologue of `WriteMetrics`, and whether it was read.
unfoldable pub refresh_environment : ℕ → ℕ → ℕ × Bool
refresh_environment now env_expiry =
    if ltb env_expiry now then (env_expiry + env_validity, true) else (env_expiry, false)
