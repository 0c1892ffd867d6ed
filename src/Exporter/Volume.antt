-- ===== src/Exporter/Volume.antt =====
-- lib/exporter/prometheus/volinfo.go: the volumes that `getsysinfo` reports, and their metrics. Times
-- are nanoseconds, 0 being Go's zero time. What is logged is left out.
pub mod Loop
pub mod Endless
pub mod Caching
use Prim.Native.String.{String}
use qnapexporter.Base.{
  ℕ, zero, suc, ◌+◌, ◌*◌, ◌%◌, ◌^◌, ◌++◌, ◌||◌, ◌==◌, Bool, true, false, Option, none, some, List,
  [], ◌∷◌, ltb, if◌then◌else◌, same, is_empty, has_prefix, cut, trim_space, fields, Text, codes,
  atoi, ◌^◌, ◌*◌, leb, Option, pos, negsuc, format_nat, length, drop, get_elem?, Run, out_of_fuel,
  panicked, returned,
}
use qnapexporter.Exporter.Errors.{
  message, wrapped, Fetch, ok, err, panic, ◌>>=◌, or_panic, or_error,
}
use qnapexporter.Exporter.Metric.{FloatOps, Metric, metric}
use qnapexporter.Exporter.Metric.Quote.{quote}
use qnapexporter.Exporter.World.{World, exec_command}

pub record VolumeInfo (F : Type 0) : Type 0 where
  pub index : Text
  pub file_system : Text
  pub description : Text
  pub status : Text
  pub free_size_bytes : F
  pub total_size_bytes : F

-- `parseVolDesc`. The slice `desc[8:]` panics on a text of seven bytes.
unfoldable pub parse_vol_desc : Text → Fetch Text
parse_vol_desc desc =
    if has_prefix desc (codes "[Volume")
    then (if ltb (length desc) 8 then panic else ok (cut b',' (trim_space (drop 8 desc))).0)
    else if has_prefix desc (codes "[Single Disk Volume:")
    then ok []
    else ok desc

-- The bytes of a unit, 0 for one that is not known.
unfoldable pub unit_factor : Text → ℕ
unit_factor u =
    if same u (codes "TB")
    then 1024 * 1024 * 1024 * 1024
    else if same u (codes "GB")
    then 1024 * 1024 * 1024
    else if same u (codes "MB")
    then 1024 * 1024
    else if same u (codes "KB")
    then 1024
    else if same u (codes "B")
    then 1
    else 0

-- The outcomes of a round of the loop over the volumes: not counted, or counted with a volume or not.
pub data Round (F : Type 0) : Type 0 where
  not_counted : Round F
  counted : Option (VolumeInfo F) → Round F

-- `continue` on an error.
abbrev pub or_skip {ℓ} :
    {A : Type ℓ} {F : Type 0} → Fetch A → (A → Fetch (Round F)) → Fetch (Round F)
or_skip (ok a) f = f a
or_skip (err e) f = ok (counted none)
or_skip panic f = panic

-- The bytes of a `volumeInfo`, four strings and two numbers, and those that Go allocates at most, on a
-- machine of 64 bits.
abbrev pub volume_info_size : ℕ
volume_info_size = 80

abbrev pub max_alloc : ℕ
max_alloc = 2 ^ 48

-- `idx++` on a `uint64`
abbrev pub next_index : ℕ → ℕ
next_index idx = (idx + 1) % 2 ^ 64

abbrev pub with_volume :
    {F : Type 0} → List (VolumeInfo F) → Option (VolumeInfo F) → List (VolumeInfo F)
with_volume volumes none = volumes
with_volume volumes (some v) = volumes ++ v ∷ []

module _ {F : Type 0} (ops : FloatOps F) where
  -- `parseVolSize`. The number and the unit are read from the text's fields, which may be missing.
  unfoldable pub parse_vol_size : Text → Fetch F
  parse_vol_size s = do
    number ← or_panic (get_elem? (fields s) 0)
    size ← or_error (wrapped s (message number)) (ops.parse_float number)
    unit ← or_panic (get_elem? (fields s) 1)
    ok (ops.mul size (ops.of_nat (unit_factor unit)))

  module _ (w : World) (getsysinfo : Text) where
    abbrev pub ask : String → ℕ → Fetch Text
    ask what idx = exec_command w getsysinfo (codes what ∷ format_nat idx ∷ [])

    -- One round of the loop, once the volume has a description.
    unfoldable pub read_volume : ℕ → Text → Fetch (Round F)
    read_volume idx description = or_skip (ask "vol_fs" idx) λ file_system.
        if same file_system (codes "Unknown")
        then ok (counted none)
        else or_skip (ask "vol_totalsize" idx) λ volsize. or_skip (parse_vol_size volsize) λ total.
          or_skip (ask "vol_status" idx) λ status. ok (
            counted (
              some (record {
                index = format_nat idx;
                file_system = file_system;
                description = description;
                status = status;
                free_size_bytes = ops.of_nat 0;
                total_size_bytes = total;
              })))

    -- A volume whose description cannot be read is not counted.
    unfoldable pub volume_round : ℕ → Fetch (Round F)
    volume_round idx = elim (ask "vol_desc" idx) [
      | err e ↦ ok not_counted
      | panic ↦ panic
      | ok desc ↦ elim (parse_vol_desc desc) [
        | err e ↦ err e
        | panic ↦ panic
        | ok description ↦
            if is_empty description then ok (counted none) else read_volume idx description
      ]
    ]

    -- The loop, by rounds left.
    unfoldable pub volume_loop : ℕ → ℕ → ℕ → ℕ → List (VolumeInfo F) → Run (List (VolumeInfo F))
    volume_loop zero vol_count parsed idx volumes = out_of_fuel
    volume_loop (suc fuel) vol_count parsed idx volumes = elim (ltb parsed vol_count) [
      | false ↦ returned volumes
      | true ↦ elim (volume_round idx) [
        | panic ↦ panicked
        | err e ↦ panicked
        | ok round ↦ elim round [
          | not_counted ↦ volume_loop fuel vol_count parsed (next_index idx) volumes
          | counted v ↦
              volume_loop fuel vol_count (parsed + 1) (next_index idx) (with_volume volumes v)
        ]
      ]
    ]

    -- The number of volumes, `none` where `make` panics: it is negative, or the slice would be larger
    -- than what can be addressed.
    unfoldable pub volume_count : Option ℕ
    volume_count = elim (exec_command w getsysinfo (codes "sysvolnum" ∷ [])) [
      | panic ↦ none
      | err e ↦ some 0
      | ok output ↦ elim (atoi output) [
        | none ↦ some 0
        | some n ↦ elim n [
          | pos count ↦ if leb (count * volume_info_size) max_alloc then some count else none
          | negsuc _ ↦ none
        ]
      ]
    ]

    -- `readSysVolInfo`, by rounds.
    unfoldable pub read_sys_vol_info : ℕ → Run (List (VolumeInfo F))
    read_sys_vol_info fuel = elim volume_count [
      | none ↦ panicked
      | some count ↦ volume_loop fuel count 0 0 []
    ]

-- The part of the exporter's state that `getSysInfoVolMetrics` uses.
pub record VolumeState (F : Type 0) : Type 0 where
  pub getsysinfo : Text
  pub volumes : List (VolumeInfo F)
  pub volume_last_fetch : ℕ
  -- `e.status.Volumes`, where there is a status
  pub status_volumes : Option (List Text)

abbrev pub volume_validity : ℕ
volume_validity = 60 * 1_000_000_000

module _ {F : Type 0} (ops : FloatOps F) where
  unfoldable pub volume_metrics : VolumeInfo F → List (Metric F)
  volume_metrics v =
      let attr =
        codes "volume="
        ++ (quote v.description
            ++ (codes ",filesystem="
                ++ (quote v.file_system ++ (codes ",status=" ++ quote v.status)))) in
      metric (codes "node_volume_avail_bytes") attr v.free_size_bytes [] []
      ∷ metric (codes "node_volume_size_bytes") attr v.total_size_bytes [] []
      ∷ []

  -- The free size is asked for again when the data is old, or when it is 0.
  unfoldable pub refresh : World → Text → Bool → VolumeInfo F → Fetch (VolumeInfo F)
  refresh w getsysinfo expired v =
      if expired || ops.is_zero v.free_size_bytes
      then (do
        freesize ← exec_command w getsysinfo (codes "vol_freesize" ∷ v.index ∷ [])
        free ← parse_vol_size ops freesize
        ok (record v { free_size_bytes = free }))
      else ok v

  -- The loop over the volumes. `past` are the volumes behind it, as they now are, and the result has
  -- all volumes, the names noted, and the metrics.
  unfoldable pub metrics_loop :
      World
      → Text
      → Bool
      → List (VolumeInfo F)
      → List (VolumeInfo F)
      → List Text
      → List (Metric F)
      → List (VolumeInfo F) × List Text × Fetch (List (Metric F))
  metrics_loop w g expired past [] names metrics = (past, names, ok metrics)
  metrics_loop w g expired past (v ∷ vs) names metrics = elim (refresh w g expired v) [
    | err e ↦ (past ++ v ∷ vs, names ++ v.description ∷ [], err e)
    | panic ↦ (past ++ v ∷ vs, names ++ v.description ∷ [], panic)
    | ok v' ↦
        metrics_loop w g expired (past ++ v' ∷ []) vs (names ++ v.description ∷ [])
          (metrics ++ volume_metrics v')
  ]

  unfoldable pub get_sys_info_vol_metrics :
      World → ℕ → VolumeState F → VolumeState F × Fetch (List (Metric F))
  get_sys_info_vol_metrics w now s =
      if is_empty s.getsysinfo then (s, ok []) else (elim s.status_volumes [
        | none ↦ (s, panic)
        | some _ ↦
            let expired =
              (s.volume_last_fetch == 0) || ltb (s.volume_last_fetch + volume_validity) now in
            let (volumes, names, result) = metrics_loop w s.getsysinfo expired [] s.volumes [] [] in
            (
              record s {
                volumes = volumes;
                volume_last_fetch = if expired then now else s.volume_last_fetch;
                status_volumes = some names;
              },
              result,
            )
      ])
