-- ===== src/Exporter/Disk/DmCache.antt =====
-- lib/exporter/prometheus/disk.go: the dm-cache collector.
pub mod Panics
use Prim.Native.String.{String}
use qnapexporter.Base.{
  ℕ, zero, suc, ◌*◌, ◌++◌, ◌==◌, true, false, Option, none, some, List, [], ◌∷◌, is_empty, same,
  contains, cut, trim_space, Text, codes, if◌then◌else◌,
}
use qnapexporter.Exporter.Errors.{
  message, wrapped, is_not_exist, Fetch, ok, err, panic, ◌>>=◌, or_panic, or_error,
}
use qnapexporter.Exporter.Metric.{FloatOps, Metric, metric}
use qnapexporter.Exporter.Metric.Quote.{quote}
use qnapexporter.Exporter.World.{World, exec_command_get_lines, read_file_lines}

-- `strings.SplitN(s, sep, n + 1)` for a separator of one byte: the first part, and the others.
unfoldable pub split_at_most : ℕ → ℕ → Text → Text × List Text
split_at_most sep zero s = (s, [])
split_at_most sep (suc n) [] = ([], [])
split_at_most sep (suc n) (x ∷ s) = elim (x == sep) [
  | true ↦ let (a, parts) = split_at_most sep n s in ([], a ∷ parts)
  | false ↦ let (a, parts) = split_at_most sep (suc n) s in (x ∷ a, parts)
]

abbrev pub tokens : Text → List Text
tokens line = (split_at_most b' ' 12 line).0 ∷ (split_at_most b' ' 12 line).1

-- The two halves of the first token with a slash.
unfoldable pub allocation : List Text → Option (Text × Text)
allocation [] = none
allocation (t ∷ ts) = elim (contains t (codes "/")) [
  | true ↦ elim (cut b'/' t).1 [ none ↦ none | some total ↦ some ((cut b'/' t).0, total) ]
  | false ↦ allocation ts
]

-- How `%s` prints a list.
abbrev pub spaced : List Text → Text
spaced [] = []
spaced (a ∷ []) = a
spaced (a ∷ b ∷ rest) = a ++ b' ' ∷ spaced (b ∷ rest)

module _ {F : Type 0} (ops : FloatOps F) where
  -- `appendFloatMetric`
  unfoldable pub append_float_metric :
      List (Metric F) → Text → Text → ℕ → Text → Text → List (Metric F)
  append_float_metric metrics name value_str factor attr help = elim (ops.parse_float value_str) [
    | none ↦ metrics
    | some value ↦
        metrics ++ metric name attr (ops.mul value (ops.of_nat factor)) help (codes "counter") ∷ []
  ]

  -- The metrics so far with those of one cache.
  unfoldable pub append_allocation : List (Metric F) → Text → Text × Text → List (Metric F)
  append_allocation ms cache (used, total) =
      let attr = codes "device=" ++ quote cache in
      let resident = codes "Number of blocks resident in the cache" in
      let blocks = codes "Total number of cache blocks" in
      let ms1 =
        append_float_metric ms (codes "node_flashcache_cached_blocks") used 1 attr resident in
      let ms2 =
        append_float_metric ms1 (codes "node_flashcache_total_blocks") total 1 attr blocks in
      let ms3 =
        append_float_metric ms2 (codes "node_dmcache_used_bytes_total") used (1024 * 1024) attr
          resident in
      append_float_metric ms3 (codes "node_dmcache_bytes_total") total (1024 * 1024) attr blocks

  -- The loop over the lines, with the clients left.
  unfoldable pub dm_cache_loop : List Text → List Text → List (Metric F) → Fetch (List (Metric F))
  dm_cache_loop clients [] ms = ok ms
  dm_cache_loop [] (line ∷ lines) ms = panic
  dm_cache_loop (cache ∷ clients) (line ∷ lines) ms = elim (allocation (tokens line)) [
    | none ↦ panic
    | some halves ↦ dm_cache_loop clients lines (append_allocation ms cache halves)
  ]

  pub record Hits : Type 0 where
    pub read_hits : F
    pub read_total : F
    pub write_hits : F
    pub write_total : F

  unfoldable pub set_hits : Text → F → Hits → Hits
  set_hits id value h =
      if same id (codes "read hit")
      then record h { read_hits = value }
      else if same id (codes "reads")
      then record h { read_total = value }
      else if same id (codes "write hit")
      then record h { write_hits = value }
      else if same id (codes "writes")
      then record h { write_total = value }
      else h

  unfoldable pub hits_loop : List Text → Hits → Fetch Hits
  hits_loop [] h = ok h
  hits_loop (line ∷ lines) h = do
    after ← or_panic (cut b':' line).1
    value ← or_error (message after) (ops.parse_float (trim_space after))
    hits_loop lines (set_hits (trim_space (cut b':' line).0) value h)

  -- The metrics of the hits on reading or writing, under their two families of names.
  unfoldable pub hit_metrics : Text → String → String → String → Text → F → F → List (Metric F)
  hit_metrics attr hit all old_all operation hits total =
      let counter = codes "counter" in
      let mapped =
        codes "Number of times a " ++ (operation ++ codes " bio has been mapped to the cache") in
      let occurred = codes "Number of times a " ++ (operation ++ codes " bio has occurred") in
      let percent = ops.mul (ops.div hits total) (ops.of_nat 100) in
      metric (codes "node_flashcache_" ++ (codes hit ++ codes "_hits")) attr hits mapped counter
      ∷ metric (codes "node_dmcache_" ++ (codes hit ++ codes "_hit_total")) attr hits mapped counter
      ∷ metric (codes "node_flashcache_" ++ codes old_all) attr total occurred counter
      ∷ metric (codes "node_dmcache_" ++ (codes all ++ codes "_total")) attr total occurred counter
      ∷ (if ops.is_positive total
          then metric (codes "node_flashcache_" ++ (codes hit ++ codes "_hit_percent")) attr percent
              [] counter
            ∷ metric (codes "node_dmcache_" ++ (codes hit ++ codes "_hit_percent")) attr percent []
                counter
            ∷ []
          else [])

  -- `appendDmCacheHitMetrics`
  unfoldable pub append_dm_cache_hit_metrics :
      World → Text → List (Metric F) → Fetch (List (Metric F))
  append_dm_cache_hit_metrics w minor ms =
      if is_empty minor
      then ok ms
      else (let cache = codes "dm-" ++ minor in
          let attr = codes "device=" ++ quote cache in
          let zero_hits : Hits = record {
            read_hits = ops.of_nat 0;
            read_total = ops.of_nat 0;
            write_hits = ops.of_nat 0;
            write_total = ops.of_nat 0;
          } in
          elim (read_file_lines w
            (codes "/sys/block/" ++ (cache ++ codes "/dm/cache/curr_stats"))) [
              | err e ↦ if is_not_exist e then ok ms else err e
              | panic ↦ panic
              | ok lines ↦ do
                h ← hits_loop lines zero_hits
                ok (
                    ms
                    ++ (hit_metrics attr "read" "read" "reads" (codes "READ") h.read_hits
                          h.read_total
                        ++ hit_metrics attr "write" "write" "writes" (codes "WRITE") h.write_hits
                            h.write_total))
            ])

  -- `getDmCacheStatsMetrics`
  unfoldable pub get_dm_cache_stats_metrics : World → List Text → Text → Fetch (List (Metric F))
  get_dm_cache_stats_metrics w [] minor = ok []
  get_dm_cache_stats_metrics w (client ∷ clients) minor =
      let args = codes "status" ∷ codes "--noflush" ∷ client ∷ clients in
      elim (exec_command_get_lines w (codes "dmsetup") args) [
        | err e ↦
            err
              (wrapped (codes "get dm-cache status (dmsetup [" ++ (spaced args ++ codes "]): ")) e)
        | panic ↦ panic
        | ok lines ↦ do
          ms ← dm_cache_loop (client ∷ clients) lines []
          append_dm_cache_hit_metrics w minor ms
      ]
