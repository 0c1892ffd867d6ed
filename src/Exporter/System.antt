-- ===== src/Exporter/System.antt =====
-- lib/exporter/prometheus/system.go and the counters of network.go. Package gopsutil is a parameter.
pub mod Fans
use qnapexporter.Base.{
  ℕ, zero, suc, ◌+◌, ◌++◌, Option, none, some, List, [], ◌∷◌, is_empty, is_digit, has_prefix, cut,
  drop, Text, codes, ℤ, pos, negsuc, format_nat, if◌then◌else◌,
}
use qnapexporter.Exporter.Errors.{message, Fetch, ok, err, panic, ◌>>=◌, or_error}
use qnapexporter.Exporter.Metric.{FloatOps, Metric, metric}
use qnapexporter.Exporter.Metric.Quote.{quote}
use qnapexporter.Exporter.World.{World, exec_command, read_file}
use qnapexporter.Exporter.Environment.{QnapEnclosure}

-- The digits in front of a text, and what is behind them.
unfoldable pub leading_digits : Text → Text × Text
leading_digits [] = ([], [])
leading_digits (c ∷ s) =
    let (digits, rest) = leading_digits s in if is_digit c then (c ∷ digits, rest) else ([], c ∷ s)

-- The group of the first match of `fan = (\d+) rpm`.
unfoldable pub find_fan_rpm : Text → Option Text
find_fan_rpm [] = none
find_fan_rpm (c ∷ s) =
    let later = find_fan_rpm s in
    let (digits, rest) = leading_digits (drop 6 (c ∷ s)) in
    if has_prefix (c ∷ s) (codes "fan = ")
    then if is_empty digits
      then later
      else if has_prefix rest (codes " rpm")
      then some digits
      else later
    else later

-- The rounds of `for n := 0; n < limit; n++`.
abbrev pub rounds : ℤ → ℕ
rounds (pos n) = n
rounds (negsuc n) = 0

module _ {F : Type 0} (ops : FloatOps F) where
  unfoldable pub get_uptime_metrics : Fetch ℕ → Fetch (List (Metric F))
  get_uptime_metrics uptime = do
    u ← uptime
    ok (
        metric (codes "node_time_seconds") [] (ops.of_nat u)
          (codes "System uptime measured in seconds") (codes "counter")
        ∷ [])

  unfoldable pub get_load_avg_metrics : Fetch (F × F × F) → Fetch (List (Metric F))
  get_load_avg_metrics avg = do
    s ← avg
    ok (
        metric (codes "node_load1") [] s.0 [] []
        ∷ metric (codes "node_load5") [] s.1 [] []
        ∷ metric (codes "node_load15") [] s.2 [] []
        ∷ [])

  -- The loop over the sensors. One whose output has no number in front is skipped.
  unfoldable pub temp_loop : World → Text → List Text → List (Metric F) → Fetch (List (Metric F))
  temp_loop w g [] metrics = ok metrics
  temp_loop w g (dev ∷ devs) metrics = elim (exec_command w g (dev ∷ [])) [
    | err e ↦ err e
    | panic ↦ panic
    | ok output ↦ elim (ops.parse_float (cut b' ' output).0) [
      | none ↦ temp_loop w g devs metrics
      | some value ↦
          temp_loop w g devs
            (metrics ++ metric (codes "node_" ++ (dev ++ codes "_C")) [] value [] [] ∷ [])
    ]
  ]

  unfoldable pub get_sys_info_temp_metrics : World → Text → Fetch (List (Metric F))
  get_sys_info_temp_metrics w getsysinfo =
      if is_empty getsysinfo
      then ok []
      else temp_loop w getsysinfo (codes "cputmp" ∷ codes "systmp" ∷ []) []

  -- One round of the loop over the fans.
  unfoldable pub fan_round : World → Text → ℕ → Fetch (Metric F)
  fan_round w getsysinfo fannum = do
    fan_str ← exec_command w getsysinfo (codes "sysfan" ∷ format_nat fannum ∷ [])
    fan ← or_error (message fan_str) (ops.parse_float (cut b' ' fan_str).0)
    ok (
        metric (codes "node_sysfan_RPM")
          (codes "fan=" ++ (quote (format_nat fannum) ++ codes ",type=\"System\"")) fan [] [])

  unfoldable pub fan_loop : World → Text → ℕ → ℕ → List (Metric F) → Fetch (List (Metric F))
  fan_loop w g zero fannum metrics = ok metrics
  fan_loop w g (suc n) fannum metrics = elim (fan_round w g fannum) [
    | err e ↦ err e
    | panic ↦ panic
    | ok m ↦ fan_loop w g n (fannum + 1) (metrics ++ m ∷ [])
  ]

  -- A negative number of fans makes `make` panic.
  unfoldable pub get_sys_info_fan_metrics : World → Text → ℤ → Fetch (List (Metric F))
  get_sys_info_fan_metrics w getsysinfo sysfannum =
      if is_empty getsysinfo
      then ok []
      else (elim sysfannum [ negsuc _ ↦ panic | pos n ↦ fan_loop w getsysinfo n 1 [] ])

  -- One fan of an enclosure: `none` where its speed is not found.
  unfoldable pub enclosure_fan : World → Text → QnapEnclosure → ℕ → Fetch (Option (Metric F))
  enclosure_fan w hal_app enc fan_num = do
    fan_output ← exec_command w hal_app (
        codes "--se_sys_get_fan"
        ∷ (codes "enc_sys_id=" ++ (enc.id ++ (codes ",obj_index=" ++ format_nat fan_num)))
        ∷ [])
    elim (find_fan_rpm fan_output) [
      | none ↦ ok none
      | some digits ↦ do
        fan ← or_error (message digits) (ops.parse_float digits)
        ok (
            some (
              metric (codes "node_sysfan_RPM")
                (codes "fan=\""
                  ++ (format_nat (1 + fan_num) ++ (codes "\",type=" ++ quote enc.name)))
                fan [] []))
    ]

  unfoldable pub enclosure_loop :
      World → Text → QnapEnclosure → ℕ → ℕ → List (Metric F) → Fetch (List (Metric F))
  enclosure_loop w hal_app enc zero fan_num metrics = ok metrics
  enclosure_loop w hal_app enc (suc n) fan_num metrics =
      elim (enclosure_fan w hal_app enc fan_num) [
        | err e ↦ err e
        | panic ↦ panic
        | ok r ↦ elim r [
          | none ↦ enclosure_loop w hal_app enc n (fan_num + 1) metrics
          | some m ↦ enclosure_loop w hal_app enc n (fan_num + 1) (metrics ++ m ∷ [])
        ]
      ]

  unfoldable pub enclosures_fans :
      World → Text → List QnapEnclosure → List (Metric F) → Fetch (List (Metric F))
  enclosures_fans w hal_app [] metrics = ok metrics
  enclosures_fans w hal_app (enc ∷ enclosures) metrics = do
    next ← enclosure_loop w hal_app enc (rounds enc.fan_count) 0 metrics
    enclosures_fans w hal_app enclosures next

  unfoldable pub get_enclosure_fan_metrics :
      World → Text → List QnapEnclosure → Fetch (List (Metric F))
  get_enclosure_fan_metrics w hal_app enclosures =
      if is_empty hal_app then ok [] else enclosures_fans w hal_app enclosures []

  -- `getNetworkStatMetric`. The name of an interface is a name in a directory, so that `path.Join`
  -- changes nothing in it.
  unfoldable pub get_network_stat_metric : World → Text → Text → Text → Text → Fetch (Metric F)
  get_network_stat_metric w name help iface direction = do
    str ← read_file w (
        codes "/sys/class/net/"
        ++ (iface ++ (codes "/statistics/" ++ (direction ++ codes "_bytes"))))
    value ← or_error (message str) (ops.parse_float str)
    ok (metric name (codes "device=" ++ quote iface) value help (codes "counter"))

  unfoldable pub network_loop : World → List Text → List (Metric F) → Fetch (List (Metric F))
  network_loop w [] metrics = ok metrics
  network_loop w (iface ∷ ifaces) metrics =
      elim (get_network_stat_metric w (codes "node_network_receive_bytes_total")
        (codes "Total number of bytes received") iface (codes "rx")) [
          | err e ↦ err e
          | panic ↦ panic
          | ok rx ↦
              elim (get_network_stat_metric w (codes "node_network_transmit_bytes_total")
                (codes "Total number of bytes transmitted") iface (codes "tx")) [
                  | err e ↦ err e
                  | panic ↦ panic
                  | ok tx ↦ network_loop w ifaces (metrics ++ rx ∷ tx ∷ [])
                ]
        ]

  unfoldable pub get_network_stats_metrics : World → List Text → Fetch (List (Metric F))
  get_network_stats_metrics w ifaces = network_loop w ifaces []
