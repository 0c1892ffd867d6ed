-- ===== src/Exporter/Ups.antt =====
-- lib/exporter/prometheus/ups.go: the connection to the UPS daemon and its metrics. The daemon is the
-- parameter `Daemon`: what it answers while one call of `getUpsStatsMetrics` runs. Times are
-- nanoseconds, 0 being Go's zero time. The lock and the log are left out.
pub mod Retry
pub mod Stuck
pub mod Scans
pub mod Names
pub mod Noted
use qnapexporter.Base.{
  ℕ, ◌+◌, ◌-◌, ◌*◌, ◌++◌, ◌||◌, ◌&&◌, ◌==◌, Bool, true, false, Option, none, some, List, [], ◌∷◌,
  map, ltb, leb, if◌then◌else◌, same, is_empty, Text, codes, ℤ, itoa, format_nat,
}
use qnapexporter.Exporter.Errors.{
  econnreset, epipe, other_errno, Error, wrapped, as_syscall, Fetch, ok, err, panic, ◌>>=◌,
}
use qnapexporter.Exporter.Metric.{FloatOps, Metric, metric}
use qnapexporter.Exporter.Metric.Quote.{quote}

-- The dynamic type of a variable's value in package nut.
pub data Value (F : Type 0) : Type 0 where
  string_value : Text → Value F
  int_value : ℤ → Value F
  float_value : F → Value F
  bool_value : Bool → Value F

pub record Variable (F : Type 0) : Type 0 where
  pub name : Text
  pub value : Value F
  pub var_type : Text
  pub description : Text

pub record Ups : Type 0 where
  pub name : Text

pub record Daemon (F : Type 0) : Type 0 where
  -- `nut.Connect`: the protocol version of the client that it returns, and its error
  pub connect : Text × Option Error
  pub get_ups_list : Fetch (List Ups)
  pub get_variables : Ups → Fetch (List (Variable F))

-- The fields of `upsState`, and `e.status.Ups` where there is a status.
pub record UpsState : Type 0 where
  pub protocol_version : Text
  pub conn_err : Option Error
  pub conn_err_timestamp : ℕ
  pub conn_attempts : ℕ
  pub ups_list : Option (List Ups)
  pub status_ups : Option (List Text)

abbrev pub hour : ℕ
hour = 3_600 * 1_000_000_000

-- `getUpsStatus`
abbrev pub is_text : Text → List Text → Bool
is_text s [] = false
is_text s (t ∷ ts) = same t s || is_text s ts

unfoldable pub get_ups_status : Text → ℕ
get_ups_status status =
    if same status (codes "OL")
    then 0
    else if same status (codes "OL CHRG")
    then 1
    else if is_text status (codes "OB" ∷ codes "LB" ∷ codes "HB" ∷ codes "DISCHRG" ∷ [])
    then 2
    else if same status (codes "OFF")
    then 3
    else if same status (codes "RB")
    then 999
    else 99

-- The first half of the branch on an empty protocol version: after ten attempts no more are made
-- until an hour has gone by since the last error. The flag says whether an attempt was made.
unfoldable pub try_connect : {F : Type 0} → Daemon F → ℕ → UpsState → UpsState × Bool
try_connect d now s =
    let cooled = leb 10 s.conn_attempts && leb hour (now - s.conn_err_timestamp) in
    let attempts = if cooled then 0 else s.conn_attempts in
    if ltb attempts 10
    then (
      record s {
        conn_attempts = attempts + 1;
        protocol_version = d.connect.0;
        conn_err = d.connect.1;
      },
      true,
    )
    else (record s { conn_attempts = attempts }, false)

-- The branch on an empty protocol version, with the error that it returns.
unfoldable pub ensure_connected : {F : Type 0} → Daemon F → ℕ → UpsState → UpsState × Option Error
ensure_connected d now s =
    if is_empty s.protocol_version
    then (let s1 = (try_connect d now s).0 in
        elim s1.conn_err [
          | none ↦ (s1, none)
          | some e ↦ (
            record s1 { conn_err_timestamp = now },
            some (wrapped (codes " (attempt " ++ (format_nat s1.conn_attempts ++ codes ")")) e),
          )
        ])
    else (s, none)

-- The list is asked for once.
unfoldable pub ensure_list : {F : Type 0} → Daemon F → UpsState → Fetch (UpsState × List Ups)
ensure_list d s = elim s.ups_list [
  | some l ↦ ok (s, l)
  | none ↦ do l ← d.get_ups_list; ok (record s { ups_list = some l }, l)
]

module _ {F : Type 0} (ops : FloatOps F) where
  -- `fmt.Sprintf("%v", val)`
  format_value : Value F → Text
  format_value (string_value s) = s
  format_value (int_value n) = itoa n
  format_value (float_value x) = ops.format_g x
  format_value (bool_value true) = codes "true"
  format_value (bool_value false) = codes "false"

  -- The variables of the loop over the variables of a UPS.
  pub record Scan : Type 0 where
    pub status : Text
    pub status_help : Text
    pub firmware : Text
    pub metrics : List (Metric F)

  -- `strings.ReplaceAll(name, ".", "_")`
  abbrev pub underscored : Text → Text
  underscored = map (λ c. if c == b'.' then b'_' else c)

  unfoldable pub append_value : Text → Variable F → F → Scan → Scan
  append_value attr v value scan = record scan {
    metrics =
        scan.metrics
        ++ metric (codes "ups_" ++ underscored v.name) attr value v.description [] ∷ [];
  }

  -- One round of the loop. A type assertion that fails is a panic.
  unfoldable pub scan_variable : Text → Scan → Variable F → Fetch Scan
  unfolding format_value append_value
  scan_variable attr scan v =
      if same v.name (codes "ups.status")
      then (elim v.value [
        | string_value s ↦ ok (record scan { status = s; status_help = v.description })
        | _ ↦ panic
      ])
      else if same v.name (codes "ups.firmware")
      then ok (record scan { firmware = format_value v.value })
      else if same v.var_type (codes "INTEGER")
      then (elim v.value [ int_value n ↦ ok (append_value attr v (ops.of_int n) scan) | _ ↦ panic ])
      else if same v.var_type (codes "FLOAT_64")
      then (elim v.value [ float_value x ↦ ok (append_value attr v x scan) | _ ↦ panic ])
      else ok scan

  unfoldable pub scan_variables : Text → Scan → List (Variable F) → Fetch Scan
  scan_variables attr scan [] = ok scan
  scan_variables attr scan (v ∷ vs) = do
    next ← scan_variable attr scan v
    scan_variables attr next vs

  -- The metrics so far with those of one UPS.
  unfoldable pub append_ups : Ups → List (Variable F) → List (Metric F) → Fetch (List (Metric F))
  append_ups ups vars metrics = do
    let attr = codes "ups=" ++ quote ups.name
    scan ←
        scan_variables attr
          (record { status = []; status_help = []; firmware = []; metrics = metrics }) vars
    ok (
        scan.metrics
        ++ metric (codes "ups_ups_status")
            (codes "status="
              ++ (quote scan.status
                  ++ (codes ",firmware=" ++ (quote scan.firmware ++ (codes "," ++ attr)))))
            (ops.of_nat (get_ups_status scan.status)) scan.status_help []
          ∷ [])

  -- The loop over the UPSes, with the names noted in the status.
  unfoldable pub read_upses :
      Daemon F → List Ups → List Text → List (Metric F) → List Text × Fetch (List (Metric F))
  read_upses d [] names metrics = (names, ok metrics)
  read_upses d (ups ∷ upses) names metrics =
      let names' = names ++ ups.name ∷ [] in
      elim (do vars ← d.get_variables ups; append_ups ups vars metrics) [
        | ok metrics' ↦ read_upses d upses names' metrics'
        | err e ↦ (names', err e)
        | panic ↦ (names', panic)
      ]

  -- What stands behind the connection.
  unfoldable pub read_stats : Daemon F → UpsState → UpsState × Fetch (List (Metric F))
  read_stats d s = elim (ensure_list d s) [
    | err e ↦ (s, err e)
    | panic ↦ (s, panic)
    | ok (s1, upses) ↦ elim upses [
      | [] ↦ (s1, ok [])
      | ups ∷ rest ↦ elim s1.status_ups [
        | none ↦ (s1, panic)
        | some _ ↦
            let (names, result) = read_upses d (ups ∷ rest) [] [] in
            (record s1 { status_ups = some names }, result)
      ]
    ]
  ]

  -- The deferred function: a connection that was reset counts as closed.
  abbrev pub is_reset : Error → Bool
  is_reset e = elim (as_syscall e) [
    | none ↦ false
    | some n ↦ elim n [ econnreset ↦ true | epipe ↦ true | other_errno ↦ false ]
  ]

  unfoldable pub close_on_reset :
      UpsState × Fetch (List (Metric F)) → UpsState × Fetch (List (Metric F))
  close_on_reset (s, ok m) = (s, ok m)
  close_on_reset (s, panic) = (s, panic)
  close_on_reset (s, err e) =
      if is_reset e then (record s { protocol_version = [] }, err e) else (s, err e)

  unfoldable pub get_ups_stats_metrics :
      Daemon F → ℕ → UpsState → UpsState × Fetch (List (Metric F))
  get_ups_stats_metrics d now s =
      let (s1, failure) = ensure_connected d now s in
      close_on_reset (elim failure [ some e ↦ (s1, err e) | none ↦ read_stats d s1 ])

  -- The first call and the second see the daemon at different times.
  unfoldable pub get_ups_stats_metrics_with_retry :
      Daemon F → Daemon F → ℕ → ℕ → UpsState → UpsState × Fetch (List (Metric F))
  get_ups_stats_metrics_with_retry d d' now now' s =
      let first = get_ups_stats_metrics d now s in
      elim first.1 [
        | ok m ↦ first
        | panic ↦ first
        | err e ↦ if is_reset e then get_ups_stats_metrics d' now' first.0 else first
      ]
