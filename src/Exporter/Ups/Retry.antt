-- ===== src/Exporter/Ups/Retry.antt =====
-- The limit on the attempts to connect, and what it means over a run of scrapes.
use qnapexporter.Base.{
  ℕ, ◌-◌, ◌≤◌, true, List, leb, ltb, if◌then◌else◌, ◌≡◌, refl, ◌∙◌, arith, Option-cases, inl, inr,
}
use qnapexporter.Exporter.Errors.{Fetch, ok, err, panic}
use qnapexporter.Exporter.Metric.{FloatOps, Metric}
use qnapexporter.Exporter.Ups.{
  Daemon, UpsState, hour, try_connect, ensure_connected, ensure_list, read_stats, close_on_reset,
  get_ups_stats_metrics, get_ups_stats_metrics_with_retry,
}

abbrev pub IsLimited : UpsState → Type 0
IsLimited s = s.conn_attempts ≤ 10

-- An attempt is made exactly if fewer than ten were, or an hour has gone by since the last error.
try_connect_lem :
    {F : Type 0} (d : Daemon F) (now : ℕ) (s : UpsState)
    → IsLimited s
    → IsLimited (try_connect d now s).0
      × ((try_connect d now s).1
          ≡ (if ltb s.conn_attempts 10 then true else leb hour (now - s.conn_err_timestamp)))
unfolding try_connect
try_connect_lem d now s h = ground arith

module _ {F : Type 0} (ops : FloatOps F) where
  ensure_connected-IsLimited :
      (d : Daemon F) (now : ℕ) (s : UpsState) → IsLimited s → IsLimited (ensure_connected d now s).0
  unfolding ensure_connected
  ensure_connected-IsLimited d now s h = ground (arith, try_connect_lem d now s h)

  read_stats-attempts :
      (d : Daemon F) (s : UpsState) → (read_stats ops d s).0.conn_attempts ≡ s.conn_attempts
  unfolding read_stats ensure_list
  read_stats-attempts d s = ground arith

  close-attempts :
      (r : UpsState × Fetch (List (Metric F)))
      → (close_on_reset ops r).0.conn_attempts ≡ r.0.conn_attempts
  unfolding close_on_reset
  close-attempts (s, ok m) = refl
  close-attempts (s, panic) = refl
  close-attempts (s, err e) = ground arith

  stats-attempts :
      (d : Daemon F) (now : ℕ) (s : UpsState)
      → (get_ups_stats_metrics ops d now s).0.conn_attempts
        ≡ (ensure_connected d now s).0.conn_attempts
  unfolding get_ups_stats_metrics
  stats-attempts d now s =
      let s1 = (ensure_connected d now s).0 in
      elim (Option-cases (ensure_connected d now s).1) [
        | inl fine ↦ rw fine (close-attempts (read_stats ops d s1) ∙ read_stats-attempts d s1)
        | inr (e, failed) ↦ rw failed (close-attempts (s1, err e))
      ]

  stats-IsLimited :
      (d : Daemon F) (now : ℕ) (s : UpsState)
      → IsLimited s
      → IsLimited (get_ups_stats_metrics ops d now s).0
  stats-IsLimited d now s h = rw (stats-attempts d now s) (ensure_connected-IsLimited d now s h)

  -- A scrape, with its retry, leaves the count of attempts at most ten if it was at most ten.
  pub retry-IsLimited :
      (d d' : Daemon F) (now now' : ℕ) (s : UpsState)
      → IsLimited s
      → IsLimited (get_ups_stats_metrics_with_retry ops d d' now now' s).0
  unfolding get_ups_stats_metrics_with_retry
  retry-IsLimited d d' now now' s h =
      let first = get_ups_stats_metrics ops d now s in
      ground (arith, stats-IsLimited d now s h, stats-IsLimited d' now' first.0)
