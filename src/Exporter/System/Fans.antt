-- ===== src/Exporter/System/Fans.antt =====
-- How many metrics the fans of the system and the network interfaces give.
use qnapexporter.Base.{
  ℕ, zero, suc, ◌+◌, ◌*◌, ◌++◌, false, none, List, [], ◌∷◌, is_empty, length, length-append, Text,
  codes, pos, ◌≡◌, refl, ap, sym, ◌∙◌, arith,
}
use qnapexporter.Exporter.Errors.{Fetch, ok, err, panic}
use qnapexporter.Exporter.Metric.{FloatOps, Metric}
use qnapexporter.Exporter.World.{World, exec_command}
use qnapexporter.Exporter.Environment.{sys_number}
use qnapexporter.Exporter.System.{
  fan_round, fan_loop, get_sys_info_fan_metrics, get_network_stat_metric, network_loop,
  get_network_stats_metrics,
}

module _ {F : Type 0} (ops : FloatOps F) (w : World) where
  fan_loop-length :
      (g : Text) (n fannum : ℕ) (metrics out : List (Metric F))
      → fan_loop ops w g n fannum metrics ≡ ok out
      → length out ≡ length metrics + n
  unfolding fan_loop
  fan_loop-length g zero fannum metrics out ran =
      let same : metrics ≡ out = cc in omega (arith, ap length same)
  fan_loop-length g (suc n) fannum metrics out ran =
      by_round (fan_round ops w g fannum) refl (λ ms. fan_loop-length g n (fannum + 1) ms out)
    where
      by_round :
          (r : Fetch (Metric F))
          → fan_round ops w g fannum ≡ r
          → ((ms : List (Metric F))
              → fan_loop ops w g n (fannum + 1) ms ≡ ok out
              → length out ≡ length ms + n)
          → length out ≡ length metrics + suc n
      by_round (err e) q rest =
          let step : fan_loop ops w g (suc n) fannum metrics ≡ err e = rw (q, fan_loop) refl in
          absurd (cc)
      by_round panic q rest =
          let step : fan_loop ops w g (suc n) fannum metrics ≡ panic = rw (q, fan_loop) refl in
          absurd (cc)
      by_round (ok m) q rest =
          let step : fan_loop ops w g (suc n) fannum metrics
              ≡ fan_loop ops w g n (fannum + 1) (metrics ++ m ∷ []) =
            rw (q, fan_loop) refl in
          omega (arith, rest (metrics ++ m ∷ []) (sym step ∙ ran), length-append metrics (m ∷ []))

  -- Where the collector of the system's fans succeeds for `n` fans, it gives exactly `n` metrics.
  get_sys_info_fan_metrics-length :
      (g : Text) (n : ℕ) (out : List (Metric F))
      → is_empty g ≡ false
      → get_sys_info_fan_metrics ops w g (pos n) ≡ ok out
      → length out ≡ n
  unfolding get_sys_info_fan_metrics
  get_sys_info_fan_metrics-length g n out found ran =
      let step : get_sys_info_fan_metrics ops w g (pos n) ≡ fan_loop ops w g n 1 [] =
        rw found refl in
      omega (arith, fan_loop-length g n 1 [] out (sym step ∙ ran))

  -- If `getsysinfo` fails to tell the number of fans when the environment is read, then the collector
  -- of the fans with the number noted panics, whatever the commands then answer.
  get_sys_info_fan_metrics-panic :
      (g : Text) (before : World)
      → is_empty g ≡ false
      → before.exec g (codes "sysfannum" ∷ []) ≡ none
      → get_sys_info_fan_metrics ops w g (sys_number before g (codes "sysfannum")) ≡ panic
  unfolding get_sys_info_fan_metrics sys_number exec_command
  get_sys_info_fan_metrics-panic g before found failed = rw (failed, found)

  network_loop-length :
      (ifaces : List Text) (metrics out : List (Metric F))
      → network_loop ops w ifaces metrics ≡ ok out
      → length out ≡ length metrics + 2 * length ifaces
  unfolding network_loop
  network_loop-length [] metrics out ran =
      let same : metrics ≡ out = cc in omega (arith, ap length same)
  network_loop-length (iface ∷ ifaces) metrics out ran =
      by_iface
        (get_network_stat_metric ops w (codes "node_network_receive_bytes_total")
          (codes "Total number of bytes received") iface (codes "rx"))
        (get_network_stat_metric ops w (codes "node_network_transmit_bytes_total")
          (codes "Total number of bytes transmitted") iface (codes "tx"))
        refl refl (λ ms. network_loop-length ifaces ms out)
    where
      by_iface :
          (r t : Fetch (Metric F))
          → get_network_stat_metric ops w
              (codes "node_network_receive_bytes_total")
              (codes "Total number of bytes received")
              iface
              (codes "rx")
            ≡ r
          → get_network_stat_metric ops w
              (codes "node_network_transmit_bytes_total")
              (codes "Total number of bytes transmitted")
              iface
              (codes "tx")
            ≡ t
          → ((ms : List (Metric F))
              → network_loop ops w ifaces ms ≡ ok out
              → length out ≡ length ms + 2 * length ifaces)
          → length out ≡ length metrics + 2 * suc (length ifaces)
      by_iface (err e) t q q' rest =
          let step : network_loop ops w (iface ∷ ifaces) metrics ≡ err e =
            rw (q, network_loop) refl in
          absurd (cc)
      by_iface panic t q q' rest =
          let step : network_loop ops w (iface ∷ ifaces) metrics ≡ panic =
            rw (q, network_loop) refl in
          absurd (cc)
      by_iface (ok rx) (err e) q q' rest =
          let step : network_loop ops w (iface ∷ ifaces) metrics ≡ err e =
            rw (q, network_loop) (rw q' refl) in
          absurd (cc)
      by_iface (ok rx) panic q q' rest =
          let step : network_loop ops w (iface ∷ ifaces) metrics ≡ panic =
            rw (q, network_loop) (rw q' refl) in
          absurd (cc)
      by_iface (ok rx) (ok tx) q q' rest =
          let step : network_loop ops w (iface ∷ ifaces) metrics
              ≡ network_loop ops w ifaces (metrics ++ rx ∷ tx ∷ []) =
            rw (q, network_loop) (rw q' refl) in
          omega (
            arith,
            rest (metrics ++ rx ∷ tx ∷ []) (sym step ∙ ran),
            length-append metrics (rx ∷ tx ∷ []),
          )

  -- Where the collector of the network's counters succeeds, it gives two metrics for each interface.
  get_network_stats_metrics-length :
      (ifaces : List Text) (out : List (Metric F))
      → get_network_stats_metrics ops w ifaces ≡ ok out
      → length out ≡ 2 * length ifaces
  unfolding get_network_stats_metrics
  get_network_stats_metrics-length ifaces out ran =
      omega (arith, network_loop-length ifaces [] out ran)
