-- ===== src/Exporter/Scrape/Complete.antt =====
-- That no collector hides another.
use mathlib.Core.List.{Perm}
use mathlib.Core.Path.{subst}
use qnapexporter.Base.{
  ℕ, ◌+◌, ◌++◌, ◌==◌, true, false, not, Bool, Option, none, some, List, [], ◌∷◌, length, Text, ◌-◌,
  codes, ◌≡◌, refl, ap, sym, ◌∙◌, arith, Option-cases, inl, inr,
}
use qnapexporter.Exporter.Errors.{Error, wrapped, Fetch, ok, err, panic}
use qnapexporter.Exporter.Metric.{FloatOps, Metric}
use qnapexporter.Exporter.Write.{Message, metrics, failure, fetch_metrics_worker, write_messages}
use qnapexporter.Exporter.Write.Orders.{
  metrics_in, failures_in, total, has_error, total-Perm, write_messages-Perm,
}
use qnapexporter.Exporter.Environment.Read.{Environment, Reading, cut_short, crashed, read, refresh}
use qnapexporter.Exporter.Scrape.{
  Surroundings, begin_scrape, Exporter, Scraping, unfinished, recovered, fatal, gathered, collect,
  after_collect, send_all, write_metrics,
}

-- How many metrics the collectors that succeed give, and whether one fails.
pub collected : {F : Type 0} → List (Text × Fetch (List (Metric F))) → ℕ
collected [] = 0
collected ((name, result) ∷ results) = elim result [
  | ok ms ↦ length ms + collected results
  | err e ↦ collected results
  | panic ↦ collected results
]

pub one_fails : {F : Type 0} → List (Text × Fetch (List (Metric F))) → Bool
one_fails [] = false
one_fails ((name, result) ∷ results) = elim result [
  | ok ms ↦ one_fails results
  | err e ↦ true
  | panic ↦ one_fails results
]

module _ {F : Type 0} (ops : FloatOps F) (s : Surroundings F) where
  total_ones : (ms : List (Message F)) → total (λ m. 1) ms ≡ length ms
  unfolding total
  total_ones [] = refl
  total_ones (m ∷ ms) = omega (arith, total_ones ms)

  -- Every collector sent a message: its metrics, or its failure.
  record Sent (results : List (Text × Fetch (List (Metric F)))) (ms : List (Message F))
      : Type 0 where
    one_each : length ms ≡ length results
    counted : total metrics_in ms ≡ collected results
    failing : not (total failures_in ms == 0) ≡ one_fails results

  send_all-Sent :
      (results : List (Text × Fetch (List (Metric F)))) (ms : List (Message F))
      → send_all ops s results ≡ some ms
      → Sent results ms
  unfolding send_all fetch_metrics_worker collected one_fails total
  send_all-Sent [] ms ran =
      let same : [] ≡ ms = cc in
      subst (Sent []) same (record { one_each = refl; counted = refl; failing = refl })
  send_all-Sent ((name, ok found) ∷ results) ms ran = elim (Option-cases (send_all ops s results)) [
    | inl stuck ↦
        let step : send_all ops s ((name, ok found) ∷ results) ≡ none = rw (stuck, send_all) refl in
        absurd (cc)
    | inr (rest, sent) ↦
        let step : send_all ops s ((name, ok found) ∷ results) ≡ some (metrics found ∷ rest) =
          rw (sent, send_all) refl in
        let same : metrics found ∷ rest ≡ ms = cc in
        let ih = send_all-Sent results rest sent in
        subst (Sent ((name, ok found) ∷ results)) same (record {
          one_each = omega (arith, ih.one_each);
          counted = omega (arith, ih.counted);
          failing = ground (arith, ih.failing);
        })
  ]
  send_all-Sent ((name, err e) ∷ results) ms ran = elim (Option-cases (send_all ops s results)) [
    | inl stuck ↦
        let step : send_all ops s ((name, err e) ∷ results) ≡ none = rw (stuck, send_all) refl in
        absurd (cc)
    | inr (rest, sent) ↦
        let m = failure (wrapped (codes "retrieve '#" ++ (name ++ codes "' metric: ")) e) in
        let step : send_all ops s ((name, err e) ∷ results) ≡ some (m ∷ rest) =
          rw (sent, send_all) refl in
        let same : m ∷ rest ≡ ms = cc in
        let ih = send_all-Sent results rest sent in
        subst (Sent ((name, err e) ∷ results)) same (record {
          one_each = omega (arith, ih.one_each);
          counted = omega (arith, ih.counted);
          failing = ground arith;
        })
  ]
  send_all-Sent ((name, panic) ∷ results) ms ran =
      let step : send_all ops s ((name, panic) ∷ results) ≡ none = refl in absurd (cc)

  -- A run of `write_metrics` that returns has gone through the prologue and all workers.
  pub record Completed (fuel : ℕ) (e e' : Exporter F) (sent : List (Message F)) : Type 0 where
    pub environment : Environment F
    pub refreshed : refresh ops s.world fuel s.now e.environment ≡ read environment
    pub messages : send_all ops s (collect ops s (begin_scrape s.now e environment)) ≡ some sent
    pub after : e' ≡ after_collect ops s (begin_scrape s.now e environment)

  by_messages :
      (e e' : Exporter F) (sent : List (Message F)) (r : Option (List (Message F)))
      → ◌≡◌ {A = Scraping F}
          (elim r [ none ↦ fatal | some messages ↦ gathered (after_collect ops s e) messages ])
          (gathered e' sent)
      → (r ≡ some sent) × (e' ≡ after_collect ops s e)
  by_messages e e' sent none ran = absurd (cc)
  by_messages e e' sent (some messages) ran =
      let same : messages ≡ sent = cc in
      let left : after_collect ops s e ≡ e' = cc in (ap some same, sym left)

  pub write_metrics-Completed :
      (fuel : ℕ) (e e' : Exporter F) (sent : List (Message F))
      → write_metrics ops s fuel e ≡ gathered e' sent
      → Completed fuel e e' sent
  unfolding write_metrics
  write_metrics-Completed fuel e e' sent ran =
      by_refresh (refresh ops s.world fuel s.now e.environment) refl ran
    where
      by_refresh :
          (r : Reading F)
          → refresh ops s.world fuel s.now e.environment ≡ r
          → ◌≡◌ {A = Scraping F}
              (elim r [
                | cut_short ↦ unfinished
                | crashed env ↦ recovered (record (begin_scrape s.now e env) {
                  status_last_fetch_duration = s.ended - s.now;
                })
                | read env ↦ elim (send_all ops s (collect ops s (begin_scrape s.now e env))) [
                  | none ↦ fatal
                  | some messages ↦
                      gathered (after_collect ops s (begin_scrape s.now e env)) messages
                ]
              ])
              (gathered e' sent)
          → Completed fuel e e' sent
      by_refresh cut_short q ran' = absurd (cc)
      by_refresh (crashed env) q ran' = absurd (cc)
      by_refresh (read env) q ran' =
          let e1 = begin_scrape s.now e env in
          let (messages, after) = by_messages e1 e' sent (send_all ops s (collect ops s e1)) ran' in
          record { environment = env; refreshed = q; messages = messages; after = after }

  -- A scrape that no collector's panic ends has one message from each of the 17 collectors. In whatever
  -- order they arrive, the metric count is the number of metrics of the collectors that succeed, so that
  -- a collector that fails hides no other, and an error is returned exactly if one of them fails. The
  -- collectors work with the environment that the prologue leaves.
  pub write_metrics_complete :
      (show : Error → Text) (fuel : ℕ) (e e' : Exporter F) (sent arrived : List (Message F))
      → write_metrics ops s fuel e ≡ gathered e' sent
      → Perm sent arrived
      → (env : Environment F) × (refresh ops s.world fuel s.now e.environment ≡ read env)
        × (let results = collect ops s (begin_scrape s.now e env) in
            let r = write_messages ops show env.hostname arrived in
            (length arrived ≡ 17)
            × (r.metric_count ≡ collected results)
            × (has_error r ≡ one_fails results))
  unfolding collect
  write_metrics_complete show fuel e e' sent arrived ran p =
      let c = write_metrics-Completed fuel e e' sent ran in
      let all =
        send_all-Sent (collect ops s (begin_scrape s.now e c.environment)) sent c.messages in
      let (count, failed) = write_messages-Perm ops show c.environment.hostname sent arrived p in
      (
        c.environment,
        c.refreshed,
        (
          (omega (
            arith,
            total_ones arrived,
            total_ones sent,
            total-Perm (λ m. 1) sent arrived p,
            all.one_each,
          )),
          (count ∙ all.counted),
          (failed ∙ all.failing),
        ),
      )
