-- ===== src/Exporter/Ups/Stuck.antt =====
-- After ten attempts that failed: the time of the last error moves on with each scrape, so scrapes
-- that are less than an hour apart never come to connect again.
use qnapexporter.Base.{
  ℕ, ◌-◌, ◌≤◌, ◌<◌, some, List, [], ◌∷◌, codes, format_nat, All, ◌≡◌, refl, ap, arith, Bool-cases,
  inl, inr,
}
use qnapexporter.Exporter.Errors.{Error, wrapped, Fetch, err}
use qnapexporter.Exporter.Metric.{FloatOps, Metric}
use qnapexporter.Exporter.Ups.{
  Daemon, UpsState, hour, try_connect, ensure_connected, is_reset, close_on_reset,
  get_ups_stats_metrics, get_ups_stats_metrics_with_retry,
}

-- Not connected, ten attempts made, and the last of them, or a later scrape, failed at `t` or later.
pub record IsStuck (e : Error) (t : ℕ) (s : UpsState) : Type 0 where
  pub closed : s.protocol_version ≡ []
  pub exhausted : s.conn_attempts ≡ 10
  pub failed : s.conn_err ≡ some e
  pub since : t ≤ s.conn_err_timestamp

abbrev pub refusal : Error → Error
refusal e = wrapped (codes " (attempt 10)") e

-- A scrape: what the daemon answers to the first call and to the retry, and when.
pub record Scrape (F : Type 0) : Type 0 where
  pub first : Daemon F
  pub second : Daemon F
  pub now : ℕ
  pub later : ℕ

-- Each scrape begins less than an hour after the one before it, the first after `t`.
abbrev pub Frequent : {F : Type 0} → ℕ → List (Scrape F) → Type 0
Frequent t [] = Unit
Frequent t (x ∷ xs) =
    (x.now - t < hour) × (x.now ≤ x.later) × (x.later - x.now < hour) × Frequent x.now xs

try_connect-stuck :
    {F : Type 0} (e : Error) (d : Daemon F) (t now : ℕ) (s : UpsState)
    → IsStuck e t s
    → now - t < hour
    → (try_connect d now s).0 ≡ s
unfolding try_connect
try_connect-stuck e d t now s h recent = ground arith

ten : format_nat 10 ≡ codes "10"
unfolding format_nat
ten = refl

ensure_connected-stuck :
    {F : Type 0} (e : Error) (d : Daemon F) (t now : ℕ) (s : UpsState)
    → IsStuck e t s
    → now - t < hour
    → ensure_connected d now s ≡ (record s { conn_err_timestamp = now }, some (refusal e))
unfolding ensure_connected
ensure_connected-stuck e d t now s h recent =
    ground (arith, try_connect-stuck e d t now s h recent, ten)

module _ {F : Type 0} (ops : FloatOps F) (e : Error) where
  close_on_reset-err :
      (t : ℕ) (s : UpsState) (e' : Error)
      → IsStuck e t s
      → ((close_on_reset ops (s, err e')).1 ≡ err e')
        × IsStuck e t (close_on_reset ops (s, err e')).0
  unfolding close_on_reset
  close_on_reset-err t s e' h = elim (Bool-cases (is_reset ops e')) [
    | inl reset ↦ rw reset (refl, ground arith)
    | inr other ↦ rw other (refl, h)
  ]

  IsStuck-call :
      (d : Daemon F) (t now : ℕ) (s : UpsState)
      → IsStuck e t s
      → now - t < hour
      → ((get_ups_stats_metrics ops d now s).1 ≡ err (refusal e))
        × IsStuck e now (get_ups_stats_metrics ops d now s).0
  unfolding get_ups_stats_metrics
  IsStuck-call d t now s h recent =
      let s1 = record s { conn_err_timestamp = now } in
      let still : IsStuck e now s1 = record {
        closed = h.closed;
        exhausted = h.exhausted;
        failed = h.failed;
        since = omega arith;
      } in
      let connected = ensure_connected-stuck e d t now s h recent in
      let failure : (ensure_connected d now s).1 ≡ some (refusal e) = ap (λ p. p.1) connected in
      let left : (ensure_connected d now s).0 ≡ s1 = ap (λ p. p.0) connected in
      rw failure (rw left (close_on_reset-err now s1 (refusal e) still))

  IsStuck-retry :
      (x : Scrape F) (t : ℕ) (s : UpsState)
      → IsStuck e t s
      → x.now - t < hour
      → x.now ≤ x.later
      → x.later - x.now < hour
      → let r = get_ups_stats_metrics_with_retry ops x.first x.second x.now x.later s in
        (r.1 ≡ err (refusal e)) × IsStuck e x.now r.0
  unfolding get_ups_stats_metrics_with_retry
  IsStuck-retry x t s h recent after soon =
      let (failed, still) = IsStuck-call x.first t x.now s h recent in
      let s1 = (get_ups_stats_metrics ops x.first x.now s).0 in
      let (failed', still') = IsStuck-call x.second x.now x.later s1 still soon in
      let still'' : IsStuck e x.now (get_ups_stats_metrics ops x.second x.later s1).0 = record {
        closed = still'.closed;
        exhausted = still'.exhausted;
        failed = still'.failed;
        since = omega (arith, still'.since);
      } in
      elim (Bool-cases (is_reset ops (refusal e))) [
        | inl reset ↦ rw (failed, get_ups_stats_metrics_with_retry) (rw reset (failed', still''))
        | inr other ↦ rw (failed, get_ups_stats_metrics_with_retry) (rw other (failed, still))
      ]

  -- The results of a run of scrapes.
  pub scrape_all : List (Scrape F) → UpsState → List (Fetch (List (Metric F)))
  scrape_all [] s = []
  scrape_all (x ∷ xs) s =
      let (s', result) = get_ups_stats_metrics_with_retry ops x.first x.second x.now x.later s in
      result ∷ scrape_all xs s'

  -- Once ten attempts have failed, every scrape of a run fails with the error of the tenth attempt,
  -- however the daemon would answer and however long the run goes on, if each scrape begins less
  -- than an hour after the one before it.
  pub scrape_all-stuck :
      (xs : List (Scrape F)) (t : ℕ) (s : UpsState)
      → IsStuck e t s
      → Frequent t xs
      → All (λ r. r ≡ err (refusal e)) (scrape_all xs s)
  unfolding scrape_all
  scrape_all-stuck [] t s h f = tt
  scrape_all-stuck (x ∷ xs) t s h (recent, after, soon, rest) =
      let (failed, still) = IsStuck-retry x t s h recent after soon in
      (failed, scrape_all-stuck xs x.now _ still rest)
