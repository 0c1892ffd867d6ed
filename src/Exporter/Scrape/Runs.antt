-- ===== src/Exporter/Scrape/Runs.antt =====
-- What holds of the exporter after any run of scrapes.
use qnapexporter.Base.{
  ℕ, ◌-◌, Bool, true, false, Bool-cases, ltb, if◌then◌else◌, ◌⊎◌, inl, inr, Option, none, some,
  List, Text, ◌≡◌, refl, ap, sym, arith,
}
use qnapexporter.Exporter.Environment.Read.{Reading, cut_short, crashed, read, refresh}
use qnapexporter.Exporter.Metric.{FloatOps}
use qnapexporter.Exporter.Write.{Build, Message}
use qnapexporter.Exporter.Environment.Devices.{nvme_names}
use qnapexporter.Exporter.Environment.Read.Agreement.{Agrees, refresh-Agrees}
use qnapexporter.Exporter.Ups.Retry.{IsLimited, retry-IsLimited}
use qnapexporter.Exporter.Scrape.{
  Surroundings, Exporter, Scraping, unfinished, recovered, fatal, gathered, new_exporter,
  begin_scrape, collect, send_all, after_collect, write_metrics,
}
use qnapexporter.Exporter.Scrape.Complete.{write_metrics-Completed}

-- The attempts to connect are limited and, if the last reading of the environment came to its end, the
-- status agrees with the environment.
abbrev pub IsSound : {F : Type 0} → Bool → Exporter F → Type 0
IsSound true e = Agrees e.environment × IsLimited e.ups
IsSound false e = IsLimited e.ups

pub IsSound-IsLimited :
    {F : Type 0} (complete : Bool) (e : Exporter F) → IsSound complete e → IsLimited e.ups
IsSound-IsLimited true e (agrees, limited) = limited
IsSound-IsLimited false e limited = limited

-- The metric count does not come into it.
pub IsSound-count :
    {F : Type 0} (complete : Bool) (e : Exporter F) (n : ℕ)
    → IsSound complete e
    → IsSound complete (record e { status_metric_count = n })
IsSound-count true e n sound = sound
IsSound-count false e n sound = sound

module _ {F : Type 0} (ops : FloatOps F) where
  pub new_exporter-IsSound :
      (ping_target : Text) (build : Build) (now : ℕ)
      → IsSound true (new_exporter {F = F} ping_target build now)
  unfolding new_exporter nvme_names
  new_exporter-IsSound ping_target build now = (
    record {
      devices = refl;
      nvme_devices = refl;
      are_nvme = refl;
      interfaces = refl;
      dm_caches = refl;
      dm_cache_device = refl;
      enclosures = (refl, tt);
    },
    omega arith,
  )

  after_collect-Agrees :
      (s : Surroundings F) (e : Exporter F)
      → Agrees e.environment
      → Agrees (after_collect ops s e).environment
  unfolding after_collect
  after_collect-Agrees s e agrees = record {
    devices = agrees.devices;
    nvme_devices = agrees.nvme_devices;
    are_nvme = agrees.are_nvme;
    interfaces = agrees.interfaces;
    dm_caches = agrees.dm_caches;
    dm_cache_device = agrees.dm_cache_device;
    enclosures = agrees.enclosures;
  }

  after_collect-IsLimited :
      (s : Surroundings F) (e : Exporter F)
      → IsLimited e.ups
      → IsLimited (after_collect ops s e).ups
  unfolding after_collect
  after_collect-IsLimited s e limited =
      retry-IsLimited ops s.daemon s.daemon_again s.now s.now e.ups limited

  -- Whether the last reading came to its end once a scrape has.
  abbrev pub still_complete : Surroundings F → Bool → Exporter F → Bool
  still_complete s complete e = if ltb e.environment.env_expiry s.now then true else complete

  pub write_metrics-IsSound :
      (s : Surroundings F) (fuel : ℕ) (complete : Bool) (e e' : Exporter F)
      (sent : List (Message F))
      → IsSound complete e
      → write_metrics ops s fuel e ≡ gathered e' sent
      → IsSound (still_complete s complete e) e'
  write_metrics-IsSound s fuel complete e e' sent sound ran =
      let c = write_metrics-Completed ops s fuel e e' sent ran in
      let e1 = begin_scrape s.now e c.environment in
      let limited = after_collect-IsLimited s e1 (IsSound-IsLimited complete e sound) in
      let agreeing = λ (h : (ltb e.environment.env_expiry s.now ≡ true) ⊎ Agrees e.environment).
        after_collect-Agrees s e1
          (refresh-Agrees ops s.world fuel s.now e.environment c.environment h c.refreshed) in
      elim (Bool-cases (ltb e.environment.env_expiry s.now)) [
        | inl expired ↦ rw (expired, c.after) (agreeing (inl expired), limited)
        | inr fresh ↦
            rw (fresh, c.after)
              (by_complete (after_collect ops s e1) complete sound agreeing limited)
      ]
    where
      by_complete :
          (e1 : Exporter F) (complete : Bool)
          → IsSound complete e
          → ((ltb e.environment.env_expiry s.now ≡ true) ⊎ Agrees e.environment
              → Agrees e1.environment)
          → IsLimited e1.ups
          → IsSound complete e1
      by_complete e1 true (agrees, _) agreeing limited = (agreeing (inr agrees), limited)
      by_complete e1 false sound agreeing limited = limited

  -- A scrape whose prologue panics leaves the count of attempts as it was.
  pub write_metrics-recovered :
      (s : Surroundings F) (fuel : ℕ) (e e' : Exporter F)
      → write_metrics ops s fuel e ≡ recovered e'
      → e'.ups ≡ e.ups
  unfolding write_metrics
  write_metrics-recovered s fuel e e' ran =
      by_refresh (refresh ops s.world fuel s.now e.environment) ran
    where
      by_messages :
          (e1 : Exporter F) (r : Option (List (Message F)))
          → ◌≡◌ {A = Scraping F} (elim r [ none ↦ fatal | some ms ↦ gathered e1 ms ]) (recovered e')
          → ⊥
      by_messages e1 none q = cc
      by_messages e1 (some ms) q = cc

      by_refresh :
          (r : Reading F)
          → ◌≡◌ {A = Scraping F}
              (elim r [
                | cut_short ↦ unfinished
                | crashed env ↦ recovered (record (begin_scrape s.now e env) {
                  status_last_fetch_duration = s.ended - s.now;
                })
                | read env ↦ elim (send_all ops s (collect ops s (begin_scrape s.now e env))) [
                  | none ↦ fatal
                  | some messages ↦
                      gathered (after_collect ops s (begin_scrape s.now e env)) messages
                ]
              ])
              (recovered e')
          → e'.ups ≡ e.ups
      by_refresh cut_short q = absurd (cc)
      by_refresh (crashed env) q =
          let left : Exporter F = record (begin_scrape s.now e env) {
            status_last_fetch_duration = s.ended - s.now;
          } in
          let same : left ≡ e' = cc in ap (λ x. x.ups) (sym same)
      by_refresh (read env) q =
          let e1 = begin_scrape s.now e env in
          absurd (by_messages (after_collect ops s e1) (send_all ops s (collect ops s e1)) q)
