-- ===== src/Exporter/Volume/Caching.antt =====
-- The free sizes are read anew after a minute, and not before.
use mathlib.Core.Path.{subst}
use qnapexporter.Base.{
  ℕ, ◌+◌, ◌≤◌, ◌<◌, ◌++◌, ◌||◌, ◌==◌, Bool, false, none, some, List, [], ◌∷◌, map, ltb, is_empty,
  Text, All, append-nil, append_assoc, ◌≡◌, refl, ap, sym, ◌∙◌, arith, Option-cases, inl, inr,
  if◌then◌else◌,
}
use qnapexporter.Exporter.Errors.{Fetch, ok, err, panic}
use qnapexporter.Exporter.Metric.{FloatOps, Metric}
use qnapexporter.Exporter.World.{World}
use qnapexporter.Exporter.Volume.{
  VolumeInfo, VolumeState, volume_validity, volume_metrics, refresh, metrics_loop,
  get_sys_info_vol_metrics,
}

module _ {F : Type 0} (ops : FloatOps F) where
  -- The metrics of the volumes as they are, with nothing asked.
  pub all_metrics : List (VolumeInfo F) → List (Metric F)
  all_metrics [] = []
  all_metrics (v ∷ vs) = volume_metrics ops v ++ all_metrics vs

  abbrev pub names_of : List (VolumeInfo F) → List Text
  names_of = map (λ v. v.description)

  -- Every volume has a free size that is not 0.
  abbrev pub Known : List (VolumeInfo F) → Type 0
  Known = All (λ v. ops.is_zero v.free_size_bytes ≡ false)

  metrics_loop-Known :
      (w : World) (g : Text) (past vs : List (VolumeInfo F)) (names : List Text)
      (ms : List (Metric F))
      → Known vs
      → metrics_loop ops w g false past vs names ms
        ≡ (past ++ vs, names ++ names_of vs, ok (ms ++ all_metrics vs))
  unfolding metrics_loop refresh all_metrics
  metrics_loop-Known w g past [] names ms h = rw (append-nil, append-nil, append-nil)
  metrics_loop-Known w g past (v ∷ vs) names ms (hv, h) =
      rw (hv, metrics_loop, refresh)
        (metrics_loop-Known w g (past ++ v ∷ []) vs (names ++ v.description ∷ [])
            (ms ++ volume_metrics ops v) h
          ∙ simp append_assoc)

  -- What the loop did, where it gives metrics: the volumes behind it are those that it prints.
  abbrev Printed :
      List (VolumeInfo F)
      → List (Metric F)
      → List (Metric F)
      → List (VolumeInfo F) × List Text × Fetch (List (Metric F))
      → Type 0
  Printed past ms out r =
      (us : List (VolumeInfo F)) × (r.0 ≡ past ++ us) × (out ≡ ms ++ all_metrics us)

  module _ (w : World) (g : Text) (expired : Bool) (out : List (Metric F)) where
    Printed-step :
        (past vs : List (VolumeInfo F)) (v : VolumeInfo F) (names : List Text)
        (ms : List (Metric F)) (r : Fetch (VolumeInfo F))
        → refresh ops w g expired v ≡ r
        → ((v' : VolumeInfo F)
            → let next =
                metrics_loop ops w g expired
                  (past ++ v' ∷ [])
                  vs
                  (names ++ v.description ∷ [])
                  (ms ++ volume_metrics ops v') in
              next.2 ≡ ok out → Printed (past ++ v' ∷ []) (ms ++ volume_metrics ops v') out next)
        → (metrics_loop ops w g expired past (v ∷ vs) names ms).2 ≡ ok out
        → Printed past ms out (metrics_loop ops w g expired past (v ∷ vs) names ms)
    unfolding metrics_loop all_metrics
    Printed-step past vs v names ms (ok v') e next h =
        let (us, volumes, metrics) = next v' (rw (e, metrics_loop) at h) in
        (
          v' ∷ us,
          rw (e, metrics_loop) (volumes ∙ append_assoc past (v' ∷ []) us),
          metrics ∙ append_assoc ms (volume_metrics ops v') (all_metrics us),
        )
    Printed-step past vs v names ms (err er) e next h =
        let impossible : err er ≡ ok out = rw (e, metrics_loop) at h in absurd (cc)
    Printed-step past vs v names ms panic e next h =
        let impossible : ◌≡◌ {A = Fetch (List (Metric F))} panic (ok out) =
          rw (e, metrics_loop) at h in
        absurd (cc)

    metrics_loop-Printed :
        (past vs : List (VolumeInfo F)) (names : List Text) (ms : List (Metric F))
        → (metrics_loop ops w g expired past vs names ms).2 ≡ ok out
        → Printed past ms out (metrics_loop ops w g expired past vs names ms)
    unfolding metrics_loop all_metrics
    metrics_loop-Printed past [] names ms h = ([], sym (append-nil past), cc (append-nil ms))
    metrics_loop-Printed past (v ∷ vs) names ms h =
        Printed-step past vs v names ms (refresh ops w g expired v) refl
          (λ v'.
            metrics_loop-Printed (past ++ v' ∷ []) vs (names ++ v.description ∷ [])
              (ms ++ volume_metrics ops v'))
          h

  abbrev is_expired : ℕ → VolumeState F → Bool
  is_expired now s = (s.volume_last_fetch == 0) || ltb (s.volume_last_fetch + volume_validity) now

  scrape-eq :
      (w : World) (now : ℕ) (s : VolumeState F) (names : List Text)
      → is_empty s.getsysinfo ≡ false
      → s.status_volumes ≡ some names
      → let loop = metrics_loop ops w s.getsysinfo (is_expired now s) [] s.volumes [] [] in
        get_sys_info_vol_metrics ops w now s ≡ (
          record s {
            volumes = loop.0;
            volume_last_fetch = if is_expired now s then now else s.volume_last_fetch;
            status_volumes = some loop.1;
          },
          loop.2,
        )
  unfolding get_sys_info_vol_metrics
  scrape-eq w now s names found noted = rw (found, get_sys_info_vol_metrics) (rw noted)

  -- A scrape within the minute, with every free size known, prints the volumes as they are, and
  -- changes nothing but the names that it notes.
  scrape-Known :
      (w : World) (now : ℕ) (s : VolumeState F) (names : List Text)
      → is_empty s.getsysinfo ≡ false
      → s.status_volumes ≡ some names
      → 0 < s.volume_last_fetch
      → now ≤ s.volume_last_fetch + volume_validity
      → Known s.volumes
      → get_sys_info_vol_metrics ops w now s
        ≡ (record s { status_volumes = some (names_of s.volumes) }, ok (all_metrics s.volumes))
  scrape-Known w now s names found noted fetched recent known =
      let fresh : is_expired now s ≡ false = ground (arith, fetched, recent) in
      let printed = metrics_loop-Known w s.getsysinfo [] s.volumes [] [] known in
      scrape-eq w now s names found noted ∙ rw fresh (rw printed refl)

  -- The results of a run of scrapes, each with what the commands answer and its time.
  unfoldable pub scrape_volumes : List (World × ℕ) → VolumeState F → List (Fetch (List (Metric F)))
  scrape_volumes [] s = []
  scrape_volumes ((w, now) ∷ xs) s =
      let (s', result) = get_sys_info_vol_metrics ops w now s in result ∷ scrape_volumes xs s'

  scrape_volumes-Known :
      (xs : List (World × ℕ)) (s : VolumeState F) (names : List Text)
      → is_empty s.getsysinfo ≡ false
      → s.status_volumes ≡ some names
      → 0 < s.volume_last_fetch
      → All (λ x. x.1 ≤ s.volume_last_fetch + volume_validity) xs
      → Known s.volumes
      → All (λ r. r ≡ ok (all_metrics s.volumes)) (scrape_volumes xs s)
  unfolding scrape_volumes
  scrape_volumes-Known [] s names found noted fetched recent known = tt
  scrape_volumes-Known ((w, now) ∷ xs) s names found noted fetched (soon, recent) known =
      rw (scrape-Known w now s names found noted fetched soon known) (
        refl,
        scrape_volumes-Known xs (record s { status_volumes = some (names_of s.volumes) })
            (names_of s.volumes) found refl fetched recent known,
      )

  panic-status :
      (w : World) (now : ℕ) (s : VolumeState F)
      → is_empty s.getsysinfo ≡ false
      → s.status_volumes ≡ none
      → (get_sys_info_vol_metrics ops w now s).1 ≡ panic
  unfolding get_sys_info_vol_metrics
  panic-status w now s found missing = rw (found, get_sys_info_vol_metrics) (rw missing)

  scrape-noted :
      (w : World) (now : ℕ) (s s' : VolumeState F) (ms : List (Metric F))
      → is_empty s.getsysinfo ≡ false
      → get_sys_info_vol_metrics ops w now s ≡ (s', ok ms)
      → (names : List Text) × (s.status_volumes ≡ some names)
  scrape-noted w now s s' ms found ran = elim (Option-cases s.status_volumes) [
    | inr (names, noted) ↦ (names, noted)
    | inl missing ↦ absurd (no_status ran missing)
  ]
    where
      no_status : get_sys_info_vol_metrics ops w now s ≡ (s', ok ms) → s.status_volumes ≡ none → ⊥
      no_status r m = let crashed = panic-status w now s found m in let fine = ap (λ p. p.1) r in cc

  -- If a scrape of the volumes gives metrics, all scrapes that follow until a minute after the reading of
  -- the sizes give the same metrics, however many they are and whatever the commands would then answer, as
  -- long as no free size is 0.
  pub scrape-scrape :
      (w : World) (now : ℕ) (s s' : VolumeState F) (ms : List (Metric F)) (xs : List (World × ℕ))
      → is_empty s.getsysinfo ≡ false
      → get_sys_info_vol_metrics ops w now s ≡ (s', ok ms)
      → 0 < s'.volume_last_fetch
      → All (λ x. x.1 ≤ s'.volume_last_fetch + volume_validity) xs
      → Known s'.volumes
      → All (λ r. r ≡ ok ms) (scrape_volumes xs s')
  scrape-scrape w now s s' ms xs found ran fetched recent known =
      let (names, noted) = scrape-noted w now s s' ms found ran in
      let step = sym (scrape-eq w now s names found noted) ∙ ran in
      let loop = metrics_loop ops w s.getsysinfo (is_expired now s) [] s.volumes [] [] in
      let found' : is_empty s'.getsysinfo ≡ false =
        ap (λ r. is_empty r.0.getsysinfo) (sym step) ∙ found in
      let noted' : s'.status_volumes ≡ some loop.1 = ap (λ r. r.0.status_volumes) (sym step) in
      let (us, volumes, printed) =
        metrics_loop-Printed w s.getsysinfo (is_expired now s) ms [] s.volumes [] []
          (ap (λ r. r.1) step) in
      let same_volumes : us ≡ s'.volumes = sym volumes ∙ ap (λ r. r.0.volumes) step in
      let same : all_metrics s'.volumes ≡ ms = ap all_metrics (sym same_volumes) ∙ sym printed in
      subst (λ out. All (λ r. r ≡ ok out) (scrape_volumes xs s')) same
        (scrape_volumes-Known xs s' loop.1 found' noted' fetched recent known)
