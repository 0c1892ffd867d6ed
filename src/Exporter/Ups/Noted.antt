-- ===== src/Exporter/Ups/Noted.antt =====
-- What a successful scrape of the UPSes gives and notes.
use qnapexporter.Base.{
  ℕ, ◌+◌, ◌≤◌, Option, Option-cases, none, some, List, [], ◌∷◌, map, length, Bool-cases, ◌⊎◌, inl,
  inr, Text, ◌≡◌, refl, ap, arith,
}
use qnapexporter.Exporter.Errors.{Error, Fetch, ok, err, panic, ◌>>=◌, Yields}
use qnapexporter.Exporter.Metric.{FloatOps, Metric}
use qnapexporter.Exporter.Ups.Names.{variable_count, Read, read_upses-Read}
use qnapexporter.Exporter.Ups.{
  Daemon, Ups, UpsState, read_upses, read_stats, ensure_list, ensure_connected, close_on_reset,
  is_reset, get_ups_stats_metrics, get_ups_stats_metrics_with_retry,
}

module _ {F : Type 0} (ops : FloatOps F) where
  -- What a scrape that gave the metrics leaves in the state: the list of the UPSes, their names in the
  -- status unless there are none, and a number of metrics between that of the UPSes and that of the
  -- UPSes with all their variables.
  pub record Noted (d : Daemon F) (s : UpsState) (metrics : List (Metric F)) : Type 0 where
    upses : List Ups
    listed : s.ups_list ≡ some upses
    named : (upses ≡ []) ⊎ (s.status_ups ≡ some (map (λ u. u.name) upses))
    each_ups : length upses ≤ length metrics
    no_more : length metrics ≤ length upses + variable_count ops d upses

  ensure_list-listed :
      (d : Daemon F) (s : UpsState)
      → Yields {A = UpsState × List Ups} (λ r. r.0.ups_list ≡ some r.1) (ensure_list d s)
  unfolding ensure_list
  ensure_list-listed d s = elim (Option-cases s.ups_list) [
    | inr (l, e) ↦ rw (e, ensure_list) e
    | inl e ↦ rw (e, ensure_list) (by_answer d.get_ups_list)
  ]
    where
      by_answer :
          (r : Fetch (List Ups))
          → Yields {A = UpsState × List Ups}
              (λ p. p.0.ups_list ≡ some p.1)
              (r >>= (λ l. ok (record s { ups_list = some l }, l)))
      by_answer (ok l) = refl
      by_answer (err e) = tt
      by_answer panic = tt

  abbrev After : Daemon F → UpsState × Fetch (List (Metric F)) → Type 0
  After d r = Yields (Noted d r.0) r.1

  read_stats-Noted : (d : Daemon F) (s : UpsState) → After d (read_stats ops d s)
  unfolding read_stats Read
  read_stats-Noted d s = by_list (ensure_list d s) (ensure_list-listed d s)
    where
      by_loop :
          (s1 : UpsState) (upses : List Ups)
          → s1.ups_list ≡ some upses
          → (r : List Text × Fetch (List (Metric F)))
          → Read ops (variable_count ops d upses) upses [] [] r
          → Yields (Noted d (record s1 { status_ups = some r.0 })) r.1
      by_loop s1 upses listed (names, ok m) (noted, grown) = record {
        upses = upses;
        listed = listed;
        named = inr (ap some noted);
        each_ups = omega (arith, grown.at_least);
        no_more = omega (arith, grown.at_most);
      }
      by_loop s1 upses listed (names, err e) h = tt
      by_loop s1 upses listed (names, panic) h = tt

      by_status :
          (s1 : UpsState) (ups : Ups) (rest : List Ups)
          → s1.ups_list ≡ some (ups ∷ rest)
          → (status : Option (List Text))
          → After d (elim status [
            | none ↦ (s1, panic)
            | some _ ↦
                let (names, result) = read_upses ops d (ups ∷ rest) [] [] in
                (record s1 { status_ups = some names }, result)
          ])
      by_status s1 ups rest listed none = tt
      by_status s1 ups rest listed (some x) =
          by_loop s1 (ups ∷ rest) listed (read_upses ops d (ups ∷ rest) [] [])
            (read_upses-Read ops d (ups ∷ rest) [] [])

      by_list :
          (r : Fetch (UpsState × List Ups))
          → Yields {A = UpsState × List Ups} (λ p. p.0.ups_list ≡ some p.1) r
          → After d (elim r [
            | err e ↦ (s, err e)
            | panic ↦ (s, panic)
            | ok (s1, upses) ↦ elim upses [
              | [] ↦ (s1, ok [])
              | ups ∷ rest ↦ elim s1.status_ups [
                | none ↦ (s1, panic)
                | some _ ↦
                    let (names, result) = read_upses ops d (ups ∷ rest) [] [] in
                    (record s1 { status_ups = some names }, result)
              ]
            ]
          ])
      by_list (err e) h = tt
      by_list panic h = tt
      by_list (ok (s1, [])) h = record {
        upses = [];
        listed = h;
        named = inl refl;
        each_ups = omega arith;
        no_more = omega arith;
      }
      by_list (ok (s1, ups ∷ rest)) h = by_status s1 ups rest h s1.status_ups

  close_on_reset-After :
      (d : Daemon F) (r : UpsState × Fetch (List (Metric F)))
      → After d r
      → After d (close_on_reset ops r)
  unfolding close_on_reset
  close_on_reset-After d (s, ok m) h = h
  close_on_reset-After d (s, panic) h = tt
  close_on_reset-After d (s, err e) h = elim (Bool-cases (is_reset ops e)) [
    | inl reset ↦ rw reset tt
    | inr other ↦ rw other tt
  ]

  call-After : (d : Daemon F) (now : ℕ) (s : UpsState) → After d (get_ups_stats_metrics ops d now s)
  unfolding get_ups_stats_metrics
  call-After d now s = close_on_reset-After d _ (by_failure (ensure_connected d now s).1)
    where
      by_failure :
          (failure : Option Error)
          → After d (elim failure [
            | some e ↦ ((ensure_connected d now s).0, err e)
            | none ↦ read_stats ops d (ensure_connected d now s).0
          ])
      by_failure none = read_stats-Noted d (ensure_connected d now s).0
      by_failure (some e) = tt

  -- A scrape of the UPSes that gives metrics, at the first call or at the retry after the connection was
  -- reset, leaves the state with the list of UPSes, and with exactly their names in the status unless the
  -- list is empty; there are at least as many metrics as UPSes, and at most one more for each variable
  -- that the daemon reported to the call that gave them.
  pub retry-Noted :
      (d d' : Daemon F) (now now' : ℕ) (s : UpsState)
      → let r = get_ups_stats_metrics_with_retry ops d d' now now' s in
        Yields (λ m. Noted d r.0 m ⊎ Noted d' r.0 m) r.1
  unfolding get_ups_stats_metrics_with_retry
  retry-Noted d d' now now' s =
      let first = get_ups_stats_metrics ops d now s in
      by_first first.1 refl (call-After d now s) (by_retry _ (call-After d' now' first.0))
    where
      by_call :
          (r : UpsState × Fetch (List (Metric F)))
          → After d r
          → Yields (λ m. Noted d r.0 m ⊎ Noted d' r.0 m) r.1
      by_call (s1, ok m) h = inl h
      by_call (s1, err e) h = tt
      by_call (s1, panic) h = tt

      by_retry :
          (r : UpsState × Fetch (List (Metric F)))
          → After d' r
          → Yields (λ m. Noted d r.0 m ⊎ Noted d' r.0 m) r.1
      by_retry (s1, ok m) h = inr h
      by_retry (s1, err e) h = tt
      by_retry (s1, panic) h = tt

      by_first :
          (x : Fetch (List (Metric F)))
          → (get_ups_stats_metrics ops d now s).1 ≡ x
          → After d (get_ups_stats_metrics ops d now s)
          → (let again = get_ups_stats_metrics ops d' now' (get_ups_stats_metrics ops d now s).0 in
              Yields (λ m. Noted d again.0 m ⊎ Noted d' again.0 m) again.1)
          → (let r = get_ups_stats_metrics_with_retry ops d d' now now' s in
              Yields (λ m. Noted d r.0 m ⊎ Noted d' r.0 m) r.1)
      by_first (ok m) e h again =
          rw (e, get_ups_stats_metrics_with_retry) (by_call (get_ups_stats_metrics ops d now s) h)
      by_first (err x) e h again = elim (Bool-cases (is_reset ops x)) [
        | inl reset ↦ rw (e, reset, get_ups_stats_metrics_with_retry) again
        | inr other ↦
            rw (e, other, get_ups_stats_metrics_with_retry)
              (by_call (get_ups_stats_metrics ops d now s) h)
      ]
      by_first panic e h again =
          rw (e, get_ups_stats_metrics_with_retry) (by_call (get_ups_stats_metrics ops d now s) h)
