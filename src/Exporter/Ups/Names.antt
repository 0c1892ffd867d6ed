-- ===== src/Exporter/Ups/Names.antt =====
-- The loop over the UPSes: the names it notes and how many metrics it gives.
use qnapexporter.Base.{
  ℕ, suc, ◌+◌, ◌++◌, List, [], ◌∷◌, map, length, Text, ◌≡◌, refl, sym, ◌∙◌, arith, append-nil,
  append_assoc,
}
use qnapexporter.Exporter.Errors.{Fetch, ok, err, panic, Yields}
use qnapexporter.Exporter.Metric.{FloatOps, Metric}
use qnapexporter.Exporter.Ups.Scans.{Grown, append_ups-Grown}
use qnapexporter.Exporter.Ups.{Daemon, Ups, Variable, append_ups, read_upses}

module _ {F : Type 0} (ops : FloatOps F) where
  -- How many variables the daemon reports for the UPSes.
  pub variable_count : Daemon F → List Ups → ℕ
  variable_count d [] = 0
  variable_count d (ups ∷ upses) =
      elim (d.get_variables ups) [ ok vars ↦ length vars | err e ↦ 0 | panic ↦ 0 ]
      + variable_count d upses

  -- One metric for each UPS, and at most one for each variable.
  unfoldable pub Read :
      ℕ → List Ups → List Text → List (Metric F) → List Text × Fetch (List (Metric F)) → Type 0
  Read more upses names metrics r =
      Yields
        (λ m.
          (r.0 ≡ names ++ map (λ u. u.name) upses)
          × Grown ops (length upses) (length upses + more) metrics m)
        r.1

  pub read_upses-Read :
      (d : Daemon F) (upses : List Ups) (names : List Text) (metrics : List (Metric F))
      → Read (variable_count d upses) upses names metrics (read_upses ops d upses names metrics)
  unfolding read_upses Read variable_count
  read_upses-Read d [] names metrics =
      (sym (append-nil names), record { at_least = omega arith; at_most = omega arith })
  read_upses-Read d (ups ∷ upses) names metrics =
      let names' = names ++ ups.name ∷ [] in
      by_variables (d.get_variables ups) refl (λ metrics'. read_upses-Read d upses names' metrics')
    where
      joined :
          (names ++ ups.name ∷ []) ++ map (λ u. u.name) upses
          ≡ names ++ map (λ u. u.name) (ups ∷ upses)
      joined = append_assoc names (ups.name ∷ []) (map (λ u. u.name) upses)

      by_rest :
          (vars : List (Variable F)) (metrics' : List (Metric F))
          → Grown ops 1 (suc (length vars)) metrics metrics'
          → (r : List Text × Fetch (List (Metric F)))
          → Read (variable_count d upses) upses (names ++ ups.name ∷ []) metrics' r
          → Read (length vars + variable_count d upses) (ups ∷ upses) names metrics r
      by_rest vars metrics' grown (names', ok m) (noted, rest) = (
        noted ∙ joined,
        record {
          at_least = omega (arith, grown.at_least, rest.at_least);
          at_most = omega (arith, grown.at_most, rest.at_most);
        },
      )
      by_rest vars metrics' grown (names', err e) h = tt
      by_rest vars metrics' grown (names', panic) h = tt

      by_metrics :
          (vars : List (Variable F)) (r : Fetch (List (Metric F)))
          → Yields (Grown ops 1 (suc (length vars)) metrics) r
          → ((metrics' : List (Metric F))
              → Read
                  (variable_count d upses)
                  upses
                  (names ++ ups.name ∷ [])
                  metrics'
                  (read_upses ops d upses (names ++ ups.name ∷ []) metrics'))
          → Read (length vars + variable_count d upses) (ups ∷ upses) names metrics (elim r [
            | ok metrics' ↦ read_upses ops d upses (names ++ ups.name ∷ []) metrics'
            | err e ↦ (names ++ ups.name ∷ [], err e)
            | panic ↦ (names ++ ups.name ∷ [], panic)
          ])
      by_metrics vars (ok metrics') grown ih = by_rest vars metrics' grown _ (ih metrics')
      by_metrics vars (err x) grown ih = tt
      by_metrics vars panic grown ih = tt

      by_variables :
          (r : Fetch (List (Variable F)))
          → d.get_variables ups ≡ r
          → ((metrics' : List (Metric F))
              → Read
                  (variable_count d upses)
                  upses
                  (names ++ ups.name ∷ [])
                  metrics'
                  (read_upses ops d upses (names ++ ups.name ∷ []) metrics'))
          → Read
              (variable_count d (ups ∷ upses))
              (ups ∷ upses)
              names
              metrics
              (read_upses ops d (ups ∷ upses) names metrics)
      by_variables (ok vars) e ih =
          rw (e, read_upses)
            (by_metrics vars (append_ups ops ups vars metrics)
              (append_ups-Grown ops ups vars metrics) ih)
      by_variables (err x) e ih = rw (e, read_upses) tt
      by_variables panic e ih = rw (e, read_upses) tt
