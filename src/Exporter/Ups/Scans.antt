-- ===== src/Exporter/Ups/Scans.antt =====
-- How many metrics one UPS adds.
use qnapexporter.Base.{
  ℕ, suc, ◌+◌, ◌≤◌, List, [], ◌∷◌, length, length-append, same, Bool-cases, inl, inr, Text, codes,
  arith,
}
use qnapexporter.Exporter.Errors.{Fetch, ok, err, panic, Yields, Yields-bind}
use qnapexporter.Exporter.Metric.{FloatOps, Metric}
use qnapexporter.Exporter.Ups.{
  Ups, Variable, Value, string_value, int_value, float_value, bool_value, Scan, scan_variable,
  scan_variables, append_value, append_ups,
}

module _ {F : Type 0} (ops : FloatOps F) where
  -- From `low` to `high` metrics more.
  pub record Grown (low high : ℕ) (before after : List (Metric F)) : Type 0 where
    pub at_least : length before + low ≤ length after
    pub at_most : length after ≤ length before + high

  Scanned : ℕ → Scan ops → Scan ops → Type 0
  Scanned more scan scan' = Grown 0 more scan.metrics scan'.metrics

  unchanged :
      (scan : Scan ops) (n : ℕ) (status status_help firmware : Text)
      → Scanned n scan (record {
        status = status;
        status_help = status_help;
        firmware = firmware;
        metrics = scan.metrics;
      })
  unfolding Scanned
  unchanged scan n status status_help firmware = record {
    at_least = omega arith;
    at_most = omega arith;
  }

  appended :
      (attr : Text) (v : Variable F) (x : F) (scan : Scan ops)
      → Scanned 1 scan (append_value ops attr v x scan)
  unfolding append_value Scanned
  appended attr v x scan = record {
    at_least = omega (arith, length-append scan.metrics (_ ∷ []));
    at_most = omega (arith, length-append scan.metrics (_ ∷ []));
  }

  scan_variable-Scanned :
      (attr : Text) (scan : Scan ops) (v : Variable F)
      → Yields (Scanned 1 scan) (scan_variable ops attr scan v)
  unfolding scan_variable
  scan_variable-Scanned attr scan v = elim (Bool-cases (same v.name (codes "ups.status"))) [
    | inl is_status ↦ rw (is_status, scan_variable) (status_case v.value)
    | inr no_status ↦ elim (Bool-cases (same v.name (codes "ups.firmware"))) [
      | inl is_firmware ↦ rw (no_status, is_firmware, scan_variable) (unchanged scan 1 _ _ _)
      | inr no_firmware ↦ elim (Bool-cases (same v.var_type (codes "INTEGER"))) [
        | inl is_int ↦ rw (no_status, no_firmware, is_int, scan_variable) (int_case v.value)
        | inr no_int ↦ elim (Bool-cases (same v.var_type (codes "FLOAT_64"))) [
          | inl is_float ↦
              rw (no_status, no_firmware, no_int, is_float, scan_variable) (float_case v.value)
          | inr no_float ↦
              rw (no_status, no_firmware, no_int, no_float, scan_variable) (unchanged scan 1 _ _ _)
        ]
      ]
    ]
  ]
    where
      status_case :
          (x : Value F)
          → Yields (Scanned 1 scan) (elim x [
            | string_value s ↦ ok (record scan { status = s; status_help = v.description })
            | _ ↦ panic
          ])
      status_case (string_value s) = unchanged scan 1 _ _ _
      status_case (int_value n) = tt
      status_case (float_value n) = tt
      status_case (bool_value n) = tt

      int_case :
          (x : Value F)
          → Yields (Scanned 1 scan) (elim x [
            | int_value n ↦ ok (append_value ops attr v (ops.of_int n) scan)
            | _ ↦ panic
          ])
      int_case (string_value s) = tt
      int_case (int_value n) = appended attr v (ops.of_int n) scan
      int_case (float_value n) = tt
      int_case (bool_value n) = tt

      float_case :
          (x : Value F)
          → Yields
              (Scanned 1 scan)
              (elim x [ float_value n ↦ ok (append_value ops attr v n scan) | _ ↦ panic ])
      float_case (string_value s) = tt
      float_case (int_value n) = tt
      float_case (float_value n) = appended attr v n scan
      float_case (bool_value n) = tt

  weaker : (n : ℕ) (a b c : Scan ops) → Scanned 1 a b → Scanned n b c → Scanned (suc n) a c
  unfolding Scanned
  weaker n a b c p q = record {
    at_least = omega (arith, p.at_least, q.at_least);
    at_most = omega (arith, p.at_most, q.at_most);
  }

  scan_variables-Scanned :
      (attr : Text) (scan : Scan ops) (vs : List (Variable F))
      → Yields (Scanned (length vs) scan) (scan_variables ops attr scan vs)
  unfolding scan_variables
  scan_variables-Scanned attr scan [] = unchanged scan 0 _ _ _
  scan_variables-Scanned attr scan (v ∷ vs) =
      Yields-bind (Scanned 1 scan) (Scanned (length (v ∷ vs)) scan) (scan_variable ops attr scan v)
        _ (scan_variable-Scanned attr scan v)
        (λ next one.
          by_rest next one (scan_variables ops attr next vs) (scan_variables-Scanned attr next vs))
    where
      by_rest :
          (next : Scan ops)
          → Scanned 1 scan next
          → (r : Fetch (Scan ops)) → Yields (Scanned (length vs) next) r
          → Yields (Scanned (length (v ∷ vs)) scan) r
      by_rest next one (ok last) h = weaker (length vs) scan next last one h
      by_rest next one (err e) h = tt
      by_rest next one panic h = tt

  pub append_ups-Grown :
      (ups : Ups) (vars : List (Variable F)) (metrics : List (Metric F))
      → Yields (Grown 1 (suc (length vars)) metrics) (append_ups ops ups vars metrics)
  unfolding append_ups Scanned
  append_ups-Grown ups vars metrics =
      let start : Scan ops = record {
        status = [];
        status_help = [];
        firmware = [];
        metrics = metrics;
      } in
      Yields-bind (Scanned (length vars) start) (Grown 1 (suc (length vars)) metrics)
        (scan_variables ops _ start vars) _ (scan_variables-Scanned _ start vars)
        (λ scan more. record {
          at_least = omega (arith, more.at_least, length-append scan.metrics (_ ∷ []));
          at_most = omega (arith, more.at_most, length-append scan.metrics (_ ∷ []));
        })
