-- ===== src/Exporter/Write/Orders.antt =====
-- What does not depend on the order in which the workers finish.
use mathlib.Core.List.{Perm, Permᴰ}
use mathlib.Core.Logic.{∥∥₁_elim}
use native.Mathlib.Nat.{ℕ_set}
use qnapexporter.Base.{
  ℕ, ◌+◌, Bool, true, false, none, some, List, [], ◌∷◌, Text, length, ◌≡◌, refl, ap, sym, ◌∙◌,
  arith, ◌==◌, if◌then◌else◌, not,
}
use qnapexporter.Exporter.Errors.{Error}
use qnapexporter.Exporter.Metric.{FloatOps}
use qnapexporter.Exporter.Write.{
  Message, metrics, failure, Written, nothing_written, receive, receive_all, write_messages,
}

abbrev pub metrics_in : {F : Type 0} → Message F → ℕ
metrics_in (metrics ms) = length ms
metrics_in (failure e) = 0

abbrev pub failures_in : {F : Type 0} → Message F → ℕ
failures_in (metrics ms) = 0
failures_in (failure e) = 1

-- The sum over the messages.
unfoldable pub total : {F : Type 0} → (Message F → ℕ) → List (Message F) → ℕ
total f [] = 0
total f (m ∷ ms) = f m + total f ms

total-Permᴰ :
    {F : Type 0} (f : Message F → ℕ) {xs ys : List (Message F)}
    → Permᴰ xs ys
    → total f xs ≡ total f ys
unfolding total
total-Permᴰ f Permᴰ.nil = refl
total-Permᴰ f (Permᴰ.cons e p) = omega (arith, ap f e, total-Permᴰ f p)
total-Permᴰ f (Permᴰ.swap e e') = omega (arith, ap f e, ap f e')
total-Permᴰ f (Permᴰ.trans p q) = total-Permᴰ f p ∙ total-Permᴰ f q

pub total-Perm :
    {F : Type 0} (f : Message F → ℕ) (xs ys : List (Message F))
    → Perm xs ys
    → total f xs ≡ total f ys
total-Perm f xs ys p = ∥∥₁_elim p (ℕ_set (total f xs) (total f ys)) (total-Permᴰ f)

abbrev pub has_error : Written → Bool
has_error r = elim r.error [ none ↦ false | some e ↦ true ]

module _ {F : Type 0} (ops : FloatOps F) (show : Error → Text) (hostname : Text) where
  receive_all-totals :
      (r : Written) (ms : List (Message F))
      → let r' = receive_all ops show hostname r ms in
        (r'.metric_count ≡ r.metric_count + total metrics_in ms)
        × (has_error r' ≡ (if has_error r then true else not (total failures_in ms == 0)))
  unfolding receive_all receive total
  receive_all-totals r [] = (omega arith, ground arith)
  receive_all-totals r (metrics ms ∷ rest) =
      let (count, failed) = receive_all-totals (receive ops show hostname r (metrics ms)) rest in
      (omega (arith, count), ground (arith, failed))
  receive_all-totals r (failure e ∷ rest) =
      let (count, failed) = receive_all-totals (receive ops show hostname r (failure e)) rest in
      (omega (arith, count), ground (arith, failed))

  -- Whatever the order in which the workers finish, the metric count is the number of metrics that
  -- they sent, and an error is returned exactly if one of them failed.
  pub write_messages-Perm :
      (sent arrived : List (Message F))
      → Perm sent arrived
      → let r = write_messages ops show hostname arrived in
        (r.metric_count ≡ total metrics_in sent) × (has_error r ≡ not (total failures_in sent == 0))
  write_messages-Perm sent arrived p =
      let (count, failed) = receive_all-totals nothing_written arrived in
      (
        count ∙ omega (arith, total-Perm metrics_in sent arrived p),
        failed ∙ ap (λ n. not (n == 0)) (sym (total-Perm failures_in sent arrived p)),
      )
