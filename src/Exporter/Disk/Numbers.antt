-- ===== src/Exporter/Disk/Numbers.antt =====
-- The number of disks that are asked shrinks to the last that reports a temperature.
use mathlib.Core.Path.{subst}
use qnapexporter.Base.{
  ℕ, zero, suc, ◌+◌, ◌-◌, ◌≤◌, ◌<◌, ◌++◌, false, Option, none, some, List, [], ◌∷◌, is_empty, Text,
  codes, ℤ, pos, ◌≡◌, refl, ap, sym, ◌∙◌, arith, leb, Bool-cases, inl, inr,
}
use qnapexporter.Exporter.Errors.{Fetch, ok, err, panic}
use qnapexporter.Exporter.Metric.{FloatOps, Metric}
use qnapexporter.Exporter.World.{World, exec_command}
use qnapexporter.Exporter.Environment.{sys_number}
use qnapexporter.Exporter.Disk.{hd_round, hd_loop, get_sys_info_hd_metrics}

module _ {F : Type 0} (ops : FloatOps F) (w : World) (g : Text) where
  -- The rounds up to the highest disk that reported give the same.
  record Enough (n hdnum highest : ℕ) (metrics : List (Metric F)) (top : ℕ) (out : List (Metric F))
      : Type 0 where
    above : highest ≤ top
    below : top < hdnum + n
    same_run : hd_loop ops w g (suc top - hdnum) hdnum highest metrics ≡ ok (top, out)

  hd_loop-Enough :
      (n hdnum highest : ℕ) (metrics : List (Metric F)) (top : ℕ) (out : List (Metric F))
      → highest < hdnum
      → hd_loop ops w g n hdnum highest metrics ≡ ok (top, out)
      → Enough n hdnum highest metrics top out
  unfolding hd_loop
  hd_loop-Enough zero hdnum highest metrics top out h ran =
      let same : highest ≡ top = cc in
      let done : suc top - hdnum ≡ 0 = omega (arith, same) in
      record { above = omega (arith, same); below = omega (arith, same); same_run = rw done ran }
  hd_loop-Enough (suc n) hdnum highest metrics top out h ran =
      by_round (hd_round ops w g hdnum) refl (λ hi ms. hd_loop-Enough n (hdnum + 1) hi ms top out)
    where
      by_round :
          (r : Fetch (Option (Metric F)))
          → hd_round ops w g hdnum ≡ r
          → ((hi : ℕ) (ms : List (Metric F))
              → hi < hdnum + 1
              → hd_loop ops w g n (hdnum + 1) hi ms ≡ ok (top, out)
              → Enough n (hdnum + 1) hi ms top out)
          → Enough (suc n) hdnum highest metrics top out
      by_round (err e) q rest =
          let step : hd_loop ops w g (suc n) hdnum highest metrics ≡ err e = rw (q, hd_loop) refl in
          absurd (cc)
      by_round panic q rest =
          let step : hd_loop ops w g (suc n) hdnum highest metrics ≡ panic = rw (q, hd_loop) refl in
          absurd (cc)
      by_round (ok none) q rest =
          let step : hd_loop ops w g (suc n) hdnum highest metrics
              ≡ hd_loop ops w g n (hdnum + 1) highest metrics =
            rw (q, hd_loop) refl in
          let ih = rest highest metrics (omega arith) (sym step ∙ ran) in
          record {
            above = ih.above;
            below = omega (arith, ih.below);
            same_run = elim (Bool-cases (leb hdnum top)) [
              | inl more ↦
                  let k : suc top - hdnum ≡ suc (suc top - (hdnum + 1)) = ground arith in
                  rw (k, hd_loop) (rw q ih.same_run)
              | inr over ↦
                  let k : suc top - hdnum ≡ 0 = ground arith in
                  let k' : suc top - (hdnum + 1) ≡ 0 = ground arith in
                  rw (k, hd_loop)
                    (ap (λ j. hd_loop ops w g j (hdnum + 1) highest metrics) (sym k') ∙ ih.same_run)
            ];
          }
      by_round (ok (some m)) q rest =
          let step : hd_loop ops w g (suc n) hdnum highest metrics
              ≡ hd_loop ops w g n (hdnum + 1) hdnum (metrics ++ m ∷ []) =
            rw (q, hd_loop) refl in
          let ih = rest hdnum (metrics ++ m ∷ []) (omega arith) (sym step ∙ ran) in
          let k : suc top - hdnum ≡ suc (suc top - (hdnum + 1)) = omega (arith, ih.above) in
          record {
            above = omega (arith, ih.above);
            below = omega (arith, ih.below);
            same_run = rw (k, hd_loop) (rw q ih.same_run);
          }

  -- If a scrape of the disks' temperatures for `n` disks succeeds, then it leaves a number of disks
  -- that is at most `n`, and the same scrape for that number gives the same metrics and keeps it:
  -- the disks that are no longer asked are disks that reported nothing.
  pub get_sys_info_hd_metrics-again :
      (n : ℕ) (left : ℤ) (metrics : List (Metric F))
      → is_empty g ≡ false
      → get_sys_info_hd_metrics ops w g (pos n) ≡ (left, ok metrics)
      → (top : ℕ) × (left ≡ pos top)
        × (top ≤ n)
        × (get_sys_info_hd_metrics ops w g left ≡ (left, ok metrics))
  unfolding get_sys_info_hd_metrics
  get_sys_info_hd_metrics-again n left metrics found ran = by_run (hd_loop ops w g n 1 0 []) refl
    where
      by_run :
          (r : Fetch (ℕ × List (Metric F)))
          → hd_loop ops w g n 1 0 [] ≡ r
          → (top : ℕ) × (left ≡ pos top)
            × (top ≤ n)
            × (get_sys_info_hd_metrics ops w g left ≡ (left, ok metrics))
      by_run (err e) q =
          let step : get_sys_info_hd_metrics ops w g (pos n) ≡ (pos n, err e) =
            rw (found, q) refl in
          let bad : ◌≡◌ {A = Fetch (List (Metric F))} (err e) (ok metrics) =
            ap (λ r. r.1) (sym step ∙ ran) in
          absurd (cc)
      by_run panic q =
          let step : get_sys_info_hd_metrics ops w g (pos n) ≡ (pos n, panic) =
            rw (found, q) refl in
          let bad : ◌≡◌ {A = Fetch (List (Metric F))} panic (ok metrics) =
            ap (λ r. r.1) (sym step ∙ ran) in
          absurd (cc)
      by_run (ok (top, out)) q =
          let step : get_sys_info_hd_metrics ops w g (pos n) ≡ (pos top, ok out) =
            rw (found, q) refl in
          let same : pos top ≡ left = ap (λ r. r.0) (sym step ∙ ran) in
          let printed : ok out ≡ ok metrics = ap (λ r. r.1) (sym step ∙ ran) in
          let e = hd_loop-Enough n 1 0 [] top out (omega arith) q in
          let again : hd_loop ops w g top 1 0 [] ≡ ok (top, out) =
            ap (λ n. hd_loop ops w g n 1 0 []) (omega arith) ∙ e.same_run in
          (
            top,
            sym same,
            omega (arith, e.below),
            subst (λ l. get_sys_info_hd_metrics ops w g l ≡ (l, ok metrics)) same
                (rw (found, again) (ap (λ x. (pos top, x)) printed)),
          )

  -- If `getsysinfo` fails to tell the number of disks when the environment is read, then a scrape of
  -- the disks' temperatures with the number noted panics, whatever the commands then answer.
  pub get_sys_info_hd_metrics-panic :
      (before : World)
      → is_empty g ≡ false
      → before.exec g (codes "hdnum" ∷ []) ≡ none
      → (get_sys_info_hd_metrics ops w g (sys_number before g (codes "hdnum"))).1 ≡ panic
  unfolding get_sys_info_hd_metrics sys_number exec_command
  get_sys_info_hd_metrics-panic before found failed = rw (failed, found)
