-- ===== src/Exporter/Volume/Loop.antt =====
-- When the loop of `readSysVolInfo` ends, and what it collects.
use qnapexporter.Base.{
  ℕ, zero, suc, ◌+◌, ◌^◌, ◌≤◌, ◌<◌, Bool, true, false, Option, none, some, List, [], ◌∷◌, ltb, Text,
  codes, trim_space, le→ltb, format_nat, out_of_fuel, returned, if◌then◌else◌, is_empty, same, ◌≡◌,
  ◌≢◌, refl, arith, Bool-cases, Option-cases, inl, inr,
}
use qnapexporter.Exporter.Errors.{Error, Fetch, ok, err, panic}
use qnapexporter.Exporter.Metric.{FloatOps}
use qnapexporter.Exporter.World.{World, exec_command}
use qnapexporter.Exporter.Volume.{
  VolumeInfo, Round, not_counted, counted, volume_round, volume_loop, next_index, with_volume,
  parse_vol_desc, read_volume, or_skip, ask, parse_vol_size,
}

module _ {F : Type 0} (ops : FloatOps F) (w : World) (g : Text) where
  abbrev pub description : ℕ → Option Text
  description idx = w.exec g (codes "vol_desc" ∷ format_nat idx ∷ [])

  -- How many of the `n` indices from `idx` on have a description.
  unfoldable pub described : ℕ → ℕ → ℕ
  described idx zero = 0
  described idx (suc n) = elim (description idx) [
    | none ↦ described (idx + 1) n
    | some _ ↦ suc (described (idx + 1) n)
  ]

  round-none : (idx : ℕ) → description idx ≡ none → volume_round ops w g idx ≡ ok not_counted
  unfolding volume_round exec_command
  round-none idx h = rw (h, volume_round, exec_command)

  -- A described index is counted, if nothing panics.
  data IsCounted : Fetch (Round F) → Type 0 where
    by_round : (v : Option (VolumeInfo F)) → IsCounted (ok (counted v))
    by_error : (e : Error) → IsCounted (err e)
    by_panic : IsCounted panic

  or_skip-IsCounted :
      {A : Type 0} (m : Fetch A) (f : A → Fetch (Round F))
      → ((a : A) → IsCounted (f a))
      → IsCounted (or_skip m f)
  or_skip-IsCounted (ok a) f h = h a
  or_skip-IsCounted (err e) f h = by_round none
  or_skip-IsCounted panic f h = by_panic

  if-IsCounted :
      (b : Bool) (r : Fetch (Round F))
      → IsCounted r
      → IsCounted (if b then ok (counted none) else r)
  if-IsCounted true r h = by_round none
  if-IsCounted false r h = h

  read_volume-IsCounted : (idx : ℕ) (d : Text) → IsCounted (read_volume ops w g idx d)
  unfolding read_volume
  read_volume-IsCounted idx d = or_skip-IsCounted (ask ops w g "vol_fs" idx) _ λ file_system.
      if-IsCounted (same file_system (codes "Unknown")) _ (
        or_skip-IsCounted (ask ops w g "vol_totalsize" idx) _ λ volsize.
          or_skip-IsCounted (parse_vol_size ops volsize) _
            λ total. or_skip-IsCounted (ask ops w g "vol_status" idx) _ λ status. by_round _)

  by_description :
      (idx : ℕ) (r : Fetch Text)
      → IsCounted (elim r [
        | err e ↦ err e
        | panic ↦ panic
        | ok d ↦ if is_empty d then ok (counted none) else read_volume ops w g idx d
      ])
  by_description idx (ok d) = if-IsCounted (is_empty d) _ (read_volume-IsCounted idx d)
  by_description idx (err e) = by_error e
  by_description idx panic = by_panic

  round-some :
      (idx : ℕ) (out : Text) → description idx ≡ some out → IsCounted (volume_round ops w g idx)
  unfolding volume_round exec_command
  round-some idx out h =
      rw (h, volume_round, exec_command) (by_description idx (parse_vol_desc (trim_space out)))

  after_count :
      (n vol_count parsed idx : ℕ) (volumes : List (VolumeInfo F)) (r : Fetch (Round F))
      → ltb parsed vol_count ≡ true
      → volume_round ops w g idx ≡ r
      → IsCounted r
      → ((v : Option (VolumeInfo F))
          → volume_loop ops w g n vol_count (parsed + 1) (next_index idx) (with_volume volumes v)
            ≢ out_of_fuel)
      → volume_loop ops w g (suc n) vol_count parsed idx volumes ≢ out_of_fuel
  unfolding volume_loop
  after_count n vol_count parsed idx volumes _ more e (by_round v) h =
      rw (more, e, volume_loop) (h v)
  after_count n vol_count parsed idx volumes _ more e (by_error er) h =
      rw (more, e, volume_loop) (λ q. cc)
  after_count n vol_count parsed idx volumes _ more e by_panic h =
      rw (more, e, volume_loop) (λ q. cc)

  loop-done :
      (n vol_count parsed idx : ℕ) (volumes : List (VolumeInfo F))
      → ltb parsed vol_count ≡ false
      → volume_loop ops w g (suc n) vol_count parsed idx volumes ≡ returned volumes
  unfolding volume_loop
  loop-done n vol_count parsed idx volumes done = rw (done, volume_loop)

  loop-missing :
      (n vol_count parsed idx : ℕ) (volumes : List (VolumeInfo F))
      → ltb parsed vol_count ≡ true
      → description idx ≡ none
      → volume_loop ops w g (suc n) vol_count parsed idx volumes
        ≡ volume_loop ops w g n vol_count parsed (next_index idx) volumes
  unfolding volume_loop
  loop-missing n vol_count parsed idx volumes more missing =
      rw (more, round-none idx missing, volume_loop)

  loop_ends :
      (n vol_count parsed idx : ℕ) (volumes : List (VolumeInfo F))
      → idx + n < 2 ^ 64
      → vol_count ≤ parsed + described idx n
      → volume_loop ops w g (suc n) vol_count parsed idx volumes ≢ out_of_fuel
  unfolding described
  loop_ends zero vol_count parsed idx volumes room enough = λ q.
      let done = loop-done 0 vol_count parsed idx volumes (le→ltb parsed vol_count (omega arith)) in
      cc
  loop_ends (suc n) vol_count parsed idx volumes room enough =
      let at : next_index idx ≡ idx + 1 = omega arith in
      elim (Bool-cases (ltb parsed vol_count)) [
        | inr finished ↦
            λ q. let done = loop-done (suc n) vol_count parsed idx volumes finished in cc
        | inl more ↦ elim (Option-cases (description idx)) [
          | inl missing ↦
              rw (loop-missing (suc n) vol_count parsed idx volumes more missing, at)
                (loop_ends n vol_count parsed (idx + 1) volumes (omega arith)
                  (ground (arith, missing)))
          | inr (out, found) ↦
              after_count (suc n) vol_count parsed idx volumes (volume_round ops w g idx) more refl
                (round-some idx out found)
                λ v. rw at (
                  loop_ends n vol_count (parsed + 1) (idx + 1) (with_volume volumes v) (omega arith)
                    (ground (arith, found)))
        ]
      ]

  -- The loop of `readSysVolInfo` ends within `n` rounds and a last test, whatever the commands answer
  -- otherwise, if at least as many of the indices below `n` have a description as volumes are
  -- reported, and `n` is no index beyond 64 bits.
  pub volume_loop-ends :
      (n vol_count : ℕ)
      → n < 2 ^ 64
      → vol_count ≤ described 0 n
      → volume_loop ops w g (suc n) vol_count 0 0 [] ≢ out_of_fuel
  volume_loop-ends n vol_count room enough =
      loop_ends n vol_count 0 0 [] (omega arith) (omega arith)
