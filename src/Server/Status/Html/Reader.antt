-- ===== src/Server/Status/Html/Reader.antt =====
-- Reading a text byte by byte with a state.
use qnapexporter.Base.{ℕ, ◌++◌, List, [], ◌∷◌, Text, append_assoc, ◌≡◌, refl, ap, sym, ◌∙◌}

module _ {S E : Type 0} (step : S → ℕ → S × List E) where
  -- The state behind the text, and what was read.
  unfoldable pub run : S → Text → S × List E
  run st [] = (st, [])
  run st (c ∷ s) = let (st1, e1) = step st c in let (st2, e2) = run st1 s in (st2, e1 ++ e2)

  run-append :
      (a : S) (x y : Text)
      → run a (x ++ y) ≡ ((run (run a x).0 y).0, (run a x).1 ++ (run (run a x).0 y).1)
  unfolding run
  run-append a [] y = refl
  run-append a (c ∷ x) y =
      let st = (step a c).0 in
      rw (run-append st x y) (
        ap (λ e. ((run (run st x).0 y).0, e))
          (sym (append_assoc (step a c).1 (run st x).1 (run (run st x).0 y).1)))

  -- The text takes one state to the other, and is read so.
  pub record Reads (a : S) (x : Text) (b : S) (e : List E) : Type 0 where
    pub read : run a x ≡ (b, e)

  pub seq :
      {a b c : S} {x y : Text} {e f : List E}
      → Reads a x b e
      → Reads b y c f
      → Reads a (x ++ y) c (e ++ f)
  seq {a} {x} {y} p q = record { read = run-append a x y ∙ rw p.read (rw q.read refl) }
