-- ===== src/Notifications/RegionMatcher/Rules.antt =====
-- The rewriting of whole classes of annotations.
use qnapexporter.Base.{
  ◌++◌, true, false, List, [], ◌∷◌, same, Text, codes, ◌≡◌, refl, ap, ◌∙◌, arith, append-nil,
  ==_refl, Bool-cases, inl, inr,
}
use qnapexporter.Regex.{lit, replace_all, Part, expand, fixed, group_one, replace_all}
use qnapexporter.Regex.Laws.{
  OneLine, LacksPair, lits, line_after, line_group, replace_from-line_group, replace_from-behind,
}
use qnapexporter.Notifications.RegionMatcher.{ReplacementRule, rules}
use qnapexporter.Notifications.RegionMatcher.Match.{candidates}

-- A finished storage task, whatever the task, and the start of the same task.
abbrev pub storage_finished : Text → Text → Text
storage_finished pre task = pre ++ (codes "[Storage & Snapshots] Finished" ++ b' ' ∷ task)

abbrev pub storage_started : Text → Text → Text
storage_started pre task = pre ++ (codes "[Storage & Snapshots] Started" ++ b' ' ∷ task)

abbrev storage_sub : List Part
storage_sub = fixed "[Storage & Snapshots] Started" ∷ group_one ∷ []

-- The words behind the bracket, so that what is proved of them stays small.
abbrev finished_words : Text
finished_words = codes "torage & Snapshots] Finished"

storage_replace_at :
    (w pre task : Text) (sub : List Part)
    → LacksPair b'[' b'S' pre
    → OneLine task
    → replace_all
        (lits (b'[' ∷ b'S' ∷ w) ++ line_group)
        sub
        (pre ++ b'[' ∷ b'S' ∷ (w ++ b' ' ∷ task))
      ≡ pre ++ expand sub (b' ' ∷ task)
unfolding replace_all
storage_replace_at w pre task sub h line =
    replace_from-behind b'[' b'S' (lits w ++ line_group) sub true pre (b'S' ∷ (w ++ b' ' ∷ task)) h
      (omega arith)
    ∙ ap (λ r. pre ++ r)
        (replace_from-line_group b'[' (b'S' ∷ w) sub (line_after true pre) b' ' task refl line)

storage_replace :
    (pre task : Text)
    → LacksPair b'[' b'S' pre
    → OneLine task
    → replace_all
        (lit "[Storage & Snapshots] Finished" ++ line_group)
        storage_sub
        (storage_finished pre task)
      ≡ storage_started pre task
storage_replace pre task h line =
    storage_replace_at finished_words pre task storage_sub h line
    ∙ ap (λ r. storage_started pre r) (append-nil task)

same-append : (pre s t : Text) → same (pre ++ s) (pre ++ t) ≡ same s t
same-append [] s t = refl
same-append (x ∷ pre) s t = rw ==_refl (same-append pre s t)

-- The text is among those listed.
abbrev pub Offers : List Text → Text → Type 0
Offers found p = (before : List Text) × (after : List Text) × (found ≡ before ++ p ∷ after)

Offers-tail :
    (r : ReplacementRule) (rs : List ReplacementRule) (a p : Text)
    → Offers (candidates rs a) p
    → Offers (candidates (r ∷ rs) a) p
unfolding candidates
Offers-tail r rs a p (before, after, e) =
    elim (Bool-cases (same (replace_all r.re r.substitution a) a)) [
      | inl unchanged ↦ (before, after, rw unchanged e)
      | inr changed ↦ (
        replace_all r.re r.substitution a ∷ before,
        after,
        rw changed (ap (◌∷◌ (replace_all r.re r.substitution a)) e),
      )
    ]

Offers-head :
    (r : ReplacementRule) (rs : List ReplacementRule) (a p : Text)
    → replace_all r.re r.substitution a ≡ p
    → same p a ≡ false
    → Offers (candidates (r ∷ rs) a) p
unfolding candidates
Offers-head r rs a p replaced changed = ([], candidates rs a, rw (replaced, changed))

-- The end of a storage task on one line, behind a text in which no bracket opens before an S, is
-- rewritten to the start of the same task, whatever the task is.
pub storage-Offers :
    (pre task : Text)
    → LacksPair b'[' b'S' pre
    → OneLine task
    → Offers (candidates rules (storage_finished pre task)) (storage_started pre task)
storage-Offers pre task h line =
    Offers-tail _ _ (storage_finished pre task) (storage_started pre task) (
      Offers-head _ _ (storage_finished pre task) (storage_started pre task)
        (storage_replace pre task h line) (same-append pre _ _))
