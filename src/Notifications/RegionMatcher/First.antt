-- ===== src/Notifications/RegionMatcher/First.antt =====
-- The first candidate that the cache has is what `Match` takes.
use qnapexporter.Base.{
  ℕ, ◌++◌, none, some, List, [], ◌∷◌, same, same_iff, Text, Option, length, All, ◌≡◌, refl, ap, ◌∙◌,
  arith, Bool-cases, Option-cases, inl, inr,
}
use qnapexporter.Regex.{replace_all}
use qnapexporter.Notifications.RegionMatcher.{
  CacheEntry, RegionMatcher, ReplacementRule, rules, find_index, find_rule, take_entry,
  match_region,
}
use qnapexporter.Notifications.RegionMatcher.Match.{candidates, Absent, IsFirst, take_entry-middle}

Absent-find_index :
    (p : Text) (cache : List CacheEntry) → Absent cache p → find_index p cache ≡ none
unfolding find_index
Absent-find_index p [] h = refl
Absent-find_index p (e ∷ cache) (he, h) =
    ground (arith, Absent-find_index p cache h, (same_iff e.annotation p).0)

find_index-first :
    (p : Text) (older newer : List CacheEntry) (e : CacheEntry)
    → Absent older p
    → e.annotation ≡ p
    → find_index p (older ++ e ∷ newer) ≡ some (length older)
unfolding find_index
find_index-first p [] newer e h t = rw ((same_iff e.annotation p).1 t, find_index)
find_index-first p (x ∷ older) newer e (hx, h) t =
    ground (arith, find_index-first p older newer e h t, (same_iff x.annotation p).0)

-- The loop over the rules, as a loop over the candidates.
find_first : List Text → List CacheEntry → Option ℕ
find_first [] cache = none
find_first (p ∷ ps) cache = elim (find_index p cache) [
  | some i ↦ some i
  | none ↦ find_first ps cache
]

find_rule-find_first :
    (rs : List ReplacementRule) (a : Text) (cache : List CacheEntry)
    → find_rule rs a cache ≡ find_first (candidates rs a) cache
unfolding find_rule candidates find_first
find_rule-find_first [] a cache = refl
find_rule-find_first (r ∷ rs) a cache =
    let p = replace_all r.re r.substitution a in
    elim (Bool-cases (same p a)) [
      | inl unchanged ↦ rw (unchanged, find_rule, candidates) (find_rule-find_first rs a cache)
      | inr changed ↦ elim (Option-cases (find_index p cache)) [
        | inl missing ↦
            rw (changed, missing, find_rule, candidates, find_first)
              (find_rule-find_first rs a cache)
        | inr (i, found) ↦ rw (changed, found, find_rule, candidates, find_first)
      ]
    ]

find_first-first :
    (before : List Text) (p : Text) (after : List Text) (cache : List CacheEntry) (i : ℕ)
    → All (Absent cache) before
    → find_index p cache ≡ some i
    → find_first (before ++ p ∷ after) cache ≡ some i
unfolding find_first
find_first-first [] p after cache i h e = rw (e, find_first)
find_first-first (q ∷ before) p after cache i (hq, h) e =
    rw (Absent-find_index q cache hq, find_first) (find_first-first before p after cache i h e)

-- The first candidate and its oldest entry are what `Match` takes.
pub match_region-first :
    (c : RegionMatcher) (a : Text) (before : List Text) (p : Text) (after : List Text)
    (older : List CacheEntry) (e : CacheEntry) (newer : List CacheEntry)
    → IsFirst (candidates rules a) c.cache before p after older e newer
    → match_region c a ≡ (record c { cache = older ++ newer }, e.id)
unfolding match_region
match_region-first c a before p after older e newer f =
    let at : find_index p c.cache ≡ some (length older) =
      ap (find_index p) f.entries ∙ find_index-first p older newer e f.oldest f.text in
    let found : find_rule rules a c.cache ≡ some (length older) =
      find_rule-find_first rules a c.cache
      ∙ ap (λ l. find_first l c.cache) f.candidate
      ∙ find_first-first before p after c.cache (length older) f.earlier_absent at in
    ap (take_entry c) found ∙ take_entry-middle c older newer e f.entries
