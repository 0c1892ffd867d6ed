-- ===== src/Notifications/TagExtractor.antt =====
-- lib/notifications/tagextractor: `Extract` of the notification centre and of the no-op extractor.
-- Slicing and indexing out of range are a panic.
pub mod Laws
use qnapexporter.Base.{
  ℕ, zero, suc, ◌++◌, ◌==◌, List, [], ◌∷◌, none, some, true, false, Text, codes, index, length,
  take, drop, Run, out_of_fuel, panicked, returned, ◌≡◌, refl,
}

-- The two implementations of the interface `TagExtractor`.
pub data TagExtractor : Type 0 where
  no_op notification_center : TagExtractor

abbrev pub close : Text
close = codes "] "

-- The loop of `Extract`, by rounds left.
extract_loop : ℕ → Text → List Text → Run (Text × List Text)
unfolding index
extract_loop zero annotation tags = out_of_fuel
extract_loop (suc fuel) [] tags = panicked
extract_loop (suc fuel) (c ∷ s) tags = elim (c == b'[') [
  | false ↦ returned (c ∷ s, tags)
  | true ↦ elim (index s close) [
    | none ↦ returned (c ∷ s, tags)
    | some k ↦
        extract_loop fuel (drop (suc (suc (suc k))) (c ∷ s))
          (tags ++ drop 1 (take (suc k) (c ∷ s)) ∷ [])
  ]
]

unfoldable pub extract_tags : Text → Run (Text × List Text)
unfolding extract_loop
extract_tags annotation = extract_loop (suc (length annotation)) annotation []

unfoldable pub extract : TagExtractor → Text → Run (Text × List Text)
unfolding extract_tags
extract no_op annotation = returned (annotation, [])
extract notification_center annotation = extract_tags annotation

two_tags :
    extract_tags (codes "[nas] [SecurityCounselor] Started.")
    ≡ returned (codes "Started.", codes "nas" ∷ codes "SecurityCounselor" ∷ [])
unfolding extract_tags
two_tags = refl

only_a_tag : extract_tags (codes "[nas] ") ≡ panicked
unfolding extract_tags
only_a_tag = refl
