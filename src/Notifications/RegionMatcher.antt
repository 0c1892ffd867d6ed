-- ===== src/Notifications/RegionMatcher.antt =====
-- lib/notifications/regionmatcher.go: the bounded cache of recent annotations, and the rules that
-- turn the text of an end event into that of its start event.
pub mod Cache
pub mod Match
pub mod First
pub mod Rules
use qnapexporter.Base.{
  ℕ, suc, ◌++◌, true, false, Option, none, some, List, [], ◌∷◌, ltb, if◌then◌else◌, same, Text,
  length, drop, take, get_elem?, ℤ, minus_one,
}
use qnapexporter.Regex.{
  Piece, one, many, open_group, close_group, not_byte, any, space, lit, plus, Part, fixed,
  group_one, replace_all,
}

pub record ReplacementRule : Type 0 where
  pub re : List Piece
  pub substitution : List Part

abbrev quoted : List Piece
quoted = open_group ∷ lit "\"" ++ plus (not_byte b'"') ++ lit "\"" ++ close_group ∷ []

abbrev pub rules : List ReplacementRule
rules =
    record {
      re = lit "[Malware Remover] Scan completed.";
      substitution = fixed "[Malware Remover] Started scanning." ∷ [];
    }
    ∷ record {
      re =
          lit "[Storage & Snapshots] Finished"
          ++ open_group ∷ one space ∷ many any ∷ close_group ∷ [];
      substitution = fixed "[Storage & Snapshots] Started" ∷ group_one ∷ [];
    }
    ∷ record {
      re = lit "[Firmware Update] Started updating firmware";
      substitution = fixed "[Firmware Update] Started downloading firmware" ∷ [];
    }
    ∷ record {
      re = lit "[Firmware Update] Updated system.";
      substitution = fixed "[Firmware Update] Started updating firmware." ∷ [];
    }
    ∷ record {
      re =
          lit "[Disk S.M.A.R.T.] "
          ++ open_group ∷ plus any
          ++ close_group ∷ lit " Rapid Test result:"
          ++ many any ∷ [];
      substitution = fixed "[Disk S.M.A.R.T.] " ∷ group_one ∷ fixed " Rapid Test started." ∷ [];
    }
    ∷ record {
      re = lit "[Antivirus] Completed scan job " ++ quoted ++ plus any;
      substitution = fixed "[Antivirus] Started scan job " ∷ group_one ∷ fixed "." ∷ [];
    }
    ∷ record {
      re = lit "[Antivirus] User stopped scan job " ++ quoted ++ lit ".";
      substitution = fixed "[Antivirus] Started scan job " ∷ group_one ∷ fixed "." ∷ [];
    }
    ∷ record {
      re =
          lit "[SortMyQPKGs] "
          ++ open_group ∷ lit "'"
          ++ plus any
          ++ lit "'"
          ++ close_group ∷ lit " completed";
      substitution = fixed "[SortMyQPKGs] " ∷ group_one ∷ fixed " requested" ∷ [];
    }
    ∷ record {
      re = lit "[RunLast] end " ++ quoted ++ lit " scripts";
      substitution = fixed "[RunLast] begin " ∷ group_one ∷ fixed " scripts ..." ∷ [];
    }
    ∷ record {
      re = lit "[SecurityCounselor] Finished";
      substitution = fixed "[SecurityCounselor] Started" ∷ [];
    }
    ∷ []

pub record CacheEntry : Type 0 where
  pub id : ℤ
  pub annotation : Text

pub record RegionMatcher : Type 0 where
  pub cache_size : ℕ
  pub cache : List CacheEntry

unfoldable pub new_region_matcher : ℕ → RegionMatcher
new_region_matcher cache_size = record { cache_size = cache_size; cache = [] }

unfoldable pub add : RegionMatcher → ℤ → Text → RegionMatcher
add c id annotation =
    let cache = c.cache ++ (record { id = id; annotation = annotation }) ∷ [] in
    if ltb c.cache_size (length cache)
    then record c { cache = drop 1 cache }
    else record c { cache = cache }

-- `none` is -1.
unfoldable pub find_index : Text → List CacheEntry → Option ℕ
find_index annotation [] = none
find_index annotation (entry ∷ cache) = elim (same entry.annotation annotation) [
  | true ↦ some 0
  | false ↦ elim (find_index annotation cache) [ none ↦ none | some i ↦ some (suc i) ]
]

-- The loop of `Match` over the rules.
unfoldable pub find_rule : List ReplacementRule → Text → List CacheEntry → Option ℕ
unfolding find_index replace_all
find_rule [] annotation cache = none
find_rule (r ∷ rs) annotation cache =
    let previous_annotation = replace_all r.re r.substitution annotation in
    elim (same previous_annotation annotation) [
      | true ↦ find_rule rs annotation cache
      | false ↦ elim (find_index previous_annotation cache) [
        | some idx ↦ some idx
        | none ↦ find_rule rs annotation cache
      ]
    ]

-- The deferred deletion, and the result. The index is always in range, as
-- the module Match shows, so that the case of no entry stands for a panic that never happens.
unfoldable pub take_entry : RegionMatcher → Option ℕ → RegionMatcher × ℤ
take_entry c none = (c, minus_one)
take_entry c (some idx) = elim (get_elem? c.cache idx) [
  | none ↦ (c, minus_one)
  | some entry ↦ (record c { cache = take idx c.cache ++ drop (suc idx) c.cache }, entry.id)
]

unfoldable pub match_region : RegionMatcher → Text → RegionMatcher × ℤ
unfolding find_rule take_entry
match_region c annotation = take_entry c (find_rule rules annotation c.cache)

-- The two implementations of the interface `RegionMatcher`.
pub data Matcher : Type 0 where
  no_op : Matcher
  region : RegionMatcher → Matcher

unfoldable pub matcher_add : Matcher → ℤ → Text → Matcher
matcher_add no_op id annotation = no_op
matcher_add (region c) id annotation = region (add c id annotation)

unfoldable pub matcher_match : Matcher → Text → Matcher × ℤ
matcher_match no_op annotation = (no_op, minus_one)
matcher_match (region c) annotation = let (c', id) = match_region c annotation in (region c', id)
