-- ===== src/Notifications/RegionMatcher/Match.antt =====
-- What `Match` finds, against a description that knows no indices: the rewritings of the
-- annotation, in the order of the rules, and the entries of the cache, oldest first.
use qnapexporter.Base.{
  ℕ, zero, suc, ◌≤◌, ◌++◌, false, none, some, List, [], ◌∷◌, same, same_iff, if◌then◌else◌, Text,
  Option, length, drop, take, get_elem?, All, ℤ, minus_one, ◌≡◌, ◌≢◌, refl, ap, ◌∙◌, arith,
  length-append, Bool-cases, Option-cases, inl, inr,
}
use native.Mathlib.Nat.{le_refl}
use qnapexporter.Regex.{replace_all}
use qnapexporter.Notifications.RegionMatcher.{
  CacheEntry, RegionMatcher, ReplacementRule, rules, find_index, find_rule, take_entry,
  match_region,
}

-- The texts that the rules rewrite the annotation to, but for those that leave it as it is.
unfoldable pub candidates : List ReplacementRule → Text → List Text
candidates [] a = []
candidates (r ∷ rs) a =
    if same (replace_all r.re r.substitution a) a
    then candidates rs a
    else replace_all r.re r.substitution a ∷ candidates rs a

-- No entry of the cache has the text.
abbrev pub Absent : List CacheEntry → Text → Type 0
Absent cache p = All (λ e. e.annotation ≢ p) cache

-- `e` is the oldest entry with the text `p`, and `p` the first candidate that an entry has.
pub record IsFirst (found : List Text) (cache : List CacheEntry) (before : List Text) (p : Text)
    (after : List Text) (older : List CacheEntry) (e : CacheEntry) (newer : List CacheEntry)
    : Type 0 where
  pub candidate : found ≡ before ++ p ∷ after
  pub earlier_absent : All (Absent cache) before
  pub entries : cache ≡ older ++ e ∷ newer
  pub text : e.annotation ≡ p
  pub oldest : Absent older p

-- `find_index` at a text that an entry has.
record IsIndex (p : Text) (cache older : List CacheEntry) (e : CacheEntry) (newer : List CacheEntry)
    (i : ℕ) : Type 0 where
  entries : cache ≡ older ++ e ∷ newer
  place : i ≡ length older
  text : e.annotation ≡ p
  oldest : Absent older p

find_index-none : (p : Text) (cache : List CacheEntry) → find_index p cache ≡ none → Absent cache p
unfolding find_index
find_index-none p [] h = tt
find_index-none p (e ∷ cache) h =
    ((λ q. ground (arith, (same_iff e.annotation p).1 q)), find_index-none p cache (ground arith))

find_index-some :
    (p : Text) (cache : List CacheEntry) (i : ℕ)
    → find_index p cache ≡ some i
    → (older : List CacheEntry) × (e : CacheEntry) × (newer : List CacheEntry) × IsIndex p cache
        older e newer i
unfolding find_index
find_index-some p [] i h = absurd (cc)
find_index-some p (e ∷ cache) zero h = (
  [],
  e,
  cache,
  record {
    entries = refl;
    place = refl;
    text = (same_iff e.annotation p).0 (ground arith);
    oldest = tt;
  },
)
find_index-some p (e ∷ cache) (suc i) h =
    let later : find_index p cache ≡ some i = ground arith in
    let differs : same e.annotation p ≡ false = ground arith in
    let (older, e', newer, at) = find_index-some p cache i later in
    (
      e ∷ older,
      e',
      newer,
      record {
        entries = ap (◌∷◌ e) at.entries;
        place = ap suc at.place;
        text = at.text;
        oldest = ((λ q. ground (arith, (same_iff e.annotation p).1 q)), at.oldest);
      },
    )

-- How the loop over the rules ends.
data Search (found : List Text) (cache : List CacheEntry) (r : Option ℕ) : Type 0 where
  hit :
      (before : List Text) (p : Text) (after : List Text) (older : List CacheEntry) (e : CacheEntry)
      (newer : List CacheEntry)
      → IsFirst found cache before p after older e newer
      → r ≡ some (length older)
      → Search found cache r
  miss : All (Absent cache) found → r ≡ none → Search found cache r

-- A candidate that no entry has comes first.
Search-cons :
    {found : List Text} {cache : List CacheEntry} {r : Option ℕ} (q : Text)
    → Absent cache q
    → Search found cache r
    → Search (q ∷ found) cache r
Search-cons q none_has (hit before p after older e newer f found_at) =
    hit (q ∷ before) p after older e newer
      (record {
        candidate = ap (◌∷◌ q) f.candidate;
        earlier_absent = (none_has, f.earlier_absent);
        entries = f.entries;
        text = f.text;
        oldest = f.oldest;
      })
      found_at
Search-cons q none_has (miss all_absent no_index) = miss (none_has, all_absent) no_index

find_rule-Search :
    (rs : List ReplacementRule) (a : Text) (cache : List CacheEntry)
    → Search (candidates rs a) cache (find_rule rs a cache)
unfolding candidates find_rule
find_rule-Search [] a cache = miss tt refl
find_rule-Search (r ∷ rs) a cache =
    let p = replace_all r.re r.substitution a in
    elim (Bool-cases (same p a)) [
      | inl unchanged ↦ rw (unchanged, candidates, find_rule) (find_rule-Search rs a cache)
      | inr changed ↦ elim (Option-cases (find_index p cache)) [
        | inl missing ↦
            rw (changed, missing, candidates, find_rule)
              (Search-cons p (find_index-none p cache missing) (find_rule-Search rs a cache))
        | inr (i, found) ↦
            let (older, e, newer, at) = find_index-some p cache i found in
            rw (changed, found, candidates, find_rule)
              (hit [] p (candidates rs a) older e newer
                (record {
                  candidate = refl;
                  earlier_absent = tt;
                  entries = at.entries;
                  text = at.text;
                  oldest = at.oldest;
                })
                (ap some at.place))
      ]
    ]

-- What a call of `Match` does to the matcher `c`, and returns.
pub data Matched (a : Text) (c c' : RegionMatcher) (id : ℤ) : Type 0 where
  hit :
      (before : List Text) (p : Text) (after : List Text) (older : List CacheEntry) (e : CacheEntry)
      (newer : List CacheEntry)
      → IsFirst (candidates rules a) c.cache before p after older e newer
      → c' ≡ record c { cache = older ++ newer }
      → id ≡ e.id
      → Matched a c c' id
  miss : All (Absent c.cache) (candidates rules a) → c' ≡ c → id ≡ minus_one → Matched a c c' id

get_elem?-middle :
    (older newer : List CacheEntry) (e : CacheEntry)
    → get_elem? (older ++ e ∷ newer) (length older) ≡ some e
get_elem?-middle [] newer e = refl
get_elem?-middle (x ∷ older) newer e = get_elem?-middle older newer e

delete-middle :
    (older newer : List CacheEntry) (e : CacheEntry)
    → take (length older) (older ++ e ∷ newer) ++ drop (suc (length older)) (older ++ e ∷ newer)
      ≡ older ++ newer
delete-middle [] newer e = refl
delete-middle (x ∷ older) newer e = ap (◌∷◌ x) (delete-middle older newer e)

pub take_entry-middle :
    (c : RegionMatcher) (older newer : List CacheEntry) (e : CacheEntry)
    → c.cache ≡ older ++ e ∷ newer
    → take_entry c (some (length older)) ≡ (record c { cache = older ++ newer }, e.id)
unfolding take_entry
take_entry-middle c older newer e h =
    let found = ap (λ l. get_elem? l (length older)) h ∙ get_elem?-middle older newer e in
    let left =
      ap (λ l. take (length older) l ++ drop (suc (length older)) l) h
      ∙ delete-middle older newer e in
    rw (found, left, take_entry)

-- `Match` finds the first candidate, in the order of the rules, that the cache has, returns the
-- identifier of the oldest entry with that text and removes this entry alone; where the cache has
-- no candidate it returns -1 and changes nothing.
pub match_region-Matched :
    (c : RegionMatcher) (a : Text) → Matched a c (match_region c a).0 (match_region c a).1
unfolding match_region
match_region-Matched c a = elim (find_rule-Search rules a c.cache) [
  | miss absent none_found ↦ rw (none_found, take_entry) (miss absent refl refl)
  | hit before p after older e newer f found ↦
      rw (found, take_entry-middle c older newer e f.entries)
        (hit before p after older e newer f refl refl)
]

-- The cache never grows in a match, so a bounded one stays bounded.
pub length-match_region :
    (c : RegionMatcher) (a : Text)
    → (length (match_region c a).0.cache ≤ length c.cache)
      × ((match_region c a).0.cache_size ≡ c.cache_size)
length-match_region c a = elim (match_region-Matched c a) [
  | miss absent same_matcher none_found ↦ rw same_matcher (le_refl _, refl)
  | hit before p after older e newer f left found ↦ rw left (
    omega (arith, ap length f.entries, length-append older (e ∷ newer), length-append older newer),
    refl,
  )
]
