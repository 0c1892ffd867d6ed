-- ===== src/Notifications/Annotator/Regions.antt =====
-- Two notifications that form a region.
use qnapexporter.Base.{
  ℕ, suc, ◌<◌, ◌-◌, ◌++◌, true, some, List, [], ◌∷◌, Text, codes, ℤ, pos, ◌==◌, minus_one, itoa,
  length, drop, All, returned, ◌≡◌, ◌≢◌, refl, ap, sym, ◌∙◌, arith, length-append, All-append,
  All-drop, drop-append, append-nil,
}
use qnapexporter.Notifications.RegionMatcher.{
  CacheEntry, RegionMatcher, region, rules, add, match_region,
}
use qnapexporter.Notifications.RegionMatcher.Match.{candidates, Absent, IsFirst}
use qnapexporter.Notifications.RegionMatcher.First.{match_region-first}
use qnapexporter.Notifications.RegionMatcher.Cache.{IsBounded, cache_size-add, add-window}
use qnapexporter.Notifications.Annotator.{
  Annotator, Backend, Request, Posting, posted, patch_method, annotations_url, send, post_trimmed,
  post, build_request, merge_tags, member, number, millis,
}
use qnapexporter.Notifications.Annotator.Posted.{
  returned_from, post_trimmed-region, post-posted, send-found,
}
use qnapexporter.Notifications.Annotator.Requests.{body_with, build_request-found}

module _ (c : RegionMatcher) (start : Text) (id : ℤ) where
  -- What an addition drops, and the entry that it adds.
  overflow : ℕ
  overflow = suc (length c.cache) - c.cache_size

  kept : List CacheEntry
  unfolding overflow
  kept = drop overflow c.cache

  entry : CacheEntry
  entry = record { id = id; annotation = start }

  cache-add : IsBounded c → 0 < c.cache_size → (add c id start).cache ≡ kept ++ entry ∷ []
  unfolding kept entry
  cache-add bounded positive =
      let size = length-append c.cache (entry ∷ []) in
      let k : length (c.cache ++ entry ∷ []) - c.cache_size ≡ overflow = omega arith in
      add-window c entry bounded
      ∙ ap (λ n. drop n (c.cache ++ entry ∷ [])) k
      ∙ drop-append overflow c.cache (entry ∷ []) (omega arith)

  Absent-kept :
      (before : List Text)
      → All (λ q. q ≢ start) before
      → All (Absent c.cache) before
      → All (Absent (kept ++ entry ∷ [])) before
  unfolding kept entry
  Absent-kept [] _ _ = tt
  Absent-kept (q ∷ before) (other, others) (absent, absents) = (
    All-append (λ e. e.annotation ≢ q) kept (entry ∷ [])
        (All-drop (λ e. e.annotation ≢ q) overflow c.cache absent) ((λ h. other (sym h)), tt),
    Absent-kept before others absents,
  )

  -- `Match` on the matcher that has the start, for a text whose first open candidate it is.
  match_region-add :
      (stop : Text) (before after : List Text)
      → IsBounded c
      → 0 < c.cache_size
      → candidates rules stop ≡ before ++ start ∷ after
      → All (λ q. q ≢ start) before
      → All (Absent c.cache) before
      → Absent c.cache start
      → match_region (add c id start) stop ≡ (record c { cache = kept }, id)
  unfolding kept entry
  match_region-add stop before after bounded positive found others absents absent =
      let entries = cache-add bounded positive in
      let first : IsFirst (candidates rules stop) (add c id start).cache before start after kept
          entry [] =
        record {
          candidate = found;
          earlier_absent = rw entries (Absent-kept before others absents);
          entries = entries;
          text = refl;
          oldest = All-drop (λ e. e.annotation ≢ start) overflow c.cache absent;
        } in
      match_region-first (add c id start) stop before start after kept entry [] first
      ∙ rw (cache_size-add, append-nil)

-- With a bounded cache that has room for an entry: if a first notification was posted as new and
-- got an identifier other than -1, no entry of the cache had its text already, and it is the
-- first rewriting of a second notification that any open annotation has, then posting the second,
-- where the address it goes to is valid, sends a PATCH to the annotation with this identifier,
-- carrying an end time and no start time; and the start is forgotten, whatever the server
-- replies: the cache is what it was before both, but for entries that the start pushed out.
pub post-post :
    (b : Backend) (a : Annotator) (c : RegionMatcher) (start stop : Text) (n1 n2 : ℕ)
    (p1 p2 : Posting) (id : ℤ) (before after : List Text)
    → a.cache ≡ region c
    → IsBounded c
    → 0 < c.cache_size
    → match_region c start ≡ (c, minus_one)
    → post b a start n1 ≡ returned p1
    → p1.result ≡ posted id
    → id ≢ minus_one
    → b.valid_url (annotations_url a ++ (codes "/" ++ itoa id)) ≡ true
    → candidates rules stop ≡ before ++ start ∷ after
    → All (λ q. q ≢ start) before
    → All (Absent c.cache) before
    → Absent c.cache start
    → post b p1.annotator stop n2 ≡ returned p2
    → (req : Request) × (trimmed : Text) × (tags : List Text) × (p2.sent ≡ some req)
      × (req.method ≡ patch_method)
      × (req.url ≡ annotations_url a ++ (codes "/" ++ itoa id))
      × (req.body
          ≡ body_with
              (merge_tags a.tags tags)
              trimmed
              (member (millis n2 == 0) "timeEnd" (number (pos (millis n2)))))
      × (p2.annotator.cache
          ≡ region (record c { cache = drop (suc (length c.cache) - c.cache_size) c.cache }))
unfolding kept
post-post b a c start stop n1 n2 p1 p2 id before after cached bounded positive new ran1 ok other
      valid found others absents absent ran2 =
    let e1 = post-posted b a c start n1 p1 id cached new ran1 ok in
    let c1 = add c id start in
    let c2 = record c { cache = kept c start id } in
    let a2 : Annotator = record a { cache = region c2 } in
    let (trimmed, tags, e2) = returned_from b p1.annotator stop n2 p2 _ refl ran2 in
    let matched : match_region c1 stop ≡ (c2, id) =
      match_region-add c start id stop before after bounded positive found others absents absent in
    let req = build_request a2 trimmed tags id n2 in
    let (patched, to, carrying) = build_request-found a2 trimmed tags id n2 other in
    let sent : p2 ≡ send b a2 stop id req =
      e2
      ∙ ap (λ x. post_trimmed b x stop trimmed tags n2) e1
      ∙ post_trimmed-region b (record a { cache = region c1 }) c1 c2 stop trimmed tags n2 id refl
          matched in
    let (left, was_sent) = send-found b a2 stop id req other (ap b.valid_url to ∙ valid) in
    (
      req,
      trimmed,
      tags,
      ap (λ q. q.sent) sent ∙ was_sent,
      patched,
      to,
      carrying,
      ap (λ q. q.annotator.cache) sent ∙ ap (λ x. x.cache) left,
    )
