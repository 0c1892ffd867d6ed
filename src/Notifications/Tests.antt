-- ===== src/Notifications/Tests.antt =====
-- The theorems about notifications at concrete inputs.
pub mod Overlapping
use qnapexporter.Base.{
  ◌++◌, ◌==◌, true, some, List, [], ◌∷◌, Text, codes, pos, minus_one, itoa, returned, ◌≡◌, refl,
  arith,
}
use qnapexporter.Notifications.TagExtractor
use qnapexporter.Notifications.TagExtractor.{extract, extract_tags}
use qnapexporter.Notifications.TagExtractor.Laws.{
  bracketed, Outcome, extract-Outcome, extract-bracketed,
}
use qnapexporter.Notifications.RegionMatcher.{
  CacheEntry, RegionMatcher, region, rules, match_region, matcher_match,
}
use qnapexporter.Notifications.RegionMatcher.Cache.{window, add_all, add_all-window}
use qnapexporter.Notifications.RegionMatcher.Match.{candidates, Matched, match_region-Matched}
use qnapexporter.Notifications.RegionMatcher.Rules.{
  storage_finished, storage_started, Offers, storage-Offers,
}
use qnapexporter.Notifications.Annotator.{
  Annotator, Backend, Request, Posting, posted, reply, patch_method, annotations_url, post,
  post_trimmed, send, handle_reply, build_request, merge_tags, member, number, millis, has_key,
}
use qnapexporter.Notifications.Annotator.Requests.{body_with}
use qnapexporter.Notifications.Annotator.Tags.{firsts, Distinct, merge_tags-firsts}
use qnapexporter.Notifications.Annotator.Bounded.{bounded, Keeps, post-Keeps}
use qnapexporter.Notifications.Annotator.Regions.{post-post}

abbrev pub counselor_start : Text
counselor_start = codes "[SecurityCounselor] Started"

abbrev pub counselor_stop : Text
counselor_stop = codes "[SecurityCounselor] Finished"

abbrev empty_matcher : RegionMatcher
empty_matcher = record { cache_size = 2; cache = [] }

abbrev pub grafana : Backend
grafana = record {
  valid_url = λ url. true;
  perform = λ req. reply 200 (codes "200 OK") (some []);
  unmarshal = λ body. some (pos 5, []);
}

abbrev pub nas_annotator : Annotator
nas_annotator = record {
  grafana_url = codes "http://g";
  grafana_auth_token = codes "secret";
  tags = codes "nas" ∷ [];
  tag_extractor = TagExtractor.notification_center;
  cache = region empty_matcher;
}

abbrev started_posting : Posting
started_posting =
    post_trimmed grafana nas_annotator counselor_start (codes "Started")
      (codes "SecurityCounselor" ∷ []) 1_000_000

abbrev stopped_posting : Posting
stopped_posting =
    post_trimmed grafana started_posting.annotator counselor_stop (codes "Finished")
      (codes "SecurityCounselor" ∷ []) 5_000_000

counselor_new : match_region empty_matcher counselor_start ≡ (empty_matcher, minus_one)
unfolding match_region
counselor_new = refl

counselor_started : post grafana nas_annotator counselor_start 1_000_000 ≡ returned started_posting
unfolding post extract
counselor_started = refl

counselor_posted : started_posting.result ≡ posted (pos 5)
unfolding post_trimmed send handle_reply matcher_match match_region build_request
counselor_posted = refl

counselor_candidates : candidates rules counselor_stop ≡ counselor_start ∷ []
unfolding candidates qnapexporter.Regex.replace_all
counselor_candidates = refl

counselor_stopped :
    post grafana started_posting.annotator counselor_stop 5_000_000 ≡ returned stopped_posting
unfolding post extract post_trimmed send handle_reply matcher_match match_region
counselor_stopped = refl

post-post_example :
    (req : Request) × (trimmed : Text) × (tags : List Text) × (stopped_posting.sent ≡ some req)
    × (req.method ≡ patch_method)
    × (req.url ≡ annotations_url nas_annotator ++ (codes "/" ++ itoa (pos 5)))
    × (req.body
        ≡ body_with
            (merge_tags nas_annotator.tags tags)
            trimmed
            (member (millis 5_000_000 == 0) "timeEnd" (number (pos (millis 5_000_000)))))
    × (stopped_posting.annotator.cache ≡ region empty_matcher)
post-post_example =
    post-post grafana nas_annotator empty_matcher counselor_start counselor_stop 1_000_000 5_000_000
      started_posting stopped_posting (pos 5) [] [] refl (omega arith) (omega arith) counselor_new
      counselor_started counselor_posted (λ q. cc) refl counselor_candidates tt tt tt
      counselor_stopped

abbrev one_open : RegionMatcher
one_open = record {
  cache_size = 2;
  cache = (record { id = pos 5; annotation = counselor_start }) ∷ [];
}

match_region-Matched_example :
    Matched counselor_stop one_open
      (match_region one_open counselor_stop).0
      (match_region one_open counselor_stop).1
match_region-Matched_example = match_region-Matched one_open counselor_stop

abbrev three_entries : List CacheEntry
three_entries =
    record { id = pos 1; annotation = codes "a" }
    ∷ record { id = pos 2; annotation = codes "b" }
    ∷ record { id = pos 3; annotation = codes "c" }
    ∷ []

add_all-window_example :
    (add_all one_open three_entries).cache ≡ window 2 (one_open.cache ++ three_entries)
add_all-window_example = add_all-window one_open three_entries (omega arith)

storage-Offers_example :
    Offers
      (candidates rules (storage_finished (codes "[nas] ") (codes "creating snapshot.")))
      (storage_started (codes "[nas] ") (codes "creating snapshot."))
storage-Offers_example =
    storage-Offers (codes "[nas] ") (codes "creating snapshot.") (ground arith) (ground arith)

extract-Outcome_example : Outcome (codes "[nas] up") (extract_tags (codes "[nas] up"))
extract-Outcome_example = extract-Outcome (codes "[nas] up")

extract-bracketed_example :
    extract_tags (bracketed (codes "nas" ∷ codes "disk" ∷ []) ++ codes "up")
    ≡ returned (codes "up", codes "nas" ∷ codes "disk" ∷ [])
extract-bracketed_example =
    extract-bracketed (codes "nas" ∷ codes "disk" ∷ []) (codes "up") (ground arith)
      (λ e. absurd (omega arith))

merge_tags-firsts_example :
    (merge_tags (codes "nas" ∷ []) (codes "disk" ∷ codes "nas" ∷ [])
      ≡ firsts (codes "nas" ∷ codes "disk" ∷ codes "nas" ∷ []))
    × Distinct (merge_tags (codes "nas" ∷ []) (codes "disk" ∷ codes "nas" ∷ []))
    × ((x : Text)
        → has_key x (merge_tags (codes "nas" ∷ []) (codes "disk" ∷ codes "nas" ∷ []))
          ≡ has_key x (codes "nas" ∷ codes "disk" ∷ codes "nas" ∷ []))
merge_tags-firsts_example = merge_tags-firsts (codes "nas" ∷ []) (codes "disk" ∷ codes "nas" ∷ [])

post-Keeps_example : Keeps 2 nas_annotator started_posting.annotator
post-Keeps_example =
    post-Keeps 2 grafana nas_annotator counselor_start 1_000_000 started_posting
      (bounded empty_matcher (omega arith) refl) counselor_started
