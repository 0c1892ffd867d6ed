-- ===== src/Notifications/Tests/Overlapping.antt =====
-- The theorem about overlapping calls of `Post` at a concrete input: the end of a task is posted while the server
-- has not replied to its start, so that it opens an annotation of its own.
use qnapexporter.Base.{ℕ, some, [], ◌∷◌, Text, codes, pos, minus_one, returned, ◌≡◌, refl, arith}
use qnapexporter.Notifications.TagExtractor.{extract}
use qnapexporter.Notifications.RegionMatcher.{
  region, new_region_matcher, matcher_match, match_region,
}
use qnapexporter.Notifications.Annotator.{
  Annotator, Backend, posted, build_request, send, handle_reply,
}
use qnapexporter.Notifications.Annotator.Overlaps.{
  InFlight, begin_post, end_post, Overlap, occurs, Overlaps, none_yet, then_happens, begins, opened,
}
use qnapexporter.Notifications.Annotator.Overlaps.Once.{AtMostOnce, Overlaps-AtMostOnce}
use qnapexporter.Notifications.Tests.{counselor_start, counselor_stop, grafana, nas_annotator}

abbrev empty_annotator : Annotator
empty_annotator = record nas_annotator { cache = region (new_region_matcher 2) }

abbrev new_flight : Text → Text → ℕ → InFlight
new_flight text trimmed nanos = record {
  annotation = text;
  id = minus_one;
  request = build_request empty_annotator trimmed (codes "SecurityCounselor" ∷ []) minus_one nanos;
}

abbrev start_flight : InFlight
start_flight = new_flight counselor_start (codes "Started") 1_000_000

abbrev stop_flight : InFlight
stop_flight = new_flight counselor_stop (codes "Finished") 2_000_000

start_begun :
    begin_post empty_annotator counselor_start 1_000_000 ≡ returned (empty_annotator, start_flight)
unfolding begin_post extract matcher_match match_region new_region_matcher
start_begun = refl

stop_begun :
    begin_post empty_annotator counselor_stop 2_000_000 ≡ returned (empty_annotator, stop_flight)
unfolding begin_post extract matcher_match match_region new_region_matcher
stop_begun = refl

abbrev both_waiting : Overlap
both_waiting = record {
  annotator = empty_annotator;
  waiting = stop_flight ∷ start_flight ∷ [];
  issued = [];
  closed = [];
}

abbrev start_opened : Overlap
start_opened = record both_waiting {
  annotator = (end_post grafana empty_annotator start_flight).annotator;
  waiting = stop_flight ∷ [];
  issued = pos 5 ∷ [];
}

abbrev later_grafana : Backend
later_grafana = record grafana { unmarshal = λ body. some (pos 6, []) }

abbrev both_opened : Overlap
both_opened = record start_opened {
  annotator = (end_post later_grafana start_opened.annotator stop_flight).annotator;
  waiting = [];
  issued = pos 6 ∷ pos 5 ∷ [];
}

start_answered : (end_post grafana empty_annotator start_flight).result ≡ posted (pos 5)
unfolding end_post send handle_reply build_request
start_answered = refl

stop_answered : (end_post later_grafana start_opened.annotator stop_flight).result ≡ posted (pos 6)
unfolding end_post send handle_reply build_request
stop_answered = refl

both_waiting-Overlaps : Overlaps nas_annotator both_waiting
both_waiting-Overlaps =
    then_happens
      (then_happens (none_yet 2)
        (begins counselor_start 1_000_000 empty_annotator start_flight start_begun))
      (begins counselor_stop 2_000_000 empty_annotator stop_flight stop_begun)

both_opened-Overlaps : Overlaps nas_annotator both_opened
unfolding occurs
both_opened-Overlaps =
    then_happens
      (then_happens both_waiting-Overlaps
        (opened grafana (stop_flight ∷ []) [] start_flight (pos 5) refl start_answered refl refl))
      (opened later_grafana [] [] stop_flight (pos 6) refl stop_answered refl (ground arith))

Overlaps-AtMostOnce_example : AtMostOnce both_opened (pos 5)
Overlaps-AtMostOnce_example = Overlaps-AtMostOnce (pos 5) both_opened-Overlaps
