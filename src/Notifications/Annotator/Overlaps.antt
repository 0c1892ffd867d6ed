-- ===== src/Notifications/Annotator/Overlaps.antt =====
-- Calls of `Post` that overlap, as package net/http runs the handlers of requests side by side. A call is
-- cut where it waits for the server: it begins with `Match` and ends with the reply and `Add`. That
-- `Match` and `Add` each run as a whole is an assumption: the source locks nothing.
pub mod Once
use qnapexporter.Base.{
  ℕ, ◌+◌, ◌++◌, true, false, List, [], ◌∷◌, if◌then◌else◌, Text, ℤ, int_eq, minus_one, Run,
  out_of_fuel, panicked, returned, ◌≡◌, refl,
}
use qnapexporter.Notifications.TagExtractor.{extract}
use qnapexporter.Notifications.RegionMatcher.{region, matcher_match, new_region_matcher}
use qnapexporter.Notifications.Annotator.{
  Annotator, Backend, Request, Posting, posted, failed, PostError, send, build_request, post,
  post_trimmed,
}

-- A call that waits for its reply: its text, what `Match` returned, and the request.
pub record InFlight : Type 0 where
  pub annotation : Text
  pub id : ℤ
  pub request : Request

-- `Post` up to the request
unfoldable pub begin_post : Annotator → Text → ℕ → Run (Annotator × InFlight)
begin_post a annotation nanos = elim (extract a.tag_extractor annotation) [
  | out_of_fuel ↦ out_of_fuel
  | panicked ↦ panicked
  | returned (trimmed, annotation_tags) ↦
      let (cache, id) = matcher_match a.cache annotation in
      let a' = record a { cache = cache } in
      returned (
        a',
        record {
          annotation = annotation;
          id = id;
          request = build_request a' trimmed annotation_tags id nanos;
        },
      )
]

-- And from it on, with the annotator as it is by then
unfoldable pub end_post : Backend → Annotator → InFlight → Posting
end_post b a f = send b a f.annotation f.id f.request

-- A call that none overlaps is `Post`.
pub end_post-begin_post :
    (b : Backend) (a : Annotator) (annotation : Text) (nanos : ℕ)
    → post b a annotation nanos ≡ (elim (begin_post a annotation nanos) [
      | out_of_fuel ↦ out_of_fuel
      | panicked ↦ panicked
      | returned (a', f) ↦ returned (end_post b a' f)
    ])
unfolding post begin_post end_post post_trimmed
end_post-begin_post b a annotation nanos = by_tags (extract a.tag_extractor annotation)
  where
    by_tags :
        (r : Run (Text × List Text))
        → ◌≡◌ {A = Run Posting}
            (elim r [
              | out_of_fuel ↦ out_of_fuel
              | panicked ↦ panicked
              | returned (trimmed, tags) ↦ returned (post_trimmed b a annotation trimmed tags nanos)
            ])
            (elim (elim r as (λ x. Run (Annotator × InFlight)) [
              | out_of_fuel ↦ out_of_fuel
              | panicked ↦ panicked
              | returned (trimmed, annotation_tags) ↦
                  let (cache, id) = matcher_match a.cache annotation in
                  let a' = record a { cache = cache } in
                  returned (
                    a',
                    record {
                      annotation = annotation;
                      id = id;
                      request = build_request a' trimmed annotation_tags id nanos;
                    },
                  )
            ]) [
              | out_of_fuel ↦ out_of_fuel
              | panicked ↦ panicked
              | returned (a', f) ↦ returned (end_post b a' f)
            ])
    by_tags out_of_fuel = refl
    by_tags panicked = refl
    by_tags (returned (trimmed, tags)) = refl

-- The annotator with the calls that wait, the identifiers that the server gave to new annotations, and
-- those of the annotations that calls set out to close, the last first.
pub record Overlap : Type 0 where
  pub annotator : Annotator
  pub waiting : List InFlight
  pub issued : List ℤ
  pub closed : List ℤ

-- How often an identifier stands in a list.
abbrev pub one : ℤ → ℤ → ℕ
one k n = if int_eq k n then 1 else 0

unfoldable pub occurs : ℤ → List ℤ → ℕ
occurs n [] = 0
occurs n (k ∷ ks) = one k n + occurs n ks

pub data Happens (o : Overlap) : Overlap → Type 0 where
  begins :
      (annotation : Text) (nanos : ℕ) (a : Annotator) (f : InFlight)
      → begin_post o.annotator annotation nanos ≡ returned (a, f)
      → Happens o (record o {
        annotator = a;
        waiting = f ∷ o.waiting;
        closed = if int_eq f.id minus_one then o.closed else f.id ∷ o.closed;
      })
  -- the server gives a new annotation an identifier that it has not given before
  opened :
      (b : Backend) (before after : List InFlight) (f : InFlight) (new_id : ℤ)
      → o.waiting ≡ before ++ f ∷ after
      → (end_post b o.annotator f).result ≡ posted new_id
      → int_eq f.id minus_one ≡ true
      → occurs new_id o.issued ≡ 0
      → Happens o (record o {
        annotator = (end_post b o.annotator f).annotator;
        waiting = before ++ after;
        issued = new_id ∷ o.issued;
      })
  updated :
      (b : Backend) (before after : List InFlight) (f : InFlight) (id : ℤ)
      → o.waiting ≡ before ++ f ∷ after
      → (end_post b o.annotator f).result ≡ posted id
      → int_eq f.id minus_one ≡ false
      → Happens o
          (record o { annotator = (end_post b o.annotator f).annotator; waiting = before ++ after })
  fails :
      (b : Backend) (before after : List InFlight) (f : InFlight) (e : PostError)
      → o.waiting ≡ before ++ f ∷ after
      → (end_post b o.annotator f).result ≡ failed e
      → Happens o
          (record o { annotator = (end_post b o.annotator f).annotator; waiting = before ++ after })

-- What overlapping calls can come to, from an annotator whose cache is empty.
pub data Overlaps (a : Annotator) : Overlap → Type 0 where
  none_yet :
      (size : ℕ)
      → Overlaps a (record {
        annotator = record a { cache = region (new_region_matcher size) };
        waiting = [];
        issued = [];
        closed = [];
      })
  then_happens : {o o' : Overlap} → Overlaps a o → Happens o o' → Overlaps a o'
