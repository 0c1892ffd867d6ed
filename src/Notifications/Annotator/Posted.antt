-- ===== src/Notifications/Annotator/Posted.antt =====
-- What a call of `Post` with a region matcher comes to.
use qnapexporter.Base.{
  ℕ, true, false, none, some, List, if◌then◌else◌, Text, ℤ, int_eq, int_eq_iff, minus_one, Run,
  returned, ◌≡◌, ◌≢◌, refl, ap, sym, ◌∙◌, arith,
}
use qnapexporter.Notifications.RegionMatcher.{
  RegionMatcher, region, add, match_region, matcher_add, matcher_match,
}
use qnapexporter.Notifications.TagExtractor.{extract}
use qnapexporter.Notifications.Annotator.{
  Annotator, Backend, Request, Posting, Reply, no_reply, reply, posted, handle_reply, send,
  post_trimmed, post, build_request,
}

-- What a `Post` that succeeded did: the reply was read, and a new annotation is cached.
handle_reply-posted :
    (b : Backend) (a : Annotator) (annotation : Text) (id : ℤ) (req : Request) (r : Reply)
    (new_id : ℤ)
    → (handle_reply b a annotation id req r).result ≡ posted new_id
    → (handle_reply b a annotation id req r).annotator ≡ (
        if int_eq id minus_one
        then record a { cache = matcher_add a.cache new_id annotation }
        else a)
unfolding handle_reply
handle_reply-posted b a annotation id req (no_reply e) new_id h = cc
handle_reply-posted b a annotation id req (reply code status none) new_id h = ground arith
handle_reply-posted b a annotation id req (reply code status (some body)) new_id h = ground arith

pub send-posted :
    (b : Backend) (a : Annotator) (annotation : Text) (id : ℤ) (req : Request) (new_id : ℤ)
    → (send b a annotation id req).result ≡ posted new_id
    → (send b a annotation id req).annotator ≡ (
        if int_eq id minus_one
        then record a { cache = matcher_add a.cache new_id annotation }
        else a)
unfolding send
send-posted b a annotation id req new_id h =
    ground (arith, handle_reply-posted b a annotation id req (b.perform req) new_id)

-- A call that returns went through the part behind the tag extractor.
module _ (b : Backend) (a : Annotator) (annotation : Text) (nanos : ℕ) (p : Posting) where
  pub returned_from :
      (r : Run (Text × List Text))
      → extract a.tag_extractor annotation ≡ r
      → post b a annotation nanos ≡ returned p
      → (trimmed : Text) × (tags : List Text) × (p ≡ post_trimmed b a annotation trimmed tags nanos)
  unfolding post
  returned_from Run.out_of_fuel e h = absurd (unfold post in ground (arith, e, h))
  returned_from Run.panicked e h = absurd (unfold post in ground (arith, e, h))
  returned_from (returned (trimmed, tags)) e h =
      (trimmed, tags, unfold post in ground (arith, e, h))

-- `Post` on a region matcher, by what `Match` returns.
pub post_trimmed-region :
    (b : Backend) (a : Annotator) (c c' : RegionMatcher) (annotation trimmed : Text)
    (tags : List Text) (nanos : ℕ) (id : ℤ)
    → a.cache ≡ region c
    → match_region c annotation ≡ (c', id)
    → let a' = record a { cache = region c' } in
      post_trimmed b a annotation trimmed tags nanos
      ≡ send b a' annotation id (build_request a' trimmed tags id nanos)
unfolding post_trimmed matcher_match
post_trimmed-region b a c c' annotation trimmed tags nanos id cached found =
    rw (cached, post_trimmed, matcher_match) (rw found)

pub post-posted :
    (b : Backend) (a : Annotator) (c : RegionMatcher) (annotation : Text) (nanos : ℕ) (p : Posting)
    (id : ℤ)
    → a.cache ≡ region c
    → match_region c annotation ≡ (c, minus_one)
    → post b a annotation nanos ≡ returned p
    → p.result ≡ posted id
    → p.annotator ≡ record a { cache = region (add c id annotation) }
unfolding matcher_add
post-posted b a c annotation nanos p id cached no_region ran ok =
    let (trimmed, tags, e) = returned_from b a annotation nanos p _ refl ran in
    let sent =
      e ∙ post_trimmed-region b a c c annotation trimmed tags nanos minus_one cached no_region in
    let a' = record a { cache = region c } in
    let req = build_request a' trimmed tags minus_one nanos in
    ap (λ q. q.annotator) sent
    ∙ send-posted b a' annotation minus_one req id (sym (ap (λ q. q.result) sent) ∙ ok)

handle_reply-found :
    (b : Backend) (a : Annotator) (annotation : Text) (id : ℤ) (req : Request) (r : Reply)
    → int_eq id minus_one ≡ false
    → ((handle_reply b a annotation id req r).annotator ≡ a)
      × ((handle_reply b a annotation id req r).sent ≡ some req)
unfolding handle_reply
handle_reply-found b a annotation id req (no_reply e) h = (refl, refl)
handle_reply-found b a annotation id req (reply code status none) h = ground arith
handle_reply-found b a annotation id req (reply code status (some body)) h = ground arith

-- For an annotation that was found `Post` sends its request and keeps what `Match` left.
pub send-found :
    (b : Backend) (a : Annotator) (annotation : Text) (id : ℤ) (req : Request)
    → id ≢ minus_one
    → b.valid_url req.url ≡ true
    → ((send b a annotation id req).annotator ≡ a) × ((send b a annotation id req).sent ≡ some req)
unfolding send
send-found b a annotation id req h valid = rw valid (by_reply (b.perform req))
  where
    other : int_eq id minus_one ≡ false
    other = ground (arith, (int_eq_iff id minus_one).0, h)

    by_reply :
        (r : Reply)
        → ((handle_reply b a annotation id req r).annotator ≡ a)
          × ((handle_reply b a annotation id req r).sent ≡ some req)
    by_reply r = handle_reply-found b a annotation id req r other
