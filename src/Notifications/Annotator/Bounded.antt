-- ===== src/Notifications/Annotator/Bounded.antt =====
-- What a call of `Post` leaves of the annotator: all but the cache, which stays bounded.
use qnapexporter.Base.{
  ℕ, true, Option, none, some, ltb, Bool-cases, Option-cases, inl, inr, Text, ℤ, int_eq, minus_one,
  List, Run, out_of_fuel, panicked, returned, ◌≡◌, refl, ◌∙◌, arith,
}
use mathlib.Core.Path.{subst}
use qnapexporter.Notifications.TagExtractor.{extract}
use qnapexporter.Notifications.RegionMatcher.{
  RegionMatcher, Matcher, no_op, region, add, match_region, matcher_add, matcher_match,
}
use qnapexporter.Notifications.RegionMatcher.Cache.{IsBounded, add-IsBounded, cache_size-add}
use qnapexporter.Notifications.RegionMatcher.Match.{length-match_region}
use qnapexporter.Notifications.Annotator.{
  Annotator, Backend, Request, Reply, no_reply, reply, Posting, build_request, handle_reply, send,
  post_trimmed, post,
}

-- A matcher of the size, with no more entries.
pub data HasSize (n : ℕ) : Matcher → Type 0 where
  forgetful : HasSize n no_op
  bounded : (c : RegionMatcher) → IsBounded c → c.cache_size ≡ n → HasSize n (region c)

matcher_add-HasSize :
    (n : ℕ) (m : Matcher) (id : ℤ) (text : Text) → HasSize n m → HasSize n (matcher_add m id text)
unfolding matcher_add
matcher_add-HasSize n _ id text forgetful = forgetful
matcher_add-HasSize n _ id text (bounded c h size) =
    bounded (add c id text) (add-IsBounded c id text h) (cache_size-add c id text ∙ size)

matcher_match-HasSize :
    (n : ℕ) (m : Matcher) (text : Text) → HasSize n m → HasSize n (matcher_match m text).0
unfolding matcher_match
matcher_match-HasSize n _ text forgetful = forgetful
matcher_match-HasSize n _ text (bounded c h size) =
    let (shorter, same) = length-match_region c text in
    bounded (match_region c text).0 (omega (arith, h)) (same ∙ size)

-- Only the cache changes, and it keeps its size.
pub record Keeps (n : ℕ) (a a' : Annotator) : Type 0 where
  pub rest : a' ≡ record a { cache = a'.cache }
  pub size : HasSize n a'.cache

handle_reply-Keeps :
    (n : ℕ) (b : Backend) (a : Annotator) (text : Text) (id : ℤ) (req : Request) (r : Reply)
    → HasSize n a.cache
    → Keeps n a (handle_reply b a text id req r).annotator
unfolding handle_reply
handle_reply-Keeps n b a text id req (no_reply e) h = record { rest = refl; size = h }
handle_reply-Keeps n b a text id req (reply status_code status body) h =
    elim (Bool-cases (ltb status_code 300)) [
      | inr refused ↦ rw (refused, handle_reply) (record { rest = refl; size = h })
      | inl fine ↦ by_body body fine
    ]
  where
    unchanged : Keeps n a a
    unchanged = record { rest = refl; size = h }

    by_body :
        (body : Option Text)
        → ltb status_code 300 ≡ true
        → Keeps n a (handle_reply b a text id req (reply status_code status body)).annotator
    by_body none fine = rw (fine, handle_reply) unchanged
    by_body (some content) fine = elim (Option-cases (b.unmarshal content)) [
      | inl bad ↦ rw (fine, handle_reply) (rw bad unchanged)
      | inr ((new_id, m), good) ↦ elim (Bool-cases (int_eq id minus_one)) [
        | inl new ↦
            rw (fine, handle_reply)
              (rw good (
                rw new
                  (record { rest = refl; size = matcher_add-HasSize n a.cache new_id text h })))
        | inr old ↦ rw (fine, handle_reply) (rw good (rw old unchanged))
      ]
    ]

send-Keeps :
    (n : ℕ) (b : Backend) (a : Annotator) (text : Text) (id : ℤ) (req : Request)
    → HasSize n a.cache
    → Keeps n a (send b a text id req).annotator
unfolding send
send-Keeps n b a text id req h = elim (Bool-cases (b.valid_url req.url)) [
  | inl valid ↦ rw (valid, send) (handle_reply-Keeps n b a text id req (b.perform req) h)
  | inr invalid ↦ rw (invalid, send) (record { rest = refl; size = h })
]

post_trimmed-Keeps :
    (n : ℕ) (b : Backend) (a : Annotator) (text trimmed : Text) (tags : List Text) (now : ℕ)
    → HasSize n a.cache
    → Keeps n a (post_trimmed b a text trimmed tags now).annotator
unfolding post_trimmed
post_trimmed-Keeps n b a text trimmed tags now h =
    let cache = (matcher_match a.cache text).0 in
    let id = (matcher_match a.cache text).1 in
    let a' = record a { cache = cache } in
    let k =
      send-Keeps n b a' text id (build_request a' trimmed tags id now)
        (matcher_match-HasSize n a.cache text h) in
    record { rest = k.rest; size = k.size }

-- A call of `Post` that returns leaves the annotator as it was but for its cache, and a cache that
-- was within its size stays within the same size, whatever the server replies.
pub post-Keeps :
    (n : ℕ) (b : Backend) (a : Annotator) (text : Text) (now : ℕ) (p : Posting)
    → HasSize n a.cache
    → post b a text now ≡ returned p
    → Keeps n a p.annotator
unfolding post
post-Keeps n b a text now p h ran = by_tags (extract a.tag_extractor text) ran
  where
    by_tags :
        (r : Run (Text × List Text))
        → ◌≡◌ {A = Run Posting}
            (elim r [
              | out_of_fuel ↦ out_of_fuel
              | panicked ↦ panicked
              | returned (trimmed, tags) ↦ returned (post_trimmed b a text trimmed tags now)
            ])
            (returned p)
        → Keeps n a p.annotator
    by_tags out_of_fuel q = absurd (cc)
    by_tags panicked q = absurd (cc)
    by_tags (returned (trimmed, tags)) q =
        let same : post_trimmed b a text trimmed tags now ≡ p = cc in
        subst (λ x. Keeps n a x.annotator) same (post_trimmed-Keeps n b a text trimmed tags now h)
