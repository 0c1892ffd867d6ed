-- ===== src/Notifications/Annotator/Overlaps/Once.antt =====
-- That no annotation is closed twice, whatever calls overlap.
use qnapexporter.Base.{
  ℕ, ◌+◌, ◌≤◌, ◌++◌, false, none, some, List, [], ◌∷◌, drop, length, ltb, if◌then◌else◌, Bool-cases,
  inl, inr, Text, ℤ, int_eq, int_eq_iff, minus_one, Run, out_of_fuel, panicked, returned, ◌≡◌, refl,
  ap, ◌∙◌, arith,
}
use mathlib.Core.Path.{subst}
use qnapexporter.Notifications.TagExtractor.{extract}
use qnapexporter.Notifications.RegionMatcher.{
  CacheEntry, Matcher, region, no_op, add, matcher_add, matcher_match, new_region_matcher,
}
use qnapexporter.Notifications.RegionMatcher.Match.{hit, miss, match_region-Matched}
use qnapexporter.Notifications.Annotator.{
  Annotator, Backend, Request, Reply, no_reply, reply, PostError, posted, failed, send,
  handle_reply, build_request,
}
use qnapexporter.Notifications.Annotator.Posted.{send-posted}
use qnapexporter.Notifications.Annotator.Overlaps.{
  InFlight, begin_post, end_post, Overlap, one, occurs, Happens, begins, opened, updated, fails,
  Overlaps, none_yet, then_happens,
}

-- How often the cache has an identifier.
entries_with : ℤ → List CacheEntry → ℕ
entries_with n [] = 0
entries_with n (e ∷ es) = one e.id n + entries_with n es

pub cached : ℤ → Matcher → ℕ
unfolding entries_with
cached n no_op = 0
cached n (region c) = entries_with n c.cache

entries_with-append :
    (n : ℤ) (xs ys : List CacheEntry)
    → entries_with n (xs ++ ys) ≡ entries_with n xs + entries_with n ys
unfolding entries_with
entries_with-append n [] ys = omega arith
entries_with-append n (x ∷ xs) ys = omega (arith, entries_with-append n xs ys)

entries_with-drop : (n : ℤ) (xs : List CacheEntry) → entries_with n (drop 1 xs) ≤ entries_with n xs
unfolding entries_with
entries_with-drop n [] = omega arith
entries_with-drop n (x ∷ xs) = omega arith

cached-add :
    (n : ℤ) (m : Matcher) (id : ℤ) (text : Text)
    → cached n (matcher_add m id text) ≤ cached n m + one id n
unfolding cached matcher_add add
cached-add n no_op id text = omega arith
cached-add n (region c) id text =
    let e : CacheEntry = record { id = id; annotation = text } in
    let all = c.cache ++ e ∷ [] in
    let size = entries_with-append n c.cache (e ∷ []) in
    let fewer = entries_with-drop n all in
    elim (Bool-cases (ltb c.cache_size (length all))) [
      | inl over ↦ rw (over, add) (omega (arith, size, fewer))
      | inr fits ↦ rw (fits, add) (omega (arith, size))
    ]

-- What `Match` takes from the cache is what it returns, if that is an identifier.
abbrev pub taken : ℤ → ℤ → ℕ
taken id n = if int_eq id minus_one then 0 else one id n

taken-one : (id n : ℤ) → taken id n ≤ one id n
taken-one id n = ground arith

cached-match :
    (n : ℤ) (m : Matcher) (text : Text)
    → cached n (matcher_match m text).0 + taken (matcher_match m text).1 n ≤ cached n m
unfolding cached matcher_match entries_with
cached-match n no_op text = omega arith
cached-match n (region c) text = elim (match_region-Matched c text) [
  | miss absent same_matcher none_found ↦ rw (same_matcher, none_found) (omega arith)
  | hit before p after older e newer f left found ↦
      rw (left, found)
        (omega (
          arith,
          taken-one e.id n,
          entries_with-append n older newer,
          entries_with-append n older (e ∷ newer),
          ap (entries_with n) f.entries,
        ))
]

-- How `begin_post` changes the cache.
begin_post-cached :
    (n : ℤ) (a a' : Annotator) (f : InFlight) (text : Text) (nanos : ℕ)
    → begin_post a text nanos ≡ returned (a', f)
    → cached n a'.cache + taken f.id n ≤ cached n a.cache
unfolding begin_post
begin_post-cached n a a' f text nanos ran = by_tags (extract a.tag_extractor text) ran
  where
    by_tags :
        (r : Run (Text × List Text))
        → ◌≡◌ {A = Run (Annotator × InFlight)}
            (elim r [
              | out_of_fuel ↦ out_of_fuel
              | panicked ↦ panicked
              | returned (trimmed, tags) ↦ returned (
                record a { cache = (matcher_match a.cache text).0 },
                record {
                  annotation = text;
                  id = (matcher_match a.cache text).1;
                  request =
                      build_request
                        (record a { cache = (matcher_match a.cache text).0 })
                        trimmed
                        tags
                        (matcher_match a.cache text).1
                        nanos;
                },
              )
            ])
            (returned (a', f))
        → cached n a'.cache + taken f.id n ≤ cached n a.cache
    by_tags out_of_fuel q = absurd (cc)
    by_tags panicked q = absurd (cc)
    by_tags (returned (trimmed, tags)) q =
        let begun : Annotator = record a { cache = (matcher_match a.cache text).0 } in
        let flight : InFlight = record {
          annotation = text;
          id = (matcher_match a.cache text).1;
          request = build_request begun trimmed tags (matcher_match a.cache text).1 nanos;
        } in
        let same_a : begun ≡ a' = cc in
        let same_f : flight ≡ f = cc in
        subst (λ x. cached n x.cache + taken f.id n ≤ cached n a.cache) same_a
          (subst (λ x. cached n begun.cache + taken x.id n ≤ cached n a.cache) same_f
            (cached-match n a.cache text))

-- And how `end_post` does.
end_post-opened :
    (n : ℤ) (b : Backend) (a : Annotator) (f : InFlight) (new_id : ℤ)
    → (end_post b a f).result ≡ posted new_id
    → cached n (end_post b a f).annotator.cache ≤ cached n a.cache + one new_id n
unfolding end_post
end_post-opened n b a f new_id h =
    rw (send-posted b a f.annotation f.id f.request new_id h)
      (elim (Bool-cases (int_eq f.id minus_one)) [
        | inl new ↦ rw new (cached-add n a.cache new_id f.annotation)
        | inr old ↦ rw old (omega arith)
      ])

end_post-updated :
    (b : Backend) (a : Annotator) (f : InFlight) (id : ℤ)
    → (end_post b a f).result ≡ posted id
    → int_eq f.id minus_one ≡ false
    → (end_post b a f).annotator ≡ a
unfolding end_post
end_post-updated b a f id h old = send-posted b a f.annotation f.id f.request id h ∙ rw old refl

handle_reply-failed :
    (b : Backend) (a : Annotator) (text : Text) (id : ℤ) (req : Request) (r : Reply) (e : PostError)
    → (handle_reply b a text id req r).result ≡ failed e
    → (handle_reply b a text id req r).annotator ≡ a
unfolding handle_reply
handle_reply-failed b a text id req (no_reply m) e h = refl
handle_reply-failed b a text id req (reply code status none) e h = ground arith
handle_reply-failed b a text id req (reply code status (some body)) e h = ground arith

end_post-fails :
    (b : Backend) (a : Annotator) (f : InFlight) (e : PostError)
    → (end_post b a f).result ≡ failed e
    → (end_post b a f).annotator ≡ a
unfolding end_post send
end_post-fails b a f e h =
    ground (arith, handle_reply-failed b a f.annotation f.id f.request (b.perform f.request) e)

occurs-closed :
    (n id : ℤ) (closed : List ℤ)
    → occurs n (if int_eq id minus_one then closed else id ∷ closed) ≡ occurs n closed + taken id n
unfolding occurs
occurs-closed n id closed = ground arith

-- The server gave the identifier at most once, and so often at least as the cache and the closed ones have it.
pub record AtMostOnce (o : Overlap) (n : ℤ) : Type 0 where
  pub known : cached n o.annotator.cache + occurs n o.closed ≤ occurs n o.issued
  pub once : occurs n o.issued ≤ 1

occurs-fresh :
    (n new_id : ℤ) (issued : List ℤ)
    → occurs new_id issued ≡ 0
    → occurs n issued ≤ 1
    → one new_id n + occurs n issued ≤ 1
occurs-fresh n new_id issued fresh h = elim (Bool-cases (int_eq new_id n)) [
  | inl same_id ↦
      let eq : new_id ≡ n = (int_eq_iff new_id n).0 same_id in
      rw same_id (omega (arith, ap (λ k. occurs k issued) eq, fresh))
  | inr other ↦ rw other (omega (arith, h))
]

Happens-AtMostOnce : {o o' : Overlap} (n : ℤ) → Happens o o' → AtMostOnce o n → AtMostOnce o' n
unfolding occurs
Happens-AtMostOnce {o} n (begins annotation nanos a f begun) h = record {
  known = omega (
    arith,
    h.known,
    occurs-closed n f.id o.closed,
    begin_post-cached n o.annotator a f annotation nanos begun,
  );
  once = h.once;
}
Happens-AtMostOnce {o} n (opened b before after f new_id waits answered new fresh) h = record {
  known = omega (arith, h.known, end_post-opened n b o.annotator f new_id answered);
  once = occurs-fresh n new_id o.issued fresh h.once;
}
Happens-AtMostOnce {o} n (updated b before after f id waits answered old) h = record {
  known = rw (end_post-updated b o.annotator f id answered old) h.known;
  once = h.once;
}
Happens-AtMostOnce {o} n (fails b before after f e waits answered) h = record {
  known = rw (end_post-fails b o.annotator f e answered) h.known;
  once = h.once;
}

-- Calls of `Post` may overlap while they wait for the server, but `Match` and `Add` each run
-- without another call in between, which the source does not make sure of, since it locks
-- nothing. However such calls overlap, from an empty cache on, and whatever else the server
-- replies, if it gives each new annotation an identifier of its own: for every identifier, the
-- entries of the cache that have it and the calls that set out to close it are together no more
-- than the annotations that got it, of which there is at most one.
pub Overlaps-AtMostOnce : {a : Annotator} {o : Overlap} (n : ℤ) → Overlaps a o → AtMostOnce o n
unfolding occurs cached entries_with new_region_matcher
Overlaps-AtMostOnce n (none_yet size) = record { known = omega arith; once = omega arith }
Overlaps-AtMostOnce n (then_happens run happens) =
    Happens-AtMostOnce n happens (Overlaps-AtMostOnce n run)
