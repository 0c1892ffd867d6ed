-- ===== src/Notifications/Annotator/Requests.antt =====
-- The request that `Post` sends, and what a failure leaves.
use qnapexporter.Base.{
  ℕ, ◌++◌, ◌==◌, false, List, is_empty, Text, codes, ℤ, pos, int_eq, int_eq_iff, minus_one, itoa,
  ◌≡◌, ◌≢◌, refl, arith,
}
use qnapexporter.Notifications.Annotator.{
  Annotator, post_method, patch_method, Json, member, string, strings, number, is_nil, merge_tags,
  json_members, build_request, annotations_url, millis,
}

-- The members of every request: its tags and its text, where they are not empty, and one of the
-- times between them.
abbrev pub body_with : List Text → Text → List (Text × Json) → List (Text × Json)
body_with tags text time =
    member (is_nil tags) "tags" (strings tags)
    ++ (time ++ member (is_empty text) "text" (string text))

build_request-new :
    (a : Annotator) (trimmed : Text) (tags : List Text) (nanos : ℕ)
    → let t = millis nanos in
      let r = build_request a trimmed tags minus_one nanos in
      (r.method ≡ post_method)
      × (r.url ≡ annotations_url a)
      × (r.body
          ≡ body_with (merge_tags a.tags tags) trimmed (member (t == 0) "time" (number (pos t))))
unfolding build_request json_members
build_request-new a trimmed tags nanos = (refl, refl, ground arith)

pub build_request-found :
    (a : Annotator) (trimmed : Text) (tags : List Text) (id : ℤ) (nanos : ℕ)
    → id ≢ minus_one
    → let t = millis nanos in
      let r = build_request a trimmed tags id nanos in
      (r.method ≡ patch_method)
      × (r.url ≡ annotations_url a ++ (codes "/" ++ itoa id))
      × (r.body
          ≡ body_with (merge_tags a.tags tags) trimmed (member (t == 0) "timeEnd" (number (pos t))))
unfolding build_request json_members
build_request-found a trimmed tags id nanos h =
    let other : int_eq id minus_one ≡ false = ground (arith, (int_eq_iff id minus_one).0, h) in
    rw other (refl, refl, refl)
