-- ===== src/Notifications/Annotator.antt =====
-- lib/notifications/annotator.go: `Post` and `mergeTags`. The HTTP client, the parsing of URLs and
-- the decoding of the reply's JSON are the parameters `Backend`. `json.Marshal` cannot fail on the
-- annotation, whose fields are numbers and strings; the request keeps the members that it writes.
-- What is logged is left out.
pub mod Tags
pub mod Requests
pub mod Posted
pub mod Regions
pub mod Bounded
pub mod Overlaps
use Prim.Native.String.{String}
use qnapexporter.Base.{
  ℕ, ◌++◌, ◌/◌, Bool, true, false, Option, none, some, List, [], ◌∷◌, ltb, ◌==◌, if◌then◌else◌,
  same, ◌||◌, is_empty, Text, codes, ℤ, pos, int_eq, minus_one, itoa, Run, out_of_fuel, panicked,
  returned, ◌≡◌, refl,
}
use qnapexporter.Notifications.RegionMatcher.{Matcher, matcher_add, matcher_match}
use qnapexporter.Notifications.RegionMatcher
use qnapexporter.Notifications.TagExtractor.{TagExtractor, extract}
use qnapexporter.Notifications.TagExtractor

pub record GrafanaAnnotation : Type 0 where
  pub id : ℤ
  pub tags : List Text
  pub time : ℕ
  pub time_end : ℕ
  pub text : Text

-- A value of a member of a JSON object.
pub data Json : Type 0 where
  number : ℤ → Json
  string : Text → Json
  strings : List Text → Json

abbrev pub member : Bool → String → Json → List (Text × Json)
member true name value = []
member false name value = (codes name, value) ∷ []

abbrev pub is_nil {ℓ} : {A : Type ℓ} → List A → Bool
is_nil [] = true
is_nil (x ∷ xs) = false

-- The members that `omitempty` leaves, in the order of the fields.
unfoldable pub json_members : GrafanaAnnotation → List (Text × Json)
json_members ga =
    member (int_eq ga.id (pos 0)) "id" (number ga.id)
    ++ (member (is_nil ga.tags) "tags" (strings ga.tags)
        ++ (member (ga.time == 0) "time" (number (pos ga.time))
            ++ (member (ga.time_end == 0) "timeEnd" (number (pos ga.time_end))
                ++ member (is_empty ga.text) "text" (string ga.text))))

pub data Method : Type 0 where
  post_method patch_method : Method

pub record Request : Type 0 where
  pub method : Method
  pub url : Text
  pub headers : List (Text × Text)
  pub body : List (Text × Json)

-- What `client.Do` returns. The body is `none` where reading it fails.
pub data Reply : Type 0 where
  no_reply : Text → Reply
  reply : ℕ → Text → Option Text → Reply

pub record Backend : Type 0 where
  -- whether `http.NewRequest` accepts the URL
  pub valid_url : Text → Bool
  pub perform : Request → Reply
  -- the `id` and `message` of the reply, or an error
  pub unmarshal : Text → Option (ℤ × Text)

pub data PostError : Type 0 where
  bad_request read_failed unmarshal_failed : PostError
  do_failed : Text → PostError
  bad_status : Text → ℕ → Text → PostError

-- The two results of `Post`: an identifier, or -1 and an error.
pub data PostResult : Type 0 where
  posted : ℤ → PostResult
  failed : PostError → PostResult

pub record Annotator : Type 0 where
  pub grafana_url : Text
  pub grafana_auth_token : Text
  pub tags : List Text
  pub tag_extractor : TagExtractor
  pub cache : Matcher

-- `if len(tags) == 1 && tags[0] == "" { tags = nil }`
unfoldable pub clean_tags : List Text → List Text
clean_tags ([] ∷ []) = []
clean_tags tags = tags

unfoldable pub new_simple_annotator : Text → Text → List Text → Annotator
unfolding clean_tags
new_simple_annotator url token tags = record {
  grafana_url = url;
  grafana_auth_token = token;
  tags = clean_tags tags;
  tag_extractor = TagExtractor.no_op;
  cache = Matcher.no_op;
}

unfoldable pub new_region_matching_annotator :
    Text → Text → List Text → TagExtractor → Matcher → Annotator
unfolding clean_tags
new_region_matching_annotator url token tags tag_extractor cache = record {
  grafana_url = url;
  grafana_auth_token = token;
  tags = clean_tags tags;
  tag_extractor = tag_extractor;
  cache = cache;
}

-- `_, value := keys[entry]`
abbrev pub has_key : Text → List Text → Bool
has_key entry [] = false
has_key entry (k ∷ keys) = same k entry || has_key entry keys

merge_loop : List Text → List Text → List Text → List Text
merge_loop keys list [] = list
merge_loop keys list (entry ∷ entries) = elim (has_key entry keys) [
  | true ↦ merge_loop keys list entries
  | false ↦ merge_loop (entry ∷ keys) (list ++ entry ∷ []) entries
]

unfoldable pub merge_tags : List Text → List Text → List Text
unfolding merge_loop
merge_tags t1 t2 = merge_loop [] [] (t1 ++ t2)

-- `time.UnixNano() / 1000000`
abbrev pub millis : ℕ → ℕ
millis nanos = nanos / 1_000_000

abbrev pub annotations_url : Annotator → Text
annotations_url a = a.grafana_url ++ codes "/api/annotations"

-- The request for a text without its tags, for the identifier that `Match` returned.
unfoldable pub build_request : Annotator → Text → List Text → ℤ → ℕ → Request
unfolding json_members merge_tags itoa
build_request a trimmed annotation_tags id nanos =
    let ga : GrafanaAnnotation = record {
      id = pos 0;
      tags = merge_tags a.tags annotation_tags;
      time = millis nanos;
      time_end = 0;
      text = trimmed;
    } in
    let headers =
      (codes "Content-Type", codes "application/json")
      ∷ (if is_empty a.grafana_auth_token
          then []
          else (codes "Authorization", codes "Bearer " ++ a.grafana_auth_token) ∷ []) in
    if int_eq id minus_one
    then record {
      method = post_method;
      url = annotations_url a;
      headers = headers;
      body = json_members ga;
    }
    else record {
      method = patch_method;
      url = annotations_url a ++ (codes "/" ++ itoa id);
      headers = headers;
      body = json_members (record ga { time = 0; time_end = millis nanos });
    }

-- What a call of `Post` leaves: the annotator, the request that was sent, and the result.
pub record Posting : Type 0 where
  pub annotator : Annotator
  pub sent : Option Request
  pub result : PostResult

-- The part of `Post` behind `client.Do`.
unfoldable pub handle_reply : Backend → Annotator → Text → ℤ → Request → Reply → Posting
handle_reply b a annotation id req (no_reply e) = record {
  annotator = a;
  sent = some req;
  result = failed (do_failed e);
}
handle_reply b a annotation id req (reply status_code status body) =
    if ltb status_code 300
    then (elim body [
      | none ↦ record { annotator = a; sent = some req; result = failed read_failed }
      | some content ↦ elim (b.unmarshal content) [
        | none ↦ record { annotator = a; sent = some req; result = failed unmarshal_failed }
        | some (new_id, message) ↦ record {
          annotator =
              if int_eq id minus_one
              then record a { cache = matcher_add a.cache new_id annotation }
              else a;
          sent = some req;
          result = posted new_id;
        }
      ]
    ])
    else record {
      annotator = a;
      sent = some req;
      result = failed (bad_status req.url status_code status);
    }

-- `Post` from `http.NewRequest` on.
unfoldable pub send : Backend → Annotator → Text → ℤ → Request → Posting
send b a annotation id req =
    if b.valid_url req.url
    then handle_reply b a annotation id req (b.perform req)
    else record { annotator = a; sent = none; result = failed bad_request }

-- `Post` behind the extraction of the tags.
unfoldable pub post_trimmed : Backend → Annotator → Text → Text → List Text → ℕ → Posting
post_trimmed b a annotation trimmed annotation_tags nanos =
    let (cache, id) = matcher_match a.cache annotation in
    let a' = record a { cache = cache } in
    send b a' annotation id (build_request a' trimmed annotation_tags id nanos)

-- `Post`. A text that makes the tag extractor panic makes it panic.
unfoldable pub post : Backend → Annotator → Text → ℕ → Run Posting
post b a annotation nanos = elim (extract a.tag_extractor annotation) [
  | out_of_fuel ↦ out_of_fuel
  | panicked ↦ panicked
  | returned (trimmed, annotation_tags) ↦
      returned (post_trimmed b a annotation trimmed annotation_tags nanos)
]

merge_example :
    merge_tags (codes "tag1" ∷ codes "tag2" ∷ []) (codes "tag2" ∷ codes "tag3" ∷ [])
    ≡ codes "tag1" ∷ codes "tag2" ∷ codes "tag3" ∷ []
unfolding merge_tags
merge_example = refl
