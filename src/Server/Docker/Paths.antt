-- ===== src/Server/Docker/Paths.antt =====
-- Runs of the loop over Docker's events with the annotator that main.go gives it.
use qnapexporter.Base.{
  suc, Option, none, some, List, [], ◌∷◌, map, if◌then◌else◌, Text, codes, Bool-cases, inl, inr,
  Run, returned, minus_one, ◌≡◌, refl, ap, sym, ◌∙◌, arith,
}
use qnapexporter.Notifications.TagExtractor.{extract}
use qnapexporter.Notifications.RegionMatcher.{matcher_match, matcher_add}
use qnapexporter.Notifications.Annotator.{
  Annotator, Backend, Posting, Request, Reply, no_reply, reply, post, post_trimmed, send,
  handle_reply, build_request, new_simple_annotator,
}
use qnapexporter.Server.Docker.Runs.{run_loop}
use qnapexporter.Server.Docker.Arrivals.{
  taken, taken-ended, reconnections, reconnections-ended, repeated, repeated-cons,
}
use qnapexporter.Server.Docker.{
  Message, Arrival, error, message, ten_seconds, cancelled, Phase, selecting, waiting, ended,
  EventsListOptions, docker_events, Loop, step, start_loop, message_text,
}

ap_annotator :
    {l l' : Loop} {p p' : Option Posting}
    → ◌≡◌ {A = Run (Loop × Option Posting)} (returned (l, p)) (returned (l', p'))
    → l'.annotator ≡ l.annotator
ap_annotator {l} {l'} q = let same : l ≡ l' = cc in ap (λ x. x.annotator) (sym same)

module _ (b : Backend) (url token : Text) (tags : List Text) where
  abbrev docker_annotator : Annotator
  unfolding new_simple_annotator
  docker_annotator = new_simple_annotator url token tags

  -- The request for a message, if the URL is one.
  pub request_for : Message → Option Request
  unfolding docker_annotator
  request_for m =
      let req = build_request docker_annotator (message_text m) [] minus_one m.time_nano in
      if b.valid_url req.url then some req else none

  handle_reply-simple :
      (text : Text) (req : Request) (r : Reply)
      → let p = handle_reply b docker_annotator text minus_one req r in
        (p.annotator ≡ docker_annotator) × (p.sent ≡ some req)
  unfolding handle_reply docker_annotator matcher_add
  handle_reply-simple text req (no_reply e) = (refl, refl)
  handle_reply-simple text req (reply status_code status body) = ground arith

  post-simple :
      (m : Message)
      → (p : Posting) × (post b docker_annotator (message_text m) m.time_nano ≡ returned p)
        × (p.annotator ≡ docker_annotator)
        × (p.sent ≡ request_for m)
  unfolding post extract post_trimmed matcher_match send request_for docker_annotator
  post-simple m =
      let req = build_request docker_annotator (message_text m) [] minus_one m.time_nano in
      let p = post_trimmed b docker_annotator (message_text m) (message_text m) [] m.time_nano in
      elim (Bool-cases (b.valid_url req.url)) [
        | inl valid ↦
            let (same, sent) = handle_reply-simple (message_text m) req (b.perform req) in
            (p, refl, rw valid same, rw valid sent)
        | inr invalid ↦ (p, refl, rw invalid refl, rw invalid refl)
      ]

  abbrev loop_at : Phase → Text → List EventsListOptions → Loop
  loop_at phase docker streams = record {
    phase = phase;
    docker = docker;
    annotator = docker_annotator;
    streams = streams;
  }

  -- A run does not panic, and posts what the phases take.
  record Ran (phase : Phase) (docker : Text) (streams : List EventsListOptions) (xs : List Arrival)
      : Type 0 where
    loop : Loop
    postings : List Posting
    ran : run_loop b (loop_at phase docker streams) xs ≡ returned (loop, postings)
    same : loop.annotator ≡ docker_annotator
    sent : map (λ p. p.sent) postings ≡ map request_for (taken phase xs)
    asked : loop.streams ≡ repeated (reconnections phase xs) streams

  -- A step that posts nothing.
  quiet :
      (phase phase' : Phase) (docker docker' : Text) (streams streams' : List EventsListOptions)
      (x : Arrival) (xs : List Arrival)
      → step b (loop_at phase docker streams) x ≡ returned (loop_at phase' docker' streams', none)
      → taken phase (x ∷ xs) ≡ taken phase' xs
      → repeated (reconnections phase' xs) streams'
        ≡ repeated (reconnections phase (x ∷ xs)) streams
      → Ran phase' docker' streams' xs
      → Ran phase docker streams (x ∷ xs)
  unfolding run_loop
  quiet phase phase' docker docker' streams streams' x xs stepped same_taken same_asked r = record {
    loop = r.loop;
    postings = r.postings;
    ran = rw (stepped, run_loop) (rw r.ran refl);
    same = r.same;
    sent = rw same_taken r.sent;
    asked = r.asked ∙ same_asked;
  }

  run_all :
      (phase : Phase) (docker : Text) (streams : List EventsListOptions) (xs : List Arrival)
      → Ran phase docker streams xs
  unfolding run_loop taken reconnections repeated step
  run_all phase docker streams [] = record {
    loop = loop_at phase docker streams;
    postings = [];
    ran = refl;
    same = refl;
    sent = refl;
    asked = refl;
  }
  run_all ended docker streams (x ∷ xs) =
      quiet ended ended docker docker streams streams x xs refl (sym (taken-ended xs))
        (ap (λ n. repeated n streams) (reconnections-ended xs)) (run_all ended docker streams xs)
  run_all waiting docker streams (ten_seconds ∷ xs) =
      quiet waiting selecting docker (codes "Waiting for events") streams (docker_events ∷ streams)
        ten_seconds xs refl refl (repeated-cons (reconnections selecting xs) streams)
        (run_all selecting (codes "Waiting for events") (docker_events ∷ streams) xs)
  run_all waiting docker streams (cancelled ∷ xs) =
      quiet waiting selecting docker docker streams streams cancelled xs refl refl refl
        (run_all selecting docker streams xs)
  run_all waiting docker streams (error e ∷ xs) =
      quiet waiting waiting docker docker streams streams (error e) xs refl refl refl
        (run_all waiting docker streams xs)
  run_all waiting docker streams (message m ∷ xs) =
      quiet waiting waiting docker docker streams streams (message m) xs refl refl refl
        (run_all waiting docker streams xs)
  run_all selecting docker streams (error none ∷ xs) =
      quiet selecting selecting docker docker streams streams (error none) xs refl refl refl
        (run_all selecting docker streams xs)
  run_all selecting docker streams (error (some e) ∷ xs) =
      quiet selecting waiting docker e streams streams (error (some e)) xs refl refl refl
        (run_all waiting e streams xs)
  run_all selecting docker streams (ten_seconds ∷ xs) =
      quiet selecting selecting docker docker streams streams ten_seconds xs refl refl refl
        (run_all selecting docker streams xs)
  run_all selecting docker streams (cancelled ∷ xs) =
      quiet selecting ended docker (codes "Done") streams streams cancelled xs refl refl refl
        (run_all ended (codes "Done") streams xs)
  run_all selecting docker streams (message m ∷ xs) =
      let (p, posted, same, sent) = post-simple m in
      let rest = run_all selecting (message_text m) streams xs in
      let stepped : step b (loop_at selecting docker streams) (message m)
          ≡ returned (loop_at selecting (message_text m) streams, some p) =
        rw (posted, step) (rw same refl) in
      record {
        loop = rest.loop;
        postings = p ∷ rest.postings;
        ran = rw (stepped, run_loop) (rw rest.ran refl);
        same = rest.same;
        sent = rw (sent, rest.sent) refl;
        asked = rest.asked;
      }

  -- With the simple annotator, a run of the loop over any arrivals returns, and the requests that it
  -- sends are those for the messages that find the loop at its `select`, in order and each once; the
  -- annotator stays as it is. Each time it connects, at first and ten seconds after each error unless it
  -- is cancelled, it asks Docker for the events of the last hour, with the same filters.
  pub run_loop-taken :
      (xs : List Arrival)
      → (loop : Loop) × (postings : List Posting) × (run_loop b
            (start_loop (new_simple_annotator url token tags))
            xs
          ≡ returned (loop, postings))
        × (map (λ p. p.sent) postings ≡ map request_for (taken selecting xs))
        × (loop.annotator ≡ new_simple_annotator url token tags)
        × (loop.streams ≡ repeated (suc (reconnections selecting xs)) [])
        × (docker_events.since ≡ codes "1h")
  unfolding start_loop docker_annotator repeated docker_events
  run_loop-taken xs =
      let r = run_all selecting (codes "Waiting for events") (docker_events ∷ []) xs in
      (
        r.loop,
        r.postings,
        r.ran,
        r.sent,
        r.same,
        r.asked ∙ repeated-cons (reconnections selecting xs) [],
        refl,
      )

module _ (b : Backend) (url token : Text) (tags : List Text) where
  step_at-annotator :
      (phase : Phase) (docker : Text) (streams : List EventsListOptions) (x : Arrival) (l' : Loop)
      (p : Option Posting)
      → step b (loop_at b url token tags phase docker streams) x ≡ returned (l', p)
      → l'.annotator ≡ docker_annotator b url token tags
  unfolding step
  step_at-annotator ended docker streams x l' p ran = ap_annotator ran
  step_at-annotator waiting docker streams ten_seconds l' p ran = ap_annotator ran
  step_at-annotator waiting docker streams cancelled l' p ran = ap_annotator ran
  step_at-annotator waiting docker streams (error e) l' p ran = ap_annotator ran
  step_at-annotator waiting docker streams (message m) l' p ran = ap_annotator ran
  step_at-annotator selecting docker streams (error none) l' p ran = ap_annotator ran
  step_at-annotator selecting docker streams (error (some e)) l' p ran = ap_annotator ran
  step_at-annotator selecting docker streams ten_seconds l' p ran = ap_annotator ran
  step_at-annotator selecting docker streams cancelled l' p ran = ap_annotator ran
  step_at-annotator selecting docker streams (message m) l' p ran =
      let (posting, posted, same, sent) = post-simple b url token tags m in
      let stepped : step b (loop_at b url token tags selecting docker streams) (message m)
          ≡ returned (
            record (loop_at b url token tags selecting (message_text m) streams) {
              annotator = posting.annotator;
            },
            some posting,
          ) =
        rw (posted, step) refl in
      sym (ap_annotator (sym ran ∙ stepped)) ∙ same

  -- A step keeps the simple annotator.
  pub step-annotator :
      (l l' : Loop) (x : Arrival) (p : Option Posting)
      → l.annotator ≡ new_simple_annotator url token tags
      → step b l x ≡ returned (l', p)
      → l'.annotator ≡ new_simple_annotator url token tags
  unfolding docker_annotator
  step-annotator l l' x p h ran =
      step_at-annotator l.phase l.docker l.streams x l' p
        (ap (λ a. step b (record l { annotator = a }) x) (sym h) ∙ ran)
