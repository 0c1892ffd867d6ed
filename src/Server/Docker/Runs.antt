-- ===== src/Server/Docker/Runs.antt =====
-- Runs of the loop over Docker's events, and their end.
use qnapexporter.Base.{
  none, some, List, [], ◌∷◌, ◌++◌, Option, codes, ap, ◌∙◌, Text, Run, out_of_fuel, panicked,
  returned, ◌≡◌, refl,
}
use qnapexporter.Notifications.Annotator.{Annotator, Backend, Posting}
use qnapexporter.Server.Docker.{
  Arrival, cancelled, Phase, selecting, waiting, ended, EventsListOptions, Loop, step,
}

-- A run of the loop, and what it posted.
unfoldable pub run_loop : Backend → Loop → List Arrival → Run (Loop × List Posting)
run_loop b l [] = returned (l, [])
run_loop b l (x ∷ xs) = elim (step b l x) [
  | out_of_fuel ↦ out_of_fuel
  | panicked ↦ panicked
  | returned (l', posted) ↦ elim (run_loop b l' xs) [
    | out_of_fuel ↦ out_of_fuel
    | panicked ↦ panicked
    | returned (l'', ps) ↦ returned (l'', elim posted [ none ↦ ps | some p ↦ p ∷ ps ])
  ]
]

abbrev ended_loop : Text → Annotator → List EventsListOptions → Loop
ended_loop docker annotator streams = record {
  phase = ended;
  docker = docker;
  annotator = annotator;
  streams = streams;
}

run_loop-ended :
    (b : Backend) (docker : Text) (annotator : Annotator) (streams : List EventsListOptions)
    (xs : List Arrival)
    → run_loop b (ended_loop docker annotator streams) xs
      ≡ returned (ended_loop docker annotator streams, [])
unfolding run_loop step
run_loop-ended b docker annotator streams [] = refl
run_loop-ended b docker annotator streams (x ∷ xs) =
    rw (run_loop-ended b docker annotator streams xs) refl

-- The arrivals end the loop, with these postings.
abbrev pub Ends : Backend → Loop → List Arrival → List Posting → Type 0
Ends b l xs ps = (l' : Loop) × (run_loop b l xs ≡ returned (l', ps)) × (l'.phase ≡ ended)

cancelled_at :
    (b : Backend) (phase : Phase) (docker : Text) (annotator : Annotator)
    (streams : List EventsListOptions) (xs : List Arrival)
    → Ends b
        (record { phase = phase; docker = docker; annotator = annotator; streams = streams })
        (cancelled ∷ cancelled ∷ xs)
        []
unfolding run_loop step
cancelled_at b selecting docker annotator streams xs = (
  ended_loop (codes "Done") annotator streams,
  rw (run_loop-ended b (codes "Done") annotator streams xs) refl,
  refl,
)
cancelled_at b waiting docker annotator streams xs = (
  ended_loop (codes "Done") annotator streams,
  rw (run_loop-ended b (codes "Done") annotator streams xs) refl,
  refl,
)
cancelled_at b ended docker annotator streams xs = (
  ended_loop docker annotator streams,
  rw (run_loop-ended b docker annotator streams xs) refl,
  refl,
)

-- Once two looks in a row find the context done, the loop has ended, wherever it started, whatever
-- it took before, as long as that run returns, and whatever else could arrive afterwards: what it has
-- posted is what it had posted until then.
pub run_loop-cancelled :
    (b : Backend) (before after : List Arrival) (l l1 : Loop) (ps : List Posting)
    → run_loop b l before ≡ returned (l1, ps)
    → Ends b l (before ++ cancelled ∷ cancelled ∷ after) ps
unfolding run_loop
run_loop-cancelled b [] after l l1 ps ran =
    let nothing : [] ≡ ps = cc in
    let (l', q, e) = cancelled_at b l.phase l.docker l.annotator l.streams after in
    (l', q ∙ ap (λ x. returned (l', x)) nothing, e)
run_loop-cancelled b (x ∷ before) after l l1 ps ran =
    by_step (step b l x) refl (λ l2 l3 qs. run_loop-cancelled b before after l2 l3 qs) ran
  where
    by_step :
        (r : Run (Loop × Option Posting))
        → step b l x ≡ r
        → ((l2 l3 : Loop) (qs : List Posting)
            → run_loop b l2 before ≡ returned (l3, qs)
            → Ends b l2 (before ++ cancelled ∷ cancelled ∷ after) qs)
        → ◌≡◌ {A = Run (Loop × List Posting)}
            (elim r [
              | out_of_fuel ↦ out_of_fuel
              | panicked ↦ panicked
              | returned (l', posted) ↦ elim (run_loop b l' before) [
                | out_of_fuel ↦ out_of_fuel
                | panicked ↦ panicked
                | returned (l'', ps') ↦
                    returned (l'', elim posted [ none ↦ ps' | some p ↦ p ∷ ps' ])
              ]
            ])
            (returned (l1, ps))
        → Ends b l (x ∷ (before ++ cancelled ∷ cancelled ∷ after)) ps
    by_step out_of_fuel q ih ran' = absurd (cc)
    by_step panicked q ih ran' = absurd (cc)
    by_step (returned (l2, posted)) q ih ran' = by_rest (run_loop b l2 before) refl ran'
      where
        by_rest :
            (r : Run (Loop × List Posting))
            → run_loop b l2 before ≡ r
            → ◌≡◌ {A = Run (Loop × List Posting)}
                (elim r [
                  | out_of_fuel ↦ out_of_fuel
                  | panicked ↦ panicked
                  | returned (l'', ps') ↦
                      returned (l'', elim posted [ none ↦ ps' | some p ↦ p ∷ ps' ])
                ])
                (returned (l1, ps))
            → Ends b l (x ∷ (before ++ cancelled ∷ cancelled ∷ after)) ps
        by_rest out_of_fuel e ran'' = absurd (cc)
        by_rest panicked e ran'' = absurd (cc)
        by_rest (returned (l3, qs)) e ran'' =
            let (l', went, done) = ih l2 l3 qs e in
            let all : (elim posted [ none ↦ qs | some p ↦ p ∷ qs ]) ≡ ps = cc in
            (l', rw (q, run_loop) (rw went (ap (λ z. returned (l', z)) all)), done)
