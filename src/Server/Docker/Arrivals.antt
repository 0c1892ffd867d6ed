-- ===== src/Server/Docker/Arrivals.antt =====
-- What a run of the loop over Docker's events takes, by its phases alone.
use qnapexporter.Base.{ℕ, zero, suc, none, some, List, [], ◌∷◌, ◌≡◌, refl, ap}
use qnapexporter.Server.Docker.{
  Message, Arrival, error, message, ten_seconds, cancelled, Phase, selecting, waiting, ended,
  EventsListOptions, docker_events,
}

-- The messages that find the loop at its `select`, by the phases alone.
unfoldable pub taken : Phase → List Arrival → List Message
taken p [] = []
taken ended (x ∷ xs) = []
taken waiting (ten_seconds ∷ xs) = taken selecting xs
taken waiting (cancelled ∷ xs) = taken selecting xs
taken waiting (error e ∷ xs) = taken waiting xs
taken waiting (message m ∷ xs) = taken waiting xs
taken selecting (error none ∷ xs) = taken selecting xs
taken selecting (error (some e) ∷ xs) = taken waiting xs
taken selecting (message m ∷ xs) = m ∷ taken selecting xs
taken selecting (ten_seconds ∷ xs) = taken selecting xs
taken selecting (cancelled ∷ xs) = taken ended xs

-- How often the loop connects again, by the phases alone.
unfoldable pub reconnections : Phase → List Arrival → ℕ
reconnections p [] = 0
reconnections ended (x ∷ xs) = 0
reconnections waiting (ten_seconds ∷ xs) = suc (reconnections selecting xs)
reconnections waiting (cancelled ∷ xs) = reconnections selecting xs
reconnections waiting (error e ∷ xs) = reconnections waiting xs
reconnections waiting (message m ∷ xs) = reconnections waiting xs
reconnections selecting (error none ∷ xs) = reconnections selecting xs
reconnections selecting (error (some e) ∷ xs) = reconnections waiting xs
reconnections selecting (message m ∷ xs) = reconnections selecting xs
reconnections selecting (ten_seconds ∷ xs) = reconnections selecting xs
reconnections selecting (cancelled ∷ xs) = reconnections ended xs

-- The same options so many times, in front of others.
unfoldable pub repeated : ℕ → List EventsListOptions → List EventsListOptions
repeated zero streams = streams
repeated (suc n) streams = docker_events ∷ repeated n streams

pub repeated-cons :
    (n : ℕ) (streams : List EventsListOptions)
    → repeated n (docker_events ∷ streams) ≡ docker_events ∷ repeated n streams
unfolding repeated
repeated-cons zero streams = refl
repeated-cons (suc n) streams = ap (◌∷◌ docker_events) (repeated-cons n streams)

pub reconnections-ended : (xs : List Arrival) → reconnections ended xs ≡ 0
unfolding reconnections
reconnections-ended [] = refl
reconnections-ended (x ∷ xs) = refl

pub taken-ended : (xs : List Arrival) → taken ended xs ≡ []
unfolding taken
taken-ended [] = refl
taken-ended (x ∷ xs) = refl
