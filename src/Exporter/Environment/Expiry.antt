-- ===== src/Exporter/Environment/Expiry.antt =====
-- How often the environment is read.
use qnapexporter.Base.{
  ℕ, ◌+◌, ◌*◌, ◌≤◌, ◌<◌, true, Bool, List, [], ◌∷◌, lt→ltb, length, All, ◌≡◌, refl, arith,
}
use qnapexporter.Exporter.Environment.{env_validity, refresh_environment}

-- Whether each scrape of a run reads the environment.
readings : ℕ → List ℕ → List Bool
readings env_expiry [] = []
readings env_expiry (now ∷ times) =
    let (env_expiry', read) = refresh_environment now env_expiry in
    read ∷ readings env_expiry' times

readings_late :
    (times : List ℕ) (env_expiry bound : ℕ)
    → env_expiry + length times * env_validity ≤ bound
    → All (λ now. bound < now) times
    → All (λ read. read ≡ true) (readings env_expiry times)
unfolding readings refresh_environment
readings_late [] env_expiry bound room h = tt
readings_late (now ∷ times) env_expiry bound room (late, h) =
    let expired = lt→ltb env_expiry now (omega arith) in
    rw expired (refl, readings_late times (env_expiry + env_validity) bound (omega arith) h)

-- A run of scrapes after a pause of five minutes for each of them reads the environment at every
-- scrape, however close to one another the scrapes are, because the expiry moves by five minutes
-- from its old value and not from the time of the reading.
readings-after_pause :
    (env_expiry : ℕ) (times : List ℕ)
    → All (λ now. env_expiry + length times * env_validity < now) times
    → All (λ read. read ≡ true) (readings env_expiry times)
readings-after_pause env_expiry times h =
    readings_late times env_expiry (env_expiry + length times * env_validity) (omega arith) h
