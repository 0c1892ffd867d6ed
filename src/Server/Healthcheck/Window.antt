-- ===== src/Server/Healthcheck/Window.antt =====
-- When pings are sent.
use qnapexporter.Base.{
  ℕ, ◌+◌, ◌*◌, ◌≤◌, ◌<◌, ◌++◌, true, false, Option, none, some, List, [], ◌∷◌, le→ltb, lt→ltb, Text,
  codes, is_empty, cut, ◌≡◌, ◌≢◌, refl, arith, All, length,
}
use qnapexporter.Server.Healthcheck.{
  Ping, ping, head_ping, post_ping, validity, ping_url, handle_healthcheck,
  handle_healthcheck_start, handle_healthcheck_end,
}

-- One scrape as the healthcheck sees it: when it starts and ends, and how.
pub record Visit : Type 0 where
  pub started : ℕ
  pub ended : ℕ
  pub failure : Option Text

-- The pings at the start and the end of each scrape, and the expiry at the end.
unfoldable pub visit : Text → ℕ → Visit → ℕ × Option Ping × Option Ping
visit healthcheck expiry v =
    let (expiry1, ping1) = handle_healthcheck_start v.started expiry healthcheck in
    let (expiry2, ping2) = handle_healthcheck_end v.ended expiry1 healthcheck v.failure in
    (expiry2, ping1, ping2)

-- A service that is well configured.
pub record IsService (healthcheck check_id : Text) : Type 0 where
  pub set : is_empty healthcheck ≡ false
  pub service : (cut b':' healthcheck).0 ≡ codes "healthchecks.io"
  pub check : (cut b':' healthcheck).1 ≡ some check_id

-- Up to the expiry nothing is sent and the expiry stays.
visit-quiet :
    (healthcheck : Text) (expiry : ℕ) (v : Visit)
    → v.started ≤ expiry
    → v.ended ≤ expiry
    → visit healthcheck expiry v ≡ (expiry, none, none)
unfolding visit handle_healthcheck_start handle_healthcheck_end
visit-quiet healthcheck expiry v h k =
    let before = le→ltb expiry v.started h in let after = le→ltb expiry v.ended k in ground arith

check_start :
    (healthcheck check_id : Text) (now expiry : ℕ)
    → IsService healthcheck check_id
    → expiry < now
    → handle_healthcheck_start now expiry healthcheck
      ≡ (expiry, some (head_ping (ping_url check_id true none)))
unfolding handle_healthcheck_start handle_healthcheck
check_start healthcheck check_id now expiry s h =
    let late = lt→ltb expiry now h in
    rw (s.set, handle_healthcheck) (rw late (rw s.check (rw s.service refl)))

check_end :
    (healthcheck check_id : Text) (now expiry : ℕ) (failure : Option Text)
    → IsService healthcheck check_id
    → expiry < now
    → handle_healthcheck_end now expiry healthcheck failure
      ≡ (expiry + validity, some (ping (ping_url check_id false failure) failure))
unfolding handle_healthcheck_end handle_healthcheck
check_end healthcheck check_id now expiry failure s h =
    let late = lt→ltb expiry now h in
    rw (s.set, handle_healthcheck) (rw late (rw s.check (rw s.service refl)))

-- Past the expiry a scrape pings the start address, then the address of the check or, where the
-- scrape failed, the fail address with the error's text, and the expiry moves by five minutes.
pub visit-late :
    (healthcheck check_id : Text) (expiry : ℕ) (v : Visit)
    → IsService healthcheck check_id
    → expiry < v.started
    → v.started ≤ v.ended
    → visit healthcheck expiry v ≡ (
      expiry + validity,
      some (head_ping (codes "https://hc-ping.com/" ++ check_id ++ codes "/start")),
      some (elim v.failure [
        | none ↦ head_ping (codes "https://hc-ping.com/" ++ check_id)
        | some text ↦ post_ping (codes "https://hc-ping.com/" ++ check_id ++ codes "/fail") text
      ]),
    )
unfolding visit ping_url
visit-late healthcheck check_id expiry v s h k =
    rw
      (
        check_start healthcheck check_id v.started expiry s h,
        check_end healthcheck check_id v.ended expiry v.failure s (omega arith),
      )
      (by_failure v.failure)
  where
    by_failure :
        (failure : Option Text)
        → ◌≡◌ {A = ℕ × Option Ping × Option Ping}
            (
              expiry + validity,
              some (head_ping (ping_url check_id true none)),
              some (ping (ping_url check_id false failure) failure),
            )
            (
              expiry + validity,
              some (head_ping (codes "https://hc-ping.com/" ++ check_id ++ codes "/start")),
              some (elim failure [
                | none ↦ head_ping (codes "https://hc-ping.com/" ++ check_id)
                | some text ↦
                    post_ping (codes "https://hc-ping.com/" ++ check_id ++ codes "/fail") text
              ]),
            )
    by_failure none = refl
    by_failure (some text) = refl

-- The pings of a run of scrapes.
pub visit_all : Text → ℕ → List Visit → List (Option Ping × Option Ping)
visit_all healthcheck expiry [] = []
visit_all healthcheck expiry (v ∷ vs) =
    let (expiry', ping1, ping2) = visit healthcheck expiry v in
    (ping1, ping2) ∷ visit_all healthcheck expiry' vs

pings :
    {healthcheck check_id : Text} (us : List Visit) (from bound : ℕ)
    → IsService healthcheck check_id
    → from + length us * validity ≤ bound
    → All (λ v. (bound < v.started) × (v.started ≤ v.ended)) us
    → All (λ p. (p.0 ≢ none) × (p.1 ≢ none)) (visit_all healthcheck from us)
unfolding visit_all
pings [] from bound s room late = tt
pings {healthcheck} {check_id} (v ∷ us) from bound s room ((later, after), late) =
    rw (visit-late healthcheck check_id from v s (omega arith) after)
      (((λ q. cc), (λ q. cc)), pings us (from + validity) bound s (omega arith) late)

-- A run of scrapes after a pause of five minutes for each of them pings twice at every scrape,
-- however close to one another the scrapes are: the expiry moves by five minutes from its old value
-- and not from the time of the ping.
pub visit_all-after_pause :
    (healthcheck check_id : Text) (expiry : ℕ) (vs : List Visit)
    → IsService healthcheck check_id
    → All (λ v. (expiry + length vs * validity < v.started) × (v.started ≤ v.ended)) vs
    → All (λ p. (p.0 ≢ none) × (p.1 ≢ none)) (visit_all healthcheck expiry vs)
visit_all-after_pause healthcheck check_id expiry vs s h =
    pings vs expiry (expiry + length vs * validity) s (omega arith) h
