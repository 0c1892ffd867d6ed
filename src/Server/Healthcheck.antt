-- ===== src/Server/Healthcheck.antt =====
-- The pings of the healthcheck service, main.go. Times are nanoseconds; `healthCheckExpiry` is the
-- state. A call sends at most one request.
pub mod Window
use qnapexporter.Base.{
  ℕ, ◌+◌, ◌*◌, ◌++◌, Bool, true, false, not, Option, none, some, ltb, if◌then◌else◌, same, is_empty,
  cut, Text, codes, ◌≡◌, refl,
}

-- `client.Head(url)`, and `client.Post(url, …)` with the text of the error.
pub data Ping : Type 0 where
  head_ping : Text → Ping
  post_ping : Text → Text → Ping

abbrev pub validity : ℕ
validity = 5 * 60 * 1_000_000_000

-- The address that is pinged, for the part behind the first colon.
unfoldable pub ping_url : Text → Bool → Option Text → Text
ping_url check_id start failure =
    let base = codes "https://hc-ping.com/" ++ check_id in
    let endpoint =
      if start then codes "start" else (elim failure [ none ↦ codes "" | some _ ↦ codes "fail" ]) in
    if is_empty endpoint then base else base ++ (codes "/" ++ endpoint)

abbrev pub ping : Text → Option Text → Ping
ping url none = head_ping url
ping url (some text) = post_ping url text

-- `handleHealthcheck`: the expiry afterwards, and the request. The last argument is the error.
unfoldable pub handle_healthcheck : ℕ → ℕ → Text → Bool → Option Text → ℕ × Option Ping
unfolding ping_url
handle_healthcheck now expiry healthcheck start failure =
    if is_empty healthcheck
    then (expiry, none)
    else if not (ltb expiry now)
    then (expiry, none)
    else (elim (cut b':' healthcheck).1 [
      | none ↦ (expiry, none)
      | some check_id ↦
          let sent =
            if same (cut b':' healthcheck).0 (codes "healthchecks.io")
            then some (ping (ping_url check_id start failure) failure)
            else none in
          (if start then expiry else expiry + validity, sent)
    ])

unfoldable pub handle_healthcheck_start : ℕ → ℕ → Text → ℕ × Option Ping
unfolding handle_healthcheck
handle_healthcheck_start now expiry healthcheck =
    handle_healthcheck now expiry healthcheck true none

unfoldable pub handle_healthcheck_end : ℕ → ℕ → Text → Option Text → ℕ × Option Ping
unfolding handle_healthcheck
handle_healthcheck_end now expiry healthcheck failure =
    handle_healthcheck now expiry healthcheck false failure

fail_ping :
    handle_healthcheck_end 5 3 (codes "healthchecks.io:abc") (some (codes "no disk"))
    ≡ (3 + validity, some (post_ping (codes "https://hc-ping.com/abc/fail") (codes "no disk")))
unfolding handle_healthcheck_end cut
fail_ping = refl
