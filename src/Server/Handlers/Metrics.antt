-- ===== src/Server/Handlers/Metrics.antt =====
-- The status of the answer to a scrape.
use qnapexporter.Base.{
  ℕ, ◌++◌, false, none, some, List, [], ◌∷◌, is_empty, Text, ◌≡◌, refl, arith, Option-cases, inl,
  inr,
}
use qnapexporter.Exporter.Errors.{Error}
use qnapexporter.Exporter.Metric.{FloatOps}
use qnapexporter.Exporter.Write.{
  Message, metrics, failure, Written, nothing_written, receive, receive_all, write_messages,
}
use qnapexporter.Server.Handlers.{
  write, write_header, final_status, handle_metrics_http_request, new_response,
}

-- An error is never returned with nothing printed.
abbrev IsReported : Written → Type 0
IsReported r = (e : Error) → r.error ≡ some e → is_empty r.output ≡ false

is_empty-append : (s t : Text) → is_empty s ≡ false → is_empty (s ++ t) ≡ false
is_empty-append [] t h = cc
is_empty-append (c ∷ s) t h = refl

is_empty-append_right : (s t : Text) → is_empty t ≡ false → is_empty (s ++ t) ≡ false
is_empty-append_right [] t h = h
is_empty-append_right (c ∷ s) t h = refl

respond :
    (r : Written)
    → IsReported r
    → final_status (elim r.error [
      | none ↦ write new_response r.output
      | some e ↦ write_header (write new_response r.output) 500
    ])
      ≡ 200
unfolding write write_header final_status
respond r h = elim (Option-cases r.error) [
  | inl fine ↦ rw fine (ground arith)
  | inr (e, failed) ↦ rw failed (rw (h e failed) refl)
]

module _ {F : Type 0} (ops : FloatOps F) (show : Error → Text) (hostname : Text) where
  receive-IsReported :
      (r : Written) (m : Message F) → IsReported r → IsReported (receive ops show hostname r m)
  unfolding receive
  receive-IsReported r (metrics ms) h = λ e failed. is_empty-append r.output _ (h e failed)
  receive-IsReported r (failure e) h = λ e' failed. is_empty-append_right r.output _ refl

  receive_all-IsReported :
      (r : Written) (ms : List (Message F))
      → IsReported r
      → IsReported (receive_all ops show hostname r ms)
  unfolding receive_all
  receive_all-IsReported r [] h = h
  receive_all-IsReported r (m ∷ ms) h =
      receive_all-IsReported (receive ops show hostname r m) ms (receive-IsReported r m h)

  -- The answer to a scrape has the status 200 in every run, also where collectors failed and the
  -- handler sets the status 500: by then the report of the failure has been written.
  pub handle_metrics_http_request-status :
      (healthcheck : Text) (started ended expiry : ℕ) (ms : List (Message F))
      → final_status
          (handle_metrics_http_request ops show hostname healthcheck started ended expiry
            ms).response
        ≡ 200
  unfolding handle_metrics_http_request
  handle_metrics_http_request-status healthcheck started ended expiry ms =
      respond (write_messages ops show hostname ms)
        (receive_all-IsReported nothing_written ms (λ e q. absurd (cc)))
