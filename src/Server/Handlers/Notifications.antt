-- ===== src/Server/Handlers/Notifications.antt =====
-- Notifications that consist of tags alone.
use qnapexporter.Base.{ℕ, List, ◌∷◌, Text, All, panicked, ◌≡◌, refl}
use qnapexporter.Notifications.TagExtractor.{extract, notification_center}
use qnapexporter.Notifications.TagExtractor.Laws.{bracketed, LacksBracket, extract-panicked}
use qnapexporter.Notifications.Annotator.{Annotator, Backend, post}
use qnapexporter.Server.Handlers.{handle_notification_http_request}

-- With the extractor of the notification centre, a request whose text is one or more tags in
-- brackets, each with a space behind it, and nothing else, makes the handler panic.
pub handle_notification_http_request-panicked :
    (b : Backend) (a : Annotator) (t : Text) (ts : List Text) (now : ℕ)
    → a.tag_extractor ≡ notification_center
    → All LacksBracket (t ∷ ts)
    → handle_notification_http_request b a (bracketed (t ∷ ts)) now ≡ panicked
unfolding handle_notification_http_request post extract
handle_notification_http_request-panicked b a t ts now center h =
    let crash = extract-panicked (t ∷ ts) h in rw (center, post, extract) (rw crash refl)
