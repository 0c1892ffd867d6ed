-- ===== src/Exporter/Nvme/RoundTrip.antt =====
-- What `parseNvmeSmartLog` reads from a SMART log.
use qnapexporter.Base.{ℕ, has_prefix, false, take, List, All, Text, ◌≡◌}
use qnapexporter.Exporter.Nvme.Log.{SmartLog, IsSmartLog, Row, log, log_rows, IsOther}

module _ (others : Text → List Text) (ho : (name : Text) → All IsOther (others name))
    (pad : Text → ℕ) (l : SmartLog) (h : IsSmartLog l) (tail : Text) where
  text : Text
  text = log (log_rows others pad l) tail

  -- The lines before the one with the index `k`.
  abbrev lines_before : ℕ → List Row
  lines_before k = take k (log_rows others pad l)

  Told : Text → Type 0
  Told w = (line : Text) → IsOther line → has_prefix line w ≡ false
