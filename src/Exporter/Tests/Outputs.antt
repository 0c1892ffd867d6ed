-- ===== src/Exporter/Tests/Outputs.antt =====
-- The theorems about the UPSes' metrics and about the lines of a scrape at concrete inputs.
use qnapexporter.Base.{
  ℕ, ◌++◌, none, some, List, [], ◌∷◌, codes, split_lines, format_nat-IsOneLine, pos, All, ◌⊎◌, ◌≡◌,
  arith,
}
use qnapexporter.Exporter.Errors.{Error, message, ok, Yields}
use qnapexporter.Exporter.Tests.{natural, up}
use qnapexporter.Exporter.Ups.{
  Daemon, Variable, string_value, int_value, UpsState, get_ups_stats_metrics_with_retry,
}
use qnapexporter.Exporter.Ups.Noted.{Noted, retry-Noted}
use qnapexporter.Exporter.Metric.{Metric, metric}
use qnapexporter.Exporter.Write.{Message, metrics, failure, write_messages}
use qnapexporter.Exporter.Write.Lines.{IsPlain, ArePlain, message_lines, write_messages-lines}

abbrev online : Variable ℕ
online = record {
  name = codes "ups.status";
  value = string_value (codes "OL");
  var_type = codes "STRING";
  description = codes "UPS status";
}

abbrev charge : Variable ℕ
charge = record {
  name = codes "battery.charge";
  value = int_value (pos 90);
  var_type = codes "INTEGER";
  description = codes "Charge";
}

abbrev one_ups : Daemon ℕ
one_ups = record {
  connect = (codes "1.2", none);
  get_ups_list = ok ((record { name = codes "qnapups" }) ∷ []);
  get_variables = λ u. ok (online ∷ charge ∷ []);
}

abbrev new_state : UpsState
new_state = record {
  protocol_version = [];
  conn_err = none;
  conn_err_timestamp = 0;
  conn_attempts = 0;
  ups_list = none;
  status_ups = some [];
}

retry-Noted_example :
    let r = get_ups_stats_metrics_with_retry natural one_ups up 5 6 new_state in
    Yields (λ m. Noted natural one_ups r.0 m ⊎ Noted natural up r.0 m) r.1
retry-Noted_example = retry-Noted natural one_ups up 5 6 new_state

abbrev ping_metric : Metric ℕ
ping_metric =
    metric (codes "node_ping") (codes "target=\"1.1.1.1\"") 7 (codes "Ping time") (codes "gauge")

abbrev one_line_messages : List (Message ℕ)
one_line_messages = metrics (ping_metric ∷ []) ∷ failure (message (codes "no disk")) ∷ []

abbrev show : Error → List ℕ
show e = codes "error"

one_line_ArePlain : All (ArePlain natural show (codes "nas")) one_line_messages
one_line_ArePlain =
    let plain : IsPlain natural show (codes "nas") ping_metric = record {
      name_line = ground arith;
      attr_line = ground arith;
      help_line = ground arith;
      type_line = ground arith;
      value_line = format_nat-IsOneLine 7;
    } in
    ((plain, tt), (ground arith, tt))

write_messages-lines_example :
    split_lines (write_messages natural show (codes "nas") one_line_messages).output
    ≡ message_lines natural show (codes "nas") one_line_messages ++ [] ∷ []
write_messages-lines_example =
    write_messages-lines natural show (codes "nas") one_line_messages one_line_ArePlain
