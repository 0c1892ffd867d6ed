-- ===== src/Exporter/Tests.antt =====
-- The theorems about the exporter at concrete inputs. Floating-point numbers stand for natural ones.
pub mod Machine
pub mod Devices
pub mod Scrapes
pub mod Panics
pub mod Outputs
use mathlib.Core.List.{Perm, Permᴰ}
use qnapexporter.Base.{
  ℕ, suc, ◌*◌, ◌/◌, ◌==◌, not, none, some, List, [], ◌∷◌, ltb, codes, ℤ, pos, negsuc, parse_nat,
  format_nat, trim_space, fields, atoi, All, out_of_fuel, ◌≡◌, ◌≢◌, refl, arith, same,
  if◌then◌else◌,
}
use qnapexporter.Exporter.Errors.{message, ok, err}
use qnapexporter.Exporter.Metric.{FloatOps, Metric, metric}
use qnapexporter.Exporter.Metric.Quote.{quote}
use qnapexporter.Exporter.World.{World, missing, exec_command}
use qnapexporter.Exporter.Ups.{Daemon, UpsState}
use qnapexporter.Exporter.Ups.Stuck.{IsStuck, refusal, Scrape, scrape_all, scrape_all-stuck}
use qnapexporter.Exporter.Volume.{
  VolumeInfo, VolumeState, volume_loop, read_sys_vol_info, get_sys_info_vol_metrics, metrics_loop,
  refresh, parse_vol_size, unit_factor, volume_metrics,
}
use qnapexporter.Exporter.Volume.Loop.{described, volume_loop-ends}
use qnapexporter.Exporter.Volume.Endless.{read_sys_vol_info-endless}
use qnapexporter.Exporter.Volume.Caching.{scrape_volumes, scrape-scrape}
use qnapexporter.Exporter.Write.{Message, metrics, failure, write_messages}
use qnapexporter.Exporter.Write.Orders.{
  metrics_in, failures_in, total, has_error, write_messages-Perm,
}

abbrev magnitude : ℤ → ℕ
magnitude (pos n) = n
magnitude (negsuc n) = suc n

abbrev pub natural : FloatOps ℕ
natural = record {
  parse_float = parse_nat;
  of_nat = λ n. n;
  of_int = magnitude;
  mul = λ a b. a * b;
  div = λ a b. a / b;
  is_positive = λ n. ltb 0 n;
  is_zero = λ n. n == 0;
  nan = 0;
  format_g = format_nat;
}

abbrev down : Daemon ℕ
down = record {
  connect = (codes "", some (message (codes "refused")));
  get_ups_list = ok [];
  get_variables = λ u. ok [];
}

abbrev pub up : Daemon ℕ
up = record { connect = (codes "1.2", none); get_ups_list = ok []; get_variables = λ u. ok [] }

abbrev exhausted_state : UpsState
exhausted_state = record {
  protocol_version = [];
  conn_err = some (message (codes "refused"));
  conn_err_timestamp = 1_000;
  conn_attempts = 10;
  ups_list = none;
  status_ups = some [];
}

exhausted_IsStuck : IsStuck (message (codes "refused")) 1_000 exhausted_state
exhausted_IsStuck = record { closed = refl; exhausted = refl; failed = refl; since = omega arith }

-- Two scrapes half an hour apart, with the daemon up again.
abbrev half_hourly : List (Scrape ℕ)
half_hourly =
    record { first = up; second = up; now = 1_800_000_000_000; later = 1_800_000_000_001 }
    ∷ record { first = up; second = up; now = 3_600_000_000_000; later = 3_600_000_000_001 }
    ∷ []

scrape_all-stuck_example :
    All
      (λ r. r ≡ err (refusal (message (codes "refused"))))
      (scrape_all natural (message (codes "refused")) half_hourly exhausted_state)
scrape_all-stuck_example =
    scrape_all-stuck natural (message (codes "refused")) half_hourly 1_000 exhausted_state
      exhausted_IsStuck
      (omega arith, omega arith, omega arith, (omega arith, omega arith, omega arith, tt))

-- Every volume has a description and a size of one byte.
abbrev pub one_byte_world : World
one_byte_world = record {
  exec = λ cmd args. some (codes "1 B");
  file = λ f. missing;
  look_path = λ f. none;
  getenv = λ name. [];
  read_dir = λ f. [];
}

-- A machine on which only the number of volumes can be read.
abbrev pub silent_world : World
silent_world = record one_byte_world {
  exec = λ cmd args. elim args [
    | [] ↦ none
    | a ∷ rest ↦ if same a (codes "sysvolnum") then some (codes "2") else none
  ];
}

volume_loop-ends_example :
    volume_loop natural one_byte_world (codes "getsysinfo") 3 2 0 0 [] ≢ out_of_fuel
unfolding described
volume_loop-ends_example =
    volume_loop-ends natural one_byte_world (codes "getsysinfo") 2 2 (omega arith) (omega arith)

read_sys_vol_info-endless_example :
    read_sys_vol_info natural silent_world (codes "getsysinfo") 1_000 ≡ out_of_fuel
unfolding atoi trim_space
read_sys_vol_info-endless_example =
    read_sys_vol_info-endless natural silent_world (codes "getsysinfo") (codes "2") 2 1_000 refl
      refl (omega arith) (omega arith) (λ idx. refl)

abbrev one_volume : VolumeInfo ℕ
one_volume = record {
  index = codes "1";
  file_system = codes "ext4";
  description = codes "DataVol1";
  status = codes "Ready";
  free_size_bytes = 0;
  total_size_bytes = 100;
}

abbrev fresh_state : VolumeState ℕ
fresh_state = record {
  getsysinfo = codes "getsysinfo";
  volumes = one_volume ∷ [];
  volume_last_fetch = 0;
  status_volumes = some [];
}

abbrev fetched_state : VolumeState ℕ
fetched_state = record fresh_state {
  volumes = (record one_volume { free_size_bytes = 1 }) ∷ [];
  volume_last_fetch = 7;
  status_volumes = some (codes "DataVol1" ∷ []);
}

abbrev fetched_metrics : List (Metric ℕ)
fetched_metrics =
    metric (codes "node_volume_avail_bytes")
      (codes "volume=\"DataVol1\",filesystem=\"ext4\",status=\"Ready\"") 1 [] []
    ∷ metric (codes "node_volume_size_bytes")
        (codes "volume=\"DataVol1\",filesystem=\"ext4\",status=\"Ready\"") 100 [] []
    ∷ []

volumes_fetched :
    get_sys_info_vol_metrics natural one_byte_world 7 fresh_state
    ≡ (fetched_state, ok fetched_metrics)
unfolding get_sys_info_vol_metrics metrics_loop refresh exec_command parse_vol_size fields
    trim_space parse_nat unit_factor volume_metrics quote
volumes_fetched = refl

-- Two scrapes within the minute, on machines that answer otherwise.
abbrev later_scrapes : List (World × ℕ)
later_scrapes = (silent_world, 1_000) ∷ (one_byte_world, 2_000) ∷ []

scrape-scrape_example :
    All (λ r. r ≡ ok fetched_metrics) (scrape_volumes natural later_scrapes fetched_state)
scrape-scrape_example =
    scrape-scrape natural one_byte_world 7 fresh_state fetched_state fetched_metrics later_scrapes
      refl volumes_fetched (omega arith) (omega arith, (omega arith, tt)) (refl, tt)

abbrev two_messages : List (Message ℕ)
two_messages = metrics fetched_metrics ∷ failure (message (codes "no disk")) ∷ []

abbrev swapped_messages : List (Message ℕ)
swapped_messages = failure (message (codes "no disk")) ∷ metrics fetched_metrics ∷ []

swapped_Perm : Perm two_messages swapped_messages
swapped_Perm = ∣ Permᴰ.swap refl refl ∣₁

write_messages-Perm_example :
    let r = write_messages natural (λ e. codes "error") (codes "nas") swapped_messages in
    (r.metric_count ≡ total metrics_in two_messages)
    × (has_error r ≡ not (total failures_in two_messages == 0))
write_messages-Perm_example =
    write_messages-Perm natural (λ e. codes "error") (codes "nas") two_messages swapped_messages
      swapped_Perm
