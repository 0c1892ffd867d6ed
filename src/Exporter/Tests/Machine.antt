-- ===== src/Exporter/Tests/Machine.antt =====
-- The theorems about the disks, the environment, the fans and the network at concrete inputs.
use qnapexporter.Base.{
  false, ◌≤◌, contains, cut, split, ℕ, none, some, List, [], ◌∷◌, codes, pos, parse_nat, format_nat,
  trim_space, fields, atoi, ◌≡◌, refl, same, if◌then◌else◌,
}
use qnapexporter.Exporter.Errors.{ok, panic}
use qnapexporter.Exporter.Metric.{Metric, metric}
use qnapexporter.Exporter.Metric.Quote.{quote}
use qnapexporter.Exporter.World.{World, exec_command, find_matching_lines}
use qnapexporter.Exporter.Disk.{get_sys_info_hd_metrics, hd_loop, hd_round}
use qnapexporter.Exporter.Disk.Numbers.{
  get_sys_info_hd_metrics-again, get_sys_info_hd_metrics-panic,
}
use qnapexporter.Exporter.Environment.{
  QnapEnclosure, sys_number, read_enclosures, enclosures_loop, parse_enclosure,
}
use qnapexporter.Exporter.System.{
  get_sys_info_fan_metrics, fan_loop, fan_round, find_fan_rpm, leading_digits,
}
use qnapexporter.Exporter.Tests.{natural, one_byte_world, silent_world}

-- Two disks: the first has a temperature, the second none.
abbrev two_disks : World
two_disks = record one_byte_world {
  exec = λ cmd args. elim args [
    | [] ↦ none
    | what ∷ rest ↦ elim rest [
      | [] ↦ none
      | disk ∷ more ↦
          if same what (codes "hdsmart")
          then some (codes "GOOD")
          else if same disk (codes "1")
          then some (codes "30 C/86 F")
          else some (codes "--")
    ]
  ];
}

abbrev one_temperature : List (Metric ℕ)
one_temperature = metric (codes "node_hdtmp_C") (codes "hd=\"1\",smart=\"GOOD\"") 30 [] [] ∷ []

temperatures :
    get_sys_info_hd_metrics natural two_disks (codes "getsysinfo") (pos 2)
    ≡ (pos 1, ok one_temperature)
unfolding get_sys_info_hd_metrics hd_loop hd_round exec_command quote trim_space format_nat cut
    parse_nat
temperatures = refl

get_sys_info_hd_metrics-again_example :
    (top : ℕ) × (pos 1 ≡ pos top)
    × (top ≤ 2)
    × (get_sys_info_hd_metrics natural two_disks (codes "getsysinfo") (pos 1)
        ≡ (pos 1, ok one_temperature))
get_sys_info_hd_metrics-again_example =
    get_sys_info_hd_metrics-again natural two_disks (codes "getsysinfo") 2 (pos 1) one_temperature
      refl temperatures

abbrev device_world : World
device_world = record one_byte_world {
  exec = λ cmd args. some (codes "0 0 qm2_0 0 QM2 0 0 2 1 0 1");
  read_dir = λ f.
      record { name = codes "nvme0n1"; is_dir = false }
      ∷ record { name = codes "sda"; is_dir = false }
      ∷ record { name = codes "sda1"; is_dir = false }
      ∷ [];
}

abbrev qm2 : QnapEnclosure
qm2 = record {
  id = codes "qm2_0";
  name = codes "QM2";
  disk_count = pos 2;
  fan_count = pos 1;
  temp_count = pos 1;
}

qm2_found : read_enclosures device_world (codes "hal_app") ≡ ok (qm2 ∷ [], codes "QM2" ∷ [])
unfolding read_enclosures exec_command enclosures_loop find_matching_lines contains split trim_space
    parse_enclosure fields atoi
qm2_found = refl

get_sys_info_hd_metrics-panic_example :
    (get_sys_info_hd_metrics natural two_disks
      (codes "getsysinfo")
      (sys_number silent_world (codes "getsysinfo") (codes "hdnum"))).1
    ≡ panic
get_sys_info_hd_metrics-panic_example =
    get_sys_info_hd_metrics-panic natural two_disks (codes "getsysinfo") silent_world refl refl

fan_rpm_found : find_fan_rpm (codes "set 0, fan = 12a, fan = 1200 rpm") ≡ some (codes "1200")
unfolding find_fan_rpm leading_digits
fan_rpm_found = refl

abbrev one_fan : List (Metric ℕ)
one_fan = metric (codes "node_sysfan_RPM") (codes "fan=\"1\",type=\"System\"") 1 [] [] ∷ []

one_fan_found :
    get_sys_info_fan_metrics natural one_byte_world (codes "getsysinfo") (pos 1) ≡ ok one_fan
unfolding get_sys_info_fan_metrics fan_loop fan_round exec_command trim_space cut parse_nat
    format_nat quote
one_fan_found = refl
