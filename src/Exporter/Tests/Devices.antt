-- ===== src/Exporter/Tests/Devices.antt =====
-- The theorems about the NVMe devices, the labels and the types of metrics at concrete inputs.
use qnapexporter.Base.{
  ℕ, List, false, none, some, [], ◌∷◌, codes, same, if◌then◌else◌, All, Text, ◌≡◌, refl,
}
use qnapexporter.Exporter.Errors.{message, Fetch, ok, err}
use qnapexporter.Exporter.World.{World}
use qnapexporter.Exporter.Labels.{Reads, labels-Reads}
use qnapexporter.Exporter.Volume.{VolumeInfo, volume_metrics}
use qnapexporter.Exporter.Nvme.{
  NvmeSmartData, parse_nvme_smart_log, get_nvme_smart_metrics, device_metrics,
}
use qnapexporter.Exporter.Nvme.Log.{SmartLog}
use qnapexporter.Exporter.Nvme.Devices.{answering_metrics, get_nvme_smart_metrics-answering}
use qnapexporter.Exporter.Machine.{
  Cpu, PingStatistics, linux, get_cpu_ratio_metrics, get_mem_info_metrics, get_ping_metrics,
}
use qnapexporter.Exporter.Shapes.{IsTyped, Gives, machine-IsTyped}
use qnapexporter.Exporter.Tests.{natural, silent_world}

abbrev odd_volume : VolumeInfo ℕ
odd_volume = record {
  index = codes "1";
  file_system = codes "ext4";
  description = codes "a\"b,c=";
  status = codes "Re\\ady";
  free_size_bytes = 1;
  total_size_bytes = 2;
}

abbrev no_smart_data : NvmeSmartData ℕ
no_smart_data = parse_nvme_smart_log natural []

labels-Reads_example :
    All
      (Reads natural
        (codes "nas")
        (codes ",volume=" ∷ codes ",filesystem=" ∷ codes ",status=" ∷ [])
        (odd_volume.description ∷ odd_volume.file_system ∷ odd_volume.status ∷ []))
      (volume_metrics natural odd_volume)
    × All
        (Reads natural (codes "nas") (codes ",device=" ∷ []) (codes "nvme0n1" ∷ []))
        (device_metrics natural (codes "nvme0n1") no_smart_data)
labels-Reads_example =
    labels-Reads natural (codes "nas") odd_volume (codes "nvme0n1") no_smart_data refl refl refl
      refl refl

abbrev smart_log : SmartLog
smart_log = record {
  temperature = codes "38";
  available_spare = codes "100";
  available_spare_threshold = codes "10";
  percentage_used = codes "3";
  power_on_hours = codes "12,345";
  power_cycles = codes "88";
  unsafe_shutdowns = codes "7";
  media_errors = codes "0";
}

-- The lines of nvme_test.go above the temperature, and those above the power cycles.
abbrev header_lines : List Text
header_lines =
    codes "Smart Log for NVME device:nvme0 namespace-id:ffffffff"
    ∷ codes "critical_warning                    : 0"
    ∷ []

abbrev traffic_lines : List Text
traffic_lines =
    codes "data_units_read                     : 1,154,955,542"
    ∷ codes "host_read_commands                  : 9,762,913,581"
    ∷ []

abbrev other_lines : Text → List Text
other_lines name =
    if same name (codes "temperature")
    then header_lines
    else if same name (codes "power_cycles")
    then traffic_lines
    else []

-- A machine with a disk and two NVMe devices, of which the second alone has a SMART log.
abbrev pub nvme_world : World
nvme_world = record silent_world {
  exec = λ cmd args. elim args [
    | [] ↦ none
    | what ∷ rest ↦ elim rest [
      | [] ↦ none
      | device ∷ more ↦
          if same device (codes "/dev/nvme1n1") then some (codes "temperature : 38 C") else none
    ]
  ];
  look_path = λ name. if same name (codes "nvme") then some (codes "/sbin/nvme") else none;
  read_dir = λ f.
      if same f (codes "/dev")
      then record { name = codes "nvme0n1"; is_dir = false }
        ∷ record { name = codes "nvme1n1"; is_dir = false }
        ∷ record { name = codes "sda"; is_dir = false }
        ∷ []
      else [];
}

get_nvme_smart_metrics-answering_example :
    get_nvme_smart_metrics natural nvme_world
      (codes "nvme")
      (codes "nvme0n1" ∷ codes "nvme1n1" ∷ [])
    ≡ ok (
        answering_metrics natural nvme_world
          (codes "nvme")
          (codes "nvme0n1" ∷ codes "nvme1n1" ∷ []))
get_nvme_smart_metrics-answering_example =
    get_nvme_smart_metrics-answering natural nvme_world (codes "nvme")
      (codes "nvme0n1" ∷ codes "nvme1n1" ∷ []) refl

abbrev no_route : Text → Fetch (PingStatistics ℕ)
no_route target = err (message (codes "no route"))

abbrev busy_cpu : Cpu ℕ
busy_cpu = record {
  times =
      ok (
        record { user = 1; nice = 2; system = 3; idle = 4; iowait = 5; irq = 6; softirq = 7 } ∷ []);
  counts = λ all. ok 4;
}

machine-IsTyped_example :
    Gives IsTyped (get_nvme_smart_metrics natural nvme_world (codes "nvme") (codes "nvme1n1" ∷ []))
    × Gives IsTyped (get_cpu_ratio_metrics natural linux busy_cpu)
    × Gives IsTyped (get_mem_info_metrics natural linux (err (message (codes "no memory"))))
    × Gives IsTyped (get_ping_metrics natural no_route (codes "1.1.1.1") 9)
machine-IsTyped_example =
    machine-IsTyped natural nvme_world linux (codes "nvme") (codes "1.1.1.1") (codes "nvme1n1" ∷ [])
      busy_cpu (err (message (codes "no memory"))) no_route 9
