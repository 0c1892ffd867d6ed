-- ===== src/Exporter/Environment/Devices.antt =====
-- What `readDevices` and `readEnclosures` note.
use mathlib.Core.Path.{subst}
use mathlib.Core.List.{map-append}
use qnapexporter.Base.{
  All-append, ◌++◌, inl, inr, false, List, [], ◌∷◌, map, has_prefix, is_empty, Text, codes, pos,
  int_eq, All, ◌≡◌, refl, ap, sym, ◌∙◌, append-nil, append_assoc, Bool-cases, if◌then◌else◌,
}
use qnapexporter.Exporter.Errors.{Fetch, ok, err, panic}
use qnapexporter.Exporter.World.{World, DirEntry, exec_command, find_matching_lines}
use qnapexporter.Exporter.Environment.{
  QnapEnclosure, is_device, devices_loop, read_devices, parse_enclosure, enclosures_loop,
  read_enclosures,
}

-- The names of the entries that are devices, and of those that pass a further test.
pub device_names : List DirEntry → List Text
device_names [] = []
device_names (d ∷ info) = if is_device d then d.name ∷ device_names info else device_names info

unfoldable pub nvme_names : List Text → List Text
nvme_names [] = []
nvme_names (n ∷ names) =
    if has_prefix n (codes "nvme") then n ∷ nvme_names names else nvme_names names

devices_loop_lem :
    (info : List DirEntry) (devices nvme : List Text)
    → devices_loop info devices nvme
      ≡ (devices ++ device_names info, nvme ++ nvme_names (device_names info))
unfolding devices_loop device_names nvme_names
devices_loop_lem [] devices nvme = rw (append-nil, append-nil)
devices_loop_lem (d ∷ info) devices nvme = elim (Bool-cases (is_device d)) [
  | inr other ↦ rw (other, devices_loop, device_names) (devices_loop_lem info devices nvme)
  | inl device ↦ elim (Bool-cases (has_prefix d.name (codes "nvme"))) [
    | inl is_nvme ↦
        rw (device, devices_loop, device_names)
          (rw (is_nvme, nvme_names)
            (devices_loop_lem info (devices ++ d.name ∷ []) (nvme ++ d.name ∷ [])
              ∙ rw (append_assoc, append_assoc) refl))
    | inr is_sd ↦
        rw (device, devices_loop, device_names)
          (rw (is_sd, nvme_names)
            (devices_loop_lem info (devices ++ d.name ∷ []) nvme ∙ rw append_assoc refl))
  ]
]

-- The devices are the entries of /dev that pass the tests, in order, and the NVMe devices are those
-- of them whose name starts with nvme, in the same order.
pub read_devices-names :
    (w : World)
    → let (devices, nvme_devices) = read_devices w in
      (devices ≡ device_names (w.read_dir (codes "/dev"))) × (nvme_devices ≡ nvme_names devices)
unfolding read_devices
read_devices-names w =
    let e = devices_loop_lem (w.read_dir (codes "/dev")) [] [] in
    (ap (λ p. p.0) e, ap (λ p. p.1) e ∙ ap nvme_names (sym (ap (λ p. p.0) e)))

-- The names are those of the enclosures, and each enclosure has fans.
abbrev pub IsNoted : List QnapEnclosure → List Text → Type 0
IsNoted enclosures names =
    (names ≡ map (λ e. e.name) enclosures)
    × All (λ e. int_eq e.fan_count (pos 0) ≡ false) enclosures

enclosures_loop-IsNoted :
    (lines : List Text) (es es' : List QnapEnclosure) (names names' : List Text)
    → IsNoted es names
    → enclosures_loop lines es names ≡ ok (es', names')
    → IsNoted es' names'
unfolding enclosures_loop
enclosures_loop-IsNoted [] es es' names names' (named, fans) ran =
    let same_es : es ≡ es' = cc in
    let same_names : names ≡ names' = cc in
    (
      sym same_names ∙ named ∙ ap (map (λ e. e.name)) same_es,
      subst (All (λ e. int_eq e.fan_count (pos 0) ≡ false)) same_es fans,
    )
enclosures_loop-IsNoted (line ∷ lines) es es' names names' (named, fans) ran =
    by_line (parse_enclosure line) refl (enclosures_loop-IsNoted lines)
  where
    by_line :
        (r : Fetch QnapEnclosure)
        → parse_enclosure line ≡ r
        → ((es es' : List QnapEnclosure) (names names' : List Text)
            → IsNoted es names
            → enclosures_loop lines es names ≡ ok (es', names')
            → IsNoted es' names')
        → IsNoted es' names'
    by_line (err e) q rest =
        let step : enclosures_loop (line ∷ lines) es names ≡ err e = rw (q, enclosures_loop) refl in
        absurd (cc)
    by_line panic q rest =
        let step : enclosures_loop (line ∷ lines) es names ≡ panic = rw (q, enclosures_loop) refl in
        absurd (cc)
    by_line (ok enc) q rest = elim (Bool-cases (int_eq enc.fan_count (pos 0))) [
      | inl none_there ↦
          let step : enclosures_loop (line ∷ lines) es names ≡ enclosures_loop lines es names =
            rw (q, enclosures_loop) (rw none_there refl) in
          rest es es' names names' (named, fans) (sym step ∙ ran)
      | inr some_there ↦
          let step : enclosures_loop (line ∷ lines) es names
              ≡ enclosures_loop lines (es ++ enc ∷ []) (names ++ enc.name ∷ []) =
            rw (q, enclosures_loop) (rw some_there refl) in
          rest (es ++ enc ∷ []) es' (names ++ enc.name ∷ []) names'
            (
              ap (λ l. l ++ enc.name ∷ []) named ∙ sym (map-append (λ e. e.name) es (enc ∷ [])),
              All-append (λ e. int_eq e.fan_count (pos 0) ≡ false) es (enc ∷ []) fans
                  (some_there, tt),
            )
            (sym step ∙ ran)
    ]

-- Where the reading of the enclosures does not panic, the status lists exactly the names of the
-- enclosures, in order, and every enclosure has a number of fans other than 0.
pub read_enclosures-IsNoted :
    (w : World) (hal_app : Text) (enclosures : List QnapEnclosure) (names : List Text)
    → read_enclosures w hal_app ≡ ok (enclosures, names)
    → IsNoted enclosures names
unfolding read_enclosures
read_enclosures-IsNoted w hal_app enclosures names ran = elim (Bool-cases (is_empty hal_app)) [
  | inl unknown ↦
      let step : read_enclosures w hal_app ≡ ok ([], []) = rw (unknown, read_enclosures) refl in
      found_none (sym step ∙ ran)
  | inr known ↦ by_output known (exec_command w hal_app (codes "--se_enum" ∷ [])) refl
]
  where
    found_none :
        ◌≡◌ {A = Fetch (List QnapEnclosure × List Text)} (ok ([], [])) (ok (enclosures, names))
        → IsNoted enclosures names
    found_none q =
        let same_es : [] ≡ enclosures = cc in
        let same_names : [] ≡ names = cc in rw (sym same_es, sym same_names) (refl, tt)

    by_output :
        is_empty hal_app ≡ false
        → (r : Fetch Text) → exec_command w hal_app (codes "--se_enum" ∷ []) ≡ r
        → IsNoted enclosures names
    by_output known (err e) q =
        let step : read_enclosures w hal_app ≡ ok ([], []) = rw (known, q, read_enclosures) refl in
        found_none (sym step ∙ ran)
    by_output known panic q =
        let step : read_enclosures w hal_app ≡ panic = rw (known, q, read_enclosures) refl in
        absurd (cc)
    by_output known (ok output) q =
        let step : read_enclosures w hal_app
            ≡ enclosures_loop (find_matching_lines (codes "qm2_") output) [] [] =
          rw (known, q, read_enclosures) refl in
        enclosures_loop-IsNoted (find_matching_lines (codes "qm2_") output) [] enclosures [] names
          (refl, tt) (sym step ∙ ran)
