-- ===== src/Exporter/Volume/Endless.antt =====
-- A `getsysinfo` that counts volumes and describes none.
use qnapexporter.Base.{
  ℕ, leb, true, arith, zero, suc, ◌<◌, ◌≤◌, ◌*◌, none, List, [], ◌∷◌, lt→ltb, Text, codes, atoi,
  some, pos, format_nat, trim_space, out_of_fuel, ◌≡◌, refl,
}
use qnapexporter.Exporter.Errors.{ok}
use qnapexporter.Exporter.Metric.{FloatOps}
use qnapexporter.Exporter.World.{World, exec_command}
use qnapexporter.Exporter.Volume.{
  VolumeInfo, not_counted, volume_round, volume_loop, volume_count, volume_info_size, max_alloc,
  read_sys_vol_info, next_index,
}

module _ {F : Type 0} (ops : FloatOps F) (w : World) (g : Text) where
  -- No index has a description.
  abbrev pub Undescribed : Type 0
  Undescribed = (idx : ℕ) → w.exec g (codes "vol_desc" ∷ format_nat idx ∷ []) ≡ none

  round-undescribed : Undescribed → (idx : ℕ) → volume_round ops w g idx ≡ ok not_counted
  unfolding volume_round exec_command
  round-undescribed h idx = rw (h idx, volume_round, exec_command)

  loop-undescribed :
      Undescribed
      → (fuel vol_count parsed idx : ℕ) (volumes : List (VolumeInfo F)) → parsed < vol_count
      → volume_loop ops w g fuel vol_count parsed idx volumes ≡ out_of_fuel
  unfolding volume_loop
  loop-undescribed h zero vol_count parsed idx volumes more = refl
  loop-undescribed h (suc fuel) vol_count parsed idx volumes more =
      rw (lt→ltb parsed vol_count more, round-undescribed h idx, volume_loop)
        (loop-undescribed h fuel vol_count parsed (next_index idx) volumes more)

  -- If `getsysinfo` reports a positive number of volumes, for which there is room in memory, and fails to
  -- describe any index, the loop of `readSysVolInfo` never ends: no number of rounds is enough.
  pub read_sys_vol_info-endless :
      (output : Text) (count fuel : ℕ)
      → w.exec g (codes "sysvolnum" ∷ []) ≡ some output
      → atoi (trim_space output) ≡ some (pos count)
      → 0 < count
      → count * volume_info_size ≤ max_alloc
      → Undescribed
      → read_sys_vol_info ops w g fuel ≡ out_of_fuel
  unfolding read_sys_vol_info volume_count exec_command
  read_sys_vol_info-endless output count fuel asked read positive small h =
      let room : leb (count * volume_info_size) max_alloc ≡ true = ground (arith, small) in
      rw (asked, read_sys_vol_info, volume_count, exec_command)
        (rw read (rw room (loop-undescribed h fuel count 0 0 [] positive)))
