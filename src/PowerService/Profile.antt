-- ===== src/PowerService/Profile.antt =====
-- power/Power.cpp: ApplyGpuFloorLocked, ApplyGpuCeilingLocked and ApplyPowerProfileLocked.
use android_device_meizu_m.Prelude.{
  ℕ, Bool, false, not, ◌&&◌, ◌||◌, Option, none, some, List, same, is_zero, if◌then◌else◌,
}
use android_device_meizu_m.PowerService.{
  Power, System, profile_high, profile_eco, gpu_unlock, gpu_floor_rendering, gpu_ceiling_limited,
}
use android_device_meizu_m.PowerService.Write.{
  NodeIo, hotplug_profile, gpu_dvfs_min_lock, gpu_dvfs_max_lock, write_node,
}

-- applied != nullptr && strcmp(applied, text) == 0
abbrev pub is_applied : Option (List ℕ) → List ℕ → Bool
is_applied none text = false
is_applied (some applied) text = same applied text

-- `floor` of ApplyGpuFloorLocked
abbrev pub gpu_floor : Power → List ℕ
gpu_floor p =
    if p.interactive && not p.display_inactive && p.expensive_rendering
    then gpu_floor_rendering
    else gpu_unlock

unfoldable pub apply_gpu_floor_locked : NodeIo → System → System
unfolding write_node
apply_gpu_floor_locked io s =
    let floor = gpu_floor s.power in
    let (error, s') = write_node gpu_dvfs_min_lock floor io s in
    if is_applied s.power.applied_gpu_floor floor
    then s
    else if is_zero error
    then record s' { power = record s'.power { applied_gpu_floor = some floor } }
    else s'

-- `ceiling` of ApplyGpuCeilingLocked
abbrev pub gpu_ceiling : Power → List ℕ
gpu_ceiling p = if p.low_power || p.sustained_performance then gpu_ceiling_limited else gpu_unlock

unfoldable pub apply_gpu_ceiling_locked : NodeIo → System → System
unfolding write_node
apply_gpu_ceiling_locked io s =
    let ceiling = gpu_ceiling s.power in
    let (error, s') = write_node gpu_dvfs_max_lock ceiling io s in
    if is_applied s.power.applied_gpu_ceiling ceiling
    then s
    else if is_zero error
    then record s' { power = record s'.power { applied_gpu_ceiling = some ceiling } }
    else s'

-- The answers to the writes of ApplyPowerProfileLocked.
pub record ProfileIo : Type 0 where
  pub profile : NodeIo
  pub ceiling : NodeIo
  pub floor : NodeIo

abbrev pub profile_text : Bool → List ℕ
profile_text low_power = if low_power then profile_eco else profile_high

unfoldable pub apply_power_profile_locked : Bool → ProfileIo → System → System
unfolding write_node apply_gpu_floor_locked apply_gpu_ceiling_locked
apply_power_profile_locked low_power io s =
    let (profile_error, s') = write_node hotplug_profile (profile_text low_power) io.profile s in
    let s'' = record s' {
      power = record s'.power { low_power = low_power; profile_applied = is_zero profile_error };
    } in
    apply_gpu_floor_locked io.floor (apply_gpu_ceiling_locked io.ceiling s'')
