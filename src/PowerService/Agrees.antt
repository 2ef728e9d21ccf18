-- ===== src/PowerService/Agrees.antt =====
-- What the service of power/Power.cpp believes to have applied, against the nodes.
use android_device_meizu_m.Prelude.{
  ℕ, Bool, false, not, ◌||◌, Option, none, some, List, [], ◌∷◌, if_ind, if◌then◌else◌, ℤ, pos,
  negsuc, equal,
}
use android_device_meizu_m.PowerService.{Power, Nodes, System, new_power}
use android_device_meizu_m.PowerService.Config.{Scanned, load_boost_config_locked, is_invalid}
use android_device_meizu_m.PowerService.Profile.{ProfileIo}
use android_device_meizu_m.PowerService.Boost.{
  ApplyIo, apply_boost_locked, requesting, request_boost_locked, Source,
}
use android_device_meizu_m.PowerService.Calls.{
  construct, boost_worker_round, Mode, low_power, sustained_performance, launch,
  expensive_rendering, interactive, display_inactive, other, Boost, mode, boost, worker, ModeIo,
  with_flag, switch_mode, set_mode, set_boost, Call, run, run_all,
}
use android_device_meizu_m.PowerService.Applied.{
  Agrees, apply_gpu_floor-Agrees, apply_gpu_ceiling-Agrees, ProfileFits, apply_power_profile-Agrees,
  ApplyFits, apply_boost-Agrees,
}

abbrev pub ModeFits : ModeIo → Type 0
ModeFits io = ProfileFits io.profile × ApplyFits io.requested × ApplyFits io.applied

switch_mode-Agrees :
    (type : Mode) (enabled : Bool) (io : ModeIo) (s : System)
    → ModeFits io
    → Agrees s
    → Agrees (switch_mode type enabled io s)
unfolding request_boost_locked
switch_mode-Agrees low_power enabled io s fits a =
    if_ind Agrees (not (equal s.power.low_power enabled) || not s.power.profile_applied)
      (apply_power_profile-Agrees enabled io.profile s fits.0 a) a
switch_mode-Agrees sustained_performance enabled io s fits a =
    apply_gpu_ceiling-Agrees io.profile.ceiling (with_flag sustained_performance enabled s) fits.0.1
      a
switch_mode-Agrees launch enabled io s fits a =
    let duration_ms = if enabled then pos s.power.launch_ms else negsuc 0 in
    apply_boost-Agrees io.requested
      (requesting Source.launch duration_ms s.power.launch_ms io.clock s) fits.1 a
switch_mode-Agrees expensive_rendering enabled io s fits a =
    apply_gpu_floor-Agrees io.profile.floor (with_flag expensive_rendering enabled s) fits.0.2 a
switch_mode-Agrees interactive enabled io s fits a =
    apply_gpu_floor-Agrees io.profile.floor (with_flag interactive enabled s) fits.0.2 a
switch_mode-Agrees display_inactive enabled io s fits a =
    apply_gpu_floor-Agrees io.profile.floor (with_flag display_inactive enabled s) fits.0.2 a
switch_mode-Agrees (other n) enabled io s fits a = a

set_boost-Agrees :
    (type : Boost) (duration_ms : ℤ) (clock : ℕ) (io : ApplyIo) (s : System)
    → ApplyFits io
    → Agrees s
    → Agrees (set_boost type duration_ms clock io s)
unfolding set_boost request_boost_locked
set_boost-Agrees Boost.interaction duration_ms clock io s fits a =
    apply_boost-Agrees io (requesting Source.interaction duration_ms s.power.interaction_ms clock s)
      fits a
set_boost-Agrees Boost.display_update_imminent duration_ms clock io s fits a =
    apply_boost-Agrees io (requesting Source.display duration_ms s.power.display_ms clock s) fits a
set_boost-Agrees (Boost.other n) duration_ms clock io s fits a = a

abbrev pub CallFits : Call → Type 0
CallFits (mode type enabled io) = ModeFits io
CallFits (boost type duration_ms clock io) = ApplyFits io
CallFits (worker io clock) = ApplyFits io

abbrev pub AllFit : List Call → Type 0
AllFit [] = Unit
AllFit (c ∷ cs) = CallFits c × AllFit cs

pub run-Agrees : (c : Call) (s : System) → CallFits c → Agrees s → Agrees (run c s)
unfolding set_mode boost_worker_round
run-Agrees (mode type enabled io) s fits a =
    apply_boost-Agrees io.applied (switch_mode type enabled io s) fits.2
      (switch_mode-Agrees type enabled io s fits a)
run-Agrees (boost type duration_ms clock io) s fits a =
    set_boost-Agrees type duration_ms clock io s fits a
run-Agrees (worker io clock) s fits a =
    if_ind (λ (r : System × Option (Option ℕ)). Agrees r.0) s.power.stop_boost a
      (apply_boost-Agrees io s fits a)

run_all-Agrees_from : (cs : List Call) (s : System) → AllFit cs → Agrees s → Agrees (run_all cs s)
unfolding run_all
run_all-Agrees_from [] s fits a = a
run_all-Agrees_from (c ∷ cs) s fits a =
    run_all-Agrees_from cs (run c s) fits.1 (run-Agrees c s fits.0 a)

load-Agrees :
    (config : Option Scanned) (nodes : Nodes)
    → Agrees (record { power = load_boost_config_locked config new_power; nodes = nodes })
unfolding load_boost_config_locked
load-Agrees none nodes = ((λ v e. cc), (λ v e. cc), (λ t e. cc), (λ t e. cc), (λ e. cc))
load-Agrees (some c) nodes =
    if_ind (λ (p : Power). Agrees (record { power = p; nodes = nodes })) (is_invalid c)
      ((λ v e. cc), (λ v e. cc), (λ t e. cc), (λ t e. cc), (λ e. cc))
      ((λ v e. cc), (λ v e. cc), (λ t e. cc), (λ t e. cc), (λ e. cc))

-- As long as no write is cut short, after any calls and rounds of the worker, and any failures of
-- open and write: each value that the service takes for applied, of the two boosts, the profile and
-- the two locks of the GPU, is the text that its node took last, whatever the nodes held before.
pub run_all-Agrees :
    (config : Option Scanned) (boost_io : ApplyIo) (profile_io : ProfileIo) (nodes : Nodes)
    (cs : List Call)
    → ApplyFits boost_io
    → ProfileFits profile_io
    → AllFit cs
    → Agrees (run_all cs (construct config boost_io profile_io nodes))
unfolding construct
run_all-Agrees config boost_io profile_io nodes cs f g fits =
    let s : System = record { power = load_boost_config_locked config new_power; nodes = nodes } in
    run_all-Agrees_from cs (construct config boost_io profile_io nodes) fits (
      apply_power_profile-Agrees false profile_io (apply_boost_locked boost_io s) g
        (apply_boost-Agrees boost_io s f (load-Agrees config nodes)))
