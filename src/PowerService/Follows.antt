-- ===== src/PowerService/Follows.antt =====
-- The GPU's locks and the hotplug profile of power/Power.cpp over the modes that are set.
use android_device_meizu_m.Prelude.{
  if_case, none, arith, ℕ, ◌≡◌, refl, sym, subst, ap, ◌∙◌, Bool, true, false, not, ◌||◌, Option,
  some, List, [], ◌∷◌, if_ind, if◌then◌else◌, ℤ, pos, negsuc, is_zero, equal,
}
use android_device_meizu_m.PowerService.{Power, Nodes, System, new_power}
use android_device_meizu_m.PowerService.Write.{NodeIo, Node, write_node}
use android_device_meizu_m.PowerService.Frame.{write_node-Frames}
use android_device_meizu_m.PowerService.Config.{is_invalid, Scanned, load_boost_config_locked}
use android_device_meizu_m.PowerService.Profile.{
  gpu_floor, gpu_ceiling, apply_gpu_floor_locked, apply_gpu_ceiling_locked, ProfileIo, profile_text,
  apply_power_profile_locked,
}
use android_device_meizu_m.PowerService.Boost.{
  ApplyIo, apply_boost_locked, requesting, request_boost_locked, Source,
}
use android_device_meizu_m.PowerService.Calls.{
  construct, boost_worker_round, Mode, low_power, sustained_performance, launch,
  expensive_rendering, interactive, display_inactive, other, Boost, mode, boost, worker, ModeIo,
  with_flag, switch_mode, set_mode, set_boost, Call, run, run_all,
}
use android_device_meizu_m.PowerService.Applied.{ApplyFits, ProfileFits}
use android_device_meizu_m.PowerService.Agrees.{AllFit, run_all-Agrees}
use android_device_meizu_m.PowerService.Rest.{Succeeds, write_node_done}
use android_device_meizu_m.PowerService.Modes.{
  modes-apply_boost, apply_gpu_floor_done, apply_gpu_ceiling_done,
}
use android_device_meizu_m.PowerService.Asked.{
  Modes, first_modes, mode_set, asked, all_asked, modes_of, Follows, nodes_follow,
}

abbrev pub ProfileSucceeds : ProfileIo → Type 0
ProfileSucceeds io = Succeeds io.profile × Succeeds io.ceiling × Succeeds io.floor

-- The service has applied the locks and the profile that belong to its modes, which are `m`.
abbrev HasFollowed : Modes → Power → Type 0
HasFollowed m p =
    (p.applied_gpu_floor ≡ some (gpu_floor p))
    × (p.applied_gpu_ceiling ≡ some (gpu_ceiling p))
    × (p.profile_applied ≡ true)
    × (modes_of p ≡ m)

apply_power_profile-HasFollowed :
    (low : Bool) (io : ProfileIo) (s : System) (m : Modes)
    → ProfileSucceeds io
    → modes_of s.power ≡ m
    → HasFollowed (record m { low_power = low }) (apply_power_profile_locked low io s).power
unfolding apply_power_profile_locked
apply_power_profile-HasFollowed low io s m h same =
    let w = write_node Node.hotplug_profile (profile_text low) io.profile s in
    let s1 : System = record w.1 {
      power = record w.1.power { low_power = low; profile_applied = is_zero w.0 };
    } in
    let s2 = apply_gpu_ceiling_locked io.ceiling s1 in
    let e : (apply_gpu_floor_locked io.floor s2).power ≡ record s1.power {
      applied_gpu_ceiling = some (gpu_ceiling s1.power);
      applied_gpu_floor = some (gpu_floor s1.power);
    } =
      apply_gpu_floor_done io.floor s2 h.2
      ∙ ap (λ (p : Power). record p { applied_gpu_floor = some (gpu_floor p) })
          (apply_gpu_ceiling_done io.ceiling s1 h.1) in
    let kept = (write_node-Frames Node.hotplug_profile (profile_text low) io.profile s).power in
    subst (HasFollowed (record m { low_power = low })) (sym e) (
      refl,
      refl,
      write_node_done Node.hotplug_profile (profile_text low) io.profile s h.0,
      ap (λ (p : Power). record (modes_of p) { low_power = low }) kept
          ∙ ap (λ (x : Modes). record x { low_power = low }) same,
    )

floor-HasFollowed :
    (io : NodeIo) (s : System) (m : Modes)
    → Succeeds io
    → s.power.applied_gpu_ceiling ≡ some (gpu_ceiling s.power)
    → s.power.profile_applied ≡ true
    → modes_of s.power ≡ m
    → HasFollowed m (apply_gpu_floor_locked io s).power
floor-HasFollowed io s m h c p e =
    subst (HasFollowed m) (sym (apply_gpu_floor_done io s h)) (refl, c, p, e)

-- LOW_POWER is not applied again when it has been already.
same_low_power :
    (low enabled applied : Bool) → (not (equal low enabled) || not applied) ≡ false → low ≡ enabled
same_low_power low enabled applied h = ground arith

switch_mode-HasFollowed :
    (type : Mode) (enabled : Bool) (io : ModeIo) (s : System) (m : Modes)
    → ProfileSucceeds io.profile
    → HasFollowed m s.power
    → HasFollowed (mode_set type enabled m) (switch_mode type enabled io s).power
unfolding request_boost_locked
switch_mode-HasFollowed low_power enabled io s m h f =
    let set : Bool → Modes = λ b. record m { low_power = b } in
    if_case (λ (t : System). HasFollowed (set enabled) t.power)
      (not (equal s.power.low_power enabled) || not s.power.profile_applied)
      (λ _. apply_power_profile-HasFollowed enabled io.profile s m h f.3)
      (λ no.
        let low = same_low_power s.power.low_power enabled s.power.profile_applied no in
        (
          f.0,
          f.1,
          f.2,
          ap (λ b. record (modes_of s.power) { low_power = b }) low
              ∙ ap (λ (x : Modes). record x { low_power = enabled }) f.3,
        ))
switch_mode-HasFollowed sustained_performance enabled io s m h f =
    subst (HasFollowed (mode_set sustained_performance enabled m))
      (sym
        (apply_gpu_ceiling_done io.profile.ceiling (with_flag sustained_performance enabled s) h.1))
      (f.0, refl, f.2, ap (mode_set sustained_performance enabled) f.3)
switch_mode-HasFollowed launch enabled io s m h f =
    let duration_ms = if enabled then pos s.power.launch_ms else negsuc 0 in
    subst (HasFollowed m)
      (sym (
        modes-apply_boost io.requested
          (requesting Source.launch duration_ms s.power.launch_ms io.clock s)))
      f
switch_mode-HasFollowed expensive_rendering enabled io s m h f =
    floor-HasFollowed io.profile.floor (with_flag expensive_rendering enabled s)
      (mode_set expensive_rendering enabled m) h.2 f.1 f.2
      (ap (mode_set expensive_rendering enabled) f.3)
switch_mode-HasFollowed interactive enabled io s m h f =
    floor-HasFollowed io.profile.floor (with_flag interactive enabled s)
      (mode_set interactive enabled m) h.2 f.1 f.2 (ap (mode_set interactive enabled) f.3)
switch_mode-HasFollowed display_inactive enabled io s m h f =
    floor-HasFollowed io.profile.floor (with_flag display_inactive enabled s)
      (mode_set display_inactive enabled m) h.2 f.1 f.2 (ap (mode_set display_inactive enabled) f.3)
switch_mode-HasFollowed (other n) enabled io s m h f = f

set_boost-HasFollowed :
    (type : Boost) (duration_ms : ℤ) (clock : ℕ) (io : ApplyIo) (s : System) (m : Modes)
    → HasFollowed m s.power
    → HasFollowed m (set_boost type duration_ms clock io s).power
unfolding set_boost request_boost_locked
set_boost-HasFollowed Boost.interaction duration_ms clock io s m f =
    subst (HasFollowed m)
      (sym (
        modes-apply_boost io
          (requesting Source.interaction duration_ms s.power.interaction_ms clock s)))
      f
set_boost-HasFollowed Boost.display_update_imminent duration_ms clock io s m f =
    subst (HasFollowed m)
      (sym
        (modes-apply_boost io (requesting Source.display duration_ms s.power.display_ms clock s)))
      f
set_boost-HasFollowed (Boost.other n) duration_ms clock io s m f = f

-- The writes of the modes' calls succeed; those of the boosts need not.
abbrev pub CallSucceeds : Call → Type 0
CallSucceeds (mode type enabled io) = ProfileSucceeds io.profile
CallSucceeds (boost type duration_ms clock io) = Unit
CallSucceeds (worker io clock) = Unit

abbrev pub AllSucceed : List Call → Type 0
AllSucceed [] = Unit
AllSucceed (c ∷ cs) = CallSucceeds c × AllSucceed cs

run-HasFollowed :
    (c : Call) (s : System) (m : Modes)
    → CallSucceeds c
    → HasFollowed m s.power
    → HasFollowed (asked c m) (run c s).power
unfolding set_mode boost_worker_round
run-HasFollowed (mode type enabled io) s m h f =
    subst (HasFollowed (mode_set type enabled m))
      (sym (modes-apply_boost io.applied (switch_mode type enabled io s)))
      (switch_mode-HasFollowed type enabled io s m h f)
run-HasFollowed (boost type duration_ms clock io) s m h f =
    set_boost-HasFollowed type duration_ms clock io s m f
run-HasFollowed (worker io clock) s m h f =
    if_ind (λ (r : System × Option (Option ℕ)). HasFollowed m r.0.power) s.power.stop_boost f
      (subst (HasFollowed m) (sym (modes-apply_boost io s)) f)

run_all-HasFollowed :
    (cs : List Call) (s : System) (m : Modes)
    → AllSucceed cs
    → HasFollowed m s.power
    → HasFollowed (all_asked cs m) (run_all cs s).power
unfolding run_all
run_all-HasFollowed [] s m h f = f
run_all-HasFollowed (c ∷ cs) s m h f =
    run_all-HasFollowed cs (run c s) (asked c m) h.1 (run-HasFollowed c s m h.0 f)

load-modes :
    (config : Option Scanned) → modes_of (load_boost_config_locked config new_power) ≡ first_modes
unfolding load_boost_config_locked
load-modes none = refl
load-modes (some c) = if_ind (λ p. modes_of p ≡ first_modes) (is_invalid c) refl refl

-- After any calls and rounds of the worker, where no write is cut short and the writes for the modes
-- succeed, those for the boosts succeeding or not: by the modes as the calls set them last, the GPU's
-- floor is 420 when the screen is on and not inactive and expensive rendering is set, and 0 otherwise;
-- its ceiling is 544 in the low-power or the sustained mode, and 0 otherwise; the hotplug profile is 2
-- in the low-power mode, and 0 otherwise.
pub modes_follow :
    (config : Option Scanned) (boost_io : ApplyIo) (profile_io : ProfileIo) (nodes : Nodes)
    (cs : List Call)
    → ApplyFits boost_io
    → ProfileFits profile_io
    → AllFit cs
    → ProfileSucceeds profile_io
    → AllSucceed cs
    → Follows
        (all_asked cs first_modes)
        (run_all cs (construct config boost_io profile_io nodes)).nodes
unfolding construct
modes_follow config boost_io profile_io nodes cs f g fits h succeed =
    let s : System = record { power = load_boost_config_locked config new_power; nodes = nodes } in
    let a = run_all-Agrees config boost_io profile_io nodes cs f g fits in
    let t = run_all cs (construct config boost_io profile_io nodes) in
    let started : modes_of (apply_boost_locked boost_io s).power ≡ first_modes =
      ap modes_of (modes-apply_boost boost_io s) ∙ load-modes config in
    let k =
      run_all-HasFollowed cs (construct config boost_io profile_io nodes) first_modes succeed (
        apply_power_profile-HasFollowed false profile_io (apply_boost_locked boost_io s) first_modes
          h started) in
    subst (λ (m : Modes). Follows m t.nodes) k.3
      (nodes_follow t.power t.nodes (a.2 (gpu_floor t.power) k.0) (a.3 (gpu_ceiling t.power) k.1)
        (a.4 k.2))
