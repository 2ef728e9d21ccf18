-- ===== src/PowerService/Safe.antt =====
-- The CPU floors and the deadlines of power/Power.cpp over any calls, with any failures.
use android_device_meizu_m.Prelude.{
  ℕ, ◌≡◌, refl, sym, subst, ap, ◌∙◌, Bool, true, false, not, ◌||◌, Option, none, some, List, [],
  ◌∷◌, ltb, arith, if_ind, ◌⊎◌, if◌then◌else◌, ℤ, pos, negsuc, equal,
}
use android_device_meizu_m.PowerService.{
  FloorFds, Deadlines, Power, Nodes, System, no_fds, no_deadlines, new_power,
}
use android_device_meizu_m.PowerService.Config.{Scanned, load_boost_config_locked, is_invalid}
use android_device_meizu_m.PowerService.Profile.{ProfileIo, apply_power_profile_locked}
use android_device_meizu_m.PowerService.Boost.{
  both_held, apply_cpu_floor_locked, ApplyIo, apply_foreground, apply_boost_locked, is_allowed,
  is_active, live, live_deadlines, allowed_deadlines, with_deadlines, request_boost_locked,
  requesting, Source,
}
use android_device_meizu_m.PowerService.Calls.{
  construct, stopping, destroy, boost_worker_round, Mode, low_power, sustained_performance, launch,
  expensive_rendering, interactive, display_inactive, other, Boost, ModeIo, with_flag, switch_mode,
  set_mode, set_boost, Call, mode, boost, worker, run, run_all,
}
use android_device_meizu_m.PowerService.Frame.{
  apply_foreground_blank, apply_top_app_blank, apply_gpu_floor_blank, apply_gpu_ceiling_blank,
  apply_power_profile_blank, apply_cpu_floor_frames,
}
use android_device_meizu_m.PowerService.Held.{
  entry, Holds, apply_cpu_floor-Holds, apply_cpu_floor-IsWhole,
}

-- The descriptors are those that the kernel has, both or none; there are none without a live boost,
-- and there is no live boost while the modes bar it.
abbrev pub IsSafe : System → Type 0
IsSafe s =
    Holds s
    × ((s.power.cpu_floor_fds ≡ no_fds) ⊎ (both_held s.power.cpu_floor_fds ≡ true))
    × (s.power.boost_deadlines ≡ no_deadlines → s.power.cpu_floor_fds ≡ no_fds)
    × (is_allowed s.power ≡ false → s.power.boost_deadlines ≡ no_deadlines)

not_live : (now t : ℕ) → live now t ≡ 0 → ltb now t ≡ false
not_live now t h = ground arith

pub not_active :
    (now : ℕ) (d : Deadlines) → live_deadlines now d ≡ no_deadlines → is_active now d ≡ false
not_active now d h =
    let i = not_live now d.interaction (ap (λ (x : Deadlines). x.interaction) h) in
    let j = not_live now d.display (ap (λ (x : Deadlines). x.display) h) in
    let k = not_live now d.launch (ap (λ (x : Deadlines). x.launch) h) in ground (arith, i, j, k)

live_none : (now : ℕ) → live now 0 ≡ 0
live_none now = ground arith

barred_deadlines :
    (now : ℕ) (p : Power)
    → is_allowed p ≡ false
    → live_deadlines now (allowed_deadlines p) ≡ no_deadlines
barred_deadlines now p h =
    ap (λ b. live_deadlines now (if b then p.boost_deadlines else no_deadlines)) h
    ∙ ap (λ k. record { interaction = k; display = k; launch = k }) (live_none now)

-- Each ApplyBoostLocked establishes it.
apply_boost-IsSafe : (io : ApplyIo) (s : System) → Holds s → IsSafe (apply_boost_locked io s)
unfolding apply_boost_locked
apply_boost-IsSafe io s h =
    let s1 = apply_foreground io.foreground s in
    let d = allowed_deadlines s1.power in
    let active = is_active io.now d in
    let s2 = with_deadlines (live_deadlines io.now d) s1 in
    let s3 = apply_cpu_floor_locked active io.floor0 io.floor1 s2 in
    let h1 : Holds s1 = subst Holds (sym (apply_foreground_blank io.foreground s)) h in
    let w = apply_cpu_floor-IsWhole active io.floor0 io.floor1 s2 in
    let f = apply_cpu_floor_frames active io.floor0 io.floor1 s2 in
    let same_deadlines : s3.power.boost_deadlines ≡ live_deadlines io.now d =
      ap (λ (t : System). t.power.boost_deadlines) f in
    let same_allowed : is_allowed s3.power ≡ is_allowed s1.power =
      ap (λ (t : System). is_allowed t.power) f in
    let safe : IsSafe s3 = (
      apply_cpu_floor-Holds active io.floor0 io.floor1 s2 h1,
      w.whole,
      (λ e. w.idle (not_active io.now d (sym same_deadlines ∙ e))),
      (λ b. same_deadlines ∙ barred_deadlines io.now s1.power (sym same_allowed ∙ b)),
    ) in
    subst IsSafe (sym (apply_top_app_blank active io.top_app s3)) safe

request-IsSafe :
    (source : Source) (duration_ms : ℤ) (default_ms clock : ℕ) (io : ApplyIo) (s : System)
    → Holds s
    → IsSafe (request_boost_locked source duration_ms default_ms clock io s)
unfolding request_boost_locked
request-IsSafe source duration_ms default_ms clock io s h =
    apply_boost-IsSafe io (requesting source duration_ms default_ms clock s) h

profile-Holds :
    (low : Bool) (io : ProfileIo) (s : System)
    → Holds s
    → Holds (apply_power_profile_locked low io s)
profile-Holds low io s h = subst Holds (sym (apply_power_profile_blank low io s)) h

switch_mode-Holds :
    (type : Mode) (enabled : Bool) (io : ModeIo) (s : System)
    → Holds s
    → Holds (switch_mode type enabled io s)
switch_mode-Holds low_power enabled io s h =
    if_ind Holds (not (equal s.power.low_power enabled) || not s.power.profile_applied)
      (profile-Holds enabled io.profile s h) h
switch_mode-Holds sustained_performance enabled io s h =
    subst Holds
      (sym (apply_gpu_ceiling_blank io.profile.ceiling (with_flag sustained_performance enabled s)))
      h
switch_mode-Holds launch enabled io s h =
    let duration_ms = if enabled then pos s.power.launch_ms else negsuc 0 in
    (request-IsSafe Source.launch duration_ms s.power.launch_ms io.clock io.requested s h).0
switch_mode-Holds expensive_rendering enabled io s h =
    subst Holds
      (sym (apply_gpu_floor_blank io.profile.floor (with_flag expensive_rendering enabled s))) h
switch_mode-Holds interactive enabled io s h =
    subst Holds (sym (apply_gpu_floor_blank io.profile.floor (with_flag interactive enabled s))) h
switch_mode-Holds display_inactive enabled io s h =
    subst Holds
      (sym (apply_gpu_floor_blank io.profile.floor (with_flag display_inactive enabled s))) h
switch_mode-Holds (other n) enabled io s h = h

set_boost-IsSafe :
    (type : Boost) (duration_ms : ℤ) (clock : ℕ) (io : ApplyIo) (s : System)
    → IsSafe s
    → IsSafe (set_boost type duration_ms clock io s)
unfolding set_boost
set_boost-IsSafe Boost.interaction duration_ms clock io s h =
    request-IsSafe Source.interaction duration_ms s.power.interaction_ms clock io s h.0
set_boost-IsSafe Boost.display_update_imminent duration_ms clock io s h =
    request-IsSafe Source.display duration_ms s.power.display_ms clock io s h.0
set_boost-IsSafe (Boost.other n) duration_ms clock io s h = h

pub run-IsSafe : (c : Call) (s : System) → IsSafe s → IsSafe (run c s)
unfolding set_mode boost_worker_round
run-IsSafe (mode type enabled io) s h =
    apply_boost-IsSafe io.applied (switch_mode type enabled io s)
      (switch_mode-Holds type enabled io s h.0)
run-IsSafe (boost type duration_ms clock io) s h = set_boost-IsSafe type duration_ms clock io s h
run-IsSafe (worker io clock) s h =
    if_ind (λ (r : System × Option (Option ℕ)). IsSafe r.0) s.power.stop_boost h
      (apply_boost-IsSafe io s h.0)

run_all-IsSafe_from : (cs : List Call) (s : System) → IsSafe s → IsSafe (run_all cs s)
unfolding run_all
run_all-IsSafe_from [] s h = h
run_all-IsSafe_from (c ∷ cs) s h = run_all-IsSafe_from cs (run c s) (run-IsSafe c s h)

load_keeps :
    (config : Option Scanned)
    → let p = load_boost_config_locked config new_power in
      (p.cpu_floor_fds ≡ no_fds) × (p.low_power ≡ false)
unfolding load_boost_config_locked
load_keeps none = (refl, refl)
load_keeps (some c) =
    if_ind (λ (p : Power). (p.cpu_floor_fds ≡ no_fds) × (p.low_power ≡ false)) (is_invalid c)
      (refl, refl) (refl, refl)

normal_allowed :
    (p : Power) → is_allowed (record p { low_power = false }) ≡ false → is_allowed p ≡ false
normal_allowed p h = ground arith

-- The service of a process that has no descriptor open on the floors.
abbrev pub IsFresh : Nodes → Type 0
IsFresh n = (n.cluster0_freq_min ≡ []) × (n.cluster1_freq_min ≡ [])

construct-IsSafe :
    (config : Option Scanned) (boost_io : ApplyIo) (profile_io : ProfileIo) (nodes : Nodes)
    → IsFresh nodes
    → IsSafe (construct config boost_io profile_io nodes)
unfolding construct
construct-IsSafe config boost_io profile_io nodes fresh =
    let p = load_boost_config_locked config new_power in
    let s0 : System = record { power = p; nodes = nodes } in
    let e = sym (load_keeps config).0 in
    let h0 : Holds s0 = (
      fresh.0 ∙ ap (λ (f : FloorFds). entry f.cluster0) e,
      fresh.1 ∙ ap (λ (f : FloorFds). entry f.cluster1) e,
    ) in
    let s = apply_boost_locked boost_io s0 in
    let safe = apply_boost-IsSafe boost_io s0 h0 in
    let normal : IsSafe (record s { power = record s.power { low_power = false } }) =
      (safe.0, safe.1, safe.2, λ b. safe.3 (normal_allowed s.power b)) in
    subst IsSafe (sym (apply_power_profile_blank false profile_io s)) normal

-- For any configuration and any answers, and after any calls and rounds of the worker in any order:
-- the descriptors of the service are the ones open on the CPU floors, each with the whole floor
-- written; both floors are held or none; none is held without a deadline, and there is no deadline
-- while the screen, the low-power or the sustained mode bars a boost.
pub run_all-IsSafe :
    (config : Option Scanned) (boost_io : ApplyIo) (profile_io : ProfileIo) (nodes : Nodes)
    (cs : List Call)
    → IsFresh nodes
    → IsSafe (run_all cs (construct config boost_io profile_io nodes))
run_all-IsSafe config boost_io profile_io nodes cs fresh =
    run_all-IsSafe_from cs (construct config boost_io profile_io nodes)
      (construct-IsSafe config boost_io profile_io nodes fresh)

stopped_bars : (p : Power) → p.stop_boost ≡ true → is_allowed p ≡ false
stopped_bars p h = ground arith

apply_boost_stop :
    (io : ApplyIo) (s : System) → (apply_boost_locked io s).power.stop_boost ≡ s.power.stop_boost
unfolding apply_boost_locked
apply_boost_stop io s =
    let s1 = apply_foreground io.foreground s in
    let d = allowed_deadlines s1.power in
    let active = is_active io.now d in
    let s2 = with_deadlines (live_deadlines io.now d) s1 in
    let s3 = apply_cpu_floor_locked active io.floor0 io.floor1 s2 in
    ap (λ (t : System). t.power.stop_boost) (apply_top_app_blank active io.top_app s3)
    ∙ ap (λ (t : System). t.power.stop_boost) (apply_cpu_floor_frames active io.floor0 io.floor1 s2)
    ∙ ap (λ (t : System). t.power.stop_boost) (apply_foreground_blank io.foreground s)

-- Whatever the service has done and whatever fails, its destructor leaves no descriptor open on
-- either floor.
pub destroy_releases :
    (config : Option Scanned) (boost_io : ApplyIo) (profile_io : ProfileIo) (nodes : Nodes)
    (cs : List Call) (io : ApplyIo)
    → IsFresh nodes
    → IsFresh (destroy io (run_all cs (construct config boost_io profile_io nodes))).nodes
unfolding destroy
destroy_releases config boost_io profile_io nodes cs io fresh =
    let s = run_all cs (construct config boost_io profile_io nodes) in
    let s' = stopping s in
    let safe =
      apply_boost-IsSafe io s' (run_all-IsSafe config boost_io profile_io nodes cs fresh).0 in
    let bare =
      safe.2 (safe.3 (stopped_bars (apply_boost_locked io s').power (apply_boost_stop io s'))) in
    (
      safe.0.0 ∙ ap (λ (f : FloorFds). entry f.cluster0) bare,
      safe.0.1 ∙ ap (λ (f : FloorFds). entry f.cluster1) bare,
    )
