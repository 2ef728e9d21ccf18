-- ===== src/PowerService/Bounded.antt =====
-- How long a boost of power/Power.cpp can last, over any calls.
use android_device_meizu_m.Prelude.{
  ℕ, ◌≤◌, ◌+◌, ◌*◌, sym, subst, Bool, false, not, ◌||◌, Option, List, [], ◌∷◌, arith, if_ind,
  if◌then◌else◌, ℤ, pos, negsuc, equal,
}
use android_device_meizu_m.PowerService.{Deadlines, Power, Nodes, System, new_power}
use android_device_meizu_m.PowerService.Config.{Scanned, load_boost_config_locked}
use android_device_meizu_m.PowerService.Config.Ranges.{
  load_boost_config_locked-InRange, load_deadlines,
}
use android_device_meizu_m.PowerService.Profile.{ProfileIo}
use android_device_meizu_m.PowerService.Boost.{
  ApplyIo, apply_boost_locked, is_allowed, live, allowed_deadlines, ms, duration, may_boost,
  requesting, request_boost_locked, Source, interaction, display, launch,
}
use android_device_meizu_m.PowerService.Calls.{
  construct, boost_worker_round, Mode, low_power, sustained_performance, expensive_rendering,
  interactive, display_inactive, other, Boost, mode, boost, worker, ModeIo, with_flag, switch_mode,
  set_mode, set_boost, Call, run, run_all,
}
use android_device_meizu_m.PowerService.Frame.{
  settle, apply_boost_rest, apply_gpu_floor_blank, apply_gpu_ceiling_blank,
  apply_power_profile_blank,
}

-- No deadline is more than two seconds after a time, and no default is longer.
abbrev pub IsBounded : ℕ → Power → Type 0
IsBounded time p =
    let d = p.boost_deadlines in
    let end = time + 2000 * ms in
    (d.interaction ≤ end)
    × (d.display ≤ end)
    × (d.launch ≤ end)
    × (p.interaction_ms ≤ 2000)
    × (p.display_ms ≤ 2000)
    × (p.launch_ms ≤ 2000)

live_le : (now t : ℕ) → live now t ≤ t
live_le now t = ground arith

allowed_le :
    (p : Power)
    → let d = allowed_deadlines p in
      (d.interaction ≤ p.boost_deadlines.interaction)
      × (d.display ≤ p.boost_deadlines.display)
      × (d.launch ≤ p.boost_deadlines.launch)
allowed_le p =
    if_ind
      (λ (d : Deadlines).
        (d.interaction ≤ p.boost_deadlines.interaction)
        × (d.display ≤ p.boost_deadlines.display)
        × (d.launch ≤ p.boost_deadlines.launch))
      (is_allowed p) (omega arith) (omega arith)

settle-IsBounded :
    (time now : ℕ) (s : System) → IsBounded time s.power → IsBounded time (settle now s).power
settle-IsBounded time now s b =
    let d = allowed_deadlines s.power in
    let a = allowed_le s.power in
    omega (arith, live_le now d.interaction, live_le now d.display, live_le now d.launch)

apply_boost-IsBounded :
    (time : ℕ) (io : ApplyIo) (s : System)
    → IsBounded time s.power
    → IsBounded time (apply_boost_locked io s).power
apply_boost-IsBounded time io s b =
    subst (IsBounded time) (sym (apply_boost_rest io s)) (settle-IsBounded time io.now s b)

duration_le : (n default_ms : ℕ) → default_ms ≤ 2000 → duration n default_ms ≤ 2000
duration_le n default_ms h = ground arith

requested-IsBounded :
    (source : Source) (duration_ms : ℤ) (default_ms time clock : ℕ) (s : System)
    → time ≤ clock
    → default_ms ≤ 2000
    → IsBounded time s.power
    → IsBounded clock (requesting source duration_ms default_ms clock s).power
requested-IsBounded interaction (negsuc n) default_ms time clock s le short b = omega arith
requested-IsBounded display (negsuc n) default_ms time clock s le short b = omega arith
requested-IsBounded launch (negsuc n) default_ms time clock s le short b = omega arith
requested-IsBounded interaction (pos n) default_ms time clock s le short b =
    if_ind (λ (d : Deadlines). IsBounded clock (record s.power { boost_deadlines = d }))
      (may_boost s.power) (omega (arith, duration_le n default_ms short)) (omega arith)
requested-IsBounded display (pos n) default_ms time clock s le short b =
    if_ind (λ (d : Deadlines). IsBounded clock (record s.power { boost_deadlines = d }))
      (may_boost s.power) (omega (arith, duration_le n default_ms short)) (omega arith)
requested-IsBounded launch (pos n) default_ms time clock s le short b =
    if_ind (λ (d : Deadlines). IsBounded clock (record s.power { boost_deadlines = d }))
      (may_boost s.power) (omega (arith, duration_le n default_ms short)) (omega arith)

request-IsBounded :
    (source : Source) (duration_ms : ℤ) (default_ms time clock : ℕ) (io : ApplyIo) (s : System)
    → time ≤ clock
    → default_ms ≤ 2000
    → IsBounded time s.power
    → IsBounded clock (request_boost_locked source duration_ms default_ms clock io s).power
unfolding request_boost_locked
request-IsBounded source duration_ms default_ms time clock io s le short b =
    apply_boost-IsBounded clock io (requesting source duration_ms default_ms clock s)
      (requested-IsBounded source duration_ms default_ms time clock s le short b)

later-IsBounded : (time clock : ℕ) (p : Power) → time ≤ clock → IsBounded time p → IsBounded clock p
later-IsBounded time clock p le b = omega arith

switch_mode-IsBounded :
    (type : Mode) (enabled : Bool) (time : ℕ) (io : ModeIo) (s : System)
    → time ≤ io.clock
    → IsBounded time s.power
    → IsBounded io.clock (switch_mode type enabled io s).power
switch_mode-IsBounded type enabled time io s le b =
    let later = later-IsBounded time io.clock s.power le b in
    elim type as (λ k. IsBounded io.clock (switch_mode k enabled io s).power) [
      | low_power ↦
          if_ind (λ (t : System). IsBounded io.clock t.power)
            (not (equal s.power.low_power enabled) || not s.power.profile_applied)
            (subst (λ (t : System). IsBounded io.clock t.power)
              (sym (apply_power_profile_blank enabled io.profile s)) later)
            later
      | sustained_performance ↦
          subst (λ (t : System). IsBounded io.clock t.power)
            (sym (
              apply_gpu_ceiling_blank io.profile.ceiling
                (with_flag sustained_performance enabled s)))
            later
      | Mode.launch ↦
          request-IsBounded Source.launch (if enabled then pos s.power.launch_ms else negsuc 0)
            s.power.launch_ms time io.clock io.requested s le b.5 b
      | expensive_rendering ↦
          subst (λ (t : System). IsBounded io.clock t.power)
            (sym (apply_gpu_floor_blank io.profile.floor (with_flag expensive_rendering enabled s)))
            later
      | interactive ↦
          subst (λ (t : System). IsBounded io.clock t.power)
            (sym (apply_gpu_floor_blank io.profile.floor (with_flag interactive enabled s))) later
      | display_inactive ↦
          subst (λ (t : System). IsBounded io.clock t.power)
            (sym (apply_gpu_floor_blank io.profile.floor (with_flag display_inactive enabled s)))
            later
      | other n ↦ later
    ]

set_boost-IsBounded :
    (type : Boost) (duration_ms : ℤ) (time clock : ℕ) (io : ApplyIo) (s : System)
    → time ≤ clock
    → IsBounded time s.power
    → IsBounded clock (set_boost type duration_ms clock io s).power
unfolding set_boost
set_boost-IsBounded Boost.interaction duration_ms time clock io s le b =
    request-IsBounded interaction duration_ms s.power.interaction_ms time clock io s le b.3 b
set_boost-IsBounded Boost.display_update_imminent duration_ms time clock io s le b =
    request-IsBounded display duration_ms s.power.display_ms time clock io s le b.4 b
set_boost-IsBounded (Boost.other n) duration_ms time clock io s le b =
    later-IsBounded time clock s.power le b

-- The reading of the clock that a call takes for its deadline; a round of the worker sets none.
abbrev pub time_of : Call → ℕ → ℕ
time_of (mode type enabled io) time = io.clock
time_of (boost type duration_ms clock io) time = clock
time_of (worker io clock) time = time

-- The clock is steady.
abbrev pub Steady : ℕ → List Call → Type 0
Steady time [] = Unit
Steady time (c ∷ cs) = (time ≤ time_of c time) × Steady (time_of c time) cs

abbrev pub last_time : ℕ → List Call → ℕ
last_time time [] = time
last_time time (c ∷ cs) = last_time (time_of c time) cs

run-IsBounded :
    (c : Call) (time : ℕ) (s : System)
    → time ≤ time_of c time
    → IsBounded time s.power
    → IsBounded (time_of c time) (run c s).power
unfolding set_mode boost_worker_round
run-IsBounded (mode type enabled io) time s le b =
    apply_boost-IsBounded io.clock io.applied (switch_mode type enabled io s)
      (switch_mode-IsBounded type enabled time io s le b)
run-IsBounded (boost type duration_ms clock io) time s le b =
    set_boost-IsBounded type duration_ms time clock io s le b
run-IsBounded (worker io clock) time s le b =
    if_ind (λ (r : System × Option (Option ℕ)). IsBounded time r.0.power) s.power.stop_boost b
      (apply_boost-IsBounded time io s b)

run_all-IsBounded :
    (cs : List Call) (time : ℕ) (s : System)
    → Steady time cs
    → IsBounded time s.power
    → IsBounded (last_time time cs) (run_all cs s).power
unfolding run_all
run_all-IsBounded [] time s steady b = b
run_all-IsBounded (c ∷ cs) time s steady b =
    run_all-IsBounded cs (time_of c time) (run c s) steady.1 (run-IsBounded c time s steady.0 b)

construct-IsBounded :
    (config : Option Scanned) (boost_io : ApplyIo) (profile_io : ProfileIo) (nodes : Nodes)
    → IsBounded 0 (construct config boost_io profile_io nodes).power
unfolding construct
construct-IsBounded config boost_io profile_io nodes =
    let p = load_boost_config_locked config new_power in
    let s : System = record { power = p; nodes = nodes } in
    let r = load_boost_config_locked-InRange config in
    let d = load_deadlines config in
    let b : IsBounded 0 p = (
      subst (λ (x : Deadlines). x.interaction ≤ 2000 * ms) (sym d) (omega arith),
      subst (λ (x : Deadlines). x.display ≤ 2000 * ms) (sym d) (omega arith),
      subst (λ (x : Deadlines). x.launch ≤ 2000 * ms) (sym d) (omega arith),
      r.interaction_ms.1,
      r.display_ms.1,
      r.launch_ms.1,
    ) in
    subst (λ (t : System). IsBounded 0 t.power)
      (sym (apply_power_profile_blank false profile_io (apply_boost_locked boost_io s)))
      (apply_boost-IsBounded 0 boost_io s b)

-- As long as the clock does not go back, after any calls no deadline of a boost is more than two
-- seconds after the last reading of the clock by a request, whatever durations the calls asked for
-- and whatever the configuration holds.
pub run_all_bounded :
    (config : Option Scanned) (boost_io : ApplyIo) (profile_io : ProfileIo) (nodes : Nodes)
    (cs : List Call)
    → Steady 0 cs
    → let d = (run_all cs (construct config boost_io profile_io nodes)).power.boost_deadlines in
      let end = last_time 0 cs + 2000 * ms in
      (d.interaction ≤ end) × (d.display ≤ end) × (d.launch ≤ end)
run_all_bounded config boost_io profile_io nodes cs steady =
    let s = construct config boost_io profile_io nodes in
    let b =
      run_all-IsBounded cs 0 s steady (construct-IsBounded config boost_io profile_io nodes) in
    (b.0, b.1, b.2)
