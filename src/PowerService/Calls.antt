-- ===== src/PowerService/Calls.antt =====
-- power/Power.cpp: the constructor, the destructor, a round of BoostWorker and the calls of the
-- interface.
use Prim.Native.Nat.{min}
use android_device_meizu_m.Prelude.{
  ℕ, Bool, true, false, not, ◌||◌, equal, Option, none, some, List, [], ◌∷◌, ◌+◌, ◌*◌, ◌==◌,
  if◌then◌else◌, ℤ, pos, negsuc,
}
use android_device_meizu_m.PowerService.{Power, Nodes, System, Deadlines, no_deadlines, new_power}
use android_device_meizu_m.PowerService.Write.{is_value}
use android_device_meizu_m.PowerService.Config.{Scanned, load_boost_config_locked}
use android_device_meizu_m.PowerService.Profile.{
  ProfileIo, apply_gpu_floor_locked, apply_gpu_ceiling_locked, apply_power_profile_locked,
}
use android_device_meizu_m.PowerService.Boost.{
  ApplyIo, apply_boost_locked, Source, ms, request_boost_locked,
}

-- Power::Power, as far as the start of the worker, over the nodes as they are.
unfoldable pub construct : Option Scanned → ApplyIo → ProfileIo → Nodes → System
unfolding load_boost_config_locked apply_boost_locked apply_power_profile_locked
construct config boost_io profile_io nodes =
    let s : System = record { power = load_boost_config_locked config new_power; nodes = nodes } in
    apply_power_profile_locked false profile_io (apply_boost_locked boost_io s)

abbrev pub stopping : System → System
stopping s = record s {
  power = record s.power { stop_boost = true; boost_deadlines = no_deadlines };
}

-- Power::~Power, as far as the end of its lock.
unfoldable pub destroy : ApplyIo → System → System
unfolding apply_boost_locked
destroy io s = apply_boost_locked io (stopping s)

-- std::min on time points, where none is time_point::max() and 0 is time_point{}, which the loop skips.
abbrev pub earlier : ℕ → Option ℕ → Option ℕ
earlier deadline none = if deadline == 0 then none else some deadline
earlier deadline (some next) = if deadline == 0 then some next else some (min next deadline)

-- `next` after the loop over the deadlines
abbrev pub next_deadline : Deadlines → Option ℕ
next_deadline d = earlier d.launch (earlier d.display (earlier d.interaction none))

-- `desired`
abbrev pub desired_boost : Power → Option ℕ → ℕ
desired_boost p none = p.base_boost
desired_boost p (some next) = p.active_boost

-- The condition of the retry.
abbrev pub has_failed : Power → Bool
has_failed p =
    not (is_value p.applied_boost (desired_boost p (next_deadline p.boost_deadlines)))
    || not (is_value p.applied_foreground p.foreground_boost)
    || not p.cpu_floor_ready

-- next = std::min(next, now + 100 ms)
abbrev pub within : ℕ → Option ℕ → ℕ
within time none = time
within time (some next) = min next time

-- What the worker waits for: some time, or none for a wait without an end.
abbrev pub next_wake : ℕ → Power → Option ℕ
next_wake clock p =
    let next = next_deadline p.boost_deadlines in
    if has_failed p then some (within (clock + 100 * ms) next) else next

-- One round of the loop, from its test on; `clock` is the reading of the retry. The last part is
-- none where the loop has ended.
unfoldable pub boost_worker_round : ApplyIo → ℕ → System → System × Option (Option ℕ)
unfolding apply_boost_locked
boost_worker_round io clock s =
    let s' = apply_boost_locked io s in
    if s.power.stop_boost then (s, none) else (s', some (next_wake clock s'.power))

-- Mode of the AIDL interface: those that the service names, and the others.
pub data Mode : Type 0 where
  low_power sustained_performance launch expensive_rendering interactive display_inactive : Mode
  other : ℕ → Mode

-- Boost of the AIDL interface, in the same way.
pub data Boost : Type 0 where
  interaction display_update_imminent : Boost
  other : ℕ → Boost

-- The answers and the readings of one setMode.
pub record ModeIo : Type 0 where
  pub profile : ProfileIo
  pub clock : ℕ
  pub requested : ApplyIo
  pub applied : ApplyIo

-- The flag that setMode sets itself.
abbrev pub with_flag : Mode → Bool → System → System
with_flag sustained_performance enabled s = record s {
  power = record s.power { sustained_performance = enabled };
}
with_flag expensive_rendering enabled s = record s {
  power = record s.power { expensive_rendering = enabled };
}
with_flag interactive enabled s = record s { power = record s.power { interactive = enabled } }
with_flag display_inactive enabled s = record s {
  power = record s.power { display_inactive = enabled };
}
with_flag _ enabled s = s

-- The switch of setMode.
abbrev pub switch_mode : Mode → Bool → ModeIo → System → System
switch_mode low_power enabled io s =
    let s' = apply_power_profile_locked enabled io.profile s in
    if not (equal s.power.low_power enabled) || not s.power.profile_applied then s' else s
switch_mode sustained_performance enabled io s =
    apply_gpu_ceiling_locked io.profile.ceiling (with_flag sustained_performance enabled s)
switch_mode launch enabled io s =
    let duration_ms = if enabled then pos s.power.launch_ms else negsuc 0 in
    request_boost_locked Source.launch duration_ms s.power.launch_ms io.clock io.requested s
switch_mode expensive_rendering enabled io s =
    apply_gpu_floor_locked io.profile.floor (with_flag expensive_rendering enabled s)
switch_mode interactive enabled io s =
    apply_gpu_floor_locked io.profile.floor (with_flag interactive enabled s)
switch_mode display_inactive enabled io s =
    apply_gpu_floor_locked io.profile.floor (with_flag display_inactive enabled s)
switch_mode (other n) enabled io s = s

-- setMode, which returns ok on every path
unfoldable pub set_mode : Mode → Bool → ModeIo → System → System
unfolding apply_boost_locked apply_power_profile_locked apply_gpu_ceiling_locked
    apply_gpu_floor_locked request_boost_locked
set_mode type enabled io s = apply_boost_locked io.applied (switch_mode type enabled io s)

-- *supported of isModeSupported
unfoldable pub is_mode_supported : Mode → Bool
is_mode_supported (other n) = false
is_mode_supported _ = true

-- setBoost, which returns ok on every path
unfoldable pub set_boost : Boost → ℤ → ℕ → ApplyIo → System → System
unfolding request_boost_locked
set_boost Boost.interaction duration_ms clock io s =
    request_boost_locked Source.interaction duration_ms s.power.interaction_ms clock io s
set_boost Boost.display_update_imminent duration_ms clock io s =
    request_boost_locked Source.display duration_ms s.power.display_ms clock io s
set_boost (Boost.other n) duration_ms clock io s = s

-- *supported of isBoostSupported
unfoldable pub is_boost_supported : Boost → Bool
is_boost_supported (Boost.other n) = false
is_boost_supported _ = true

-- One step of the service: a call of the interface, or a round of the worker.
pub data Call : Type 0 where
  mode : Mode → Bool → ModeIo → Call
  boost : Boost → ℤ → ℕ → ApplyIo → Call
  worker : ApplyIo → ℕ → Call

abbrev pub run : Call → System → System
run (mode type enabled io) s = set_mode type enabled io s
run (boost type duration_ms clock io) s = set_boost type duration_ms clock io s
run (worker io clock) s = (boost_worker_round io clock s).0

unfoldable pub run_all : List Call → System → System
unfolding set_mode set_boost boost_worker_round
run_all [] s = s
run_all (c ∷ cs) s = run_all cs (run c s)
