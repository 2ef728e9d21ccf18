-- ===== src/PowerService.antt =====
-- power/Power.cpp and power/Power.h: the service behind the AIDL power HAL. The members of the
-- class are a record; beside it stand the kernel's nodes, which the calls write. The lock is held for
-- a whole call and for a whole round of the worker, so each is one step. Times are nanoseconds of
-- steady_clock, and the time point 0 is time_point{}.
pub mod Write
pub mod Config
pub mod Profile
pub mod Boost
pub mod Calls
pub mod Frame
pub mod Held
pub mod Safe
pub mod Bounded
pub mod Worker
pub mod Applied
pub mod Agrees
pub mod Rest
pub mod Modes
pub mod Asked
pub mod Follows
pub mod Requests
use android_device_meizu_m.Prelude.{ℕ, Bool, true, false, Option, none, some, List, [], ◌∷◌, codes}

-- std::array<int, 2> cpu_floor_fds_, where none is -1.
pub record FloorFds : Type 0 where
  pub cluster0 : Option ℕ
  pub cluster1 : Option ℕ

-- std::array<Clock::time_point, 3> boost_deadlines_, by the source of the boost.
pub record Deadlines : Type 0 where
  pub interaction : ℕ
  pub display : ℕ
  pub launch : ℕ

-- class Power. The boosts and the durations are ints that are never negative; none is -1 for the two
-- applied boosts, and nullptr for the two applied locks of the GPU.
pub record Power : Type 0 where
  pub cpu_floor_fds : FloorFds
  pub cpu_floor_ready : Bool
  pub foreground_boost : ℕ
  pub base_boost : ℕ
  pub active_boost : ℕ
  pub interaction_ms : ℕ
  pub display_ms : ℕ
  pub launch_ms : ℕ
  pub applied_foreground : Option ℕ
  pub config_valid : Bool
  pub boost_deadlines : Deadlines
  pub stop_boost : Bool
  pub applied_boost : Option ℕ
  pub boost_requests : ℕ  -- unsigned int
  pub boost_errors : ℕ  -- unsigned int
  pub interactive : Bool
  pub display_inactive : Bool
  pub low_power : Bool
  pub profile_applied : Bool
  pub sustained_performance : Bool
  pub expensive_rendering : Bool
  pub applied_gpu_floor : Option (List ℕ)
  pub applied_gpu_ceiling : Option (List ℕ)

-- The texts that the nodes under /sys and /dev/stune took last, and for each cluster the descriptors
-- that are open on its minimum frequency, each with the bytes written through it.
pub record Nodes : Type 0 where
  pub foreground : List ℕ
  pub top_app : List ℕ
  pub hotplug_profile : List ℕ
  pub gpu_min_lock : List ℕ
  pub gpu_max_lock : List ℕ
  pub cluster0_freq_min : List (ℕ × List ℕ)
  pub cluster1_freq_min : List (ℕ × List ℕ)

pub record System : Type 0 where
  pub power : Power
  pub nodes : Nodes

-- boost_deadlines_.fill(Clock::time_point{})
abbrev pub no_deadlines : Deadlines
no_deadlines = record { interaction = 0; display = 0; launch = 0 }

abbrev pub no_fds : FloorFds
no_fds = record { cluster0 = none; cluster1 = none }

-- The members before the constructor's body.
abbrev pub new_power : Power
new_power = record {
  cpu_floor_fds = no_fds;
  cpu_floor_ready = true;
  foreground_boost = 10;
  base_boost = 15;
  active_boost = 30;
  interaction_ms = 500;
  display_ms = 120;
  launch_ms = 1000;
  applied_foreground = none;
  config_valid = false;
  boost_deadlines = no_deadlines;
  stop_boost = false;
  applied_boost = none;
  boost_requests = 0;
  boost_errors = 0;
  interactive = true;
  display_inactive = false;
  low_power = false;
  profile_applied = false;
  sustained_performance = false;
  expensive_rendering = false;
  applied_gpu_floor = none;
  applied_gpu_ceiling = none;
}

-- kProfileHigh and kProfileEco
abbrev pub profile_high : List ℕ
profile_high = codes "0"

abbrev pub profile_eco : List ℕ
profile_eco = codes "2"

-- kGpuUnlock, kGpuFloorRendering and kGpuCeilingLimited
abbrev pub gpu_unlock : List ℕ
gpu_unlock = codes "0"

abbrev pub gpu_floor_rendering : List ℕ
gpu_floor_rendering = codes "420"

abbrev pub gpu_ceiling_limited : List ℕ
gpu_ceiling_limited = codes "544"

-- kCpuBoostFloorKHz
abbrev pub cpu_boost_floor_khz : ℕ
cpu_boost_floor_khz = 1200000
