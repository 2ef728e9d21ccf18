-- ===== src/Tests/Power.antt =====
-- power/Power.cpp in a run with a launch boost that ends.
use Prim.Native.Nat.{max}
use android_device_meizu_m.Posix.Decimal.{decimal}
use android_device_meizu_m.Prelude.{
  ℕ, ◌≡◌, ◌≤◌, ◌+◌, ◌*◌, refl, true, false, none, some, List, [], ◌∷◌, pos, codes, arith,
}
use android_device_meizu_m.PowerService.{Nodes, System}
use android_device_meizu_m.PowerService.Write.{
  interrupted, answered, no_open, opened, no_write, whole, NodeIo, write_node,
}
use android_device_meizu_m.PowerService.Config.{load_boost_config_locked}
use android_device_meizu_m.PowerService.Profile.{
  ProfileIo, apply_gpu_floor_locked, apply_gpu_ceiling_locked, apply_power_profile_locked,
}
use android_device_meizu_m.PowerService.Boost.{
  ApplyIo, ms, Source, deadline_of, request_boost_locked, apply_boost_locked, apply_foreground,
  apply_top_app, apply_cpu_floor_locked,
}
use android_device_meizu_m.PowerService.Calls.{
  construct, destroy, is_mode_supported, is_boost_supported, set_boost, boost_worker_round, Mode,
  launch, Boost, Call, mode, boost, worker, run_all, set_mode,
}
use android_device_meizu_m.PowerService.Safe.{IsSafe, IsFresh, destroy_releases, run_all-IsSafe}
use android_device_meizu_m.PowerService.Bounded.{run_all_bounded}
use android_device_meizu_m.PowerService.Worker.{IsTimely, boost_worker_round-IsTimely}
use android_device_meizu_m.PowerService.Applied.{Agrees}
use android_device_meizu_m.PowerService.Agrees.{run_all-Agrees}
use android_device_meizu_m.PowerService.Rest.{IsUnboosted, worker_comes_to_rest, worker_at_rest}
use android_device_meizu_m.PowerService.Asked.{all_asked, first_modes, Follows}
use android_device_meizu_m.PowerService.Follows.{modes_follow}
use android_device_meizu_m.PowerService.Requests.{
  RunsFor, IsBoostable, request_lasts, unsupported_calls,
}

-- A write that succeeds, after an interruption, and one that the node refuses.
abbrev fine : NodeIo
fine = record { opening = answered (opened 7); writing = interrupted (answered whole) }

abbrev refused : NodeIo
refused = record { opening = answered (opened 8); writing = answered (no_write 22) }

abbrev at : ℕ → ApplyIo
at now = record { foreground = fine; now = now; floor0 = fine; floor1 = fine; top_app = fine }

-- The second floor does not open, and the boost's node refuses.
abbrev troubled : ℕ → ApplyIo
troubled now = record {
  foreground = fine;
  now = now;
  floor0 = fine;
  floor1 = record { opening = answered (no_open 13); writing = answered whole };
  top_app = refused;
}

abbrev profiles : ProfileIo
profiles = record { profile = fine; ceiling = fine; floor = fine }

abbrev nodes : Nodes
nodes = record {
  foreground = codes "0";
  top_app = codes "0";
  hotplug_profile = codes "1";
  gpu_min_lock = codes "9";
  gpu_max_lock = codes "9";
  cluster0_freq_min = [];
  cluster1_freq_min = [];
}

abbrev start : System
start = construct none (at 5) profiles nodes

-- A launch at 1 ms with trouble, a touch at 2 ms, and the screen off.
abbrev calls : List Call
calls =
    mode launch true (record {
      profile = profiles;
      clock = 1000000;
      requested = troubled 1000000;
      applied = troubled 1000000;
    })
    ∷ boost Boost.interaction (pos 9000) 2000000 (at 2000000)
    ∷ worker (troubled 3000000) 3000000
    ∷ mode Mode.interactive false (record {
      profile = profiles;
      clock = 4000000;
      requested = at 4000000;
      applied = at 4000000;
    })
    ∷ []

run_all-IsSafe_example : IsSafe (run_all calls start)
run_all-IsSafe_example = run_all-IsSafe none (at 5) profiles nodes calls (refl, refl)

run_all_bounded_example :
    let d = (run_all calls start).power.boost_deadlines in
    (d.interaction ≤ 4000000 + 2000 * ms)
    × (d.display ≤ 4000000 + 2000 * ms)
    × (d.launch ≤ 4000000 + 2000 * ms)
run_all_bounded_example = run_all_bounded none (at 5) profiles nodes calls (omega arith)

run_all-Agrees_example : Agrees (run_all calls start)
run_all-Agrees_example =
    run_all-Agrees none (at 5) profiles nodes calls (omega arith) (omega arith) (omega arith)

modes_follow_example : Follows (all_asked calls first_modes) (run_all calls start).nodes
modes_follow_example =
    modes_follow none (at 5) profiles nodes calls (omega arith) (omega arith) (omega arith)
      (omega arith) (omega arith)

-- A launch whose boost cannot be applied, for which the worker tries again after 100 ms.
abbrev launched : System
launched =
    run_all
      (mode launch true (record {
        profile = profiles;
        clock = 1000000;
        requested = troubled 1000000;
        applied = troubled 1000000;
      })
        ∷ [])
      start

troubled_wait : (boost_worker_round (troubled 3000000) 3000000 launched).1 ≡ some (some 103000000)
unfolding run_all set_mode construct boost_worker_round apply_boost_locked apply_foreground
    apply_top_app apply_cpu_floor_locked write_node decimal request_boost_locked
    load_boost_config_locked apply_power_profile_locked apply_gpu_floor_locked
    apply_gpu_ceiling_locked
troubled_wait = refl

boost_worker_round-IsTimely_example :
    IsTimely 3000000
      (boost_worker_round (troubled 3000000) 3000000 launched).0.power
      (some 103000000)
boost_worker_round-IsTimely_example =
    boost_worker_round-IsTimely (troubled 3000000) 3000000 launched (some 103000000) troubled_wait

-- A second later the boost has ended.
late_deadlines :
    let d = launched.power.boost_deadlines in
    (launched.power.stop_boost ≡ false)
    × ((d.interaction ≤ 1100000000) × (d.display ≤ 1100000000) × (d.launch ≤ 1100000000))
unfolding run_all set_mode construct boost_worker_round apply_boost_locked apply_foreground
    apply_top_app apply_cpu_floor_locked write_node decimal request_boost_locked
    load_boost_config_locked apply_power_profile_locked apply_gpu_floor_locked
    apply_gpu_ceiling_locked
late_deadlines = (refl, omega arith)

worker_comes_to_rest_example :
    (boost_worker_round (at 1100000000) 1100000000 launched).1 ≡ some none
worker_comes_to_rest_example =
    worker_comes_to_rest (at 1100000000) 1100000000 launched late_deadlines.0 late_deadlines.1
      (tt, tt) (tt, tt)

worker_at_rest_example : IsUnboosted (boost_worker_round (at 1100000000) 1100000000 launched).0
worker_at_rest_example =
    worker_at_rest none (at 5) profiles nodes
      (mode launch true (record {
        profile = profiles;
        clock = 1000000;
        requested = troubled 1000000;
        applied = troubled 1000000;
      })
        ∷ [])
      (at 1100000000) 1100000000 (refl, refl) (omega arith) (omega arith) (omega arith)
      (omega arith) worker_comes_to_rest_example

start-IsBoostable : IsBoostable start.power
unfolding construct apply_boost_locked apply_foreground apply_top_app apply_cpu_floor_locked
    write_node decimal load_boost_config_locked apply_power_profile_locked apply_gpu_floor_locked
    apply_gpu_ceiling_locked
start-IsBoostable = record {
  interactive = refl;
  active = refl;
  not_low = refl;
  not_sustained = refl;
  running = refl;
}

request_lasts_example :
    let p = (request_boost_locked Source.display (pos 9000) 120 7000000 (at 7000001) start).power in
    (deadline_of Source.display p.boost_deadlines
      ≡ max (deadline_of Source.display start.power.boost_deadlines) (7000000 + 2000 * 1000000))
    × (p.applied_boost ≡ some start.power.active_boost)
request_lasts_example =
    request_lasts Source.display 9000 120 2000 7000000 (at 7000001) start
      (RunsFor.cut (omega arith)) start-IsBoostable (omega arith) (tt, tt)

destroy_releases_test : IsFresh (destroy (troubled 9000000) (run_all calls start)).nodes
destroy_releases_test =
    destroy_releases none (at 5) profiles nodes calls (troubled 9000000) (refl, refl)

unsupported_calls_test :
    (set_mode
        (Mode.other 3)
        true
        (record { profile = profiles; clock = 1; requested = at 1; applied = at 2 })
        start
      ≡ apply_boost_locked (at 2) start)
    × (set_boost (Boost.other 4) (pos 20) 7 (at 8) start ≡ start)
unfolding is_mode_supported is_boost_supported
unsupported_calls_test =
    unsupported_calls (Mode.other 3) true
      (record { profile = profiles; clock = 1; requested = at 1; applied = at 2 }) (Boost.other 4)
      (pos 20) 7 (at 8) start refl refl
