-- ===== src/PowerService/Modes.antt =====
-- The members of power/Power.cpp that the modes set, under the steps of the boosts and of the locks.
use android_device_meizu_m.Prelude.{
  ℕ, ◌≡◌, refl, ap, ◌∙◌, Bool, true, Option, none, some, List, if_ind, if_case, is_zero, same-eq,
}
use android_device_meizu_m.PowerService.{Power, System, no_fds, no_deadlines}
use android_device_meizu_m.PowerService.Write.{NodeIo, Node, is_value, write_node}
use android_device_meizu_m.PowerService.Profile.{
  is_applied, gpu_floor, gpu_ceiling, apply_gpu_floor_locked, apply_gpu_ceiling_locked,
}
use android_device_meizu_m.PowerService.Boost.{
  ApplyIo, apply_boost_locked, apply_foreground, apply_top_app, to_string, boost_value,
  allowed_deadlines, is_active, with_deadlines, live_deadlines, apply_cpu_floor_locked,
}
use android_device_meizu_m.PowerService.Frame.{write_node-Frames, apply_cpu_floor_frames}
use android_device_meizu_m.PowerService.Rest.{Succeeds, write_node_done}

-- The members without those of the boosts.
abbrev modes : System → Power
modes s = record s.power {
  cpu_floor_fds = no_fds;
  cpu_floor_ready = true;
  applied_foreground = none;
  applied_boost = none;
  boost_deadlines = no_deadlines;
  boost_requests = 0;
  boost_errors = 0;
}

modes-apply_foreground : (io : NodeIo) (s : System) → modes (apply_foreground io s) ≡ modes s
unfolding apply_foreground
modes-apply_foreground io s =
    let value = s.power.foreground_boost in
    let w = write_node Node.foreground_boost (to_string value) io s in
    let f = (write_node-Frames Node.foreground_boost (to_string value) io s).power in
    let e = ap (λ (p : Power). modes (record { power = p; nodes = w.1.nodes })) f in
    if_ind (λ (t : System). modes t ≡ modes s) (is_value s.power.applied_foreground value) refl
      (if_ind (λ (t : System). modes t ≡ modes s) (is_zero w.0) e e)

modes-apply_top_app :
    (active : Bool) (io : NodeIo) (s : System) → modes (apply_top_app active io s) ≡ modes s
unfolding apply_top_app
modes-apply_top_app active io s =
    let value = boost_value active s.power in
    let w = write_node Node.top_app_boost (to_string value) io s in
    let f = (write_node-Frames Node.top_app_boost (to_string value) io s).power in
    let e = ap (λ (p : Power). modes (record { power = p; nodes = w.1.nodes })) f in
    if_ind (λ (t : System). modes t ≡ modes s) (is_value s.power.applied_boost value) refl
      (if_ind (λ (t : System). modes t ≡ modes s) (is_zero w.0) e e)

pub modes-apply_boost : (io : ApplyIo) (s : System) → modes (apply_boost_locked io s) ≡ modes s
unfolding apply_boost_locked
modes-apply_boost io s =
    let s1 = apply_foreground io.foreground s in
    let d = allowed_deadlines s1.power in
    let active = is_active io.now d in
    let s2 = with_deadlines (live_deadlines io.now d) s1 in
    let s3 = apply_cpu_floor_locked active io.floor0 io.floor1 s2 in
    modes-apply_top_app active io.top_app s3
    ∙ ap (λ (t : System). modes t) (apply_cpu_floor_frames active io.floor0 io.floor1 s2)
    ∙ modes-apply_foreground io.foreground s

-- A lock that is written is known, and nothing else has changed.
is_applied-eq : (o : Option (List ℕ)) (t : List ℕ) → is_applied o t ≡ true → o ≡ some t
is_applied-eq none t h = cc
is_applied-eq (some u) t h = ap some (same-eq u t h)

pub apply_gpu_floor_done :
    (io : NodeIo) (s : System)
    → Succeeds io
    → (apply_gpu_floor_locked io s).power
      ≡ record s.power { applied_gpu_floor = some (gpu_floor s.power) }
unfolding apply_gpu_floor_locked
apply_gpu_floor_done io s h =
    let floor = gpu_floor s.power in
    let with_floor : Option (List ℕ) → Power → Power = λ o p. record p { applied_gpu_floor = o } in
    let P : System → Type 0 = λ t. t.power ≡ with_floor (some floor) s.power in
    let w = write_node Node.gpu_dvfs_min_lock floor io s in
    let done = write_node_done Node.gpu_dvfs_min_lock floor io s h in
    if_case P (is_applied s.power.applied_gpu_floor floor)
      (λ t. ap (λ o. with_floor o s.power) (is_applied-eq s.power.applied_gpu_floor floor t))
      (λ _.
        if_case P (is_zero w.0)
          (λ _.
            ap (with_floor (some floor))
              (write_node-Frames Node.gpu_dvfs_min_lock floor io s).power)
          (λ f. absurd cc))

pub apply_gpu_ceiling_done :
    (io : NodeIo) (s : System)
    → Succeeds io
    → (apply_gpu_ceiling_locked io s).power
      ≡ record s.power { applied_gpu_ceiling = some (gpu_ceiling s.power) }
unfolding apply_gpu_ceiling_locked
apply_gpu_ceiling_done io s h =
    let ceiling = gpu_ceiling s.power in
    let with_ceiling : Option (List ℕ) → Power → Power =
      λ o p. record p { applied_gpu_ceiling = o } in
    let P : System → Type 0 = λ t. t.power ≡ with_ceiling (some ceiling) s.power in
    let w = write_node Node.gpu_dvfs_max_lock ceiling io s in
    let done = write_node_done Node.gpu_dvfs_max_lock ceiling io s h in
    if_case P (is_applied s.power.applied_gpu_ceiling ceiling)
      (λ t. ap (λ o. with_ceiling o s.power) (is_applied-eq s.power.applied_gpu_ceiling ceiling t))
      (λ _.
        if_case P (is_zero w.0)
          (λ _.
            ap (with_ceiling (some ceiling))
              (write_node-Frames Node.gpu_dvfs_max_lock ceiling io s).power)
          (λ f. absurd cc))
