-- ===== src/PowerService/Frame.antt =====
-- The parts of the state of power/Power.cpp that a write of a text can change, and the others.
use android_device_meizu_m.Prelude.{
  ℕ, ◌≡◌, refl, ap, ◌∙◌, Bool, true, false, not, Option, none, some, List, [], is_zero, if_ind,
  is_some, length,
}
use android_device_meizu_m.Posix.Decimal.{decimal}
use android_device_meizu_m.PowerService.{Power, System, no_fds}
use android_device_meizu_m.PowerService.Write.{
  temp_failure_retry, OpenAnswer, no_open, opened, WriteAnswer, NodeIo, Node, foreground_boost,
  top_app_boost, hotplug_profile, gpu_dvfs_min_lock, gpu_dvfs_max_lock, written, is_value, taken,
  open_node, write_node,
}
use android_device_meizu_m.PowerService.Profile.{
  apply_gpu_floor_locked, apply_gpu_ceiling_locked, apply_power_profile_locked, ProfileIo,
  profile_text, is_applied, gpu_floor, gpu_ceiling,
}
use android_device_meizu_m.PowerService.Boost.{
  apply_foreground, apply_top_app, boost_value, Cluster, first, second, fd_of, release_fd, release,
  release_all, open_floor, acquire, acquire_all, both_held, with_ready, apply_cpu_floor_locked,
  with_deadlines, live_deadlines, allowed_deadlines, is_active, ApplyIo, apply_boost_locked,
}

-- The system without the texts of the nodes, what the service knows of them, and the count of errors.
abbrev pub blank : System → System
blank s = record {
  power = record s.power {
    applied_foreground = none;
    applied_boost = none;
    boost_errors = 0;
    profile_applied = false;
    applied_gpu_floor = none;
    applied_gpu_ceiling = none;
  };
  nodes = record s.nodes {
    foreground = [];
    top_app = [];
    hotplug_profile = [];
    gpu_min_lock = [];
    gpu_max_lock = [];
  };
}

-- A write leaves the members as they are.
pub record Frames (s t : System) : Type 0 where
  pub power : t.power ≡ s.power
  pub blank : blank t ≡ blank s

taken_blank :
    (node : Node) (value : List ℕ) (count : Option ℕ) (s : System)
    → blank (record s { nodes = taken node value count s.nodes }) ≡ blank s
taken_blank node value none s = refl
taken_blank foreground_boost value (some n) s = refl
taken_blank top_app_boost value (some n) s = refl
taken_blank hotplug_profile value (some n) s = refl
taken_blank gpu_dvfs_min_lock value (some n) s = refl
taken_blank gpu_dvfs_max_lock value (some n) s = refl

open_node-Frames :
    (node : Node) (value : List ℕ) (o : OpenAnswer) (answer : WriteAnswer) (s : System)
    → Frames s (open_node node value o answer s).1
open_node-Frames node value (no_open e) answer s = record { power = refl; blank = refl }
open_node-Frames node value (opened fd) answer s = record {
  power = refl;
  blank = taken_blank node value (written (length value) answer) s;
}

pub write_node-Frames :
    (node : Node) (value : List ℕ) (io : NodeIo) (s : System)
    → Frames s (write_node node value io s).1
unfolding write_node
write_node-Frames node value io s =
    open_node-Frames node value (temp_failure_retry io.opening) (temp_failure_retry io.writing) s

pub apply_foreground_blank : (io : NodeIo) (s : System) → blank (apply_foreground io s) ≡ blank s
unfolding apply_foreground
apply_foreground_blank io s =
    let value = s.power.foreground_boost in
    let w = write_node Node.foreground_boost (decimal value []) io s in
    let f = (write_node-Frames Node.foreground_boost (decimal value []) io s).blank in
    if_ind (λ (t : System). blank t ≡ blank s) (is_value s.power.applied_foreground value) refl
      (if_ind (λ (t : System). blank t ≡ blank s) (is_zero w.0) f f)

pub apply_top_app_blank :
    (active : Bool) (io : NodeIo) (s : System) → blank (apply_top_app active io s) ≡ blank s
unfolding apply_top_app
apply_top_app_blank active io s =
    let value = boost_value active s.power in
    let w = write_node Node.top_app_boost (decimal value []) io s in
    let f = (write_node-Frames Node.top_app_boost (decimal value []) io s).blank in
    if_ind (λ (t : System). blank t ≡ blank s) (is_value s.power.applied_boost value) refl
      (if_ind (λ (t : System). blank t ≡ blank s) (is_zero w.0) f f)

pub apply_gpu_floor_blank :
    (io : NodeIo) (s : System) → blank (apply_gpu_floor_locked io s) ≡ blank s
unfolding apply_gpu_floor_locked
apply_gpu_floor_blank io s =
    let floor = gpu_floor s.power in
    let w = write_node gpu_dvfs_min_lock floor io s in
    let f = (write_node-Frames gpu_dvfs_min_lock floor io s).blank in
    if_ind (λ (t : System). blank t ≡ blank s) (is_applied s.power.applied_gpu_floor floor) refl
      (if_ind (λ (t : System). blank t ≡ blank s) (is_zero w.0) f f)

pub apply_gpu_ceiling_blank :
    (io : NodeIo) (s : System) → blank (apply_gpu_ceiling_locked io s) ≡ blank s
unfolding apply_gpu_ceiling_locked
apply_gpu_ceiling_blank io s =
    let ceiling = gpu_ceiling s.power in
    let w = write_node gpu_dvfs_max_lock ceiling io s in
    let f = (write_node-Frames gpu_dvfs_max_lock ceiling io s).blank in
    if_ind (λ (t : System). blank t ≡ blank s) (is_applied s.power.applied_gpu_ceiling ceiling) refl
      (if_ind (λ (t : System). blank t ≡ blank s) (is_zero w.0) f f)

-- Of what is left, a change of the profile sets the mode only.
pub apply_power_profile_blank :
    (low_power : Bool) (io : ProfileIo) (s : System)
    → blank (apply_power_profile_locked low_power io s)
      ≡ blank (record s { power = record s.power { low_power = low_power } })
unfolding apply_power_profile_locked
apply_power_profile_blank low io s =
    let w = write_node hotplug_profile (profile_text low) io.profile s in
    let s'' : System = record w.1 {
      power = record w.1.power { low_power = low; profile_applied = is_zero w.0 };
    } in
    apply_gpu_floor_blank io.floor (apply_gpu_ceiling_locked io.ceiling s'')
    ∙ apply_gpu_ceiling_blank io.ceiling s''
    ∙ ap (λ (t : System). record t { power = record t.power { low_power = low } })
        (write_node-Frames hotplug_profile (profile_text low) io.profile s).blank

-- The system without the CPU floors.
abbrev pub no_floors : System → System
no_floors s = record {
  power = record s.power { cpu_floor_fds = no_fds; cpu_floor_ready = true; boost_errors = 0 };
  nodes = record s.nodes { cluster0_freq_min = []; cluster1_freq_min = [] };
}

release_fd_frames :
    (c : Cluster) (fd : Option ℕ) (s : System) → no_floors (release_fd c fd s) ≡ no_floors s
release_fd_frames c none s = refl
release_fd_frames first (some fd) s = refl
release_fd_frames second (some fd) s = refl

release_all_frames : (s : System) → no_floors (release_all s) ≡ no_floors s
release_all_frames s =
    release_fd_frames second (release first s).power.cpu_floor_fds.cluster1 (release first s)
    ∙ release_fd_frames first s.power.cpu_floor_fds.cluster0 s

open_floor_frames :
    (c : Cluster) (o : OpenAnswer) (answer : WriteAnswer) (s : System)
    → no_floors (open_floor c o answer s).1 ≡ no_floors s
open_floor_frames c (no_open e) answer s = refl
open_floor_frames first (opened fd) answer s =
    if_ind (λ (r : Bool × System). no_floors r.1 ≡ no_floors s) (is_value (written 4 answer) 4) refl
      refl
open_floor_frames second (opened fd) answer s =
    if_ind (λ (r : Bool × System). no_floors r.1 ≡ no_floors s) (is_value (written 4 answer) 4) refl
      refl

acquire_frames :
    (c : Cluster) (io : NodeIo) (s : System) → no_floors (acquire c io s).1 ≡ no_floors s
acquire_frames c io s =
    if_ind (λ (r : Bool × System). no_floors r.1 ≡ no_floors s)
      (is_some (fd_of c s.power.cpu_floor_fds)) refl
      (open_floor_frames c (temp_failure_retry io.opening) (temp_failure_retry io.writing) s)

pub apply_cpu_floor_frames :
    (active : Bool) (io0 io1 : NodeIo) (s : System)
    → no_floors (apply_cpu_floor_locked active io0 io1 s) ≡ no_floors s
unfolding apply_cpu_floor_locked
apply_cpu_floor_frames active io0 io1 s =
    let P : System → Type 0 = λ t. no_floors t ≡ no_floors s in
    let acquired = acquire_all io0 io1 s in
    let s0 = (acquire first io0 s).1 in
    let e0 = acquire_frames first io0 s in
    let e = if_ind P (acquire first io0 s).0 (acquire_frames second io1 s0 ∙ e0) e0 in
    if_ind P (not active) (release_all_frames s) (
      if_ind P (both_held acquired.power.cpu_floor_fds) e
        (release_all_frames (with_ready false acquired) ∙ e))

-- What only a call of the interface or the clock changes.
abbrev pub rest : System → Power
rest s = (no_floors (blank s)).power

abbrev pub settle : ℕ → System → System
settle now s = with_deadlines (live_deadlines now (allowed_deadlines s.power)) s

-- Of this, ApplyBoostLocked changes the deadlines, and they by the clock and the modes.
pub apply_boost_rest :
    (io : ApplyIo) (s : System) → rest (apply_boost_locked io s) ≡ rest (settle io.now s)
unfolding apply_boost_locked
apply_boost_rest io s =
    let s1 = apply_foreground io.foreground s in
    let d = allowed_deadlines s1.power in
    let active = is_active io.now d in
    let s2 = with_deadlines (live_deadlines io.now d) s1 in
    let s3 = apply_cpu_floor_locked active io.floor0 io.floor1 s2 in
    ap (λ (t : System). rest t) (apply_top_app_blank active io.top_app s3)
    ∙ ap (λ (t : System). rest t) (apply_cpu_floor_frames active io.floor0 io.floor1 s2)
    ∙ ap (λ (t : System). rest (settle io.now t)) (apply_foreground_blank io.foreground s)
