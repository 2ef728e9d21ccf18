-- ===== src/PowerService/Applied.antt =====
-- Each write of power/Power.cpp that is remembered as applied, against its node.
use mathlib.Core.Option.{some-injective}
use android_device_meizu_m.Prelude.{
  ℕ, suc, zero, ◌≡◌, ◌<◌, refl, sym, subst, ap, Bool, true, false, some, List, ◌==◌, arith, if_ind,
  if_case, if◌then◌else◌, ℤ, pos, negsuc, neg, is_zero, take, length, take_all,
}
use android_device_meizu_m.PowerService.{System}
use android_device_meizu_m.PowerService.Write.{
  temp_failure_retry, OpenAnswer, no_open, opened, WriteAnswer, no_write, whole, partly, NodeIo,
  Node, put, is_value, write_opened, open_node, write_node,
}
use android_device_meizu_m.PowerService.Profile.{
  is_applied, gpu_floor, gpu_ceiling, apply_gpu_floor_locked, apply_gpu_ceiling_locked, ProfileIo,
  profile_text, apply_power_profile_locked,
}
use android_device_meizu_m.PowerService.Boost.{
  count_error, ApplyIo, apply_boost_locked, apply_foreground, apply_top_app, to_string, boost_value,
  allowed_deadlines, is_active, with_deadlines, live_deadlines, apply_cpu_floor_locked,
}
use android_device_meizu_m.PowerService.Frame.{apply_cpu_floor_frames}

-- What a node of the kernel promises: an errno is positive, and a write takes the text or fails.
abbrev OpenFits : OpenAnswer → Type 0
OpenFits (no_open e) = 0 < e
OpenFits (opened fd) = Unit

abbrev WriteFits : WriteAnswer → Type 0
WriteFits (no_write e) = 0 < e
WriteFits whole = Unit
WriteFits (partly n) = ⊥

abbrev Fits : NodeIo → Type 0
Fits io = OpenFits (temp_failure_retry io.opening) × WriteFits (temp_failure_retry io.writing)

neg_case {κ} : (P : ℤ → Type κ) (e : ℕ) → 0 < e → ((n : ℕ) → P (negsuc n)) → P (neg e)
neg_case P zero h p = elim h [ ]
neg_case P (suc e) h p = p e

-- A write fails and leaves the system, or it has put the whole text.
write_node_case {κ} :
    (P : ℤ × System → Type κ) (node : Node) (value : List ℕ) (io : NodeIo) (s : System)
    → Fits io
    → ((n : ℕ) → P (negsuc n, s))
    → P (pos 0, record s { nodes = put node value s.nodes })
    → P (write_node node value io s)
unfolding write_node
write_node_case P node value io s fits fail done =
    opened_case (temp_failure_retry io.opening) (temp_failure_retry io.writing) fits.0 fits.1
  where
    whole_case : P (write_opened node value whole s)
    whole_case =
        let text = take (length value) value in
        if_case (λ (z : ℤ). P (z, record s { nodes = put node text s.nodes }))
          (length value == length value)
          (λ _.
            subst (λ (x : List ℕ). P (pos 0, record s { nodes = put node x s.nodes }))
              (sym (take_all (length value) value (omega arith))) done)
          (λ f. absurd (ground arith))

    written_case : (answer : WriteAnswer) → WriteFits answer → P (write_opened node value answer s)
    written_case (no_write e) h = neg_case (λ z. P (z, s)) e h fail
    written_case whole h = whole_case
    written_case (partly n) h = elim h [ ]

    opened_case :
        (o : OpenAnswer) (answer : WriteAnswer)
        → OpenFits o
        → WriteFits answer
        → P (open_node node value o answer s)
    opened_case (no_open e) answer h k = neg_case (λ z. P (z, s)) e h fail
    opened_case (opened fd) answer h k = written_case answer k

-- Each text that the service takes for applied is the text of its node.
abbrev pub Agrees : System → Type 0
Agrees s =
    ((v : ℕ) → s.power.applied_foreground ≡ some v → s.nodes.foreground ≡ to_string v)
    × ((v : ℕ) → s.power.applied_boost ≡ some v → s.nodes.top_app ≡ to_string v)
    × ((t : List ℕ) → s.power.applied_gpu_floor ≡ some t → s.nodes.gpu_min_lock ≡ t)
    × ((t : List ℕ) → s.power.applied_gpu_ceiling ≡ some t → s.nodes.gpu_max_lock ≡ t)
    × (s.power.profile_applied ≡ true → s.nodes.hotplug_profile ≡ profile_text s.power.low_power)

apply_foreground-Agrees :
    (io : NodeIo) (s : System) → Fits io → Agrees s → Agrees (apply_foreground io s)
unfolding apply_foreground
apply_foreground-Agrees io s fits a =
    let value = s.power.foreground_boost in
    if_ind Agrees (is_value s.power.applied_foreground value) a (
      write_node_case
        (λ r. Agrees (
          if is_zero r.0
          then record r.1 { power = record r.1.power { applied_foreground = some value } }
          else count_error r.1))
        Node.foreground_boost (to_string value) io s fits (λ n. a)
        ((λ v e. ap to_string (some-injective _ _ e)), a.1, a.2, a.3, a.4))

apply_top_app-Agrees :
    (active : Bool) (io : NodeIo) (s : System)
    → Fits io
    → Agrees s
    → Agrees (apply_top_app active io s)
unfolding apply_top_app
apply_top_app-Agrees active io s fits a =
    let value = boost_value active s.power in
    if_ind Agrees (is_value s.power.applied_boost value) a (
      write_node_case
        (λ r. Agrees (
          if is_zero r.0
          then record r.1 { power = record r.1.power { applied_boost = some value } }
          else count_error r.1))
        Node.top_app_boost (to_string value) io s fits (λ n. a)
        (a.0, (λ v e. ap to_string (some-injective _ _ e)), a.2, a.3, a.4))

pub apply_gpu_floor-Agrees :
    (io : NodeIo) (s : System) → Fits io → Agrees s → Agrees (apply_gpu_floor_locked io s)
unfolding apply_gpu_floor_locked
apply_gpu_floor-Agrees io s fits a =
    let floor = gpu_floor s.power in
    if_ind Agrees (is_applied s.power.applied_gpu_floor floor) a (
      write_node_case
        (λ r. Agrees (
          if is_zero r.0
          then record r.1 { power = record r.1.power { applied_gpu_floor = some floor } }
          else r.1))
        Node.gpu_dvfs_min_lock floor io s fits (λ n. a)
        (a.0, a.1, (λ t e. some-injective _ _ e), a.3, a.4))

pub apply_gpu_ceiling-Agrees :
    (io : NodeIo) (s : System) → Fits io → Agrees s → Agrees (apply_gpu_ceiling_locked io s)
unfolding apply_gpu_ceiling_locked
apply_gpu_ceiling-Agrees io s fits a =
    let ceiling = gpu_ceiling s.power in
    if_ind Agrees (is_applied s.power.applied_gpu_ceiling ceiling) a (
      write_node_case
        (λ r. Agrees (
          if is_zero r.0
          then record r.1 { power = record r.1.power { applied_gpu_ceiling = some ceiling } }
          else r.1))
        Node.gpu_dvfs_max_lock ceiling io s fits (λ n. a)
        (a.0, a.1, a.2, (λ t e. some-injective _ _ e), a.4))

abbrev pub ProfileFits : ProfileIo → Type 0
ProfileFits io = Fits io.profile × Fits io.ceiling × Fits io.floor

pub apply_power_profile-Agrees :
    (low : Bool) (io : ProfileIo) (s : System)
    → ProfileFits io
    → Agrees s
    → Agrees (apply_power_profile_locked low io s)
unfolding apply_power_profile_locked
apply_power_profile-Agrees low io s fits a =
    let failed : System = record s {
      power = record s.power { low_power = low; profile_applied = false };
    } in
    let done : System = record s {
      power = record s.power { low_power = low; profile_applied = true };
      nodes = record s.nodes { hotplug_profile = profile_text low };
    } in
    write_node_case
      (λ r. Agrees (
        apply_gpu_floor_locked io.floor (
          apply_gpu_ceiling_locked io.ceiling (record r.1 {
            power = record r.1.power { low_power = low; profile_applied = is_zero r.0 };
          }))))
      Node.hotplug_profile (profile_text low) io.profile s fits.0
      (λ n.
        apply_gpu_floor-Agrees io.floor (apply_gpu_ceiling_locked io.ceiling failed) fits.2
          (apply_gpu_ceiling-Agrees io.ceiling failed fits.1 (a.0, a.1, a.2, a.3, λ h. cc)))
      (apply_gpu_floor-Agrees io.floor (apply_gpu_ceiling_locked io.ceiling done) fits.2
        (apply_gpu_ceiling-Agrees io.ceiling done fits.1 (a.0, a.1, a.2, a.3, λ h. refl)))

abbrev pub ApplyFits : ApplyIo → Type 0
ApplyFits io = Fits io.foreground × Fits io.top_app

pub apply_boost-Agrees :
    (io : ApplyIo) (s : System) → ApplyFits io → Agrees s → Agrees (apply_boost_locked io s)
unfolding apply_boost_locked
apply_boost-Agrees io s fits a =
    let s1 = apply_foreground io.foreground s in
    let d = allowed_deadlines s1.power in
    let active = is_active io.now d in
    let s2 = with_deadlines (live_deadlines io.now d) s1 in
    let s3 = apply_cpu_floor_locked active io.floor0 io.floor1 s2 in
    apply_top_app-Agrees active io.top_app s3 fits.1 (
      subst Agrees (sym (apply_cpu_floor_frames active io.floor0 io.floor1 s2))
        (apply_foreground-Agrees io.foreground s fits.0 a))
