-- ===== src/PowerService/Rest.antt =====
-- The worker of power/Power.cpp at rest: when it comes to it, and what the kernel has then.
use android_device_meizu_m.Prelude.{
  ℕ, ◌≡◌, ◌≤◌, ◌+◌, ◌*◌, refl, sym, subst, ap, ◌∙◌, Bool, true, false, not, ◌||◌, Option, none,
  some, List, ◌==◌, arith, if_ind, if_case, if◌then◌else◌, ℤ, pos, is_zero, length,
}
use android_device_meizu_m.PowerService.{Deadlines, FloorFds, Power, Nodes, System, no_deadlines}
use android_device_meizu_m.PowerService.Write.{
  temp_failure_retry, OpenAnswer, no_open, opened, WriteAnswer, no_write, whole, partly, NodeIo,
  Node, is_value, open_node, write_node,
}
use android_device_meizu_m.PowerService.Config.{Scanned}
use android_device_meizu_m.PowerService.Profile.{ProfileIo}
use android_device_meizu_m.PowerService.Boost.{
  ApplyIo, apply_boost_locked, apply_foreground, apply_top_app, to_string, boost_value, is_allowed,
  is_active, live, live_deadlines, allowed_deadlines, with_deadlines, apply_cpu_floor_locked,
  both_held, ms,
}
use android_device_meizu_m.PowerService.Calls.{
  construct, boost_worker_round, next_wake, Call, worker, run_all,
}
use android_device_meizu_m.PowerService.Frame.{
  write_node-Frames, apply_foreground_blank, apply_top_app_blank, apply_cpu_floor_frames,
}
use android_device_meizu_m.PowerService.Held.{entry, apply_cpu_floor-IsWhole}
use android_device_meizu_m.PowerService.Safe.{IsFresh, run-IsSafe, run_all-IsSafe, not_active}
use android_device_meizu_m.PowerService.Worker.{is_value-eq, boost_worker_round-IsTimely}
use android_device_meizu_m.PowerService.Applied.{ApplyFits, ProfileFits}
use android_device_meizu_m.PowerService.Agrees.{AllFit, run-Agrees, run_all-Agrees}

-- The node opens and takes the whole text.
abbrev pub Opens : OpenAnswer → Type 0
Opens (no_open e) = ⊥
Opens (opened fd) = Unit

abbrev pub Takes : WriteAnswer → Type 0
Takes (no_write e) = ⊥
Takes whole = Unit
Takes (partly n) = ⊥

abbrev pub Succeeds : NodeIo → Type 0
Succeeds io = Opens (temp_failure_retry io.opening) × Takes (temp_failure_retry io.writing)

-- Then WriteNode returns 0.
write_opened_done :
    (node : Node) (value : List ℕ) (o : OpenAnswer) (answer : WriteAnswer) (s : System)
    → Opens o
    → Takes answer
    → (open_node node value o answer s).0 ≡ pos 0
write_opened_done node value (no_open e) answer s h k = elim h [ ]
write_opened_done node value (opened fd) (no_write e) s h k = elim k [ ]
write_opened_done node value (opened fd) (partly n) s h k = elim k [ ]
write_opened_done node value (opened fd) whole s h k =
    if_case (λ (z : ℤ). z ≡ pos 0) (length value == length value) (λ _. refl)
      (λ f. absurd (ground arith))

pub write_node_done :
    (node : Node) (value : List ℕ) (io : NodeIo) (s : System)
    → Succeeds io
    → is_zero (write_node node value io s).0 ≡ true
unfolding write_node
write_node_done node value io s h = ap is_zero (
    write_opened_done node value (temp_failure_retry io.opening) (temp_failure_retry io.writing) s
      h.0 h.1)

apply_foreground_done :
    (io : NodeIo) (s : System)
    → Succeeds io
    → (apply_foreground io s).power.applied_foreground ≡ some s.power.foreground_boost
unfolding apply_foreground
apply_foreground_done io s h =
    let value = s.power.foreground_boost in
    let P : System → Type 0 = λ t. t.power.applied_foreground ≡ some value in
    if_case P (is_value s.power.applied_foreground value)
      (λ t. is_value-eq s.power.applied_foreground value t)
      (λ _.
        if_case P (is_zero (write_node Node.foreground_boost (to_string value) io s).0) (λ _. refl)
          (λ f.
            absurd (let d = write_node_done Node.foreground_boost (to_string value) io s h in cc)))

pub apply_top_app_done :
    (active : Bool) (io : NodeIo) (s : System)
    → Succeeds io
    → (apply_top_app active io s).power.applied_boost ≡ some (boost_value active s.power)
unfolding apply_top_app
apply_top_app_done active io s h =
    let value = boost_value active s.power in
    let P : System → Type 0 = λ t. t.power.applied_boost ≡ some value in
    if_case P (is_value s.power.applied_boost value)
      (λ t. is_value-eq s.power.applied_boost value t)
      (λ _.
        if_case P (is_zero (write_node Node.top_app_boost (to_string value) io s).0) (λ _. refl)
          (λ f. absurd (let d = write_node_done Node.top_app_boost (to_string value) io s h in cc)))

apply_top_app_keeps :
    (active : Bool) (io : NodeIo) (s : System)
    → (apply_top_app active io s).power.applied_foreground ≡ s.power.applied_foreground
unfolding apply_top_app
apply_top_app_keeps active io s =
    let value = boost_value active s.power in
    let P : System → Type 0 = λ t. t.power.applied_foreground ≡ s.power.applied_foreground in
    let w = write_node Node.top_app_boost (to_string value) io s in
    let kept =
      ap (λ (p : Power). p.applied_foreground)
        (write_node-Frames Node.top_app_boost (to_string value) io s).power in
    if_ind P (is_value s.power.applied_boost value) refl (if_ind P (is_zero w.0) kept kept)

-- Every deadline has passed.
abbrev pub Passed : ℕ → Deadlines → Type 0
Passed now d = (d.interaction ≤ now) × (d.display ≤ now) × (d.launch ≤ now)

passed_live : (now t : ℕ) → t ≤ now → live now t ≡ 0
passed_live now t h = ground arith

live_deadlines_passed :
    (now : ℕ) (d : Deadlines) → Passed now d → live_deadlines now d ≡ no_deadlines
live_deadlines_passed now d h =
    ap (λ x. record { interaction = x; display = live now d.display; launch = live now d.launch })
      (passed_live now d.interaction h.0)
    ∙ ap (λ x. record { interaction = 0; display = x; launch = live now d.launch })
        (passed_live now d.display h.1)
    ∙ ap (λ x. record { interaction = 0; display = 0; launch = x }) (passed_live now d.launch h.2)

allowed_passed :
    (now : ℕ) (p : Power) → Passed now p.boost_deadlines → Passed now (allowed_deadlines p)
allowed_passed now p h = if_ind (Passed now) (is_allowed p) h (omega arith)

resting : (b f x : ℕ) → (if not (b == b) || not (f == f) || false then some x else none) ≡ none
resting b f x = ground arith

rests :
    (clock : ℕ) (p : Power)
    → p.boost_deadlines ≡ no_deadlines
    → p.applied_boost ≡ some p.base_boost
    → p.applied_foreground ≡ some p.foreground_boost
    → p.cpu_floor_ready ≡ true
    → next_wake clock p ≡ none
rests clock p d b f r = rw (d, b, f, r) (resting p.base_boost p.foreground_boost (clock + 100 * ms))

-- What a round does whose writes succeed after all deadlines.
round_done :
    (io : ApplyIo) (s : System)
    → Succeeds io.foreground
    → Succeeds io.top_app
    → Passed io.now s.power.boost_deadlines
    → let p = (apply_boost_locked io s).power in
      (p.boost_deadlines ≡ no_deadlines)
      × (p.applied_boost ≡ some p.base_boost)
      × (p.applied_foreground ≡ some p.foreground_boost)
      × (p.cpu_floor_ready ≡ true)
unfolding apply_boost_locked
round_done io s f t passed =
    let s1 = apply_foreground io.foreground s in
    let d = allowed_deadlines s1.power in
    let active = is_active io.now d in
    let s2 = with_deadlines (live_deadlines io.now d) s1 in
    let s3 = apply_cpu_floor_locked active io.floor0 io.floor1 s2 in
    let e1 = apply_foreground_blank io.foreground s in
    let e3 = apply_cpu_floor_frames active io.floor0 io.floor1 s2 in
    let e4 = apply_top_app_blank active io.top_app s3 in
    let passed1 = subst (λ (x : System). Passed io.now x.power.boost_deadlines) (sym e1) passed in
    let gone = live_deadlines_passed io.now d (allowed_passed io.now s1.power passed1) in
    let idle : active ≡ false = not_active io.now d gone in
    let base : (apply_top_app active io.top_app s3).power.applied_boost ≡ some s3.power.base_boost =
      apply_top_app_done active io.top_app s3 t ∙ ap (λ b. some (boost_value b s3.power)) idle in
    let kept = ap (λ (x : System). x.power.applied_foreground) e3 in
    let w = apply_cpu_floor-IsWhole active io.floor0 io.floor1 s2 in
    (
      ap (λ (x : System). x.power.boost_deadlines) e4
          ∙ ap (λ (x : System). x.power.boost_deadlines) e3
          ∙ gone,
      base ∙ ap (λ (x : System). some x.power.base_boost) (sym e4),
      apply_top_app_keeps active io.top_app s3
          ∙ kept
          ∙ apply_foreground_done io.foreground s f
          ∙ sym (
              ap (λ (x : System). some x.power.foreground_boost) e4
              ∙ ap (λ (x : System). some x.power.foreground_boost) e3
              ∙ ap (λ (x : System). some x.power.foreground_boost) e1),
      ap (λ (x : System). x.power.cpu_floor_ready) e4
          ∙ w.ready
          ∙ ap (λ b. not b || both_held s3.power.cpu_floor_fds) idle,
    )

-- A round of a service that is not stopped waits without a limit when all deadlines have passed by its
-- reading of the clock and its two writes of boosts succeed, whatever failed before.
pub worker_comes_to_rest :
    (io : ApplyIo) (clock : ℕ) (s : System)
    → s.power.stop_boost ≡ false
    → Passed io.now s.power.boost_deadlines
    → Succeeds io.foreground
    → Succeeds io.top_app
    → (boost_worker_round io clock s).1 ≡ some none
unfolding boost_worker_round
worker_comes_to_rest io clock s going passed f t =
    let s' = apply_boost_locked io s in
    let d = round_done io s f t passed in
    if_case (λ (r : System × Option (Option ℕ)). r.1 ≡ some none) s.power.stop_boost (λ stopped. cc)
      (λ _. ap some (rests clock s'.power d.0 d.1 d.2 d.3))

-- The kernel without a boost.
abbrev pub IsUnboosted : System → Type 0
IsUnboosted s =
    (s.nodes.top_app ≡ to_string s.power.base_boost)
    × (s.nodes.foreground ≡ to_string s.power.foreground_boost)
    × IsFresh s.nodes

-- As long as no write is cut short: after any calls and rounds of the worker with any failures, when
-- a round of the worker waits without a limit the kernel has the base boost for the top app, the
-- foreground's boost, and no CPU floor of this service.
pub worker_at_rest :
    (config : Option Scanned) (boost_io : ApplyIo) (profile_io : ProfileIo) (nodes : Nodes)
    (cs : List Call) (io : ApplyIo) (clock : ℕ)
    → IsFresh nodes
    → ApplyFits boost_io
    → ProfileFits profile_io
    → AllFit cs
    → ApplyFits io
    → let r =
        boost_worker_round io clock (run_all cs (construct config boost_io profile_io nodes)) in
      r.1 ≡ some none → IsUnboosted r.0
worker_at_rest config boost_io profile_io nodes cs io clock fresh f g fits fit h =
    let s = run_all cs (construct config boost_io profile_io nodes) in
    let r = boost_worker_round io clock s in
    let timely = boost_worker_round-IsTimely io clock s none h in
    let agrees =
      run-Agrees (worker io clock) s fit
        (run_all-Agrees config boost_io profile_io nodes cs f g fits) in
    let safe =
      run-IsSafe (worker io clock) s (run_all-IsSafe config boost_io profile_io nodes cs fresh) in
    let bare = safe.2 timely.0 in
    (
      agrees.1 r.0.power.base_boost timely.1.0,
      agrees.0 r.0.power.foreground_boost timely.1.1,
      (
        safe.0.0 ∙ ap (λ (x : FloorFds). entry x.cluster0) bare,
        safe.0.1 ∙ ap (λ (x : FloorFds). entry x.cluster1) bare,
      ),
    )
