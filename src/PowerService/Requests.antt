-- ===== src/PowerService/Requests.antt =====
-- What a call of the interface of power/Power.cpp brings about, by what the service says it supports.
use Prim.Native.Nat.{max}
use android_device_meizu_m.Prelude.{
  ℕ, ◌≡◌, ◌<◌, ◌≤◌, ◌+◌, ◌*◌, refl, sym, subst, ap, ◌∙◌, Bool, true, false, some, arith,
  if◌then◌else◌, ℤ, pos,
}
use android_device_meizu_m.PowerService.{Deadlines, Power, System, no_deadlines}
use android_device_meizu_m.PowerService.Boost.{
  ApplyIo, apply_boost_locked, apply_foreground, is_allowed, may_boost, is_active, live,
  live_deadlines, allowed_deadlines, with_deadlines, apply_cpu_floor_locked, boost_value, duration,
  ms, requested, requesting, request_boost_locked, Source, deadline_of, with_deadline, interaction,
  display, launch,
}
use android_device_meizu_m.PowerService.Calls.{
  Mode, low_power, sustained_performance, expensive_rendering, interactive, display_inactive, other,
  ModeIo, set_mode, is_mode_supported, Boost, set_boost, is_boost_supported,
}
use android_device_meizu_m.PowerService.Frame.{
  apply_boost_rest, apply_foreground_blank, apply_cpu_floor_frames,
}
use android_device_meizu_m.PowerService.Rest.{Succeeds, apply_top_app_done}

set_mode_other :
    (type : Mode) (enabled : Bool) (io : ModeIo) (s : System)
    → is_mode_supported type ≡ false
    → set_mode type enabled io s ≡ apply_boost_locked io.applied s
unfolding is_mode_supported set_mode
set_mode_other (other n) enabled io s h = refl
set_mode_other low_power enabled io s h = cc
set_mode_other sustained_performance enabled io s h = cc
set_mode_other Mode.launch enabled io s h = cc
set_mode_other expensive_rendering enabled io s h = cc
set_mode_other interactive enabled io s h = cc
set_mode_other display_inactive enabled io s h = cc

set_boost_other :
    (type : Boost) (duration_ms : ℤ) (clock : ℕ) (io : ApplyIo) (s : System)
    → is_boost_supported type ≡ false
    → set_boost type duration_ms clock io s ≡ s
unfolding is_boost_supported set_boost
set_boost_other (Boost.other n) duration_ms clock io s h = refl
set_boost_other Boost.interaction duration_ms clock io s h = cc
set_boost_other Boost.display_update_imminent duration_ms clock io s h = cc

-- A mode that the service does not call supported has the effect of ApplyBoostLocked alone, the same
-- as for a round of the worker, and a boost that it does not call supported has none.
pub unsupported_calls :
    (type : Mode) (enabled : Bool) (io : ModeIo) (kind : Boost) (duration_ms : ℤ) (clock : ℕ)
    (boost_io : ApplyIo) (s : System)
    → is_mode_supported type ≡ false
    → is_boost_supported kind ≡ false
    → (set_mode type enabled io s ≡ apply_boost_locked io.applied s)
      × (set_boost kind duration_ms clock boost_io s ≡ s)
unsupported_calls type enabled io kind duration_ms clock boost_io s m b =
    (set_mode_other type enabled io s m, set_boost_other kind duration_ms clock boost_io s b)

allowed_may : (p : Power) → is_allowed p ≡ true → may_boost p ≡ true
allowed_may p h = ground arith

with_at :
    (source : Source) (t : ℕ) (d : Deadlines) → deadline_of source (with_deadline source t d) ≡ t
with_at interaction t d = refl
with_at display t d = refl
with_at launch t d = refl

-- The deadline of a request that is allowed, before and after it is applied.
requested_deadline :
    (source : Source) (n default_ms clock : ℕ) (p : Power)
    → may_boost p ≡ true
    → deadline_of source (requested source (pos n) default_ms clock p)
      ≡ max (deadline_of source p.boost_deadlines) (clock + duration n default_ms * ms)
requested_deadline source n default_ms clock p h =
    let t = max (deadline_of source p.boost_deadlines) (clock + duration n default_ms * ms) in
    ap
      (λ b.
        deadline_of source
          (if b then with_deadline source t p.boost_deadlines else p.boost_deadlines))
      h
    ∙ with_at source t p.boost_deadlines

live_later : (now t : ℕ) → now < t → live now t ≡ t
live_later now t h = ground arith

active_at :
    (source : Source) (now : ℕ) (d : Deadlines)
    → now < deadline_of source d
    → is_active now d ≡ true
active_at interaction now d h = ground arith
active_at display now d h = ground arith
active_at launch now d h = ground arith

live_at :
    (source : Source) (now : ℕ) (d : Deadlines)
    → deadline_of source (live_deadlines now d) ≡ live now (deadline_of source d)
live_at interaction now d = refl
live_at display now d = refl
live_at launch now d = refl

apply_allowed :
    (source : Source) (io : ApplyIo) (s : System)
    → is_allowed s.power ≡ true
    → io.now < deadline_of source s.power.boost_deadlines
    → deadline_of source (apply_boost_locked io s).power.boost_deadlines
      ≡ deadline_of source s.power.boost_deadlines
apply_allowed source io s allowed h =
    ap (λ (p : Power). deadline_of source p.boost_deadlines) (apply_boost_rest io s)
    ∙ ap
        (λ b.
          deadline_of source
            (live_deadlines io.now (if b then s.power.boost_deadlines else no_deadlines)))
        allowed
    ∙ live_at source io.now s.power.boost_deadlines
    ∙ live_later io.now (deadline_of source s.power.boost_deadlines) h

-- An ApplyBoostLocked before a deadline gives the active boost.
apply_boosts :
    (source : Source) (io : ApplyIo) (s : System)
    → is_allowed s.power ≡ true
    → io.now < deadline_of source s.power.boost_deadlines
    → Succeeds io.top_app
    → (apply_boost_locked io s).power.applied_boost ≡ some s.power.active_boost
unfolding apply_boost_locked
apply_boosts source io s allowed h t =
    let s1 = apply_foreground io.foreground s in
    let d = allowed_deadlines s1.power in
    let active = is_active io.now d in
    let s2 = with_deadlines (live_deadlines io.now d) s1 in
    let s3 = apply_cpu_floor_locked active io.floor0 io.floor1 s2 in
    let e1 = apply_foreground_blank io.foreground s in
    let same : d ≡ s.power.boost_deadlines =
      ap (λ (x : System). allowed_deadlines x.power) e1
      ∙ ap (λ b. if b then s.power.boost_deadlines else no_deadlines) allowed in
    let on : active ≡ true =
      active_at source io.now d (subst (λ x. io.now < deadline_of source x) (sym same) h) in
    apply_top_app_done active io.top_app s3 t
    ∙ ap (λ b. some (boost_value b s3.power)) on
    ∙ ap (λ (x : System). some x.power.active_boost)
        (apply_cpu_floor_frames active io.floor0 io.floor1 s2)
    ∙ ap (λ (x : System). some x.power.active_boost) e1

-- How many milliseconds a request for `n` lasts: 0 is the default, and two seconds are the most.
pub data RunsFor (default_ms : ℕ) : ℕ → ℕ → Type 0 where
  by_default : RunsFor default_ms 0 default_ms
  as_asked : {n : ℕ} → 0 < n → n ≤ 2000 → RunsFor default_ms n n
  cut : {n : ℕ} → 2000 < n → RunsFor default_ms n 2000

duration_lasts :
    (n default_ms length_ms : ℕ)
    → RunsFor default_ms n length_ms
    → duration n default_ms ≡ length_ms
duration_lasts n default_ms length_ms by_default = refl
duration_lasts n default_ms length_ms (as_asked h k) = ground arith
duration_lasts n default_ms length_ms (cut h) = ground arith

-- The screen is on, no mode saves power, and the service is not stopped.
pub record IsBoostable (p : Power) : Type 0 where
  pub interactive : p.interactive ≡ true
  pub active : p.display_inactive ≡ false
  pub not_low : p.low_power ≡ false
  pub not_sustained : p.sustained_performance ≡ false
  pub running : p.stop_boost ≡ false

boostable_allowed : (p : Power) → IsBoostable p → is_allowed p ≡ true
boostable_allowed p b = rw (b.interactive, b.active, b.not_low, b.not_sustained, b.running) refl

-- While no mode bars a boost, a request for some time, 0 for the default, sets the deadline of its
-- source to the end of that time, cut to two seconds, unless the source's deadline is later; and when
-- it is applied before then and the write succeeds, the active boost is applied.
pub request_lasts :
    (source : Source) (n default_ms length_ms clock : ℕ) (io : ApplyIo) (s : System)
    → RunsFor default_ms n length_ms
    → IsBoostable s.power
    → io.now < clock + length_ms * 1000000
    → Succeeds io.top_app
    → let p = (request_boost_locked source (pos n) default_ms clock io s).power in
      (deadline_of source p.boost_deadlines
        ≡ max (deadline_of source s.power.boost_deadlines) (clock + length_ms * 1000000))
      × (p.applied_boost ≡ some s.power.active_boost)
unfolding request_boost_locked
request_lasts source n default_ms length_ms clock io s lasts free h t =
    let allowed = boostable_allowed s.power free in
    let s' = requesting source (pos n) default_ms clock s in
    let e : deadline_of source s'.power.boost_deadlines
        ≡ max (deadline_of source s.power.boost_deadlines) (clock + length_ms * 1000000) =
      requested_deadline source n default_ms clock s.power (allowed_may s.power allowed)
      ∙ ap (λ x. max (deadline_of source s.power.boost_deadlines) (clock + x * 1000000))
          (duration_lasts n default_ms length_ms lasts) in
    let later : io.now < deadline_of source s'.power.boost_deadlines =
      subst (λ x. io.now < x) (sym e) (omega arith) in
    (apply_allowed source io s' allowed later ∙ e, apply_boosts source io s' allowed later t)
