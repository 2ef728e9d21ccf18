-- ===== src/Fingerprint/Api/Open/Resources.antt =====
-- What a device of fingerprint/FingerprintHAL.c holds, from fingerprint_open to fingerprint_close.
use android_device_meizu_m.Prelude.{
  ℕ, map, List, if_case, ◌≡◌, refl, Bool, true, false, ◌&&◌, [], ◌∷◌, ◌++◌, Option, none, some, ℤ,
  is_neg, neg_ne_zero, subst, ◌==◌, if◌then◌else◌, arith, not, is_zero, is_some, if_ind, ◌∙◌, ap,
}
use mathlib.Core.Option
use mathlib.Core.Option.{some-injective}
use android_device_meizu_m.Fingerprint.Types.{
  Device, lock, unlock, Effect, Log, lib_init, allocate, dev_open, join, free_print, mutex_init,
  dev_close, lib_exit, mutex_destroy, free_device,
}
use android_device_meizu_m.Fingerprint.Tracks.{track, track-append, and_then}
use android_device_meizu_m.Fingerprint.Templates.{free_templates_locked}
use android_device_meizu_m.Fingerprint.Worker.{stop_worker, reap_finished_worker, stop_section}
use android_device_meizu_m.Fingerprint.Templates.Gallery.{
  Gallery, Print, handle_of, free_prints, free_templates_locked-Gallery,
}
use android_device_meizu_m.Fingerprint.Api.{fingerprint_close}
use android_device_meizu_m.Fingerprint.Api.Open.{OpenIo, open_device, fingerprint_open}

-- What a device holds: its four resources, whether a worker was started and not yet joined, and the
-- prints in memory, by their handles.
pub record Held : Type 0 where
  pub library : Bool
  pub memory : Bool
  pub sensor : Bool
  pub mutex : Bool
  pub worker : Bool
  pub prints : List ℕ

abbrev pub nothing : Held
nothing = record {
  library = false;
  memory = false;
  sensor = false;
  mutex = false;
  worker = false;
  prints = [];
}

abbrev pub holding : Bool → List ℕ → Held
holding worker prints = record {
  library = true;
  memory = true;
  sensor = true;
  mutex = true;
  worker = worker;
  prints = prints;
}

abbrev without : ℕ → List ℕ → Option (List ℕ)
without h [] = none
without h (p ∷ ps) = if h == p then some ps else Option.map (◌∷◌ p) (without h ps)

abbrev with_prints : Held → Option (List ℕ) → Option Held
with_prints h none = none
with_prints h (some prints) = some (record h { prints = prints })

-- A resource is taken once, given back once, and not used after what it stands on: the prints and the
-- sensor on the library, the mutex and the sensor's handle on the memory. A worker uses all of them,
-- and is joined once, so none is given back before.
abbrev pub held_step : Effect → Held → Option Held
held_step lib_init h = if h.library then none else some (record h { library = true })
held_step allocate h = if h.memory then none else some (record h { memory = true })
held_step dev_open h =
    if h.library && (h.memory && not h.sensor) then some (record h { sensor = true }) else none
held_step mutex_init h = if h.memory && not h.mutex then some (record h { mutex = true }) else none
held_step join h = if h.memory && h.worker then some (record h { worker = false }) else none
held_step (free_print print) h =
    if h.library && (h.memory && not h.worker) then with_prints h (without print h.prints) else none
held_step dev_close h =
    if h.library && (h.memory && (h.sensor && not h.worker))
    then some (record h { sensor = false })
    else none
held_step lib_exit h =
    if h.library && (not h.sensor && not h.worker)
    then some (record h { library = false })
    else none
held_step mutex_destroy h =
    if h.memory && (h.mutex && not h.worker) then some (record h { mutex = false }) else none
held_step free_device h =
    if h.memory && (not h.mutex && (not h.sensor && not h.worker))
    then some (record h { memory = false })
    else none
held_step _ h = some h

abbrev Holds : Held → Option Device × ℤ × Log → Type 0
Holds start r =
    (is_zero r.1 ≡ is_some r.0)
    × (track held_step r.2 start ≡ some (if is_some r.0 then holding false [] else nothing))

open_device-Holds : (io : OpenIo) → Holds (record nothing { library = true }) (open_device io)
unfolding open_device
open_device-Holds io =
    let library = record nothing { library = true } in
    if_ind (Holds library) io.allocated
      (if_ind (Holds library) io.sensor
        (if_case (Holds library) (io.mutex == 0) (λ h. (refl, refl))
          (λ h. (neg_ne_zero io.mutex (ground arith), refl)))
        (refl, refl))
      (refl, refl)

-- The result is 0 exactly when there is a device, and then the call holds all four resources; a call
-- that fails, at whatever step, has given back all that it took, once and in order.
pub fingerprint_open_holds :
    (wanted : Bool) (io : OpenIo)
    → (is_zero (fingerprint_open wanted io).1 ≡ is_some (fingerprint_open wanted io).0)
      × (track held_step (fingerprint_open wanted io).2 nothing
          ≡ some (if is_some (fingerprint_open wanted io).0 then holding false [] else nothing))
unfolding fingerprint_open open_device
fingerprint_open_holds wanted io =
    if_ind (Holds nothing) wanted
      (if_ind (Holds nothing) (is_neg io.init) (refl, refl)
        (if_ind (Holds nothing) io.discovered (open_device-Holds io) (refl, refl)))
      (refl, refl)

stop_holds :
    (d : Device) (prints : List ℕ)
    → track held_step (stop_worker d false none).2 (holding d.worker_joinable prints)
      ≡ some (holding false prints)
unfolding stop_worker reap_finished_worker stop_section
stop_holds d prints = ground arith

stop_slots : (d : Device) → d.slots ≡ (stop_worker d false none).0.slots
unfolding stop_worker reap_finished_worker stop_section
stop_slots d = ground arith

free_prints_holds :
    (ps : List Print)
    → track held_step (free_prints ps) (holding false (map handle_of ps)) ≡ some (holding false [])
free_prints_holds [] = refl
free_prints_holds (p ∷ ps) = ground (arith, free_prints_holds ps)

-- fingerprint_close of a device with any loaded prints, whatever its worker does: the worker is joined
-- exactly when one was started and not joined before, each print is freed once, and the sensor, the
-- library, the mutex and the memory are given back once, nothing while the worker runs, and nothing
-- before what stands on it; the device holds nothing at the end.
pub fingerprint_close_releases :
    (d : Device) (ps : List Print)
    → Gallery d.slots ps
    → track held_step (fingerprint_close (some d)).1 (holding d.worker_joinable (map handle_of ps))
      ≡ some nothing
unfolding fingerprint_close
fingerprint_close_releases d ps g =
    let prints = map handle_of ps in
    let stopped = stop_worker d false none in
    let freed = (free_templates_locked stopped.0).1 in
    let release : Log = unlock ∷ dev_close ∷ lib_exit ∷ mutex_destroy ∷ free_device ∷ [] in
    let e : freed ≡ free_prints ps =
      (free_templates_locked-Gallery stopped.0 ps (subst (λ s. Gallery s ps) (stop_slots d) g)).2 in
    track-append held_step stopped.2 (lock ∷ (freed ++ release)) (holding d.worker_joinable prints)
    ∙ ap (λ o. and_then o (track held_step (lock ∷ (freed ++ release)))) (stop_holds d prints)
    ∙ ap (λ (l : Log). track held_step (l ++ release) (holding false prints)) e
    ∙ track-append held_step (free_prints ps) release (holding false prints)
    ∙ ap (λ o. and_then o (track held_step release)) (free_prints_holds ps)
