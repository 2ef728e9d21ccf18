-- ===== src/Fingerprint/Worker/Threads.antt =====
-- The threads of fingerprint/FingerprintHAL.c: framework threads in the entry points, and workers,
-- interleaved at the critical sections of device->lock in any order.
use android_device_meizu_m.Prelude.{
  ℕ, ◌+◌, ◌-◌, ◌<◌, ◌≡◌, ◌≢◌, ◌⊎◌, ◌↔◌, Bool, true, false, not, ◌&&◌, arith, ◌==◌,
}
use android_device_meizu_m.Fingerprint.Types.{WorkerOperation, Device}
use android_device_meizu_m.Fingerprint.Worker.{
  finish_worker, reap_finished_worker, start_worker_locked, stop_section,
}

-- The device, and the threads by number: workers that run, workers past finish_worker that nobody has
-- joined, and framework threads on their way to a pthread_join.
pub record System : Type 0 where
  pub device : Device
  pub running : ℕ
  pub ended : ℕ
  pub joining : ℕ

abbrev pub one_if : Bool → ℕ
one_if true = 1
one_if false = 0

-- The flags and the operation are as they were, and so is the cancel flag.
pub record SameFlags (d e : Device) : Type 0 where
  pub worker_active : e.worker_active ≡ d.worker_active
  pub worker_joinable : e.worker_joinable ≡ d.worker_joinable
  pub cancel_requested : e.cancel_requested ≡ d.cancel_requested
  pub operation : e.operation ≡ d.operation

-- reap and stop are the critical sections of reap_finished_worker and stop_worker. start is the one of
-- fingerprint_enroll or fingerprint_authenticate when it reaches start_worker_locked, with the fields
-- set before. finish is the one of finish_worker. other is any section that leaves the flags alone.
pub data Step (s : System) : System → Type 0 where
  reap : Step s (record s {
    device = (reap_finished_worker s.device).0;
    joining = s.joining + one_if (s.device.worker_joinable && not s.device.worker_active);
  })
  stop : Step s (record s {
    device = (stop_section s.device).0;
    joining = s.joining + one_if (stop_section s.device).1;
  })
  start :
      (d : Device) (operation : WorkerOperation) (created : ℕ)
      → SameFlags s.device d
      → operation ≢ WorkerOperation.idle
      → s.device.worker_active ≡ false
      → s.device.worker_joinable ≡ false
      → Step s (record s {
        device = (start_worker_locked d operation created).0;
        running = s.running + one_if (created == 0);
      })
  finish :
      0 < s.running
      → Step s (record s {
        device = (finish_worker s.device).0;
        running = s.running - 1;
        ended = s.ended + 1;
      })
  join :
      0 < s.joining
      → 0 < s.ended
      → Step s (record s { ended = s.ended - 1; joining = s.joining - 1 })
  other : (d : Device) → SameFlags s.device d → Step s (record s { device = d })

pub data Reach : System → Type 0 where
  opened :
      (d : Device)
      → d.worker_active ≡ false
      → d.worker_joinable ≡ false
      → d.operation ≡ WorkerOperation.idle
      → Reach (record { device = d; running = 0; ended = 0; joining = 0 })
  next : {s t : System} → Reach s → Step s t → Reach t

pub record Inv (s : System) : Type 0 where
  pub active : s.running ≡ one_if s.device.worker_active
  pub owned : s.running + s.ended ≡ one_if s.device.worker_joinable + s.joining
  pub told :
      s.device.worker_active ≡ true
      → s.device.worker_joinable ≡ false
      → s.device.cancel_requested ≡ true
  pub resting : s.device.worker_active ≡ false → s.device.operation ≡ WorkerOperation.idle
  pub working : s.device.worker_active ≡ true → s.device.operation ≢ WorkerOperation.idle

-- For the induction on the steps.
pub Step-Inv : {s t : System} → Step s t → Inv s → Inv t
unfolding reap_finished_worker stop_section start_worker_locked finish_worker
Step-Inv reap v = ground arith
Step-Inv stop v = ground arith
Step-Inv (start d operation created same busy a j) v = ground arith
Step-Inv (finish h) v = ground arith
Step-Inv (join h k) v = ground arith
Step-Inv (other d same) v = ground arith

Reach-Inv : {s : System} → Reach s → Inv s
Reach-Inv (opened d a j o) = ground arith
Reach-Inv (next r st) = Step-Inv st (Reach-Inv r)

idle_iff :
    (s : System)
    → Inv s
    → (s.device.operation ≡ WorkerOperation.idle) ↔ (s.device.worker_active ≡ false)
idle_iff s v = (λ h. ground (arith, v), λ h. ground (arith, v))

told_cases :
    (s : System)
    → Inv s
    → (s.device.worker_active ≡ false)
      ⊎ (s.device.worker_joinable ≡ true)
      ⊎ (s.device.cancel_requested ≡ true)
told_cases s v = ground (arith, v)

-- In every reachable state, however the critical sections of the threads interleave: one worker runs
-- if the device says that one is active, and else none; the workers not yet joined are the one that is
-- still to be joined, if the device says so, and one for each thread on its way to a join; a worker
-- that runs while it is no longer to be joined has its cancel flag set; and the operation is idle
-- exactly when no worker is active.
pub threads_accounted :
    (s : System)
    → Reach s
    → (s.running ≡ one_if s.device.worker_active)
      × (s.running + s.ended ≡ one_if s.device.worker_joinable + s.joining)
      × ((s.device.worker_active ≡ false)
          ⊎ (s.device.worker_joinable ≡ true)
          ⊎ (s.device.cancel_requested ≡ true))
      × ((s.device.operation ≡ WorkerOperation.idle) ↔ (s.device.worker_active ≡ false))
threads_accounted s r = let v = Reach-Inv r in (v.active, v.owned, told_cases s v, idle_iff s v)
