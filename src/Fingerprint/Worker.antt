-- ===== src/Fingerprint/Worker.antt =====
-- The worker thread of fingerprint/FingerprintHAL.c: the helpers that it runs, and the functions that
-- start, reap and stop it. `lock ∷ unlock ∷ []` is a critical section with nothing to record. What the
-- worker reads under the lock, and another thread may have changed, is an argument.
pub mod Threads
use android_device_meizu_m.Prelude.{
  ℕ, zero, suc, Bool, true, false, not, ◌&&◌, ◌||◌, List, [], ◌∷◌, ◌++◌, Option, none, some, ℤ, pos,
  neg, ◌==◌, if◌then◌else◌,
}
use android_device_meizu_m.Posix.{ebusy}
use android_device_meizu_m.Fingerprint.Types.{
  WorkerOperation, Device, FingerprintError, canceled, Message, error, Effect, Log, lock, unlock,
  join, create, callback, dev_mode,
}

-- device->device.notify as `listener`, read in the critical section.
abbrev pub notify_message : Option ℕ → Message → Log
notify_message none message = lock ∷ unlock ∷ []
notify_message (some listener) message = lock ∷ unlock ∷ callback listener message ∷ []

abbrev pub notify_error : Option ℕ → FingerprintError → Log
notify_error listener e = notify_message listener (error e)

-- The critical section of operation_cancelled; the flag is the caller's argument.
abbrev pub operation_cancelled : Log
operation_cancelled = lock ∷ unlock ∷ []

unfoldable pub finish_worker : Device → Device × Log
finish_worker d = (
  record d { operation = WorkerOperation.idle; worker_active = false },
  dev_mode 0 ∷ lock ∷ unlock ∷ [],
)

unfoldable pub reap_finished_worker : Device → Device × Log
reap_finished_worker d =
    if d.worker_joinable && not d.worker_active
    then (record d { worker_joinable = false }, lock ∷ unlock ∷ join ∷ [])
    else (d, lock ∷ unlock ∷ [])

-- `created` is the result of pthread_create.
unfoldable pub start_worker_locked : Device → WorkerOperation → ℕ → Device × ℤ × Log
start_worker_locked d operation created =
    let started = record d {
      cancel_requested = false;
      operation = operation;
      worker_active = true;
    } in
    if d.worker_active || d.worker_joinable
    then (d, neg ebusy, [])
    else if created == 0
    then (record started { worker_joinable = true }, pos 0, create operation ∷ [])
    else (
      record started { worker_active = false; operation = WorkerOperation.idle },
      neg created,
      create operation ∷ [],
    )

-- The critical section of stop_worker: the device, whether there is a worker to join, and whether it
-- was active.
unfoldable pub stop_section : Device → Device × Bool × Bool
stop_section d =
    if d.worker_joinable
    then (
      record d {
        cancel_requested = if d.worker_active then true else d.cancel_requested;
        worker_joinable = false;
      },
      true,
      d.worker_active,
    )
    else (d, false, false)

-- stop_worker; `listener` is the callback that notify_error reads after the join. The device is as the
-- critical section leaves it: what the worker does to it before the join returns is the worker's.
unfoldable pub stop_worker : Device → Bool → Option ℕ → Device × ℤ × Log
unfolding reap_finished_worker stop_section
stop_worker d send_cancel listener =
    let reaped = reap_finished_worker d in
    let (stopped, joins, active) = stop_section reaped.0 in
    (
      stopped,
      pos 0,
      reaped.1
          ++ (lock
              ∷ unlock
              ∷ (if joins
                  then join ∷ (if send_cancel && active then notify_error listener canceled else [])
                  else [])),
    )
