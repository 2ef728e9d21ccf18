-- ===== src/Tests/Workers.antt =====
-- The workers of fingerprint/FingerprintHAL.c and its threads, at concrete runs.
use android_device_meizu_m.Prelude.{
  ◌+◌, ◌≡◌, ◌↔◌, ◌⊎◌, inl, inr, refl, true, false, List, [], ◌∷◌, some, pos, arith, is_some,
}
use android_device_meizu_m.Fingerprint.Types.{
  WorkerOperation, Device, hw_unavailable, timeout, error, Log,
}
use android_device_meizu_m.Fingerprint.Tracks.{IsDisciplined, AllEffects}
use android_device_meizu_m.Fingerprint.Templates.{find_free_fid_locked}
use android_device_meizu_m.Fingerprint.Enroll.{EnrollStatus, EnrollRound, EnrollIo, enroll_worker}
use android_device_meizu_m.Fingerprint.Enroll.Ends.{enroll_worker_ends}
use android_device_meizu_m.Fingerprint.Enroll.CleanUp.{enroll_worker_cleans}
use android_device_meizu_m.Fingerprint.Enroll.Backed.{IsBacked}
use android_device_meizu_m.Fingerprint.Enroll.Reports.{Honest, enroll_worker-Honest}
use android_device_meizu_m.Fingerprint.Enroll.TwoErrors.{sent, enroll_worker_two_errors}
use android_device_meizu_m.Fingerprint.Authenticate.{
  IdentifyStatus, IdentifyRound, authenticate_worker,
}
use android_device_meizu_m.Fingerprint.Authenticate.Token.{Sound, authenticate_worker-Sound}
use android_device_meizu_m.Fingerprint.Authenticate.Ends.{some_last, authenticate_worker_ends}
use android_device_meizu_m.Fingerprint.Worker.{start_worker_locked, stop_section}
use android_device_meizu_m.Fingerprint.Worker.Threads.{
  System, Step, Reach, one_if, threads_accounted,
}
use android_device_meizu_m.Tests.Devices.{
  two_prints, two_prints-Gallery, resting, enrolling_device, authenticating, good_rotation,
  four_found, outcome,
}

-- A poor image, a pass, and a complete enrolment.
abbrev round : EnrollStatus → EnrollRound
round status = record {
  cancelled_before = false;
  now = 1010;
  status = status;
  enrolled = some 300;
  cancelled_after = false;
  listener = some 7;
}

abbrev stopping : EnrollRound
stopping = record (round EnrollStatus.pass) { cancelled_before = true }

abbrev three_rounds : EnrollIo
three_rounds = record {
  stages = 8;
  started = 1000;
  rounds =
      round EnrollStatus.retry
      ∷ round EnrollStatus.pass
      ∷ round EnrollStatus.complete
      ∷ stopping
      ∷ [];
  complete = record { saved = pos 0; found = some four_found; rotate = good_rotation };
  cancelled_at_end = false;
  now_at_end = 1011;
  listener_at_end = some 7;
}

enroll_worker_ends_example :
    (r : Device × Log) × (enroll_worker enrolling_device three_rounds ≡ some r)
enroll_worker_ends_example =
    enroll_worker_ends enrolling_device three_rounds (inr (inr (inr (inl refl))))

abbrev enrolled : Device × Log
enrolled = outcome (enroll_worker enrolling_device three_rounds)

enroll_worker_cleans_example :
    (enrolled.0.worker_active ≡ false)
    × (enrolled.0.operation ≡ WorkerOperation.idle)
    × IsDisciplined enrolled.1
unfolding enroll_worker find_free_fid_locked
enroll_worker_cleans_example =
    enroll_worker_cleans enrolling_device three_rounds enrolled.0 enrolled.1 refl

enroll_worker-Honest_example :
    AllEffects (Honest enrolling_device two_prints three_rounds.complete) enrolled.1
    × IsBacked enrolled.1
unfolding enroll_worker find_free_fid_locked
enroll_worker-Honest_example =
    enroll_worker-Honest enrolling_device two_prints three_rounds enrolled.0 enrolled.1
      two_prints-Gallery (omega arith) refl

abbrev failing : EnrollIo
failing = record three_rounds { rounds = round EnrollStatus.negative ∷ []; now_at_end = 1060 }

enroll_worker_two_errors_example :
    sent (enroll_worker enrolling_device failing) ≡ some (error hw_unavailable ∷ error timeout ∷ [])
enroll_worker_two_errors_example =
    enroll_worker_two_errors enrolling_device failing (round EnrollStatus.negative) [] 7 7 refl refl
      refl refl refl refl refl refl refl

abbrev look : IdentifyStatus → IdentifyRound
look status = record {
  cancelled_before = false;
  status = status;
  match_index = pos 1;
  cancelled_after = false;
  listener = some 7;
  listener_next = some 7;
  clock = record { tv_sec = 12; tv_nsec = 5000000 };
}

abbrev looks : List IdentifyRound
looks = look IdentifyStatus.other ∷ look IdentifyStatus.no_match ∷ look IdentifyStatus.match ∷ []

abbrev identified : Device × Log
identified = outcome (authenticate_worker authenticating looks)

authenticate_worker-Sound_example :
    (identified.0
      ≡ record authenticating { worker_active = false; operation = WorkerOperation.idle })
    × Sound authenticating looks identified.1
unfolding authenticate_worker
authenticate_worker-Sound_example =
    authenticate_worker-Sound authenticating identified.0 looks identified.1 refl

authenticate_worker_ends_test : is_some (authenticate_worker authenticating looks) ≡ some_last looks
authenticate_worker_ends_test = authenticate_worker_ends authenticating looks

-- A worker is started, and asked to stop while it runs.
abbrev start_run : System
start_run = record {
  device =
      (start_worker_locked (record resting { operation_id = 3 }) WorkerOperation.authenticate 0).0;
  running = 1;
  ended = 0;
  joining = 0;
}

abbrev stop_run : System
stop_run = record {
  device = (stop_section start_run.device).0;
  running = 1;
  ended = 0;
  joining = 1;
}

stop_run-Reach : Reach stop_run
unfolding start_worker_locked stop_section
stop_run-Reach =
    Reach.next
      (Reach.next (Reach.opened resting refl refl refl) (
        Step.start (record resting { operation_id = 3 }) WorkerOperation.authenticate 0
          (record {
            worker_active = refl;
            worker_joinable = refl;
            cancel_requested = refl;
            operation = refl;
          })
          (λ e. cc) refl refl))
      Step.stop

threads_accounted_example :
    (stop_run.running ≡ one_if stop_run.device.worker_active)
    × (stop_run.running + stop_run.ended
        ≡ one_if stop_run.device.worker_joinable + stop_run.joining)
    × ((stop_run.device.worker_active ≡ false)
        ⊎ (stop_run.device.worker_joinable ≡ true)
        ⊎ (stop_run.device.cancel_requested ≡ true))
    × ((stop_run.device.operation ≡ WorkerOperation.idle) ↔ (stop_run.device.worker_active ≡ false))
threads_accounted_example = threads_accounted stop_run stop_run-Reach
