-- ===== src/Tests/Gps.antt =====
-- gps/vendor/GpsVendor.cpp with a full queue and a manager that is refused at first.
use android_device_meizu_m.Prelude.{
  ℕ, ◌≡◌, ◌<◌, ◌*◌, ◌^◌, refl, true, false, none, some, List, [], ◌∷◌, replicate, length-replicate,
  pos, ◌⊎◌, arith,
}
use android_device_meizu_m.GpsVendor.{
  SensorEventQueue, interrupted, done, replied, RemoteResult, Status, status, set_event_rate,
}
use android_device_meizu_m.GpsVendor.Fifo.{Op, put, get, run, latest_run, run_refines}
use android_device_meizu_m.GpsVendor.Signal.{IsSignalled, steps, steps-IsSignalled}
use android_device_meizu_m.GpsVendor.Rate.{IsRate, set_event_rate_fits}
use android_device_meizu_m.GpsVendor.Manager.{
  Sensor, SensorManager, ListIo, Call, list, queue, unconnected, WasListed, run_all_lists,
}
use android_device_meizu_m.GpsVendor.Manager

abbrev full : SensorEventQueue ℕ
full = record { events = replicate 1024 3; signals = 1 }

-- An event more, and a reader that takes two and asks with no buffer.
abbrev ops : List (Op ℕ)
ops = put 4 done ∷ get true 2 done ∷ get false 1 done ∷ get true 2000 (interrupted done) ∷ []

run_refines_example : run ops full ≡ latest_run ops full.events
run_refines_example = run_refines ops full (omega (arith, length-replicate {A = ℕ} 1024 3))

abbrev empty : SensorEventQueue ℕ
empty = record { events = []; signals = 0 }

steps-IsSignalled_example : IsSignalled (steps (put 4 (interrupted done) ∷ put 5 done ∷ []) empty)
steps-IsSignalled_example =
    steps-IsSignalled (put 4 (interrupted done) ∷ put 5 done ∷ []) empty (refl, (refl, tt)) refl

set_event_rate_fits_test :
    let (answer, request) =
      set_event_rate (some (pos 3)) true (pos 20000999) (replied RemoteResult.ok) in
    IsRate (pos 3) (pos 20000999) request
    × (((request ≡ none) × (answer ≡ Status.bad_value))
        ⊎ ((n : ℕ) × (pos 20000999 ≡ pos n)
            × (n < 2 ^ 31 * 1000)
            × (answer ≡ status (replied RemoteResult.ok))))
set_event_rate_fits_test = set_event_rate_fits (pos 3) (pos 20000999) (replied RemoteResult.ok)

abbrev accelerometer : Sensor
accelerometer = record { handle = pos 1; info = 5 }

-- The service is not there, then the transaction dies, then it answers.
abbrev attempts : List Call
attempts =
    list true (record { has_service = false; listing = none; is_ok = false })
    ∷ queue (pos 0) (record { has_service = true; listing = none; is_ok = false })
        (record { has_fd = true; is_ok = true; has_remote = true })
    ∷ list true (record { has_service = true; listing = some (accelerometer ∷ []); is_ok = true })
    ∷ []

run_all_lists_example :
    let m = Manager.run_all attempts unconnected in
    (m ≡ unconnected) ⊎ ((m.connected ≡ true) × WasListed attempts m.sensors)
run_all_lists_example = run_all_lists attempts ((λ _. refl), ((λ _. refl), ((λ e. cc), tt)))
