-- ===== src/Tests/SensorsHal.antt =====
-- sensors/hal with a light sensor, an accelerometer and a step of the clocks.
use android_device_meizu_m.Sensors.Calls.{
  Device, Loading, IsOpened, hidl_fetch, construct, hidl_fetch-IsOpened,
}
use android_device_meizu_m.Sensors.Timestamps.Sampled.{IsReading, sample_clocks-IsReading}
use android_device_meizu_m.Prelude.{
  ◌≡◌, ◌≤◌, ◌<◌, refl, true, false, none, some, [], ◌∷◌, length, ℤ, pos, ◌+ℤ◌, ◌-ℤ◌, arith, ◌≤ℤ◌, ℕ,
}
use android_device_meizu_m.Sensors.{ok}
use android_device_meizu_m.Sensors.Timestamps.{
  Clocks, normalize_timestamp, normalize_int64, fits_int64, ClockIo, Timespec, sample_clocks,
}
use android_device_meizu_m.Sensors.Timestamps.Normal.{
  IsNormal, normalize_timestamp-IsNormal, normalize_timestamp_fits, normalize_timestamp_keeps_order,
}
use android_device_meizu_m.Sensors.Poll.{
  DynamicMeta, Event, Polls, Answer, compact, poll, poll_loop, dynamic_sensors, buffer_size,
}
use android_device_meizu_m.Sensors.Poll.Answers.{answer_to, first_kept, poll-first_kept}
use android_device_meizu_m.Sensors.Poll.Genuine.{AllOf, GenuineIn, poll-Passes}

-- The wall clock is at 1000 s when the boot clock is at 20 s, and 1 ms later.
abbrev before : Clocks
before = record { boot = pos 20000000000; real = pos 1000000000000; valid = true }

abbrev after : Clocks
after = record { boot = pos 20001000000; real = pos 1000001000000; valid = true }

normal : normalize_timestamp (pos 1000000500000) before after ≡ some (pos 20000500000)
unfolding normalize_timestamp ◌+ℤ◌ ◌-ℤ◌
normal = refl

normalize_timestamp-IsNormal_example : IsNormal (pos 1000000500000) before after (pos 20000500000)
normalize_timestamp-IsNormal_example =
    normalize_timestamp-IsNormal (pos 1000000500000) before after (pos 20000500000) normal

normalize_timestamp_fits_example :
    normalize_int64 (pos 1000000500000) before after
    ≡ some (normalize_timestamp (pos 1000000500000) before after)
normalize_timestamp_fits_example =
    normalize_timestamp_fits (pos 1000000500000) before after (omega arith) (omega arith)
      (omega arith) (omega arith)

-- The largest timestamp is refused before it is converted.
abbrev latest : ℤ
latest = pos 9223372036854775807

normalize_timestamp_fits_test : normalize_int64 latest before after ≡ some none
unfolding normalize_int64 fits_int64 ◌-ℤ◌ ◌+ℤ◌
normalize_timestamp_fits_test = refl

abbrev no_meta : DynamicMeta
no_meta = record { connected = false; handle = pos 0; sensor = none }

abbrev light : ℤ → Event
light t = record {
  sensor = pos 4;
  type = pos 5;
  timestamp = t;
  dynamic_sensor_meta = no_meta;
  payload = 9;
}

abbrev motion : Event
motion = record {
  sensor = pos 1;
  type = pos 1;
  timestamp = pos 20000400000;
  dynamic_sensor_meta = no_meta;
  payload = 3;
}

-- A poll of which nothing is kept, and one of which two of three events are.
abbrev script : Polls
script = Polls.polled before after 1 (light (pos 5) ∷ motion ∷ []) (
    Polls.polled before after 3 (light (pos 7) ∷ motion ∷ light (pos 1000000500000) ∷ [])
      (Polls.failed 21))

poll-first_kept_example : poll (pos 3) script ≡ answer_to (first_kept (buffer_size 3) script)
poll-first_kept_example = poll-first_kept 3 script (omega arith) (omega arith)

abbrev passed : Answer
passed = record {
  result = ok;
  out = motion ∷ light (pos 20000500000) ∷ [];
  dynamic_sensors_added = [];
}

poll_run : poll (pos 3) script ≡ some passed
unfolding poll poll_loop compact dynamic_sensors normalize_timestamp ◌+ℤ◌ ◌-ℤ◌
poll_run = refl

poll-Passes_example :
    AllOf (GenuineIn script) passed.out × (length passed.out ≤ 3) × (length passed.out ≤ 128)
poll-Passes_example = poll-Passes 3 script passed (omega arith) (omega arith) poll_run

normalize_timestamp_keeps_order_test :
    (pos 20000500000 +ℤ pos 1000000500000 ≡ pos 20000500000 +ℤ pos 1000000500000)
    × (pos 1000000500000 ≤ℤ pos 1000000500000 → pos 20000500000 ≤ℤ pos 20000500000)
normalize_timestamp_keeps_order_test =
    normalize_timestamp_keeps_order (pos 1000000500000) (pos 1000000500000) (pos 20000500000)
      (pos 20000500000) before after normal normal

-- A turn that takes too long, and one that does not.
abbrev readings : ℕ → ClockIo
readings n = elim n [
  | ℕ.zero ↦ record { b0 = some t0; r = some t0; b1 = some t0 }
  | ℕ.suc k ↦ record { b0 = some t0; r = some t0; b1 = some t1 }
]
  where
    t0 : Timespec
    t0 = record { tv_sec = 20; tv_nsec = 5 }

    t1 : Timespec
    t1 = record { tv_sec = 21; tv_nsec = 5 }

sample_clocks-IsReading_test : (i : ℕ) × (i < 3) × IsReading (readings i) (sample_clocks 3 readings)
unfolding sample_clocks
sample_clocks-IsReading_test = sample_clocks-IsReading 3 readings refl

abbrev device : Device
device = record {
  version = pos 0x01040001;
  has_inject_sensor_data = false;
  has_set_operation_mode = true;
  has_register_direct_channel = false;
  has_config_direct_report = false;
}

abbrev loading : Loading
loading = record {
  use_multi_hal = false;
  load_status = pos 0;
  has_module = true;
  open_status = pos 0;
  device = device;
}

hidl_fetch-IsOpened_test : IsOpened loading (record { init_check = pos 0; device = some device })
unfolding hidl_fetch construct
hidl_fetch-IsOpened_test =
    hidl_fetch-IsOpened loading (record { init_check = pos 0; device = some device }) refl
