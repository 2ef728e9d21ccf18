-- ===== src/Sensors/Poll.antt =====
-- Sensors::poll of sensors/hal/Sensors.cpp. The lock admits one caller, whom this is about; a second
-- one ends the process.
pub mod Filter
pub mod Connected
pub mod Answers
pub mod Genuine
use Prim.Native.Nat.{min}
use android_device_meizu_m.Prelude.{
  ℕ, zero, suc, ◌+◌, ◌-◌, Bool, true, false, not, Option, none, some, List, [], ◌∷◌, ltb, leb, ◌==◌,
  if◌then◌else◌, length, take, set, get_or, ℤ, pos, negsuc, same_ℤ,
}
use android_device_meizu_m.Sensors.{Result, result_from_status, bad_value_status}
use android_device_meizu_m.Sensors.Timestamps.{Clocks, is_legacy_input_sensor, normalize_timestamp}

-- sensor_t, as far as the HAL reads it itself.
pub record SensorInfo : Type 0 where
  pub handle : ℤ
  pub info : ℕ

-- dynamic_sensor_meta_event_t
pub record DynamicMeta : Type 0 where
  pub connected : Bool
  pub handle : ℤ
  pub sensor : Option SensorInfo

-- sensors_event_t: the fields that the HAL reads, and the rest as one number.
pub record Event : Type 0 where
  pub sensor : ℤ
  pub type : ℤ
  pub timestamp : ℤ
  pub dynamic_sensor_meta : DynamicMeta
  pub payload : ℕ

abbrev pub no_event : Event
no_event = record {
  sensor = pos 0;
  type = pos 0;
  timestamp = pos 0;
  dynamic_sensor_meta = record { connected = false; handle = pos 0; sensor = none };
  payload = 0;
}

-- kPollMaxBufferSize
abbrev pub poll_max_buffer_size : ℕ
poll_max_buffer_size = 128

-- SENSOR_TYPE_DYNAMIC_SENSOR_META
abbrev pub dynamic_sensor_meta_type : ℤ
dynamic_sensor_meta_type = pos 32

abbrev pub with_timestamp : Event → Option ℤ → Option Event
with_timestamp event none = none
with_timestamp event (some t) = some (record event { timestamp = t })

-- What the loop makes of an event: none where it drops it.
abbrev pub keep : Clocks → Clocks → Event → Option Event
keep before after event =
    if is_legacy_input_sensor event.sensor event.type
    then with_timestamp event (normalize_timestamp event.timestamp before after)
    else some event

module _ (before after : Clocks) where
  -- The loop over the events that the driver gave, in their buffer: `left` turns from index i on.
  unfoldable pub compact : ℕ → ℕ → ℕ → List Event → ℕ × List Event
  compact zero i kept buffer = (kept, buffer)
  compact (suc left) i kept buffer = elim (keep before after (get_or buffer i no_event)) [
    | none ↦ compact left (i + 1) kept buffer
    | some event ↦ compact left (i + 1) (kept + 1) (set (set buffer i event) kept event)
  ]

-- The polls of the device, in order: an error, or a count with the buffer, and the clocks on both
-- sides. A script ends in an error, which ends every loop.
pub data Polls : Type 0 where
  failed : ℕ → Polls
  polled : Clocks → Clocks → ℕ → List Event → Polls → Polls

-- The do loop, from a poll on: `err` at its end, and the buffer.
unfoldable pub poll_loop : ℕ → Polls → ℤ × List Event
unfolding compact
poll_loop buffer_size (failed e) = (negsuc e, [])
poll_loop buffer_size (polled before after count buffer script) =
    let (kept, buffer') = compact before after count 0 0 buffer in
    let rest = poll_loop buffer_size script in
    if ltb buffer_size count
    then (bad_value_status, buffer)
    else if kept == 0
    then rest
    else (pos kept, buffer')

-- The sensors of the dynamic events that say connected; none where a CHECK ends the process.
abbrev pub add_sensor : Option SensorInfo → ℤ → Option (List SensorInfo) → Option (List SensorInfo)
add_sensor none handle rest = none
add_sensor (some s) handle none = none
add_sensor (some s) handle (some rest) = if same_ℤ s.handle handle then some (s ∷ rest) else none

unfoldable pub dynamic_sensors : List Event → Option (List SensorInfo)
dynamic_sensors [] = some []
dynamic_sensors (e ∷ es) =
    let rest = dynamic_sensors es in
    if not (same_ℤ e.type dynamic_sensor_meta_type)
    then rest
    else if not e.dynamic_sensor_meta.connected
    then rest
    else add_sensor e.dynamic_sensor_meta.sensor e.dynamic_sensor_meta.handle rest

-- What the callback of poll is given.
pub record Answer : Type 0 where
  pub result : Result
  pub out : List Event
  pub dynamic_sensors_added : List SensorInfo

abbrev pub refusal : ℤ → Option Answer
refusal err =
    some (record { result = result_from_status err; out = []; dynamic_sensors_added = [] })

abbrev pub accept : List Event → Option (List SensorInfo) → Option Answer
accept out none = none
accept out (some added) =
    some (record { result = Result.ok; out = out; dynamic_sensors_added = added })

-- The part behind the lock.
abbrev pub answer : ℤ → List Event → Option Answer
answer (negsuc n) buffer = refusal (negsuc n)
answer (pos count) buffer = accept (take count buffer) (dynamic_sensors (take count buffer))

abbrev pub buffer_size : ℕ → ℕ
buffer_size max_count = min max_count poll_max_buffer_size

-- poll; none where a CHECK ends the process.
unfoldable pub poll : ℤ → Polls → Option Answer
unfolding poll_loop dynamic_sensors
poll (negsuc n) script = answer bad_value_status []
poll (pos max_count) script =
    let (err, buffer) = poll_loop (buffer_size max_count) script in
    if max_count == 0 then answer bad_value_status [] else answer err buffer
