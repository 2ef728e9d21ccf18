-- ===== src/Sensors/Poll/Connected.antt =====
-- The dynamic sensors that sensors/hal/Sensors.cpp reports with the events of a poll.
use android_device_meizu_m.Prelude.{
  ◌≡◌, refl, ap, ◌∙◌, Bool, true, false, not, ◌&&◌, Option, some, none, List, [], ◌∷◌,
  if◌then◌else◌, ℤ, pos, same_ℤ, arith,
}
use android_device_meizu_m.Sensors.Poll.{
  Event, DynamicMeta, SensorInfo, dynamic_sensor_meta_type, add_sensor, dynamic_sensors,
}

-- The dynamic sensors that the events connect.
abbrev pub connections : List Event → List DynamicMeta
connections [] = []
connections (e ∷ es) =
    if same_ℤ e.type (pos 32) && e.dynamic_sensor_meta.connected
    then e.dynamic_sensor_meta ∷ connections es
    else connections es

abbrev pub has_handle : Option SensorInfo → ℤ → Bool
has_handle none handle = false
has_handle (some s) handle = same_ℤ s.handle handle

-- Each of them comes with a sensor of its handle.
abbrev pub all_described : List DynamicMeta → Bool
all_described [] = true
all_described (m ∷ ms) = has_handle m.sensor m.handle && all_described ms

abbrev pub described : Option SensorInfo → List SensorInfo → List SensorInfo
described none sensors = sensors
described (some s) sensors = s ∷ sensors

abbrev pub sensors_of : List DynamicMeta → List SensorInfo
sensors_of [] = []
sensors_of (m ∷ ms) = described m.sensor (sensors_of ms)

abbrev pub described_sensors : List DynamicMeta → Option (List SensorInfo)
described_sensors ms = if all_described ms then some (sensors_of ms) else none

add_sensor_lem :
    (o : Option SensorInfo) (handle : ℤ) (b : Bool) (rest : List SensorInfo)
    → add_sensor o handle (if b then some rest else none)
      ≡ (if has_handle o handle && b then some (described o rest) else none)
add_sensor_lem none handle b rest = refl
add_sensor_lem (some s) handle true rest = ground arith
add_sensor_lem (some s) handle false rest = ground arith

meets :
    (is_meta connected : Bool) (m : DynamicMeta) (ms : List DynamicMeta)
    (rest with_sensor : Option (List SensorInfo))
    → rest ≡ described_sensors ms
    → with_sensor ≡ described_sensors (m ∷ ms)
    → (if not is_meta then rest else if not connected then rest else with_sensor)
      ≡ described_sensors (if is_meta && connected then m ∷ ms else ms)
meets false connected m ms rest with_sensor h k = h
meets true false m ms rest with_sensor h k = h
meets true true m ms rest with_sensor h k = k

pub dynamic_sensors_lem :
    (out : List Event) → dynamic_sensors out ≡ described_sensors (connections out)
unfolding dynamic_sensors
dynamic_sensors_lem [] = refl
dynamic_sensors_lem (e ∷ es) =
    let m = e.dynamic_sensor_meta in
    let ms = connections es in
    let rest = dynamic_sensors es in
    let ih = dynamic_sensors_lem es in
    let added =
      ap (add_sensor m.sensor m.handle) ih
      ∙ add_sensor_lem m.sensor m.handle (all_described ms) (sensors_of ms) in
    meets (same_ℤ e.type dynamic_sensor_meta_type) m.connected m ms rest
      (add_sensor m.sensor m.handle rest) ih added
