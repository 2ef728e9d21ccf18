-- ===== src/Sensors/Calls.antt =====
-- sensors/hal/Sensors.cpp: the constructor and the calls that pass to the device.
use mathlib.Core.Option.{some-injective}
use android_device_meizu_m.Prelude.{
  ◌≡◌, ◌-◌, Bool-cases, refl, sym, ap, subst, ◌∙◌, Bool, true, false, not, ◌||◌, ◌&&◌, inl, inr,
  Option, none, some, List, map, if◌then◌else◌, if_case, ℤ, pos, negsuc, is_zero, is_zero-eq,
  is_neg, is_positive, ltb_ℤ, ◌≤ℤ◌, arith,
}
use android_device_meizu_m.Sensors.{Result, ok, bad_value, invalid_operation, result_from_status}

-- SENSORS_DEVICE_API_VERSION_1_3 and 1_4
abbrev pub version_1_3 : ℤ
version_1_3 = pos 0x01030001

abbrev pub version_1_4 : ℤ
version_1_4 = pos 0x01040001

-- UNKNOWN_ERROR and NO_INIT of utils/Errors.h
abbrev pub unknown_error : ℤ
unknown_error = negsuc (0x80000000 - 1)

-- sensors_poll_device_1_t and sensors_module_t: the version, and which optional functions are there.
pub record Device : Type 0 where
  pub version : ℤ
  pub has_inject_sensor_data : Bool
  pub has_set_operation_mode : Bool
  pub has_register_direct_channel : Bool
  pub has_config_direct_report : Bool

-- What the loader finds: whether there is a configuration of the multi HAL, hw_get_module's status,
-- whether there is a module, and sensors_open_1's status and device.
pub record Loading : Type 0 where
  pub use_multi_hal : Bool
  pub load_status : ℤ
  pub has_module : Bool
  pub open_status : ℤ
  pub device : Device

-- mInitCheck, and mSensorDevice where it is not nullptr.
pub record Sensors : Type 0 where
  pub init_check : ℤ
  pub device : Option Device

abbrev pub loaded_status : Loading → ℤ
loaded_status io =
    if not io.has_module
    then unknown_error
    else (if io.use_multi_hal then pos 0 else io.load_status)

abbrev pub failed_init : ℤ → Option Sensors
failed_init err = some (record { init_check = err; device = none })

-- The constructor; none where its CHECK_GE ends the process.
unfoldable pub construct : Loading → Option Sensors
construct io =
    if not (is_zero (loaded_status io))
    then failed_init (loaded_status io)
    else if not (is_zero io.open_status)
    then failed_init io.open_status
    else if ltb_ℤ io.device.version version_1_3
    then none
    else some (record { init_check = pos 0; device = some io.device })

abbrev fetched : Option Sensors → Option Sensors
fetched none = none
fetched (some s) = if is_zero s.init_check then some s else none

-- HIDL_FETCH_ISensors, which gives nullptr for a failed one.
unfoldable pub hidl_fetch : Loading → Option Sensors
unfolding construct
hidl_fetch io = fetched (construct io)

-- getHalDeviceVersion
abbrev pub get_hal_device_version : Option Device → ℤ
get_hal_device_version none = negsuc 0
get_hal_device_version (some d) = d.version

-- A call of the device: whether it is made, and the result by the status that it has.
abbrev pub Passed : Type 0
Passed = Bool × Result

abbrev pub pass : ℤ → Passed
pass err = (true, result_from_status err)

-- What activate, batch and flush ask of the device.
pub data DeviceCall : Type 0 where
  activate : ℤ → Bool → DeviceCall
  batch : (sensor_handle flags sampling_period_ns max_report_latency_ns : ℤ) → DeviceCall
  flush : ℤ → DeviceCall

-- Sensors::activate, with the status of the device's
unfoldable pub activate_sensor : ℤ → Bool → ℤ → DeviceCall × Result
activate_sensor sensor_handle enabled err = (activate sensor_handle enabled, result_from_status err)

-- Sensors::batch
unfoldable pub batch_sensor : ℤ → ℤ → ℤ → ℤ → DeviceCall × Result
batch_sensor sensor_handle sampling_period_ns max_report_latency_ns err =
    (batch sensor_handle (pos 0) sampling_period_ns max_report_latency_ns, result_from_status err)

-- Sensors::flush
unfoldable pub flush_sensor : ℤ → ℤ → DeviceCall × Result
flush_sensor sensor_handle err = (flush sensor_handle, result_from_status err)

-- getSensorsList, over the conversion of a sensor
unfoldable pub get_sensors_list {ℓ κ} : {A : Type ℓ} {B : Type κ} → (A → B) → List A → List B
get_sensors_list convert sensors = map convert sensors

-- setOperationMode
unfoldable pub set_operation_mode : Device → ℤ → Passed
set_operation_mode d err =
    if ltb_ℤ (get_hal_device_version (some d)) version_1_4 || not d.has_set_operation_mode
    then (false, invalid_operation)
    else pass err

-- injectSensorData
unfoldable pub inject_sensor_data : Device → ℤ → Passed
inject_sensor_data d err =
    if ltb_ℤ (get_hal_device_version (some d)) version_1_4 || not d.has_inject_sensor_data
    then (false, invalid_operation)
    else pass err

abbrev pub has_direct : Device → Bool
has_direct d = d.has_register_direct_channel && d.has_config_direct_report

-- A call of a direct channel: whether it is made, the result, and the handle or the token.
abbrev pub Direct : Type 0
Direct = Bool × Result × ℤ

-- registerDirectChannel; `convertible` is convertFromSharedMemInfo's result.
unfoldable pub register_direct_channel : Device → Bool → ℤ → Direct
register_direct_channel d convertible err =
    if not (has_direct d)
    then (false, invalid_operation, negsuc 0)
    else if not convertible
    then (false, bad_value, negsuc 0)
    else if is_neg err
    then (true, result_from_status err, negsuc 0)
    else (true, ok, err)

-- unregisterDirectChannel
unfoldable pub unregister_direct_channel : Device → Passed
unregister_direct_channel d = if not (has_direct d) then (false, invalid_operation) else (true, ok)

-- configDirectReport; the Boolean is whether the rate is STOP, and rate_level what
-- convertFromRateLevel gives.
unfoldable pub config_direct_report : Device → Bool → ℤ → ℤ → Direct
config_direct_report d stops rate_level err =
    if not (has_direct d)
    then (false, invalid_operation, negsuc 0)
    else if is_neg rate_level
    then (false, bad_value, negsuc 0)
    else if stops
    then (true, result_from_status err, negsuc 0)
    else (true, (if is_positive err then ok else result_from_status err), err)

-- What the fetched object has: a device that the loader opened without an error, of version 1.3 or
-- later.
abbrev pub IsOpened : Loading → Sensors → Type 0
IsOpened io s =
    (s.init_check ≡ pos 0)
    × (s.device ≡ some io.device)
    × (io.has_module ≡ true)
    × (io.open_status ≡ pos 0)
    × (version_1_3 ≤ℤ io.device.version)

not_less : (a b : ℤ) → ltb_ℤ a b ≡ false → b ≤ℤ a
not_less a b h = ground arith

failed_unfetched :
    (io : Loading) (err : ℤ) (s : Sensors)
    → not (is_zero err) ≡ true
    → fetched (failed_init err) ≡ some s
    → IsOpened io s
failed_unfetched io err s t =
    let failed : Sensors = record { init_check = err; device = none } in
    if_case (λ (o : Option Sensors). o ≡ some s → IsOpened io s) (is_zero err)
      (λ zero. absurd (ground arith)) (λ _ h. cc)

zero_of : (err : ℤ) → not (is_zero err) ≡ false → err ≡ pos 0
zero_of err h = is_zero-eq err (ground arith)

module_found : (io : Loading) → loaded_status io ≡ pos 0 → io.has_module ≡ true
module_found io h = elim (Bool-cases io.has_module) [
  | inl found ↦ found
  | inr missing ↦ absurd (
      let e =
        sym (
          ap
            (λ b.
              if not b then unknown_error else (if io.use_multi_hal then pos 0 else io.load_status))
            missing)
        ∙ h in
      cc)
]

-- The service is given an object only for a module that is there and a device of version 1.3 or later
-- that opened without an error; the object then has this device.
pub hidl_fetch-IsOpened : (io : Loading) (s : Sensors) → hidl_fetch io ≡ some s → IsOpened io s
unfolding hidl_fetch construct
hidl_fetch-IsOpened io s =
    let P : Option Sensors → Type 0 = λ o. fetched o ≡ some s → IsOpened io s in
    if_case P (not (is_zero (loaded_status io)))
      (λ t h. failed_unfetched io (loaded_status io) s t h)
      (λ loaded.
        if_case P (not (is_zero io.open_status)) (λ t h. failed_unfetched io io.open_status s t h)
          (λ opened.
            if_case P (ltb_ℤ io.device.version version_1_3) (λ _ h. cc)
              (λ new h. subst (IsOpened io) (some-injective _ _ h) (
                refl,
                refl,
                module_found io (zero_of (loaded_status io) loaded),
                zero_of io.open_status opened,
                not_less io.device.version version_1_3 new,
              ))))
