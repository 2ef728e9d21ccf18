-- ===== src/Sensors.antt =====
-- sensors/hal: the sensors HAL over the vendor's legacy device. The answers of the device, of the clocks
-- and of the module loader are arguments.
pub mod Timestamps
pub mod Poll
pub mod Calls
use android_device_meizu_m.Prelude.{ℕ, Bool, ℤ, negsuc, is_zero, same_ℤ, if◌then◌else◌}

-- Result of the HIDL interface, as far as the HAL gives it.
pub data Result : Type 0 where
  ok permission_denied no_memory bad_value invalid_operation : Result

-- status_t: 0, a count, or one of the negative codes of utils/Errors.h.
abbrev pub no_memory_status : ℤ
no_memory_status = negsuc 11

abbrev pub permission_denied_status : ℤ
permission_denied_status = negsuc 0

abbrev pub bad_value_status : ℤ
bad_value_status = negsuc 21

-- ResultFromStatus
abbrev pub result_from_status : ℤ → Result
result_from_status err =
    if is_zero err
    then ok
    else if same_ℤ err permission_denied_status
    then permission_denied
    else if same_ℤ err no_memory_status
    then no_memory
    else if same_ℤ err bad_value_status
    then bad_value
    else invalid_operation
