-- ===== src/GpsVendor.antt =====
-- gps/vendor/GpsVendor.cpp: the sensor queue and the sensor manager that gpsd uses. The remote service
-- and the eventfd are not code of this repository, and their answers are arguments. A lock is held for
-- a whole call, so a call is one step.
pub mod Fifo
pub mod Signal
pub mod Rate
pub mod Manager
use Prim.Native.Nat.{min}
use android_device_meizu_m.Prelude.{
  ℕ, zero, suc, ◌+◌, ◌-◌, ◌*◌, ◌/◌, ◌^◌, Bool, true, false, not, ◌&&◌, ◌||◌, Option, none, some,
  List, [], ◌∷◌, ◌++◌, ltb, leb, ◌==◌, if◌then◌else◌, length, take, drop, ℤ, pos, neg, negsuc,
}

-- fs::Result, and a transaction that is not isOk.
pub data RemoteResult : Type 0 where
  ok not_exist no_memory no_init permission_denied bad_value invalid_operation : RemoteResult
  other : ℕ → RemoteResult

pub data Reply : Type 0 where
  dead : Reply
  replied : RemoteResult → Reply

-- The codes of utils/Errors.h.
pub data Status : Type 0 where
  ok dead_object name_not_found no_memory no_init permission_denied bad_value : Status
  invalid_operation unknown_error : Status

abbrev pub status : Reply → Status
status dead = dead_object
status (replied RemoteResult.ok) = Status.ok
status (replied not_exist) = name_not_found
status (replied RemoteResult.no_memory) = Status.no_memory
status (replied RemoteResult.no_init) = Status.no_init
status (replied RemoteResult.permission_denied) = Status.permission_denied
status (replied RemoteResult.bad_value) = Status.bad_value
status (replied RemoteResult.invalid_operation) = Status.invalid_operation
status (replied (other n)) = unknown_error

abbrev pub queue_capacity : ℕ
queue_capacity = 1024

-- read(2) or write(2) on the eventfd, after EINTR any number of times: done, or an errno.
pub data EventIo : Type 0 where
  interrupted : EventIo → EventIo
  done : EventIo
  failed : ℕ → EventIo

abbrev pub succeeds : EventIo → Bool
succeeds (interrupted io) = succeeds io
succeeds done = true
succeeds (failed e) = false

-- class SensorEventQueue: mEvents, oldest first, and the count that the eventfd holds.
pub record SensorEventQueue {ℓ} (A : Type ℓ) : Type ℓ where
  pub events : List A
  pub signals : ℕ

-- What read returns: BAD_VALUE, -EAGAIN, or the events that it stores, which it counts.
pub data ReadResult {ℓ} (A : Type ℓ) : Type ℓ where
  bad_value : ReadResult A
  again : ReadResult A
  stored : List A → ReadResult A

abbrev pub is_empty {ℓ} : {A : Type ℓ} → List A → Bool
is_empty [] = true
is_empty (x ∷ xs) = false

module _ {ℓ} {A : Type ℓ} where
  -- pop_front, where the deque is full
  abbrev pub make_room : List A → List A
  make_room events = if length events == queue_capacity then drop 1 events else events

  -- SensorEventQueue::enqueue, of an event after its conversion
  unfoldable pub enqueue : A → EventIo → SensorEventQueue A → SensorEventQueue A
  enqueue event io q =
      let events = make_room q.events in
      let signals = if succeeds io then q.signals + 1 else q.signals in
      record {
        events = events ++ event ∷ [];
        signals = if is_empty events then signals else q.signals;
      }

  -- Callback::onEvent, whose weak pointer may have lost the queue
  abbrev pub on_event : Bool → A → EventIo → SensorEventQueue A → SensorEventQueue A
  on_event alive event io q = if alive then enqueue event io q else q

  abbrev pub result_of : List A → ReadResult A
  result_of [] = again
  result_of (x ∷ xs) = stored (x ∷ xs)

  -- SensorEventQueue::read; the Boolean is whether `events` is not nullptr.
  unfoldable pub read : Bool → ℕ → EventIo → SensorEventQueue A → ReadResult A × SensorEventQueue A
  read has_buffer count io q =
      let n = min count (length q.events) in
      let rest = drop n q.events in
      let drained = if succeeds io then 0 else q.signals in
      if not has_buffer || count == 0 then (ReadResult.bad_value, q) else (
        result_of (take n q.events),
        record { events = rest; signals = if is_empty rest then drained else q.signals },
      )

-- The request that reaches the remote queue: the handle, the period in microseconds and the latency.
abbrev pub Request : Type 0
Request = ℤ × ℤ × ℕ

-- enableSensor: the sensor's handle, or none for nullptr, and whether there is a remote queue.
unfoldable pub enable_sensor : Option ℤ → Bool → Reply → Status × Option Request
enable_sensor none remote reply = (Status.bad_value, none)
enable_sensor (some handle) false reply = (Status.bad_value, none)
enable_sensor (some handle) true reply = (status reply, some (handle, pos 200000, 0))

unfoldable pub disable_sensor : Option ℤ → Bool → Reply → Status × Option ℤ
disable_sensor none remote reply = (Status.bad_value, none)
disable_sensor (some handle) false reply = (Status.bad_value, none)
disable_sensor (some handle) true reply = (status reply, some handle)

abbrev pub int32_max : ℕ
int32_max = 2 ^ 31 - 1

-- setEventRate, for an int64_t number of nanoseconds
unfoldable pub set_event_rate : Option ℤ → Bool → ℤ → Reply → Status × Option Request
set_event_rate none remote ns reply = (Status.bad_value, none)
set_event_rate (some handle) false ns reply = (Status.bad_value, none)
set_event_rate (some handle) true (negsuc n) reply = (Status.bad_value, none)
set_event_rate (some handle) true (pos n) reply =
    if ltb int32_max (n / 1000)
    then (Status.bad_value, none)
    else (status reply, some (handle, pos (n / 1000), 0))
