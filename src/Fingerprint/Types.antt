-- ===== src/Fingerprint/Types.antt =====
-- The data of fingerprint/FingerprintHAL.c: the device, the messages that it sends, and the calls
-- that it makes. Values and constants of the Android headers keep their names; a print or a callback
-- is a pointer, of which only the identity matters.
use android_device_meizu_m.Prelude.{ℕ, Bool, List, Option, replicate}

-- enum worker_operation
pub data WorkerOperation : Type 0 where
  idle enroll authenticate : WorkerOperation

abbrev pub max_templates : ℕ
max_templates = 5

-- struct fingerprint_metadata
pub record Metadata : Type 0 where
  pub magic : ℕ  -- uint32_t
  pub version : ℕ  -- uint32_t
  pub secure_user_id : ℕ  -- uint64_t
  pub authenticator_id : ℕ  -- uint64_t

abbrev pub metadata_magic : ℕ
metadata_magic = 0x4d383646

abbrev pub metadata_version : ℕ
metadata_version = 1

-- The last three fields of struct m86_fingerprint_device: the arrays with all their places.
pub record Slots : Type 0 where
  pub templates : List (Option ℕ)
  pub template_ids : List ℕ
  pub template_count : ℕ

-- The fields of struct m86_fingerprint_device that change after fingerprint_open, less the mutex and
-- the thread handle and the sensor.
pub record Device : Type 0 where
  pub notify : Option ℕ
  pub worker_active : Bool
  pub worker_joinable : Bool
  pub cancel_requested : Bool
  pub operation : WorkerOperation
  pub active_gid : ℕ  -- uint32_t
  pub enroll_timeout_sec : ℕ  -- uint32_t
  pub challenge : ℕ  -- uint64_t
  pub operation_id : ℕ  -- uint64_t
  pub secure_user_id : ℕ  -- uint64_t
  pub authenticator_id : ℕ  -- uint64_t
  pub store_path : List ℕ  -- the characters before the NUL
  pub slots : Slots
  pub open slots use *

-- hw_auth_token_t of hardware/hw_auth_token.h
pub record AuthToken : Type 0 where
  pub version : ℕ
  pub challenge : ℕ
  pub user_id : ℕ
  pub authenticator_id : ℕ
  pub authenticator_type : ℕ  -- uint32_t, big endian
  pub timestamp : ℕ  -- uint64_t, big endian
  pub hmac : List ℕ

-- HW_AUTH_TOKEN_VERSION, HW_AUTH_PASSWORD, HW_AUTH_FINGERPRINT and the size of the HMAC, which the
-- Android header gives
abbrev pub hw_auth_token_version : ℕ
hw_auth_token_version = 0

abbrev pub hw_auth_password : ℕ
hw_auth_password = 1

abbrev pub hw_auth_fingerprint : ℕ
hw_auth_fingerprint = 2

abbrev pub no_hmac : List ℕ
no_hmac = replicate 32 0

-- `= {0}`
abbrev pub no_token : AuthToken
no_token = record {
  version = 0;
  challenge = 0;
  user_id = 0;
  authenticator_id = 0;
  authenticator_type = 0;
  timestamp = 0;
  hmac = no_hmac;
}

-- The members of fingerprint_error_t and of fingerprint_acquired_info_t that the HAL uses.
pub data FingerprintError : Type 0 where
  hw_unavailable unable_to_process timeout no_space canceled : FingerprintError

pub data AcquiredInfo : Type 0 where
  good insufficient : AcquiredInfo

-- fingerprint_msg_t: the type, and the member of the union that goes with it.
pub data Message : Type 0 where
  error : FingerprintError → Message
  acquired : AcquiredInfo → Message
  enrolling : (gid fid samples_remaining : ℕ) → Message
  authenticated : (gid fid : ℕ) → AuthToken → Message
  enumerating : (gid fid remaining_templates : ℕ) → Message
  removed : (gid fid remaining_templates : ℕ) → Message

-- A file call of the metadata store, with what it is given.
pub data FileCall : Type 0 where
  open_temporary : FileCall
  written : List ℕ → FileCall
  fsync close rename unlink : FileCall

-- What an operation does besides changing the device, in order.
pub data Effect : Type 0 where
  lock unlock : Effect  -- of device->lock
  join : Effect  -- pthread_join of the worker, which waits for its end
  create : WorkerOperation → Effect  -- pthread_create
  callback : ℕ → Message → Effect
  free_print : ℕ → Effect
  delete_print : ℕ → Effect
  save_print : ℕ → ℕ → Effect
  file : FileCall → Effect
  dev_mode : ℕ → Effect
  enroll_reset : Effect
  lib_init devs_free allocate dev_open mutex_init : Effect
  dev_close lib_exit mutex_destroy free_device : Effect

abbrev pub Log : Type 0
Log = List Effect
