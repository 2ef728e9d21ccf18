-- ===== src/Tests/Devices.antt =====
-- Concrete devices and answers of fingerprint/FingerprintHAL.c for the examples.
use android_device_meizu_m.Prelude.{
  true, false, List, [], ◌∷◌, Option, none, some, pos, codes, refl, arith,
}
use android_device_meizu_m.Posix.Exact.{Reads, Writes}
use android_device_meizu_m.Fingerprint.Types.{
  WorkerOperation, Slots, Device, AuthToken, hw_auth_token_version, no_hmac, Log,
}
use android_device_meizu_m.Fingerprint.Metadata.{SaveIo}
use android_device_meizu_m.Fingerprint.Templates.{Discovered, RotateIo}
use android_device_meizu_m.Fingerprint.Templates.Gallery.{Print, Gallery}

-- Two prints, of the fingers 1 and 3.
abbrev pub two_prints : List Print
two_prints = (101, 1) ∷ (102, 3) ∷ []

abbrev pub two_slots : Slots
two_slots = record {
  templates = some 101 ∷ some 102 ∷ none ∷ none ∷ none ∷ none ∷ [];
  template_ids = 1 ∷ 3 ∷ 0 ∷ 0 ∷ 0 ∷ [];
  template_count = 2;
}

abbrev pub resting : Device
resting = record {
  notify = some 7;
  worker_active = false;
  worker_joinable = false;
  cancel_requested = false;
  operation = WorkerOperation.idle;
  active_gid = 10;
  enroll_timeout_sec = 60;
  challenge = 0x1234;
  operation_id = 99;
  secure_user_id = 5;
  authenticator_id = 77;
  store_path = codes "/data";
  slots = two_slots;
}

abbrev pub enrolling_device : Device
enrolling_device = record resting {
  worker_active = true;
  worker_joinable = true;
  operation = WorkerOperation.enroll;
}

abbrev pub authenticating : Device
authenticating = record resting {
  worker_active = true;
  worker_joinable = true;
  operation = WorkerOperation.authenticate;
}

pub two_prints-Gallery : Gallery two_slots two_prints
two_prints-Gallery = record {
  templates = refl;
  template_ids = refl;
  template_count = refl;
  bounded = omega arith;
}

-- A save of which each call succeeds, with the bytes in two parts and an interruption.
abbrev pub good_save : SaveIo
good_save = record {
  opened = none;
  writes = Writes.put 9 (Writes.interrupted (Writes.put 13 Writes.stalled));
  synced = none;
  closed = none;
  renamed = none;
}

abbrev pub good_rotation : RotateIo
good_rotation = record {
  random = record { opened = none; reads = Reads.got 1 (0 ∷ 0 ∷ 0 ∷ 0 ∷ 0 ∷ 0 ∷ 0 ∷ []) Reads.eof };
  save = good_save;
}

-- A finger out of range, a print that cannot be read, and two in order.
abbrev pub four_found : List Discovered
four_found =
    record { finger = 11; status = pos 0; print = some 200; supported = true }
    ∷ record { finger = 1; status = pos 0; print = some 201; supported = true }
    ∷ record { finger = 2; status = pos 5; print = some 202; supported = true }
    ∷ record { finger = 4; status = pos 0; print = some 203; supported = true }
    ∷ []

-- A token of a password for the challenge of `resting`.
abbrev pub token : AuthToken
token = record {
  version = hw_auth_token_version;
  challenge = 0x1234;
  user_id = 5;
  authenticator_id = 0;
  authenticator_type = 0x01000000;
  timestamp = 0;
  hmac = no_hmac;
}

-- The outcome of a worker that ends.
abbrev pub outcome : Option (Device × Log) → Device × Log
outcome none = (resting, [])
outcome (some r) = r
