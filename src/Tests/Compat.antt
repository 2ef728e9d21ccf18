-- ===== src/Tests/Compat.antt =====
-- fingerprint/FingerprintCompat.c at concrete answers of Flyme's HAL.
use android_device_meizu_m.Prelude.{
  ◌≡◌, ◌↔◌, refl, true, false, List, [], ◌∷◌, Option, none, some, pos, is_zero, is_some,
  if◌then◌else◌, arith, ◌==◌, take, ltb,
}
use android_device_meizu_m.Fingerprint.Types.{Message, acquired, good, enumerating}
use android_device_meizu_m.Compat.{
  Compat, send, FlymeDevice, FingerIds, has_symbols, fingerprint_compat_cancel,
  fingerprint_compat_enumerate,
}
use android_device_meizu_m.Compat.Cancel.{Reports, fingerprint_compat_cancel-Reports}
use android_device_meizu_m.Compat.Enumerate.{
  CanEnumerate, announced, fingerprint_compat_enumerate_accepts, fingerprint_compat_enumerate_sends,
  fingerprint_compat_enumerate_silent,
}
use android_device_meizu_m.Compat.Open.{
  flyme, Memory, Callback, aosp_offset, remap, OpenIo, fingerprint_compat_open,
}
use android_device_meizu_m.Compat.Open.Remapped.{served, fingerprint_compat_open_serves}
use android_device_meizu_m.Compat.Open.Closed.{left_open, fingerprint_compat_open_closes}

abbrev ready : Compat
ready = record {
  framework_notify = some 7;
  flyme_set_notify = true;
  flyme_cancel = true;
  flyme_get_finger_ids = true;
  flyme_goto_idle = true;
  flyme_resume = true;
  cancel_in_progress = false;
  cancel_notified = false;
}

abbrev quiet_cancel : List (Option Message)
quiet_cancel = some (acquired good) ∷ none ∷ []

fingerprint_compat_cancel-Reports_example :
    Reports ready (pos 0) quiet_cancel (fingerprint_compat_cancel ready (pos 0) quiet_cancel)
fingerprint_compat_cancel-Reports_example =
    fingerprint_compat_cancel-Reports ready (pos 0) quiet_cancel refl

abbrev group_ten : FlymeDevice
group_ten = record { bio = true; gid = 10 }

abbrev three_ids : FingerIds
three_ids = record { status = pos 0; count = 3; ids = 11 ∷ 12 ∷ 13 ∷ 0 ∷ 0 ∷ [] }

abbrev same_ids : FingerIds
same_ids = record three_ids { ids = 11 ∷ 12 ∷ 11 ∷ 0 ∷ 0 ∷ [] }

fingerprint_compat_enumerate_accepts_example :
    ((fingerprint_compat_enumerate ready (some group_ten) three_ids).0 ≡ pos 0)
    ↔ CanEnumerate ready group_ten three_ids
fingerprint_compat_enumerate_accepts_example =
    fingerprint_compat_enumerate_accepts ready group_ten three_ids

fingerprint_compat_enumerate_sends_test :
    (fingerprint_compat_enumerate ready (some group_ten) three_ids).1 ≡ (
      if three_ids.count == 0
      then send ready.framework_notify (some (enumerating 0 0 0))
      else announced ready.framework_notify group_ten.gid (take three_ids.count three_ids.ids))
unfolding fingerprint_compat_enumerate
fingerprint_compat_enumerate_sends_test =
    fingerprint_compat_enumerate_sends ready group_ten three_ids refl (omega arith)

fingerprint_compat_enumerate_silent_test :
    (fingerprint_compat_enumerate ready (some group_ten) same_ids).1 ≡ []
unfolding fingerprint_compat_enumerate
fingerprint_compat_enumerate_silent_test =
    fingerprint_compat_enumerate_silent ready group_ten same_ids refl

-- Flyme's table: at each offset a function of its own.
abbrev table : Memory
table = λ a. if ltb a 0x110 then some (flyme a) else none

abbrev whole : OpenIo
whole = record {
  loaded = true;
  module_symbol = true;
  open_method = true;
  status = pos 0;
  device = some table;
  get_finger_ids = true;
  goto_idle = true;
  resume = true;
}

fingerprint_compat_open_serves_example :
    (memory : Memory) × (whole.device ≡ some memory)
    × ((callback : Callback) → remap table (aosp_offset callback) ≡ served memory callback)
    × (has_symbols (fingerprint_compat_open ready true whole).0 ≡ true)
    × ((fingerprint_compat_open ready true whole).0.flyme_cancel ≡ true)
    × ((fingerprint_compat_open ready true whole).0.flyme_set_notify ≡ true)
unfolding fingerprint_compat_open remap
fingerprint_compat_open_serves_example =
    fingerprint_compat_open_serves ready true whole (remap table) refl

abbrev lacking : OpenIo
lacking = record whole { resume = false }

fingerprint_compat_open_closes_test :
    (is_zero (fingerprint_compat_open ready true lacking).2
      ≡ is_some (fingerprint_compat_open ready true lacking).1)
    × (left_open (fingerprint_compat_open ready true lacking).3 (false, false)
        ≡ some (
          is_some (fingerprint_compat_open ready true lacking).1,
          is_some (fingerprint_compat_open ready true lacking).1,
        ))
fingerprint_compat_open_closes_test = fingerprint_compat_open_closes ready true lacking
