-- ===== src/Compat.antt =====
-- fingerprint/FingerprintCompat.c: the layer between the framework and Flyme's own fingerprint HAL.
-- What Flyme's code answers, and what it sends while it is called, are arguments. Where the functions
-- take and give back the two mutexes is left out.
pub mod Cancel
pub mod Open
pub mod Enumerate
use android_device_meizu_m.Prelude.{
  ℕ, zero, suc, ◌+◌, ◌-◌, ◌%◌, ◌^◌, Bool, true, false, not, ◌&&◌, ◌||◌, List, [], ◌∷◌, ◌++◌, Option,
  none, some, ℤ, pos, neg, is_zero, ltb, ◌==◌, if◌then◌else◌, get_or, is_some,
}
use android_device_meizu_m.Posix.{enosys, enodev, eio, eoverflow}
use android_device_meizu_m.Fingerprint.Types.{canceled, Message, error, enumerating}

-- The static variables. Of the pointers to Flyme's functions only the first matters: whether there is
-- one.
pub record Compat : Type 0 where
  pub framework_notify : Option ℕ
  pub flyme_set_notify : Bool
  pub flyme_cancel : Bool
  pub flyme_get_finger_ids : Bool
  pub flyme_goto_idle : Bool
  pub flyme_resume : Bool
  pub cancel_in_progress : Bool
  pub cancel_notified : Bool

-- A call of a callback of the framework; `none` is a NULL message.
abbrev pub Delivery : Type 0
Delivery = ℕ × Option Message

abbrev pub send : Option ℕ → Option Message → List Delivery
send none message = []
send (some notify) message = (notify, message) ∷ []

-- message != NULL && it is FINGERPRINT_ERROR_CANCELED
abbrev pub is_canceled : Option Message → Bool
is_canceled (some (error canceled)) = true
is_canceled _ = false

unfoldable pub fingerprint_compat_notify : Compat → Option Message → Compat × List Delivery
fingerprint_compat_notify c message = (
  if c.cancel_in_progress && is_canceled message then record c { cancel_notified = true } else c,
  send c.framework_notify message,
)

-- What Flyme sends during a call, one message after the other.
unfoldable pub flyme_sends : Compat → List (Option Message) → Compat × List Delivery
unfolding fingerprint_compat_notify
flyme_sends c [] = (c, [])
flyme_sends c (m ∷ ms) =
    let (d, first) = fingerprint_compat_notify c m in
    let (e, rest) = flyme_sends d ms in (e, first ++ rest)

-- `status` and `sent` are what Flyme's set_notify returns and sends.
unfoldable pub fingerprint_compat_set_notify :
    Compat → Option ℕ → ℤ → List (Option Message) → Compat × ℤ × List Delivery
unfolding flyme_sends
fingerprint_compat_set_notify c notify status sent =
    let (d, log) = flyme_sends (record c { framework_notify = notify }) sent in
    if not c.flyme_set_notify
    then (c, neg enosys, [])
    else (if is_zero status then d else record d { framework_notify = none }, status, log)

-- From the second critical section of fingerprint_compat_cancel on.
abbrev pub end_cancel : Compat → ℤ → List Delivery → Compat × ℤ × List Delivery
end_cancel d status log =
    let synthesize_cancel =
      is_zero status && (not d.cancel_notified && is_some d.framework_notify) in
    (
      record d { cancel_in_progress = false },
      status,
      log ++ (if synthesize_cancel then send d.framework_notify (some (error canceled)) else []),
    )

-- `status` and `sent` are what Flyme's cancel returns and sends.
unfoldable pub fingerprint_compat_cancel :
    Compat → ℤ → List (Option Message) → Compat × ℤ × List Delivery
unfolding flyme_sends
fingerprint_compat_cancel c status sent =
    let (d, log) =
      flyme_sends (record c { cancel_in_progress = true; cancel_notified = false }) sent in
    if not c.flyme_cancel then (c, neg enosys, []) else end_cancel d status log

abbrev pub flyme_max_templates : ℕ
flyme_max_templates = 5

-- The private members of Flyme's device that the HAL reads: whether the bio pointer is there, and the
-- group.
pub record FlymeDevice : Type 0 where
  pub bio : Bool
  pub gid : ℕ  -- uint32_t

-- What fpc_tee_get_finger_ids returns and writes: the count, and the array.
pub record FingerIds : Type 0 where
  pub status : ℤ
  pub count : ℕ  -- uint32_t
  pub ids : List ℕ

-- The loop over `previous`, with `rounds` to go: is the identifier among those?
abbrev pub repeats : ℕ → List ℕ → ℕ → ℕ → Bool
repeats id ids previous zero = false
repeats id ids previous (suc rounds) =
    let rest = repeats id ids (previous + 1) rounds in
    if id == get_or ids previous 0 then true else rest

-- The loop over `index`, with `rounds` to go: is every identifier good?
unfoldable pub valid_ids : List ℕ → ℕ → ℕ → Bool
valid_ids ids index zero = true
valid_ids ids index (suc rounds) =
    let id = get_or ids index 0 in
    let rest = valid_ids ids (index + 1) rounds in
    if id == 0 then false else if repeats id ids 0 index then false else rest

-- The loop that sends, with `rounds` to go; the count stays above the index.
unfoldable pub send_ids : Option ℕ → ℕ → List ℕ → ℕ → ℕ → ℕ → List Delivery
send_ids notify gid ids count index zero = []
send_ids notify gid ids count index (suc rounds) =
    send notify
      (some (enumerating gid (get_or ids index 0) ((count + 2 ^ 32 - index - 1) % 2 ^ 32)))
    ++ send_ids notify gid ids count (index + 1) rounds

-- From the tests of the count on.
abbrev send_templates : Compat → ℕ → FingerIds → ℤ × List Delivery
unfolding valid_ids send_ids
send_templates c gid found =
    let messages =
      if found.count == 0
      then send c.framework_notify (some (enumerating 0 0 0))
      else send_ids c.framework_notify gid found.ids found.count 0 found.count in
    if not (is_zero found.status)
    then (neg eio, [])
    else if ltb flyme_max_templates found.count
    then (neg eoverflow, [])
    else if not (valid_ids found.ids 0 found.count)
    then (neg eio, [])
    else if not (is_some c.framework_notify)
    then (neg enosys, [])
    else (pos 0, messages)

abbrev pub has_symbols : Compat → Bool
has_symbols c = c.flyme_get_finger_ids && (c.flyme_goto_idle && c.flyme_resume)

-- `none` is a NULL device. With no bio pointer the status is -ENODEV, and the count and the array are
-- as they were set up.
unfoldable pub fingerprint_compat_enumerate :
    Compat → Option FlymeDevice → FingerIds → ℤ × List Delivery
unfolding send_templates
fingerprint_compat_enumerate c none found = (neg enosys, [])
fingerprint_compat_enumerate c (some device) found =
    if not (has_symbols c)
    then (neg enosys, [])
    else send_templates c device.gid (
        if device.bio then found else record {
          status = neg enodev;
          count = flyme_max_templates;
          ids = 0 ∷ 0 ∷ 0 ∷ 0 ∷ 0 ∷ [];
        })
