-- ===== src/Compat/Open.antt =====
-- fingerprint_compat_open of fingerprint/FingerprintCompat.c: the callback table of Flyme's device, as
-- the bytes of one object that two struct types lay out differently.
pub mod Remapped
pub mod Closed
use mathlib.Core.Option.{some-injective}
use android_device_meizu_m.Prelude.{
  ℕ, ◌≡◌, refl, ap, sym, ◌∙◌, Bool, true, false, not, ◌&&◌, List, [], ◌∷◌, Option, none, some, ℤ,
  pos, neg, is_zero, if◌then◌else◌, if_ind, if_case, is_some, arith, ◌==◌,
}
use android_device_meizu_m.Posix.{einval, enoent, eio}
use android_device_meizu_m.Compat.{Compat, has_symbols}

-- What a slot points to: a function of Flyme's HAL, or one of this file.
pub data Code : Type 0 where
  flyme : ℕ → Code
  compat_set_notify compat_cancel compat_enumerate : Code

-- The pointer at each offset of the object; `none` is NULL.
abbrev pub Memory : Type 0
Memory = ℕ → Option Code

abbrev pub store : Memory → ℕ → Option Code → Memory
store memory offset code = λ a. if a == offset then code else memory a

-- The callbacks of fingerprint_device_t from set_notify on.
pub data Callback : Type 0 where
  set_notify pre_enroll enroll post_enroll get_authenticator_id cancel : Callback
  enumerate remove set_active_group authenticate : Callback

-- offsetof(fingerprint_device_t, _), where hw_device_t takes 0x78 bytes and the callback of the
-- framework 8, as the assertions of the file have it
abbrev pub aosp_offset : Callback → ℕ
aosp_offset set_notify = 0x80
aosp_offset pre_enroll = 0x88
aosp_offset enroll = 0x90
aosp_offset post_enroll = 0x98
aosp_offset get_authenticator_id = 0xa0
aosp_offset cancel = 0xa8
aosp_offset enumerate = 0xb0
aosp_offset remove = 0xb8
aosp_offset set_active_group = 0xc0
aosp_offset authenticate = 0xc8

-- offsetof(struct flyme_fingerprint_device, _): four more callbacks stand before
-- get_authenticator_id.
abbrev pub flyme_offset : Callback → ℕ
flyme_offset set_notify = 0x80
flyme_offset pre_enroll = 0x88
flyme_offset enroll = 0x90
flyme_offset post_enroll = 0x98
flyme_offset get_authenticator_id = 0xc0
flyme_offset cancel = 0xc8
flyme_offset enumerate = 0xd0
flyme_offset remove = 0xd8
flyme_offset set_active_group = 0xe0
flyme_offset authenticate = 0xe8

-- The stores behind "Capture every source pointer": the pointers were read before the first of them.
unfoldable pub remap : Memory → Memory
remap memory =
    let get_authenticator_id_code = memory (flyme_offset get_authenticator_id) in
    let remove_code = memory (flyme_offset remove) in
    let set_active_group_code = memory (flyme_offset set_active_group) in
    let authenticate_code = memory (flyme_offset authenticate) in
    let m1 = store memory (aosp_offset set_notify) (some compat_set_notify) in
    let m2 = store m1 (aosp_offset get_authenticator_id) get_authenticator_id_code in
    let m3 = store m2 (aosp_offset cancel) (some compat_cancel) in
    let m4 = store m3 (aosp_offset enumerate) (some compat_enumerate) in
    let m5 = store m4 (aosp_offset remove) remove_code in
    let m6 = store m5 (aosp_offset set_active_group) set_active_group_code in
    store m6 (aosp_offset authenticate) authenticate_code

-- The pointers that have to be there.
abbrev pub is_complete : Memory → Bool → Bool → Bool → Bool
is_complete memory get_finger_ids goto_idle resume =
    is_some (memory (flyme_offset set_notify))
    && (is_some (memory (flyme_offset get_authenticator_id))
        && (is_some (memory (flyme_offset cancel))
            && (is_some (memory (flyme_offset enumerate))
                && (get_finger_ids
                    && (goto_idle
                        && (resume
                            && (is_some (memory (flyme_offset remove))
                                && (is_some (memory (flyme_offset set_active_group))
                                    && is_some (memory (flyme_offset authenticate))))))))))

-- The answers in order: dlopen, the module's symbol, its open method, what the method returns with the
-- device that it gives, and the three symbols.
pub record OpenIo : Type 0 where
  pub loaded : Bool
  pub module_symbol : Bool
  pub open_method : Bool
  pub status : ℤ
  pub device : Option Memory
  pub get_finger_ids : Bool
  pub goto_idle : Bool
  pub resume : Bool

-- The library and the device: what a call takes and gives back.
pub data OpenEffect : Type 0 where
  dlopen dlclose device_open device_close : OpenEffect

-- The static variables that the call fills, before the table is tested.
abbrev pub bound : Compat → Memory → OpenIo → Compat
bound c memory io = record c {
  flyme_set_notify = is_some (memory (flyme_offset set_notify));
  flyme_cancel = is_some (memory (flyme_offset cancel));
  flyme_get_finger_ids = io.get_finger_ids;
  flyme_goto_idle = io.goto_idle;
  flyme_resume = io.resume;
}

abbrev pub Opened : Type 0
Opened = Compat × Option Memory × ℤ × List OpenEffect

-- With the device, from the table on.
open_table : Compat → Memory → OpenIo → Opened
unfolding remap
open_table c memory io =
    if is_complete memory io.get_finger_ids io.goto_idle io.resume
    then (bound c memory io, some (remap memory), pos 0, dlopen ∷ device_open ∷ [])
    else (bound c memory io, none, neg einval, dlopen ∷ device_open ∷ device_close ∷ dlclose ∷ [])

-- From the result of Flyme's open on. A failure of it gives no device.
open_result : Compat → Option Memory → OpenIo → Opened
unfolding open_table
open_result c none io =
    (c, none, if is_zero io.status then neg eio else io.status, dlopen ∷ dlclose ∷ [])
open_result c (some memory) io =
    if is_zero io.status
    then open_table c memory io
    else (c, none, io.status, dlopen ∷ dlclose ∷ [])

-- `wanted` is false for a NULL hardware_device. The static variables, the device, the status, and the
-- effects.
unfoldable pub fingerprint_compat_open : Compat → Bool → OpenIo → Opened
unfolding open_result
fingerprint_compat_open c wanted io =
    let opened = open_result c io.device io in
    if not wanted
    then (c, none, neg einval, [])
    else if not io.loaded
    then (c, none, neg enoent, [])
    else if not (io.module_symbol && io.open_method)
    then (c, none, neg einval, dlopen ∷ dlclose ∷ [])
    else opened
