-- ===== src/Lights.antt =====
-- lights/lights.c: the lights HAL, with its three shared states as a record.
pub mod Levels
pub mod Names
pub mod Indicator
use Prim.Native.Nat.{bit_and, bit_or}
use android_device_meizu_m.Prelude.{
  ℕ, zero, suc, take, is_positive, same, ◌+◌, ◌*◌, ◌/◌, ◌%◌, ◌^◌, Bool, true, false, not, ◌&&◌,
  List, [], ◌∷◌, ◌++◌, Option, none, some, ℤ, pos, neg, negsuc, leb, ◌==◌, if◌then◌else◌, length,
  codes,
}
use android_device_meizu_m.Posix.{eio, einval, enomem}
use android_device_meizu_m.Posix.Decimal.{decimal}

-- struct light_state_t of hardware/lights.h, as far as the HAL reads it; LIGHT_FLASH_NONE is 0.
pub record LightState : Type 0 where
  pub color : ℕ  -- unsigned int
  pub flash_mode : ℕ
  pub flash_on_ms : ℤ
  pub flash_off_ms : ℤ

-- g_attention, g_battery and g_notification
pub record Lights : Type 0 where
  pub attention : LightState
  pub battery : LightState
  pub notification : LightState

pub data LightFile : Type 0 where
  backlight indicator : LightFile

-- The answers to open(2) and write(2): an errno, or the count.
pub data FileIo : Type 0 where
  no_open : ℕ → FileIo
  no_write : ℕ → FileIo
  wrote : ℕ → FileIo

-- What the kernel receives: the file and the bytes that it took.
abbrev pub Sent : Type 0
Sent = Option (LightFile × List ℕ)

abbrev m86_led_mode_current : ℕ
m86_led_mode_current = 0x100

abbrev m86_led_mode_breath : ℕ
m86_led_mode_breath = 0x200

abbrev m86_led_mode_timed_blink : ℕ
m86_led_mode_timed_blink = 0x400

-- From open on: the status, and the bytes that the file took.
abbrev pub write_buffer : LightFile → List ℕ → FileIo → ℤ × Sent
write_buffer path buffer (FileIo.no_open e) = (neg e, none)
write_buffer path buffer (FileIo.no_write e) = (neg e, none)
write_buffer path buffer (FileIo.wrote n) =
    (if n == length buffer then pos 0 else neg eio, some (path, take n buffer))

-- The buffer has 24 characters, with the NUL; no caller has a negative value.
unfoldable pub write_int : LightFile → ℕ → FileIo → ℤ × Sent
write_int path value io =
    let buffer = decimal value (b'\n' ∷ []) in
    if leb 24 (length buffer) then (neg einval, none) else write_buffer path buffer io

abbrev pub is_lit : LightState → Bool
is_lit state = not (bit_and state.color 0x00ffffff == 0)

unfoldable pub rgb_to_brightness : LightState → ℕ
rgb_to_brightness state =
    let blue = bit_and state.color 0xff in
    let green = bit_and (state.color / 2 ^ 8) 0xff in
    let red = bit_and (state.color / 2 ^ 16) 0xff in
    let brightness = (77 * red + 150 * green + 29 * blue) / 2 ^ 8 in
    if brightness == 0 && is_lit state then 1 else brightness

-- state->flashMode != LIGHT_FLASH_NONE && state->flashOnMS > 0 && state->flashOffMS > 0
abbrev pub flashes : LightState → Bool
flashes state =
    not (state.flash_mode == 0) && (is_positive state.flash_on_ms && is_positive state.flash_off_ms)

abbrev mode_of : LightState → Bool → ℕ
mode_of state battery =
    if flashes state
    then m86_led_mode_timed_blink
    else if battery
    then m86_led_mode_breath
    else m86_led_mode_current

unfoldable pub encode_indicator : LightState → Bool → ℕ
unfolding rgb_to_brightness
encode_indicator state battery =
    if not (is_lit state) then 0 else bit_or (mode_of state battery) (rgb_to_brightness state)

-- The state that the indicator shows, and whether it is the battery's.
abbrev pub shown_state : Lights → LightState × Bool
shown_state g =
    if is_lit g.notification
    then (g.notification, false)
    else if is_lit g.attention
    then (g.attention, false)
    else (g.battery, true)

unfoldable pub update_indicator_locked : Lights → FileIo → ℤ × Sent
unfolding write_int encode_indicator
update_indicator_locked g io =
    let (state, battery) = shown_state g in
    write_int LightFile.indicator (encode_indicator state battery) io

-- The four lights, of which open_lights puts one into a device as its set_light.
pub data LightId : Type 0 where
  backlight attention battery notifications : LightId

abbrev with_attention : Lights → LightState → Lights
with_attention g state = record g { attention = state }

abbrev with_battery : Lights → LightState → Lights
with_battery g state = record g { battery = state }

abbrev with_notification : Lights → LightState → Lights
with_notification g state = record g { notification = state }

unfoldable pub set_light_backlight : Lights → LightState → FileIo → Lights × ℤ × Sent
unfolding write_int rgb_to_brightness
set_light_backlight g state io =
    let (result, sent) = write_int LightFile.backlight (rgb_to_brightness state) io in
    (g, result, sent)

unfoldable pub set_light_attention : Lights → LightState → FileIo → Lights × ℤ × Sent
unfolding update_indicator_locked
set_light_attention g state io =
    let (result, sent) = update_indicator_locked (with_attention g state) io in
    (with_attention g state, result, sent)

unfoldable pub set_light_battery : Lights → LightState → FileIo → Lights × ℤ × Sent
unfolding update_indicator_locked
set_light_battery g state io =
    let (result, sent) = update_indicator_locked (with_battery g state) io in
    (with_battery g state, result, sent)

unfoldable pub set_light_notifications : Lights → LightState → FileIo → Lights × ℤ × Sent
unfolding update_indicator_locked
set_light_notifications g state io =
    let (result, sent) = update_indicator_locked (with_notification g state) io in
    (with_notification g state, result, sent)

-- LIGHT_ID_BACKLIGHT, LIGHT_ID_ATTENTION, LIGHT_ID_BATTERY and LIGHT_ID_NOTIFICATIONS, which the
-- Android header gives
abbrev pub light_name : LightId → List ℕ
light_name LightId.backlight = codes "backlight"
light_name LightId.attention = codes "attention"
light_name LightId.battery = codes "battery"
light_name LightId.notifications = codes "notifications"

-- The light whose set_light is put in the device.
named_light : List ℕ → Option LightId
named_light name =
    if same name (light_name LightId.backlight)
    then some LightId.backlight
    else if same name (light_name LightId.attention)
    then some LightId.attention
    else if same name (light_name LightId.battery)
    then some LightId.battery
    else if same name (light_name LightId.notifications)
    then some LightId.notifications
    else none

-- From calloc on, which succeeds if `allocated`.
abbrev make_device : Option LightId → Bool → Option LightId × ℤ
make_device none allocated = (none, neg einval)
make_device (some light) true = (some light, pos 0)
make_device (some light) false = (none, neg enomem)

unfoldable pub open_lights : List ℕ → Bool → Option LightId × ℤ
unfolding named_light
open_lights name allocated = make_device (named_light name) allocated

-- The device is freed, so that there is none behind the call.
unfoldable pub close_lights : LightId → Option LightId × ℤ
close_lights light = (none, pos 0)

-- (*light->set_light)(light, state)
unfoldable pub set_light : LightId → Lights → LightState → FileIo → Lights × ℤ × Sent
unfolding set_light_backlight set_light_attention set_light_battery set_light_notifications
set_light LightId.backlight = set_light_backlight
set_light LightId.attention = set_light_attention
set_light LightId.battery = set_light_battery
set_light LightId.notifications = set_light_notifications
