-- ===== src/Services.antt =====
-- The programs that register services and have logic of their own: audio/service/service.cpp and
-- gatekeeper/service.cpp. Whether a service registers, and how a call ends, are arguments.
pub mod Audio
use android_device_meizu_m.Prelude.{
  ℕ, zero, suc, Bool, true, false, not, ◌&&◌, Option, none, some, List, [], ◌∷◌, ◌++◌,
  if◌then◌else◌, ◌==◌, same, length, codes, ℤ, pos, is_zero,
}

-- A string of the sources.
abbrev pub Text : Type 0
Text = List ℕ

-- registerPassthroughServiceImplementations, from an iterator on: the result, and the names it tried.
unfoldable pub register_implementations : (Text → Bool) → List Text → Bool × List Text
register_implementations registers [] = (false, [])
register_implementations registers (name ∷ names) =
    let (found, tried) = register_implementations registers names in
    if registers name then (true, name ∷ []) else (found, name ∷ tried)

-- An interface family: its name, and the versions behind it, the newest first.
pub record InterfacesList : Type 0 where
  pub family : Text
  pub versions : List Text

abbrev pub mandatory_interfaces : List InterfacesList
mandatory_interfaces =
    record {
      family = codes "Audio Core API";
      versions =
          codes "android.hardware.audio@7.1::IDevicesFactory"
          ∷ codes "android.hardware.audio@7.0::IDevicesFactory"
          ∷ codes "android.hardware.audio@6.0::IDevicesFactory"
          ∷ codes "android.hardware.audio@5.0::IDevicesFactory"
          ∷ codes "android.hardware.audio@4.0::IDevicesFactory"
          ∷ [];
    }
    ∷ record {
      family = codes "Audio Effect API";
      versions =
          codes "android.hardware.audio.effect@7.0::IEffectsFactory"
          ∷ codes "android.hardware.audio.effect@6.0::IEffectsFactory"
          ∷ codes "android.hardware.audio.effect@5.0::IEffectsFactory"
          ∷ codes "android.hardware.audio.effect@4.0::IEffectsFactory"
          ∷ [];
    }
    ∷ record {
      family = codes "Bluetooth Audio API";
      versions = codes "android.hardware.bluetooth.audio@2.0::IBluetoothAudioProvidersFactory" ∷ [];
    }
    ∷ []

abbrev pub optional_interfaces : List InterfacesList
optional_interfaces =
    record {
      family = codes "Soundtrigger API";
      versions =
          codes "android.hardware.soundtrigger@2.3::ISoundTriggerHw"
          ∷ codes "android.hardware.soundtrigger@2.2::ISoundTriggerHw"
          ∷ codes "android.hardware.soundtrigger@2.1::ISoundTriggerHw"
          ∷ codes "android.hardware.soundtrigger@2.0::ISoundTriggerHw"
          ∷ [];
    }
    ∷ record {
      family = codes "Bluetooth Audio Offload API";
      versions = codes "android.hardware.bluetooth.a2dp@1.0::IBluetoothAudioOffload" ∷ [];
    }
    ∷ []

-- The loop over the mandatory families: whether it comes to its end, and the names it tried.
unfoldable pub register_mandatory : (Text → Bool) → List InterfacesList → Bool × List Text
unfolding register_implementations
register_mandatory registers [] = (true, [])
register_mandatory registers (l ∷ ls) =
    let (found, tried) = register_implementations registers l.versions in
    let (all, rest) = register_mandatory registers ls in
    if found then (all, tried ++ rest) else (false, tried)

-- The loop over the optional families: the names it tried.
unfoldable pub register_optional : (Text → Bool) → List InterfacesList → List Text
unfolding register_implementations
register_optional registers [] = []
register_optional registers (l ∷ ls) =
    (register_implementations registers l.versions).1 ++ register_optional registers ls

-- main of the audio service, from its lists on: whether it joins the thread pool, and the names it
-- tried; LOG_ALWAYS_FATAL_IF ends the process.
unfoldable pub audio_main : (Text → Bool) → Bool × List Text
unfolding register_mandatory register_optional
audio_main registers =
    let (all, tried) = register_mandatory registers mandatory_interfaces in
    if all then (true, tried ++ register_optional registers optional_interfaces) else (false, tried)

-- main of the gatekeeper service, by its arguments behind the program's name: the directory it enters,
-- if it calls chdir, and its exit code; served is what the registration returns.
unfoldable pub gatekeeper_main : List Text → ℤ → ℕ → Option Text × ℕ
gatekeeper_main [] chdir_status served =
    (some (codes "/data/misc/gatekeeper"), if is_zero chdir_status then served else 1)
gatekeeper_main (argument ∷ []) chdir_status served =
    if same argument (codes "/data/vendor/gatekeeper")
    then (some argument, if is_zero chdir_status then served else 1)
    else (none, 1)
gatekeeper_main (argument ∷ other ∷ more) chdir_status served = (none, 1)
