-- ===== src/Tests/Startup.antt =====
-- The services of Services on a device with the interfaces of one release.
use android_device_meizu_m.Prelude.{
  ◌≡◌, refl, Bool, true, false, ◌||◌, none, some, [], ◌∷◌, ◌++◌, same, codes, pos, neg,
}
use android_device_meizu_m.Services.{
  Text, mandatory_interfaces, optional_interfaces, audio_main, gatekeeper_main,
}
use android_device_meizu_m.Services.Audio.{AllHave, tried_names, audio_main_registers}

-- A release with version 6 of the audio interfaces, and no trigger of sound.
abbrev registers : Text → Bool
registers name =
    same name (codes "android.hardware.audio@6.0::IDevicesFactory")
    || same name (codes "android.hardware.audio.effect@6.0::IEffectsFactory")
    || same name (codes "android.hardware.bluetooth.audio@2.0::IBluetoothAudioProvidersFactory")

audio_main_registers_example :
    ((audio_main registers).0 ≡ true
      → AllHave registers mandatory_interfaces
        × ((audio_main registers).1
            ≡ tried_names registers mandatory_interfaces
              ++ tried_names registers optional_interfaces))
    × ((audio_main registers).0 ≡ false → ¬ AllHave registers mandatory_interfaces)
audio_main_registers_example = audio_main_registers registers

-- The gatekeeper enters the directory that it is given, and no other.
gatekeeper_directories :
    (gatekeeper_main [] (pos 0) 7 ≡ (some (codes "/data/misc/gatekeeper"), 7))
    × (gatekeeper_main (codes "/data/vendor/gatekeeper" ∷ []) (neg 1) 7
        ≡ (some (codes "/data/vendor/gatekeeper"), 1))
    × (gatekeeper_main (codes "/data/other" ∷ []) (pos 0) 7 ≡ (none, 1))
unfolding gatekeeper_main
gatekeeper_directories = (refl, refl, refl)
