-- ===== src/Tests/Nodes.antt =====
-- lights/lights.c, power/PowerHAL.c and independent/paths/VendorPaths.c at concrete calls.
use android_device_meizu_m.Prelude.{
  ℕ, ◌+◌, ◌%◌, ◌^◌, ◌<◌, ◌≡◌, ◌↔◌, inl, refl, ap, sym, Bool, true, false, List, [], ◌∷◌, ◌++◌,
  Option, none, some, ℤ, pos, negsuc, is_zero, is_some, if◌then◌else◌, leb, length, codes,
}
use android_device_meizu_m.Posix.{enametoolong, path_max}
use android_device_meizu_m.Lights.{
  LightState, FileIo, LightId, rgb_to_brightness, encode_indicator, light_name, open_lights,
}
use android_device_meizu_m.Lights.Levels.{
  led_mode, wanted_mode, rgb_to_brightness_level, encode_indicator_decodes,
}
use android_device_meizu_m.Lights.Names.{open_lights_names}
use android_device_meizu_m.Lights.Indicator.{Nodes, LightCall, dark}
use android_device_meizu_m.PowerHal.{
  Node, WriteIo, NodeIo, write_node, PowerHint, m86_power_init, m86_power_hint, cpu0_boostpulse,
  cpu4_boostpulse,
}
use android_device_meizu_m.PowerHal.Hints.{
  World, HintCall, Consistent, init, hint, hints, last_mode, write_node-whole, hotplug_follows,
  hints_mode,
}
use android_device_meizu_m.VendorPaths.{
  FilePath, Outcome, is_legacy, translate, may_create, open_file, open_2, fopen, path_call,
}
use android_device_meizu_m.VendorPaths.Mapping.{
  IsLegacy, IsLegacy-complete, not_legacy, translate_legacy, translate_other,
  translate_never-IsLegacy,
}
use android_device_meizu_m.VendorPaths.Confined.{
  SameElsewhere, calls_confined, mode_only_for_creation,
}

abbrev red : LightState
red = record { color = 0xffff0000; flash_mode = 1; flash_on_ms = pos 500; flash_off_ms = pos 500 }

rgb_to_brightness_level_test :
    (rgb_to_brightness red < 256) × ((rgb_to_brightness red ≡ 0) ↔ (red.color % 2 ^ 24 ≡ 0))
rgb_to_brightness_level_test = rgb_to_brightness_level red

encode_indicator_decodes_test :
    (led_mode (encode_indicator red false) ≡ wanted_mode red false)
    × (encode_indicator red false % 256 ≡ rgb_to_brightness red)
    × (encode_indicator red false < 0x500)
encode_indicator_decodes_test = encode_indicator_decodes red false

open_lights_names_test :
    (((open_lights (codes "battery") true).0 ≡ some LightId.battery)
      ↔ ((codes "battery" ≡ light_name LightId.battery) × (◌≡◌ {A = Bool} true true)))
    × (is_zero (open_lights (codes "battery") true).1
        ≡ is_some (open_lights (codes "battery") true).0)
open_lights_names_test = open_lights_names (codes "battery") true LightId.battery

-- A charging light that fails, a notification that blinks, and the backlight, of which the write fails.
abbrev three_calls : List LightCall
three_calls =
    record { light = LightId.battery; state = red; io = FileIo.no_open 2 }
    ∷ record { light = LightId.notifications; state = red; io = FileIo.wrote 5 }
    ∷ record { light = LightId.backlight; state = dark; io = FileIo.no_write 5 }
    ∷ []

abbrev no_light : Nodes
no_light = record { backlight = 0; indicator = 0 }

abbrev taken : ℕ → NodeIo
taken n = NodeIo.opened (WriteIo.interrupted (WriteIo.wrote n))

write_node-whole_test : (write_node (codes "400000") (taken 6)).1 ≡ some (codes "400000")
unfolding write_node
write_node-whole_test = write_node-whole (codes "400000") (taken 6) tt refl

-- Every write succeeds: six characters of a duration, and else one.
abbrev obliging : Node → NodeIo
obliging Node.cpu0_boost_duration = taken 6
obliging Node.cpu4_boost_duration = taken 6
obliging node = taken 1

abbrev unknown : World
unknown = record {
  power = record { low_power = true };
  hotplug = record { profile = []; big_cluster = []; big_minimum = [] };
}

abbrev two_hints : List HintCall
two_hints =
    record { hint = PowerHint.low_power (some (pos 1)); io = obliging }
    ∷ record { hint = PowerHint.interaction; io = obliging }
    ∷ []

hotplug_follows_example : Consistent (hints (init obliging unknown) two_hints)
unfolding m86_power_init init hint m86_power_hint write_node
hotplug_follows_example =
    hotplug_follows unknown obliging two_hints
      (tt, refl, (tt, refl, (tt, refl, (tt, refl, (tt, refl, tt)))))
      ((tt, refl, (tt, refl, (tt, refl, tt))), (tt, tt))

hints_mode_test :
    ((hints unknown two_hints).power.low_power ≡ last_mode true two_hints)
    × ((m86_power_hint (hints unknown two_hints).power PowerHint.interaction).1 ≡ (
        if last_mode true two_hints
        then []
        else (cpu0_boostpulse, codes "1") ∷ (cpu4_boostpulse, codes "1") ∷ []))
hints_mode_test = hints_mode unknown two_hints

abbrev modem : FilePath
modem = codes "/efs/nv.bin"

modem-IsLegacy : IsLegacy modem
modem-IsLegacy = (codes "/efs", codes "/nv.bin", inl refl, refl, refl)

translate_legacy_test : translate (some modem) ≡ (
    if leb (length modem + 12) path_max
    then (some (codes "/mnt/vendor" ++ modem), none)
    else (none, some enametoolong))
translate_legacy_test = translate_legacy modem modem-IsLegacy

-- A longer name is no legacy root.
efs_other : ¬ IsLegacy (codes "/efsx")
efs_other p = let e = IsLegacy-complete (codes "/efsx") p in cc

translate_other_test : translate (some (codes "/efsx")) ≡ (some (codes "/efsx"), none)
translate_other_test = translate_other (codes "/efsx") efs_other

abbrev mapped : FilePath
mapped = codes "/mnt/vendor/efs/nv.bin"

translate_never-IsLegacy_test : ¬ IsLegacy mapped × (translate (some mapped) ≡ (some mapped, none))
unfolding translate
translate_never-IsLegacy_test = translate_never-IsLegacy modem mapped refl

abbrev answer : FilePath → ℕ → ℕ → Outcome ℤ
answer path flags mode = (pos (length path + mode), none)

abbrev stream : FilePath → List ℕ → Outcome (Option ℕ)
stream path mode = (some 3, none)

abbrev on_path : FilePath → Outcome ℤ
on_path path = (negsuc 0, some 2)

-- A library that answers otherwise on legacy paths.
abbrev trap : FilePath → ℕ → ℕ → Outcome ℤ
trap path flags mode = if is_legacy path then (pos 1000, none) else answer path flags mode

trap-SameElsewhere : SameElsewhere answer trap
trap-SameElsewhere path n =
    ap (λ b (flags mode : ℕ). if b then (pos 1000, none) else answer path flags mode)
      (sym (not_legacy path n))

calls_confined_example :
    (open_file 0x40 0x410000 (some answer) (some modem) 0x41 420
      ≡ open_file 0x40 0x410000 (some trap) (some modem) 0x41 420)
    × (open_2 0x40 0x410000 (some answer) (some modem) 0x41 420
        ≡ open_2 0x40 0x410000 (some trap) (some modem) 0x41 420)
    × (fopen (some stream) (some modem) (codes "r") ≡ fopen (some stream) (some modem) (codes "r"))
    × (path_call (some on_path) (some modem) ≡ path_call (some on_path) (some modem))
calls_confined_example =
    calls_confined 0x40 0x410000 0x41 420 (some modem) (codes "r") answer trap stream stream on_path
      on_path trap-SameElsewhere (λ p n. refl) (λ p n. refl)

mode_only_for_creation_test :
    (open_2 0x40 0x410000 (some answer) (some modem) 0 420
      ≡ open_2 0x40 0x410000 (some answer) (some modem) 0 7)
    × (open_file 0x40 0x410000 (some answer) (some modem) 0 420
        ≡ open_file 0x40 0x410000
            (some answer)
            (some modem)
            0
            (if may_create 0x40 0x410000 0 then 420 else 7))
mode_only_for_creation_test =
    mode_only_for_creation 0x40 0x410000 0 420 7 (some modem) (some answer)
