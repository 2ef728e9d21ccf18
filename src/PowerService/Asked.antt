-- ===== src/PowerService/Asked.antt =====
-- What the calls of power/Power.cpp ask of the nodes by the modes that they set.
use android_device_meizu_m.Prelude.{codes, ◌⊎◌, arith, ◌≡◌, ◌∙◌, Bool, true, false, List, [], ◌∷◌}
use android_device_meizu_m.PowerService.{Power, Nodes}
use android_device_meizu_m.PowerService.Profile.{gpu_floor, gpu_ceiling, profile_text}
use android_device_meizu_m.PowerService.Calls.{
  Mode, low_power, sustained_performance, expensive_rendering, interactive, display_inactive, mode,
  Call,
}

-- The five modes that the nodes depend on, as the calls set them last.
pub record Modes : Type 0 where
  pub interactive : Bool
  pub display_inactive : Bool
  pub low_power : Bool
  pub sustained_performance : Bool
  pub expensive_rendering : Bool

-- At the start the screen is on, and no other mode is set.
abbrev pub first_modes : Modes
first_modes = record {
  interactive = true;
  display_inactive = false;
  low_power = false;
  sustained_performance = false;
  expensive_rendering = false;
}

abbrev pub mode_set : Mode → Bool → Modes → Modes
mode_set interactive enabled m = record m { interactive = enabled }
mode_set display_inactive enabled m = record m { display_inactive = enabled }
mode_set low_power enabled m = record m { low_power = enabled }
mode_set sustained_performance enabled m = record m { sustained_performance = enabled }
mode_set expensive_rendering enabled m = record m { expensive_rendering = enabled }
mode_set _ enabled m = m

abbrev pub asked : Call → Modes → Modes
asked (mode type enabled io) m = mode_set type enabled m
asked _ m = m

abbrev pub all_asked : List Call → Modes → Modes
all_asked [] m = m
all_asked (c ∷ cs) m = all_asked cs (asked c m)

abbrev pub modes_of : Power → Modes
modes_of p = record {
  interactive = p.interactive;
  display_inactive = p.display_inactive;
  low_power = p.low_power;
  sustained_performance = p.sustained_performance;
  expensive_rendering = p.expensive_rendering;
}

-- The GPU renders on a screen that is on, or it has to save power.
abbrev pub IsRendering : Modes → Type 0
IsRendering m =
    (m.interactive ≡ true) × (m.display_inactive ≡ false) × (m.expensive_rendering ≡ true)

abbrev pub IsLimited : Modes → Type 0
IsLimited m = (m.low_power ≡ true) ⊎ (m.sustained_performance ≡ true)

-- What the nodes of the GPU and of the hotplug driver have to hold in these modes.
pub record Follows (m : Modes) (nodes : Nodes) : Type 0 where
  pub rendering : IsRendering m → nodes.gpu_min_lock ≡ codes "420"
  pub not_rendering : ¬ IsRendering m → nodes.gpu_min_lock ≡ codes "0"
  pub limited : IsLimited m → nodes.gpu_max_lock ≡ codes "544"
  pub not_limited : ¬ IsLimited m → nodes.gpu_max_lock ≡ codes "0"
  pub eco : m.low_power ≡ true → nodes.hotplug_profile ≡ codes "2"
  pub high : m.low_power ≡ false → nodes.hotplug_profile ≡ codes "0"

pub nodes_follow :
    (p : Power) (nodes : Nodes)
    → nodes.gpu_min_lock ≡ gpu_floor p
    → nodes.gpu_max_lock ≡ gpu_ceiling p
    → nodes.hotplug_profile ≡ profile_text p.low_power
    → Follows (modes_of p) nodes
nodes_follow p nodes a b c = record {
  rendering = λ h. a ∙ ground arith;
  not_rendering = λ h. a ∙ ground arith;
  limited = λ h. b ∙ ground arith;
  not_limited = λ h. b ∙ ground arith;
  eco = λ h. c ∙ ground arith;
  high = λ h. c ∙ ground arith;
}
