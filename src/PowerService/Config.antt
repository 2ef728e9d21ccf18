-- ===== src/PowerService/Config.antt =====
-- power/Power.cpp, LoadBoostConfigLocked: what fopen and fscanf find is an argument.
pub mod Ranges
use android_device_meizu_m.Prelude.{
  ℕ, Bool, true, false, ◌&&◌, not, Option, none, some, ℤ, pos, negsuc, ltb, leb, ◌==◌,
  if◌then◌else◌,
}
use android_device_meizu_m.PowerService.{Power}

-- After fscanf: its count, and the six ints, of which the last ones may be unset.
pub record Scanned : Type 0 where
  pub count : ℤ
  pub fg : ℤ
  pub base : ℤ
  pub active : ℤ
  pub interaction : ℤ
  pub display : ℤ
  pub launch : ℤ

-- value < low || value > high, with bounds that are not negative
abbrev pub outside : ℕ → ℕ → ℤ → Bool
outside low high (negsuc n) = true
outside low high (pos n) = if ltb n low then true else ltb high n

-- active < base
abbrev pub below : ℤ → ℤ → Bool
below (negsuc a) (negsuc b) = ltb b a
below (negsuc a) (pos b) = true
below (pos a) (negsuc b) = false
below (pos a) (pos b) = ltb a b

-- count != 6
abbrev is_six : ℤ → Bool
is_six (pos n) = n == 6
is_six (negsuc n) = false

-- The condition that is not to hold, with its tests in the order of the source.
unfoldable pub is_invalid : Scanned → Bool
is_invalid c =
    if not (is_six c.count)
    then true
    else if outside 0 50 c.fg
    then true
    else if outside 0 50 c.base
    then true
    else if below c.active c.base
    then true
    else if outside 0 50 c.active
    then true
    else if outside 40 2000 c.interaction
    then true
    else if outside 40 2000 c.display
    then true
    else outside 40 2000 c.launch

-- An int that is_invalid has let through.
abbrev pub to_ℕ : ℤ → ℕ
to_ℕ (pos n) = n
to_ℕ (negsuc n) = 0

-- none for a file that does not open.
unfoldable pub load_boost_config_locked : Option Scanned → Power → Power
unfolding is_invalid
load_boost_config_locked none p = p
load_boost_config_locked (some c) p = if is_invalid c then p else record p {
  foreground_boost = to_ℕ c.fg;
  base_boost = to_ℕ c.base;
  active_boost = to_ℕ c.active;
  interaction_ms = to_ℕ c.interaction;
  display_ms = to_ℕ c.display;
  launch_ms = to_ℕ c.launch;
  config_valid = true;
}
