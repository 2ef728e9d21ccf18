-- ===== src/PowerService/Config/Ranges.antt =====
-- The values that LoadBoostConfigLocked of power/Power.cpp leaves in the service.
use android_device_meizu_m.Prelude.{
  ℕ, ◌≡◌, ◌≤◌, refl, Bool, true, false, Option, none, some, arith, if_ind, if_case, if◌then◌else◌,
  ℤ, pos, negsuc,
}
use android_device_meizu_m.PowerService.{Power, new_power, no_deadlines}
use android_device_meizu_m.PowerService.Config.{
  Scanned, outside, below, is_invalid, to_ℕ, load_boost_config_locked,
}

pub record InRange (p : Power) : Type 0 where
  pub foreground_boost : p.foreground_boost ≤ 50
  pub base_boost : p.base_boost ≤ p.active_boost
  pub active_boost : p.active_boost ≤ 50
  pub interaction_ms : (40 ≤ p.interaction_ms) × (p.interaction_ms ≤ 2000)
  pub display_ms : (40 ≤ p.display_ms) × (p.display_ms ≤ 2000)
  pub launch_ms : (40 ≤ p.launch_ms) × (p.launch_ms ≤ 2000)

inside :
    (low high : ℕ) (value : ℤ)
    → outside low high value ≡ false
    → (low ≤ to_ℕ value) × (to_ℕ value ≤ high)
inside low high (pos n) h = ground arith
inside low high (negsuc n) h = cc

not_below : (a b : ℤ) → outside 0 50 b ≡ false → below a b ≡ false → to_ℕ b ≤ to_ℕ a
not_below (pos a) (pos b) h k = ground arith
not_below (negsuc a) (pos b) h k = cc
not_below a (negsuc b) h k = cc

-- What it takes to pass all tests.
all_pass :
    (a b c d e f g h : Bool)
    → (if a
        then true
        else if b
        then true
        else if c
        then true
        else if d
        then true
        else if e
        then true
        else if f
        then true
        else if g
        then true
        else h)
      ≡ false
    → (b ≡ false)
      × (c ≡ false)
      × (d ≡ false)
      × (e ≡ false)
      × (f ≡ false)
      × (g ≡ false)
      × (h ≡ false)
all_pass false b c d e f g h p = ground arith
all_pass true b c d e f g h p = cc

-- With any file, or none, the boosts and the durations are in the ranges of the source, and the base
-- boost is not above the active one.
pub load_boost_config_locked-InRange :
    (config : Option Scanned) → InRange (load_boost_config_locked config new_power)
unfolding load_boost_config_locked is_invalid
load_boost_config_locked-InRange none = omega arith
load_boost_config_locked-InRange (some c) =
    if_case InRange (is_invalid c) (λ _. omega arith)
      (λ valid.
        let t = all_pass _ _ _ _ _ _ _ _ valid in
        record {
          foreground_boost = (inside 0 50 c.fg t.0).1;
          base_boost = not_below c.active c.base t.1 t.2;
          active_boost = (inside 0 50 c.active t.3).1;
          interaction_ms = inside 40 2000 c.interaction t.4;
          display_ms = inside 40 2000 c.display t.5;
          launch_ms = inside 40 2000 c.launch t.6;
        })

pub load_deadlines :
    (config : Option Scanned)
    → (load_boost_config_locked config new_power).boost_deadlines ≡ no_deadlines
unfolding load_boost_config_locked
load_deadlines none = refl
load_deadlines (some c) =
    if_ind (λ (p : Power). p.boost_deadlines ≡ no_deadlines) (is_invalid c) refl refl
