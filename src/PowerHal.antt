-- ===== src/PowerHal.antt =====
-- power/PowerHAL.c: the legacy power HAL. No caller looks at the result of write_node, so an operation
-- gives the writes that it asks for, in order, and what becomes of them is another argument.
pub mod Hints
use android_device_meizu_m.Prelude.{
  ℕ, equal, Bool, true, false, not, List, [], ◌∷◌, Option, none, some, ℤ, pos, neg, is_zero, ◌==◌,
  if◌then◌else◌, length, take, codes,
}
use android_device_meizu_m.Posix.{eio}

-- The paths under /sys that the HAL writes.
pub data Node : Type 0 where
  cpu0_boostpulse cpu4_boostpulse cpu0_boost_duration cpu4_boost_duration : Node
  hotplug_profile hotplug_big_cluster hotplug_big_minimum : Node

abbrev pub profile_balanced : List ℕ
profile_balanced = codes "1"

abbrev pub profile_eco : List ℕ
profile_eco = codes "2"

abbrev pub boost_duration_us : List ℕ
boost_duration_us = codes "400000"

-- The answers of write(2) to one loop, and of open(2) before it.
pub data WriteIo : Type 0 where
  failed : ℕ → WriteIo
  wrote : ℕ → WriteIo
  interrupted : WriteIo → WriteIo

pub data NodeIo : Type 0 where
  no_open : ℕ → NodeIo
  opened : WriteIo → NodeIo

-- From the loop on: the status, and the bytes that the node took.
unfoldable pub write_loop : List ℕ → WriteIo → ℤ × Option (List ℕ)
write_loop value (WriteIo.failed e) = (neg e, none)
write_loop value (WriteIo.wrote n) =
    (if n == length value then pos 0 else neg eio, some (take n value))
write_loop value (WriteIo.interrupted io) = write_loop value io

unfoldable pub write_node : List ℕ → NodeIo → ℤ × Option (List ℕ)
unfolding write_loop
write_node value (NodeIo.no_open e) = (neg e, none)
write_node value (NodeIo.opened io) = write_loop value io

-- A call of write_node, by its arguments.
abbrev pub Request : Type 0
Request = Node × List ℕ

-- struct m86_power_module: the member that changes.
pub record PowerModule : Type 0 where
  pub low_power : Bool

unfoldable pub m86_power_init : PowerModule → PowerModule × List Request
m86_power_init m86 = (
  record m86 { low_power = false },
  (cpu0_boost_duration, boost_duration_us)
      ∷ (cpu4_boost_duration, boost_duration_us)
      ∷ (hotplug_profile, profile_balanced)
      ∷ (hotplug_big_cluster, codes "1")
      ∷ (hotplug_big_minimum, codes "1")
      ∷ [],
)

unfoldable pub m86_set_low_power : PowerModule → Bool → PowerModule × List Request
m86_set_low_power m86 enabled = if equal m86.low_power enabled then (m86, []) else (
  record m86 { low_power = enabled },
  (hotplug_profile, if enabled then profile_eco else profile_balanced)
      ∷ (hotplug_big_cluster, if enabled then codes "0" else codes "1")
      ∷ (hotplug_big_minimum, if enabled then codes "0" else codes "1")
      ∷ [],
)

-- power_hint_t with the data: for POWER_HINT_LOW_POWER an int32_t, or NULL.
pub data PowerHint : Type 0 where
  interaction : PowerHint
  low_power : Option ℤ → PowerHint
  other : PowerHint

-- data != NULL && *(int32_t *)data != 0
abbrev pub is_set : Option ℤ → Bool
is_set none = false
is_set (some value) = not (is_zero value)

unfoldable pub m86_power_hint : PowerModule → PowerHint → PowerModule × List Request
unfolding m86_set_low_power
m86_power_hint m86 PowerHint.interaction = (
  m86,
  if m86.low_power then [] else (cpu0_boostpulse, codes "1") ∷ (cpu4_boostpulse, codes "1") ∷ [],
)
m86_power_hint m86 (PowerHint.low_power data_value) = m86_set_low_power m86 (is_set data_value)
m86_power_hint m86 PowerHint.other = (m86, [])

-- m86_set_interactive
unfoldable pub m86_set_interactive : PowerModule → ℤ → PowerModule × List Request
m86_set_interactive m86 on = (m86, [])
