-- ===== src/Lights/Levels.antt =====
-- What lights/lights.c writes: the levels, and the driver's modes.
use Prim.Native.Nat.{bit_and, bit_or}
use android_device_meizu_m.Prelude.{
  ℕ, ap, ◌+◌, ◌/◌, ◌%◌, ◌^◌, ◌<◌, ◌≡◌, ◌↔◌, refl, sym, Bool, true, false, not, ◌==◌, ==_iff,
  if◌then◌else◌, arith, bit_and-ones, all_below, at_below,
}
use android_device_meizu_m.Lights.{LightState, is_lit, rgb_to_brightness, flashes, encode_indicator}

-- The three colours of a state.
channels :
    (s : LightState)
    → (bit_and s.color 0xff ≡ s.color % 2 ^ 8)
      × (bit_and (s.color / 2 ^ 8) 0xff ≡ s.color / 2 ^ 8 % 2 ^ 8)
      × (bit_and (s.color / 2 ^ 16) 0xff ≡ s.color / 2 ^ 16 % 2 ^ 8)
      × (bit_and s.color 0x00ffffff ≡ s.color % 2 ^ 24)
channels s = (
  bit_and-ones 8 s.color,
  bit_and-ones 8 (s.color / 2 ^ 8),
  bit_and-ones 8 (s.color / 2 ^ 16),
  bit_and-ones 24 s.color,
)

-- The test of the code, by the three colours.
pub lit_iff : (s : LightState) → is_lit s ≡ not (s.color % 2 ^ 24 == 0)
lit_iff s = ap (λ x. not (x == 0)) (channels s).3

-- A level fits in a byte, and it is 0 exactly for black, whatever the byte above the colours.
pub rgb_to_brightness_level :
    (s : LightState)
    → (rgb_to_brightness s < 256) × ((rgb_to_brightness s ≡ 0) ↔ (s.color % 2 ^ 24 ≡ 0))
unfolding rgb_to_brightness
rgb_to_brightness_level s =
    let (b, g, r, rgb) = channels s in
    (
      ground (arith, b, g, r, rgb),
      (λ h. ground (arith, b, g, r, rgb), λ h. ground (arith, b, g, r, rgb)),
    )

-- The mode's bits and the level's do not meet.
modes_apart :
    (all_below 256 (λ x. bit_or 0x100 x == 0x100 + x) ≡ true)
    × (all_below 256 (λ x. bit_or 0x200 x == 0x200 + x) ≡ true)
    × (all_below 256 (λ x. bit_or 0x400 x == 0x400 + x) ≡ true)
modes_apart = (refl, refl, refl)

-- The driver's modes, by the bit that the encoding sets.
pub data LedMode : Type 0 where
  off current breath timed_blink : LedMode

abbrev pub led_mode : ℕ → LedMode
led_mode value =
    if value / 256 == 0
    then LedMode.off
    else if value / 256 == 1
    then LedMode.current
    else if value / 256 == 2
    then LedMode.breath
    else LedMode.timed_blink

-- What the light is to do: black is off, a state with both times blinks, and of the rest the battery
-- breathes and the others stay lit.
abbrev pub wanted_mode : LightState → Bool → LedMode
wanted_mode s battery =
    if s.color % 2 ^ 24 == 0
    then LedMode.off
    else if flashes s
    then LedMode.timed_blink
    else if battery
    then LedMode.breath
    else LedMode.current

with_level :
    (mode level : ℕ)
    → all_below 256 (λ x. bit_or mode x == mode + x) ≡ true
    → level < 256
    → bit_or mode level ≡ mode + level
with_level mode level table h =
    (==_iff _ _).0 (at_below 256 (λ x. bit_or mode x == mode + x) level table h)

-- The same, by the tests that the code makes.
Decodes : Bool → Bool → Bool → ℕ → Type 0
Decodes lit flashing battery level =
    let mode : ℕ = if flashing then 0x400 else if battery then 0x200 else 0x100 in
    let value : ℕ = if not lit then 0 else bit_or mode level in
    let wanted : LedMode =
      if not lit
      then LedMode.off
      else if flashing
      then LedMode.timed_blink
      else if battery
      then LedMode.breath
      else LedMode.current in
    (led_mode value ≡ wanted) × (value % 256 ≡ level) × (value < 0x500)

decodes :
    (lit flashing battery : Bool) (level : ℕ)
    → level < 256
    → (lit ≡ false → level ≡ 0)
    → Decodes lit flashing battery level
unfolding Decodes
decodes false flashing battery level h z = (refl, sym (z refl), omega arith)
decodes true true battery level h z = ground (arith, with_level 0x400 level modes_apart.2 h)
decodes true false true level h z = ground (arith, with_level 0x200 level modes_apart.1 h)
decodes true false false level h z = ground (arith, with_level 0x100 level modes_apart.0 h)

-- The driver reads from the number written the mode that the light is to have, and its level in the
-- low byte; the number is below 0x500.
pub encode_indicator_decodes :
    (s : LightState) (battery : Bool)
    → (led_mode (encode_indicator s battery) ≡ wanted_mode s battery)
      × (encode_indicator s battery % 256 ≡ rgb_to_brightness s)
      × (encode_indicator s battery < 0x500)
unfolding encode_indicator Decodes
encode_indicator_decodes s battery =
    let level = rgb_to_brightness_level s in
    let r =
      decodes (is_lit s) (flashes s) battery (rgb_to_brightness s) level.0
        (λ h. level.1.1 (ground (arith, (channels s).3))) in
    (ground (arith, r.0, (channels s).3), r.1, r.2)
