-- ===== src/Lights/Indicator.antt =====
-- The files of lights/lights.c over a sequence of calls: what the drivers have read last.
use android_device_meizu_m.Prelude.{
  ℕ, not, ◌%◌, ◌^◌, ◌==◌, ◌%◌, ◌<◌, ◌≡◌, Bool, true, false, List, [], ◌∷◌, none, some, pos,
  if◌then◌else◌, is_zero,
}
use android_device_meizu_m.Posix.Decimal.{number}
use android_device_meizu_m.Lights.{
  LightState, Lights, LightFile, FileIo, Sent, LightId, rgb_to_brightness, set_light,
}
use android_device_meizu_m.Lights.Levels.{led_mode, wanted_mode}

-- What open(2) and write(2) promise: an errno is positive.
abbrev pub IoFits : FileIo → Type 0
IoFits (FileIo.no_open e) = 0 < e
IoFits (FileIo.no_write e) = 0 < e
IoFits (FileIo.wrote n) = Unit

-- The numbers that the two drivers have read last.
pub record Nodes : Type 0 where
  pub backlight : ℕ
  pub indicator : ℕ

abbrev pub deliver : Sent → Nodes → Nodes
deliver none nodes = nodes
deliver (some (LightFile.backlight, text)) nodes = record nodes { backlight = number 0 text }
deliver (some (LightFile.indicator, text)) nodes = record nodes { indicator = number 0 text }

-- A call of the framework, with the answers that it gets.
pub record LightCall : Type 0 where
  pub light : LightId
  pub state : LightState
  pub io : FileIo

-- The states, the nodes, and whether the last call that was to set the indicator returned 0.
pub record World : Type 0 where
  pub lights : Lights
  pub nodes : Nodes
  pub settled : Bool

abbrev is_indicator : LightId → Bool
is_indicator LightId.backlight = false
is_indicator _ = true

unfoldable pub call : World → LightCall → World
call w c =
    let (lights, result, sent) = set_light c.light w.lights c.state c.io in
    record {
      lights = lights;
      nodes = deliver sent w.nodes;
      settled = if is_indicator c.light then is_zero result else w.settled;
    }

unfoldable pub calls : World → List LightCall → World
unfolding call
calls w [] = w
calls w (c ∷ cs) = calls (call w c) cs

abbrev pub AllFit : List LightCall → Type 0
AllFit [] = Unit
AllFit (c ∷ cs) = IoFits c.io × AllFit cs

abbrev pub is_black : LightState → Bool
is_black s = s.color % 2 ^ 24 == 0

-- The state that the user is to see, and whether it is the battery's.
abbrev pub first_lit : Lights → LightState × Bool
first_lit g =
    if not (is_black g.notification)
    then (g.notification, false)
    else if not (is_black g.attention)
    then (g.attention, false)
    else (g.battery, true)

-- The indicator's driver is in the mode, and at the level, that the first lit state asks for.
pub record Shows (lights : Lights) (value : ℕ) : Type 0 where
  pub mode : led_mode value ≡ wanted_mode (first_lit lights).0 (first_lit lights).1
  pub level : value % 256 ≡ rgb_to_brightness (first_lit lights).0

-- The invariant of the sequence.
abbrev Settled : World → Type 0
Settled w = w.settled ≡ true → Shows w.lights w.nodes.indicator

-- The states before the first call, which are all zero, and the nodes as they are then.
abbrev pub dark : LightState
dark = record { color = 0; flash_mode = 0; flash_on_ms = pos 0; flash_off_ms = pos 0 }

abbrev pub boot : Nodes → World
boot nodes = record {
  lights = record { attention = dark; battery = dark; notification = dark };
  nodes = nodes;
  settled = false;
}
