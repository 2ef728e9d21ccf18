-- ===== src/Lights/Names.antt =====
-- open_lights of lights/lights.c: which names it knows.
use mathlib.Core.Option.{some-injective}
use android_device_meizu_m.Prelude.{
  ℕ, ◌≡◌, ◌↔◌, refl, ap, ◌∙◌, Bool, true, false, List, Option, none, some, if_case, same, same-eq,
  is_zero, is_some,
}
use android_device_meizu_m.Lights.{LightId, light_name, named_light, make_device, open_lights}

named_sound :
    (name : List ℕ) (light : LightId) → named_light name ≡ some light → name ≡ light_name light
unfolding named_light
named_sound name light =
    let P : Option LightId → Type 0 = λ o. o ≡ some light → name ≡ light_name light in
    let hit : (l : LightId)
        → same name (light_name l) ≡ true
        → some l ≡ some light
        → name ≡ light_name light =
      λ l h e. same-eq name (light_name l) h ∙ ap light_name (some-injective _ _ e) in
    if_case P (same name (light_name LightId.backlight)) (hit LightId.backlight) (λ _.
      if_case P (same name (light_name LightId.attention)) (hit LightId.attention) (λ _.
        if_case P (same name (light_name LightId.battery)) (hit LightId.battery) (λ _.
          if_case P (same name (light_name LightId.notifications)) (hit LightId.notifications)
            (λ _ h. cc))))

named_complete : (light : LightId) → named_light (light_name light) ≡ some light
unfolding named_light
named_complete LightId.backlight = refl
named_complete LightId.attention = refl
named_complete LightId.battery = refl
named_complete LightId.notifications = refl

made :
    (o : Option LightId) (allocated : Bool) (light : LightId)
    → ((make_device o allocated).0 ≡ some light → (o ≡ some light) × (allocated ≡ true))
      × ((o ≡ some light) × (allocated ≡ true) → (make_device o allocated).0 ≡ some light)
      × (is_zero (make_device o allocated).1 ≡ is_some (make_device o allocated).0)
made none allocated light = (λ h. cc, λ p. cc, refl)
made (some l) true light = (λ h. (h, refl), λ p. p.0, refl)
made (some l) false light = (λ h. cc, λ p. cc, refl)

-- open_lights gives a device for a light exactly when it is asked for that light by its name and there
-- is memory, and it returns 0 exactly when it gives a device.
pub open_lights_names :
    (name : List ℕ) (allocated : Bool) (light : LightId)
    → (((open_lights name allocated).0 ≡ some light)
        ↔ ((name ≡ light_name light) × (allocated ≡ true)))
      × (is_zero (open_lights name allocated).1 ≡ is_some (open_lights name allocated).0)
unfolding open_lights
open_lights_names name allocated light =
    let m = made (named_light name) allocated light in
    (
      (
        λ h. (named_sound name light (m.0 h).0, (m.0 h).1),
        λ p. m.1 (ap named_light p.0 ∙ named_complete light, p.1),
      ),
      m.2,
    )
