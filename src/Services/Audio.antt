-- ===== src/Services/Audio.antt =====
-- The registrations of audio/service/service.cpp.
use android_device_meizu_m.Prelude.{
  ◌≡◌, refl, sym, ap, ◌∙◌, Bool, true, false, List, [], ◌∷◌, ◌++◌, ◌⊎◌, inl, inr, if◌then◌else◌,
  if_case,
}
use android_device_meizu_m.Services.{
  Text, register_implementations, InterfacesList, mandatory_interfaces, optional_interfaces,
  register_mandatory, register_optional, audio_main,
}

-- The names up to the first that registers, or all of them.
abbrev pub until_first : (Text → Bool) → List Text → List Text
until_first registers [] = []
until_first registers (name ∷ names) =
    let rest = until_first registers names in name ∷ (if registers name then [] else rest)

abbrev pub HasOne : (Text → Bool) → List Text → Type 0
HasOne registers [] = ⊥
HasOne registers (name ∷ names) = (registers name ≡ true) ⊎ HasOne registers names

abbrev pub AllHave : (Text → Bool) → List InterfacesList → Type 0
AllHave registers [] = Unit
AllHave registers (l ∷ ls) = HasOne registers l.versions × AllHave registers ls

abbrev pub tried_names : (Text → Bool) → List InterfacesList → List Text
tried_names registers [] = []
tried_names registers (l ∷ ls) = until_first registers l.versions ++ tried_names registers ls

implementations_tried :
    (registers : Text → Bool) (names : List Text)
    → (register_implementations registers names).1 ≡ until_first registers names
unfolding register_implementations
implementations_tried registers [] = refl
implementations_tried registers (name ∷ names) =
    if_case
      (λ (r : Bool × List Text).
        r.1 ≡ name ∷ (if registers name then [] else until_first registers names))
      (registers name)
      (λ t. ap (λ b. name ∷ (if b then [] else until_first registers names)) (sym t))
      (λ f.
        ap (◌∷◌ name) (implementations_tried registers names)
        ∙ ap (λ b. name ∷ (if b then [] else until_first registers names)) (sym f))

implementations_found :
    (registers : Text → Bool) (names : List Text)
    → (register_implementations registers names).0 ≡ true
    → HasOne registers names
unfolding register_implementations
implementations_found registers [] h = cc
implementations_found registers (name ∷ names) h =
    if_case (λ (r : Bool × List Text). r.0 ≡ true → HasOne registers (name ∷ names))
      (registers name) (λ t _. inl t) (λ _ k. inr (implementations_found registers names k)) h

implementations_missing :
    (registers : Text → Bool) (names : List Text)
    → (register_implementations registers names).0 ≡ false
    → ¬ HasOne registers names
unfolding register_implementations
implementations_missing registers [] h = λ x. x
implementations_missing registers (name ∷ names) h =
    if_case (λ (r : Bool × List Text). r.0 ≡ false → ¬ HasOne registers (name ∷ names))
      (registers name) (λ _ k. cc)
      (λ f k. λ o. elim o [
        | inl t ↦ (let e = sym t ∙ f in cc)
        | inr m ↦ implementations_missing registers names k m
      ])
      h

-- A loop over the mandatory families that ends has found one of each, and tried as it should.
abbrev Ends : (Text → Bool) → List InterfacesList → Bool × List Text → Type 0
Ends registers ls r =
    (r.0 ≡ true → AllHave registers ls × (r.1 ≡ tried_names registers ls))
    × (r.0 ≡ false → ¬ AllHave registers ls)

mandatory-Ends :
    (registers : Text → Bool) (ls : List InterfacesList)
    → Ends registers ls (register_mandatory registers ls)
unfolding register_mandatory
mandatory-Ends registers [] = ((λ _. (tt, refl)), (λ h. cc))
mandatory-Ends registers (l ∷ ls) =
    let ih = mandatory-Ends registers ls in
    let tried = implementations_tried registers l.versions in
    if_case (Ends registers (l ∷ ls)) (register_implementations registers l.versions).0
      (λ found. (
        (λ h.
            let r = ih.0 h in
            (
              (implementations_found registers l.versions found, r.0),
              ap (λ (x : List Text). x ++ (register_mandatory registers ls).1) tried
                  ∙ ap (◌++◌ (until_first registers l.versions)) r.1,
            )),
        (λ h a. ih.1 h a.1),
      ))
      (λ missing. ((λ h. cc), (λ _ a. implementations_missing registers l.versions missing a.0)))

optional_tried :
    (registers : Text → Bool) (ls : List InterfacesList)
    → register_optional registers ls ≡ tried_names registers ls
unfolding register_optional
optional_tried registers [] = refl
optional_tried registers (l ∷ ls) =
    ap (λ (x : List Text). x ++ register_optional registers ls)
      (implementations_tried registers l.versions)
    ∙ ap (◌++◌ (until_first registers l.versions)) (optional_tried registers ls)

-- The audio service joins its thread pool exactly when each mandatory family has a version that
-- registers; it has then tried, family by family, the versions in the order of the table up to the
-- first that registers, of the mandatory families and then of the optional ones.
pub audio_main_registers :
    (registers : Text → Bool)
    → ((audio_main registers).0 ≡ true
        → AllHave registers mandatory_interfaces
          × ((audio_main registers).1
              ≡ tried_names registers mandatory_interfaces
                ++ tried_names registers optional_interfaces))
      × ((audio_main registers).0 ≡ false → ¬ AllHave registers mandatory_interfaces)
unfolding audio_main
audio_main_registers registers =
    let m = mandatory-Ends registers mandatory_interfaces in
    let optional = register_optional registers optional_interfaces in
    if_case
      (λ (r : Bool × List Text).
        (r.0 ≡ true
          → AllHave registers mandatory_interfaces
            × (r.1
                ≡ tried_names registers mandatory_interfaces
                  ++ tried_names registers optional_interfaces))
        × (r.0 ≡ false → ¬ AllHave registers mandatory_interfaces))
      (register_mandatory registers mandatory_interfaces).0
      (λ all. (
        (λ _.
            let e = m.0 all in
            (
              e.0,
              ap (λ (x : List Text). x ++ optional) e.1
                  ∙ ap (◌++◌ (tried_names registers mandatory_interfaces))
                      (optional_tried registers optional_interfaces),
            )),
        (λ h. cc),
      ))
      (λ missing. ((λ h. cc), (λ _. m.1 missing)))
