-- ===== src/PowerHal/Hints.antt =====
-- The nodes of power/PowerHAL.c over a sequence of hints.
use android_device_meizu_m.Prelude.{
  ℕ, ◌≡◌, ◌<◌, refl, sym, ap, ◌∙◌, Bool, true, false, List, [], ◌∷◌, Option, none, some, pos,
  if◌then◌else◌, take_all, codes, arith, neg_ne_zero,
}
use android_device_meizu_m.PowerHal.{
  Node, cpu0_boostpulse, cpu4_boostpulse, hotplug_profile, hotplug_big_cluster, hotplug_big_minimum,
  profile_balanced, profile_eco, WriteIo, NodeIo, write_loop, write_node, Request, PowerModule,
  m86_power_init, m86_set_low_power, PowerHint, is_set, m86_power_hint,
}

abbrev pub WriteFits : WriteIo → Type 0
WriteFits (WriteIo.failed e) = 0 < e
WriteFits (WriteIo.wrote n) = Unit
WriteFits (WriteIo.interrupted io) = WriteFits io

-- What the calls promise: an errno is positive.
abbrev pub NodeFits : NodeIo → Type 0
NodeFits (NodeIo.no_open e) = 0 < e
NodeFits (NodeIo.opened io) = WriteFits io

write_loop-whole :
    (value : List ℕ) (io : WriteIo)
    → WriteFits io
    → (write_loop value io).0 ≡ pos 0
    → (write_loop value io).1 ≡ some value
unfolding write_loop
write_loop-whole value (WriteIo.failed e) fit h = absurd (ground (arith, neg_ne_zero e fit))
write_loop-whole value (WriteIo.wrote n) fit h = ap some (take_all n value (ground arith))
write_loop-whole value (WriteIo.interrupted io) fit h = write_loop-whole value io fit h

-- However often the write is interrupted, write_node returns 0 only when the node took the whole text.
pub write_node-whole :
    (value : List ℕ) (io : NodeIo)
    → NodeFits io
    → (write_node value io).0 ≡ pos 0
    → (write_node value io).1 ≡ some value
unfolding write_node
write_node-whole value (NodeIo.no_open e) fit h = absurd (ground (arith, neg_ne_zero e fit))
write_node-whole value (NodeIo.opened io) fit h = write_loop-whole value io fit h

-- The texts of the nodes that the hotplug driver reads.
pub record Hotplug : Type 0 where
  pub profile : List ℕ
  pub big_cluster : List ℕ
  pub big_minimum : List ℕ

abbrev pub store : Node → Option (List ℕ) → Hotplug → Hotplug
store node none h = h
store hotplug_profile (some text) h = record h { profile = text }
store hotplug_big_cluster (some text) h = record h { big_cluster = text }
store hotplug_big_minimum (some text) h = record h { big_minimum = text }
store _ (some text) h = h

-- The writes of one operation, which writes no node twice, with the answers of each.
abbrev pub perform : (Node → NodeIo) → List Request → Hotplug → Hotplug
perform io [] h = h
perform io (r ∷ rs) h = perform io rs (store r.0 (write_node r.1 (io r.0)).1 h)

-- All of them succeed.
abbrev pub Succeeds : (Node → NodeIo) → List Request → Type 0
Succeeds io [] = Unit
Succeeds io (r ∷ rs) = NodeFits (io r.0) × ((write_node r.1 (io r.0)).0 ≡ pos 0) × Succeeds io rs

-- The same where each node takes the whole text.
abbrev pub perform_whole : List Request → Hotplug → Hotplug
perform_whole [] h = h
perform_whole (r ∷ rs) h = perform_whole rs (store r.0 (some r.1) h)

perform-whole :
    (io : Node → NodeIo) (rs : List Request) (h : Hotplug)
    → Succeeds io rs
    → perform io rs h ≡ perform_whole rs h
perform-whole io [] h s = refl
perform-whole io (r ∷ rs) h s =
    perform-whole io rs (store r.0 (write_node r.1 (io r.0)).1 h) s.2
    ∙ ap (λ o. perform_whole rs (store r.0 o h)) (write_node-whole r.1 (io r.0) s.0 s.1)

-- The state of the module, what the driver has read, and what the calls ask for.
pub record World : Type 0 where
  pub power : PowerModule
  pub hotplug : Hotplug

-- A hint of the framework, with what becomes of its writes.
pub record HintCall : Type 0 where
  pub hint : PowerHint
  pub io : Node → NodeIo

unfoldable pub init : (Node → NodeIo) → World → World
unfolding m86_power_init
init io w =
    let (power, requests) = m86_power_init w.power in
    record { power = power; hotplug = perform io requests w.hotplug }

unfoldable pub hint : World → HintCall → World
unfolding m86_power_hint
hint w c =
    let (power, requests) = m86_power_hint w.power c.hint in
    record { power = power; hotplug = perform c.io requests w.hotplug }

unfoldable pub hints : World → List HintCall → World
unfolding hint
hints w [] = w
hints w (c ∷ cs) = hints (hint w c) cs

-- Every write of the calls succeeds.
abbrev pub HintsSucceed : World → List HintCall → Type 0
HintsSucceed w [] = Unit
HintsSucceed w (c ∷ cs) =
    Succeeds c.io (m86_power_hint w.power c.hint).1 × HintsSucceed (hint w c) cs

-- What the driver is to have read, by the mode.
abbrev pub expected : Bool → Hotplug
expected true = record { profile = profile_eco; big_cluster = codes "0"; big_minimum = codes "0" }
expected false = record {
  profile = profile_balanced;
  big_cluster = codes "1";
  big_minimum = codes "1";
}

abbrev pub Consistent : World → Type 0
Consistent w = w.hotplug ≡ expected w.power.low_power

set_low_power_whole :
    (low enabled : Bool)
    → let r = m86_set_low_power (record { low_power = low }) enabled in
      (perform_whole r.1 (expected low) ≡ expected enabled) × (r.0.low_power ≡ enabled)
unfolding m86_set_low_power
set_low_power_whole true true = (refl, refl)
set_low_power_whole true false = (refl, refl)
set_low_power_whole false true = (refl, refl)
set_low_power_whole false false = (refl, refl)

hint_whole :
    (h : PowerHint) (low : Bool)
    → let r = m86_power_hint (record { low_power = low }) h in
      perform_whole r.1 (expected low) ≡ expected r.0.low_power
unfolding m86_power_hint
hint_whole PowerHint.interaction true = refl
hint_whole PowerHint.interaction false = refl
hint_whole (PowerHint.low_power v) low =
    let s = set_low_power_whole low (is_set v) in s.0 ∙ ap expected (sym s.1)
hint_whole PowerHint.other low = refl

hint-Consistent :
    (w : World) (c : HintCall)
    → Succeeds c.io (m86_power_hint w.power c.hint).1
    → Consistent w
    → Consistent (hint w c)
unfolding hint
hint-Consistent w c s p =
    let requests = (m86_power_hint w.power c.hint).1 in
    perform-whole c.io requests w.hotplug s
    ∙ ap (perform_whole requests) p
    ∙ hint_whole c.hint w.power.low_power

hints-Consistent :
    (w : World) (cs : List HintCall) → HintsSucceed w cs → Consistent w → Consistent (hints w cs)
unfolding hints
hints-Consistent w [] s p = p
hints-Consistent w (c ∷ cs) s p = hints-Consistent (hint w c) cs s.1 (hint-Consistent w c s.0 p)

-- After m86_power_init and any hints, as long as every write succeeds, the hotplug driver has read the
-- profile, the big cluster's switch and its minimum that belong to the module's mode, whatever it had
-- read before.
pub hotplug_follows :
    (w : World) (io : Node → NodeIo) (cs : List HintCall)
    → Succeeds io (m86_power_init w.power).1
    → HintsSucceed (init io w) cs
    → Consistent (hints (init io w) cs)
unfolding init m86_power_init
hotplug_follows w io cs s t =
    hints-Consistent (init io w) cs t (perform-whole io (m86_power_init w.power).1 w.hotplug s)

-- The last mode that was asked for, or the one before.
abbrev pub last_mode : Bool → List HintCall → Bool
last_mode low [] = low
last_mode low (c ∷ cs) = last_mode (elim c.hint [ PowerHint.low_power v ↦ is_set v | _ ↦ low ]) cs

hint_mode :
    (h : PowerHint) (m86 : PowerModule)
    → (m86_power_hint m86 h).0.low_power
      ≡ elim h [ PowerHint.low_power v ↦ is_set v | _ ↦ m86.low_power ]
unfolding m86_power_hint
hint_mode PowerHint.interaction m86 = refl
hint_mode (PowerHint.low_power v) m86 = (set_low_power_whole m86.low_power (is_set v)).1
hint_mode PowerHint.other m86 = refl

mode_after :
    (w : World) (cs : List HintCall) → (hints w cs).power.low_power ≡ last_mode w.power.low_power cs
unfolding hints hint
mode_after w [] = refl
mode_after w (c ∷ cs) =
    mode_after (hint w c) cs ∙ ap (λ low. last_mode low cs) (hint_mode c.hint w.power)

-- The mode is the last one that a low-power hint asked for, and an interaction asks for a boost of
-- both clusters exactly when the mode is not low.
pub hints_mode :
    (w : World) (cs : List HintCall)
    → let m86 = (hints w cs).power in
      (m86.low_power ≡ last_mode w.power.low_power cs)
      × ((m86_power_hint m86 PowerHint.interaction).1 ≡ (
          if last_mode w.power.low_power cs
          then []
          else (cpu0_boostpulse, codes "1") ∷ (cpu4_boostpulse, codes "1") ∷ []))
unfolding m86_power_hint
hints_mode w cs =
    let m = mode_after w cs in
    (
      m,
      ap
          (λ low.
            if low then [] else (cpu0_boostpulse, codes "1") ∷ (cpu4_boostpulse, codes "1") ∷ [])
          m,
    )
