-- ===== src/GpsVendor/Manager.antt =====
-- class SensorManager of gps/vendor/GpsVendor.cpp.
use android_device_meizu_m.Prelude.{
  ℕ, ◌≡◌, refl, sym, ap, subst, ◌∙◌, Bool, true, false, not, ◌&&◌, ◌||◌, Option, none, some, List,
  [], ◌∷◌, ◌++◌, ◌⊎◌, inl, inr, ◌==◌, if◌then◌else◌, if_ind, ℤ, pos, negsuc, is_zero,
}

-- What the manager keeps of hs::SensorInfo: the handle, and the rest as one number.
pub record Sensor : Type 0 where
  pub handle : ℤ
  pub info : ℕ

-- mManager != nullptr, and the list that mOwned and mSensors hold.
pub record SensorManager : Type 0 where
  pub connected : Bool
  pub sensors : List Sensor

-- The service, what the callback of getSensorList is given where its result is OK, and isOk.
pub record ListIo : Type 0 where
  pub has_service : Bool
  pub listing : Option (List Sensor)
  pub is_ok : Bool

abbrev listed : Bool → Option (List Sensor) → SensorManager → Bool × SensorManager
listed ok none m = (false, m)
listed ok (some list) m =
    let m' : SensorManager = record m { sensors = m.sensors ++ list } in
    if ok then (true, record m' { connected = true }) else (false, m')

unfoldable pub connect : ListIo → SensorManager → Bool × SensorManager
connect io m =
    if m.connected
    then (true, m)
    else if not io.has_service
    then (false, m)
    else listed io.is_ok io.listing m

-- getSensorList: BAD_VALUE for a nullptr, NO_INIT, or the list.
pub data SensorList : Type 0 where
  bad_value no_init : SensorList
  sensors : List Sensor → SensorList

unfoldable pub get_sensor_list : Bool → ListIo → SensorManager → SensorList × SensorManager
unfolding connect
get_sensor_list has_list io m =
    let (ok, m') = connect io m in
    if not has_list then (bad_value, m) else ((if ok then sensors m'.sensors else no_init), m')

-- == on int
abbrev pub same_int : ℤ → ℤ → Bool
same_int (pos a) (pos b) = a == b
same_int (negsuc a) (negsuc b) = a == b
same_int _ _ = false

abbrev pub find_handle : ℤ → List Sensor → Option Sensor
find_handle handle [] = none
find_handle handle (s ∷ ss) =
    let rest = find_handle handle ss in if same_int s.handle handle then some s else rest

-- getDefaultSensor of the remote: the handle that the callback is given where its result is OK, else
-- -1, and isOk.
unfoldable pub get_default_sensor :
    ListIo → ℤ → Bool → SensorManager → Option Sensor × SensorManager
unfolding connect
get_default_sensor io handle is_ok m =
    let (ok, m') = connect io m in
    ((if not ok || not is_ok then none else find_handle handle m'.sensors), m')

-- SensorEventQueue::initialize: whether the eventfd is there, and isOk of createEventQueue with whether
-- its callback was given a queue and a result of OK.
pub record QueueIo : Type 0 where
  pub has_fd : Bool
  pub is_ok : Bool
  pub has_remote : Bool

unfoldable pub initialize : Bool → QueueIo → Bool
initialize has_manager io =
    if not io.has_fd || not has_manager then false else io.is_ok && io.has_remote

-- createEventQueue: whether it gives a queue.
unfoldable pub create_event_queue : ℤ → ListIo → QueueIo → SensorManager → Bool × SensorManager
unfolding connect initialize
create_event_queue mode io queue_io m =
    let (ok, m') = connect io m in
    if not (is_zero mode)
    then (false, m)
    else ((if ok then initialize m'.connected queue_io else false), m')

pub data Call : Type 0 where
  list : Bool → ListIo → Call
  default : ListIo → ℤ → Bool → Call
  queue : ℤ → ListIo → QueueIo → Call

abbrev pub io_of : Call → ListIo
io_of (list b io) = io
io_of (default io handle ok) = io
io_of (queue mode io ok) = io

abbrev pub run : Call → SensorManager → SensorManager
run (list b io) m = (get_sensor_list b io m).1
run (default io handle ok) m = (get_default_sensor io handle ok m).1
run (queue mode io ok) m = (create_event_queue mode io ok m).1

unfoldable pub run_all : List Call → SensorManager → SensorManager
unfolding get_sensor_list get_default_sensor create_event_queue
run_all [] m = m
run_all (c ∷ cs) m = run_all cs (run c m)

-- A call leaves the manager or connects it.
run_ind {κ} :
    (P : SensorManager → Type κ) (c : Call) (m : SensorManager)
    → P m
    → P (connect (io_of c) m).1
    → P (run c m)
unfolding get_sensor_list get_default_sensor create_event_queue
run_ind P (list b io) m p q = if_ind (λ (r : SensorList × SensorManager). P r.1) (not b) p q
run_ind P (default io handle ok) m p q = q
run_ind P (queue mode io ok) m p q =
    if_ind (λ (r : Bool × SensorManager). P r.1) (not (is_zero mode)) p q

connect_again : (io : ListIo) (m : SensorManager) → m.connected ≡ true → (connect io m).1 ≡ m
unfolding connect
connect_again io m h =
    ap
      (λ b.
        (if b
          then (true, m)
          else if not io.has_service
          then (false, m)
          else listed io.is_ok io.listing m).1)
      h

-- Once the manager is connected, no calls change its list, so the pointers that gpsd has into it stay.
pub run_all_stays : (cs : List Call) (m : SensorManager) → m.connected ≡ true → run_all cs m ≡ m
unfolding run_all
run_all_stays [] m h = refl
run_all_stays (c ∷ cs) m h =
    let e = run_ind (λ k. k ≡ m) c m refl (connect_again (io_of c) m h) in
    run_all_stays cs (run c m) (subst (λ (k : SensorManager). k.connected ≡ true) (sym e) h) ∙ e

-- What the transport promises: the callback has run only in a transaction that is isOk.
abbrev pub IoFits : ListIo → Type 0
IoFits io = io.is_ok ≡ false → io.listing ≡ none

abbrev pub AllFit : List Call → Type 0
AllFit [] = Unit
AllFit (c ∷ cs) = IoFits (io_of c) × AllFit cs

-- The list of one of the calls.
abbrev pub WasListed : List Call → List Sensor → Type 0
WasListed [] ss = ⊥
WasListed (c ∷ cs) ss = ((io_of c).listing ≡ some ss) ⊎ WasListed cs ss

abbrev pub unconnected : SensorManager
unconnected = record { connected = false; sensors = [] }

connect_listed :
    (ok : Bool) (listing : Option (List Sensor))
    → (ok ≡ false → listing ≡ none)
    → let m = (listed ok listing unconnected).1 in
      (m ≡ unconnected) ⊎ ((m.connected ≡ true) × (listing ≡ some m.sensors))
connect_listed ok none f = inl refl
connect_listed true (some ss) f = inr (refl, refl)
connect_listed false (some ss) f = absurd (let e = f refl in cc)

connect_once :
    (io : ListIo)
    → IoFits io
    → let m = (connect io unconnected).1 in
      (m ≡ unconnected) ⊎ ((m.connected ≡ true) × (io.listing ≡ some m.sensors))
unfolding connect
connect_once io f =
    if_ind
      (λ (r : Bool × SensorManager).
        (r.1 ≡ unconnected) ⊎ ((r.1.connected ≡ true) × (io.listing ≡ some r.1.sensors)))
      (not io.has_service) (inl refl) (connect_listed io.is_ok io.listing f)

-- From the start, after any calls that the transport serves as it promises, the manager has no sensors
-- and is not connected, or it is connected and has exactly the list that one of the calls was given:
-- a failed attempt leaves nothing behind.
pub run_all_lists :
    (cs : List Call)
    → AllFit cs
    → let m = run_all cs unconnected in
      (m ≡ unconnected) ⊎ ((m.connected ≡ true) × WasListed cs m.sensors)
unfolding run_all
run_all_lists [] fits = inl refl
run_all_lists (c ∷ cs) fits =
    let k = run c unconnected in
    let Good : SensorManager → Type 0 =
      λ m. (m ≡ unconnected) ⊎ ((m.connected ≡ true) × WasListed (c ∷ cs) m.sensors) in
    let first : (k ≡ unconnected) ⊎ ((k.connected ≡ true) × ((io_of c).listing ≡ some k.sensors)) =
      run_ind
        (λ m. (m ≡ unconnected) ⊎ ((m.connected ≡ true) × ((io_of c).listing ≡ some m.sensors))) c
        unconnected (inl refl) (connect_once (io_of c) fits.0) in
    elim first [
      | inl e ↦
          subst (λ m. Good (run_all cs m)) (sym e)
            (elim (run_all_lists cs fits.1) [
              | inl none_yet ↦ inl none_yet
              | inr found ↦ inr (found.0, inr found.1)
            ])
      | inr now ↦ subst Good (sym (run_all_stays cs k now.0)) (inr (now.0, inl now.1))
    ]
