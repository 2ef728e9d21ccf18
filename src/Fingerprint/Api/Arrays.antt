-- ===== src/Fingerprint/Api/Arrays.antt =====
-- The arrays of templates of fingerprint/FingerprintHAL.c, over all calls and both workers.
use android_device_meizu_m.Prelude.{
  ℕ, ◌≡◌, refl, ap, ◌∙◌, Bool, true, not, ◌||◌, List, [], ◌∷◌, Option, none, some, ℤ, if◌then◌else◌,
  if_ind, arith, leb, length, ◌==◌,
}
use android_device_meizu_m.Posix.{path_max}
use android_device_meizu_m.Fingerprint.Types.{Device, Log, AuthToken, WorkerOperation}
use android_device_meizu_m.Fingerprint.Metadata.{load_metadata_locked}
use android_device_meizu_m.Fingerprint.Metadata.RoundTrip.{metadata_slots}
use android_device_meizu_m.Fingerprint.Templates.{
  load_templates_locked, RotateIo, rotate_authenticator_locked,
}
use android_device_meizu_m.Fingerprint.Templates.Arrays.{
  HasGallery, same_slots, rotate_slots, load_gallery,
}
use android_device_meizu_m.Fingerprint.Worker.{
  reap_finished_worker, start_worker_locked, stop_worker, stop_section,
}
use android_device_meizu_m.Fingerprint.Enroll.{EnrollIo, enroll_worker}
use android_device_meizu_m.Fingerprint.Enroll.Arrays.{enroll_worker-HasGallery}
use android_device_meizu_m.Fingerprint.Authenticate.{IdentifyRound, authenticate_worker}
use android_device_meizu_m.Fingerprint.Authenticate.Token.{authenticate_worker-Sound}
use android_device_meizu_m.Fingerprint.Api.Open.{OpenIo, fingerprint_open, fingerprint_open_empty}
use android_device_meizu_m.Fingerprint.Api.{
  fingerprint_set_notify, fingerprint_pre_enroll, enroll_section, start_enroll, fingerprint_enroll,
  fingerprint_post_enroll, fingerprint_get_authenticator_id, fingerprint_cancel,
  fingerprint_enumerate, RemoveIo, remove_section, fingerprint_remove, GroupIo, is_absolute,
  settle_id, group_section, fingerprint_set_active_group, authenticate_section,
  fingerprint_authenticate,
}
use android_device_meizu_m.Fingerprint.Api.Calls.{
  Call, set_notify, pre_enroll, enroll, post_enroll, get_authenticator_id, cancel, enumerate,
  remove, set_active_group, authenticate, after_call,
}

reap_slots : (d : Device) → (reap_finished_worker d).0.slots ≡ d.slots
unfolding reap_finished_worker
reap_slots d = ground arith

stop_slots : (d : Device) (send : Bool) (l : Option ℕ) → (stop_worker d send l).0.slots ≡ d.slots
unfolding stop_worker stop_section
stop_slots d send l = ground arith

start_slots :
    (d : Device) (operation : WorkerOperation) (created : ℕ)
    → (start_worker_locked d operation created).0.slots ≡ d.slots
unfolding start_worker_locked
start_slots d operation created = ground arith

enroll_slots :
    (d : Device) (token : Option AuthToken) (gid timeout_sec created : ℕ)
    → (fingerprint_enroll d token gid timeout_sec created).0.slots ≡ d.slots
unfolding fingerprint_enroll enroll_section start_enroll
enroll_slots d none gid timeout_sec created = refl
enroll_slots d (some token) gid timeout_sec created =
    let r = (reap_finished_worker d).0 in
    let started = record r {
      secure_user_id = token.user_id;
      enroll_timeout_sec = if timeout_sec == 0 then 60 else timeout_sec;
    } in
    ground (arith, reap_slots d, start_slots started WorkerOperation.enroll created)

authenticate_slots :
    (d : Device) (operation_id gid created : ℕ)
    → (fingerprint_authenticate d operation_id gid created).0.slots ≡ d.slots
unfolding fingerprint_authenticate authenticate_section
authenticate_slots d operation_id gid created =
    let r = (reap_finished_worker d).0 in
    let started = record r { operation_id = operation_id } in
    ground (arith, reap_slots d, start_slots started WorkerOperation.authenticate created)

enumerate_slots :
    (d : Device) (listener : Option ℕ) → (fingerprint_enumerate d listener).0.slots ≡ d.slots
unfolding fingerprint_enumerate
enumerate_slots d listener = ground (arith, reap_slots d)

remove_gallery :
    (d : Device) (gid fid : ℕ) (io : RemoveIo) (listener : Option ℕ)
    → HasGallery d
    → HasGallery (fingerprint_remove d gid fid io listener).0
unfolding fingerprint_remove remove_section
remove_gallery d gid fid io listener h =
    let r = (reap_finished_worker d).0 in
    let kept : HasGallery r = same_slots d r (reap_slots d) h in
    let after = (load_templates_locked r io.found).0 in
    if_ind (λ (x : Device × ℤ × Log). HasGallery x.0) (r.worker_active || not (gid == r.active_gid))
      kept
      (same_slots after (rotate_authenticator_locked after io.rotate).0
        (rotate_slots after io.rotate) (load_gallery r io.found kept))

settle_slots : (d : Device) (result : ℤ) (io : RotateIo) → (settle_id d result io).0.slots ≡ d.slots
unfolding settle_id
settle_slots d result io = ground (arith, rotate_slots d io)

section_gallery :
    (r : Device) (gid : ℕ) (path : List ℕ) (io : GroupIo)
    → HasGallery r
    → HasGallery (group_section r gid path io).0
unfolding group_section
section_gallery r gid path io h =
    let named = record r { store_path = path; active_gid = gid } in
    let loaded_device = (load_templates_locked named io.found).0 in
    let identified = load_metadata_locked loaded_device io.load in
    if_ind (λ (x : Device × ℤ × Log). HasGallery x.0) (leb path_max (length path)) h
      (same_slots loaded_device (settle_id identified.0 identified.1 io.rotate).0
        (settle_slots identified.0 identified.1 io.rotate ∙ metadata_slots loaded_device io.load)
        (load_gallery named io.found h))

group_gallery :
    (d : Device) (gid : ℕ) (path : Option (List ℕ)) (io : GroupIo)
    → HasGallery d
    → HasGallery (fingerprint_set_active_group d gid path io).0
unfolding fingerprint_set_active_group group_section
group_gallery d gid none io h = h
group_gallery d gid (some path) io h =
    let r = (reap_finished_worker d).0 in
    let kept : HasGallery r = same_slots d r (reap_slots d) h in
    if_ind (λ (x : Device × ℤ × Log). HasGallery x.0) (not (is_absolute path)) h
      (if_ind (λ (x : Device × ℤ × Log). HasGallery x.0) r.worker_active kept
        (section_gallery r gid path io kept))

-- Each call keeps the arrays in order.
after_call-HasGallery : (d : Device) (c : Call) → HasGallery d → HasGallery (after_call d c).0
unfolding after_call fingerprint_set_notify fingerprint_pre_enroll fingerprint_post_enroll
    fingerprint_get_authenticator_id fingerprint_cancel
after_call-HasGallery d (set_notify none) h = h
after_call-HasGallery d (set_notify (some l)) h = h
after_call-HasGallery d (pre_enroll io) h = h
after_call-HasGallery d (enroll token gid timeout_sec created) h =
    same_slots d (fingerprint_enroll d token gid timeout_sec created).0
      (enroll_slots d token gid timeout_sec created) h
after_call-HasGallery d post_enroll h = h
after_call-HasGallery d get_authenticator_id h = h
after_call-HasGallery d (cancel listener) h =
    same_slots d (stop_worker d true listener).0 (stop_slots d true listener) h
after_call-HasGallery d (enumerate listener) h =
    same_slots d (fingerprint_enumerate d listener).0 (enumerate_slots d listener) h
after_call-HasGallery d (remove gid fid io listener) h = remove_gallery d gid fid io listener h
after_call-HasGallery d (set_active_group gid path io) h = group_gallery d gid path io h
after_call-HasGallery d (authenticate operation_id gid created) h =
    same_slots d (fingerprint_authenticate d operation_id gid created).0
      (authenticate_slots d operation_id gid created) h

-- What happens to a device after another: a call, or the whole run of a worker, during which no call
-- touches the arrays (Busy). A run that does not end changes nothing.
pub data Turn : Type 0 where
  called : Call → Turn
  enrolled : EnrollIo → Turn
  authenticated : List IdentifyRound → Turn

abbrev left_by : Device → Option (Device × Log) → Device
left_by d none = d
left_by d (some r) = r.0

unfoldable pub after_turn : Device → Turn → Device
after_turn d (called c) = (after_call d c).0
after_turn d (enrolled io) = left_by d (enroll_worker d io)
after_turn d (authenticated rounds) = left_by d (authenticate_worker d rounds)

unfoldable pub after_turns : Device → List Turn → Device
unfolding after_turn
after_turns d [] = d
after_turns d (t ∷ ts) = after_turns (after_turn d t) ts

left_by-HasGallery :
    (d : Device) (o : Option (Device × Log))
    → HasGallery d
    → ((e : Device) (log : Log) → o ≡ some (e, log) → HasGallery e)
    → HasGallery (left_by d o)
left_by-HasGallery d none h k = h
left_by-HasGallery d (some r) h k = k r.0 r.1 refl

turn-HasGallery : (d : Device) (t : Turn) → HasGallery d → HasGallery (after_turn d t)
unfolding after_turn
turn-HasGallery d (called c) h = after_call-HasGallery d c h
turn-HasGallery d (enrolled io) h =
    left_by-HasGallery d (enroll_worker d io) h
      (λ e log eq. enroll_worker-HasGallery d e io log h eq)
turn-HasGallery d (authenticated rounds) h =
    left_by-HasGallery d (authenticate_worker d rounds) h (λ e log eq.
      same_slots d e (ap (λ (x : Device). x.slots) (authenticate_worker-Sound d e rounds log eq).0)
        h)

turns-HasGallery : (d : Device) (ts : List Turn) → HasGallery d → HasGallery (after_turns d ts)
unfolding after_turns
turns-HasGallery d [] h = h
turns-HasGallery d (t ∷ ts) h = turns-HasGallery (after_turn d t) ts (turn-HasGallery d t h)

-- From fingerprint_open on, after any calls and runs of workers, whatever the sensor, the files and the
-- threads answer, the arrays hold a list of at most five prints with their identifiers, in order and
-- with NULL and 0 behind them, and the count is the length of the list.
pub after_turns-HasGallery :
    (wanted : Bool) (io : OpenIo) (d : Device) (ts : List Turn)
    → (fingerprint_open wanted io).0 ≡ some d
    → HasGallery (after_turns d ts)
after_turns-HasGallery wanted io d ts h =
    turns-HasGallery d ts ([], (fingerprint_open_empty wanted io d h).0)
