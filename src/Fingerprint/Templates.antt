-- ===== src/Fingerprint/Templates.antt =====
-- The templates in memory, of fingerprint/FingerprintHAL.c: free_templates_locked,
-- load_templates_locked, rotate_authenticator_locked and find_free_fid_locked. What libfprint finds
-- in the store directory is an argument: for each print its finger, and the answers that the calls
-- of the loop get for it.
pub mod Gallery
pub mod FreeFid
pub mod Arrays
pub mod Inner
use android_device_meizu_m.Prelude.{
  ℕ, zero, suc, ◌+◌, ◌-◌, ◌%◌, ◌^◌, Bool, true, false, not, ◌&&◌, ◌||◌, List, [], ◌∷◌, ◌++◌, Option,
  none, some, map, ℤ, pos, neg, is_neg, is_zero, ltb, leb, ◌==◌, if◌then◌else◌, get_or, set,
}
use android_device_meizu_m.Posix.{eio}
use android_device_meizu_m.Fingerprint.Types.{
  Slots, Device, max_templates, Effect, Log, free_print, file,
}
use android_device_meizu_m.Fingerprint.Metadata.{RandomIo, random_u64, SaveIo, save_metadata_locked}

-- One entry of fp_discover_prints: fp_dscv_print_get_finger, the status and the print of
-- fp_print_data_from_dscv_print, and fp_dev_supports_print_data.
pub record Discovered : Type 0 where
  pub finger : ℕ
  pub status : ℤ
  pub print : Option ℕ
  pub supported : Bool

-- (uint32_t)fp_dscv_print_get_finger(...)
abbrev pub fid_of : Discovered → ℕ
fid_of f = f.finger % 2 ^ 32

-- fp_print_data_free, which ignores NULL
abbrev pub free_log : Option ℕ → Log
free_log none = []
free_log (some h) = free_print h ∷ []

-- The loop of free_templates_locked with `rounds` rounds left.
free_loop : ℕ → ℕ → Slots → Slots × Log
free_loop zero index s = (s, [])
free_loop (suc rounds) index s =
    let rest = free_loop rounds (index + 1) (record s {
      templates = set s.templates index none;
      template_ids = set s.template_ids index 0;
    }) in
    (rest.0, free_log (get_or s.templates index none) ++ rest.1)

free_slots : Slots → Slots × Log
unfolding free_loop
free_slots s = let r = free_loop s.template_count 0 s in (record r.0 { template_count = 0 }, r.1)

unfoldable pub free_templates_locked : Device → Device × Log
unfolding free_slots
free_templates_locked d = let r = free_slots d.slots in (record d { slots = r.0 }, r.1)

-- The print is in order: it was read, and the sensor supports it.
abbrev pub usable : Discovered → Option ℕ
usable f = if is_zero f.status && f.supported then f.print else none

-- The body of the loop of load_templates_locked after its first test.
keep_print : Slots → Discovered → Option ℕ → Slots × Log
keep_print s f none = (s, free_log f.print)
keep_print s f (some h) = (
  record {
    templates = set s.templates s.template_count (some h);
    template_ids = set s.template_ids s.template_count (fid_of f);
    template_count = s.template_count + 1;
  },
  [],
)

load_one : Slots → Discovered → Slots × Log
unfolding keep_print
load_one s f =
    if (fid_of f == 0 || ltb 10 (fid_of f)) || leb max_templates s.template_count
    then (s, [])
    else keep_print s f (usable f)

load_loop : Slots → List Discovered → Slots × Log
unfolding load_one
load_loop s [] = (s, [])
load_loop s (f ∷ fs) =
    let one = load_one s f in let rest = load_loop one.0 fs in (rest.0, one.1 ++ rest.1)

-- `none` is the NULL of fp_discover_prints.
load_slots : Slots → Option (List Discovered) → Slots × Log
unfolding free_slots load_loop
load_slots s none = free_slots s
load_slots s (some fs) =
    let freed = free_slots s in let r = load_loop freed.0 fs in (r.0, freed.1 ++ r.1)

-- The function returns 0 always.
unfoldable pub load_templates_locked : Device → Option (List Discovered) → Device × Log
unfolding load_slots
load_templates_locked d found = let r = load_slots d.slots found in (record d { slots = r.0 }, r.1)

pub record RotateIo : Type 0 where
  pub random : RandomIo
  pub save : SaveIo

-- A save on behalf of the device.
abbrev save_log : Device → SaveIo → Device × ℤ × Log
save_log d io = let r = save_metadata_locked d io in (d, r.0, map file r.1)

unfoldable pub rotate_authenticator_locked : Device → RotateIo → Device × ℤ × Log
rotate_authenticator_locked d io =
    let id = random_u64 io.random in
    if d.template_count == 0
    then save_log (record d { authenticator_id = 0 }) io.save
    else if id == 0
    then (record d { authenticator_id = 0 }, neg eio, [])
    else save_log (record d { authenticator_id = id }) io.save

-- The inner loop of find_free_fid_locked, from `index` on with `rounds` rounds left: is the
-- candidate used?
unfoldable pub is_used : ℕ → ℕ → List ℕ → ℕ → Bool
is_used zero index ids candidate = false
is_used (suc rounds) index ids candidate =
    let rest = is_used rounds (index + 1) ids candidate in
    if get_or ids index 0 == candidate then true else rest

-- The outer loop: `rounds` candidates are left.
find_loop : ℕ → ℕ → Device → ℕ
unfolding is_used
find_loop zero candidate d = 0
find_loop (suc rounds) candidate d =
    let rest = find_loop rounds (candidate + 1) d in
    if is_used d.template_count 0 d.template_ids candidate then rest else candidate

unfoldable pub find_free_fid_locked : Device → ℕ
unfolding find_loop
find_free_fid_locked d = find_loop max_templates 1 d
