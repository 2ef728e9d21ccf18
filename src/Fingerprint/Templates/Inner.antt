-- ===== src/Fingerprint/Templates/Inner.antt =====
-- The effects of the functions of fingerprint/FingerprintHAL.c that are named _locked.
use android_device_meizu_m.Prelude.{
  ℕ, zero, suc, ◌+◌, ◌≡◌, refl, true, List, [], ◌∷◌, Option, none, some, map, ℤ, arith, get_or,
  if_ind, ◌==◌,
}
use android_device_meizu_m.Fingerprint.Types.{Slots, Device, Log, FileCall, file}
use android_device_meizu_m.Fingerprint.Tracks.{all_inner, all_inner-append}
use android_device_meizu_m.Fingerprint.Metadata.{random_u64, SaveIo, save_metadata_locked}
use android_device_meizu_m.Fingerprint.Templates.{
  Discovered, free_log, free_loop, free_slots, free_templates_locked, keep_print, load_one,
  load_loop, load_slots, load_templates_locked, usable, RotateIo, save_log,
  rotate_authenticator_locked,
}

pub free_log-inner : (o : Option ℕ) → all_inner (free_log o) ≡ true
free_log-inner none = refl
free_log-inner (some h) = refl

pub files-inner : (calls : List FileCall) → all_inner (map file calls) ≡ true
files-inner [] = refl
files-inner (c ∷ cs) = files-inner cs

free_loop-inner : (n i : ℕ) (s : Slots) → all_inner (free_loop n i s).1 ≡ true
unfolding free_loop
free_loop-inner zero i s = refl
free_loop-inner (suc n) i s =
    all_inner-append (free_log (get_or s.templates i none)) _ (free_log-inner _)
      (free_loop-inner n (i + 1) _)

free_slots-inner : (s : Slots) → all_inner (free_slots s).1 ≡ true
unfolding free_slots
free_slots-inner s = free_loop-inner s.template_count 0 s

pub free_templates_locked-inner : (d : Device) → all_inner (free_templates_locked d).1 ≡ true
unfolding free_templates_locked
free_templates_locked-inner d = free_slots-inner d.slots

keep_print-inner :
    (s : Slots) (f : Discovered) (o : Option ℕ) → all_inner (keep_print s f o).1 ≡ true
unfolding keep_print
keep_print-inner s f none = free_log-inner f.print
keep_print-inner s f (some h) = refl

load_one-inner : (s : Slots) (f : Discovered) → all_inner (load_one s f).1 ≡ true
unfolding load_one
load_one-inner s f = ground (arith, keep_print-inner s f (usable f))

load_loop-inner : (s : Slots) (fs : List Discovered) → all_inner (load_loop s fs).1 ≡ true
unfolding load_loop
load_loop-inner s [] = refl
load_loop-inner s (f ∷ fs) =
    all_inner-append (load_one s f).1 _ (load_one-inner s f) (load_loop-inner (load_one s f).0 fs)

load_slots-inner :
    (s : Slots) (found : Option (List Discovered)) → all_inner (load_slots s found).1 ≡ true
unfolding load_slots
load_slots-inner s none = free_slots-inner s
load_slots-inner s (some fs) =
    all_inner-append (free_slots s).1 _ (free_slots-inner s) (load_loop-inner _ fs)

pub load_templates_locked-inner :
    (d : Device) (found : Option (List Discovered))
    → all_inner (load_templates_locked d found).1 ≡ true
unfolding load_templates_locked
load_templates_locked-inner d found = load_slots-inner d.slots found

save_log-inner : (d : Device) (io : SaveIo) → all_inner (save_log d io).2 ≡ true
save_log-inner d io = files-inner (save_metadata_locked d io).1

pub rotate_authenticator_locked-inner :
    (d : Device) (io : RotateIo) → all_inner (rotate_authenticator_locked d io).2 ≡ true
unfolding rotate_authenticator_locked
rotate_authenticator_locked-inner d io =
    if_ind (λ (r : Device × ℤ × Log). all_inner r.2 ≡ true) (d.template_count == 0)
      (save_log-inner _ io.save)
      (if_ind (λ (r : Device × ℤ × Log). all_inner r.2 ≡ true) (random_u64 io.random == 0) refl
        (save_log-inner _ io.save))
