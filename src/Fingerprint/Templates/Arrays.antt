-- ===== src/Fingerprint/Templates/Arrays.antt =====
-- That the arrays of templates of fingerprint/FingerprintHAL.c hold a list, through the functions that
-- change them.
use android_device_meizu_m.Prelude.{◌≡◌, subst, sym, List, Option, arith}
use android_device_meizu_m.Fingerprint.Types.{Device}
use android_device_meizu_m.Fingerprint.Templates.{
  Discovered, load_templates_locked, RotateIo, rotate_authenticator_locked,
}
use android_device_meizu_m.Fingerprint.Templates.Gallery.{
  Print, Gallery, loaded, load_templates_locked-Gallery,
}

-- The arrays and the count hold some list of prints.
abbrev pub HasGallery : Device → Type 0
HasGallery d = (ps : List Print) × Gallery d.slots ps

pub same_slots : (d e : Device) → e.slots ≡ d.slots → HasGallery d → HasGallery e
same_slots d e h (ps, g) = (ps, subst (λ s. Gallery s ps) (sym h) g)

pub rotate_slots :
    (d : Device) (io : RotateIo) → (rotate_authenticator_locked d io).0.slots ≡ d.slots
unfolding rotate_authenticator_locked
rotate_slots d io = ground arith

pub load_gallery :
    (d : Device) (found : Option (List Discovered))
    → HasGallery d
    → HasGallery (load_templates_locked d found).0
load_gallery d found (ps, g) = (loaded found, (load_templates_locked-Gallery d found ps g).0)
