-- ===== src/Tests/Entries.antt =====
-- The entry points of fingerprint/FingerprintHAL.c at concrete calls.
use android_device_meizu_m.Prelude.{
  false, ℕ, ◌≡◌, ◌↔◌, refl, true, [], some, pos, is_zero, is_some, codes, List, [], ◌∷◌,
  if◌then◌else◌,
}
use android_device_meizu_m.Fingerprint.Tracks.{IsDisciplined, track}
use android_device_meizu_m.Fingerprint.Api.{fingerprint_enroll, fingerprint_close}
use android_device_meizu_m.Fingerprint.Api.Calls.{Call, after_call}
use android_device_meizu_m.Fingerprint.Api.Busy.{SameWork, after_call-SameWork}
use android_device_meizu_m.Fingerprint.Api.Discipline.{after_call-IsDisciplined}
use android_device_meizu_m.Fingerprint.Api.Enrolling.{MayEnroll, fingerprint_enroll_accepts}
use android_device_meizu_m.Fingerprint.Api.Open.{OpenIo, new_device, fingerprint_open}
use android_device_meizu_m.Fingerprint.Api.Open.Resources.{
  held_step, nothing, holding, fingerprint_open_holds, fingerprint_close_releases,
}
use android_device_meizu_m.Fingerprint.Templates.Arrays.{HasGallery}
use android_device_meizu_m.Fingerprint.Api.Arrays.{
  Turn, called, after_turns, after_turns-HasGallery,
}
use android_device_meizu_m.Posix.Exact.{Reads}
use android_device_meizu_m.Tests.Devices.{
  two_prints, two_prints-Gallery, resting, authenticating, good_rotation, four_found, token,
}

-- Removing every finger while an authentication runs, and while none does.
abbrev remove_all : Call
remove_all =
    Call.remove 10 0
      (record { deleted = λ fid. pos 0; found = some four_found; rotate = good_rotation }) (some 7)

after_call-SameWork_example : SameWork authenticating (after_call authenticating remove_all).0
after_call-SameWork_example = after_call-SameWork authenticating remove_all refl

after_call-IsDisciplined_example : IsDisciplined (after_call resting remove_all).1
after_call-IsDisciplined_example = after_call-IsDisciplined resting remove_all

fingerprint_enroll_accepts_example :
    ((fingerprint_enroll resting (some token) 10 0 0).1 ≡ pos 0)
    ↔ (MayEnroll resting token 10 × (◌≡◌ {A = ℕ} 0 0))
fingerprint_enroll_accepts_example = fingerprint_enroll_accepts resting token 10 0 0

-- No mutex, and all that is wanted.
abbrev no_mutex : OpenIo
no_mutex = record { init = pos 0; discovered = true; allocated = true; sensor = true; mutex = 11 }

abbrev all_there : OpenIo
all_there = record no_mutex { mutex = 0 }

fingerprint_open_holds_test :
    (is_zero (fingerprint_open true no_mutex).1 ≡ is_some (fingerprint_open true no_mutex).0)
    × (track held_step (fingerprint_open true no_mutex).2 nothing
        ≡ some (if is_some (fingerprint_open true no_mutex).0 then holding false [] else nothing))
fingerprint_open_holds_test = fingerprint_open_holds true no_mutex

-- A group with two prints, and the removal of them all.
abbrev two_turns : List Turn
two_turns =
    called (
      Call.set_active_group 10 (some (codes "/data")) (record {
        found = some four_found;
        load = record { opened = some 2; reads = Reads.eof };
        rotate = good_rotation;
      }))
    ∷ called remove_all
    ∷ []

after_turns-HasGallery_example : HasGallery (after_turns new_device two_turns)
unfolding fingerprint_open
after_turns-HasGallery_example = after_turns-HasGallery true all_there new_device two_turns refl

fingerprint_close_releases_example :
    track held_step (fingerprint_close (some authenticating)).1 (holding true (101 ∷ 102 ∷ []))
    ≡ some nothing
fingerprint_close_releases_example =
    fingerprint_close_releases authenticating two_prints two_prints-Gallery
