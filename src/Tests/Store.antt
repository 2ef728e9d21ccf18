-- ===== src/Tests/Store.antt =====
-- The files and the templates of fingerprint/FingerprintHAL.c, at concrete answers.
use android_device_meizu_m.Prelude.{
  ℕ, ◌≡◌, ◌≢◌, ◌≤◌, ◌<◌, refl, true, false, List, [], ◌∷◌, none, some, pos, neg, arith, map,
  le_bytes, le_value, codes,
}
use android_device_meizu_m.Posix.{einval}
use android_device_meizu_m.Posix.Exact.{
  Reads, Writes, read_exact, write_exact, Filled, Flushed, read_exact-Filled, write_exact-Flushed,
}
use android_device_meizu_m.Fingerprint.Types.{Metadata, max_templates}
use android_device_meizu_m.Fingerprint.Metadata.{
  metadata_path, encode, decode, stored, load_metadata_locked, random_u64, save_metadata_locked,
}
use android_device_meizu_m.Fingerprint.Metadata.Atomic.{Saved, SaveFits, save_metadata_locked-Saved}
use android_device_meizu_m.Fingerprint.Metadata.Genuine.{Loaded, load_metadata_locked-Loaded}
use android_device_meizu_m.Fingerprint.Metadata.{LoadIo}
use android_device_meizu_m.Fingerprint.Metadata.RoundTrip.{load-encode, random_u64-ne-zero}
use android_device_meizu_m.Fingerprint.Templates.{
  load_templates_locked, free_templates_locked, find_free_fid_locked,
}
use android_device_meizu_m.Fingerprint.Templates.Gallery.{
  Gallery, fid_of_print, loaded, free_prints, load_templates_locked-Gallery,
  free_templates_locked-Gallery,
}
use android_device_meizu_m.Fingerprint.Templates.FreeFid.{holds, find_free_fid_locked-least}
use android_device_meizu_m.Tests.Devices.{
  two_prints, two_prints-Gallery, resting, good_save, four_found,
}

abbrev two_reads : Reads
two_reads = Reads.got 1 (2 ∷ []) (Reads.interrupted (Reads.got 3 [] Reads.eof))

read_exact-Filled_test : Filled 3 (read_exact 3 two_reads)
read_exact-Filled_test =
    read_exact-Filled 3 two_reads (omega arith) (omega arith, (omega arith, tt))

write_exact-Flushed_test :
    Flushed (codes "abc") (write_exact (codes "abc") 3 (Writes.put 1 (Writes.failed 28)))
write_exact-Flushed_test =
    write_exact-Flushed (codes "abc") 3 (Writes.put 1 (Writes.failed 28)) refl (omega arith)
      (omega arith, omega arith)

abbrev good_save-Fits : SaveFits good_save
good_save-Fits = record {
  opened = tt;
  writes = (omega arith, (omega arith, tt));
  synced = tt;
  closed = tt;
  renamed = tt;
}

save_metadata_locked-Saved_example :
    Saved resting (encode (stored resting)) good_save (save_metadata_locked resting good_save)
save_metadata_locked-Saved_example = save_metadata_locked-Saved resting good_save good_save-Fits

-- All the bytes at once.
abbrev arriving : List ℕ → Reads
arriving [] = Reads.eof
arriving (b ∷ bs) = Reads.got b bs Reads.eof

load-encode_example :
    load_metadata_locked resting
      (record { opened = none; reads = arriving (encode (stored resting)) })
    ≡ (record resting { secure_user_id = 5; authenticator_id = 77 }, pos 0)
unfolding metadata_path encode read_exact le_bytes
load-encode_example =
    load-encode resting refl resting (arriving (encode (stored resting))) (omega arith)
      (omega arith) refl

-- A file of version 2.
abbrev foreign : Metadata
foreign = record (stored resting) { version = 2 }

load_metadata_locked-Loaded_example :
    let io : LoadIo = record { opened = none; reads = arriving (encode foreign) } in
    Loaded resting io (load_metadata_locked resting io)
unfolding encode le_bytes
load_metadata_locked-Loaded_example =
    load_metadata_locked-Loaded resting
      (record { opened = none; reads = arriving (encode foreign) }) (omega arith) (omega arith)

-- That file is refused.
load_foreign_test :
    load_metadata_locked resting (record { opened = none; reads = arriving (encode foreign) })
    ≡ (record resting { secure_user_id = 0; authenticator_id = 0 }, neg einval)
unfolding load_metadata_locked metadata_path encode read_exact decode le_bytes le_value
load_foreign_test = refl

random_u64-ne-zero_test : random_u64 (record { opened = none; reads = arriving (le_bytes 8 0) }) ≢ 0
unfolding le_bytes read_exact
random_u64-ne-zero_test = random_u64-ne-zero (arriving (le_bytes 8 0)) refl

load_templates_locked-Gallery_example :
    let e = (load_templates_locked resting (some four_found)).0 in
    Gallery e.slots (loaded (some four_found)) × (e ≡ record resting { slots = e.slots })
load_templates_locked-Gallery_example =
    load_templates_locked-Gallery resting (some four_found) two_prints two_prints-Gallery

free_templates_locked-Gallery_test :
    let r = free_templates_locked resting in
    Gallery r.0.slots []
    × (r.0 ≡ record resting { slots = r.0.slots })
    × (r.1 ≡ free_prints two_prints)
free_templates_locked-Gallery_test =
    free_templates_locked-Gallery resting two_prints two_prints-Gallery

find_free_fid_locked-least_example :
    let f = find_free_fid_locked resting in
    (0 < f)
    × (f ≤ max_templates)
    × (holds f (map fid_of_print two_prints) ≡ false)
    × ((a : ℕ) → 0 < a → a < f → holds a (map fid_of_print two_prints) ≡ true)
find_free_fid_locked-least_example =
    find_free_fid_locked-least resting two_prints two_prints-Gallery (omega arith)
