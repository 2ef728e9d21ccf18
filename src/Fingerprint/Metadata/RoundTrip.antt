-- ===== src/Fingerprint/Metadata/RoundTrip.antt =====
-- load_metadata_locked and random_u64 of fingerprint/FingerprintHAL.c by the bytes that arrive.
use Prim.Native.Nat.{◌^◌}
use android_device_meizu_m.Prelude.{
  some, ◌<◌, ◌≡◌, refl, ◌≢◌, false, none, pos, is_neg, arith, le_value-le_bytes, take-le_bytes,
  take-le_bytes_all, drop-le_bytes,
}
use android_device_meizu_m.Posix.Exact.{Reads, read_exact}
use android_device_meizu_m.Posix.{path_max}
use android_device_meizu_m.Fingerprint.Types.{Metadata, Device}
use android_device_meizu_m.Fingerprint.Metadata.{
  random_u64, metadata_path, encode, decode, load_metadata_locked, LoadIo, Answer, read_metadata,
  accept_metadata, forget_ids, stored,
}

-- The parts are in the ranges of their types.
pub decode-encode :
    (m : Metadata)
    → m.magic < 2 ^ 32
    → m.version < 2 ^ 32
    → m.secure_user_id < 2 ^ 64
    → m.authenticator_id < 2 ^ 64
    → decode (encode m) ≡ m
unfolding encode decode
decode-encode m ha hb hc hd =
    simp (take-le_bytes, take-le_bytes_all, drop-le_bytes)
      (cc (
        le_value-le_bytes 4 m.magic ha,
        le_value-le_bytes 4 m.version hb,
        le_value-le_bytes 8 m.secure_user_id hc,
        le_value-le_bytes 8 m.authenticator_id hd,
      ))

module _ (e : Device) (named : is_neg (metadata_path e path_max).0 ≡ false) where
  -- A load of the bytes that a save of `d` wrote restores the identity of `d`.
  pub load-encode :
      (d : Device) (reads : Reads)
      → d.secure_user_id < 2 ^ 64
      → d.authenticator_id < 2 ^ 64
      → read_exact 24 reads ≡ (pos 0, encode (stored d))
      → load_metadata_locked e (record { opened = none; reads = reads }) ≡ (
        record e { secure_user_id = d.secure_user_id; authenticator_id = d.authenticator_id },
        pos 0,
      )
  unfolding load_metadata_locked
  load-encode d reads hu ha r =
      rw (named, r, decode-encode (stored d) (omega arith) (omega arith) hu ha) refl

-- The random identifier is not 0 whenever the file opens and its eight bytes arrive.
pub random_u64-ne-zero :
    (reads : Reads)
    → (read_exact 8 reads).0 ≡ pos 0
    → random_u64 (record { opened = none; reads = reads }) ≢ 0
unfolding random_u64
random_u64-ne-zero reads e = ground arith

read_slots :
    (d : Device) (opened : Answer) (reads : Reads)
    → (read_metadata d opened reads).0.slots ≡ d.slots
unfolding read_metadata accept_metadata
read_slots d (some e) reads = refl
read_slots d none reads = ground arith

pub metadata_slots : (d : Device) (io : LoadIo) → (load_metadata_locked d io).0.slots ≡ d.slots
unfolding load_metadata_locked
metadata_slots d io = ground (arith, read_slots (forget_ids d) io.opened io.reads)
