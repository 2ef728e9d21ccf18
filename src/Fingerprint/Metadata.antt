-- ===== src/Fingerprint/Metadata.antt =====
-- The identity store of fingerprint/FingerprintHAL.c: random_u64, metadata_path,
-- load_metadata_locked and save_metadata_locked. The struct lies in memory without padding, its
-- integers in the little-endian order of the SoC.
pub mod Atomic
pub mod RoundTrip
pub mod Genuine
use android_device_meizu_m.Prelude.{
  ℕ, Bool, not, ◌||◌, List, [], ◌∷◌, ◌++◌, Option, none, some, ℤ, pos, neg, is_neg, is_zero, leb,
  ◌==◌, if◌then◌else◌, length, take, drop, codes, le_bytes, le_value,
}
use android_device_meizu_m.Posix.{enoent, einval, enametoolong, path_max}
use android_device_meizu_m.Posix.Exact.{Reads, Writes, read_exact, write_exact}
use android_device_meizu_m.Fingerprint.Types.{
  Metadata, metadata_magic, metadata_version, Device, FileCall, open_temporary, written, fsync,
  close, rename, unlink,
}

-- The answer of a call that returns 0, or -1 with an errno.
abbrev pub Answer : Type 0
Answer = Option ℕ

abbrev status_of : Answer → ℤ
status_of none = pos 0
status_of (some e) = neg e

pub record RandomIo : Type 0 where
  pub opened : Answer
  pub reads : Reads

random_value : ℤ × List ℕ → ℕ
random_value r =
    let value = le_value r.1 in if is_neg r.0 then 0 else if value == 0 then 1 else value

unfoldable pub random_u64 : RandomIo → ℕ
unfolding random_value
random_u64 io = elim io.opened [ some e ↦ 0 | none ↦ random_value (read_exact 8 io.reads) ]

abbrev pub metadata_name : List ℕ
metadata_name = codes ".m86-fingerprint-metadata"

-- The path, and whether it fits into `path_size` bytes.
unfoldable pub metadata_path : Device → ℕ → ℤ × List ℕ
metadata_path d path_size =
    let path = d.store_path ++ b'/' ∷ metadata_name in
    if length d.store_path == 0
    then (neg einval, [])
    else (if leb path_size (length path) then neg enametoolong else pos 0, path)

unfoldable pub encode : Metadata → List ℕ
encode m =
    le_bytes 4 m.magic
    ++ (le_bytes 4 m.version ++ (le_bytes 8 m.secure_user_id ++ le_bytes 8 m.authenticator_id))

unfoldable pub decode : List ℕ → Metadata
decode bytes = record {
  magic = le_value (take 4 bytes);
  version = le_value (take 4 (drop 4 bytes));
  secure_user_id = le_value (take 8 (drop 4 (drop 4 bytes)));
  authenticator_id = le_value (take 8 (drop 8 (drop 4 (drop 4 bytes))));
}

pub record LoadIo : Type 0 where
  pub opened : Answer
  pub reads : Reads

abbrev forget_ids : Device → Device
forget_ids d = record d { secure_user_id = 0; authenticator_id = 0 }

-- After read_exact: the checks, and the fields that are taken over.
accept_metadata : Device → ℤ → Metadata → Device × ℤ
accept_metadata d result m =
    if is_neg result || (not (m.magic == metadata_magic) || not (m.version == metadata_version))
    then (d, if is_neg result then result else neg einval)
    else (
      record d { secure_user_id = m.secure_user_id; authenticator_id = m.authenticator_id },
      pos 0,
    )

read_metadata : Device → Answer → Reads → Device × ℤ
unfolding accept_metadata
read_metadata d (some e) reads = (d, if e == enoent then pos 0 else neg e)
read_metadata d none reads = let r = read_exact 24 reads in accept_metadata d r.0 (decode r.1)

unfoldable pub load_metadata_locked : Device → LoadIo → Device × ℤ
unfolding read_metadata metadata_path
load_metadata_locked d io =
    let result = (metadata_path d path_max).0 in
    if is_neg result
    then (forget_ids d, result)
    else read_metadata (forget_ids d) io.opened io.reads

pub record SaveIo : Type 0 where
  pub opened : Answer
  pub writes : Writes
  pub synced : Answer
  pub closed : Answer
  pub renamed : Answer

-- A call that is made only while the result is 0, and decides it then.
abbrev next_status : ℤ → Answer → ℤ
next_status r a = if is_zero r then status_of a else r

abbrev call_if : Bool → FileCall → List FileCall
call_if b c = if b then c ∷ [] else []

-- From the result of write_exact to the end, by the answers of fsync, close and rename.
after_write : ℤ × List ℕ → Answer → Answer → Answer → ℤ × List FileCall
after_write w synced closed renamed =
    let r1 = next_status w.0 synced in
    let r2 = next_status r1 closed in
    let r3 = next_status r2 renamed in
    (
      r3,
      written w.1
          ∷ (call_if (is_zero w.0) fsync
              ++ (close ∷ (call_if (is_zero r2) rename ++ call_if (is_neg r3) unlink))),
    )

abbrev pub stored : Device → Metadata
stored d = record {
  magic = metadata_magic;
  version = metadata_version;
  secure_user_id = d.secure_user_id;
  authenticator_id = d.authenticator_id;
}

-- From the answer of open to the end.
open_save : List ℕ → Answer → SaveIo → ℤ × List FileCall
unfolding after_write
open_save bytes (some e) io = (neg e, open_temporary ∷ [])
open_save bytes none io =
    let r =
      after_write (write_exact bytes (length bytes) io.writes) io.synced io.closed io.renamed in
    (r.0, open_temporary ∷ r.1)

unfoldable pub save_metadata_locked : Device → SaveIo → ℤ × List FileCall
unfolding open_save metadata_path
save_metadata_locked d io =
    let p = metadata_path d path_max in
    if is_neg p.0
    then (p.0, [])
    else if leb path_max (length (p.1 ++ codes ".tmp"))
    then (neg enametoolong, [])
    else open_save (encode (stored d)) io.opened io
