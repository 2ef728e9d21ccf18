-- ===== src/Fingerprint/Metadata/Genuine.antt =====
-- The files from which load_metadata_locked of fingerprint/FingerprintHAL.c takes an identity.
use android_device_meizu_m.Prelude.{
  ℕ, zero, suc, ◌<◌, ◌≤◌, ◌+◌, ◌*◌, ◌≡◌, ◌≢◌, refl, sym, ap, ◌∙◌, subst, ◌⊎◌, inl, inr, true, not,
  ◌||◌, List, [], ◌∷◌, ◌++◌, none, some, ℤ, pos, neg, negsuc, is_neg, leb, ◌==◌, if◌then◌else◌,
  if_case, arith, length, take, drop, length-append, length-drop, take-append-drop, take_all, ◌/◌,
  ◌%◌, le_bytes, le_value, le_value-le_bytes, take-le_bytes, drop-le_bytes,
}
use android_device_meizu_m.Posix.{enoent, einval, path_max}
use android_device_meizu_m.Posix.Exact.{Reads, ReadsFit, read_exact, Filled, read_exact-Filled}
use android_device_meizu_m.Fingerprint.Types.{Metadata, Device, metadata_magic, metadata_version}
use android_device_meizu_m.Fingerprint.Metadata.{
  Answer, metadata_name, metadata_path, encode, decode, LoadIo, forget_ids, accept_metadata,
  read_metadata, load_metadata_locked, stored,
}

-- The elements are bytes.
abbrev pub AreBytes : List ℕ → Type 0
AreBytes [] = Unit
AreBytes (b ∷ bs) = (b < 256) × AreBytes bs

abbrev pub ReadBytes : Reads → Type 0
ReadBytes (Reads.failed e) = Unit
ReadBytes Reads.eof = Unit
ReadBytes (Reads.interrupted script) = ReadBytes script
ReadBytes (Reads.got b bs script) = (b < 256) × AreBytes bs × ReadBytes script

AreBytes-append : (xs ys : List ℕ) → AreBytes xs → AreBytes ys → AreBytes (xs ++ ys)
AreBytes-append [] ys p q = q
AreBytes-append (x ∷ xs) ys p q = (p.0, AreBytes-append xs ys p.1 q)

AreBytes-drop : (n : ℕ) (xs : List ℕ) → AreBytes xs → AreBytes (drop n xs)
AreBytes-drop zero xs p = p
AreBytes-drop (suc n) [] p = tt
AreBytes-drop (suc n) (x ∷ xs) p = AreBytes-drop n xs p.1

read_exact-AreBytes : (script : Reads) (n : ℕ) → ReadBytes script → AreBytes (read_exact n script).1
unfolding read_exact
read_exact-AreBytes script zero h = tt
read_exact-AreBytes (Reads.failed e) (suc n) h = tt
read_exact-AreBytes Reads.eof (suc n) h = tt
read_exact-AreBytes (Reads.interrupted script) (suc n) h = read_exact-AreBytes script (suc n) h
read_exact-AreBytes (Reads.got b bs script) (suc n) h =
    (h.0, AreBytes-append bs _ h.1 (read_exact-AreBytes script _ h.2))

-- A number that is read from bytes is written as these bytes.
le_bytes-le_value :
    (n : ℕ) (bs : List ℕ)
    → n ≤ length bs
    → AreBytes bs
    → le_bytes n (le_value (take n bs)) ≡ take n bs
unfolding le_bytes le_value
le_bytes-le_value zero bs h p = refl
le_bytes-le_value (suc n) [] h p = absurd (omega arith)
le_bytes-le_value (suc n) (b ∷ bs) h p =
    let v = le_value (take n bs) in
    let low : (b + 256 * v) % 256 ≡ b = omega (arith, p.0) in
    let high : (b + 256 * v) / 256 ≡ v = omega (arith, p.0) in
    rw (low, high, le_bytes-le_value n bs (omega arith) p.1) refl

encode-decode :
    (bytes : List ℕ) → length bytes ≡ 24 → AreBytes bytes → encode (decode bytes) ≡ bytes
unfolding encode decode
encode-decode bytes len p =
    let d1 = drop 4 bytes in
    let d2 = drop 4 d1 in
    let d3 = drop 8 d2 in
    let p1 = AreBytes-drop 4 bytes p in
    let p2 = AreBytes-drop 4 d1 p1 in
    let p3 = AreBytes-drop 8 d2 p2 in
    let l1 = length-drop 4 bytes in
    let l2 = length-drop 4 d1 in
    let l3 = length-drop 8 d2 in
    rw
      (
        le_bytes-le_value 4 bytes (omega arith) p,
        le_bytes-le_value 4 d1 (omega arith) p1,
        le_bytes-le_value 8 d2 (omega arith) p2,
        le_bytes-le_value 8 d3 (omega arith) p3,
        take_all 8 d3 (omega arith),
        take-append-drop 8 d2,
        take-append-drop 4 d1,
        take-append-drop 4 bytes,
      )
      refl

-- The magic number and the version of a saved identity are the right ones, whatever it is.
decode-stored :
    (d : Device)
    → ((decode (encode (stored d))).magic ≡ metadata_magic)
      × ((decode (encode (stored d))).version ≡ metadata_version)
unfolding encode decode
decode-stored d =
    simp (take-le_bytes, drop-le_bytes)
      (
        le_value-le_bytes 4 metadata_magic (omega arith),
        le_value-le_bytes 4 metadata_version (omega arith),
      )

-- The store has no path, or the path of the file does not fit: "/" and the name of 25 characters.
abbrev pub HasNoFile : Device → Type 0
HasNoFile d = (length d.store_path ≡ 0) ⊎ (path_max < length d.store_path + 27)

abbrev with_ids : ℕ → ℕ → Device → Device
with_ids user authenticator d = record d { secure_user_id = user; authenticator_id = authenticator }

-- What a load comes to, by the file. An identity is taken over only from the bytes that a save writes
-- for it. Otherwise none is left: without an error only if there is no file, and with -EINVAL if the
-- file has its 24 bytes and no save writes them, whatever the identity.
pub data Loaded (e : Device) (io : LoadIo) : Device × ℤ → Type 0 where
  genuine :
      (user authenticator : ℕ)
      → io.opened ≡ none
      → read_exact 24 io.reads ≡ (pos 0, encode (stored (with_ids user authenticator e)))
      → Loaded e io (with_ids user authenticator e, pos 0)
  absent : io.opened ≡ some enoent → Loaded e io (with_ids 0 0 e, pos 0)
  no_path : {r : ℤ} → HasNoFile e → is_neg r ≡ true → Loaded e io (with_ids 0 0 e, r)
  unopened : {x : ℕ} → io.opened ≡ some x → x ≢ enoent → Loaded e io (with_ids 0 0 e, neg x)
  cut_short :
      io.opened ≡ none
      → is_neg (read_exact 24 io.reads).0 ≡ true
      → Loaded e io (with_ids 0 0 e, (read_exact 24 io.reads).0)
  foreign :
      io.opened ≡ none
      → (read_exact 24 io.reads).0 ≡ pos 0
      → ((d : Device) → (read_exact 24 io.reads).1 ≢ encode (stored d))
      → Loaded e io (with_ids 0 0 e, neg einval)

-- A metadata record that the tests accept is one that is stored.
accepted_stored :
    (e : Device) (m : Metadata)
    → m.magic ≡ metadata_magic
    → m.version ≡ metadata_version
    → m ≡ stored (with_ids m.secure_user_id m.authenticator_id e)
accepted_stored e m magic version =
    let user = m.secure_user_id in
    let authenticator = m.authenticator_id in
    let with_head : ℕ → ℕ → Metadata = λ a b. record {
      magic = a;
      version = b;
      secure_user_id = user;
      authenticator_id = authenticator;
    } in
    ap (λ a. with_head a m.version) magic ∙ ap (with_head metadata_magic) version

accept-Loaded :
    (e : Device) (io : LoadIo) (z : ℤ) (bytes : List ℕ)
    → io.opened ≡ none
    → read_exact 24 io.reads ≡ (z, bytes)
    → Filled 24 (z, bytes)
    → AreBytes bytes
    → Loaded e io (accept_metadata (forget_ids e) z (decode bytes))
unfolding accept_metadata
accept-Loaded e io (pos (suc n)) bytes o r (inl (same, len)) p = cc
accept-Loaded e io (pos n) bytes o r (inr (bad, short)) p = cc
accept-Loaded e io (negsuc n) bytes o r (inl (same, len)) p = cc
accept-Loaded e io (negsuc n) bytes o r (inr (bad, short)) p =
    subst (λ z. Loaded e io (with_ids 0 0 e, z)) (ap (λ (x : ℤ × List ℕ). x.0) r)
      (cut_short o (ap (λ (x : ℤ × List ℕ). is_neg x.0) r))
accept-Loaded e io (pos zero) bytes o r (inl (same, len)) p =
    let m = decode bytes in
    if_case (Loaded e io) (not (m.magic == metadata_magic) || not (m.version == metadata_version))
      (λ bad. foreign o (ap (λ (x : ℤ × List ℕ). x.0) r) (λ d same_bytes.
        let w = ap decode (sym (ap (λ (x : ℤ × List ℕ). x.1) r) ∙ same_bytes) in
        let (magic, version) = decode-stored d in
        let a : m.magic ≡ metadata_magic = ap (λ (x : Metadata). x.magic) w ∙ magic in
        let b : m.version ≡ metadata_version = ap (λ (x : Metadata). x.version) w ∙ version in
        ground (arith, a, b)))
      (λ good. genuine m.secure_user_id m.authenticator_id o (
        r
        ∙ ap (λ (x : List ℕ). (pos 0, x))
            (sym (encode-decode bytes len p)
              ∙ ap encode (accepted_stored e m (ground arith) (ground arith)))))

read-Loaded :
    (e : Device) (opened : Answer) (reads : Reads)
    → ReadsFit 24 reads
    → ReadBytes reads
    → Loaded e
        (record { opened = opened; reads = reads })
        (read_metadata (forget_ids e) opened reads)
unfolding read_metadata
read-Loaded e none reads fit bytes =
    let r = read_exact 24 reads in
    accept-Loaded e (record { opened = none; reads = reads }) r.0 r.1 refl refl
      (read_exact-Filled 24 reads (omega arith) fit) (read_exact-AreBytes reads 24 bytes)
read-Loaded e (some x) reads fit bytes =
    let io : LoadIo = record { opened = some x; reads = reads } in
    if_case (λ z. Loaded e io (with_ids 0 0 e, z)) (x == enoent)
      (λ same. absent (ap some (ground arith)))
      (λ differs. unopened refl (λ same. ground (arith, same)))

-- A load takes over an identity only from a file with the very bytes that a save writes for this
-- identity. In every other case, a missing path, an error of open or read, or a file that no save
-- writes, it leaves no identity, and returns 0 only where the file does not exist. A read gives
-- bytes, at most as many as it is asked for.
pub load_metadata_locked-Loaded :
    (e : Device) (io : LoadIo)
    → ReadsFit 24 io.reads
    → ReadBytes io.reads
    → Loaded e io (load_metadata_locked e io)
unfolding load_metadata_locked metadata_path
load_metadata_locked-Loaded e io fit bytes =
    let path = e.store_path ++ b'/' ∷ metadata_name in
    let n : length path ≡ length e.store_path + 26 =
      length-append e.store_path (b'/' ∷ metadata_name) in
    let P : ℤ → Type 0 = λ z.
      Loaded e io
        (if is_neg z then (forget_ids e, z) else read_metadata (forget_ids e) io.opened io.reads) in
    if_case (λ (p : ℤ × List ℕ). P p.0) (length e.store_path == 0)
      (λ empty. no_path (inl (ground arith)) refl)
      (λ _.
        if_case P (leb path_max (length path)) (λ long. no_path (inr (ground (arith, n))) refl)
          (λ _. read-Loaded e io.opened io.reads fit bytes))
