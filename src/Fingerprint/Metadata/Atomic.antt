-- ===== src/Fingerprint/Metadata/Atomic.antt =====
-- The file calls of save_metadata_locked of fingerprint/FingerprintHAL.c.
use android_device_meizu_m.Prelude.{
  ℕ, ◌<◌, ◌≡◌, refl, sym, inl, inr, true, List, [], ◌∷◌, ◌++◌, none, some, ℤ, pos, negsuc, neg,
  if◌then◌else◌, if_case, ◌+◌, ◌⊎◌, ◌==◌, leb, codes, zero, suc, is_neg, subst, arith, length,
  length-append, take, le_bytes, length-le_bytes,
}
use android_device_meizu_m.Posix.Exact.{
  Writes, WritesFit, write_exact, Flushed, write_exact-Flushed,
}
use android_device_meizu_m.Posix.{path_max, enametoolong}
use android_device_meizu_m.Fingerprint.Types.{
  Metadata, Device, FileCall, open_temporary, written, fsync, close, rename, unlink,
}
use android_device_meizu_m.Fingerprint.Metadata.{
  Answer, metadata_name, metadata_path, encode, SaveIo, after_write, open_save,
  save_metadata_locked, stored,
}

-- The errno of a failed call is positive.
abbrev pub HasErrno : Answer → Type 0
HasErrno none = Unit
HasErrno (some e) = 0 < e

pub record SaveFits (io : SaveIo) : Type 0 where
  pub opened : HasErrno io.opened
  pub writes : WritesFit 24 io.writes
  pub synced : HasErrno io.synced
  pub closed : HasErrno io.closed
  pub renamed : HasErrno io.renamed

-- The store has no path, or the path of the temporary file does not fit: "/", the name of 25
-- characters, ".tmp" and the final 0 follow the path of the store.
abbrev pub HasNoPath : Device → Type 0
HasNoPath d = (length d.store_path ≡ 0) ⊎ (path_max < length d.store_path + 31)

-- The calls of a save that returns `r.0`, by the answers. On success every call succeeded, and all
-- bytes are written, synced and closed before the rename. On failure the old file has its name still,
-- the failed call is the one that its answer names, and a temporary file that was opened is unlinked.
pub data Saved (d : Device) (bytes : List ℕ) (io : SaveIo) : ℤ × List FileCall → Type 0 where
  committed :
      io.opened ≡ none
      → io.synced ≡ none
      → io.closed ≡ none
      → io.renamed ≡ none
      → Saved d bytes io (pos 0, open_temporary ∷ written bytes ∷ fsync ∷ close ∷ rename ∷ [])
  unopened : {r : ℤ} → HasNoPath d → is_neg r ≡ true → Saved d bytes io (r, [])
  not_created : {e : ℕ} → 0 < e → io.opened ≡ some e → Saved d bytes io (neg e, open_temporary ∷ [])
  short :
      {r : ℤ} (part : List ℕ)
      → io.opened ≡ none
      → is_neg r ≡ true
      → length part < length bytes
      → take (length part) bytes ≡ part
      → Saved d bytes io (r, open_temporary ∷ written part ∷ close ∷ unlink ∷ [])
  not_synced :
      {e : ℕ}
      → io.opened ≡ none
      → 0 < e
      → (io.synced ≡ some e) ⊎ ((io.synced ≡ none) × (io.closed ≡ some e))
      → Saved d bytes io (neg e, open_temporary ∷ written bytes ∷ fsync ∷ close ∷ unlink ∷ [])
  not_renamed :
      {e : ℕ}
      → io.opened ≡ none
      → io.synced ≡ none
      → io.closed ≡ none
      → 0 < e
      → io.renamed ≡ some e
      → Saved d bytes io
          (neg e, open_temporary ∷ written bytes ∷ fsync ∷ close ∷ rename ∷ unlink ∷ [])

length-encode : (m : Metadata) → length (encode m) ≡ 24
unfolding encode
length-encode m = omega (
  arith,
  length-append (le_bytes 4 m.magic)
      (le_bytes 4 m.version ++ (le_bytes 8 m.secure_user_id ++ le_bytes 8 m.authenticator_id)),
  length-append (le_bytes 4 m.version)
      (le_bytes 8 m.secure_user_id ++ le_bytes 8 m.authenticator_id),
  length-append (le_bytes 8 m.secure_user_id) (le_bytes 8 m.authenticator_id),
  length-le_bytes 4 m.magic,
  length-le_bytes 4 m.version,
  length-le_bytes 8 m.secure_user_id,
  length-le_bytes 8 m.authenticator_id,
)

-- From the result of write_exact on, by the answers that follow.
after_write-Saved :
    (d : Device) (bytes : List ℕ) (w : ℤ × List ℕ) (writes : Writes) (s c r : Answer)
    → HasErrno s
    → HasErrno c
    → HasErrno r
    → Flushed bytes w
    → Saved d bytes
        (record { opened = none; writes = writes; synced = s; closed = c; renamed = r })
        (let a = after_write w s c r in (a.0, open_temporary ∷ a.1))
unfolding after_write
after_write-Saved d bytes (pos zero, bs) ws none none none hs hc hr (inl (e, b)) =
    rw b (committed refl refl refl refl)
after_write-Saved d bytes (pos zero, bs) ws none none (some zero) hs hc hr (inl (e, b)) =
    elim hr [ ]
after_write-Saved d bytes (pos zero, bs) ws none none (some (suc x)) hs hc hr (inl (e, b)) =
    rw b (not_renamed refl refl refl hr refl)
after_write-Saved d bytes (pos zero, bs) ws none (some zero) r hs hc hr (inl (e, b)) = elim hc [ ]
after_write-Saved d bytes (pos zero, bs) ws none (some (suc x)) r hs hc hr (inl (e, b)) =
    rw b (not_synced refl hc (inr (refl, refl)))
after_write-Saved d bytes (pos zero, bs) ws (some zero) c r hs hc hr (inl (e, b)) = elim hs [ ]
after_write-Saved d bytes (pos zero, bs) ws (some (suc x)) c r hs hc hr (inl (e, b)) =
    rw b (not_synced refl hs (inl refl))
after_write-Saved d bytes (pos (suc n), bs) ws s c r hs hc hr (inl (e, b)) = cc
after_write-Saved d bytes (negsuc n, bs) ws s c r hs hc hr (inl (e, b)) = cc
after_write-Saved d bytes (pos zero, bs) ws s c r hs hc hr (inr (e, f, g)) = cc
after_write-Saved d bytes (pos (suc n), bs) ws s c r hs hc hr (inr (e, f, g)) = cc
after_write-Saved d bytes (negsuc n, bs) ws s c r hs hc hr (inr f) = short bs refl refl f.1 f.2

open_save-Saved :
    (d : Device) (bytes : List ℕ) (opened : Answer) (writes : Writes) (s c r : Answer)
    → length bytes ≡ 24
    → HasErrno opened
    → WritesFit 24 writes
    → HasErrno s
    → HasErrno c
    → HasErrno r
    → let io : SaveIo = record {
      opened = opened;
      writes = writes;
      synced = s;
      closed = c;
      renamed = r;
    } in
      Saved d bytes io (open_save bytes opened io)
unfolding open_save
open_save-Saved d bytes none writes s c r len h fit hs hc hr =
    after_write-Saved d bytes (write_exact bytes (length bytes) writes) writes s c r hs hc hr (
      write_exact-Flushed bytes (length bytes) writes refl (omega arith)
        (subst (λ n. WritesFit n writes) (sym len) fit))
open_save-Saved d bytes (some e) writes s c r len h fit hs hc hr = not_created h refl

-- A save replaces the metadata file with the whole encoded identity, after every call on the temporary
-- file succeeded. Or it fails, because the path does not fit, because not all bytes were written, or
-- with the errno of the first of open, fsync, close and rename that failed, and leaves the old file,
-- with the temporary one removed if it was opened. An errno is positive, and a write takes at most the
-- bytes it is given.
pub save_metadata_locked-Saved :
    (d : Device) (io : SaveIo)
    → SaveFits io
    → Saved d (encode (stored d)) io (save_metadata_locked d io)
unfolding save_metadata_locked metadata_path
save_metadata_locked-Saved d io fit =
    let bytes = encode (stored d) in
    let path = d.store_path ++ b'/' ∷ metadata_name in
    let last =
      open_save-Saved d bytes io.opened io.writes io.synced io.closed io.renamed
        (length-encode (stored d)) fit.opened fit.writes fit.synced fit.closed fit.renamed in
    let n : length path ≡ length d.store_path + 26 =
      length-append d.store_path (b'/' ∷ metadata_name) in
    let m : length (path ++ codes ".tmp") ≡ length d.store_path + 30 =
      omega (arith, n, length-append path (codes ".tmp")) in
    if_case
      (λ (p : ℤ × List ℕ). Saved d bytes io (
        if is_neg p.0
        then (p.0, [])
        else if leb path_max (length (p.1 ++ codes ".tmp"))
        then (neg enametoolong, [])
        else open_save bytes io.opened io))
      (length d.store_path == 0) (λ h. unopened (inl (ground arith)) refl)
      (λ _.
        if_case
          (λ z. Saved d bytes io (
            if is_neg z
            then (z, [])
            else if leb path_max (length (path ++ codes ".tmp"))
            then (neg enametoolong, [])
            else open_save bytes io.opened io))
          (leb path_max (length path)) (λ h. unopened (inr (ground (arith, n))) refl)
          (λ _.
            if_case (Saved d bytes io) (leb path_max (length (path ++ codes ".tmp")))
              (λ h. unopened (inr (ground (arith, m))) refl) (λ _. last)))
