-- ===== src/Posix/Exact.antt =====
-- read_exact and write_exact of fingerprint/FingerprintHAL.c.
use android_device_meizu_m.Prelude.{
  ℕ, zero, suc, ◌+◌, ◌-◌, ◌%◌, ◌^◌, ◌≤◌, ◌<◌, ◌≡◌, refl, ap, sym, ◌∙◌, subst, ◌⊎◌, inl, inr, true,
  List, [], ◌∷◌, ◌++◌, ℤ, pos, neg, is_neg, is_neg-neg, arith, length, take, drop, length-append,
  length-take, length-drop, take-append-drop, take-add,
}
use android_device_meizu_m.Posix.{eio}

-- The answers of read(2), in order: the bytes of a positive count, EINTR, the end of the file
-- (a count of 0), or another errno.
pub data Reads : Type 0 where
  failed : ℕ → Reads
  eof : Reads
  interrupted : Reads → Reads
  got : ℕ → List ℕ → Reads → Reads

-- The answers of write(2), where `put k` is a count of k + 1.
pub data Writes : Type 0 where
  failed : ℕ → Writes
  stalled : Writes
  interrupted : Writes → Writes
  put : ℕ → Writes → Writes

-- length -= (size_t)count
abbrev sub_size : ℕ → ℕ → ℕ
sub_size length count = (length + 2 ^ 64 - count) % 2 ^ 64

-- The status, and the bytes that arrived in the buffer.
unfoldable pub read_exact : ℕ → Reads → ℤ × List ℕ
read_exact zero script = (pos 0, [])
read_exact (suc n) (Reads.failed e) = (neg e, [])
read_exact (suc n) Reads.eof = (neg eio, [])
read_exact (suc n) (Reads.interrupted script) = read_exact (suc n) script
read_exact (suc n) (Reads.got b bs script) =
    let rest = read_exact (sub_size (suc n) (suc (length bs))) script in (rest.0, b ∷ bs ++ rest.1)

-- The status, and the bytes that the file took; the arguments are `cursor` and `length`.
unfoldable pub write_exact : List ℕ → ℕ → Writes → ℤ × List ℕ
write_exact cursor zero script = (pos 0, [])
write_exact cursor (suc n) (Writes.failed e) = (neg e, [])
write_exact cursor (suc n) Writes.stalled = (neg eio, [])
write_exact cursor (suc n) (Writes.interrupted script) = write_exact cursor (suc n) script
write_exact cursor (suc n) (Writes.put k script) =
    let rest = write_exact (drop (suc k) cursor) (sub_size (suc n) (suc k)) script in
    (rest.0, take (suc k) cursor ++ rest.1)

-- What read(2) promises: at most the bytes asked for, and a positive errno.
abbrev pub ReadsFit : ℕ → Reads → Type 0
ReadsFit n (Reads.failed e) = 0 < e
ReadsFit n Reads.eof = Unit
ReadsFit n (Reads.interrupted script) = ReadsFit n script
ReadsFit n (Reads.got b bs script) = (suc (length bs) ≤ n) × ReadsFit (n - suc (length bs)) script

-- What write(2) promises.
abbrev pub WritesFit : ℕ → Writes → Type 0
WritesFit n (Writes.failed e) = 0 < e
WritesFit n Writes.stalled = Unit
WritesFit n (Writes.interrupted script) = WritesFit n script
WritesFit n (Writes.put k script) = (suc k ≤ n) × WritesFit (n - suc k) script

sub_size-eq : (n k : ℕ) → n < 2 ^ 64 → k ≤ n → sub_size n k ≡ n - k
sub_size-eq n k h le = omega arith

-- A status of 0 with a full buffer, or a negative one with fewer bytes.
abbrev pub Filled : ℕ → ℤ × List ℕ → Type 0
Filled n r = ((r.0 ≡ pos 0) × (length r.1 ≡ n)) ⊎ ((is_neg r.0 ≡ true) × (length r.1 < n))

Filled-chunk :
    (n : ℕ) (front : List ℕ) (r : ℤ × List ℕ)
    → length front ≤ n
    → Filled (n - length front) r
    → Filled n (r.0, front ++ r.1)
Filled-chunk n front r le (inl (a, b)) = inl (a, omega (arith, length-append front r.1))
Filled-chunk n front r le (inr (a, b)) = inr (a, omega (arith, length-append front r.1))

-- read_exact, however the kernel cuts and interrupts the bytes, returns 0 with the buffer full, or a
-- negative status with fewer bytes.
pub read_exact-Filled :
    (n : ℕ) (script : Reads) → n < 2 ^ 64 → ReadsFit n script → Filled n (read_exact n script)
unfolding read_exact
read_exact-Filled zero script h fit = inl (refl, refl)
read_exact-Filled (suc n) (Reads.failed e) h fit = inr (is_neg-neg e fit, omega arith)
read_exact-Filled (suc n) Reads.eof h fit = inr (refl, omega arith)
read_exact-Filled (suc n) (Reads.interrupted script) h fit = read_exact-Filled (suc n) script h fit
read_exact-Filled (suc n) (Reads.got b bs script) h fit =
    subst (λ m. Filled (suc n) ((read_exact m script).0, b ∷ bs ++ (read_exact m script).1))
      (sym (sub_size-eq (suc n) (suc (length bs)) h fit.0))
      (Filled-chunk (suc n) (b ∷ bs) _ fit.0
        (read_exact-Filled (suc n - suc (length bs)) script (omega arith) fit.1))

-- A status of 0 and the whole buffer, or a negative one and a shorter prefix of it.
abbrev pub Flushed : List ℕ → ℤ × List ℕ → Type 0
Flushed buffer r =
    ((r.0 ≡ pos 0) × (r.1 ≡ buffer))
    ⊎ ((is_neg r.0 ≡ true) × (length r.1 < length buffer) × (take (length r.1) buffer ≡ r.1))

Flushed-chunk :
    (k : ℕ) (buffer : List ℕ) (r : ℤ × List ℕ)
    → k ≤ length buffer
    → Flushed (drop k buffer) r
    → Flushed buffer (r.0, take k buffer ++ r.1)
Flushed-chunk k buffer r le (inl (a, b)) = inl (a, rw b (take-append-drop k buffer))
Flushed-chunk k buffer r le (inr (a, b, c)) = inr (
  a,
  omega (arith, length-append (take k buffer) r.1, length-take k buffer, length-drop k buffer),
  ap (λ m. take m buffer) (omega (arith, length-append (take k buffer) r.1, length-take k buffer))
      ∙ take-add k (length r.1) buffer
      ∙ ap (◌++◌ (take k buffer)) c,
)

-- write_exact, however the kernel cuts and interrupts the bytes, returns 0 after the whole buffer in
-- order, or a negative status after a shorter prefix of it.
pub write_exact-Flushed :
    (buffer : List ℕ) (n : ℕ) (script : Writes)
    → n ≡ length buffer
    → n < 2 ^ 64
    → WritesFit n script
    → Flushed buffer (write_exact buffer n script)
unfolding write_exact
write_exact-Flushed [] zero script e h fit = inl (refl, refl)
write_exact-Flushed (b ∷ buffer) zero script e h fit = absurd (omega arith)
write_exact-Flushed buffer (suc n) (Writes.failed x) e h fit =
    inr (is_neg-neg x fit, omega arith, refl)
write_exact-Flushed buffer (suc n) Writes.stalled e h fit = inr (refl, omega arith, refl)
write_exact-Flushed buffer (suc n) (Writes.interrupted script) e h fit =
    write_exact-Flushed buffer (suc n) script e h fit
write_exact-Flushed buffer (suc n) (Writes.put k script) e h fit =
    subst
      (λ m. Flushed buffer (
        (
          (write_exact (drop (suc k) buffer) m script).0,
          take (suc k) buffer ++ (write_exact (drop (suc k) buffer) m script).1,
        )))
      (sym (sub_size-eq (suc n) (suc k) h fit.0))
      (Flushed-chunk (suc k) buffer _ (omega arith) (
        write_exact-Flushed (drop (suc k) buffer) (suc n - suc k) script
          (omega (arith, length-drop (suc k) buffer)) (omega arith) fit.1))
