-- ===== src/Fingerprint/Enroll/TwoErrors.antt =====
-- enroll_worker of fingerprint/FingerprintHAL.c with a failing sensor at the deadline.
use mathlib.Core.Option
use android_device_meizu_m.Prelude.{
  ℕ, ◌+◌, ◌≡◌, refl, true, false, List, [], ◌∷◌, ◌++◌, Option, none, some, leb,
}
use android_device_meizu_m.Fingerprint.Types.{Device, hw_unavailable, timeout, Message, error, Log}
use android_device_meizu_m.Fingerprint.Tracks.{messages}
use android_device_meizu_m.Fingerprint.Templates.{free_log}
use android_device_meizu_m.Fingerprint.Enroll.{
  negative, EnrollRound, enroll_switch, enroll_round, enroll_next, enroll_loop, EnrollIo,
  enroll_end, enroll_worker,
}

-- The messages of a run that ends.
abbrev pub sent : Option (Device × Log) → Option (List Message)
sent = Option.map (λ (r : Device × Log). messages r.1)

tail_messages : (held : Option ℕ) (log : Log) → messages (free_log held ++ log) ≡ messages log
tail_messages none log = refl
tail_messages (some h) log = refl

-- When fp_enroll_finger fails in the first round, the worker is not cancelled, and the deadline has
-- passed by the end of the loop, the framework gets two errors: that of the sensor and the timeout.
pub enroll_worker_two_errors :
    (d : Device) (io : EnrollIo) (r : EnrollRound) (rs : List EnrollRound) (l l' : ℕ)
    → io.rounds ≡ r ∷ rs
    → r.cancelled_before ≡ false
    → leb (io.started + d.enroll_timeout_sec) r.now ≡ false
    → r.cancelled_after ≡ false
    → r.status ≡ negative
    → r.listener ≡ some l
    → io.cancelled_at_end ≡ false
    → leb (io.started + d.enroll_timeout_sec) io.now_at_end ≡ true
    → io.listener_at_end ≡ some l'
    → sent (enroll_worker d io) ≡ some (error hw_unavailable ∷ error timeout ∷ [])
unfolding enroll_worker
enroll_worker_two_errors d io r rs l l' hr hb hn ha hs hl hc ht hl' =
    simp
      (
        hr, hb, hn, ha, hs, hl, hc, ht, hl', enroll_loop, enroll_round, enroll_switch, enroll_next,
        enroll_end, tail_messages,
      )
      refl
