-- ===== src/Fingerprint/Api/Enrolling.antt =====
-- Which calls may start an enrollment of fingerprint/FingerprintHAL.c.
use android_device_meizu_m.Prelude.{ℕ, ◌≡◌, ◌≢◌, ◌<◌, ◌↔◌, true, false, some, pos, arith, length}
use android_device_meizu_m.Fingerprint.Types.{
  Device, max_templates, AuthToken, hw_auth_token_version,
}
use android_device_meizu_m.Fingerprint.Worker.{reap_finished_worker, start_worker_locked}
use android_device_meizu_m.Fingerprint.Api.{
  has_password, enroll_refusal, start_enroll, enroll_section, fingerprint_enroll,
}

-- What an enrollment asks for: no worker that runs, a token of the current version and of a password
-- for the challenge of pre_enroll, the active group, and a free place.
pub record MayEnroll (d : Device) (token : AuthToken) (gid : ℕ) : Type 0 where
  pub version : token.version ≡ hw_auth_token_version
  pub no_worker : d.worker_active ≡ false
  pub has_store : length d.store_path ≢ 0
  pub group : gid ≡ d.active_gid
  pub challenge : token.challenge ≡ d.challenge
  pub password : has_password token ≡ true
  pub room : d.template_count < max_templates

-- fingerprint_enroll returns 0 exactly when there may be an enrollment and the thread starts.
pub fingerprint_enroll_accepts :
    (d : Device) (token : AuthToken) (gid timeout_sec created : ℕ)
    → ((fingerprint_enroll d (some token) gid timeout_sec created).1 ≡ pos 0)
      ↔ (MayEnroll d token gid × (created ≡ 0))
unfolding fingerprint_enroll enroll_section enroll_refusal start_enroll start_worker_locked
    reap_finished_worker
fingerprint_enroll_accepts d token gid timeout_sec created = (
  λ h. (
    record {
      version = ground arith;
      no_worker = ground arith;
      has_store = ground arith;
      group = ground arith;
      challenge = ground arith;
      password = ground arith;
      room = ground arith;
    },
    ground arith,
  ),
  λ p.
      let m = p.0 in
      ground
        (arith, m.version, m.no_worker, m.has_store, m.group, m.challenge, m.password, m.room, p.1),
)
