-- ===== src/Fingerprint.antt =====
-- fingerprint/FingerprintHAL.c: the m86 fingerprint HAL.
pub mod Types
pub mod Tracks
pub mod Metadata
pub mod Templates
pub mod Worker
pub mod Enroll
pub mod Authenticate
pub mod Api
