-- ===== src/App.antt =====
-- tep/hb_tep_app.py: the HB-TEP-APP/1 envelopes and the replay cache.
pub mod Hex
pub mod Envelope
pub mod Validity
pub mod Replay
pub mod Message
pub mod Sorted
