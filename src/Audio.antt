-- ===== src/Audio.antt =====
-- core/audio: what is played into a call.
pub mod Pcap
pub mod Frames
