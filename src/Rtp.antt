-- ===== src/Rtp.antt =====
-- core/rtp: the RTP media engine.
pub mod Packet
pub mod Stats
pub mod Recorder
pub mod Jitter
pub mod Session
pub mod Sender
pub mod Dtmf
pub mod Srtp
pub mod Rtcp
pub mod Receive
pub mod SrtpStream
pub mod Reactor
