-- ===== src/Sip.antt =====
-- sip: SIP signalling and call control.
pub mod HealthCheck
pub mod Call
pub mod Uas
pub mod Register
pub mod Sdp
pub mod Dial
pub mod Loop
pub mod Server
