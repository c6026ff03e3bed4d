-- ===== src/Whip.antt =====
-- src/webrtc/whip_policy.cpp and whip_policy.hpp: the policies of the WHIP uplink, apart from its
-- network calls.
pub mod ResourceUrl
pub mod RtpClock
pub mod Peer
pub mod Publisher
mod Tests
