-- ===== src/WebRtc.antt =====
-- src/webrtc/webrtc_manager.cpp and include/skai/webrtc/webrtc_manager.hpp: the LAN WebRTC sessions.
-- libdatachannel is what its calls answer and which callbacks it makes.
pub mod Session
pub mod MediaLoop
pub mod Manager
