-- ===== src/Sei.antt =====
-- src/webrtc/detection_sei.cpp: detections carried as H.264 SEI on the WHIP stream.
pub mod Nal
pub mod Insert
pub mod Json
pub mod Sort
pub mod Fit
pub mod Selector
mod Tests
