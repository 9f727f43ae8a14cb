-- ===== src/Hmac.antt =====
-- hmac/: the signed streams of requests to the control plane.
pub mod Bytes
pub mod Stream
pub mod Frames
pub mod Steps
pub mod RoundTrip
pub mod Accepted
pub mod Authentic
pub mod Unforged
pub mod Reads
