-- ===== src/Rpc.antt =====
-- crates/nagisalake-rpc: the binary RPC between services, from status codes to the byte stream.
pub mod Code
pub mod Words
pub mod Frames
pub mod Framing
