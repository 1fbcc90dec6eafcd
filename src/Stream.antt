-- ===== src/Stream.antt =====
-- src/tQuicServerStream.cc and src/tQuicServerStream.hh: the stream of one request, its body's
-- buffer, and the server names that it is looked up in.
pub mod Buffer
pub mod Identify
pub mod State
pub mod Response
pub mod Request
