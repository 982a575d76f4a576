-- ===== src/Stream.antt =====
-- src/bdfsclient-lib: byte streams in network order.
pub mod Endian
pub mod Input
pub mod Output
pub mod Bounds
pub mod Writers
pub mod ReadBack
pub mod Arrays
