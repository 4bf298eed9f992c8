-- ===== src/Bytepack.antt =====
-- lib/bytepack: a binary format for sequences of byte strings.
pub mod Utf8
pub mod Pack
pub mod Unpack
pub mod Layout
pub mod Headers
pub mod RoundTrip
pub mod Safety
pub mod Surrogates
mod Examples
