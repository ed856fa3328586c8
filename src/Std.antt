-- ===== src/Std.antt =====
-- The parts of Go's standard library that the source uses: UTF-8 text and base64.
pub mod Utf8
pub mod Strings
pub mod Base64
pub mod Decimal
