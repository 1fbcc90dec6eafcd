-- ===== src/Http/ByteRange.antt =====
-- `HttpByteRange` of src/http_parser/http_byte_range.h and src/http_parser/http_byte_range.cc. An
-- `int64_t` is an integer: nothing here leaves its range, since a bound is only lowered to `size`.
mod Selection
mod Tests
pub use Selection.*
pub mod Defs
